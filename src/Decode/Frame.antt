-- ===== src/Decode/Frame.antt =====
-- The part of the state that `x64decode` (x64emu/decode.c) works on.
use flux.Base.{ℕ, ◌%◌, ◌^◌, ◌≡◌, refl}
use mathlib.Core.Path.{ap}
use flux.Machine.{Emu, set_rip}
use flux.Machine.Keeps.{After, Keeps, Keeps-modify}
use flux.Instr.{Instr}
use flux.Decode.{x64decode}
use flux.Decode.Keeps.{Keeps-x64decode}

-- `t` is `s` but for RIP.
abbrev pub MovedFrom : Emu → Emu → Type 0
MovedFrom s t = t ≡ record s { rip = t.rip }

set_rip-MovedFrom : (s : Emu) (v : ℕ) → Keeps (MovedFrom s) (set_rip v)
unfolding set_rip
set_rip-MovedFrom s v = Keeps-modify _ λ t h. ap (λ (u : Emu). record u { rip = v % 2 ^ 64 }) h

-- Whatever bytes it meets, decoding returns, if it does not fault, in a state that differs from
-- the one it began in by RIP alone: no register, flag or byte of memory has changed.
pub x64decode-MovedFrom :
    (fuel : ℕ) (ins : Instr) (s : Emu) → After (MovedFrom s) (x64decode fuel ins s)
x64decode-MovedFrom fuel ins s = (Keeps-x64decode (set_rip-MovedFrom s) fuel ins).at s refl
