-- ===== src/Cond.antt =====
-- The conditions of Jcc, SETcc and CMOVcc, at the end of x64emu/execute_private.h.
pub mod Laws
use flux.Base.{ℕ, ◌%◌, Bool, ◌&&◌, ◌||◌, not, ◌==◌, if◌then◌else◌}
use mathlib.Core.Bool.{xor}
use flux.Machine.Flags.{carry, parity, zero_flag, sign, overflow, flag}

-- `switch (op & 0xF)`
unfoldable pub x64execute_jmp_cond : ℕ → ℕ → Bool
unfolding xor
x64execute_jmp_cond op flags =
    let c = op % 16 in
    let of = flag overflow flags in
    let cf = flag carry flags in
    let zf = flag zero_flag flags in
    let sf = flag sign flags in
    let pf = flag parity flags in
    if c == 0x0
    then of
    else if c == 0x1
    then not of
    else if c == 0x2
    then cf
    else if c == 0x3
    then not cf
    else if c == 0x4
    then zf
    else if c == 0x5
    then not zf
    else if c == 0x6
    then cf || zf
    else if c == 0x7
    then not cf && not zf
    else if c == 0x8
    then sf
    else if c == 0x9
    then not sf
    else if c == 0xA
    then pf
    else if c == 0xB
    then not pf
    else if c == 0xC
    then xor sf of
    else if c == 0xD
    then not (xor sf of)
    else if c == 0xE
    then zf || xor sf of
    else not zf && not (xor sf of)
