-- ===== src/Execute/Exit.antt =====
-- How a guest ends: the loop of `x64emu_run` (x64emu/emu.c) at a SYSCALL that asks for `exit`.
use flux.Base.{
  length, ℕ, ◌+◌, ◌^◌, ◌≤◌, ◌<◌, ◌≡◌, refl, ap, ◌∙◌, Bool, true, ◌==◌, if_true, Option, List, [],
}
use flux.Word.{w32}
use flux.Machine.{Emu, M, ok, exited, ◌>>=◌, sub_reg, rax, rdi}
use flux.Instr.{Instr, blank}
use flux.Context.{Os}
use flux.Syscall.{x64syscall}
use flux.Syscall.Laws.{x64syscall-exit}
use flux.Decode.{x64decode}
use flux.Decode.Opcodes.{layout_2}
use flux.Decode.Format.{CodeAt, Legacy, two_byte, Encoding, encode, fields}
use flux.Decode.Roundtrip.{IsEncoding, x64decode-encode}
use flux.Execute.{x64execute, x64emu_step, x64emu_run}
use flux.Execute.TwoByte.{x64execute_0f}
use flux.Execute.Run.{ReachedFrom, x64emu_run-loop}

-- A SYSCALL with its prefixes.
abbrev pub syscall : List Legacy → Option ℕ → Encoding
syscall legacy rex = record {
  prefixes = legacy;
  rex = rex;
  opcode = two_byte 0x05;
  modrm = 0;
  sib = [];
  displ = [];
  imm = [];
}

module _ (os : Os) where
  two_byte-eq :
      (ins : Instr) → (ins.opcode == 0x0F) ≡ true → x64execute os ins ≡ x64execute_0f os ins
  unfolding x64execute
  two_byte-eq ins h = if_true _ _ h

  syscall-eq : (ins : Instr) → (ins.opcode_0f == 0x05) ≡ true → x64execute_0f os ins ≡ x64syscall os
  unfolding x64execute_0f
  syscall-eq ins h = if_true _ _ h

  -- An instruction that is decoded is executed.
  step-syscall :
      (prefixes : ℕ) (ins : Instr) (s t : Emu)
      → x64decode prefixes blank s ≡ ok (true, ins) t
      → (ins.opcode == 0x0F) ≡ true
      → (ins.opcode_0f == 0x05) ≡ true
      → x64emu_step os prefixes s ≡ x64syscall os t
  unfolding x64emu_step ◌>>=◌
  step-syscall prefixes ins s t decoded first second =
      rw decoded (ap (λ (m : M Bool). m t) (two_byte-eq ins first ∙ syscall-eq ins second))

  module _ (prefixes : ℕ) (s last : Emu) where
    -- A guest that gets, in passes of the loop, to a SYSCALL with RAX at 0x3C ends the process with
    -- the low half of RDI as the status: from some number of instructions on, x64emu_run exits with
    -- it, whatever bound it is given. The instruction may have prefixes, fewer than the fuel of the
    -- decoder, and can be read.
    pub x64emu_run-exit :
        (legacy : List Legacy) (rex : Option ℕ)
        → ReachedFrom os prefixes last s
        → IsEncoding (syscall legacy rex)
        → length legacy < prefixes
        → last.rip + length (encode (syscall legacy rex)) < 2 ^ 64
        → CodeAt last.mem last.rip (encode (syscall legacy rex))
        → last.regs rax ≡ 0x3C
        → (n : ℕ) × ((m : ℕ) → n ≤ m → x64emu_run os prefixes m s ≡ exited (sub_reg w32 0 rdi last))
    unfolding layout_2
    x64emu_run-exit legacy rex reached encoded enough fits code number =
        (x64emu_run-loop os prefixes s (exited (sub_reg w32 0 rdi last)) tt).0 (record {
          last = last;
          reached = reached;
          ends =
              step-syscall prefixes (fields (syscall legacy rex)) last _
                (x64decode-encode (syscall legacy rex) prefixes encoded enough last fits code) refl
                refl
              ∙ x64syscall-exit os _ number;
        })
