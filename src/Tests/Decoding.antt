-- ===== src/Tests/Decoding.antt =====
-- A run of the decoder: ADD DWORD PTR [RAX + RCX * 4 + displ], imm with two legacy prefixes.
use flux.Base.{
  length, ◌+◌, ◌-◌, ◌^◌, ◌≤◌, ◌<◌, ◌==◌, if◌then◌else◌, ◌≡◌, refl, true, some, [], ◌∷◌, arith, none,
  ℕ,
}
use flux.Machine.{Emu, ok}
use flux.Decode.Opcodes.{layout_2}
use flux.Decode.Format.{Encoding, Legacy, ds, one_byte, encode, CodeAt}
use flux.Decode.Roundtrip.{IsEncoding}
use flux.Execute.{x64emu_step}
use flux.Isa.{Mnemonic, Form, memory, immediate}
use flux.Word.{w32}
use flux.Machine.{exited, sub_reg, rax, rdi, ◌>>=◌, set_rip, all_allowed, load_le}
use flux.Instr.{fetch}
use flux.Execute.{x64emu_run}
use flux.Execute.Run.{here, pass}
use flux.Execute.Exit.{syscall, x64emu_run-exit}
use flux.Tests.State.{quiet, machine, plain_regs}

abbrev add_scaled : Encoding
add_scaled = record {
  prefixes = ds ∷ Legacy.rep ∷ [];
  rex = some 0x43;
  opcode = one_byte 0x81;
  modrm = 0x84;
  sib = 0x88 ∷ [];
  displ = 0xF0 ∷ 0xFF ∷ 0xFF ∷ 0xFF ∷ [];
  imm = 0x78 ∷ 0x56 ∷ 0x34 ∷ 0x12 ∷ [];
}

abbrev fetching : Emu
fetching = machine (encode add_scaled) plain_regs

-- The instruction is ADD DWORD PTR [R8 + R9 * 4 - 16], 0x12345678.
abbrev scaled_form : Form
scaled_form = record {
  op = Mnemonic.add;
  width = w32;
  dest = memory (2 ^ 64 - 11);
  source = immediate 0x12345678;
}

-- NOP with ModR/M, and SYSCALL, which asks to exit with the status 5.
abbrev ending : Emu
ending = machine (0x0F ∷ 0x1F ∷ 0xC0 ∷ 0x0F ∷ 0x05 ∷ []) (λ i. if i == rax then 0x3C else 5)

abbrev at_exit : Emu
at_exit = record ending { rip = 0x1003 }

ending-step : x64emu_step quiet 1 ending ≡ ok true at_exit
unfolding x64emu_step ◌>>=◌ fetch set_rip all_allowed load_le
ending-step = refl

syscall-IsEncoding : IsEncoding (syscall [] none)
unfolding layout_2
syscall-IsEncoding = record {
  known = λ e. cc;
  byte = omega arith;
  follows = refl;
  whole = tt;
  sib_size = refl;
  displ_size = refl;
  imm_size = refl;
  plain = tt;
  displ_bytes = tt;
  imm_bytes = tt;
}

syscall-fits : 0x1003 + length (encode (syscall [] none)) < 2 ^ 64
unfolding layout_2
syscall-fits = omega arith

syscall-CodeAt : CodeAt at_exit.mem 0x1003 (encode (syscall [] none))
unfolding layout_2
syscall-CodeAt = grind arith

x64emu_run-exit_example :
    (n : ℕ) × ((m : ℕ) → n ≤ m → x64emu_run quiet 1 m ending ≡ exited (sub_reg w32 0 rdi at_exit))
x64emu_run-exit_example =
    x64emu_run-exit quiet 1 ending at_exit [] none (pass ending-step here) syscall-IsEncoding
      (omega arith) syscall-fits syscall-CodeAt refl
