-- ===== src/Instr.antt =====
-- The decoded instruction, `x64instr_t` (x64emu/include/x64instr.h), without the trace fields of a
-- debug build, and the fetches of a build without HAVE_TRACE.
use flux.Base.{ℕ, ◌+◌, ◌/◌, ◌%◌, Bool, false, ◌==◌}
use flux.Word.{Width, bytes}
use flux.Machine.{M, ◌>>=◌, ◌>>◌, gets, load, set_rip, Emu}

-- `rex`, `modrm` and `sib` are the bytes of the three unions.
pub record Instr : Type 0 where
  pub rep : ℕ
  pub rex : ℕ
  pub operand_sz : Bool
  pub address_sz : Bool
  pub opcode : ℕ
  pub opcode_0f : ℕ
  pub modrm : ℕ
  pub sib : ℕ
  pub displ : ℕ
  pub imm : ℕ

-- `x64instr_t instr = { 0 }`
abbrev pub blank : Instr
blank = record {
  rep = 0;
  rex = 0;
  operand_sz = false;
  address_sz = false;
  opcode = 0;
  opcode_0f = 0;
  modrm = 0;
  sib = 0;
  displ = 0;
  imm = 0;
}

-- The bit fields of the REX prefix.
abbrev pub rex_b : Instr → ℕ
rex_b ins = ins.rex % 2

abbrev pub rex_x : Instr → ℕ
rex_x ins = ins.rex / 2 % 2

abbrev pub rex_r : Instr → ℕ
rex_r ins = ins.rex / 4 % 2

abbrev pub rex_w : Instr → Bool
rex_w ins = ins.rex / 8 % 2 == 1

-- The bit fields of the SIB byte.
abbrev pub sib_base : Instr → ℕ
sib_base ins = ins.sib % 8

abbrev pub sib_index : Instr → ℕ
sib_index ins = ins.sib / 8 % 8

abbrev pub sib_scale : Instr → ℕ
sib_scale ins = ins.sib / 64 % 4

-- The bit fields of the ModR/M byte.
abbrev pub modrm_rm : Instr → ℕ
modrm_rm ins = ins.modrm % 8

abbrev pub modrm_reg : Instr → ℕ
modrm_reg ins = ins.modrm / 8 % 8

abbrev pub modrm_mod : Instr → ℕ
modrm_mod ins = ins.modrm / 64 % 4

-- `fetch_8` .. `fetch_64`: the bytes at RIP, which moves behind them.
unfoldable pub fetch : Width → M ℕ
fetch w = do rip ← gets Emu.rip; set_rip (rip + bytes w); load w rip
