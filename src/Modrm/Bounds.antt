-- ===== src/Modrm/Bounds.antt =====
-- The register numbers of x64emu/modrm.c and of the opcodes that hold one.
use flux.Base.{ℕ, ◌*◌, ◌%◌, ◌^◌, ◌<◌, ◌==◌, arith, bit_or, bit_or-lt, if_both}
use flux.Machine.{Emu}
use flux.Instr.{Instr, modrm_mod, modrm_reg, modrm_rm, rex_r, rex_b}
use flux.Modrm.{
  Place, gpr, xmm, mmx, addr, reg_index, rm_index, x64modrm_get_reg, x64modrm_get_xmm,
  x64modrm_get_mmx, x64modrm_get_r_m, x64modrm_get_xmm_m, x64modrm_get_mmx_m,
}
use flux.Execute.Low.{opcode_reg}

-- A pointer into a register file of 16 is to one of its registers.
abbrev pub IsInFile : Place → Type 0
IsInFile (gpr i) = i < 16
IsInFile (xmm i) = i < 16
IsInFile (mmx i) = i < 16
IsInFile (addr a) = Unit

-- Three bits and one bit above them.
four_bits : (low high : ℕ) → low < 8 → high < 2 → bit_or low (high * 2 ^ 3) < 16
four_bits low high h k = bit_or-lt 4 low (high * 2 ^ 3) (omega arith) (omega arith)

module _ (ins : Instr) where
  reg_index-lt : reg_index ins < 16
  unfolding reg_index
  reg_index-lt = four_bits (modrm_reg ins) (rex_r ins) (omega arith) (omega arith)

  rm_index-lt : rm_index ins < 16
  unfolding rm_index
  rm_index-lt = four_bits (modrm_rm ins) (rex_b ins) (omega arith) (omega arith)

  -- Whatever the bytes of an instruction are, every operand pointer of modrm.c that is no address
  -- is to one of the 16 registers of its file, and so is the register number in an opcode.
  pub operand-IsInFile :
      (op : ℕ) (s : Emu)
      → IsInFile (x64modrm_get_reg ins)
        × IsInFile (x64modrm_get_xmm ins)
        × IsInFile (x64modrm_get_mmx ins)
        × IsInFile (x64modrm_get_r_m ins s)
        × IsInFile (x64modrm_get_xmm_m ins s)
        × IsInFile (x64modrm_get_mmx_m ins s)
        × IsInFile (gpr (opcode_reg ins op))
  unfolding x64modrm_get_reg x64modrm_get_xmm x64modrm_get_mmx x64modrm_get_r_m x64modrm_get_xmm_m
      x64modrm_get_mmx_m opcode_reg
  operand-IsInFile op s = (
    reg_index-lt,
    reg_index-lt,
    reg_index-lt,
    if_both IsInFile (modrm_mod ins == 3) rm_index-lt tt,
    if_both IsInFile (modrm_mod ins == 3) rm_index-lt tt,
    if_both IsInFile (modrm_mod ins == 3) rm_index-lt tt,
    four_bits (op % 8) (rex_b ins) (omega arith) (omega arith),
  )
