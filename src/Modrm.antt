-- ===== src/Modrm.antt =====
-- x64emu/modrm.c: the ModR/M and SIB bytes, and the operands that they name.
pub mod Bounds
use flux.Base.{ℕ, ◌+◌, ◌*◌, ◌%◌, ◌^◌, ◌&&◌, ◌||◌, ◌==◌, if◌then◌else◌, bit_or}
use flux.Word.{w8, w32, w64, lane, set_lane, sign_extend}
use flux.Machine.{Emu, M, ◌>>=◌, pure}
use flux.Instr.{
  Instr, rex_b, rex_x, rex_r, sib_base, sib_index, sib_scale, modrm_rm, modrm_reg, modrm_mod, fetch,
}

-- A pointer to an operand: into one of the register files of `x64emu_t`, or an address.
pub data Place : Type 0 where
  gpr : ℕ → Place
  xmm : ℕ → Place
  mmx : ℕ → Place
  addr : ℕ → Place

-- The displacement behind the ModR/M and SIB bytes: `switch (ins->modrm.mod)`.
unfoldable pub fetch_displ : Instr → M Instr
fetch_displ ins =
    if modrm_mod ins == 0
    then (if modrm_rm ins == 5 || (modrm_rm ins == 4 && sib_base ins == 5)
        then (do d ← fetch w32; pure (record ins { displ = set_lane w32 0 d ins.displ }))
        else pure ins)
    else if modrm_mod ins == 1
    then (do d ← fetch w8; pure (record ins { displ = set_lane w8 0 d ins.displ }))
    else if modrm_mod ins == 2
    then (do d ← fetch w32; pure (record ins { displ = set_lane w32 0 d ins.displ }))
    else pure ins

unfoldable pub fetch_sib : Instr → M Instr
fetch_sib ins =
    if modrm_rm ins == 4 then (do b ← fetch w8; pure (record ins { sib = b })) else pure ins

unfoldable pub x64modrm_fetch : Instr → M Instr
unfolding fetch_displ fetch_sib
x64modrm_fetch ins = do
  b ← fetch w8
  let ins = record ins { modrm = b }
  if modrm_mod ins == 3 then pure ins else (do ins ← fetch_sib ins; fetch_displ ins)

-- `ins->modrm.reg | (ins->rex.r << 3)`
unfoldable pub reg_index : Instr → ℕ
reg_index ins = bit_or (modrm_reg ins) (rex_r ins * 2 ^ 3)

-- `ins->modrm.rm | (ins->rex.b << 3)`
unfoldable pub rm_index : Instr → ℕ
rm_index ins = bit_or (modrm_rm ins) (rex_b ins * 2 ^ 3)

unfoldable pub x64modrm_get_reg : Instr → Place
unfolding reg_index
x64modrm_get_reg ins = gpr (reg_index ins)

unfoldable pub x64modrm_get_xmm : Instr → Place
unfolding reg_index
x64modrm_get_xmm ins = xmm (reg_index ins)

unfoldable pub x64modrm_get_mmx : Instr → Place
unfolding reg_index
x64modrm_get_mmx ins = mmx (reg_index ins)

unfoldable pub x64sib_get_scaled_index : Instr → Emu → ℕ
x64sib_get_scaled_index ins s =
    if rex_x ins == 0 && sib_index ins == 4
    then 0
    else s.regs (bit_or (sib_index ins) (rex_x ins * 2 ^ 3)) * 2 ^ sib_scale ins % 2 ^ 64

unfoldable pub x64sib_get_base : Instr → Emu → ℕ
x64sib_get_base ins s = s.regs (bit_or (sib_base ins) (rex_b ins * 2 ^ 3))

-- `ins->displ.sd[0]` and `ins->displ.sb[0]`, converted to 64 bits.
unfoldable pub displ_32 : Instr → ℕ
displ_32 ins = sign_extend w32 w64 (lane w32 0 ins.displ)

unfoldable pub displ_8 : Instr → ℕ
displ_8 ins = sign_extend w8 w64 (lane w8 0 ins.displ)

unfoldable pub x64sib_get_00 : Instr → Emu → ℕ
unfolding x64sib_get_scaled_index x64sib_get_base displ_32
x64sib_get_00 ins s =
    (x64sib_get_scaled_index ins s
      + (if sib_base ins == 5 then displ_32 ins else x64sib_get_base ins s))
    % 2 ^ 64

unfoldable pub x64sib_get_01_10 : Instr → Emu → ℕ
unfolding x64sib_get_scaled_index x64sib_get_base
x64sib_get_01_10 ins s = (x64sib_get_scaled_index ins s + x64sib_get_base ins s) % 2 ^ 64

unfoldable pub x64modrm_get_base_rm : Instr → Emu → ℕ
unfolding rm_index
x64modrm_get_base_rm ins s = s.regs (rm_index ins)

-- The address of a memory operand; NULL is 0.
unfoldable pub x64modrm_get_indirect : Instr → Emu → ℕ
unfolding x64sib_get_00 x64sib_get_01_10 x64modrm_get_base_rm displ_32 displ_8
x64modrm_get_indirect ins s =
    if ins.address_sz
    then 0
    else if modrm_mod ins == 0
    then (if modrm_rm ins == 5
        then (s.rip + displ_32 ins) % 2 ^ 64
        else if modrm_rm ins == 4
        then x64sib_get_00 ins s
        else x64modrm_get_base_rm ins s)
    else if modrm_mod ins == 1
    then ((if modrm_rm ins == 4 then x64sib_get_01_10 ins s else x64modrm_get_base_rm ins s)
        + displ_8 ins)
      % 2 ^ 64
    else if modrm_mod ins == 2
    then ((if modrm_rm ins == 4 then x64sib_get_01_10 ins s else x64modrm_get_base_rm ins s)
        + displ_32 ins)
      % 2 ^ 64
    else 0

unfoldable pub x64modrm_get_r_m : Instr → Emu → Place
unfolding rm_index x64modrm_get_indirect
x64modrm_get_r_m ins s =
    if modrm_mod ins == 3 then gpr (rm_index ins) else addr (x64modrm_get_indirect ins s)

unfoldable pub x64modrm_get_xmm_m : Instr → Emu → Place
unfolding rm_index x64modrm_get_indirect
x64modrm_get_xmm_m ins s =
    if modrm_mod ins == 3 then xmm (rm_index ins) else addr (x64modrm_get_indirect ins s)

unfoldable pub x64modrm_get_mmx_m : Instr → Emu → Place
unfolding rm_index x64modrm_get_indirect
x64modrm_get_mmx_m ins s =
    if modrm_mod ins == 3 then mmx (rm_index ins) else addr (x64modrm_get_indirect ins s)
