-- ===== src/Execute/Groups.antt =====
-- The opcodes of x64emu/execute.c that ModR/M.reg extends: `x64execute_80` to `x64execute_ff`.
use flux.Base.{ℕ, ◌^◌, ◌%◌, Bool, true, false, leb, ◌==◌, if◌then◌else◌}
use flux.Word.{Width, w8, w16, w32, w64, lane}
use flux.Machine.{Emu, M, ◌>>=◌, ◌>>◌, pure, gets, set_rip, sub_reg, rcx}
use flux.Instr.{Instr, modrm_reg}
use flux.Modrm.{x64modrm_get_r_m}
use flux.Place.{read, write}
use flux.Stack.{push, pop}
use flux.Alu.{
  Operation, op_s_add, op_s_or, op_s_adc, op_s_sbb, op_s_and, op_s_sub, op_s_xor, op_s_cmp,
  op_s_test_and, op_s_not, op_s_neg, op_s_inc, op_s_dec,
}
use flux.Shift.{op_rol, op_ror, op_rcl, op_rcr, op_shl, op_shr, op_sar}
use flux.Execute.Operands.{imm, perform, op_mov, dest_op2, op2_fixed, s_8, s_32, no_source}

-- `OPCODE_EXT_CASE` of 80, 81 and 83, which is also the order of the opcode families.
unfoldable pub alu_case : ℕ → Operation
unfolding op_s_add op_s_or op_s_adc op_s_sbb op_s_and op_s_sub op_s_xor op_s_cmp
alu_case r =
    if r == 0
    then op_s_add
    else if r == 1
    then op_s_or
    else if r == 2
    then op_s_adc
    else if r == 3
    then op_s_sbb
    else if r == 4
    then op_s_and
    else if r == 5
    then op_s_sub
    else if r == 6
    then op_s_xor
    else op_s_cmp

-- `OPCODE_EXT_CASE` of 0xC0, 0xC1 and D0 .. D3.
unfoldable pub shift_case : ℕ → Operation
unfolding op_rol op_ror op_rcl op_rcr op_shl op_shr op_sar
shift_case r =
    if r == 0
    then op_rol
    else if r == 1
    then op_ror
    else if r == 2
    then op_rcl
    else if r == 3
    then op_rcr
    else if r == 4
    then op_shl
    else if r == 5
    then op_shr
    else if r == 6
    then op_shl
    else op_sar

module _ (ins : Instr) where
  unfoldable pub x64execute_80 : M Bool
  unfolding alu_case perform op2_fixed x64modrm_get_r_m
  x64execute_80 = do
    dest ← gets (x64modrm_get_r_m ins)
    op2_fixed (perform (alu_case (modrm_reg ins))) w8 dest (imm ins.imm)
    pure true

  unfoldable pub x64execute_81 : M Bool
  unfolding alu_case perform dest_op2 s_32 x64modrm_get_r_m
  x64execute_81 = do
    dest ← gets (x64modrm_get_r_m ins)
    dest_op2 (perform (alu_case (modrm_reg ins))) ins dest (s_32 (imm ins.imm))
    pure true

  unfoldable pub x64execute_83 : M Bool
  unfolding alu_case perform dest_op2 s_8 x64modrm_get_r_m
  x64execute_83 = do
    dest ← gets (x64modrm_get_r_m ins)
    dest_op2 (perform (alu_case (modrm_reg ins))) ins dest (s_8 (imm ins.imm))
    pure true

  -- The shift counts: `ins->imm.ub[0]`, 1 and `r_cl`.
  abbrev count_imm : M ℕ
  count_imm = pure (lane w8 0 ins.imm)

  abbrev count_cl : M ℕ
  count_cl = gets (sub_reg w8 0 rcx)

  -- The bodies of 0xC0, D0 and D2, and of 0xC1, D1 and D3.
  unfoldable pub shift_8 : M ℕ → M Bool
  unfolding shift_case perform x64modrm_get_r_m
  shift_8 count = do
    dest ← gets (x64modrm_get_r_m ins)
    n ← count
    perform (shift_case (modrm_reg ins)) w8 dest n
    pure true

  unfoldable pub shift_16_32_64 : M ℕ → M Bool
  unfolding shift_case perform dest_op2 x64modrm_get_r_m
  shift_16_32_64 count = do
    dest ← gets (x64modrm_get_r_m ins)
    dest_op2 (perform (shift_case (modrm_reg ins))) ins dest (λ w. count)
    pure true

  unfoldable pub x64execute_c0 : M Bool
  unfolding shift_8
  x64execute_c0 = shift_8 count_imm

  unfoldable pub x64execute_c1 : M Bool
  unfolding shift_16_32_64
  x64execute_c1 = shift_16_32_64 count_imm

  unfoldable pub x64execute_d0 : M Bool
  unfolding shift_8
  x64execute_d0 = shift_8 (pure 1)

  unfoldable pub x64execute_d1 : M Bool
  unfolding shift_16_32_64
  x64execute_d1 = shift_16_32_64 (pure 1)

  unfoldable pub x64execute_d2 : M Bool
  unfolding shift_8
  x64execute_d2 = shift_8 count_cl

  unfoldable pub x64execute_d3 : M Bool
  unfolding shift_16_32_64
  x64execute_d3 = shift_16_32_64 count_cl

  unfoldable pub x64execute_8f : M Bool
  unfolding pop write x64modrm_get_r_m
  x64execute_8f = do
    dest ← gets (x64modrm_get_r_m ins)
    let width : Width = if ins.operand_sz then w16 else w64
    if modrm_reg ins == 0 then (do v ← pop width; write width 0 dest v; pure true) else pure false

  unfoldable pub x64execute_c6 : M Bool
  unfolding op2_fixed op_mov x64modrm_get_r_m
  x64execute_c6 = do
    dest ← gets (x64modrm_get_r_m ins)
    if modrm_reg ins == 0
        then (do op2_fixed op_mov w8 dest (imm ins.imm); pure true)
        else pure false

  unfoldable pub x64execute_c7 : M Bool
  unfolding dest_op2 op_mov s_32 x64modrm_get_r_m
  x64execute_c7 = do
    dest ← gets (x64modrm_get_r_m ins)
    if modrm_reg ins == 0
        then (do dest_op2 op_mov ins dest (s_32 (imm ins.imm)); pure true)
        else pure false

  unfoldable pub x64execute_f6 : M Bool
  unfolding op2_fixed perform op_s_test_and op_s_not op_s_neg x64modrm_get_r_m
  x64execute_f6 = do
    dest ← gets (x64modrm_get_r_m ins)
    if leb (modrm_reg ins) 1
        then (do op2_fixed (perform op_s_test_and) w8 dest (imm ins.imm); pure true)
        else if modrm_reg ins == 2
        then (do perform op_s_not w8 dest 0; pure true)
        else if modrm_reg ins == 3
        then (do perform op_s_neg w8 dest 0; pure true)
        else pure false

  unfoldable pub x64execute_f7 : M Bool
  unfolding dest_op2 perform s_32 op_s_test_and op_s_not op_s_neg x64modrm_get_r_m
  x64execute_f7 = do
    dest ← gets (x64modrm_get_r_m ins)
    if leb (modrm_reg ins) 1
        then (do dest_op2 (perform op_s_test_and) ins dest (s_32 (imm ins.imm)); pure true)
        else if modrm_reg ins == 2
        then (do dest_op2 (perform op_s_not) ins dest no_source; pure true)
        else if modrm_reg ins == 3
        then (do dest_op2 (perform op_s_neg) ins dest no_source; pure true)
        else pure false

  unfoldable pub x64execute_fe : M Bool
  unfolding perform op_s_inc op_s_dec x64modrm_get_r_m
  x64execute_fe = do
    dest ← gets (x64modrm_get_r_m ins)
    if modrm_reg ins == 0
        then (do perform op_s_inc w8 dest 1; pure true)
        else if modrm_reg ins == 1
        then (do perform op_s_dec w8 dest 1; pure true)
        else pure false

  -- `push_32(emu, r_eip)` or `push_64(emu, r_rip)`
  unfoldable pub push_return : M (Unit {0})
  unfolding push
  push_return = do
    rip ← gets Emu.rip
    if ins.address_sz then push w32 (rip % 2 ^ 32) else push w64 rip

  unfoldable pub x64execute_ff : M Bool
  unfolding dest_op2 perform op_s_inc op_s_dec push_return read x64modrm_get_r_m
  x64execute_ff = do
    dest ← gets (x64modrm_get_r_m ins)
    if modrm_reg ins == 0
        then (do dest_op2 (perform op_s_inc) ins dest (λ w. pure 1); pure true)
        else if modrm_reg ins == 1
        then (do dest_op2 (perform op_s_dec) ins dest (λ w. pure 1); pure true)
        else if modrm_reg ins == 2
        then (do push_return; target ← read w64 0 dest; set_rip target; pure true)
        else if modrm_reg ins == 4
        then (do target ← read w64 0 dest; set_rip target; pure true)
        else pure false
