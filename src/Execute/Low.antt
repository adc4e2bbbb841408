-- ===== src/Execute/Low.antt =====
-- The cases 00 .. 8F of `x64execute` (x64emu/execute.c), the two-byte opcodes apart.
use flux.Base.{
  ℕ, ◌+◌, ◌*◌, ◌/◌, ◌%◌, ◌^◌, Bool, true, false, ◌&&◌, leb, ◌==◌, if◌then◌else◌, in_range, bit_or,
}
use flux.Word.{Width, w8, w16, w32, w64, lane, sign_extend, trunc}
use flux.Machine.{Emu, M, ◌>>=◌, ◌>>◌, pure, gets, set_rip, rax}
use flux.Instr.{Instr, rex_b}
use flux.Modrm.{gpr, x64modrm_get_reg, x64modrm_get_r_m}
use flux.Place.{read, write, place_address}
use flux.Stack.{push, pop}
use flux.Alu.{op_s_test_and}
use flux.Cond.{x64execute_jmp_cond}
use flux.Execute.Operands.{
  at, imm, perform, op_mov, op_xchg, op_width, dest_op2, op2_fixed, s_32, s_64, u_64,
}
use flux.Execute.Groups.{alu_case, x64execute_80, x64execute_81, x64execute_83, x64execute_8f}

-- `r_rip += ...`
unfoldable pub jump : ℕ → M (Unit {0})
jump offset = do rip ← gets Emu.rip; set_rip (rip + offset)

module _ (ins : Instr) where
  -- `OPCODE_FAMILY(start, oper)`: case `start + form`.
  unfoldable pub opcode_family : ℕ → ℕ → M Bool
  unfolding alu_case perform op2_fixed dest_op2 s_32 s_64 x64modrm_get_reg x64modrm_get_r_m
  opcode_family start form = do
    let oper = perform (alu_case (start / 8))
    r_m ← gets (x64modrm_get_r_m ins)
    let reg = x64modrm_get_reg ins
    if form == 0
        then op2_fixed oper w8 r_m (at reg)
        else if form == 1
        then dest_op2 oper ins r_m (s_64 (at reg))
        else if form == 2
        then op2_fixed oper w8 reg (at r_m)
        else if form == 3
        then dest_op2 oper ins reg (s_64 (at r_m))
        else if form == 4
        then op2_fixed oper w8 (gpr rax) (imm ins.imm)
        else dest_op2 oper ins (gpr rax) (s_32 (imm ins.imm))
    pure true

  -- `(op & 7) | (ins->rex.b << 3)`
  unfoldable pub opcode_reg : ℕ → ℕ
  opcode_reg op = bit_or (op % 8) (rex_b ins * 2 ^ 3)

  -- 50 .. 57
  unfoldable pub push_reg : ℕ → M Bool
  unfolding opcode_reg push read
  push_reg op = do
    let width : Width = if ins.operand_sz then w16 else w64
    v ← read width 0 (gpr (opcode_reg op))
    push width v
    pure true

  -- 58 .. 5F
  unfoldable pub pop_reg : ℕ → M Bool
  unfolding opcode_reg pop write
  pop_reg op = do
    let width : Width = if ins.operand_sz then w16 else w64
    v ← pop width
    write width 0 (gpr (opcode_reg op)) v
    pure true

  -- 68
  unfoldable pub push_imm_16_32 : M Bool
  unfolding push
  push_imm_16_32 = do
    if ins.operand_sz
        then push w16 (lane w16 0 ins.imm)
        else push w64 (sign_extend w32 w64 (lane w32 0 ins.imm))
    pure true

  -- 6A
  unfoldable pub push_imm_8 : M Bool
  unfolding push
  push_imm_8 = do
    if ins.operand_sz
        then push w16 (sign_extend w8 w16 (lane w8 0 ins.imm))
        else push w64 (sign_extend w8 w64 (lane w8 0 ins.imm))
    pure true

  -- 70 .. 7F
  unfoldable pub jcc_8 : ℕ → M Bool
  unfolding jump x64execute_jmp_cond
  jcc_8 op = do
    flags ← gets Emu.flags
    if x64execute_jmp_cond op flags then jump (sign_extend w8 w64 (lane w8 0 ins.imm)) else pure tt
    pure true

  -- 8D
  unfoldable pub lea : M Bool
  unfolding dest_op2 op_mov place_address x64modrm_get_reg x64modrm_get_r_m
  lea = do
    src ← gets λ s. place_address (x64modrm_get_r_m ins s) s
    dest_op2 op_mov ins (x64modrm_get_reg ins) (λ w. pure (trunc w src))
    pure true

  -- 84 .. 8B, where `op` chooses the operation and its direction.
  unfoldable pub test_xchg_mov : ℕ → M Bool
  unfolding perform op2_fixed dest_op2 op_mov op_xchg op_s_test_and s_64 u_64 x64modrm_get_reg
      x64modrm_get_r_m
  test_xchg_mov op = do
    r_m ← gets (x64modrm_get_r_m ins)
    let reg = x64modrm_get_reg ins
    if op == 0x84
        then op2_fixed (perform op_s_test_and) w8 r_m (at reg)
        else if op == 0x85
        then dest_op2 (perform op_s_test_and) ins r_m (s_64 (at reg))
        else if op == 0x86
        then op_xchg w8 reg r_m
        else if op == 0x87
        then op_xchg (op_width ins) reg r_m
        else if op == 0x88
        then op2_fixed op_mov w8 r_m (at reg)
        else if op == 0x89
        then dest_op2 op_mov ins r_m (u_64 (at reg))
        else if op == 0x8A
        then op2_fixed op_mov w8 reg (at r_m)
        else dest_op2 op_mov ins reg (u_64 (at r_m))
    pure true

  -- 63
  unfoldable pub movsxd : M Bool
  unfolding dest_op2 op_mov s_32 x64modrm_get_reg x64modrm_get_r_m
  movsxd = do
    r_m ← gets (x64modrm_get_r_m ins)
    dest_op2 op_mov ins (x64modrm_get_reg ins) (s_32 (at r_m))
    pure true

  unfoldable pub x64execute_low : ℕ → M Bool
  unfolding opcode_family push_reg pop_reg push_imm_16_32 push_imm_8 jcc_8 lea test_xchg_mov movsxd
      x64execute_80 x64execute_81 x64execute_83 x64execute_8f
  x64execute_low op =
      if leb op 0x3D && leb (op % 8) 5
      then opcode_family (op / 8 * 8) (op % 8)
      else if in_range 0x50 0x57 op
      then push_reg op
      else if in_range 0x58 0x5F op
      then pop_reg op
      else if op == 0x63
      then movsxd
      else if op == 0x68
      then push_imm_16_32
      else if op == 0x6A
      then push_imm_8
      else if in_range 0x70 0x7F op
      then jcc_8 op
      else if op == 0x80
      then x64execute_80 ins
      else if op == 0x81
      then x64execute_81 ins
      else if op == 0x83
      then x64execute_83 ins
      else if in_range 0x84 0x8B op
      then test_xchg_mov op
      else if op == 0x8D
      then lea
      else if op == 0x8F
      then x64execute_8f ins
      else pure false
