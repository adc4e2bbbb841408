-- ===== src/Execute/High.antt =====
-- The cases 90 .. FF of `x64execute` (x64emu/execute.c).
use flux.Base.{
  ℕ, zero, suc, ◌+◌, ◌-◌, ◌%◌, ◌^◌, Bool, true, false, leb, ◌==◌, if◌then◌else◌, in_range,
}
use flux.Word.{Width, w8, w16, w32, w64, modulus, bytes, lane, set_lane, sign_extend}
use flux.Machine.{
  Emu, M, ◌>>=◌, ◌>>◌, pure, gets, store, set_reg, set_rip, reg, sub_reg, rax, rcx, rdx, rsp, rbp,
  rdi,
}
use flux.Machine.Flags.{direction, flag}
use flux.Instr.{Instr}
use flux.Modrm.{gpr}
use flux.Stack.{pop}
use flux.Alu.{op_s_test_and}
use flux.Execute.Operands.{imm, perform, op_mov, op_xchg, op_width, dest_op2, op2_fixed, s_32, u_64}
use flux.Execute.Groups.{
  x64execute_c0, x64execute_c1, x64execute_c6, x64execute_c7, x64execute_d0, x64execute_d1,
  x64execute_d2, x64execute_d3, x64execute_f6, x64execute_f7, x64execute_fe, x64execute_ff,
  push_return,
}
use flux.Execute.Low.{opcode_reg, jump}
use flux.Execute.FlagOps.{pushf, popf, sahf, lahf, cmc, set_clear}

-- The sources of 98 and 99: `(int64_t)s_eax`, `(int16_t)s_al`, `(int32_t)s_ax`.
unfoldable pub extended_acc : Width → M ℕ
extended_acc w64 = gets λ s. sign_extend w32 w64 (sub_reg w32 0 rax s)
extended_acc w16 = gets λ s. sign_extend w8 w16 (sub_reg w8 0 rax s)
extended_acc w = gets λ s. sign_extend w16 w32 (sub_reg w16 0 rax s)

-- The loops of `OP_U_MOV_REP`: `count` is the width of the counter, `n` its value.
unfoldable pub rep_loop : ℕ → Width → Width → ℕ → ℕ → M (Unit {0})
rep_loop zero count w dest v = pure tt
rep_loop (suc n) count w dest v = do
  flags ← gets Emu.flags
  store w dest v
  c ← gets (sub_reg count 0 rcx)
  set_reg count 0 rcx (c + modulus count - 1)
  rep_loop n count w
      ((if flag direction flags then dest + 2 ^ 64 - bytes w else dest + bytes w) % 2 ^ 64) v

module _ (ins : Instr) where
  -- `OP_U_MOV_REP`, of AA and AB.
  unfoldable pub op_mov_rep : Width → ℕ → ℕ → M (Unit {0})
  unfolding rep_loop
  op_mov_rep w dest v = do
    n ← gets (reg rcx)
    if ins.rep == 0
        then store w dest v
        else if ins.address_sz
        then rep_loop (lane w32 0 n) w32 w dest v
        else rep_loop n w64 w dest v

  unfoldable pub stos : Width → M Bool
  unfolding op_mov_rep
  stos w = do
    dest ← gets λ s. if ins.address_sz then sub_reg w32 0 rdi s else reg rdi s
    v ← gets (sub_reg w 0 rax)
    op_mov_rep w dest v
    pure true

  -- 0xC2 and 0xC3
  unfoldable pub ret : M (Unit {0})
  unfolding pop
  ret =
      if ins.address_sz
      then (do v ← pop w32; rip ← gets Emu.rip; set_rip (set_lane w32 0 v rip))
      else (do v ← pop w64; set_rip v)

  unfoldable pub ret_imm : M Bool
  unfolding ret
  ret_imm = do ret; sp ← gets (reg rsp); set_reg w64 0 rsp (sp + lane w16 0 ins.imm); pure true

  -- 0xC9
  unfoldable pub leave : M Bool
  unfolding pop
  leave = do
    let width : Width = if ins.operand_sz then w16 else w64
    bp ← gets (sub_reg width 0 rbp)
    set_reg width 0 rsp bp
    v ← pop width
    set_reg width 0 rbp v
    pure true

  -- E8
  unfoldable pub call_32 : M Bool
  unfolding push_return jump
  call_32 = do push_return ins; jump (sign_extend w32 w64 (lane w32 0 ins.imm)); pure true

  -- E9 and EB
  unfoldable pub jmp : Width → M Bool
  unfolding jump
  jmp w = do jump (sign_extend w w64 (lane w 0 ins.imm)); pure true

  -- 90 .. 97
  unfoldable pub xchg_acc : ℕ → M Bool
  unfolding op_xchg opcode_reg
  xchg_acc op = do op_xchg (op_width ins) (gpr (opcode_reg ins op)) (gpr rax); pure true

  -- 98 and 99
  unfoldable pub extend_acc : ℕ → M Bool
  unfolding dest_op2 op_mov extended_acc
  extend_acc dest = do dest_op2 op_mov ins (gpr dest) extended_acc; pure true

  -- A8 and A9
  unfoldable pub test_acc : ℕ → M Bool
  unfolding op2_fixed dest_op2 perform op_s_test_and s_32
  test_acc op = do
    if op == 0xA8
        then op2_fixed (perform op_s_test_and) w8 (gpr rax) (imm ins.imm)
        else dest_op2 (perform op_s_test_and) ins (gpr rax) (s_32 (imm ins.imm))
    pure true

  -- B0 .. BF
  unfoldable pub mov_imm : ℕ → M Bool
  unfolding op2_fixed dest_op2 op_mov u_64 opcode_reg
  mov_imm op = do
    if leb op 0xB7
        then op2_fixed op_mov w8 (gpr (opcode_reg ins op)) (imm ins.imm)
        else dest_op2 op_mov ins (gpr (opcode_reg ins op)) (u_64 (imm ins.imm))
    pure true

  unfoldable pub x64execute_mid : ℕ → M Bool
  unfolding pushf popf sahf lahf stos xchg_acc extend_acc test_acc mov_imm
  x64execute_mid op =
      if in_range 0x90 0x97 op
      then xchg_acc op
      else if op == 0x98
      then extend_acc rax
      else if op == 0x99
      then extend_acc rdx
      else if op == 0x9C
      then pushf ins
      else if op == 0x9D
      then popf ins
      else if op == 0x9E
      then sahf ins
      else if op == 0x9F
      then lahf ins
      else if in_range 0xA8 0xA9 op
      then test_acc op
      else if op == 0xAA
      then stos w8
      else if op == 0xAB
      then stos (op_width ins)
      else if in_range 0xB0 0xBF op
      then mov_imm op
      else pure false

  unfoldable pub x64execute_high : ℕ → M Bool
  unfolding x64execute_c0 x64execute_c1 x64execute_c6 x64execute_c7 x64execute_d0 x64execute_d1
      x64execute_d2 x64execute_d3 x64execute_f6 x64execute_f7 x64execute_fe x64execute_ff ret
      ret_imm leave call_32 jmp cmc set_clear
  x64execute_high op =
      if op == 0xC0
      then x64execute_c0 ins
      else if op == 0xC1
      then x64execute_c1 ins
      else if op == 0xC2
      then ret_imm
      else if op == 0xC3
      then (do ret; pure true)
      else if op == 0xC6
      then x64execute_c6 ins
      else if op == 0xC7
      then x64execute_c7 ins
      else if op == 0xC9
      then leave
      else if op == 0xD0
      then x64execute_d0 ins
      else if op == 0xD1
      then x64execute_d1 ins
      else if op == 0xD2
      then x64execute_d2 ins
      else if op == 0xD3
      then x64execute_d3 ins
      else if op == 0xE8
      then call_32
      else if op == 0xE9
      then jmp w32
      else if op == 0xEB
      then jmp w8
      else if op == 0xF5
      then cmc ins
      else if op == 0xF6
      then x64execute_f6 ins
      else if op == 0xF7
      then x64execute_f7 ins
      else if in_range 0xF8 0xFD op
      then set_clear ins op
      else if op == 0xFE
      then x64execute_fe ins
      else if op == 0xFF
      then x64execute_ff ins
      else pure false
