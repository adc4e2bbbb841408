-- ===== src/Isa/Pieces.antt =====
-- The pieces of `x64execute` (x64emu/execute.c) that TEST, INC and DEC go through.
use flux.Base.{if_true, if_false, ◌≡◌, ◌∙◌, ap, arith, Bool, true, false, leb, ◌==◌}
use flux.Word.{w8}
use flux.Machine.{Emu, M, ◌>>=◌, and_then, pure}
use flux.Instr.{Instr, modrm_reg}
use flux.Modrm.{x64modrm_get_r_m}
use flux.Alu.{op_s_test_and, op_s_inc, op_s_dec}
use flux.Context.{Os}
use flux.Execute.{x64execute}
use flux.Execute.Operands.{imm, perform, op2_fixed, dest_op2, s_32}
use flux.Execute.Groups.{x64execute_f6, x64execute_f7, x64execute_fe, x64execute_ff}
use flux.Execute.Low.{x64execute_low, test_xchg_mov}
use flux.Execute.High.{x64execute_mid, x64execute_high, test_acc}
use flux.Isa.Macros.{execute_low}

-- What `x64execute` calls, with the calls shut.
module _ (os : Os) (ins : Instr) where
  execute_mid :
      (ins.opcode == 0x0F) ≡ false
      → leb ins.opcode 0x8F ≡ false
      → leb ins.opcode 0xBF ≡ true
      → x64execute os ins ≡ x64execute_mid ins ins.opcode
  unfolding x64execute
  execute_mid two low mid = if_false _ _ two ∙ if_false _ _ low ∙ if_true _ _ mid

  execute_high :
      (ins.opcode == 0x0F) ≡ false
      → leb ins.opcode 0x8F ≡ false
      → leb ins.opcode 0xBF ≡ false
      → x64execute os ins ≡ x64execute_high ins ins.opcode
  unfolding x64execute
  execute_high two low mid = if_false _ _ two ∙ if_false _ _ low ∙ if_false _ _ mid

  pub execute_84 : ins.opcode ≡ 0x84 → x64execute os ins ≡ test_xchg_mov ins 0x84
  unfolding x64execute_low
  execute_84 h = execute_low os ins (rw h) (rw h) ∙ ap (x64execute_low ins) h

  pub execute_85 : ins.opcode ≡ 0x85 → x64execute os ins ≡ test_xchg_mov ins 0x85
  unfolding x64execute_low
  execute_85 h = execute_low os ins (rw h) (rw h) ∙ ap (x64execute_low ins) h

  pub execute_a8 : ins.opcode ≡ 0xA8 → x64execute os ins ≡ test_acc ins 0xA8
  unfolding x64execute_mid
  execute_a8 h = execute_mid (rw h) (rw h) (rw h) ∙ ap (x64execute_mid ins) h

  pub execute_a9 : ins.opcode ≡ 0xA9 → x64execute os ins ≡ test_acc ins 0xA9
  unfolding x64execute_mid
  execute_a9 h = execute_mid (rw h) (rw h) (rw h) ∙ ap (x64execute_mid ins) h

  pub execute_f6 : ins.opcode ≡ 0xF6 → x64execute os ins ≡ x64execute_f6 ins
  unfolding x64execute_high
  execute_f6 h = execute_high (rw h) (rw h) (rw h) ∙ ap (x64execute_high ins) h

  pub execute_f7 : ins.opcode ≡ 0xF7 → x64execute os ins ≡ x64execute_f7 ins
  unfolding x64execute_high
  execute_f7 h = execute_high (rw h) (rw h) (rw h) ∙ ap (x64execute_high ins) h

  pub execute_fe : ins.opcode ≡ 0xFE → x64execute os ins ≡ x64execute_fe ins
  unfolding x64execute_high
  execute_fe h = execute_high (rw h) (rw h) (rw h) ∙ ap (x64execute_high ins) h

  pub execute_ff : ins.opcode ≡ 0xFF → x64execute os ins ≡ x64execute_ff ins
  unfolding x64execute_high
  execute_ff h = execute_high (rw h) (rw h) (rw h) ∙ ap (x64execute_high ins) h

-- The cases that ModR/M.reg chooses.
module _ (ins : Instr) (s : Emu) where
  pub parts_f6 :
      leb (modrm_reg ins) 1 ≡ true
      → x64execute_f6 ins s
        ≡ and_then
            (op2_fixed (perform op_s_test_and) w8 (x64modrm_get_r_m ins s) (imm ins.imm) s)
            (λ _. pure true)
  unfolding x64execute_f6 ◌>>=◌
  parts_f6 h = ap (λ (m : M Bool). m s) (if_true _ _ h)

  pub parts_f7 :
      leb (modrm_reg ins) 1 ≡ true
      → x64execute_f7 ins s
        ≡ and_then
            (dest_op2 (perform op_s_test_and) ins (x64modrm_get_r_m ins s) (s_32 (imm ins.imm)) s)
            (λ _. pure true)
  unfolding x64execute_f7 ◌>>=◌
  parts_f7 h = ap (λ (m : M Bool). m s) (if_true _ _ h)

  pub parts_inc_8 :
      (modrm_reg ins == 0) ≡ true
      → x64execute_fe ins s
        ≡ and_then (perform op_s_inc w8 (x64modrm_get_r_m ins s) 1 s) (λ _. pure true)
  unfolding x64execute_fe ◌>>=◌
  parts_inc_8 h = ap (λ (m : M Bool). m s) (if_true _ _ h)

  pub parts_dec_8 :
      (modrm_reg ins == 0) ≡ false
      → leb (modrm_reg ins) 1 ≡ true
      → x64execute_fe ins s
        ≡ and_then (perform op_s_dec w8 (x64modrm_get_r_m ins s) 1 s) (λ _. pure true)
  unfolding x64execute_fe ◌>>=◌
  parts_dec_8 h k =
      ap (λ (m : M Bool). m s)
        (if_false _ _ h ∙ if_true {b = modrm_reg ins == 1} _ _ (ground (arith, h, k)))

  pub parts_inc :
      (modrm_reg ins == 0) ≡ true
      → x64execute_ff ins s
        ≡ and_then
            (dest_op2 (perform op_s_inc) ins (x64modrm_get_r_m ins s) (λ w. pure 1) s)
            (λ _. pure true)
  unfolding x64execute_ff ◌>>=◌
  parts_inc h = ap (λ (m : M Bool). m s) (if_true _ _ h)

  pub parts_dec :
      (modrm_reg ins == 0) ≡ false
      → leb (modrm_reg ins) 1 ≡ true
      → x64execute_ff ins s
        ≡ and_then
            (dest_op2 (perform op_s_dec) ins (x64modrm_get_r_m ins s) (λ w. pure 1) s)
            (λ _. pure true)
  unfolding x64execute_ff ◌>>=◌
  parts_dec h k =
      ap (λ (m : M Bool). m s)
        (if_false _ _ h ∙ if_true {b = modrm_reg ins == 1} _ _ (ground (arith, h, k)))
