-- ===== src/Execute/Valid/Low.antt =====
-- The invariant of the well-formed states, on the cases 00 .. 8F of x64emu/execute.c.
use flux.Base.{ℕ}
use flux.Machine.Keeps.{Keeps, keeps_rules}
use flux.Machine.Valid.{IsValid}
use flux.Instr.{Instr}
use flux.Execute.Valid.Operands.{valid_rules}
use flux.Execute.Valid.Groups.{group_rules}
use flux.Execute.Low.{
  jump, opcode_family, push_reg, pop_reg, push_imm_16_32, push_imm_8, jcc_8, lea, test_xchg_mov,
  movsxd, x64execute_low,
}

pub jump-IsValid : (offset : ℕ) → Keeps IsValid (jump offset)
unfolding jump
jump-IsValid offset = search valid_rules

module _ (ins : Instr) where
  pub opcode_family-IsValid : (start form : ℕ) → Keeps IsValid (opcode_family ins start form)
  unfolding opcode_family
  opcode_family-IsValid start form = search valid_rules depth 20

  pub push_reg-IsValid : (op : ℕ) → Keeps IsValid (push_reg ins op)
  unfolding push_reg
  push_reg-IsValid op = search valid_rules depth 20

  pub pop_reg-IsValid : (op : ℕ) → Keeps IsValid (pop_reg ins op)
  unfolding pop_reg
  pop_reg-IsValid op = search valid_rules depth 20

  pub push_imm_16_32-IsValid : Keeps IsValid (push_imm_16_32 ins)
  unfolding push_imm_16_32
  push_imm_16_32-IsValid = search valid_rules depth 20

  pub push_imm_8-IsValid : Keeps IsValid (push_imm_8 ins)
  unfolding push_imm_8
  push_imm_8-IsValid = search valid_rules depth 20

  pub jcc_8-IsValid : (op : ℕ) → Keeps IsValid (jcc_8 ins op)
  unfolding jcc_8
  jcc_8-IsValid op = search valid_rules depth 20

  pub lea-IsValid : Keeps IsValid (lea ins)
  unfolding lea
  lea-IsValid = search valid_rules depth 20

  pub test_xchg_mov-IsValid : (op : ℕ) → Keeps IsValid (test_xchg_mov ins op)
  unfolding test_xchg_mov
  test_xchg_mov-IsValid op = search valid_rules depth 20

  pub movsxd-IsValid : Keeps IsValid (movsxd ins)
  unfolding movsxd
  movsxd-IsValid = search valid_rules depth 20

  pub x64execute_low-IsValid : (op : ℕ) → Keeps IsValid (x64execute_low ins op)
  unfolding x64execute_low
  x64execute_low-IsValid op =
      search
        (
          keeps_rules, group_rules, opcode_family-IsValid, push_reg-IsValid, pop_reg-IsValid,
          push_imm_16_32-IsValid, push_imm_8-IsValid, jcc_8-IsValid, lea-IsValid,
          test_xchg_mov-IsValid, movsxd-IsValid,
        )
        depth 20
