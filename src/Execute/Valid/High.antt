-- ===== src/Execute/Valid/High.antt =====
-- The invariant of the well-formed states, on the cases 90 .. FF of x64emu/execute.c.
use flux.Base.{ℕ, zero, suc, Bool, arith}
use flux.Word.{Width, w8, w16, w32, w64, w128, IsWord}
use flux.Machine.{Emu, set_reg, rax}
use flux.Machine.Keeps.{Keeps, keeps_rules}
use flux.Machine.Valid.{IsValid, set_reg-IsValid}
use flux.Instr.{Instr}
use flux.Execute.Valid.Operands.{valid_rules}
use flux.Execute.Valid.Groups.{group_rules, push_return-IsValid}
use flux.Execute.Valid.Low.{jump-IsValid}
use flux.Execute.FlagOps.{set_eflags, set_flag, pushf, popf, sahf, lahf, cmc, set_clear}
use flux.Execute.High.{
  extended_acc, rep_loop, op_mov_rep, stos, ret, ret_imm, leave, call_32, jmp, xchg_acc, extend_acc,
  test_acc, mov_imm, x64execute_mid, x64execute_high,
}

set_eflags-IsValid : (v : ℕ) → Keeps IsValid (set_eflags v)
unfolding set_eflags
set_eflags-IsValid v = search valid_rules depth 20

set_flag-IsValid : (i : ℕ) (b : Bool) → Keeps IsValid (set_flag i b)
unfolding set_flag
set_flag-IsValid i b = search valid_rules depth 20

set_ah-IsValid : (v : ℕ) → Keeps IsValid (set_reg w8 1 rax v)
set_ah-IsValid v = set_reg-IsValid w8 1 rax v (omega arith)

Keeps-extended_acc : {P : Emu → Type 0} (w : Width) → Keeps P (extended_acc w)
unfolding extended_acc
Keeps-extended_acc w8 = search keeps_rules
Keeps-extended_acc w16 = search keeps_rules
Keeps-extended_acc w32 = search keeps_rules
Keeps-extended_acc w64 = search keeps_rules
Keeps-extended_acc w128 = search keeps_rules

rep_loop-IsValid :
    (n : ℕ) (count w : Width) (dest v : ℕ)
    → IsWord count
    → Keeps IsValid (rep_loop n count w dest v)
unfolding rep_loop
rep_loop-IsValid zero count w dest v h = search keeps_rules
rep_loop-IsValid (suc n) count w dest v h =
    search (valid_rules, λ (d : ℕ). rep_loop-IsValid n count w d v h) depth 20

module _ (ins : Instr) where
  pub pushf-IsValid : Keeps IsValid (pushf ins)
  unfolding pushf
  pushf-IsValid = search valid_rules depth 20

  pub popf-IsValid : Keeps IsValid (popf ins)
  unfolding popf
  popf-IsValid = search (valid_rules, set_eflags-IsValid, set_flag-IsValid) depth 20

  pub sahf-IsValid : Keeps IsValid (sahf ins)
  unfolding sahf
  sahf-IsValid = search (valid_rules, set_eflags-IsValid, set_flag-IsValid) depth 20

  pub lahf-IsValid : Keeps IsValid (lahf ins)
  unfolding lahf
  lahf-IsValid = search (valid_rules, set_ah-IsValid) depth 20

  pub op_mov_rep-IsValid : (w : Width) (dest v : ℕ) → Keeps IsValid (op_mov_rep ins w dest v)
  unfolding op_mov_rep
  op_mov_rep-IsValid w dest v = search (valid_rules, rep_loop-IsValid) depth 20

  pub stos-IsValid : (w : Width) → Keeps IsValid (stos ins w)
  unfolding stos
  stos-IsValid w = search (keeps_rules, op_mov_rep-IsValid) depth 20

  pub ret-IsValid : Keeps IsValid (ret ins)
  unfolding ret
  ret-IsValid = search valid_rules depth 20

  pub ret_imm-IsValid : Keeps IsValid (ret_imm ins)
  unfolding ret_imm
  ret_imm-IsValid = search (valid_rules, ret-IsValid) depth 20

  pub leave-IsValid : Keeps IsValid (leave ins)
  unfolding leave
  leave-IsValid = search valid_rules depth 20

  pub call_32-IsValid : Keeps IsValid (call_32 ins)
  unfolding call_32
  call_32-IsValid = search (valid_rules, jump-IsValid, push_return-IsValid) depth 20

  pub jmp-IsValid : (w : Width) → Keeps IsValid (jmp ins w)
  unfolding jmp
  jmp-IsValid w = search (valid_rules, jump-IsValid) depth 20

  pub xchg_acc-IsValid : (op : ℕ) → Keeps IsValid (xchg_acc ins op)
  unfolding xchg_acc
  xchg_acc-IsValid op = search valid_rules depth 20

  pub extend_acc-IsValid : (dest : ℕ) → Keeps IsValid (extend_acc ins dest)
  unfolding extend_acc
  extend_acc-IsValid dest = search (valid_rules, Keeps-extended_acc) depth 20

  pub test_acc-IsValid : (op : ℕ) → Keeps IsValid (test_acc ins op)
  unfolding test_acc
  test_acc-IsValid op = search valid_rules depth 20

  pub mov_imm-IsValid : (op : ℕ) → Keeps IsValid (mov_imm ins op)
  unfolding mov_imm
  mov_imm-IsValid op = search valid_rules depth 20

  pub cmc-IsValid : Keeps IsValid (cmc ins)
  unfolding cmc
  cmc-IsValid = search (valid_rules, set_eflags-IsValid, set_flag-IsValid) depth 20

  pub set_clear-IsValid : (op : ℕ) → Keeps IsValid (set_clear ins op)
  unfolding set_clear
  set_clear-IsValid op = search (valid_rules, set_eflags-IsValid, set_flag-IsValid) depth 20

  pub x64execute_mid-IsValid : (op : ℕ) → Keeps IsValid (x64execute_mid ins op)
  unfolding x64execute_mid
  x64execute_mid-IsValid op =
      search
        (
          keeps_rules, pushf-IsValid, popf-IsValid, sahf-IsValid, lahf-IsValid, stos-IsValid,
          xchg_acc-IsValid, extend_acc-IsValid, test_acc-IsValid, mov_imm-IsValid,
        )
        depth 20

  pub x64execute_high-IsValid : (op : ℕ) → Keeps IsValid (x64execute_high ins op)
  unfolding x64execute_high
  x64execute_high-IsValid op =
      search
        (
          keeps_rules, group_rules, ret-IsValid, ret_imm-IsValid, leave-IsValid, call_32-IsValid,
          jmp-IsValid, cmc-IsValid, set_clear-IsValid,
        )
        depth 24
