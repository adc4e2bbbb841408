-- ===== src/Execute/Valid/Groups.antt =====
-- The invariant of the well-formed states, on the extended opcodes of x64emu/execute.c.
use flux.Machine.Keeps.{Keeps}
use flux.Machine.Valid.{IsValid}
use flux.Instr.{Instr}
use flux.Execute.Valid.Operands.{valid_rules}
use flux.Execute.Groups.{
  x64execute_80, x64execute_81, x64execute_83, x64execute_c0, x64execute_c1, x64execute_d0,
  x64execute_d1, x64execute_d2, x64execute_d3, x64execute_8f, x64execute_c6, x64execute_c7,
  x64execute_f6, x64execute_f7, x64execute_fe, x64execute_ff, push_return,
}

module _ (ins : Instr) where
  pub x64execute_80-IsValid : Keeps IsValid (x64execute_80 ins)
  unfolding x64execute_80
  x64execute_80-IsValid = search valid_rules depth 20

  pub x64execute_81-IsValid : Keeps IsValid (x64execute_81 ins)
  unfolding x64execute_81
  x64execute_81-IsValid = search valid_rules depth 20

  pub x64execute_83-IsValid : Keeps IsValid (x64execute_83 ins)
  unfolding x64execute_83
  x64execute_83-IsValid = search valid_rules depth 20

  pub x64execute_c0-IsValid : Keeps IsValid (x64execute_c0 ins)
  unfolding x64execute_c0
  x64execute_c0-IsValid = search valid_rules depth 20

  pub x64execute_c1-IsValid : Keeps IsValid (x64execute_c1 ins)
  unfolding x64execute_c1
  x64execute_c1-IsValid = search valid_rules depth 20

  pub x64execute_d0-IsValid : Keeps IsValid (x64execute_d0 ins)
  unfolding x64execute_d0
  x64execute_d0-IsValid = search valid_rules depth 20

  pub x64execute_d1-IsValid : Keeps IsValid (x64execute_d1 ins)
  unfolding x64execute_d1
  x64execute_d1-IsValid = search valid_rules depth 20

  pub x64execute_d2-IsValid : Keeps IsValid (x64execute_d2 ins)
  unfolding x64execute_d2
  x64execute_d2-IsValid = search valid_rules depth 20

  pub x64execute_d3-IsValid : Keeps IsValid (x64execute_d3 ins)
  unfolding x64execute_d3
  x64execute_d3-IsValid = search valid_rules depth 20

  pub x64execute_8f-IsValid : Keeps IsValid (x64execute_8f ins)
  unfolding x64execute_8f
  x64execute_8f-IsValid = search valid_rules depth 20

  pub x64execute_c6-IsValid : Keeps IsValid (x64execute_c6 ins)
  unfolding x64execute_c6
  x64execute_c6-IsValid = search valid_rules depth 20

  pub x64execute_c7-IsValid : Keeps IsValid (x64execute_c7 ins)
  unfolding x64execute_c7
  x64execute_c7-IsValid = search valid_rules depth 20

  pub x64execute_f6-IsValid : Keeps IsValid (x64execute_f6 ins)
  unfolding x64execute_f6
  x64execute_f6-IsValid = search valid_rules depth 20

  pub x64execute_f7-IsValid : Keeps IsValid (x64execute_f7 ins)
  unfolding x64execute_f7
  x64execute_f7-IsValid = search valid_rules depth 20

  pub x64execute_fe-IsValid : Keeps IsValid (x64execute_fe ins)
  unfolding x64execute_fe
  x64execute_fe-IsValid = search valid_rules depth 20

  pub x64execute_ff-IsValid : Keeps IsValid (x64execute_ff ins)
  unfolding x64execute_ff
  x64execute_ff-IsValid = search valid_rules depth 20

  pub push_return-IsValid : Keeps IsValid (push_return ins)
  unfolding push_return
  push_return-IsValid = search valid_rules depth 20

pub ruleset group_rules = (
  x64execute_80-IsValid, x64execute_81-IsValid, x64execute_83-IsValid, x64execute_c0-IsValid,
  x64execute_c1-IsValid, x64execute_d0-IsValid, x64execute_d1-IsValid, x64execute_d2-IsValid,
  x64execute_d3-IsValid, x64execute_8f-IsValid, x64execute_c6-IsValid, x64execute_c7-IsValid,
  x64execute_f6-IsValid, x64execute_f7-IsValid, x64execute_fe-IsValid, x64execute_ff-IsValid,
  push_return-IsValid,
)
