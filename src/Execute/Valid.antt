-- ===== src/Execute/Valid.antt =====
-- The invariant of the well-formed states, on `x64execute` and `x64emu_run`.
pub mod Operands
pub mod Groups
pub mod Low
pub mod High
pub mod Sse
pub mod TwoByte
use flux.Base.{ℕ, zero, suc, Bool, true, if◌then◌else◌}
use flux.Machine.{Emu, M}
use flux.Machine.Keeps.{Keeps, After, Keeps-bind, Keeps-pure, Keeps-if, keeps_rules}
use flux.Machine.Valid.{IsValid, set_rip-IsValid}
use flux.Instr.{Instr, blank}
use flux.Decode.Keeps.{Keeps-x64decode}
use flux.Context.{Os}
use flux.Execute.{x64execute, x64emu_step, x64emu_run}
use Low.{x64execute_low-IsValid}
use High.{x64execute_mid-IsValid, x64execute_high-IsValid}
use TwoByte.{x64execute_0f-IsValid}

module _ (os : Os) where
  x64execute-Keeps : (ins : Instr) → Keeps IsValid (x64execute os ins)
  unfolding x64execute
  x64execute-Keeps ins =
      search
        (
          keeps_rules, x64execute_0f-IsValid, x64execute_low-IsValid, x64execute_mid-IsValid,
          x64execute_high-IsValid,
        )
        depth 20

  x64emu_step-Keeps : (prefixes : ℕ) → Keeps IsValid (x64emu_step os prefixes)
  unfolding x64emu_step
  x64emu_step-Keeps prefixes =
      search (keeps_rules, Keeps-x64decode, set_rip-IsValid, x64execute-Keeps) depth 20

  x64emu_run-Keeps : (prefixes fuel : ℕ) → Keeps IsValid (x64emu_run os prefixes fuel)
  unfolding x64emu_run
  x64emu_run-Keeps prefixes zero = Keeps-pure true
  x64emu_run-Keeps prefixes (suc fuel) =
      Keeps-bind _ _ (x64emu_step-Keeps prefixes)
        λ more. Keeps-if more _ _ (x64emu_run-Keeps prefixes fuel) (Keeps-pure _)

  -- Executing an instruction from a well-formed state, whatever the decoder filled in, either
  -- faults, ends the process, or leaves a state in which every register, RIP, RFLAGS and every
  -- byte of memory is within the range of its C type.
  pub x64execute-IsValid : (ins : Instr) (s : Emu) → IsValid s → After IsValid (x64execute os ins s)
  x64execute-IsValid ins s h = (x64execute-Keeps ins).at s h

  -- A run of any number of instructions from a well-formed state, with any fuel for the prefixes,
  -- faults, ends the process, or leaves a state in which every register, RIP, RFLAGS and every
  -- byte of memory is within the range of its C type.
  pub x64emu_run-IsValid :
      (prefixes fuel : ℕ) (s : Emu) → IsValid s → After IsValid (x64emu_run os prefixes fuel s)
  x64emu_run-IsValid prefixes fuel s h = (x64emu_run-Keeps prefixes fuel).at s h
