-- ===== src/Execute.antt =====
-- `x64execute` (x64emu/execute.c), from the cases in the children, and the loop of x64emu/emu.c.
pub mod Operands
pub mod Groups
pub mod Low
pub mod FlagOps
pub mod High
pub mod Sse
pub mod TwoByte
pub mod Valid
pub mod Call
pub mod Fill
pub mod FlagMoves
pub mod Interleave
pub mod Run
pub mod Exit
use flux.Base.{ℕ, zero, suc, Bool, true, false, leb, ◌==◌, if◌then◌else◌}
use flux.Machine.{Emu, M, ◌>>=◌, ◌>>◌, pure, undefined}
use flux.Instr.{Instr, blank}
use flux.Decode.{x64decode}
use flux.Context.{Os}
use Low.{x64execute_low}
use High.{x64execute_mid, x64execute_high}
use TwoByte.{x64execute_0f}

module _ (os : Os) where
  unfoldable pub x64execute : Instr → M Bool
  unfolding x64execute_low x64execute_mid x64execute_high x64execute_0f
  x64execute ins =
      if ins.opcode == 0x0F
      then x64execute_0f os ins
      else if leb ins.opcode 0x8F
      then x64execute_low ins ins.opcode
      else if leb ins.opcode 0xBF
      then x64execute_mid ins ins.opcode
      else x64execute_high ins ins.opcode

  -- The body of the loop in `x64emu_run`: false where the source returns.
  unfoldable pub x64emu_step : ℕ → M Bool
  unfolding x64decode x64execute
  x64emu_step prefixes = do
    (decoded, ins) ← x64decode prefixes blank
    if decoded then x64execute ins else pure false

  -- `x64emu_run`, for at most `fuel` instructions; true where the fuel ran out.
  unfoldable pub x64emu_run : ℕ → ℕ → M Bool
  unfolding x64emu_step
  x64emu_run prefixes zero = pure true
  x64emu_run prefixes (suc fuel) = do
    more ← x64emu_step prefixes
    if more then x64emu_run prefixes fuel else pure false
