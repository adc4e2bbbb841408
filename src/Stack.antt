-- ===== src/Stack.antt =====
-- The stack operations of x64emu/stack_private.h.
pub mod Laws
pub mod Setup
use flux.Base.{ℕ, ◌+◌, ◌-◌, ◌%◌, ◌^◌}
use flux.Word.{Width, w64, bytes}
use flux.Machine.{M, ◌>>=◌, ◌>>◌, gets, load, store, set_reg, reg, rsp}

-- `push_16`, `push_32`, `push_64`
unfoldable pub push : Width → ℕ → M (Unit {0})
push w v = do
  sp ← gets (reg rsp)
  let sp' = (sp + 2 ^ 64 - bytes w) % 2 ^ 64
  set_reg w64 0 rsp sp'
  store w sp' v

-- `pop_16`, `pop_32`, `pop_64`
unfoldable pub pop : Width → M ℕ
pop w = do sp ← gets (reg rsp); set_reg w64 0 rsp (sp + bytes w); load w sp
