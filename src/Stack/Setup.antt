-- ===== src/Stack/Setup.antt =====
-- The initial stack: the rest of x64emu/stack_private.h, `x64stack_setup` of x64emu/stack.c, and
-- `x64emu_init` of x64emu/emu.c. A string is the list of its bytes without the final NUL, shorter
-- than 2 ^ 31.
pub mod Ends
pub mod Aligned
pub mod Rsp
pub mod Valid
pub mod Layout
pub mod Lays
pub mod Pieces
pub mod Strings
pub mod Words
pub mod Loops
pub mod Contents
pub mod Start
use flux.Base.{
  length, ℕ, zero, suc, ◌+◌, ◌-◌, ◌*◌, ◌%◌, ◌^◌, Bool, true, false, if◌then◌else◌, Option, none,
  some, List, [], ◌∷◌, bit_and, bit_or, set_bit,
}
use flux.Word.{w8, w32, w64, lane, set_lane, complement}
use flux.Machine.{
  Emu, M, ◌>>=◌, ◌>>◌, pure, gets, undefined, store, set_reg, set_rip, set_flags, reg, next, rsp,
  rdi, rsi, rdx,
}
use flux.Stack.{push}

-- What the set-up asks of the host: the value of an auxiliary vector entry, with none where
-- `getauxval` sets ENOENT, and the numbers that `random` gives in turn.
pub record Host : Type 0 where
  pub getauxval : ℕ → Option ℕ
  pub random : ℕ → ℕ

-- `memcpy` of a string with its NUL.
unfoldable pub store_string : ℕ → List ℕ → M (Unit {0})
store_string a [] = store w8 a 0
store_string a (b ∷ rest) = do store w8 a b; store_string (next a) rest

unfoldable pub push_string : List ℕ → M (Unit {0})
unfolding store_string
push_string str = do
  sp ← gets (reg rsp)
  let sp' = (sp + 2 ^ 64 - (length str + 1)) % 2 ^ 64
  set_reg w64 0 rsp sp'
  store_string sp' str

-- `memset` to 0.
unfoldable pub store_zeros : ℕ → ℕ → M (Unit {0})
store_zeros a zero = pure tt
store_zeros a (suc n) = do store w8 a 0; store_zeros (next a) n

unfoldable pub push_align : M (Unit {0})
unfolding store_zeros
push_align = do
  sp ← gets (reg rsp)
  align ← gets λ s. s.ctx.stack.align
  let aligned = bit_and sp (complement w64 ((align + 2 ^ 64 - 1) % 2 ^ 64))
  store_zeros aligned (sp - aligned)
  set_reg w64 0 rsp aligned

unfoldable pub push_auxv : ℕ → ℕ → M (Unit {0})
unfolding push
push_auxv v t = do push w64 v; push w64 t

-- The loop over `argv` or `envv`; the result is the array of the addresses.
unfoldable pub push_strings : ℕ → List (List ℕ) → M (List ℕ)
unfolding push_string
push_strings zero strs = pure []
push_strings (suc n) [] = undefined
push_strings (suc n) (str ∷ strs) = do
  push_string str
  p ← gets (reg rsp)
  ps ← push_strings n strs
  pure (p ∷ ps)

-- The loop from the last element to the first.
unfoldable pub push_reversed : List ℕ → M (Unit {0})
unfolding push
push_reversed [] = pure tt
push_reversed (p ∷ ps) = do push_reversed ps; push w64 p

module _ (host : Host) where
  -- `push_real_auxv`, between values of `errno == ENOENT`, which nothing resets.
  unfoldable pub push_real_auxv : Bool → ℕ → M Bool
  unfolding push_auxv
  push_real_auxv enoent t = elim (host.getauxval t) [
    | none ↦ pure true
    | some v ↦ if enoent then pure true else (do push_auxv v t; pure false)
  ]

  -- The calls of `random`.
  unfoldable pub push_random : ℕ → ℕ → M (Unit {0})
  unfolding push
  push_random i zero = pure tt
  push_random i (suc n) = do push w32 (host.random i % 2 ^ 32); push_random (suc i) n

  -- The auxiliary vector, from its last entry to its first.
  unfoldable pub push_vector : Bool → ℕ → ℕ → ℕ → ℕ → M (Unit {0})
  unfolding push_auxv push_real_auxv
  push_vector enoent entry platform_string random_16 execfn = do
    push_auxv 0 0
    enoent ← push_real_auxv enoent 6
    enoent ← push_real_auxv enoent 8
    push_auxv entry 9
    enoent ← push_real_auxv enoent 11
    enoent ← push_real_auxv enoent 12
    enoent ← push_real_auxv enoent 13
    enoent ← push_real_auxv enoent 14
    push_auxv platform_string 15
    enoent ← push_real_auxv enoent 23
    push_auxv random_16 25
    push_auxv execfn 31

  -- The pointers and the counter below it.
  unfoldable pub push_pointers : ℕ → List ℕ → List ℕ → M (Unit {0})
  unfolding push push_reversed
  push_pointers argc p_argv p_envv = do
    push w64 0
    push_reversed p_envv
    push w64 0
    push_reversed p_argv
    push w64 argc

  -- `enoent` is what `errno` says before. Without an argument, `p_argv[0]` is not defined.
  unfoldable pub x64stack_setup : Bool → M (Unit {0})
  unfolding push_string push_strings push_random push_align push_vector push_pointers
  x64stack_setup enoent = do
    ctx ← gets Emu.ctx
    p_argv ← push_strings ctx.argc ctx.argv
    p_envv ← push_strings ctx.envc ctx.envv
    push_string (0x78 ∷ 0x38 ∷ 0x36 ∷ 0x5F ∷ 0x36 ∷ 0x34 ∷ [])
    platform_string ← gets (reg rsp)
    push_random 0 4
    random_16 ← gets (reg rsp)
    push_align
    execfn ← elim p_argv [ [] ↦ undefined | p ∷ ps ↦ pure p ]
    push_vector enoent ctx.entry platform_string random_16 execfn
    push_pointers ctx.argc p_argv p_envv

  unfoldable pub x64emu_init : Bool → M Bool
  unfolding x64stack_setup
  x64emu_init enoent = do
    flags ← gets Emu.flags
    set_flags (set_bit 13 1 (set_bit 12 1 (set_lane w32 0 (bit_or (lane w32 0 flags) 2) flags)))
    ctx ← gets Emu.ctx
    set_reg w64 0 rsp (ctx.stack.base + ctx.stack.size)
    x64stack_setup enoent
    set_reg w64 0 rdi ctx.argc
    sp ← gets (reg rsp)
    set_reg w64 0 rsi (sp + 8)
    argv ← gets (reg rsi)
    set_reg w64 0 rdx (argv + 8 * (ctx.argc + 1))
    set_rip ctx.entry
    pure true
