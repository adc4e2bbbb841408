-- ===== src/Stack/Setup/Valid.antt =====
-- The invariant of the well-formed states, on `x64emu_init` (x64emu/emu.c).
use flux.Base.{ℕ, zero, suc, Bool, true, false, Option, none, some, List, [], ◌∷◌, if◌then◌else◌}
use flux.Word.{w8, w32, w64}
use flux.Machine.{Emu, pure, undefined, next, reg, rsp, ◌>>◌}
use flux.Machine.Keeps.{
  Keeps, After, Keeps-bind, Keeps-pure, Keeps-undefined, Keeps-gets, keeps_rules,
}
use flux.Machine.Valid.{IsValid, set_flags-IsValid, set_rip-IsValid, store-IsValid}
use flux.Place.Valid.{set_reg_first-IsValid}
use flux.Execute.Valid.Operands.{push-IsValid}
use flux.Stack.Setup.{
  Host, store_string, push_string, store_zeros, push_align, push_auxv, push_strings, push_reversed,
  push_real_auxv, push_random, push_vector, push_pointers, x64stack_setup, x64emu_init,
}

store_string-IsValid : (a : ℕ) (str : List ℕ) → Keeps IsValid (store_string a str)
unfolding store_string
store_string-IsValid a [] = store-IsValid w8 a 0
store_string-IsValid a (b ∷ rest) =
    Keeps-bind _ _ (store-IsValid w8 a b) λ u. store_string-IsValid (next a) rest

push_string-IsValid : (str : List ℕ) → Keeps IsValid (push_string str)
unfolding push_string
push_string-IsValid str = search (keeps_rules, set_reg_first-IsValid, store_string-IsValid, tt)

store_zeros-IsValid : (a n : ℕ) → Keeps IsValid (store_zeros a n)
unfolding store_zeros
store_zeros-IsValid a zero = Keeps-pure tt
store_zeros-IsValid a (suc n) =
    Keeps-bind _ _ (store-IsValid w8 a 0) λ u. store_zeros-IsValid (next a) n

push_align-IsValid : Keeps IsValid push_align
unfolding push_align
push_align-IsValid = search (keeps_rules, set_reg_first-IsValid, store_zeros-IsValid, tt) depth 20

push_auxv-IsValid : (v t : ℕ) → Keeps IsValid (push_auxv v t)
unfolding push_auxv
push_auxv-IsValid v t = search (keeps_rules, push-IsValid)

push_strings-IsValid : (n : ℕ) (strs : List (List ℕ)) → Keeps IsValid (push_strings n strs)
unfolding push_strings
push_strings-IsValid zero strs = Keeps-pure []
push_strings-IsValid (suc n) [] = Keeps-undefined
push_strings-IsValid (suc n) (str ∷ strs) =
    search (keeps_rules, push_string-IsValid, push_strings-IsValid n) depth 20

push_reversed-IsValid : (ps : List ℕ) → Keeps IsValid (push_reversed ps)
unfolding push_reversed
push_reversed-IsValid [] = Keeps-pure tt
push_reversed-IsValid (p ∷ ps) = Keeps-bind _ _ (push_reversed-IsValid ps) λ u. push-IsValid w64 p

first-IsValid :
    (ps : List ℕ) → Keeps {A = ℕ} IsValid (elim ps [ [] ↦ undefined | p ∷ rest ↦ pure p ])
first-IsValid [] = Keeps-undefined
first-IsValid (p ∷ rest) = Keeps-pure p

module _ (host : Host) where
  push_real_auxv-IsValid : (enoent : Bool) (t : ℕ) → Keeps IsValid (push_real_auxv host enoent t)
  unfolding push_real_auxv
  push_real_auxv-IsValid enoent t = entry (host.getauxval t)
    where
      entry :
          (v : Option ℕ)
          → Keeps IsValid (elim v [
            | none ↦ pure true
            | some v ↦ if enoent then pure true else (do push_auxv v t; pure false)
          ])
      entry none = Keeps-pure true
      entry (some v) = search (keeps_rules, push_auxv-IsValid)

  push_random-IsValid : (i n : ℕ) → Keeps IsValid (push_random host i n)
  unfolding push_random
  push_random-IsValid i zero = Keeps-pure tt
  push_random-IsValid i (suc n) =
      Keeps-bind _ _ (push-IsValid w32 _) λ u. push_random-IsValid (suc i) n

  push_vector-IsValid :
      (enoent : Bool) (entry platform_string random_16 execfn : ℕ)
      → Keeps IsValid (push_vector host enoent entry platform_string random_16 execfn)
  unfolding push_vector
  push_vector-IsValid enoent entry platform_string random_16 execfn =
      search (keeps_rules, push_auxv-IsValid, push_real_auxv-IsValid) depth 40

  push_pointers-IsValid :
      (argc : ℕ) (p_argv p_envv : List ℕ) → Keeps IsValid (push_pointers host argc p_argv p_envv)
  unfolding push_pointers
  push_pointers-IsValid argc p_argv p_envv =
      search (keeps_rules, push-IsValid, push_reversed-IsValid) depth 20

  pub x64stack_setup-Keeps : (enoent : Bool) → Keeps IsValid (x64stack_setup host enoent)
  unfolding x64stack_setup
  x64stack_setup-Keeps enoent = Keeps-bind _ _ (Keeps-gets Emu.ctx) λ ctx.
      Keeps-bind _ _ (push_strings-IsValid ctx.argc ctx.argv) λ p_argv.
        Keeps-bind _ _ (push_strings-IsValid ctx.envc ctx.envv) λ p_envv.
          Keeps-bind _ _ (push_string-IsValid (0x78 ∷ 0x38 ∷ 0x36 ∷ 0x5F ∷ 0x36 ∷ 0x34 ∷ [])) λ u.
            Keeps-bind _ _ (Keeps-gets (reg rsp)) λ platform_string.
              Keeps-bind _ _ (push_random-IsValid 0 4) λ u.
                Keeps-bind _ _ (Keeps-gets (reg rsp)) λ random_16.
                  Keeps-bind _ _ push_align-IsValid λ u.
                    Keeps-bind _ _ (first-IsValid p_argv) λ execfn.
                      Keeps-bind _ _
                        (push_vector-IsValid enoent ctx.entry platform_string random_16 execfn)
                        λ u. push_pointers-IsValid ctx.argc p_argv p_envv

  x64emu_init-Keeps : (enoent : Bool) → Keeps IsValid (x64emu_init host enoent)
  unfolding x64emu_init
  x64emu_init-Keeps enoent =
      search
        (
          keeps_rules, set_flags-IsValid, set_rip-IsValid, set_reg_first-IsValid,
          x64stack_setup-Keeps, tt,
        )
        depth 40

  -- x64emu_init from a well-formed state faults or leaves a well-formed one: every register, RIP,
  -- RFLAGS and every byte of memory is within the range of its C type.
  pub x64emu_init-IsValid :
      (enoent : Bool) (s : Emu) → IsValid s → After IsValid (x64emu_init host enoent s)
  x64emu_init-IsValid enoent s h = (x64emu_init-Keeps enoent).at s h
