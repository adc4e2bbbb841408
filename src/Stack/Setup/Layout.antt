-- ===== src/Stack/Setup/Layout.antt =====
-- What a new process finds on its stack, by the ABI: the description that x64stack_setup of
-- x64emu/stack.c is held to.
use flux.Base.{length, ℕ, ◌+◌, ◌%◌, ◌≡◌, Bool, true, if◌then◌else◌, none, some, List, [], ◌∷◌, ◌++◌}
use flux.Word.{Width, w32, w64, bytes, trunc}
use flux.Machine.{Context, load_le}
use flux.Stack.Setup.{Host}

-- Words of one width, one behind the other from `a` on.
abbrev pub Holds : Width → (ℕ → ℕ) → ℕ → List ℕ → Type 0
Holds w f a [] = Unit
Holds w f a (v ∷ vs) = (load_le f a (bytes w) ≡ trunc w v) × Holds w f (a + bytes w) vs

-- A string with its NUL.
abbrev pub HoldsString : (ℕ → ℕ) → ℕ → List ℕ → Type 0
HoldsString f a [] = f a ≡ 0
HoldsString f a (b ∷ rest) = (f a ≡ b % 256) × HoldsString f (a + 1) rest

-- One string at each address.
abbrev pub HoldsStrings : (ℕ → ℕ) → List ℕ → List (List ℕ) → Type 0
HoldsStrings f [] [] = Unit
HoldsStrings f (p ∷ ps) (str ∷ strs) = HoldsString f p str × HoldsStrings f ps strs
HoldsStrings f _ _ = ⊥

abbrev pub x86_64 : List ℕ
x86_64 = 0x78 ∷ 0x38 ∷ 0x36 ∷ 0x5F ∷ 0x36 ∷ 0x34 ∷ []

module _ (host : Host) where
  -- The entry of type `t`, if the host has it and no entry before it was missing.
  abbrev pub real : Bool → ℕ → List ℕ
  real missing t = elim (host.getauxval t) [
    | none ↦ []
    | some v ↦ if missing then [] else t ∷ v ∷ []
  ]

  abbrev pub missing_after : Bool → ℕ → Bool
  missing_after missing t = elim (host.getauxval t) [ none ↦ true | some v ↦ missing ]

  -- The auxiliary vector: AT_EXECFN, AT_RANDOM, AT_SECURE, AT_PLATFORM, the identities, AT_ENTRY,
  -- AT_FLAGS, AT_PAGESZ and the end.
  abbrev pub vector : Bool → ℕ → ℕ → ℕ → ℕ → List ℕ
  vector e entry platform random_16 execfn =
      let e1 = missing_after e 6 in
      let e2 = missing_after e1 8 in
      let e3 = missing_after e2 11 in
      let e4 = missing_after e3 12 in
      let e5 = missing_after e4 13 in
      let e6 = missing_after e5 14 in
      31
      ∷ execfn
      ∷ 25
      ∷ random_16
      ∷ (real e6 23
          ++ (15
              ∷ platform
              ∷ (real e5 14
                  ++ (real e4 13
                      ++ (real e3 12
                          ++ (real e2 11
                              ++ (9 ∷ entry ∷ (real e1 8 ++ (real e 6 ++ (0 ∷ 0 ∷ []))))))))))

-- The counter and the pointers, with the vector behind them.
abbrev pub pointers : ℕ → List ℕ → List ℕ → List ℕ → List ℕ
pointers argc p_argv p_envv rest = argc ∷ (p_argv ++ (0 ∷ (p_envv ++ (0 ∷ rest))))

-- The room that strings take, with their NULs.
abbrev pub string_bytes : List (List ℕ) → ℕ
string_bytes [] = 0
string_bytes (str ∷ strs) = length str + 1 + string_bytes strs

-- What lies from the stack pointer on: the counter, a pointer for each argument, 0, a pointer for
-- each string of the environment, 0 and the vector. The pointers are to the strings, AT_EXECFN is
-- that to the first argument, AT_PLATFORM is the address of "x86_64" and AT_RANDOM that of the four
-- numbers drawn.
pub record IsLaidOut (host : Host) (ctx : Context) (enoent : Bool) (sp : ℕ) (f : ℕ → ℕ)
    : Type 0 where
  pub execfn : ℕ
  pub p_rest : List ℕ
  pub p_envv : List ℕ
  pub platform : ℕ
  pub random_16 : ℕ
  pub arguments : HoldsStrings f (execfn ∷ p_rest) ctx.argv
  pub environment : HoldsStrings f p_envv ctx.envv
  pub platform_string : HoldsString f platform x86_64
  pub drawn :
      Holds w32 f random_16 (host.random 3 ∷ host.random 2 ∷ host.random 1 ∷ host.random 0 ∷ [])
  pub words : Holds w64 f sp (
      pointers ctx.argc
        (execfn ∷ p_rest)
        p_envv
        (vector host enoent ctx.entry platform random_16 execfn))
