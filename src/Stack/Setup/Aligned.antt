-- ===== src/Stack/Setup/Aligned.antt =====
-- RSP through each part of `x64stack_setup` (x64emu/stack.c).
use flux.Base.{
  length, ℕ, zero, suc, ◌+◌, ◌-◌, ◌*◌, ◌/◌, ◌%◌, ◌^◌, ◌<◌, ◌≤◌, ◌≡◌, refl, ap, ◌∙◌, Bool, true,
  false, if◌then◌else◌, Option, none, some, List, [], ◌∷◌, arith, bit_and, bit_and_step,
}
use flux.Word.{w8, w64, complement}
use flux.Machine.{Context, M, ◌>>=◌, ◌>>◌, pure, undefined, reg, next, rsp}
use flux.Stack.Setup.{
  Host, store_string, push_string, store_zeros, push_align, push_auxv, push_strings, push_reversed,
  push_real_auxv, push_random, push_vector, push_pointers, x64stack_setup,
}
use flux.Stack.Setup.Ends.{
  Ends, Any, Anywhere, Moved, Ends-bind, Ends-pure, Ends-weaken, Ends-gets, Ends-gets_ctx, Ends-ctx,
  Ends-store, Ends-set_rsp, Ends-push_64, Ends-push_32,
}

Moved-twice : (k l x y z : ℕ) → Moved k x y → Moved l y z → Moved (k + l) x z
Moved-twice k l x y z h h' = omega arith

module _ (c : Context) where
  -- A sequence whose move does not matter, and one after which only the end does.
  Ends-any :
      {A B : Type 0} {Q : A → Type 0} {Q' : B → Type 0} {R R' : ℕ → ℕ → Type 0} (m : M A)
      (k : A → M B)
      → Ends c Q R m
      → ((a : A) → Q a → Ends c Q' R' (k a))
      → Ends c Q' Anywhere (m >>= k)
  Ends-any m k = Ends-bind c m k (λ x y z r r'. tt)

  Ends-last :
      {A B : Type 0} {Q : A → Type 0} {Q' : B → Type 0} {R : ℕ → ℕ → Type 0} {P : ℕ → Type 0}
      (m : M A) (k : A → M B)
      → Ends c Q R m
      → ((a : A) → Q a → Ends c Q' (λ x y. P y) (k a))
      → Ends c Q' (λ x y. P y) (m >>= k)
  Ends-last m k = Ends-bind c m k (λ x y z r r'. r')

  Ends-store_string : (str : List ℕ) (a : ℕ) → Ends c Any Anywhere (store_string a str)
  unfolding store_string
  Ends-store_string [] a = Ends-weaken c (λ x y e. tt) (Ends-store c w8 a 0)
  Ends-store_string (b ∷ rest) a =
      Ends-any _ _ (Ends-store c w8 a b) λ u q. Ends-store_string rest (next a)

  Ends-push_string : (str : List ℕ) → Ends c Any Anywhere (push_string str)
  unfolding push_string
  Ends-push_string str =
      Ends-any _ _ (Ends-gets c (reg rsp))
        λ sp q. Ends-any _ _ (Ends-set_rsp c _) λ u q. Ends-store_string str _

  Ends-store_zeros : (n a : ℕ) → Ends c Any Anywhere (store_zeros a n)
  unfolding store_zeros
  Ends-store_zeros zero a = Ends-weaken c (λ x y e. tt) (Ends-pure c tt tt)
  Ends-store_zeros (suc n) a = Ends-any _ _ (Ends-store c w8 a 0) λ u q. Ends-store_zeros n (next a)

  -- One address for each string.
  Ends-push_strings :
      (n : ℕ) (strs : List (List ℕ))
      → n ≤ length strs
      → Ends c (λ ps. length ps ≡ n) Anywhere (push_strings n strs)
  unfolding push_strings
  Ends-push_strings zero strs h = Ends-weaken c (λ x y e. tt) (Ends-pure c [] refl)
  Ends-push_strings (suc n) [] h = absurd (omega arith)
  Ends-push_strings (suc n) (str ∷ strs) h = Ends-any _ _ (Ends-push_string str) λ u q.
      Ends-any _ _ (Ends-gets c (reg rsp)) λ p q.
        Ends-any _ _ (Ends-push_strings n strs (omega arith))
          λ ps q. Ends-pure c (p ∷ ps) (ap suc q)

  Ends-push_random : (host : Host) (n i : ℕ) → Ends c Any Anywhere (push_random host i n)
  unfolding push_random
  Ends-push_random host zero i = Ends-weaken c (λ x y e. tt) (Ends-pure c tt tt)
  Ends-push_random host (suc n) i =
      Ends-any _ _ (Ends-push_32 c _) λ u q. Ends-push_random host n (suc i)

  -- RSP is a multiple of 16 after the alignment.
  low_clear : (sp : ℕ) → bit_and sp (complement w64 15) % 16 ≡ 0
  low_clear sp = omega (
    arith,
    bit_and_step sp (complement w64 15),
    bit_and_step (sp / 2) (complement w64 15 / 2),
    bit_and_step (sp / 2 / 2) (complement w64 15 / 2 / 2),
    bit_and_step (sp / 2 / 2 / 2) (complement w64 15 / 2 / 2 / 2),
  )

  Ends-push_align : c.stack.align ≡ 16 → Ends c Any (λ x y. y % 16 ≡ 0) push_align
  unfolding push_align
  Ends-push_align e = Ends-last _ _ (Ends-gets c (reg rsp)) λ sp q.
      Ends-last _ _ (Ends-gets_ctx c (λ k. k.stack.align)) λ align q.
        Ends-last _ _ (Ends-store_zeros _ _) λ u q'.
          Ends-weaken c
            (λ x y h.
              ap (λ (v : ℕ). v % 16) h
              ∙ ap
                  (λ (a : ℕ). bit_and sp (complement w64 ((a + 2 ^ 64 - 1) % 2 ^ 64)) % 2 ^ 64 % 16)
                  (q ∙ e)
              ∙ omega (arith, low_clear sp))
            (Ends-set_rsp c _)

  Ends-push_auxv : (v t : ℕ) → Ends c Any (Moved 0) (push_auxv v t)
  unfolding push_auxv
  Ends-push_auxv v t =
      Ends-weaken c (λ x y h. omega arith)
        (Ends-bind c _ _ (Moved-twice 8 8) (Ends-push_64 c v) λ u q. Ends-push_64 c t)

  Ends-push_reversed : (ps : List ℕ) → Ends c Any (Moved (8 * length ps)) (push_reversed ps)
  unfolding push_reversed
  Ends-push_reversed [] = Ends-weaken c (λ x y h. omega arith) (Ends-pure c tt tt)
  Ends-push_reversed (p ∷ ps) =
      Ends-weaken c (λ x y h. omega arith)
        (Ends-bind c _ _ (Moved-twice (8 * length ps) 8) (Ends-push_reversed ps)
          λ u q. Ends-push_64 c p)

  module _ (host : Host) where
    Ends-push_real_auxv :
        (enoent : Bool) (t : ℕ) → Ends c Any (Moved 0) (push_real_auxv host enoent t)
    unfolding push_real_auxv
    Ends-push_real_auxv enoent t = entry (host.getauxval t) enoent
      where
        stay : (b : Bool) → Ends c Any (Moved 0) (pure b)
        stay b = Ends-weaken c (λ x y h. omega arith) (Ends-pure c b tt)

        entry :
            (v : Option ℕ) (b : Bool)
            → Ends c Any (Moved 0) (elim v [
              | none ↦ pure true
              | some v ↦ if b then pure true else (do push_auxv v t; pure false)
            ])
        entry none b = stay true
        entry (some v) true = stay true
        entry (some v) false =
            Ends-bind c _ _ (Moved-twice 0 0) (Ends-push_auxv v t) λ u q. stay false

    Ends-push_vector :
        (enoent : Bool) (entry platform_string random_16 execfn : ℕ)
        → Ends c Any (Moved 0) (push_vector host enoent entry platform_string random_16 execfn)
    unfolding push_vector
    Ends-push_vector enoent entry platform_string random_16 execfn =
        both (Ends-push_auxv _ _) λ u q. both (Ends-push_real_auxv _ _) λ e q.
          both (Ends-push_real_auxv _ _) λ e q. both (Ends-push_auxv _ _) λ u q.
            both (Ends-push_real_auxv _ _) λ e q. both (Ends-push_real_auxv _ _) λ e q.
              both (Ends-push_real_auxv _ _) λ e q. both (Ends-push_real_auxv _ _) λ e q.
                both (Ends-push_auxv _ _) λ u q.
                  both (Ends-push_real_auxv _ _)
                    λ e q. both (Ends-push_auxv _ _) λ u q. Ends-push_auxv _ _
      where
        both :
            {A B : Type 0} {m : M A} {k : A → M B}
            → Ends c Any (Moved 0) m
            → ((a : A) → Any a → Ends c Any (Moved 0) (k a))
            → Ends c Any (Moved 0) (m >>= k)
        both em ek = Ends-bind c _ _ (Moved-twice 0 0) em ek

    Ends-push_pointers :
        (argc : ℕ) (p_argv p_envv : List ℕ)
        → Ends c Any
            (Moved (8 * (length p_argv + length p_envv + 3)))
            (push_pointers host argc p_argv p_envv)
    unfolding push_pointers
    Ends-push_pointers argc p_argv p_envv =
        Ends-weaken c (λ x y h. omega arith)
          (Ends-bind c _ _ (Moved-twice 8 _) (Ends-push_64 c 0) λ u q.
            Ends-bind c _ _ (Moved-twice (8 * length p_envv) _) (Ends-push_reversed p_envv) λ u q.
              Ends-bind c _ _ (Moved-twice 8 _) (Ends-push_64 c 0) λ u q.
                Ends-bind c _ _ (Moved-twice (8 * length p_argv) 8) (Ends-push_reversed p_argv)
                  λ u q. Ends-push_64 c argc)

    Ends-first :
        (ps : List ℕ)
        → 0 < length ps
        → Ends c {A = ℕ} Any (Moved 0) (elim ps [ [] ↦ undefined | p ∷ rest ↦ pure p ])
    Ends-first [] h = absurd (omega arith)
    Ends-first (p ∷ rest) h = Ends-weaken c (λ x y h. omega arith) (Ends-pure c p tt)

    module _ (argc_fits : c.argc ≤ length c.argv) (envc_fits : c.envc ≤ length c.envv)
        (some_argument : 0 < c.argc) (align : c.stack.align ≡ 16) where
      pub Ends-x64stack_setup :
          (enoent : Bool)
          → Ends c Any
              (λ x y. y % 16 ≡ (8 * (c.argc + c.envc + 3)) % 16)
              (x64stack_setup host enoent)
      unfolding x64stack_setup
      Ends-x64stack_setup enoent = Ends-ctx c _ (
          Ends-last _ _ (Ends-push_strings c.argc c.argv argc_fits) λ p_argv argv_len.
            Ends-last _ _ (Ends-push_strings c.envc c.envv envc_fits) λ p_envv envv_len.
              Ends-last _ _ (Ends-push_string (0x78 ∷ 0x38 ∷ 0x36 ∷ 0x5F ∷ 0x36 ∷ 0x34 ∷ [])) λ u q.
                Ends-last _ _ (Ends-gets c (reg rsp)) λ platform_string q.
                  Ends-last _ _ (Ends-push_random host 4 0) λ u q.
                    Ends-last _ _ (Ends-gets c (reg rsp)) λ random_16 q.
                      Ends-bind c _ _ (total (length p_argv) (length p_envv) argv_len envv_len)
                        (Ends-push_align align)
                        λ u q.
                          Ends-bind c _ _ (Moved-twice 0 _) (Ends-first p_argv (omega arith))
                            λ execfn q.
                              Ends-bind c _ _ (Moved-twice 0 _)
                                (Ends-push_vector enoent c.entry platform_string random_16 execfn)
                                λ u q. Ends-push_pointers c.argc p_argv p_envv)
        where
          total :
              (m n : ℕ)
              → m ≡ c.argc
              → n ≡ c.envc
              → (x y z : ℕ) → y % 16 ≡ 0
              → Moved (0 + (0 + 8 * (m + n + 3))) y z
              → z % 16 ≡ (8 * (c.argc + c.envc + 3)) % 16
          total m n e e' x y z h h' = omega arith
