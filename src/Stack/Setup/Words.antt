-- ===== src/Stack/Setup/Words.antt =====
-- The pushes of 64 bits of `x64stack_setup` (x64emu/stack.c): which words they leave, in the order of
-- their addresses.
use mathlib.Core.Path.{subst}
use mathlib.Core.List.{append_assoc}
use native.Mathlib.Nat.{le_refl}
use flux.Base.{
  length, length-append, ℕ, ◌+◌, ◌*◌, ◌≤◌, ◌≡◌, refl, ap, ◌∙◌, Bool, true, false, if◌then◌else◌,
  Option, none, some, List, [], ◌∷◌, ◌++◌, arith,
}
use flux.Word.{w64}
use flux.Machine.{Context, M, ◌>>=◌, ◌>>◌, pure}
use flux.Stack.{push}
use flux.Stack.Setup.{Host, push_auxv, push_real_auxv, push_reversed, push_vector, push_pointers}
use flux.Stack.Setup.Layout.{Holds, real, missing_after, vector, pointers}
use flux.Stack.Setup.Lays.{Lays, Lays-pure, Lays-weaken}
use flux.Stack.Setup.Pieces.{Lays-push}

Holds-append :
    (f : ℕ → ℕ) (z y : ℕ) (vs ws : List ℕ)
    → z + 8 * length vs ≡ y
    → Holds w64 f z vs
    → Holds w64 f y ws
    → Holds w64 f z (vs ++ ws)
Holds-append f z y [] ws e h k = let e' : z ≡ y = omega arith in rw e' k
Holds-append f z y (v ∷ vs) ws e h k = (h.0, Holds-append f (z + 8) y vs ws (omega arith) h.1 k)

-- The words `ws` lie from the new stack pointer up to the old one.
abbrev pub IsFilled : List ℕ → ℕ → ℕ → (ℕ → ℕ) → Type 0
IsFilled ws x y f = (y + 8 * length ws ≡ x) × Holds w64 f y ws

module _ (c : Context) (lo : ℕ) where
  -- `m` returns `v` and leaves the words `ws`.
  pub record Words {A : Type 0} (n : ℕ) (ws : List ℕ) (v : A) (m : M A) : Type 0 where
    pub lays : Lays c lo n (λ x a y f. (a ≡ v) × IsFilled ws x y f) m

  pub Words-bind :
      {A B : Type 0} (n n' : ℕ) (vs ws : List ℕ) (a : A) (b : B) (m : M A) (k : A → M B)
      → Words n ws a m
      → Words n' vs b (k a)
      → Words (n + n') (vs ++ ws) b (m >>= k)
  unfolding ◌>>=◌
  Words-bind n n' vs ws a b m k wm wk = record {
    lays = record {
      at = λ s ready room.
          let (a', t, run, ready', low, near, kept, post) = wm.lays.at s ready (omega arith) in
          let same = (post t.mem.byte (λ x h lt. refl)).0 in
          let (b', u, run', ready'', low', near', kept', post') =
            wk.lays.at t ready' (omega arith) in
          (
            b',
            u,
            rw run (ap (λ v. k v t) same ∙ run'),
            ready'',
            omega arith,
            omega arith,
            λ x h lt. kept' x (omega arith) lt ∙ kept x h lt,
            λ f agree.
                let first = post f (λ x h lt. agree x (omega arith) lt ∙ kept' x h lt) in
                let second = post' f agree in
                (
                  second.0,
                  (
                    omega (arith, length-append vs ws, first.1.0, second.1.0),
                    Holds-append f _ _ vs ws second.1.0 second.1.1 first.1.1,
                  ),
                ),
          );
    };
  }

  pub Words-pure : {A : Type 0} (a : A) → Words 0 [] a (pure a)
  Words-pure a = record { lays = Lays-pure c lo a (λ x f. (refl, (omega arith, tt))) }

  pub Words-push : (v : ℕ) → Words 8 (v ∷ []) tt (push w64 v)
  Words-push v = record {
    lays =
        Lays-weaken c lo 8 8 _ (le_refl 8) (λ x u y f q. (refl, (omega (arith, q.0), q.1)))
          (Lays-push c lo w64 v tt);
  }

  -- A larger bound on the room.
  Words-room :
      {A : Type 0} (n n' : ℕ) {ws : List ℕ} {v : A} {m : M A}
      → n ≤ n'
      → Words n ws v m
      → Words n' ws v m
  Words-room n n' {m} le w = record { lays = Lays-weaken c lo n n' m le (λ x a y f q. q) w.lays }

  Words-push_auxv : (v t : ℕ) → Words 16 (t ∷ v ∷ []) tt (push_auxv v t)
  unfolding push_auxv
  Words-push_auxv v t = Words-bind 8 8 (t ∷ []) (v ∷ []) tt tt _ _ (Words-push v) (Words-push t)

  Words-push_reversed : (ps : List ℕ) → Words (8 * length ps) ps tt (push_reversed ps)
  unfolding push_reversed
  Words-push_reversed [] = Words-pure tt
  Words-push_reversed (p ∷ ps) =
      Words-room _ _ (omega arith)
        (Words-bind (8 * length ps) 8 (p ∷ []) ps tt tt _ _ (Words-push_reversed ps) (Words-push p))

  module _ (host : Host) where
    Words-push_real_auxv :
        (enoent : Bool) (t : ℕ)
        → Words 16 (real host enoent t) (missing_after host enoent t) (push_real_auxv host enoent t)
    unfolding push_real_auxv
    Words-push_real_auxv enoent t = entry (host.getauxval t) enoent
      where
        entry :
            (v : Option ℕ) (b : Bool)
            → Words 16
                (elim v [ none ↦ [] | some v ↦ if b then [] else t ∷ v ∷ [] ])
                (elim v [ none ↦ true | some v ↦ b ])
                (elim v [
                  | none ↦ pure true
                  | some v ↦ if b then pure true else (do push_auxv v t; pure false)
                ])
        entry none b = Words-room 0 16 (omega arith) (Words-pure true)
        entry (some v) true = Words-room 0 16 (omega arith) (Words-pure true)
        entry (some v) false =
            Words-bind 16 0 [] (t ∷ v ∷ []) tt false _ _ (Words-push_auxv v t) (Words-pure false)

    -- The pushes of one part of the vector, and then the rest.
    both :
        {A B : Type 0} (n : ℕ) (vs ws : List ℕ) (a : A) (b : B) (m : M A) (k : A → M B)
        → Words 16 ws a m
        → Words n vs b (k a)
        → Words (16 + n) (vs ++ ws) b (m >>= k)
    both n vs ws a b m k wm wk = Words-bind 16 n vs ws a b m k wm wk

    -- The vector in the order of the pushes.
    abbrev nested : Bool → ℕ → ℕ → ℕ → ℕ → List ℕ
    nested e entry platform random_16 execfn =
        let e1 = missing_after host e 6 in
        let e2 = missing_after host e1 8 in
        let e3 = missing_after host e2 11 in
        let e4 = missing_after host e3 12 in
        let e5 = missing_after host e4 13 in
        let e6 = missing_after host e5 14 in
        (((((((((((31 ∷ execfn ∷ []) ++ (25 ∷ random_16 ∷ [])) ++ real host e6 23)
                        ++ (15 ∷ platform ∷ []))
                      ++ real host e5 14)
                    ++ real host e4 13)
                  ++ real host e3 12)
                ++ real host e2 11)
              ++ (9 ∷ entry ∷ []))
            ++ real host e1 8)
          ++ real host e 6)
        ++ (0 ∷ 0 ∷ [])

    nested-eq :
        (e : Bool) (entry platform random_16 execfn : ℕ)
        → nested e entry platform random_16 execfn ≡ vector host e entry platform random_16 execfn
    nested-eq e entry platform random_16 execfn = simp append_assoc

    Words-nested :
        (enoent : Bool) (entry platform_string random_16 execfn : ℕ)
        → Words 192
            (nested enoent entry platform_string random_16 execfn)
            tt
            (push_vector host enoent entry platform_string random_16 execfn)
    unfolding push_vector
    Words-nested enoent entry platform_string random_16 execfn =
        both _ _ _ _ _ _ _ (Words-push_auxv 0 0) (
          both _ _ _ _ _ _ _ (Words-push_real_auxv _ 6) (
            both _ _ _ _ _ _ _ (Words-push_real_auxv _ 8) (
              both _ _ _ _ _ _ _ (Words-push_auxv entry 9) (
                both _ _ _ _ _ _ _ (Words-push_real_auxv _ 11) (
                  both _ _ _ _ _ _ _ (Words-push_real_auxv _ 12) (
                    both _ _ _ _ _ _ _ (Words-push_real_auxv _ 13) (
                      both _ _ _ _ _ _ _ (Words-push_real_auxv _ 14) (
                        both _ _ _ _ _ _ _ (Words-push_auxv platform_string 15) (
                          both _ _ _ _ _ _ _ (Words-push_real_auxv _ 23) (
                            both _ _ _ _ _ _ _ (Words-push_auxv random_16 25)
                              (Words-push_auxv execfn 31)))))))))))

    pub Words-push_vector :
        (enoent : Bool) (entry platform_string random_16 execfn : ℕ)
        → Words 192
            (vector host enoent entry platform_string random_16 execfn)
            tt
            (push_vector host enoent entry platform_string random_16 execfn)
    Words-push_vector enoent entry platform_string random_16 execfn =
        subst
          (λ ws. Words 192 ws tt (push_vector host enoent entry platform_string random_16 execfn))
          (nested-eq enoent entry platform_string random_16 execfn)
          (Words-nested enoent entry platform_string random_16 execfn)

    Words-push_pointers :
        (argc : ℕ) (p_argv p_envv : List ℕ)
        → Words
            (8 * (length p_argv + length p_envv + 3))
            (((((argc ∷ []) ++ p_argv) ++ (0 ∷ [])) ++ p_envv) ++ (0 ∷ []))
            tt
            (push_pointers host argc p_argv p_envv)
    unfolding push_pointers
    Words-push_pointers argc p_argv p_envv = Words-room _ _ (omega arith) (
        Words-bind 8 _ _ _ tt tt _ _ (Words-push 0) (
          Words-bind (8 * length p_envv) _ _ _ tt tt _ _ (Words-push_reversed p_envv) (
            Words-bind 8 _ _ _ tt tt _ _ (Words-push 0) (
              Words-bind (8 * length p_argv) 8 _ _ tt tt _ _ (Words-push_reversed p_argv)
                (Words-push argc)))))

    -- The vector, and then the pointers below it.
    pub Words-tail :
        (enoent : Bool) (entry platform_string random_16 execfn argc : ℕ) (p_argv p_envv : List ℕ)
        → Words
            (192 + 8 * (length p_argv + length p_envv + 3))
            (pointers argc p_argv p_envv
              (vector host enoent entry platform_string random_16 execfn))
            tt
            (push_vector host enoent entry platform_string random_16 execfn >>= λ _.
              push_pointers host argc p_argv p_envv)
    Words-tail enoent entry platform_string random_16 execfn argc p_argv p_envv =
        subst
          (λ ws. Words (192 + 8 * (length p_argv + length p_envv + 3)) ws tt (
            push_vector host enoent entry platform_string random_16 execfn >>= λ _.
            push_pointers host argc p_argv p_envv))
          regroup
          (Words-bind 192 _ _ _ tt tt _ _
            (Words-push_vector enoent entry platform_string random_16 execfn)
            (Words-push_pointers argc p_argv p_envv))
      where
        regroup :
            (((((argc ∷ []) ++ p_argv) ++ (0 ∷ [])) ++ p_envv) ++ (0 ∷ []))
              ++ vector host enoent entry platform_string random_16 execfn
            ≡ pointers argc p_argv p_envv
                (vector host enoent entry platform_string random_16 execfn)
        regroup = simp append_assoc
