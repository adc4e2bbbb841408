-- ===== src/Stack/Setup/Loops.antt =====
-- The loops of `x64stack_setup` (x64emu/stack.c) that push strings and random numbers.
use mathlib.Core.Path.{subst}
use native.Mathlib.Nat.{le_refl}
use flux.Base.{length, ℕ, suc, ◌+◌, ◌*◌, ◌%◌, ◌^◌, ◌≡◌, refl, ap, ◌∙◌, List, [], ◌∷◌, ◌++◌, arith}
use flux.Word.{w32, trunc}
use flux.Machine.{Context, M, ◌>>=◌, gets, reg, rsp, load_le}
use flux.Stack.{push}
use flux.Stack.Setup.{Host, push_strings, push_random}
use flux.Stack.Setup.Layout.{Holds, HoldsStrings, string_bytes}
use flux.Stack.Setup.Lays.{Lays, Lays-bind, Lays-pure, Lays-rsp, Lays-weaken}
use flux.Stack.Setup.Pieces.{Lays-push}
use flux.Stack.Setup.Strings.{Lays-push_string}

Holds-snoc :
    (f : ℕ → ℕ) (z : ℕ) (vs : List ℕ) (v : ℕ)
    → Holds w32 f z vs
    → load_le f (z + 4 * length vs) 4 ≡ trunc w32 v
    → Holds w32 f z (vs ++ (v ∷ []))
Holds-snoc f z [] v h e = (ap (λ (a : ℕ). load_le f a 4) same ∙ e, tt)
  where
    same : z ≡ z + 4 * 0
    same = omega arith
Holds-snoc f z (w ∷ vs) v h e =
    (h.0, Holds-snoc f (z + 4) vs v h.1 (ap (λ (a : ℕ). load_le f a 4) same ∙ e))
  where
    same : z + 4 + 4 * length vs ≡ z + 4 * suc (length vs)
    same = omega arith

module _ (c : Context) (lo : ℕ) where
  -- What was pushed last, and the use of its address.
  pub Lays-at :
      {B : Type 0} {Q : ℕ → ℕ → (ℕ → ℕ) → Type 0} {Q' : ℕ → ℕ → B → ℕ → (ℕ → ℕ) → Type 0}
      {Q'' : ℕ → B → ℕ → (ℕ → ℕ) → Type 0} (n n' : ℕ) (m : M (Unit {0})) (k : ℕ → M B)
      → ((x p : ℕ) (b : B) (z : ℕ) (f : ℕ → ℕ) → Q x p f → Q' p p b z f → Q'' x b z f)
      → Lays c lo n (λ x u y f. Q x y f) m
      → ((p : ℕ) → Lays c lo n' (Q' p) (k p))
      → Lays c lo (n + n') Q'' (m >>= λ _. gets (reg rsp) >>= k)
  Lays-at {Q'} n n' m k chain lm lk =
      Lays-bind c lo n n' m _ (λ x u y b z f q q'. chain x y b z f q q') lm
        λ x u y f q.
          Lays-weaken c lo (0 + n') n' _ (omega arith) (λ x a y f q. q)
            (Lays-bind c lo {Q'' = λ y b z f. Q' y y b z f} 0 n' _ k
              (λ x p y b z f q q'. subst (λ v. Q' v x b z f) q.0 (subst (λ v. Q' p v b z f) q.1 q'))
              (Lays-rsp c lo) (λ x p y f q. lk p))

  -- The loop over the arguments or the environment.
  pub Lays-push_strings :
      (strs : List (List ℕ))
      → Lays c lo
          (string_bytes strs)
          (λ x ps y f. HoldsStrings f ps strs × (length ps ≡ length strs))
          (push_strings (length strs) strs)
  unfolding push_strings
  Lays-push_strings [] = Lays-pure c lo [] (λ x f. (tt, refl))
  Lays-push_strings (str ∷ strs) =
      Lays-at (length str + 1) (string_bytes strs) _ _
        (λ x p b z f q q'. rw q'.1 ((q, q'.2), ap suc q'.3)) (Lays-push_string c lo str)
        λ p.
          Lays-weaken c lo (string_bytes strs + 0) (string_bytes strs) _ (omega arith)
            (λ x a y f q. q)
            (Lays-bind c lo
              {Q'' = λ x ps y f.
                (qs : List ℕ) × (ps ≡ p ∷ qs) × HoldsStrings f qs strs × (length qs ≡ length strs)}
              (string_bytes strs) 0 _ _ (λ x ps y b z f q q'. (ps, q', q.0, q.1))
              (Lays-push_strings strs)
              (λ x ps y f q. Lays-pure c lo {Q = λ x b y f. b ≡ p ∷ ps} (p ∷ ps) (λ x f. refl)))

  module _ (host : Host) where
    -- One number is drawn, and then the others.
    Lays-draw :
        (i n : ℕ) (vs : List ℕ) (m : M (Unit {0}))
        → Lays c lo n (λ x u y f. (y + 4 * length vs ≡ x) × Holds w32 f y vs) m
        → Lays c lo
            (4 + n)
            (λ x u y f. (y + 4 * (length vs + 1) ≡ x) × Holds w32 f y (vs ++ (host.random i ∷ [])))
            (push w32 (host.random i % 2 ^ 32) >>= λ _. m)
    Lays-draw i n vs m lm =
        Lays-bind c lo 4 n _ _
          (λ x u y u' z f q q'. (
            omega (arith, q.0, q'.0),
            Holds-snoc f z vs (host.random i) q'.1
                (ap (λ (a : ℕ). load_le f a 4) (omega (arith, q'.0)) ∙ q.1.0 ∙ omega arith),
          ))
          (Lays-push c lo w32 (host.random i % 2 ^ 32) tt) (λ x u y f q. lm)

    pub Lays-push_random :
        Lays c lo 16
          (λ x u y f.
            Holds w32 f y (host.random 3 ∷ host.random 2 ∷ host.random 1 ∷ host.random 0 ∷ []))
          (push_random host 0 4)
    unfolding push_random
    Lays-push_random =
        Lays-weaken c lo 16 16 _ (le_refl 16) (λ x u y f q. q.1)
          (Lays-draw 0 12 (host.random 3 ∷ host.random 2 ∷ host.random 1 ∷ []) _ (
            Lays-draw 1 8 (host.random 3 ∷ host.random 2 ∷ []) _ (
              Lays-draw 2 4 (host.random 3 ∷ []) _
                (Lays-draw 3 0 [] _ (Lays-pure c lo tt (λ x f. (omega arith, tt)))))))
