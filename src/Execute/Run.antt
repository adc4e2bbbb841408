-- ===== src/Execute/Run.antt =====
-- The loop of `x64emu_run` (x64emu/emu.c) without a bound: the instructions one after the other.
use flux.Base.{
  ℕ, zero, suc, ◌≤◌, ◌↔◌, ◌≡◌, refl, sym, ap, ◌∙◌, Bool, true, false, if◌then◌else◌, arith,
}
use mathlib.Core.Path.{subst}
use native.Mathlib.Nat.{le_refl}
use flux.Machine.{Emu, Outcome, ok, exited, fault, ◌>>=◌, and_then, pure}
use flux.Context.{Os}
use flux.Execute.{x64emu_step, x64emu_run}

-- An outcome with which the loop is left.
abbrev pub IsEnd : Outcome Bool → Type 0
IsEnd (ok true s) = ⊥
IsEnd _ = Unit

module _ (os : Os) (prefixes : ℕ) where
  -- `u` is reached from a state in passes of the loop that go on.
  pub data ReachedFrom (u : Emu) : Emu → Type 0 where
    here : ReachedFrom u u
    pass : {s t : Emu} → x64emu_step os prefixes s ≡ ok true t → ReachedFrom u t → ReachedFrom u s

  -- The loop from `s` ends in the outcome `r`.
  pub record EndsIn (s : Emu) (r : Outcome Bool) : Type 0 where
    pub last : Emu
    pub reached : ReachedFrom last s
    pub ends : x64emu_step os prefixes last ≡ r

  rest : ℕ → Outcome Bool → Outcome Bool
  rest fuel o = and_then o λ more. if more then x64emu_run os prefixes fuel else pure false

  run-suc :
      (fuel : ℕ) (s : Emu)
      → x64emu_run os prefixes (suc fuel) s ≡ rest fuel (x64emu_step os prefixes s)
  unfolding x64emu_run rest ◌>>=◌
  run-suc fuel s = refl

  -- A run that ends is the loop.
  run-EndsIn :
      (fuel : ℕ) (s : Emu) (r : Outcome Bool)
      → IsEnd r
      → x64emu_run os prefixes fuel s ≡ r
      → EndsIn s r
  unfolding x64emu_run rest pure
  run-EndsIn zero s r end e = absurd (subst IsEnd (sym e) end)
  run-EndsIn (suc fuel) s r end e =
      first (x64emu_step os prefixes s) refl (sym (run-suc fuel s) ∙ e) (run-EndsIn fuel)
    where
      first :
          (o : Outcome Bool)
          → x64emu_step os prefixes s ≡ o
          → rest fuel o ≡ r
          → ((s : Emu) (r : Outcome Bool)
              → IsEnd r
              → x64emu_run os prefixes fuel s ≡ r
              → EndsIn s r)
          → EndsIn s r
      first (ok true t) h e again =
          let later = again t r end e in
          record { last = later.last; reached = pass h later.reached; ends = later.ends }
      first (ok false t) h e again = record { last = s; reached = here; ends = h ∙ e }
      first (exited c) h e again = record { last = s; reached = here; ends = h ∙ e }
      first fault h e again = record { last = s; reached = here; ends = h ∙ e }

  rest-end : (fuel : ℕ) (o r : Outcome Bool) → IsEnd r → o ≡ r → rest fuel o ≡ r
  unfolding rest pure
  rest-end fuel o (ok true t) end e = absurd end
  rest-end fuel o (ok false t) end e = rw e refl
  rest-end fuel o (exited c) end e = rw e refl
  rest-end fuel o fault end e = rw e refl

  -- The passes that are left, as fuel.
  enough :
      (last : Emu) (r : Outcome Bool) (s : Emu)
      → IsEnd r
      → ReachedFrom last s
      → x64emu_step os prefixes last ≡ r
      → (n : ℕ) × ((m : ℕ) → n ≤ m → x64emu_run os prefixes m s ≡ r)
  unfolding rest
  enough last r s end here e = (1, go)
    where
      go : (m : ℕ) → 1 ≤ m → x64emu_run os prefixes m s ≡ r
      go zero le = absurd (omega arith)
      go (suc m) le = run-suc m s ∙ rest-end m _ r end e
  enough last r s end (pass {t = t} h later) e =
      let (n, run) = enough last r t end later e in (suc n, go n run)
    where
      go :
          (n : ℕ)
          → ((m : ℕ) → n ≤ m → x64emu_run os prefixes m t ≡ r)
          → (m : ℕ) → suc n ≤ m
          → x64emu_run os prefixes m s ≡ r
      go n run zero le = absurd (omega arith)
      go n run (suc m) le = run-suc m s ∙ ap (rest m) h ∙ run m (omega arith)

  -- The loop without a bound ends in an outcome if and only if there is a number of passes from which
  -- on x64emu_run, bounded by that number or any greater one, gives the outcome.
  pub x64emu_run-loop :
      (s : Emu) (r : Outcome Bool)
      → IsEnd r
      → EndsIn s r ↔ ((n : ℕ) × ((m : ℕ) → n ≤ m → x64emu_run os prefixes m s ≡ r))
  x64emu_run-loop s r end = (
    λ h. enough h.last r s end h.reached h.ends,
    λ h. run-EndsIn h.0 s r end (h.1 h.0 (le_refl h.0)),
  )
