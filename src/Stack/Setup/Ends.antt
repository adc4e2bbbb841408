-- ===== src/Stack/Setup/Ends.antt =====
-- Total correctness of the pushes of x64emu/stack_private.h: from a state that may write everywhere an effect returns, and
-- moves RSP in a known way.
use flux.Base.{ℕ, ◌+◌, ◌%◌, ◌^◌, ◌<◌, ◌≡◌, refl, ap, ◌∙◌, true, arith}
use flux.Word.{Width, w32, w64, bytes}
use flux.Machine.{Emu, Context, M, ok, ◌>>=◌, pure, gets, store, set_reg, rsp}
use flux.Stack.{push}
use flux.Stack.Laws.{set_lane_full, below, push-ok, stored}
use flux.Machine.Memory.{all_allowed-all}

abbrev pub Any : {A : Type 0} → A → Type 0
Any a = Unit

abbrev pub Anywhere : ℕ → ℕ → Type 0
Anywhere x y = Unit

abbrev pub Same : ℕ → ℕ → Type 0
Same x y = x ≡ y

-- RSP moves down by a multiple of 16 less `k`.
abbrev pub Moved : ℕ → ℕ → ℕ → Type 0
Moved k x y = y % 16 ≡ (x + k) % 16

module _ (c : Context) where
  pub record IsReady (s : Emu) : Type 0 where
    pub writable : (a : ℕ) → s.mem.writable a ≡ true
    pub fits : s.regs rsp < 2 ^ 64
    pub same_ctx : s.ctx ≡ c

  -- `m` returns a value for which `Q` holds, and RSP before and after are in the relation `R`.
  pub record Ends {A : Type 0} (Q : A → Type 0) (R : ℕ → ℕ → Type 0) (m : M A) : Type 0 where
    pub at :
        (s : Emu)
        → IsReady s
        → (a : A) × (t : Emu) × (m s ≡ ok a t) × Q a × IsReady t × R (s.regs rsp) (t.regs rsp)

  module _ {A B : Type 0} {Q : A → Type 0} {Q' : B → Type 0} {R R' R'' : ℕ → ℕ → Type 0} where
    pub Ends-bind :
        (m : M A) (k : A → M B)
        → ((x y z : ℕ) → R x y → R' y z → R'' x z)
        → Ends Q R m
        → ((a : A) → Q a → Ends Q' R' (k a))
        → Ends Q' R'' (m >>= k)
    unfolding ◌>>=◌
    Ends-bind m k chain em ek = record {
      at = λ s ready.
          let (a, t, run, q, ready', r) = em.at s ready in
          let (b, u, run', q', ready'', r') = (ek a q).at t ready' in
          (b, u, rw run run', q', ready'', chain _ _ _ r r');
    }

  pub Ends-pure : {A : Type 0} {Q : A → Type 0} (a : A) → Q a → Ends Q Same (pure a)
  unfolding pure
  Ends-pure a q = record { at = λ s ready. (a, s, refl, q, ready, refl) }

  pub Ends-weaken :
      {A : Type 0} {Q : A → Type 0} {R R' : ℕ → ℕ → Type 0} {m : M A}
      → ((x y : ℕ) → R x y → R' x y)
      → Ends Q R m
      → Ends Q R' m
  Ends-weaken weaker em = record {
    at = λ s ready.
        let (a, t, run, q, ready', r) = em.at s ready in (a, t, run, q, ready', weaker _ _ r);
  }

  pub Ends-gets : {A : Type 0} (f : Emu → A) → Ends Any Same (gets f)
  unfolding gets
  Ends-gets f = record { at = λ s ready. (f s, s, refl, tt, ready, refl) }

  -- A part of the context is what it was.
  pub Ends-gets_ctx : {A : Type 0} (f : Context → A) → Ends (λ v. v ≡ f c) Same (gets λ s. f s.ctx)
  unfolding gets
  Ends-gets_ctx f = record { at = λ s ready. (f s.ctx, s, refl, ap f ready.same_ctx, ready, refl) }

  -- The context is `c`.
  pub Ends-ctx :
      {B : Type 0} {Q : B → Type 0} {R : ℕ → ℕ → Type 0} (k : Context → M B)
      → Ends Q R (k c)
      → Ends Q R (gets Emu.ctx >>= k)
  unfolding gets ◌>>=◌
  Ends-ctx k ek = record {
    at = λ s ready.
        let (b, t, run, q, ready', r) = ek.at s ready in
        (b, t, ap (λ (v : Context). k v s) ready.same_ctx ∙ run, q, ready', r);
  }

  pub Ends-store : (w : Width) (a v : ℕ) → Ends Any Same (store w a v)
  unfolding store ◌>>=◌
  Ends-store w a v = record {
    at = λ s ready. (
      tt,
      stored w a v s,
      rw (all_allowed-all s.mem.writable a (bytes w) ready.writable) refl,
      tt,
      record { writable = ready.writable; fits = ready.fits; same_ctx = ready.same_ctx },
      refl,
    );
  }

  pub Ends-set_rsp : (v : ℕ) → Ends Any (λ x y. y ≡ v % 2 ^ 64) (set_reg w64 0 rsp v)
  unfolding set_reg
  Ends-set_rsp v = record {
    at = λ s ready. (
      tt,
      _,
      refl,
      tt,
      record {
        writable = ready.writable;
        fits = omega (arith, set_lane_full v (s.regs rsp) ready.fits);
        same_ctx = ready.same_ctx;
      },
      set_lane_full v (s.regs rsp) ready.fits,
    );
  }

  pub Ends-push_64 : (v : ℕ) → Ends Any (Moved 8) (push w64 v)
  Ends-push_64 v = record {
    at = λ s ready. (
      tt,
      _,
      push-ok w64 v s (all_allowed-all s.mem.writable (below w64 s) 8 ready.writable),
      tt,
      record {
        writable = ready.writable;
        fits = omega (arith, set_lane_full (below w64 s) (s.regs rsp) ready.fits);
        same_ctx = ready.same_ctx;
      },
      ap (λ (x : ℕ). x % 16) (set_lane_full (below w64 s) (s.regs rsp) ready.fits) ∙ omega arith,
    );
  }

  pub Ends-push_32 : (v : ℕ) → Ends Any Anywhere (push w32 v)
  Ends-push_32 v = record {
    at = λ s ready. (
      tt,
      _,
      push-ok w32 v s (all_allowed-all s.mem.writable (below w32 s) 4 ready.writable),
      tt,
      record {
        writable = ready.writable;
        fits = omega (arith, set_lane_full (below w32 s) (s.regs rsp) ready.fits);
        same_ctx = ready.same_ctx;
      },
      tt,
    );
  }
