-- ===== src/Stack/Setup/Lays.antt =====
-- Effects that write below RSP and move it down: what they leave stays, since what follows them
-- writes lower still.
use flux.Base.{ℕ, ◌+◌, ◌^◌, ◌≤◌, ◌<◌, ◌≡◌, refl, ap, ◌∙◌, true, arith}
use flux.Machine.{Emu, Context, M, ok, ◌>>=◌, pure, gets, reg, rsp}

-- The memories agree from `lo` on.
abbrev pub AgreeFrom : ℕ → (ℕ → ℕ) → (ℕ → ℕ) → Type 0
AgreeFrom lo f g = (x : ℕ) → lo ≤ x → x < 2 ^ 64 → f x ≡ g x

module _ (c : Context) (lo : ℕ) where
  -- The stack from `lo` on can be written.
  pub record IsReady (s : Emu) : Type 0 where
    pub writable : (a : ℕ) → lo ≤ a → a < s.regs rsp → s.mem.writable a ≡ true
    pub fits : s.regs rsp < 2 ^ 64
    pub same_ctx : s.ctx ≡ c

  -- `m` returns `a`, RSP has moved from `x` to `y` over `size` bytes at most, from a stack with the room, nothing from `x` on
  -- has changed, and `Q x a y f` holds for every memory `f` that agrees with the new one from `y` on.
  pub record Lays {A : Type 0} (size : ℕ) (Q : ℕ → A → ℕ → (ℕ → ℕ) → Type 0) (m : M A)
      : Type 0 where
    pub at :
        (s : Emu)
        → IsReady s
        → lo + size ≤ s.regs rsp
        → (a : A) × (t : Emu) × (m s ≡ ok a t)
          × IsReady t
          × (t.regs rsp ≤ s.regs rsp)
          × (s.regs rsp ≤ t.regs rsp + size)
          × AgreeFrom (s.regs rsp) t.mem.byte s.mem.byte
          × ((f : ℕ → ℕ) → AgreeFrom (t.regs rsp) f t.mem.byte → Q (s.regs rsp) a (t.regs rsp) f)

  module _ {A B : Type 0} {Q : ℕ → A → ℕ → (ℕ → ℕ) → Type 0} {Q' : A → ℕ → B → ℕ → (ℕ → ℕ) → Type 0}
      {Q'' : ℕ → B → ℕ → (ℕ → ℕ) → Type 0} where
    pub Lays-bind :
        (n n' : ℕ) (m : M A) (k : A → M B)
        → ((x : ℕ) (a : A) (y : ℕ) (b : B) (z : ℕ) (f : ℕ → ℕ)
            → Q x a y f
            → Q' a y b z f
            → Q'' x b z f)
        → Lays n Q m
        → ((x : ℕ) (a : A) (y : ℕ) (f : ℕ → ℕ) → Q x a y f → Lays n' (Q' a) (k a))
        → Lays (n + n') Q'' (m >>= k)
    unfolding ◌>>=◌
    Lays-bind n n' m k chain lm lk = record {
      at = λ s ready room.
          let (a, t, run, ready', low, near, kept, post) = lm.at s ready (omega arith) in
          let (b, u, run', ready'', low', near', kept', post') =
            (lk _ a _ t.mem.byte (post t.mem.byte (λ x h lt. refl))).at t ready' (omega arith) in
          (
            b,
            u,
            rw run run',
            ready'',
            omega arith,
            omega arith,
            λ x h lt. kept' x (omega arith) lt ∙ kept x h lt,
            λ f agree.
                chain (s.regs rsp) a (t.regs rsp) b (u.regs rsp) f
                  (post f (λ x h lt. agree x (omega arith) lt ∙ kept' x h lt)) (post' f agree),
          );
    }

  pub Lays-pure :
      {A : Type 0} {Q : ℕ → A → ℕ → (ℕ → ℕ) → Type 0} (a : A)
      → ((x : ℕ) (f : ℕ → ℕ) → Q x a x f)
      → Lays 0 Q (pure a)
  unfolding pure
  Lays-pure a q = record {
    at = λ s ready room.
        (a, s, refl, ready, omega arith, omega arith, λ x h lt. refl, λ f agree. q (s.regs rsp) f);
  }

  pub Lays-rsp : Lays 0 (λ x a y f. (a ≡ x) × (y ≡ x)) (gets (reg rsp))
  unfolding gets
  Lays-rsp = record {
    at = λ s ready room. (
      s.regs rsp,
      s,
      refl,
      ready,
      omega arith,
      omega arith,
      λ x h lt. refl,
      λ f agree. (refl, refl),
    );
  }

  pub Lays-weaken :
      {A : Type 0} {Q Q' : ℕ → A → ℕ → (ℕ → ℕ) → Type 0} (n n' : ℕ) (m : M A)
      → n ≤ n'
      → ((x : ℕ) (a : A) (y : ℕ) (f : ℕ → ℕ) → Q x a y f → Q' x a y f)
      → Lays n Q m
      → Lays n' Q' m
  Lays-weaken n n' m le weaker lm = record {
    at = λ s ready room.
        let (a, t, run, ready', low, near, kept, post) = lm.at s ready (omega arith) in
        (a, t, run, ready', low, omega arith, kept, λ f agree. weaker _ _ _ f (post f agree));
  }

  -- The context is `c`.
  pub Lays-ctx :
      {A : Type 0} {Q : ℕ → A → ℕ → (ℕ → ℕ) → Type 0} (n : ℕ) (k : Context → M A)
      → Lays n Q (k c)
      → Lays n Q (gets Emu.ctx >>= k)
  unfolding gets ◌>>=◌
  Lays-ctx n k lk = record {
    at = λ s ready room.
        let (a, t, run, ready', low, near, kept, post) = lk.at s ready room in
        (a, t, ap (λ (v : Context). k v s) ready.same_ctx ∙ run, ready', low, near, kept, post);
  }
