-- ===== src/Stack/Setup/Strings.antt =====
-- The strings and the zeros that x64emu/stack_private.h stores below the old stack pointer.
use native.Mathlib.Nat.{le_refl, pow-suc}
use flux.Base.{
  length, ℕ, zero, suc, ◌+◌, ◌-◌, ◌*◌, ◌/◌, ◌%◌, ◌^◌, ◌≤◌, ◌<◌, ◌≡◌, refl, ap, ◌∙◌, true, ◌⊎◌, inl,
  inr, List, [], ◌∷◌, arith, bit_and, bit_and_step,
}
use flux.Word.{w64, complement}
use flux.Machine.{Emu, Context, ok, ◌>>=◌, rsp, next, update, store, store_le, set_reg, all_allowed}
use flux.Stack.Laws.{with_rsp, set_lane_full}
use flux.Stack.Setup.{store_string, push_string, store_zeros, push_align}
use flux.Stack.Setup.Layout.{HoldsString}
use flux.Stack.Setup.Lays.{IsReady, Lays, AgreeFrom}

-- The memory after `store_string` and after `store_zeros`.
with_string : (ℕ → ℕ) → ℕ → List ℕ → ℕ → ℕ
with_string f a [] = update f a (0 % 256)
with_string f a (b ∷ rest) = with_string (update f a (b % 256)) (next a) rest

with_zeros : (ℕ → ℕ) → ℕ → ℕ → ℕ → ℕ
with_zeros f a zero = f
with_zeros f a (suc n) = with_zeros (update f a (0 % 256)) (next a) n

abbrev with_bytes : (ℕ → ℕ) → Emu → Emu
with_bytes f s = record s { mem = record (s.mem) { byte = f } }

store_string-ok :
    (str : List ℕ) (a : ℕ) (s : Emu)
    → a + length str < 2 ^ 64
    → ((b : ℕ) → a ≤ b → b ≤ a + length str → s.mem.writable b ≡ true)
    → store_string a str s ≡ ok tt (with_bytes (with_string s.mem.byte a str) s)
unfolding store_string with_string store store_le all_allowed ◌>>=◌
store_string-ok [] a s room h = rw (h a (omega arith) (omega arith))
store_string-ok (b ∷ rest) a s room h = rw (h a (omega arith) (omega arith)) (
    store_string-ok rest (next a) (with_bytes (update s.mem.byte a (b % 256)) s) (omega arith)
      λ b le lt. h b (omega arith) (omega arith))

store_zeros-ok :
    (n a : ℕ) (s : Emu)
    → a + n < 2 ^ 64
    → ((b : ℕ) → a ≤ b → b < a + n → s.mem.writable b ≡ true)
    → store_zeros a n s ≡ ok tt (with_bytes (with_zeros s.mem.byte a n) s)
unfolding store_zeros with_zeros store store_le all_allowed ◌>>=◌
store_zeros-ok zero a s room h = refl
store_zeros-ok (suc n) a s room h = rw (h a (omega arith) (omega arith)) (
    store_zeros-ok n (next a) (with_bytes (update s.mem.byte a (0 % 256)) s) (omega arith)
      λ b le lt. h b (omega arith) (omega arith))

-- Neither touches a byte outside.
with_string-outside :
    (str : List ℕ) (f : ℕ → ℕ) (a x : ℕ)
    → a + length str < 2 ^ 64
    → (x < a) ⊎ (a + length str < x)
    → with_string f a str x ≡ f x
unfolding with_string
with_string-outside [] f a x room out = ground arith
with_string-outside (b ∷ rest) f a x room out =
    ground (arith, with_string-outside rest (update f a (b % 256)) (next a) x)

with_zeros-outside :
    (n : ℕ) (f : ℕ → ℕ) (a x : ℕ) → a + n < 2 ^ 64 → a + n ≤ x → with_zeros f a n x ≡ f x
unfolding with_zeros
with_zeros-outside zero f a x room out = refl
with_zeros-outside (suc n) f a x room out =
    ground (arith, with_zeros-outside n (update f a (0 % 256)) (next a) x)

-- The string is there, in every memory that agrees from its start on.
with_string-holds :
    (str : List ℕ) (f g : ℕ → ℕ) (a lo : ℕ)
    → lo ≤ a
    → a + length str < 2 ^ 64
    → AgreeFrom lo g (with_string f a str)
    → HoldsString g a str
unfolding with_string
with_string-holds [] f g a lo le room agree = agree a le (omega arith) ∙ ground arith
with_string-holds (b ∷ rest) f g a lo le room agree = (
  agree a le (omega arith)
      ∙ with_string-outside rest (update f a (b % 256)) (next a) a (omega arith) (inl (omega arith))
      ∙ ground arith,
  rw (← step) (
      with_string-holds rest (update f a (b % 256)) g (next a) lo (omega arith) (omega arith)
        agree),
)
  where
    step : next a ≡ a + 1
    step = omega arith

-- The alignment mask clears the low four bits.
low_mask : (n x : ℕ) → x < 2 ^ n → bit_and x (2 ^ n - 1) ≡ x
low_mask zero x h = omega (arith, bit_and_step x 0, ap (λ (v : ℕ). bit_and v 0) none_set)
  where
    none_set : x ≡ 0
    none_set = omega arith
low_mask (suc n) x h = omega (
  arith,
  bit_and_step x (2 ^ suc n - 1),
  pow-suc 2 n,
  low_mask n (x / 2) (omega (arith, pow-suc 2 n)),
  ap (bit_and (x / 2)) halved,
)
  where
    halved : (2 ^ suc n - 1) / 2 ≡ 2 ^ n - 1
    halved = omega (arith, pow-suc 2 n)

align_16 : (sp : ℕ) → sp < 2 ^ 64 → bit_and sp (complement w64 15) ≡ sp / 16 * 16
align_16 sp h = omega (
  arith,
  bit_and_step sp (complement w64 15),
  bit_and_step (sp / 2) (complement w64 15 / 2),
  bit_and_step (sp / 2 / 2) (complement w64 15 / 2 / 2),
  bit_and_step (sp / 2 / 2 / 2) (complement w64 15 / 2 / 2 / 2),
  low_mask 60 (sp / 2 / 2 / 2 / 2) (omega arith),
)

module _ (c : Context) (lo : ℕ) where
  module _ (str : List ℕ) (s : Emu) (ready : IsReady c lo s)
      (room : lo + (length str + 1) ≤ s.regs rsp) where
    start : ℕ
    start = (s.regs rsp + 2 ^ 64 - (length str + 1)) % 2 ^ 64

    after : Emu
    after = with_bytes (with_string s.mem.byte start str) (with_rsp start s)

    at_start : after.regs rsp ≡ start
    unfolding after start
    at_start = set_lane_full start (s.regs rsp) ready.fits ∙ omega arith

    moved : start + length str + 1 ≡ s.regs rsp
    unfolding start
    moved = omega (arith, ready.fits)

    pushed : push_string str s ≡ ok tt after
    unfolding push_string after start ◌>>=◌ set_reg
    pushed =
        store_string-ok str start (with_rsp start s) (omega (arith, moved, ready.fits))
          λ b le lt. ready.writable b (omega (arith, moved)) (omega (arith, moved))

  pub Lays-push_string :
      (str : List ℕ) → Lays c lo (length str + 1) (λ x u y f. HoldsString f y str) (push_string str)
  unfolding after
  Lays-push_string str = record {
    at = λ s ready room.
        let there = at_start str s ready room in
        let down = moved str s ready room in
        (
          tt,
          after str s ready room,
          pushed str s ready room,
          record {
            writable = λ a le lt. ready.writable a le (omega (arith, there, down));
            fits = omega (arith, there, down, ready.fits);
            same_ctx = ready.same_ctx;
          },
          omega (arith, there, down),
          omega (arith, there, down),
          λ x h lt.
              with_string-outside str s.mem.byte (start str s ready room) x
                (omega (arith, down, ready.fits)) (inr (omega (arith, down))),
          λ f agree. rw there (
              with_string-holds str s.mem.byte f (start str s ready room) (start str s ready room)
                (le_refl _) (omega (arith, down, ready.fits)) (rw there at agree)),
        );
  }

  -- The alignment.
  module _ (align : c.stack.align ≡ 16) (s : Emu) (ready : IsReady c lo s)
      (room : lo + 15 ≤ s.regs rsp) where
    low : ℕ
    low = s.regs rsp / 16 * 16

    cleared : Emu
    cleared = with_rsp low (with_bytes (with_zeros s.mem.byte low (s.regs rsp - low)) s)

    at_low : cleared.regs rsp ≡ low
    unfolding cleared low
    at_low =
        set_lane_full (s.regs rsp / 16 * 16) (s.regs rsp) ready.fits ∙ omega (arith, ready.fits)

    below : low ≤ s.regs rsp
    unfolding low
    below = omega arith

    near : s.regs rsp ≤ low + 15
    unfolding low
    near = omega arith

    mask : bit_and (s.regs rsp) (complement w64 ((s.ctx.stack.align + 2 ^ 64 - 1) % 2 ^ 64)) ≡ low
    unfolding low
    mask =
        ap
          (λ (k : Context).
            bit_and (s.regs rsp) (complement w64 ((k.stack.align + 2 ^ 64 - 1) % 2 ^ 64)))
          ready.same_ctx
        ∙ ap (λ (a : ℕ). bit_and (s.regs rsp) (complement w64 ((a + 2 ^ 64 - 1) % 2 ^ 64))) align
        ∙ align_16 (s.regs rsp) ready.fits

    aligned : push_align s ≡ ok tt cleared
    unfolding push_align cleared ◌>>=◌ set_reg
    aligned = rw mask (
        rw (
          store_zeros-ok (s.regs rsp - low) low s (omega (arith, below, ready.fits))
            λ b le lt. ready.writable b (omega (arith, near)) (omega (arith, below))))

  pub Lays-push_align : c.stack.align ≡ 16 → Lays c lo 15 (λ x u y f. y % 16 ≡ 0) push_align
  unfolding cleared low
  Lays-push_align align = record {
    at = λ s ready room.
        let there = at_low align s ready room in
        (
          tt,
          cleared align s ready room,
          aligned align s ready room,
          record {
            writable = λ a le lt. ready.writable a le (omega (arith, there));
            fits = omega (arith, there, ready.fits);
            same_ctx = ready.same_ctx;
          },
          omega (arith, there),
          omega (arith, there),
          λ x h lt.
              with_zeros-outside (s.regs rsp - low align s ready room) s.mem.byte
                (low align s ready room) x (omega (arith, ready.fits)) (omega arith),
          λ f agree. omega (arith, there),
        );
  }
