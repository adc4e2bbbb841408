-- ===== src/Stack/Setup/Pieces.antt =====
-- What the pushes of x64emu/stack_private.h leave below the old stack pointer.
use native.Mathlib.Nat.{le_refl}
use flux.Base.{ℕ, zero, suc, ◌+◌, ◌^◌, ◌≤◌, ◌≡◌, refl, ap, ◌∙◌, true, [], ◌∷◌, arith}
use flux.Word.{Width, w8, w16, w32, w64, w128, bytes, trunc, IsWord}
use flux.Machine.{all_allowed, Emu, Context, rsp, next, load_le}
use flux.Machine.Memory.{store_le-outside, load-store_word, all_allowed-range}
use flux.Stack.{push}
use flux.Stack.Laws.{below, with_rsp, stored, push-ok, set_lane_full}
use flux.Stack.Setup.Layout.{Holds}
use flux.Stack.Setup.Lays.{IsReady, Lays, AgreeFrom}

-- A load that does not reach the end of the address space sees what it agrees on.
load_le-agree :
    (f g : ℕ → ℕ) (lo a n : ℕ)
    → AgreeFrom lo f g
    → lo ≤ a
    → a + n ≤ 2 ^ 64
    → load_le f a n ≡ load_le g a n
unfolding load_le
load_le-agree f g lo a zero h le room = refl
load_le-agree f g lo a (suc zero) h le room = ground (arith, h a)
load_le-agree f g lo a (suc (suc n)) h le room =
    ground (arith, h a, load_le-agree f g lo (next a) (suc n) h)

bytes-le_16 : (w : Width) → bytes w ≤ 16
bytes-le_16 w8 = omega arith
bytes-le_16 w16 = omega arith
bytes-le_16 w32 = omega arith
bytes-le_16 w64 = omega arith
bytes-le_16 w128 = omega arith

module _ (c : Context) (lo : ℕ) where
  -- A push.
  module _ (w : Width) (v : ℕ) (s : Emu) (ready : IsReady c lo s)
      (room : lo + bytes w ≤ s.regs rsp) where
    after : Emu
    after = stored w (below w s) v (with_rsp (below w s) s)

    at_below : after.regs rsp ≡ below w s
    unfolding after
    at_below = set_lane_full (below w s) (s.regs rsp) ready.fits ∙ omega arith

    moved : below w s + bytes w ≡ s.regs rsp
    moved = omega (arith, ready.fits, bytes-le_16 w)

    allowed : all_allowed s.mem.writable (below w s) (bytes w) ≡ true
    allowed =
        all_allowed-range s.mem.writable (below w s) (bytes w) (omega (arith, moved, ready.fits))
          λ b le lt. ready.writable b (omega (arith, moved)) (omega (arith, moved))

    kept : AgreeFrom (s.regs rsp) after.mem.byte s.mem.byte
    unfolding after
    kept x h lt =
        store_le-outside s.mem.byte (below w s) (bytes w) v x (omega arith) lt
          (omega (arith, moved, bytes-le_16 w))

    word_at :
        (f : ℕ → ℕ)
        → IsWord w
        → AgreeFrom (after.regs rsp) f after.mem.byte
        → load_le f (after.regs rsp) (bytes w) ≡ trunc w v
    word_at f word agree =
        load_le-agree f after.mem.byte (after.regs rsp) (after.regs rsp) (bytes w) agree
          (le_refl (after.regs rsp)) (omega (arith, at_below, moved, ready.fits))
        ∙ ap (λ (a : ℕ). load_le after.mem.byte a (bytes w)) at_below
        ∙ unfold after in load-store_word s.mem.byte w (below w s) v word (omega arith)

  pub Lays-push :
      (w : Width) (v : ℕ)
      → IsWord w
      → Lays c lo (bytes w) (λ x u y f. (y + bytes w ≡ x) × Holds w f y (v ∷ [])) (push w v)
  unfolding after
  Lays-push w v word = record {
    at = λ s ready room. (
      tt,
      after w v s ready room,
      push-ok w v s (allowed w v s ready room),
      record {
        writable = λ a le lt.
            ready.writable a le (omega (arith, at_below w v s ready room, moved w v s ready room));
        fits = omega (arith, at_below w v s ready room);
        same_ctx = ready.same_ctx;
      },
      omega (arith, at_below w v s ready room, moved w v s ready room),
      omega (arith, at_below w v s ready room, moved w v s ready room),
      kept w v s ready room,
      λ f agree. (
        omega (arith, at_below w v s ready room, moved w v s ready room),
        (word_at w v s ready room f word agree, tt),
      ),
    );
  }
