-- ===== src/Execute/Interleave.antt =====
-- `OP_INTERLEAVE_HIGH` and `OP_INTERLEAVE_LOW` of x64emu/execute_0f.c on two XMM registers.
use native.Mathlib.Nat.{mod-eq_of_lt}
use mathlib.Core.Path.{ap₂}
use flux.Base.{
  ℕ, zero, suc, ◌+◌, ◌*◌, ◌%◌, ◌≤◌, ◌<◌, ◌≡◌, refl, ap, ◌∙◌, true, false, ◌==◌, arith, Bool-cases,
  ==_iff, inl, inr,
}
use flux.Word.{Width, w32, modulus, lane, set_lane}
use flux.Word.Lanes.{lane-lt, lane-set_lane}
use flux.Machine.{Emu, ok, ◌>>=◌, pure, update}
use flux.Place.{read, write, set_xmm}
use flux.Modrm.{xmm}
use flux.Execute.Sse.{copy, interleave, interleave_high, interleave_low}

-- One round on the value of `dest`.
abbrev round : Width → ℕ → ℕ → ℕ → ℕ → ℕ
round w offset y i x =
    set_lane w (i * 2 + 1) (lane w (i + offset) y) (set_lane w (i * 2) (lane w (i + offset) x) x)

-- All the rounds.
abbrev rounds : Width → ℕ → ℕ → ℕ → ℕ → ℕ → ℕ
rounds w offset y zero i x = x
rounds w offset y (suc left) i x = rounds w offset y left (i + 1) (round w offset y i x)

module _ (w : Width) where
  lane-same : (j v : ℕ) → lane w j v % modulus w ≡ lane w j v
  lane-same j v = mod-eq_of_lt (lane-lt w j v)

  module _ (offset y : ℕ) where
    -- The members that a round assigns, and the rest.
    round-even : (i x : ℕ) → lane w (i * 2) (round w offset y i x) ≡ lane w (i + offset) x
    round-even i x = ground (
      arith,
      lane-set_lane w (i * 2) (i * 2 + 1) (lane w (i + offset) y)
          (set_lane w (i * 2) (lane w (i + offset) x) x),
      lane-set_lane w (i * 2) (i * 2) (lane w (i + offset) x) x,
      lane-same (i + offset) x,
    )

    round-odd : (i x : ℕ) → lane w (i * 2 + 1) (round w offset y i x) ≡ lane w (i + offset) y
    round-odd i x = ground (
      arith,
      lane-set_lane w (i * 2 + 1) (i * 2 + 1) (lane w (i + offset) y)
          (set_lane w (i * 2) (lane w (i + offset) x) x),
      lane-same (i + offset) y,
    )

    round-other :
        (i j x : ℕ)
        → (j == i * 2) ≡ false
        → (j == i * 2 + 1) ≡ false
        → lane w j (round w offset y i x) ≡ lane w j x
    round-other i j x h k = ground (
      arith,
      lane-set_lane w j (i * 2 + 1) (lane w (i + offset) y)
          (set_lane w (i * 2) (lane w (i + offset) x) x),
      lane-set_lane w j (i * 2) (lane w (i + offset) x) x,
    )

    rounds-below : (left i j x : ℕ) → j < i * 2 → lane w j (rounds w offset y left i x) ≡ lane w j x
    rounds-below zero i j x h = refl
    rounds-below (suc left) i j x h =
        rounds-below left (i + 1) j (round w offset y i x) (omega arith)
        ∙ round-other i j x (ground arith) (ground arith)

    -- Round `k` reads what no round before it has assigned, if the offset is the number of rounds.
    rounds-at :
        (left i k x : ℕ)
        → i ≤ k
        → k < i + left
        → i + left ≤ offset
        → (lane w (k * 2) (rounds w offset y left i x) ≡ lane w (k + offset) x)
          × (lane w (k * 2 + 1) (rounds w offset y left i x) ≡ lane w (k + offset) y)
    rounds-at zero i k x le lt enough = absurd (omega arith)
    rounds-at (suc left) i k x le lt enough = elim (Bool-cases (k == i)) [
      | inl same ↦ this ((==_iff k i).0 same)
      | inr later ↦
          let (even, odd) =
            rounds-at left (i + 1) k (round w offset y i x) (ground arith) (omega arith)
              (omega arith) in
          (even ∙ round-other i (k + offset) x (past later) (past' later), odd)
    ]
      where
        this :
            k ≡ i
            → (lane w (k * 2) (rounds w offset y (suc left) i x) ≡ lane w (k + offset) x)
              × (lane w (k * 2 + 1) (rounds w offset y (suc left) i x) ≡ lane w (k + offset) y)
        this e = rw e (
          rounds-below left (i + 1) (i * 2) (round w offset y i x) (omega arith) ∙ round-even i x,
          rounds-below left (i + 1) (i * 2 + 1) (round w offset y i x) (omega arith)
              ∙ round-odd i x,
        )

        past : (k == i) ≡ false → (k + offset == i * 2) ≡ false
        past h = ground arith

        past' : (k == i) ≡ false → (k + offset == i * 2 + 1) ≡ false
        past' h = ground arith

  module _ (offset d e : ℕ) (apart : (d == e) ≡ false) where
    interleave-rounds :
        (left i : ℕ) (s : Emu)
        → (t : Emu) × (interleave offset left i w (xmm d) (xmm e) s ≡ ok tt t)
          × (t.xmm d ≡ rounds w offset (s.xmm e) left i (s.xmm d))
          × (t.xmm e ≡ s.xmm e)
    unfolding interleave copy read write set_xmm ◌>>=◌ pure
    interleave-rounds zero i s = (s, refl, refl, refl)
    interleave-rounds (suc left) i s =
        let (t, run, dest, src) = interleave-rounds left (i + 1) after in
        (
          t,
          run,
          dest ∙ ap₂ (λ (y x : ℕ). rounds w offset y left (i + 1) x) src_kept dest_round,
          src ∙ src_kept,
        )
      where
        one : Emu
        one = record s {
          xmm = update s.xmm d (set_lane w (i * 2) (lane w (i + offset) (s.xmm d)) (s.xmm d));
        }

        after : Emu
        after = record one {
          xmm =
              update one.xmm d
                (set_lane w (i * 2 + 1) (lane w (i + offset) (one.xmm e)) (one.xmm d));
        }

        same_reg : (d == d) ≡ true
        same_reg = ground arith

        src_kept : after.xmm e ≡ s.xmm e
        src_kept = rw apart refl

        dest_round : after.xmm d ≡ round w offset (s.xmm e) i (s.xmm d)
        dest_round = rw (same_reg, apart) refl

-- OP_INTERLEAVE_HIGH on two different XMM registers returns with the `times` elements of `dest`
-- and `src` from element `times` on in turn in `dest`, and `src` as it was.
pub interleave_high-lane :
    (w : Width) (times d e k : ℕ) (s : Emu)
    → (d == e) ≡ false
    → k < times
    → (t : Emu) × (interleave_high w times (xmm d) (xmm e) s ≡ ok tt t)
      × (lane w (k * 2) (t.xmm d) ≡ lane w (k + times) (s.xmm d))
      × (lane w (k * 2 + 1) (t.xmm d) ≡ lane w (k + times) (s.xmm e))
      × (t.xmm e ≡ s.xmm e)
interleave_high-lane w times d e k s apart lt =
    let (t, run, dest, src) = interleave-rounds w times d e apart times 0 s in
    let (even, odd) =
      rounds-at w times (s.xmm e) times 0 k (s.xmm d) (omega arith) (omega arith) (omega arith) in
    (t, run, ap (lane w (k * 2)) dest ∙ even, ap (lane w (k * 2 + 1)) dest ∙ odd, src)

-- OP_INTERLEAVE_LOW of two doublewords, UNPCKLPS, on two different XMM registers returns with
-- elements 0 to 3 of `dest` at element 0 of `dest`, element 0 of `src` twice, and element 1 of
-- `src`: element 1 of `dest` is lost.
pub interleave_low-lane :
    (d e : ℕ) (s : Emu)
    → (d == e) ≡ false
    → (t : Emu) × (interleave_low w32 2 (xmm d) (xmm e) s ≡ ok tt t)
      × (lane w32 0 (t.xmm d) ≡ lane w32 0 (s.xmm d))
      × (lane w32 1 (t.xmm d) ≡ lane w32 0 (s.xmm e))
      × (lane w32 2 (t.xmm d) ≡ lane w32 0 (s.xmm e))
      × (lane w32 3 (t.xmm d) ≡ lane w32 1 (s.xmm e))
interleave_low-lane d e s apart =
    let (t, run, dest, src) = interleave-rounds w32 0 d e apart 2 0 s in
    (
      t,
      run,
      ap (lane w32 0) dest
          ∙ rounds-below w32 0 (s.xmm e) 1 1 0 first (omega arith)
          ∙ round-even w32 0 (s.xmm e) 0 (s.xmm d),
      ap (lane w32 1) dest ∙ second,
      ap (lane w32 2) dest
          ∙ round-even w32 0 (s.xmm e) 1 first
          ∙ round-odd w32 0 (s.xmm e) 0 (s.xmm d),
      ap (lane w32 3) dest ∙ round-odd w32 0 (s.xmm e) 1 first,
    )
  where
    first : ℕ
    first = round w32 0 (s.xmm e) 0 (s.xmm d)

    second : lane w32 1 (round w32 0 (s.xmm e) 1 first) ≡ lane w32 0 (s.xmm e)
    second =
        rounds-below w32 0 (s.xmm e) 1 1 1 first (omega arith)
        ∙ round-odd w32 0 (s.xmm e) 0 (s.xmm d)
