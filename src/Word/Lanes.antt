-- ===== src/Word/Lanes.antt =====
-- Laws of `lane` and `set_lane`, the members of the register unions.
use native.Mathlib.Nat.{pow-suc}
use flux.Base.{ℕ, zero, suc, ◌+◌, ◌*◌, ◌/◌, ◌%◌, ◌^◌, ◌<◌, ◌≡◌, ap, arith, ◌==◌, if◌then◌else◌}
use flux.Word.{Width, w8, w16, w32, w64, w128, modulus, lane, set_lane}

-- The arithmetic of one step, at every width.
module _ (w : Width) where
  quotient : (a b : ℕ) → (a * modulus w + b % modulus w) / modulus w ≡ a
  quotient a b = elim w as (λ w. (a * modulus w + b % modulus w) / modulus w ≡ a) [
    | w8 ↦ omega arith
    | w16 ↦ omega arith
    | w32 ↦ omega arith
    | w64 ↦ omega arith
    | w128 ↦ omega arith
  ]

  remainder : (a b : ℕ) → (a * modulus w + b % modulus w) % modulus w ≡ b % modulus w
  remainder a b = elim w as (λ w. (a * modulus w + b % modulus w) % modulus w ≡ b % modulus w) [
    | w8 ↦ omega arith
    | w16 ↦ omega arith
    | w32 ↦ omega arith
    | w64 ↦ omega arith
    | w128 ↦ omega arith
  ]

  pub lane-lt : (k v : ℕ) → lane w k v < modulus w
  unfolding lane
  lane-lt zero v = elim w as (λ w. v % modulus w < modulus w) [
    | w8 ↦ omega arith
    | w16 ↦ omega arith
    | w32 ↦ omega arith
    | w64 ↦ omega arith
    | w128 ↦ omega arith
  ]
  lane-lt (suc k) v = lane-lt k (v / modulus w)

  -- A member that is assigned is read back, and the other members of its size do not change.
  pub lane-set_lane :
      (i j x v : ℕ) → lane w i (set_lane w j x v) ≡ (if j == i then x % modulus w else lane w i v)
  unfolding lane set_lane
  lane-set_lane zero zero x v = remainder (v / modulus w) x
  lane-set_lane zero (suc j) x v = ground (arith, remainder (set_lane w j x (v / modulus w)) v)
  lane-set_lane (suc i) zero x v = ground (arith, ap (lane w i) (quotient (v / modulus w) x))
  lane-set_lane (suc i) (suc j) x v = ground (
    arith,
    ap (lane w i) (quotient (set_lane w j x (v / modulus w)) v),
    lane-set_lane i j x (v / modulus w),
  )

  step-lt : (n a b : ℕ) → a < modulus w ^ n → a * modulus w + b % modulus w < modulus w ^ suc n
  step-lt n a b h =
      elim w as (λ w. a < modulus w ^ n → a * modulus w + b % modulus w < modulus w ^ suc n) [
        | w8 ↦ λ h. omega (arith, pow-suc (2 ^ 8) n)
        | w16 ↦ λ h. omega (arith, pow-suc (2 ^ 16) n)
        | w32 ↦ λ h. omega (arith, pow-suc (2 ^ 32) n)
        | w64 ↦ λ h. omega (arith, pow-suc (2 ^ 64) n)
        | w128 ↦ λ h. omega (arith, pow-suc (2 ^ 128) n)
      ]
        h

  shrink : (n v : ℕ) → v < modulus w ^ suc n → v / modulus w < modulus w ^ n
  shrink n v h =
      elim w as (λ w. v < modulus w ^ suc n → v / modulus w < modulus w ^ n) [
        | w8 ↦ λ h. omega (arith, pow-suc (2 ^ 8) n)
        | w16 ↦ λ h. omega (arith, pow-suc (2 ^ 16) n)
        | w32 ↦ λ h. omega (arith, pow-suc (2 ^ 32) n)
        | w64 ↦ λ h. omega (arith, pow-suc (2 ^ 64) n)
        | w128 ↦ λ h. omega (arith, pow-suc (2 ^ 128) n)
      ]
        h

  -- An assignment to a member of a union of `n` members keeps the value in the union's range.
  pub set_lane-lt : (n k x v : ℕ) → k < n → v < modulus w ^ n → set_lane w k x v < modulus w ^ n
  unfolding set_lane
  set_lane-lt zero k x v h lt = absurd (omega arith)
  set_lane-lt (suc n) zero x v h lt = step-lt n (v / modulus w) x (shrink n v lt)
  set_lane-lt (suc n) (suc k) x v h lt =
      step-lt n (set_lane w k x (v / modulus w)) v
        (set_lane-lt n k x (v / modulus w) (omega arith) (shrink n v lt))
