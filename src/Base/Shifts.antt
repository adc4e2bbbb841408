-- ===== src/Base/Shifts.antt =====
-- The bits of a shifted or truncated word.
use Prim.Native.Nat.{ℕ, zero, suc, ◌+◌, ◌-◌, ◌*◌, ◌/◌, ◌%◌, ◌^◌, ◌≤◌, ◌<◌}
use mathlib.Core.Path.{◌≡◌, refl, sym, ap, ◌∙◌}
use native.Mathlib.Omega.{arith}
use native.Mathlib.Nat.{
  pow-suc, div-div-eq-div-mul, div-add-mod', div-eq_of_lt, mul_assoc, mul_comm,
}
use flux.Base.Tests.{ltb, if◌then◌else◌}
use flux.Base.Bits.{get_bit}

get_bit-zero : (i : ℕ) → get_bit i 0 ≡ 0
unfolding get_bit
get_bit-zero zero = refl
get_bit-zero (suc i) = get_bit-zero i

get_bit-half : (i x : ℕ) → get_bit i (x / 2) ≡ get_bit (i + 1) x
unfolding get_bit
get_bit-half i x = ap (λ (j : ℕ). get_bit j x) same
  where
    same : suc i ≡ i + 1
    same = omega arith

halve : (k x : ℕ) → x / 2 ^ suc k ≡ x / 2 / 2 ^ k
halve k x =
    rw (div-div-eq-div-mul x 2 (2 ^ k)) (ap (λ (m : ℕ). x / m) (pow-suc 2 k ∙ mul_comm (2 ^ k) 2))

double : (k x : ℕ) → x * 2 ^ suc k ≡ x * 2 ^ k * 2
double k x = ap (λ (m : ℕ). x * m) (pow-suc 2 k) ∙ sym (mul_assoc x (2 ^ k) 2)

-- A remainder by `2 ^ suc n` in terms of one by `2 ^ n`.
mod_step : (n x : ℕ) → x % 2 ^ suc n ≡ x / 2 % 2 ^ n * 2 + x % 2
mod_step n x = omega (
  arith,
  div-add-mod' x (2 ^ suc n),
  div-add-mod' (x / 2) (2 ^ n),
  halve n x,
  double n (x / 2 ^ suc n),
  ap (λ (q : ℕ). q * 2 ^ n) (halve n x),
)

pub get_bit-shift_right : (i k x : ℕ) → get_bit i (x / 2 ^ k) ≡ get_bit (i + k) x
get_bit-shift_right i zero x = ap (get_bit i) whole ∙ ap (λ (j : ℕ). get_bit j x) (omega arith)
  where
    whole : x / 2 ^ 0 ≡ x
    whole = omega arith
get_bit-shift_right i (suc k) x =
    ap (get_bit i) (halve k x)
    ∙ get_bit-shift_right i k (x / 2)
    ∙ get_bit-half (i + k) x
    ∙ ap (λ (j : ℕ). get_bit j x) (omega arith)

pub get_bit-shift_left :
    (i k x : ℕ) → get_bit i (x * 2 ^ k) ≡ (if ltb i k then 0 else get_bit (i - k) x)
unfolding get_bit
get_bit-shift_left i zero x = ground (arith, ap (get_bit i) whole)
  where
    whole : x * 2 ^ 0 ≡ x
    whole = omega arith
get_bit-shift_left zero (suc k) x = ground (arith, double k x)
get_bit-shift_left (suc i) (suc k) x =
    ground (arith, ap (get_bit i) doubled, get_bit-shift_left i k x)
  where
    doubled : x * 2 ^ suc k / 2 ≡ x * 2 ^ k
    doubled = omega (arith, double k x)

-- The low `n` bits.
pub get_bit-low : (i n q x : ℕ) → i < n → get_bit i (q * 2 ^ n + x % 2 ^ n) ≡ get_bit i x
unfolding get_bit
get_bit-low i zero q x h = absurd (omega arith)
get_bit-low zero (suc n) q x h = omega (arith, double n q, mod_step n x)
get_bit-low (suc i) (suc n) q x h = ap (get_bit i) half ∙ get_bit-low i n q (x / 2) (omega arith)
  where
    half : (q * 2 ^ suc n + x % 2 ^ suc n) / 2 ≡ q * 2 ^ n + x / 2 % 2 ^ n
    half = omega (arith, double n q, mod_step n x)

-- Above them there are none.
pub get_bit-high : (i n x : ℕ) → x < 2 ^ n → n ≤ i → get_bit i x ≡ 0
get_bit-high i n x h le =
    ap (λ (j : ℕ). get_bit j x) (omega arith)
    ∙ sym (get_bit-shift_right (i - n) n x)
    ∙ ap (get_bit (i - n)) (div-eq_of_lt h)
    ∙ get_bit-zero (i - n)

pub get_bit-mod : (i n x : ℕ) → i < n → get_bit i (x % 2 ^ n) ≡ get_bit i x
get_bit-mod i n x h = ap (get_bit i) alone ∙ get_bit-low i n 0 x h
  where
    alone : x % 2 ^ n ≡ 0 * 2 ^ n + x % 2 ^ n
    alone = omega arith

pub div-get_bit : (k x : ℕ) → x / 2 ^ k % 2 ≡ get_bit k x
unfolding get_bit
div-get_bit k x = get_bit-shift_right 0 k x ∙ ap (λ (j : ℕ). get_bit j x) same
  where
    same : 0 + k ≡ k
    same = omega arith
