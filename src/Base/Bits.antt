-- ===== src/Base/Bits.antt =====
-- The bits of a word, by recursion on the index, and the native operations bit by bit.
use Prim.Native.Nat.{ℕ, zero, suc, ◌+◌, ◌*◌, ◌/◌, ◌%◌, ◌^◌, ◌≤◌, ◌<◌, min, max}
use Prim.Native.Nat.{bit_and, bit_or, digits}
use Prim.Native.Nat.{bit_and-bitwise, bit_or-bitwise}
use mathlib.Core.Path.{◌≡◌, refl, sym, ap, ◌∙◌}
use native.Mathlib.Omega.{arith}
use native.Mathlib.Nat.{le_refl, pow-suc}
use flux.Base.Tests.{◌==◌, if◌then◌else◌}

-- Bit `i` of `w`, and `w` with bit `i` assigned the low bit of `b`.
unfoldable pub get_bit : ℕ → ℕ → ℕ
get_bit zero w = w % 2
get_bit (suc i) w = get_bit i (w / 2)

unfoldable pub set_bit : ℕ → ℕ → ℕ → ℕ
set_bit zero b w = w / 2 * 2 + b % 2
set_bit (suc i) b w = set_bit i b (w / 2) * 2 + w % 2

pub get_bit-lt : (i w : ℕ) → get_bit i w < 2
unfolding get_bit
get_bit-lt zero w = omega arith
get_bit-lt (suc i) w = get_bit-lt i (w / 2)

-- Assigning a bit is read back, and no other bit changes.
pub get_bit-set_bit :
    (i j b w : ℕ) → get_bit i (set_bit j b w) ≡ (if j == i then b % 2 else get_bit i w)
unfolding get_bit set_bit
get_bit-set_bit zero zero b w = omega arith
get_bit-set_bit zero (suc j) b w = ground arith
get_bit-set_bit (suc i) zero b w = ground (arith, ap (get_bit i) half)
  where
    half : (w / 2 * 2 + b % 2) / 2 ≡ w / 2
    half = omega arith
get_bit-set_bit (suc i) (suc j) b w =
    ground (arith, ap (get_bit i) half, get_bit-set_bit i j b (w / 2))
  where
    half : (set_bit j b (w / 2) * 2 + w % 2) / 2 ≡ set_bit j b (w / 2)
    half = omega arith

pub set_bit-lt : (n i b w : ℕ) → i < n → w < 2 ^ n → set_bit i b w < 2 ^ n
unfolding set_bit
set_bit-lt zero i b w h lt = absurd (omega arith)
set_bit-lt (suc n) zero b w h lt = omega (arith, pow-suc 2 n)
set_bit-lt (suc n) (suc i) b w h lt =
    omega (arith, pow-suc 2 n, set_bit-lt n i b (w / 2) (omega arith) (omega (arith, pow-suc 2 n)))

-- Two words of `n` bits with the same bits are equal.
pub get_bit-ext :
    (n a b : ℕ) → a < 2 ^ n → b < 2 ^ n → ((i : ℕ) → i < n → get_bit i a ≡ get_bit i b) → a ≡ b
unfolding get_bit
get_bit-ext zero a b ha hb same = omega arith
get_bit-ext (suc n) a b ha hb same = omega (
  arith,
  same zero (omega arith),
  get_bit-ext n (a / 2) (b / 2) (omega (arith, pow-suc 2 n)) (omega (arith, pow-suc 2 n))
      (λ i h. same (suc i) (omega arith)),
)

-- The native operations mean a recursion on digits with fuel, of which any amount that is enough
-- gives the same.
module _ (rest : ℕ → ℕ) (op : ℕ → ℕ → ℕ) where
  own_fuel : (n m x y : ℕ) → m ≤ n → x ≤ m → digits rest op m x y ≡ digits rest op x x y
  own_fuel n zero zero y le h = refl
  own_fuel n zero (suc x) y le h = absurd (omega arith)
  own_fuel n (suc m) zero y le h = refl
  own_fuel zero (suc m) (suc x) y le h = absurd (omega arith)
  own_fuel (suc n) (suc m) (suc x) y le h =
      ap (λ (d : ℕ). d * 2 + op (suc x % 2) (y % 2))
        (own_fuel n m (suc x / 2) (y / 2) (omega arith) (omega arith)
          ∙ sym (own_fuel n x (suc x / 2) (y / 2) (omega arith) (omega arith)))

  digits-suc :
      (x y : ℕ)
      → digits rest op (suc x) (suc x) y
        ≡ digits rest op (suc x / 2) (suc x / 2) (y / 2) * 2 + op (suc x % 2) (y % 2)
  digits-suc x y = omega (arith, own_fuel x x (suc x / 2) (y / 2) (le_refl x) (omega arith))

-- Both by their lowest digit.
pub bit_or_step : (a b : ℕ) → bit_or a b ≡ bit_or (a / 2) (b / 2) * 2 + max (a % 2) (b % 2)
bit_or_step zero b = omega (arith, bit_or-bitwise 0 b, bit_or-bitwise 0 (b / 2))
bit_or_step (suc x) b = omega (
  arith,
  digits-suc (λ d. d) max x b,
  bit_or-bitwise (suc x) b,
  bit_or-bitwise (suc x / 2) (b / 2),
)

pub bit_and_step : (a b : ℕ) → bit_and a b ≡ bit_and (a / 2) (b / 2) * 2 + min (a % 2) (b % 2)
bit_and_step zero y = simp bit_and-bitwise (omega arith)
bit_and_step (suc x) y = omega (
  arith,
  digits-suc (λ d. 0) min x y,
  bit_and-bitwise (suc x) y,
  bit_and-bitwise (suc x / 2) (y / 2),
)

pub get_bit-bit_and : (i a b : ℕ) → get_bit i (bit_and a b) ≡ min (get_bit i a) (get_bit i b)
unfolding get_bit
get_bit-bit_and zero a b = omega (arith, bit_and_step a b)
get_bit-bit_and (suc i) a b = ground (arith, ap (get_bit i) half, get_bit-bit_and i (a / 2) (b / 2))
  where
    half : bit_and a b / 2 ≡ bit_and (a / 2) (b / 2)
    half = omega (arith, bit_and_step a b)

pub get_bit-bit_or : (i a b : ℕ) → get_bit i (bit_or a b) ≡ max (get_bit i a) (get_bit i b)
unfolding get_bit
get_bit-bit_or zero a b = omega (arith, bit_or_step a b)
get_bit-bit_or (suc i) a b = ground (arith, ap (get_bit i) half, get_bit-bit_or i (a / 2) (b / 2))
  where
    half : bit_or a b / 2 ≡ bit_or (a / 2) (b / 2)
    half = omega (arith, bit_or_step a b)

pub bit_and-lt : (n a b : ℕ) → a < 2 ^ n → bit_and a b < 2 ^ n
bit_and-lt zero a b h = omega (arith, bit_and-zero b, ap (λ (t : ℕ). bit_and t b) none_set)
  where
    none_set : a ≡ 0
    none_set = omega arith

    bit_and-zero : (b : ℕ) → bit_and 0 b ≡ 0
    bit_and-zero b = bit_and-bitwise 0 b
bit_and-lt (suc n) a b h = omega (
  arith,
  pow-suc 2 n,
  bit_and_step a b,
  bit_and-lt n (a / 2) (b / 2) (omega (arith, pow-suc 2 n)),
)

bit_and-le_fuel : (m a b : ℕ) → a ≤ m → bit_and a b ≤ b
bit_and-le_fuel zero zero b h = omega (arith, bit_and-bitwise 0 b)
bit_and-le_fuel zero (suc a) b h = absurd (omega arith)
bit_and-le_fuel (suc m) zero b h = omega (arith, bit_and-bitwise 0 b)
bit_and-le_fuel (suc m) (suc a) b h =
    omega (arith, bit_and_step (suc a) b, bit_and-le_fuel m (suc a / 2) (b / 2) (omega arith))

pub bit_and-le : (a b : ℕ) → bit_and a b ≤ b
bit_and-le a b = bit_and-le_fuel a a b (le_refl a)

pub bit_or-lt : (n a b : ℕ) → a < 2 ^ n → b < 2 ^ n → bit_or a b < 2 ^ n
bit_or-lt zero zero b h k = omega (arith, bit_or-bitwise 0 b)
bit_or-lt zero (suc a) b h k = absurd (omega arith)
bit_or-lt (suc n) a b h k = omega (
  arith,
  pow-suc 2 n,
  bit_or_step a b,
  bit_or-lt n (a / 2) (b / 2) (omega (arith, pow-suc 2 n)) (omega (arith, pow-suc 2 n)),
)
