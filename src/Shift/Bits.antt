-- ===== src/Shift/Bits.antt =====
-- The bits of the rotates and shifts of x64emu/execute_private.h.
use native.Mathlib.Nat.{mod-eq_of_lt, add-mod_right, mod-lt, mul-le-mul, pow-le-pow_right}
use flux.Base.{
  ltb→lt, lt→ltb, ℕ, suc, true, ◌&&◌, ◌+◌, ◌-◌, ◌*◌, ◌/◌, ◌%◌, ◌^◌, ◌≤◌, ◌<◌, ◌≡◌, refl, sym, ap,
  ◌∙◌, max, arith, ltb, if◌then◌else◌, Bool-cases, inl, inr, false, get_bit, get_bit-bit_or,
  get_bit-shift_left, get_bit-shift_right, get_bit-mod, get_bit-high, bit_or,
}
use flux.Word.{Width, w8, w16, w32, w64, w128, modulus, bits, trunc}
use flux.Shift.{promoted, fits_int}

pub modulus-bits : (w : Width) → modulus w ≡ 2 ^ bits w
modulus-bits w8 = refl
modulus-bits w16 = refl
modulus-bits w32 = refl
modulus-bits w64 = refl
modulus-bits w128 = refl

pub get_bit-trunc : (w : Width) (i x : ℕ) → i < bits w → get_bit i (trunc w x) ≡ get_bit i x
get_bit-trunc w i x h = rw (modulus-bits w) (get_bit-mod i (bits w) x h)

power_le : (k m : ℕ) → k ≤ m → 2 ^ k ≤ 2 ^ m
power_le k m h = pow-le-pow_right (omega arith) h

mod_le : (v m : ℕ) → v % suc m ≤ m
mod_le v m = omega (arith, mod-lt v {m = suc m} (omega arith))

pub bits_le : (w : Width) → bits w ≤ promoted w
bits_le w8 = omega arith
bits_le w16 = omega arith
bits_le w32 = omega arith
bits_le w64 = omega arith
bits_le w128 = omega arith

-- A left shift by less than the width is defined.
pub left_defined :
    (w : Width) (v k : ℕ) → k < bits w → (ltb k (promoted w) && fits_int w v k) ≡ true
left_defined w8 v k h =
    rw
      (
        lt→ltb k 32 (omega arith),
        lt→ltb (trunc w8 v * 2 ^ k) (2 ^ 31)
            (omega (arith, mul-le-mul (mod_le v 255) (power_le k 7 (omega arith)))),
      )
      refl
left_defined w16 v k h =
    rw
      (
        lt→ltb k 32 (omega arith),
        lt→ltb (trunc w16 v * 2 ^ k) (2 ^ 31)
            (omega (arith, mul-le-mul (mod_le v 65535) (power_le k 15 (omega arith)))),
      )
      refl
left_defined w32 v k h = rw (lt→ltb k 32 h) refl
left_defined w64 v k h = rw (lt→ltb k 64 h) refl
left_defined w128 v k h = rw (lt→ltb k 128 h) refl

-- Where bit `i` of a rotate by `c` to the left comes from.
module _ (i b c : ℕ) (hc : c < b) (hi : i < b) where
  index-lt : i < c → (i + b - c) % b ≡ i + (b - c)
  index-lt h = mod-eq_of_lt (omega arith) ∙ omega arith

  index-le : c ≤ i → (i + b - c) % b ≡ i - c
  index-le h = ap (λ (n : ℕ). n % b) moved ∙ add-mod_right (i - c) b ∙ mod-eq_of_lt (omega arith)
    where
      moved : i + b - c ≡ i - c + b
      moved = omega arith

-- The bits of a rotate to the left by `c`, a number of places below the width.
pub rotated :
    (w : Width) (v c i : ℕ)
    → v < modulus w
    → c < bits w
    → i < bits w
    → get_bit i (bit_or (trunc w (v * 2 ^ c)) (v / 2 ^ (bits w - c)))
      ≡ get_bit ((i + bits w - c) % bits w) v
rotated w v c i hv hc hi = elim (Bool-cases (ltb i c)) [
  | inl below ↦ rw (left, lem, below, index-lt i (bits w) c hc hi (ltb→lt i c below)) (omega arith)
  | inr above ↦
      rw (left, lem, above, index-le i (bits w) c hc hi (later above), none_left (later above))
        (omega arith)
]
  where
    left :
        get_bit i (bit_or (trunc w (v * 2 ^ c)) (v / 2 ^ (bits w - c)))
        ≡ max (get_bit i (trunc w (v * 2 ^ c))) (get_bit (i + (bits w - c)) v)
    left = get_bit-bit_or i _ _ ∙ ap (max _) (get_bit-shift_right i (bits w - c) v)

    lem : get_bit i (trunc w (v * 2 ^ c)) ≡ (if ltb i c then 0 else get_bit (i - c) v)
    lem = get_bit-trunc w i (v * 2 ^ c) hi ∙ get_bit-shift_left i c v

    later : ltb i c ≡ false → c ≤ i
    later h = ground arith

    none_left : c ≤ i → get_bit (i + (bits w - c)) v ≡ 0
    none_left le = get_bit-high _ (bits w) v (rw (sym (modulus-bits w)) hv) (omega arith)
