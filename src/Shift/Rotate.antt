-- ===== src/Shift/Rotate.antt =====
-- ROL and ROR of x64emu/execute_private.h.
use native.Mathlib.Nat.{mod-eq_of_lt, add-mod_right, mod-eq-sub-mod, mod-lt, div-le_self}
use flux.Base.{
  ℕ, ◌+◌, ◌-◌, ◌*◌, ◌/◌, ◌%◌, ◌^◌, ◌<◌, ◌≡◌, refl, sym, ap, ◌∙◌, arith, ltb, ◌==◌, if◌then◌else◌,
  some, Bool-cases, inl, inr, Bool, true, false, get_bit, get_bit-bit_or, div-get_bit, get_bit-ext,
  bit_and-le, bit_or, bit_or-lt, lt→ltb, ltb→lt, get_bit-set_bit, set_bit,
}
use flux.Word.{Width, w8, w16, w32, w64, w128, modulus, bits, trunc}
use flux.Machine.Flags.{carry, overflow, flag}
use flux.Alu.{writes, flags_after}
use flux.Alu.Carry.{written}
use flux.Shift.{
  promoted, shift_left, shift_right, shift_count, op_rol, op_ror, rol_flag, left_overflow,
}
use flux.Shift.Bits.{rotated, bits_le, left_defined, modulus-bits}

pub shift_count-lt : (w : Width) (n : ℕ) → shift_count w n < bits w
unfolding shift_count
shift_count-lt w8 n = omega (arith, bit_and-le n 7)
shift_count-lt w16 n = omega (arith, bit_and-le n 15)
shift_count-lt w32 n = omega (arith, bit_and-le n 31)
shift_count-lt w64 n = omega (arith, bit_and-le n 63)
shift_count-lt w128 n = omega (arith, bit_and-le n 127)

module _ (w : Width) (v n flags : ℕ) (fits : v < modulus w) where
  unfoldable rol_value : ℕ
  rol_value = bit_or (trunc w (v * 2 ^ shift_count w n)) (v / 2 ^ (bits w - shift_count w n))

  rol-ok :
      bits w - shift_count w n < promoted w
      → op_rol w v n flags ≡ writes rol_value (rol_flag w (shift_count w n) v rol_value flags)
  unfolding op_rol shift_left shift_right rol_value
  rol-ok h =
      rw
        (
          left_defined w v (shift_count w n) (shift_count-lt w n),
          lt→ltb (bits w - shift_count w n) (promoted w) h,
        )
        refl

  -- CF is the last bit that went around.
  rol_flag-carry :
      (dest : ℕ)
      → 0 < shift_count w n
      → flag carry (rol_flag w (shift_count w n) v dest flags)
        ≡ (get_bit (bits w - shift_count w n) v == 1)
  unfolding rol_flag left_overflow
  rol_flag-carry dest h =
      rw
        (
          lt→ltb 0 (shift_count w n) h,
          carry_only (shift_count w n == 1)
              (set_bit carry (v / 2 ^ (bits w - shift_count w n)) flags),
          get_bit-set_bit carry carry (v / 2 ^ (bits w - shift_count w n)) flags,
        )
        (ap (λ (b : ℕ). b == 1) (div-get_bit (bits w - shift_count w n) v))
    where
      carry_only :
          (b : Bool) (f : ℕ)
          → get_bit carry (if b then left_overflow w dest f else f) ≡ get_bit carry f
      carry_only true f = get_bit-set_bit carry overflow _ f
      carry_only false f = refl

  -- ROL of a word by a masked count above zero puts at each bit the bit that is `count` places
  -- below it, around the word, and CF is then bit 0 of the result.
  pub rol_bits :
      (i : ℕ)
      → i < bits w
      → 0 < shift_count w n
      → (r : ℕ) × (written (op_rol w v n flags) ≡ some r)
        × (get_bit i r ≡ get_bit ((i + bits w - shift_count w n) % bits w) v)
        × (flag carry (flags_after (op_rol w v n flags) flags) ≡ (get_bit 0 r == 1))
  unfolding rol_value
  rol_bits i hi positive = (
    rol_value,
    rw (rol-ok defined) refl,
    rotated w v (shift_count w n) i fits (shift_count-lt w n) hi,
    rw (rol-ok defined, rol_flag-carry rol_value positive, lowest) refl,
  )
    where
      defined : bits w - shift_count w n < promoted w
      defined = omega (arith, bits_le w, shift_count-lt w n)

      index : (0 + bits w - shift_count w n) % bits w ≡ bits w - shift_count w n
      index = mod-eq_of_lt (omega (arith, shift_count-lt w n)) ∙ omega arith

      lowest : get_bit 0 rol_value ≡ get_bit (bits w - shift_count w n) v
      lowest =
          rotated w v (shift_count w n) 0 fits (shift_count-lt w n)
            (omega (arith, shift_count-lt w n))
          ∙ ap (λ (j : ℕ). get_bit j v) index

  unfoldable ror_value : ℕ
  ror_value = bit_or (v / 2 ^ shift_count w n) (trunc w (v * 2 ^ (bits w - shift_count w n)))

  ror-ok : 0 < shift_count w n → written (op_ror w v n flags) ≡ some ror_value
  unfolding op_ror shift_left shift_right ror_value
  ror-ok h =
      rw
        (
          lt→ltb (shift_count w n) (promoted w) (omega (arith, bits_le w, shift_count-lt w n)),
          left_defined w v (bits w - shift_count w n) (omega (arith, shift_count-lt w n)),
        )
        refl

  ror_bits :
      (i : ℕ)
      → i < bits w
      → 0 < shift_count w n
      → get_bit i ror_value ≡ get_bit ((i + shift_count w n) % bits w) v
  unfolding ror_value
  ror_bits i hi positive =
      swapped
      ∙ ap (λ (k : ℕ). get_bit i (bit_or left (v / 2 ^ k))) (sym around)
      ∙ rotated w v (bits w - shift_count w n) i fits (omega (arith, shift_count-lt w n)) hi
      ∙ ap (λ (j : ℕ). get_bit (j % bits w) v) index
    where
      left : ℕ
      left = trunc w (v * 2 ^ (bits w - shift_count w n))

      swapped :
          get_bit i (bit_or (v / 2 ^ shift_count w n) left)
          ≡ get_bit i (bit_or left (v / 2 ^ shift_count w n))
      swapped = omega (
        arith,
        get_bit-bit_or i (v / 2 ^ shift_count w n) left,
        get_bit-bit_or i left (v / 2 ^ shift_count w n),
      )

      around : bits w - (bits w - shift_count w n) ≡ shift_count w n
      around = omega (arith, shift_count-lt w n)

      index : i + bits w - (bits w - shift_count w n) ≡ i + shift_count w n
      index = omega (arith, shift_count-lt w n)

module _ (b c i : ℕ) (hc : c < b) (hi : i < b) where
  there_and_back : ((i + c) % b + b - c) % b ≡ i
  there_and_back = elim (Bool-cases (ltb (i + c) b)) [
    | inl inside ↦
        ap (λ (j : ℕ). (j + b - c) % b) (mod-eq_of_lt (ltb→lt (i + c) b inside))
        ∙ ap (λ (j : ℕ). j % b) (omega arith)
        ∙ add-mod_right i b
        ∙ mod-eq_of_lt hi
    | inr outside ↦
        ap (λ (j : ℕ). (j + b - c) % b) (wrapped outside)
        ∙ ap (λ (j : ℕ). j % b) (same outside)
        ∙ mod-eq_of_lt hi
  ]
    where
      wrapped : ltb (i + c) b ≡ false → (i + c) % b ≡ i + c - b
      wrapped h = mod-eq-sub-mod (ground arith) ∙ mod-eq_of_lt (omega arith)

      same : ltb (i + c) b ≡ false → i + c - b + b - c ≡ i
      same h = ground arith

module _ (w : Width) where
  trunc-lt : (x : ℕ) → trunc w x < modulus w
  trunc-lt x = elim w as (λ w. trunc w x < modulus w) [
    | w8 ↦ omega arith
    | w16 ↦ omega arith
    | w32 ↦ omega arith
    | w64 ↦ omega arith
    | w128 ↦ omega arith
  ]

  part-lt : (x k : ℕ) → x < modulus w → x / 2 ^ k < modulus w
  part-lt x k h = omega (arith, div-le_self x (2 ^ k))

  or-lt : (x y : ℕ) → x < modulus w → y < modulus w → bit_or x y < modulus w
  or-lt x y h k =
      rw (modulus-bits w)
        (bit_or-lt (bits w) x y (rw (sym (modulus-bits w)) h) (rw (sym (modulus-bits w)) k))

-- ROL of a word by a masked count above zero, and ROR of the result by the same count, give the
-- word back, whatever the flags are.
pub ror-rol :
    (w : Width) (v n flags flags' : ℕ)
    → v < modulus w
    → 0 < shift_count w n
    → (r : ℕ) × (written (op_rol w v n flags) ≡ some r) × (written (op_ror w r n flags') ≡ some v)
unfolding rol_value ror_value
ror-rol w v n flags flags' fits positive = (
  r,
  ap written (rol-ok w v n flags fits defined),
  ror-ok w r n flags' r-lt positive ∙ ap some restored,
)
  where
    r : ℕ
    r = rol_value w v n flags fits

    defined : bits w - shift_count w n < promoted w
    defined = omega (arith, bits_le w, shift_count-lt w n)

    r-lt : r < modulus w
    r-lt = or-lt w _ _ (trunc-lt w _) (part-lt w v _ fits)

    restored : ror_value w r n flags' r-lt ≡ v
    restored =
        get_bit-ext (bits w) _ v
          (rw (sym (modulus-bits w)) (or-lt w _ _ (part-lt w r _ r-lt) (trunc-lt w _)))
          (rw (sym (modulus-bits w)) fits)
          λ i hi.
            ror_bits w r n flags' r-lt i hi positive
            ∙ rotated w v (shift_count w n) ((i + shift_count w n) % bits w) fits
                (shift_count-lt w n)
                (mod-lt (i + shift_count w n) (omega (arith, shift_count-lt w n)))
            ∙ ap (λ (j : ℕ). get_bit j v)
                (there_and_back (bits w) (shift_count w n) i (shift_count-lt w n) hi)
