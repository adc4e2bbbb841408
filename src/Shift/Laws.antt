-- ===== src/Shift/Laws.antt =====
-- SHL and SHR of x64emu/execute_private.h.
use flux.Base.{
  ℕ, ◌+◌, ◌-◌, ◌*◌, ◌/◌, ◌^◌, ◌<◌, ◌≡◌, refl, ap, ◌∙◌, arith, ltb, ◌==◌, if◌then◌else◌, some, Bool,
  true, false, get_bit, get_bit-set_bit, set_bit, div-get_bit, get_bit-shift_left,
  get_bit-shift_right, lt→ltb,
}
use flux.Word.{Width, bits, trunc}
use flux.Machine.Flags.{carry, overflow, flag, flag-assign}
use flux.Alu.{writes, flags_after, set_result_flags}
use flux.Alu.Carry.{written}
use flux.Shift.{
  promoted, shift_left, shift_right, shift_count, op_shl, op_shr, op_sar, shl_flag, shr_flag,
  left_overflow, right_overflow, shift_right_signed,
}
use flux.Shift.Bits.{bits_le, left_defined, get_bit-trunc}
use flux.Shift.Rotate.{shift_count-lt}

module _ (w : Width) (v n flags : ℕ) where
  defined : ltb (shift_count w n) (promoted w) ≡ true
  defined = lt→ltb _ _ (omega (arith, bits_le w, shift_count-lt w n))

  shl-ok :
      op_shl w v n flags
      ≡ writes
          (trunc w (v * 2 ^ shift_count w n))
          (shl_flag w (shift_count w n) v (trunc w (v * 2 ^ shift_count w n)) flags)
  unfolding op_shl shift_left
  shl-ok = rw (left_defined w v (shift_count w n) (shift_count-lt w n)) refl

  shr-ok :
      op_shr w v n flags
      ≡ writes
          (v / 2 ^ shift_count w n)
          (shr_flag w (shift_count w n) v (v / 2 ^ shift_count w n) flags)
  unfolding op_shr shift_right
  shr-ok = rw defined refl

  -- SHL and SHR put at each bit of the width the bit that is the masked count below or above it;
  -- SHL fills with zeros.
  pub shift_bits :
      (i : ℕ)
      → i < bits w
      → (l r : ℕ) × (written (op_shl w v n flags) ≡ some l)
        × (written (op_shr w v n flags) ≡ some r)
        × (get_bit i l ≡ (if ltb i (shift_count w n) then 0 else get_bit (i - shift_count w n) v))
        × (get_bit i r ≡ get_bit (i + shift_count w n) v)
  shift_bits i hi = (
    trunc w (v * 2 ^ shift_count w n),
    v / 2 ^ shift_count w n,
    ap written shl-ok,
    ap written shr-ok,
    get_bit-trunc w i _ hi ∙ get_bit-shift_left i (shift_count w n) v,
    get_bit-shift_right i (shift_count w n) v,
  )

  keeps_carry :
      (b : Bool) (f g : ℕ)
      → get_bit carry g ≡ get_bit carry f
      → flag carry (if b then g else f) ≡ flag carry f
  keeps_carry true f g h = ap (λ (x : ℕ). x == 1) h
  keeps_carry false f g h = refl

  -- CF after the assignment of the bit moved out, and after the flags that follow it.
  after_result :
      (x k : ℕ)
      → flag carry (set_result_flags w x (set_bit carry (v / 2 ^ k) flags)) ≡ (get_bit k v == 1)
  unfolding set_result_flags
  after_result x k = simp flag-assign (
      rw (get_bit-set_bit carry carry (v / 2 ^ k) flags) (ap (λ (b : ℕ). b == 1) (div-get_bit k v)))

  shl_flag-carry :
      (dest : ℕ)
      → 0 < shift_count w n
      → flag carry (shl_flag w (shift_count w n) v dest flags)
        ≡ (get_bit (bits w - shift_count w n) v == 1)
  unfolding shl_flag left_overflow
  shl_flag-carry dest positive = rw (lt→ltb 0 (shift_count w n) positive) (
      keeps_carry (shift_count w n == 1) _ _ (get_bit-set_bit carry overflow _ _)
      ∙ after_result dest (bits w - shift_count w n))

  shr_flag-carry :
      (dest : ℕ)
      → 0 < shift_count w n
      → flag carry (shr_flag w (shift_count w n) v dest flags)
        ≡ (get_bit (shift_count w n - 1) v == 1)
  unfolding shr_flag right_overflow
  shr_flag-carry dest positive = rw (lt→ltb 0 (shift_count w n) positive) (
      keeps_carry (shift_count w n == 1) _ _ (get_bit-set_bit carry overflow _ _)
      ∙ after_result dest (shift_count w n - 1))

  -- By a masked count above zero SHL and SHR leave in CF the last bit that they move out.
  pub shift_carry_out :
      0 < shift_count w n
      → (flag carry (flags_after (op_shl w v n flags) flags)
          ≡ (get_bit (bits w - shift_count w n) v == 1))
        × (flag carry (flags_after (op_shr w v n flags) flags)
            ≡ (get_bit (shift_count w n - 1) v == 1))
  shift_carry_out positive =
      (rw shl-ok (shl_flag-carry _ positive), rw shr-ok (shr_flag-carry _ positive))

  some_width : ltb 0 (promoted w) ≡ true
  some_width = lt→ltb 0 _ (omega (arith, bits_le w, shift_count-lt w n))

  -- By a masked count of zero SHL, SHR and SAR change no flag.
  shift_none :
      shift_count w n ≡ 0
      → (flags_after (op_shl w v n flags) flags ≡ flags)
        × (flags_after (op_shr w v n flags) flags ≡ flags)
        × (flags_after (op_sar w v n flags) flags ≡ flags)
  unfolding op_shl op_shr op_sar shift_left shift_right shift_right_signed shl_flag shr_flag
  shift_none none_moved = (
    rw (none_moved, left_defined w v 0 (omega (arith, shift_count-lt w n))) refl,
    rw (none_moved, some_width) refl,
    rw (none_moved, some_width) refl,
  )
