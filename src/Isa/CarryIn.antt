-- ===== src/Isa/CarryIn.antt =====
-- ADC and SBB of x64emu/execute_private.h without a carry in.
use flux.Base.{false, ℕ, ◌+◌, ◌-◌, ◌*◌, ◌%◌, ◌<◌, ◌≡◌, arith, false, ltb}
use flux.Word.{Width, w8, w16, w32, w64, w128, modulus, add, sub}
use flux.Machine.Flags.{carry, adjust, overflow, flag}
use flux.Alu.{
  writes, set_result_flags, byte_lt, or_assign, add_overflows, sub_overflows, op_s_adc, op_s_sbb,
}
use flux.Word.Signed.{ℤ, pos, negsuc, ◌+ℤ◌, ◌-ℤ◌}

pub add_zero : (x : ℤ) → x +ℤ pos 0 ≡ x
unfolding ◌+ℤ◌
add_zero (pos n) = ground arith
add_zero (negsuc n) = ground arith

pub sub_zero : (x : ℤ) → x -ℤ pos 0 ≡ x
unfolding ◌-ℤ◌
sub_zero (pos n) = ground arith
sub_zero (negsuc n) = ground arith

pub sub_twice :
    (w : Width) (a b : ℕ) → b < modulus w → sub w a b ≡ (a + 2 * modulus w - b - 0) % modulus w
sub_twice w8 a b h = omega arith
sub_twice w16 a b h = omega arith
sub_twice w32 a b h = omega arith
sub_twice w64 a b h = omega arith
sub_twice w128 a b h = omega arith

pub adc_clear :
    (w : Width) (a b old : ℕ)
    → flag carry old ≡ false
    → op_s_adc w a b old
      ≡ writes (add w a b) (
          or_assign overflow (add_overflows w b a (add w a b)) (
            or_assign adjust
              (byte_lt (add w a b) a)
              (or_assign carry (ltb (add w a b) a) (set_result_flags w (add w a b) old))))
unfolding op_s_adc
adc_clear w a b old h = rw h

pub sbb_clear :
    (w : Width) (a b old : ℕ)
    → flag carry old ≡ false
    → op_s_sbb w a b old
      ≡ writes (sub w a b) (
          or_assign overflow (sub_overflows w b a (sub w a b)) (
            or_assign adjust
              (byte_lt a (sub w a b))
              (or_assign carry (ltb a (sub w a b)) (set_result_flags w (sub w a b) old))))
unfolding op_s_sbb
sbb_clear w a b old h = rw h
