-- ===== src/Alu/Carry.antt =====
-- The carry in ADC, SBB, INC and DEC of x64emu/execute_private.h.
use flux.Base.{ℕ, ◌+◌, ◌-◌, ◌*◌, ◌%◌, ◌<◌, ◌≡◌, ◌≢◌, refl, arith, Option, none, some}
use flux.Word.{Width, w8, w16, w32, w64, w128, modulus, add, sub, IsWord}
use flux.Machine.Flags.{carry, flag, flag-assign}
use flux.Alu.{
  Effect, writes, flags_only, flags_after, op_s_add, op_s_sub, op_s_adc, op_s_sbb, op_s_inc,
  op_s_dec,
}

-- What is assigned to `*dest`, if anything is.
abbrev pub written : Effect → Option ℕ
written (writes v flags) = some v
written (flags_only flags) = none
written Effect.undefined = none

-- INC and DEC leave CF as it was, and assign what ADD and SUB assign.
pub inc_dec_keep_carry :
    (w : Width) (a b flags : ℕ)
    → (flag carry (flags_after (op_s_inc w a b flags) flags) ≡ flag carry flags)
      × (flag carry (flags_after (op_s_dec w a b flags) flags) ≡ flag carry flags)
      × (written (op_s_inc w a b flags) ≡ written (op_s_add w a b flags))
      × (written (op_s_dec w a b flags) ≡ written (op_s_sub w a b flags))
unfolding op_s_inc op_s_dec op_s_add op_s_sub
inc_dec_keep_carry w a b flags = (simp flag-assign, simp flag-assign, refl, refl)

some_ne : {a b : ℕ} → a ≢ b → some a ≢ some b
some_ne ne e = ground arith

add_ne : (w : Width) (a b : ℕ) → IsWord w → add w a b ≢ (a + b + 1) % modulus w
add_ne w8 a b h = omega arith
add_ne w16 a b h = omega arith
add_ne w32 a b h = omega arith
add_ne w64 a b h = omega arith
add_ne w128 a b h = absurd h

sub_ne :
    (w : Width) (a b : ℕ)
    → IsWord w
    → b < modulus w
    → sub w a b ≢ (a + 2 * modulus w - b - 1) % modulus w
sub_ne w8 a b h hb = omega arith
sub_ne w16 a b h hb = omega arith
sub_ne w32 a b h hb = omega arith
sub_ne w64 a b h hb = omega arith
sub_ne w128 a b h hb = absurd h

-- ADC and SBB of words of 8 to 64 bits assign what ADD and SUB assign, whatever CF is, and so
-- never the sum or difference with a carry of one.
pub adc_sbb_lose_carry :
    (w : Width) (a b flags : ℕ)
    → IsWord w
    → b < modulus w
    → (written (op_s_adc w a b flags) ≡ written (op_s_add w a b flags))
      × (written (op_s_sbb w a b flags) ≡ written (op_s_sub w a b flags))
      × (written (op_s_adc w a b flags) ≢ some ((a + b + 1) % modulus w))
      × (written (op_s_sbb w a b flags) ≢ some ((a + 2 * modulus w - b - 1) % modulus w))
unfolding op_s_adc op_s_sbb op_s_add op_s_sub
adc_sbb_lose_carry w a b flags h hb =
    (refl, refl, some_ne (add_ne w a b h), some_ne (sub_ne w a b h hb))
