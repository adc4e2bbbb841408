-- ===== src/Alu/Compare.antt =====
-- The flags of `OP_S_CMP` (x64emu/execute_private.h), and the conditions that read them.
use flux.Base.{ℕ, ◌<◌, ◌≡◌, ◌||◌, ltb, leb, ◌==◌, arith}
use mathlib.Core.Bool.{xor}
use flux.Word.{Width, w8, w16, w32, w64, w128, modulus, sub, is_neg, IsWord}
use flux.Word.Signed.{signed, ltb_ℤ, leb_ℤ}
use flux.Machine.Flags.{carry, zero_flag, sign, overflow, flag, assign, flag-assign}
use flux.Alu.{flags_after, impl_s_cmp, set_result_flags, sub_overflows, op_s_cmp}
use flux.Cond.{x64execute_jmp_cond}

-- RFLAGS after the comparison.
cmp_flags : Width → ℕ → ℕ → ℕ → ℕ
cmp_flags w a b flags = assign carry (ltb a (sub w a b)) (impl_s_cmp w a b flags)

module _ (w : Width) (a b flags : ℕ) where
  cmp_carry : flag carry (cmp_flags w a b flags) ≡ ltb a (sub w a b)
  unfolding cmp_flags
  cmp_carry = simp flag-assign

  cmp_overflow : flag overflow (cmp_flags w a b flags) ≡ sub_overflows w b a (sub w a b)
  unfolding cmp_flags impl_s_cmp
  cmp_overflow = simp flag-assign

  cmp_sign : flag sign (cmp_flags w a b flags) ≡ is_neg w (sub w a b)
  unfolding cmp_flags impl_s_cmp set_result_flags
  cmp_sign = simp flag-assign

  cmp_zero : flag zero_flag (cmp_flags w a b flags) ≡ (sub w a b == 0)
  unfolding cmp_flags impl_s_cmp set_result_flags
  cmp_zero = simp flag-assign

-- A borrow is the unsigned order, and a zero difference is equality.
borrow-ltb :
    (w : Width) (a b : ℕ) → IsWord w → a < modulus w → b < modulus w → ltb a (sub w a b) ≡ ltb a b
borrow-ltb w8 a b h ha hb = ground arith
borrow-ltb w16 a b h ha hb = ground arith
borrow-ltb w32 a b h ha hb = ground arith
borrow-ltb w64 a b h ha hb = ground arith
borrow-ltb w128 a b h ha hb = absurd h

zero-eq :
    (w : Width) (a b : ℕ) → IsWord w → a < modulus w → b < modulus w → (sub w a b == 0) ≡ (a == b)
zero-eq w8 a b h ha hb = ground arith
zero-eq w16 a b h ha hb = ground arith
zero-eq w32 a b h ha hb = ground arith
zero-eq w64 a b h ha hb = ground arith
zero-eq w128 a b h ha hb = absurd h

-- The sign of the difference differs from its overflow exactly for a signed `a < b`.
signed_lt :
    (w : Width) (a b : ℕ)
    → IsWord w
    → a < modulus w
    → b < modulus w
    → xor (is_neg w (sub w a b)) (sub_overflows w b a (sub w a b)) ≡ ltb_ℤ (signed w a) (signed w b)
unfolding sub_overflows xor
signed_lt w8 a b h ha hb = ground arith
signed_lt w16 a b h ha hb = ground arith
signed_lt w32 a b h ha hb = ground arith
signed_lt w64 a b h ha hb = ground arith
signed_lt w128 a b h ha hb = absurd h

below_or_equal : (a b : ℕ) → (ltb a b || a == b) ≡ leb a b
below_or_equal a b = ground arith

less_or_equal :
    (w : Width) (a b : ℕ)
    → IsWord w
    → a < modulus w
    → b < modulus w
    → (a == b || ltb_ℤ (signed w a) (signed w b)) ≡ leb_ℤ (signed w a) (signed w b)
less_or_equal w8 a b h ha hb = ground arith
less_or_equal w16 a b h ha hb = ground arith
less_or_equal w32 a b h ha hb = ground arith
less_or_equal w64 a b h ha hb = ground arith
less_or_equal w128 a b h ha hb = absurd h

-- After `OP_S_CMP` of two words of 8 to 64 bits the conditions below, below or equal, equal, less,
-- and less or equal hold exactly for operands in that unsigned or signed order.
pub cmp_conditions :
    (w : Width) (a b flags : ℕ)
    → IsWord w
    → a < modulus w
    → b < modulus w
    → let f = flags_after (op_s_cmp w a b flags) flags in
      (x64execute_jmp_cond 0x2 f ≡ ltb a b)
      × (x64execute_jmp_cond 0x6 f ≡ leb a b)
      × (x64execute_jmp_cond 0x4 f ≡ (a == b))
      × (x64execute_jmp_cond 0xC f ≡ ltb_ℤ (signed w a) (signed w b))
      × (x64execute_jmp_cond 0xE f ≡ leb_ℤ (signed w a) (signed w b))
unfolding op_s_cmp cmp_flags x64execute_jmp_cond
cmp_conditions w a b flags h ha hb = (
  rw (cmp_carry w a b flags) (borrow-ltb w a b h ha hb),
  rw (cmp_carry w a b flags, cmp_zero w a b flags, borrow-ltb w a b h ha hb, zero-eq w a b h ha hb)
      (below_or_equal a b),
  rw (cmp_zero w a b flags) (zero-eq w a b h ha hb),
  rw (cmp_sign w a b flags, cmp_overflow w a b flags) (signed_lt w a b h ha hb),
  rw
      (
        cmp_zero w a b flags,
        cmp_sign w a b flags,
        cmp_overflow w a b flags,
        zero-eq w a b h ha hb,
        signed_lt w a b h ha hb,
      )
      (less_or_equal w a b h ha hb),
)
