-- ===== src/Alu/Overflow.antt =====
-- OF and CF of `OP_S_ADD` and `OP_S_SUB` (x64emu/execute_private.h).
use flux.Base.{ℕ, ◌+◌, ◌<◌, ◌≡◌, Bool, not, ◌&&◌, ltb, leb, arith}
use flux.Word.{Width, w8, w16, w32, w64, w128, modulus, half, add, sub, IsWord}
use flux.Word.Signed.{ℤ, pos_part, neg_part, ◌+ℤ◌, ◌-ℤ◌, signed}
use flux.Machine.Flags.{carry, overflow, flag, flag-assign}
use flux.Alu.{flags_after, add_overflows, sub_overflows, op_s_add, op_s_sub}

-- `z` is a value of the signed type.
abbrev pub in_signed_range : Width → ℤ → Bool
in_signed_range w z = leb (neg_part z) (half w) && ltb (pos_part z) (half w)

pub add_overflows_lem :
    (w : Width) (a b : ℕ)
    → IsWord w
    → a < modulus w
    → b < modulus w
    → add_overflows w b a (add w a b) ≡ not (in_signed_range w (signed w a +ℤ signed w b))
unfolding add_overflows ◌+ℤ◌
add_overflows_lem w8 a b h ha hb = ground arith
add_overflows_lem w16 a b h ha hb = ground arith
add_overflows_lem w32 a b h ha hb = ground arith
add_overflows_lem w64 a b h ha hb = ground arith
add_overflows_lem w128 a b h ha hb = absurd h

pub sub_overflows_lem :
    (w : Width) (a b : ℕ)
    → IsWord w
    → a < modulus w
    → b < modulus w
    → sub_overflows w b a (sub w a b) ≡ not (in_signed_range w (signed w a -ℤ signed w b))
unfolding sub_overflows ◌-ℤ◌
sub_overflows_lem w8 a b h ha hb = ground arith
sub_overflows_lem w16 a b h ha hb = ground arith
sub_overflows_lem w32 a b h ha hb = ground arith
sub_overflows_lem w64 a b h ha hb = ground arith
sub_overflows_lem w128 a b h ha hb = absurd h

pub add-ltb :
    (w : Width) (a b : ℕ)
    → IsWord w
    → a < modulus w
    → b < modulus w
    → ltb (add w a b) a ≡ leb (modulus w) (a + b)
add-ltb w8 a b h ha hb = ground arith
add-ltb w16 a b h ha hb = ground arith
add-ltb w32 a b h ha hb = ground arith
add-ltb w64 a b h ha hb = ground arith
add-ltb w128 a b h ha hb = absurd h

pub sub-ltb :
    (w : Width) (a b : ℕ) → IsWord w → a < modulus w → b < modulus w → ltb a (sub w a b) ≡ ltb a b
sub-ltb w8 a b h ha hb = ground arith
sub-ltb w16 a b h ha hb = ground arith
sub-ltb w32 a b h ha hb = ground arith
sub-ltb w64 a b h ha hb = ground arith
sub-ltb w128 a b h ha hb = absurd h

module _ (w : Width) (a b flags : ℕ) (word : IsWord w) (ha : a < modulus w)
    (hb : b < modulus w) where
  -- ADD of two words of 8 to 64 bits sets CF exactly when the unsigned sum leaves the width, and
  -- OF exactly when the sum of the two integers is no value of the signed type.
  pub add_flags :
      (flag carry (flags_after (op_s_add w a b flags) flags) ≡ leb (modulus w) (a + b))
      × (flag overflow (flags_after (op_s_add w a b flags) flags)
          ≡ not (in_signed_range w (signed w a +ℤ signed w b)))
  unfolding op_s_add
  add_flags = (
    simp flag-assign (add-ltb w a b word ha hb),
    simp flag-assign (add_overflows_lem w a b word ha hb),
  )

  -- SUB of two words of 8 to 64 bits sets CF exactly for an unsigned borrow, and OF exactly when
  -- the difference of the two integers is no value of the signed type.
  pub sub_flags :
      (flag carry (flags_after (op_s_sub w a b flags) flags) ≡ ltb a b)
      × (flag overflow (flags_after (op_s_sub w a b flags) flags)
          ≡ not (in_signed_range w (signed w a -ℤ signed w b)))
  unfolding op_s_sub
  sub_flags = (
    simp flag-assign (sub-ltb w a b word ha hb),
    simp flag-assign (sub_overflows_lem w a b word ha hb),
  )
