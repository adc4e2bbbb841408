-- ===== src/Alu.antt =====
-- The arithmetic of x64emu/execute_private.h: the operation macros `OP_S_*` as functions of the
-- width, the value at `dest`, the operand and RFLAGS.
pub mod Compare
pub mod Overflow
pub mod Carry
pub mod Parity
use flux.Base.{
  ℕ, ◌-◌, ◌/◌, ◌%◌, ◌^◌, Bool, false, ◌&&◌, ◌||◌, not, ltb, ◌==◌, if◌then◌else◌, bit_and, bit_or,
  bit_xor,
}
use flux.Word.{Width, is_neg, add, sub, complement}
use flux.Machine.Flags.{carry, parity, adjust, zero_flag, sign, overflow, flag, assign}

-- What an operation does: assign to `*dest` and RFLAGS, assign to RFLAGS alone, or what C leaves
-- undefined.
pub data Effect : Type 0 where
  writes : ℕ → ℕ → Effect
  flags_only : ℕ → Effect
  undefined : Effect

-- RFLAGS afterwards.
abbrev pub flags_after : Effect → ℕ → ℕ
flags_after (writes v flags) old = flags
flags_after (flags_only flags) old = flags
flags_after undefined old = old

abbrev pub Operation : Type 0
Operation = Width → ℕ → ℕ → ℕ → Effect

unfoldable pub get_byte_parity : ℕ → ℕ
get_byte_parity x =
    let x = bit_xor x (x / 2 ^ 4) in
    let x = bit_xor x (x / 2 ^ 2) in let x = bit_xor x (x / 2 ^ 1) in 1 - x % 2

-- `SET_RESULT_FLAGS`; the parity is that of the low byte.
unfoldable pub set_result_flags : Width → ℕ → ℕ → ℕ
unfolding get_byte_parity
set_result_flags w x flags =
    assign parity (get_byte_parity (x % 2 ^ 8) == 1)
      (assign zero_flag (x == 0) (assign sign (is_neg w x) flags))

-- The signed overflow of `res = sav + operand`.
unfoldable pub add_overflows : Width → ℕ → ℕ → ℕ → Bool
add_overflows w operand sav res =
    is_neg w operand && is_neg w sav && not (is_neg w res)
    || not (is_neg w operand) && not (is_neg w sav) && is_neg w res

-- The signed overflow of `res = sav - operand`.
unfoldable pub sub_overflows : Width → ℕ → ℕ → ℕ → Bool
sub_overflows w operand sav res =
    not (is_neg w operand) && is_neg w sav && not (is_neg w res)
    || is_neg w operand && not (is_neg w sav) && is_neg w res

-- `(uint8_t)a < (uint8_t)b`
abbrev pub byte_lt : ℕ → ℕ → Bool
byte_lt a b = ltb (a % 2 ^ 8) (b % 2 ^ 8)

-- `IMPL_S_ADD`
unfoldable pub impl_s_add : Width → ℕ → ℕ → ℕ → ℕ
unfolding set_result_flags add_overflows
impl_s_add w sav operand flags =
    let res = add w sav operand in
    assign overflow (add_overflows w operand sav res)
      (assign adjust (byte_lt res sav) (set_result_flags w res flags))

unfoldable pub op_s_add : Operation
unfolding impl_s_add
op_s_add w sav operand flags =
    let res = add w sav operand in
    writes res (assign carry (ltb res sav) (impl_s_add w sav operand flags))

unfoldable pub op_s_inc : Operation
unfolding impl_s_add
op_s_inc w sav operand flags = writes (add w sav operand) (impl_s_add w sav operand flags)

-- `f_CF |= b`
abbrev pub or_assign : ℕ → Bool → ℕ → ℕ
or_assign i b flags = assign i (flag i flags || b) flags

-- The block under `if (f_CF)` of `OP_S_ADC`.
unfoldable pub adc_carry_in : Width → ℕ → ℕ → ℕ
adc_carry_in w sav flags =
    if flag carry flags
    then (let res = add w sav 1 in
        assign overflow (not (is_neg w sav) && is_neg w res)
          (assign adjust (byte_lt res sav) (assign carry (ltb res sav) flags)))
    else flags

-- `_sav` is read from `*dest` again after that block, which has not written there.
unfoldable pub op_s_adc : Operation
unfolding adc_carry_in set_result_flags add_overflows
op_s_adc w sav operand flags =
    let res = add w sav operand in
    writes res (
      or_assign overflow (add_overflows w operand sav res) (
        or_assign adjust (byte_lt res sav)
          (or_assign carry (ltb res sav) (set_result_flags w res (adc_carry_in w sav flags)))))

-- `IMPL_S_CMP`
unfoldable pub impl_s_cmp : Width → ℕ → ℕ → ℕ → ℕ
unfolding set_result_flags sub_overflows
impl_s_cmp w sav operand flags =
    let res = sub w sav operand in
    assign overflow (sub_overflows w operand sav res)
      (assign adjust (byte_lt sav res) (set_result_flags w res flags))

unfoldable pub op_s_cmp : Operation
unfolding impl_s_cmp
op_s_cmp w sav operand flags =
    flags_only (assign carry (ltb sav (sub w sav operand)) (impl_s_cmp w sav operand flags))

unfoldable pub op_s_sub : Operation
unfolding impl_s_cmp
op_s_sub w sav operand flags =
    let res = sub w sav operand in
    writes res (assign carry (ltb sav res) (impl_s_cmp w sav operand flags))

unfoldable pub op_s_dec : Operation
unfolding impl_s_cmp
op_s_dec w sav operand flags = writes (sub w sav operand) (impl_s_cmp w sav operand flags)

-- The block under `if (f_CF)` of `OP_S_SBB`.
unfoldable pub sbb_carry_in : Width → ℕ → ℕ → ℕ
sbb_carry_in w sav flags =
    if flag carry flags
    then (let res = sub w sav 1 in
        assign overflow (is_neg w sav && not (is_neg w res))
          (assign adjust (byte_lt sav res) (assign carry (ltb sav res) flags)))
    else flags

unfoldable pub op_s_sbb : Operation
unfolding sbb_carry_in set_result_flags sub_overflows
op_s_sbb w sav operand flags =
    let res = sub w sav operand in
    writes res (
      or_assign overflow (sub_overflows w operand sav res) (
        or_assign adjust (byte_lt sav res)
          (or_assign carry (ltb sav res) (set_result_flags w res (sbb_carry_in w sav flags)))))

-- The flags of `IMPL_OP_S_BITWISE` and `IMPL_OP_S_TEST`.
unfoldable pub bitwise_flags : Width → ℕ → ℕ → ℕ
unfolding set_result_flags
bitwise_flags w res flags =
    assign carry false (assign overflow false (set_result_flags w res flags))

unfoldable pub op_s_xor : Operation
unfolding bitwise_flags
op_s_xor w sav operand flags =
    let res = bit_xor sav operand in writes res (bitwise_flags w res flags)

unfoldable pub op_s_and : Operation
unfolding bitwise_flags
op_s_and w sav operand flags =
    let res = bit_and sav operand in writes res (bitwise_flags w res flags)

unfoldable pub op_s_or : Operation
unfolding bitwise_flags
op_s_or w sav operand flags = let res = bit_or sav operand in writes res (bitwise_flags w res flags)

unfoldable pub op_s_test_and : Operation
unfolding bitwise_flags
op_s_test_and w sav operand flags = flags_only (bitwise_flags w (bit_and sav operand) flags)

unfoldable pub op_s_not : Operation
op_s_not w sav operand flags = writes (complement w sav) flags

unfoldable pub op_s_neg : Operation
op_s_neg w sav operand flags = writes (sub w 0 sav) flags
