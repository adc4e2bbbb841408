-- ===== src/Shift.antt =====
-- The rotates and shifts of x64emu/execute_private.h. A shift by the width of its left operand's
-- promoted type, or more, is undefined in C, and so is a left shift of an `int` past its range.
pub mod Bits
pub mod Rotate
pub mod Laws
use flux.Base.{
  ℕ, ◌+◌, ◌-◌, ◌*◌, ◌/◌, ◌%◌, ◌^◌, Bool, true, ◌&&◌, ltb, ◌==◌, if◌then◌else◌, Option, none, some,
  get_bit, set_bit, bit_and, bit_or, bit_xor,
}
use flux.Word.{Width, w8, w16, w32, w64, w128, modulus, bits, trunc, is_neg, sign_extend}
use flux.Machine.Flags.{carry, overflow}
use flux.Alu.{Effect, writes, undefined, Operation, set_result_flags}

infixl 5 ◌>>=◌
abbrev pub ◌>>=◌ : Option ℕ → (ℕ → Effect) → Effect
none >>= k = undefined
some v >>= k = k v

-- 8 and 16 bits are promoted to `int`.
abbrev pub promoted : Width → ℕ
promoted w8 = 32
promoted w16 = 32
promoted w32 = 32
promoted w64 = 64
promoted w128 = 128

-- `v << k` does not leave the range of `int`, where the operand is promoted to it.
abbrev pub fits_int : Width → ℕ → ℕ → Bool
fits_int w8 v k = ltb (trunc w8 v * 2 ^ k) (2 ^ 31)
fits_int w16 v k = ltb (trunc w16 v * 2 ^ k) (2 ^ 31)
fits_int w v k = true

-- `v << k` and `v >> k`, as the assignment to `*(u_type *)dest` keeps them.
unfoldable pub shift_left : Width → ℕ → ℕ → Option ℕ
shift_left w v k = if ltb k (promoted w) && fits_int w v k then some (trunc w (v * 2 ^ k)) else none

unfoldable pub shift_right : Width → ℕ → ℕ → Option ℕ
shift_right w v k = if ltb k (promoted w) then some (v / 2 ^ k) else none

-- `v >> k` at the signed type.
unfoldable pub shift_right_signed : Width → ℕ → ℕ → Option ℕ
shift_right_signed w v k =
    if ltb k (promoted w)
    then some (if is_neg w v then v / 2 ^ k + (modulus w - modulus w / 2 ^ k) else v / 2 ^ k)
    else none

-- `f_CF << k`. A bit field of one bit is promoted to `int`.
unfoldable pub shift_carry : Width → ℕ → ℕ → Option ℕ
shift_carry w flags k =
    if ltb k 32 && ltb (get_bit carry flags * 2 ^ k) (2 ^ 31)
    then some (trunc w (get_bit carry flags * 2 ^ k))
    else none

-- `IMPL_SHIFT_PROLOGUE`: `(operand) & (type_len - 1)`
unfoldable pub shift_count : Width → ℕ → ℕ
shift_count w operand = bit_and operand (bits w - 1)

-- `f_OF` of a left shift or rotate by one: `f_CF ^ (dest >> (type_len - 1))`.
unfoldable pub left_overflow : Width → ℕ → ℕ → ℕ
left_overflow w dest flags =
    set_bit overflow (bit_xor (get_bit carry flags) (dest / 2 ^ (bits w - 1))) flags

-- `f_OF` of a right shift or rotate by one: the two top bits of `dest`.
unfoldable pub right_overflow : Width → ℕ → ℕ → ℕ
right_overflow w dest flags =
    set_bit overflow (bit_xor (dest / 2 ^ (bits w - 2) % 2) (dest / 2 ^ (bits w - 1))) flags

-- `IMPL_ROL_FLAG`
unfoldable pub rol_flag : Width → ℕ → ℕ → ℕ → ℕ → ℕ
unfolding left_overflow
rol_flag w shift tdest dest flags =
    if ltb 0 shift
    then (let flags' = set_bit carry (tdest / 2 ^ (bits w - shift)) flags in
        if shift == 1 then left_overflow w dest flags' else flags')
    else flags

-- `IMPL_ROR_FLAG`
unfoldable pub ror_flag : Width → ℕ → ℕ → ℕ → ℕ → ℕ
unfolding right_overflow
ror_flag w shift tdest dest flags =
    if ltb 0 shift
    then (let flags' = set_bit carry (tdest / 2 ^ (shift - 1)) flags in
        if shift == 1 then right_overflow w dest flags' else flags')
    else flags

-- `IMPL_SHL_FLAG`
unfoldable pub shl_flag : Width → ℕ → ℕ → ℕ → ℕ → ℕ
unfolding left_overflow set_result_flags
shl_flag w shift tdest dest flags =
    if ltb 0 shift
    then (let flags' =
          set_result_flags w dest (set_bit carry (tdest / 2 ^ (bits w - shift)) flags) in
        if shift == 1 then left_overflow w dest flags' else flags')
    else flags

-- `IMPL_SHR_FLAG`
unfoldable pub shr_flag : Width → ℕ → ℕ → ℕ → ℕ → ℕ
unfolding right_overflow set_result_flags
shr_flag w shift tdest dest flags =
    if ltb 0 shift
    then (let flags' = set_result_flags w dest (set_bit carry (tdest / 2 ^ (shift - 1)) flags) in
        if shift == 1 then right_overflow w dest flags' else flags')
    else flags

unfoldable pub op_rol : Operation
unfolding shift_count shift_left shift_right rol_flag
op_rol w tdest operand flags = do
  let shift = shift_count w operand
  left ← shift_left w tdest shift
  right ← shift_right w tdest (bits w - shift)
  let dest = bit_or left right
  writes dest (rol_flag w shift tdest dest flags)

unfoldable pub op_ror : Operation
unfolding shift_count shift_left shift_right ror_flag
op_ror w tdest operand flags = do
  let shift = shift_count w operand
  right ← shift_right w tdest shift
  left ← shift_left w tdest (bits w - shift)
  let dest = bit_or right left
  writes dest (ror_flag w shift tdest dest flags)

unfoldable pub op_rcl : Operation
unfolding shift_count shift_left shift_right shift_carry rol_flag
op_rcl w tdest operand flags = do
  let shift = shift_count w operand
  left ← shift_left w tdest shift
  right ← shift_right w tdest (bits w + 1 - shift)
  middle ← (if ltb 0 shift then shift_carry w flags (shift - 1) else some 0)
  let dest = bit_or (bit_or left right) middle
  writes dest (rol_flag w shift tdest dest flags)

unfoldable pub op_rcr : Operation
unfolding shift_count shift_left shift_right shift_carry ror_flag
op_rcr w tdest operand flags = do
  let shift = shift_count w operand
  right ← shift_right w tdest shift
  left ← shift_left w tdest (bits w + 1 - shift)
  middle ← shift_carry w flags (bits w - shift)
  let dest = bit_or (bit_or right left) middle
  writes dest (ror_flag w shift tdest dest flags)

unfoldable pub op_shl : Operation
unfolding shift_count shift_left shl_flag
op_shl w tdest operand flags = do
  let shift = shift_count w operand
  dest ← shift_left w tdest shift
  writes dest (shl_flag w shift tdest dest flags)

unfoldable pub op_shr : Operation
unfolding shift_count shift_right shr_flag
op_shr w tdest operand flags = do
  let shift = shift_count w operand
  dest ← shift_right w tdest shift
  writes dest (shr_flag w shift tdest dest flags)

unfoldable pub op_sar : Operation
unfolding shift_count shift_right_signed shr_flag
op_sar w tdest operand flags = do
  let shift = shift_count w operand
  dest ← shift_right_signed w tdest shift
  writes dest (shr_flag w shift tdest dest flags)
