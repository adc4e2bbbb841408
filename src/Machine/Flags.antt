-- ===== src/Machine/Flags.antt =====
-- The fields of RFLAGS (x64emu/include/x64flags.h, flags_private.h): `flag carry` is `f_CF`, and an
-- assignment to it keeps the low bit of the value.
use flux.Base.{ℕ, ◌≡◌, Bool, get_bit, set_bit, to_nat, ◌==◌, if◌then◌else◌, arith, get_bit-set_bit}

abbrev pub carry : ℕ
carry = 0

abbrev pub parity : ℕ
parity = 2

abbrev pub adjust : ℕ
adjust = 4

abbrev pub zero_flag : ℕ
zero_flag = 6

abbrev pub sign : ℕ
sign = 7

abbrev pub interrupt : ℕ
interrupt = 9

abbrev pub direction : ℕ
direction = 10

abbrev pub overflow : ℕ
overflow = 11

abbrev pub resume : ℕ
resume = 16

-- `f_CF` as a condition.
abbrev pub flag : ℕ → ℕ → Bool
flag i flags = get_bit i flags == 1

-- `f_CF = b`
abbrev pub assign : ℕ → Bool → ℕ → ℕ
assign i b flags = set_bit i (to_nat b) flags

-- An assigned flag is read back, and no other flag changes.
pub flag-assign :
    (i j : ℕ) (b : Bool) (flags : ℕ)
    → flag i (assign j b flags) ≡ (if j == i then b else flag i flags)
flag-assign i j b flags = ground (arith, get_bit-set_bit i j (to_nat b) flags)
