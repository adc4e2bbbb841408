-- ===== src/Word.antt =====
-- The integer types of the emulator (include/x64regs.h and the `s_type`/`u_type` pairs of
-- execute_private.h). A value of either type of a pair is its bit pattern, a number below
-- `modulus w`. Signed arithmetic wraps, as the code expects of it.
pub mod Lanes
pub mod Signed
use flux.Base.{ℕ, zero, suc, ◌+◌, ◌-◌, ◌*◌, ◌/◌, ◌%◌, ◌^◌, Bool, leb, if◌then◌else◌}

pub data Width : Type 0 where
  w8 w16 w32 w64 w128 : Width

-- The widths of the general-purpose instructions.
abbrev pub IsWord : Width → Type 0
IsWord w128 = ⊥
IsWord _ = Unit

abbrev pub modulus : Width → ℕ
modulus w8 = 2 ^ 8
modulus w16 = 2 ^ 16
modulus w32 = 2 ^ 32
modulus w64 = 2 ^ 64
modulus w128 = 2 ^ 128

-- The sign bit.
abbrev pub half : Width → ℕ
half w8 = 2 ^ 7
half w16 = 2 ^ 15
half w32 = 2 ^ 31
half w64 = 2 ^ 63
half w128 = 2 ^ 127

-- `sizeof(u_type) * 8` and `sizeof(u_type)`.
abbrev pub bits : Width → ℕ
bits w8 = 8
bits w16 = 16
bits w32 = 32
bits w64 = 64
bits w128 = 128

abbrev pub bytes : Width → ℕ
bytes w8 = 1
bytes w16 = 2
bytes w32 = 4
bytes w64 = 8
bytes w128 = 16

abbrev pub trunc : Width → ℕ → ℕ
trunc w v = v % modulus w

-- `(s_type)v < 0`
abbrev pub is_neg : Width → ℕ → Bool
is_neg w v = leb (half w) v

abbrev pub add : Width → ℕ → ℕ → ℕ
add w a b = (a + b) % modulus w

abbrev pub sub : Width → ℕ → ℕ → ℕ
sub w a b = (a + modulus w - b) % modulus w

-- `~v`
abbrev pub complement : Width → ℕ → ℕ
complement w v = modulus w - 1 - v

-- The conversion of a signed value of width `from` to the wider signed type `to`.
abbrev pub sign_extend : Width → Width → ℕ → ℕ
sign_extend from to v = if is_neg from v then v + (modulus to - modulus from) else v

-- Element `k` of the array of width `w` that overlays `v` in a union, and its assignment.
unfoldable pub lane : Width → ℕ → ℕ → ℕ
lane w zero v = v % modulus w
lane w (suc k) v = lane w k (v / modulus w)

unfoldable pub set_lane : Width → ℕ → ℕ → ℕ → ℕ
set_lane w zero x v = v / modulus w * modulus w + x % modulus w
set_lane w (suc k) x v = set_lane w k x (v / modulus w) * modulus w + v % modulus w
