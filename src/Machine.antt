-- ===== src/Machine.antt =====
-- The state that the emulator works on, and the effects of its functions.
--
-- `Emu` is `x64emu_t` (x64emu/include/x64emu.h) with the memory of the process beside it, since the
-- emulated program runs in the emulator's own address space. A function of the source that takes
-- `x64emu_t *emu` is an `M`: it returns with the new state, ends the process, or does what has no
-- defined result (an access that the memory does not allow, or a shift by the width or more).
pub mod Flags
pub mod Keeps
pub mod Memory
pub mod Valid
use mathlib.Core.List.{List}
use flux.Base.{
  ℕ, zero, suc, ◌+◌, ◌-◌, ◌*◌, ◌/◌, ◌%◌, ◌^◌, ◌≡◌, Bool, true, false, ◌&&◌, ◌==◌, if◌then◌else◌,
  get_bit, set_bit, to_nat,
}
use flux.Word.{Width, w8, w16, w32, w64, modulus, bytes, trunc, lane, set_lane}

-- A mapped segment, `segment_t`.
pub record Segment : Type 0 where
  pub base : ℕ
  pub size : ℕ

-- The mapped stack, `x64stack_t`.
pub record StackArea : Type 0 where
  pub base : ℕ
  pub size : ℕ
  pub align : ℕ

-- `x64context_t`. `segments_len` is the length of the list; a string is the list of its bytes
-- without the final NUL.
pub record Context : Type 0 where
  pub entry : ℕ
  pub stack : StackArea
  pub segments : List Segment
  pub argc : ℕ
  pub argv : List (List ℕ)
  pub envc : ℕ
  pub envv : List (List ℕ)
  pub page_size : ℕ

-- The memory of the process: a byte at each address, and what its protection allows there.
pub record Mem : Type 0 where
  pub byte : ℕ → ℕ
  pub readable : ℕ → Bool
  pub writable : ℕ → Bool

-- `regs_at` is where the host keeps `emu->regs`; only LEA of a register shows it.
pub record Emu : Type 0 where
  pub ctx : Context
  pub regs : ℕ → ℕ
  pub rip : ℕ
  pub flags : ℕ
  pub mmx : ℕ → ℕ
  pub xmm : ℕ → ℕ
  pub mem : Mem
  pub regs_at : ℕ

abbrev pub update : (ℕ → ℕ) → ℕ → ℕ → ℕ → ℕ
update f i v j = if i == j then v else f j

-- Pointers wrap at 2 ^ 64.
abbrev pub next : ℕ → ℕ
next a = (a + 1) % 2 ^ 64

-- `n` bytes at `a`, least significant first.
unfoldable pub load_le : (ℕ → ℕ) → ℕ → ℕ → ℕ
load_le byte a zero = 0
load_le byte a (suc n) = byte a + 256 * load_le byte (next a) n

unfoldable pub store_le : (ℕ → ℕ) → ℕ → ℕ → ℕ → ℕ → ℕ
store_le byte a zero v = byte
store_le byte a (suc n) v = update (store_le byte (next a) n (v / 256)) a (v % 256)

-- The accesses to `n` bytes at `a` are all allowed.
unfoldable pub all_allowed : (ℕ → Bool) → ℕ → ℕ → Bool
all_allowed ok a zero = true
all_allowed ok a (suc n) = ok a && all_allowed ok (next a) n

pub data Outcome (A : Type 0) : Type 0 where
  ok : A → Emu → Outcome A
  exited : ℕ → Outcome A
  fault : Outcome A

abbrev pub M : Type 0 → Type 0
M A = Emu → Outcome A

module _ {A : Type 0} where
  unfoldable pub pure : A → M A
  pure a s = ok a s

  unfoldable pub gets : (Emu → A) → M A
  gets f s = ok (f s) s

  -- What C leaves undefined.
  unfoldable pub undefined : M A
  undefined s = fault

  -- `_exit(status)`
  unfoldable pub exit : ℕ → M A
  exit status s = exited status

unfoldable pub modify : (Emu → Emu) → M (Unit {0})
modify f s = ok tt (f s)

unfoldable pub require : (Emu → Bool) → M (Unit {0})
require test s = if test s then ok tt s else fault

module _ {A B : Type 0} where
  abbrev pub and_then : Outcome A → (A → M B) → Outcome B
  and_then (ok a s) k = k a s
  and_then (exited c) k = exited c
  and_then fault k = fault

  -- To open this opens the basic actions too.
  infixl 5 ◌>>=◌ ◌>>◌
  unfoldable pub ◌>>=◌ : M A → (A → M B) → M B
  unfolding pure gets undefined exit modify require
  ◌>>=◌ m k s = and_then (m s) k

  abbrev pub ◌>>◌ : M A → M B → M B
  m >> n = m >>= λ _. n

-- `*(u_type *)a`, as a value and as the left side of an assignment.
unfoldable pub load : Width → ℕ → M ℕ
load w a = do
  require λ s. all_allowed s.mem.readable a (bytes w)
  gets λ s. load_le s.mem.byte a (bytes w)

unfoldable pub store : Width → ℕ → ℕ → M (Unit {0})
store w a v = do
  require λ s. all_allowed s.mem.writable a (bytes w)
  modify λ s. record s { mem = record (s.mem) { byte = store_le s.mem.byte a (bytes w) v } }

-- The registers of regs_private.h: `r_rax` is `gets (reg rax)`, and so on.
abbrev pub rax : ℕ
rax = 0

abbrev pub rcx : ℕ
rcx = 1

abbrev pub rdx : ℕ
rdx = 2

abbrev pub rbx : ℕ
rbx = 3

abbrev pub rsp : ℕ
rsp = 4

abbrev pub rbp : ℕ
rbp = 5

abbrev pub rsi : ℕ
rsi = 6

abbrev pub rdi : ℕ
rdi = 7

abbrev pub r11 : ℕ
r11 = 11

-- `emu->regs[i].uq[0]`, and the members of width `w` of the register.
abbrev pub reg : ℕ → Emu → ℕ
reg i s = s.regs i

abbrev pub sub_reg : Width → ℕ → ℕ → Emu → ℕ
sub_reg w k i s = lane w k (s.regs i)

unfoldable pub set_reg : Width → ℕ → ℕ → ℕ → M (Unit {0})
unfolding modify
set_reg w k i v = modify λ s. record s { regs = update s.regs i (set_lane w k v (s.regs i)) }

unfoldable pub set_rip : ℕ → M (Unit {0})
unfolding modify
set_rip v = modify λ s. record s { rip = v % 2 ^ 64 }

unfoldable pub set_flags : ℕ → M (Unit {0})
unfolding modify
set_flags v = modify λ s. record s { flags = v % 2 ^ 64 }
