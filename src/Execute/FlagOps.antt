-- ===== src/Execute/FlagOps.antt =====
-- The instructions of x64emu/execute.c that move or set RFLAGS: 9C .. 9F, F5 and F8 .. FD.
use flux.Base.{ℕ, ◌%◌, ◌^◌, Bool, true, not, leb, ◌==◌, if◌then◌else◌, bit_and, bit_or}
use flux.Word.{w8, w16, w32, w64, lane, set_lane}
use flux.Machine.{Emu, M, ◌>>=◌, ◌>>◌, pure, gets, set_reg, set_flags, sub_reg, rax}
use flux.Machine.Flags.{carry, interrupt, direction, flag, assign}
use flux.Instr.{Instr}
use flux.Stack.{push, pop}

-- `r_eflags = v`
unfoldable pub set_eflags : ℕ → M (Unit {0})
set_eflags v = do flags ← gets Emu.flags; set_flags (set_lane w32 0 v flags)

-- `f_CF = b`
unfoldable pub set_flag : ℕ → Bool → M (Unit {0})
set_flag i b = do flags ← gets Emu.flags; set_flags (assign i b flags)

module _ (ins : Instr) where
  -- 9C
  unfoldable pub pushf : M Bool
  unfolding push
  pushf = do
    flags ← gets Emu.flags
    if ins.operand_sz then push w16 (flags % 2 ^ 16) else push w64 (bit_and flags 0xFCFFFF)
    pure true

  -- 9D
  unfoldable pub popf : M Bool
  unfolding pop set_eflags
  popf = do
    eflags ← gets λ s. lane w32 0 s.flags
    if ins.operand_sz
        then (do v ← pop w16; set_eflags (bit_or (bit_and eflags 0xFFFEB02A) (bit_and v 0x4FD5)))
        else (do
          v ← pop w64
          set_eflags (bit_or (bit_and eflags 0xFFDAB02A) (bit_and (v % 2 ^ 32) 0x244FD5)))
    pure true

  -- 9E
  unfoldable pub sahf : M Bool
  unfolding set_eflags
  sahf = do
    eflags ← gets λ s. lane w32 0 s.flags
    ah ← gets (sub_reg w8 1 rax)
    set_eflags (bit_or (bit_and eflags 0xFFFFFF2A) (bit_and ah 0xD5))
    pure true

  -- 9F
  unfoldable pub lahf : M Bool
  lahf = do
    eflags ← gets λ s. lane w32 0 s.flags
    set_reg w8 1 rax (bit_or (bit_and (eflags % 2 ^ 8) 0xD5) 2)
    pure true

  -- F5
  unfoldable pub cmc : M Bool
  unfolding set_flag
  cmc = do flags ← gets Emu.flags; set_flag carry (not (flag carry flags)); pure true

  -- F8 .. FD
  unfoldable pub set_clear : ℕ → M Bool
  unfolding set_flag
  set_clear op = do
    set_flag (if leb op 0xF9 then carry else if leb op 0xFB then interrupt else direction)
        (op % 2 == 1)
    pure true
