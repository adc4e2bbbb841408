-- ===== src/Place.antt =====
-- Reads and writes through the pointers `void *src` and `void *dest` of the executor: member `k` of
-- the array of width `w` at the pointer.
pub mod Valid
use flux.Base.{ℕ, ◌+◌, ◌*◌, ◌%◌, ◌^◌}
use flux.Word.{Width, bytes, lane, set_lane}
use flux.Machine.{Emu, M, gets, modify, load, store, set_reg, sub_reg, update}
use flux.Modrm.{Place, gpr, xmm, mmx, addr}

-- The address of member `k` at `a`.
abbrev pub element : Width → ℕ → ℕ → ℕ
element w k a = (a + k * bytes w) % 2 ^ 64

unfoldable pub set_mmx : Width → ℕ → ℕ → ℕ → M (Unit {0})
unfolding modify
set_mmx w k i v = modify λ s. record s { mmx = update s.mmx i (set_lane w k v (s.mmx i)) }

unfoldable pub set_xmm : Width → ℕ → ℕ → ℕ → M (Unit {0})
unfolding modify
set_xmm w k i v = modify λ s. record s { xmm = update s.xmm i (set_lane w k v (s.xmm i)) }

unfoldable pub read : Width → ℕ → Place → M ℕ
unfolding load gets
read w k (gpr i) = gets (sub_reg w k i)
read w k (xmm i) = gets λ s. lane w k (s.xmm i)
read w k (mmx i) = gets λ s. lane w k (s.mmx i)
read w k (addr a) = load w (element w k a)

unfoldable pub write : Width → ℕ → Place → ℕ → M (Unit {0})
unfolding store set_reg set_mmx set_xmm
write w k (gpr i) v = set_reg w k i v
write w k (xmm i) v = set_xmm w k i v
write w k (mmx i) v = set_mmx w k i v
write w k (addr a) v = store w (element w k a) v

-- `(uintptr_t)` of the pointer.
unfoldable pub place_address : Place → Emu → ℕ
place_address (gpr i) s = (s.regs_at + 8 * i) % 2 ^ 64
place_address (addr a) s = a
place_address p s = 0
