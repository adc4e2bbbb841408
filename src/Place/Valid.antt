-- ===== src/Place/Valid.antt =====
-- The invariant of the well-formed states, on reads and writes through an operand pointer.
use flux.Base.{ℕ, arith}
use flux.Word.{Width, w8, w16, w32, w64, w128, set_lane, IsWord}
use flux.Machine.{Emu, set_reg}
use flux.Machine.Keeps.{Keeps, Keeps-modify, Keeps-gets, Keeps-load}
use flux.Machine.Valid.{
  IsValid, Fits64, Fits128, update-lt, set_lane-64, set_lane-128, set_reg-IsValid, store-IsValid,
}
use flux.Modrm.{Place, gpr, xmm, mmx, addr}
use flux.Place.{read, write, set_mmx, set_xmm}

-- Member `k` of width `w` lies within what the pointer points to.
abbrev pub Fits : Place → Width → ℕ → Type 0
Fits (gpr i) w k = Fits64 w k
Fits (xmm i) w k = Fits128 w k
Fits (mmx i) w k = Fits64 w k
Fits (addr a) w k = Unit

pub Fits-first : (p : Place) (w : Width) → IsWord w → Fits p w 0
Fits-first (gpr i) w8 h = omega arith
Fits-first (gpr i) w16 h = omega arith
Fits-first (gpr i) w32 h = omega arith
Fits-first (gpr i) w64 h = omega arith
Fits-first (gpr i) w128 h = absurd h
Fits-first (xmm i) w8 h = omega arith
Fits-first (xmm i) w16 h = omega arith
Fits-first (xmm i) w32 h = omega arith
Fits-first (xmm i) w64 h = omega arith
Fits-first (xmm i) w128 h = absurd h
Fits-first (mmx i) w8 h = omega arith
Fits-first (mmx i) w16 h = omega arith
Fits-first (mmx i) w32 h = omega arith
Fits-first (mmx i) w64 h = omega arith
Fits-first (mmx i) w128 h = absurd h
Fits-first (addr a) w h = tt

pub set_mmx-IsValid : (w : Width) (k i v : ℕ) → Fits64 w k → Keeps IsValid (set_mmx w k i v)
unfolding set_mmx
set_mmx-IsValid w k i v fits = Keeps-modify _ λ s h. record {
  regs_fit = h.regs_fit;
  rip_fits = h.rip_fits;
  flags_fit = h.flags_fit;
  mmx_fit =
      update-lt s.mmx i (set_lane w k v (s.mmx i)) h.mmx_fit
        (set_lane-64 w k v (s.mmx i) fits (h.mmx_fit i));
  xmm_fit = h.xmm_fit;
  mem_fits = h.mem_fits;
}

pub set_xmm-IsValid : (w : Width) (k i v : ℕ) → Fits128 w k → Keeps IsValid (set_xmm w k i v)
unfolding set_xmm
set_xmm-IsValid w k i v fits = Keeps-modify _ λ s h. record {
  regs_fit = h.regs_fit;
  rip_fits = h.rip_fits;
  flags_fit = h.flags_fit;
  mmx_fit = h.mmx_fit;
  xmm_fit =
      update-lt s.xmm i (set_lane w k v (s.xmm i)) h.xmm_fit
        (set_lane-128 w k v (s.xmm i) fits (h.xmm_fit i));
  mem_fits = h.mem_fits;
}

pub Keeps-read : {P : Emu → Type 0} (w : Width) (k : ℕ) (p : Place) → Keeps P (read w k p)
unfolding read
Keeps-read w k (gpr i) = Keeps-gets _
Keeps-read w k (xmm i) = Keeps-gets _
Keeps-read w k (mmx i) = Keeps-gets _
Keeps-read w k (addr a) = Keeps-load w _

pub write-IsValid :
    (w : Width) (k : ℕ) (p : Place) (v : ℕ) → Fits p w k → Keeps IsValid (write w k p v)
unfolding write
write-IsValid w k (gpr i) v h = set_reg-IsValid w k i v h
write-IsValid w k (xmm i) v h = set_xmm-IsValid w k i v h
write-IsValid w k (mmx i) v h = set_mmx-IsValid w k i v h
write-IsValid w k (addr a) v h = store-IsValid w _ v

pub write_first-IsValid : (w : Width) (p : Place) (v : ℕ) → IsWord w → Keeps IsValid (write w 0 p v)
write_first-IsValid w p v h = write-IsValid w 0 p v (Fits-first p w h)

pub set_reg_first-IsValid : (w : Width) (i v : ℕ) → IsWord w → Keeps IsValid (set_reg w 0 i v)
set_reg_first-IsValid w i v h = set_reg-IsValid w 0 i v (Fits-first (gpr i) w h)
