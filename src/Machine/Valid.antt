-- ===== src/Machine/Valid.antt =====
-- The well-formed states: every field holds a value of its C type.
use flux.Base.{ℕ, zero, suc, ◌/◌, ◌%◌, ◌^◌, ◌<◌, arith}
use flux.Word.{Width, w8, w16, w32, w64, w128, bytes, set_lane}
use flux.Word.Lanes.{set_lane-lt}
use flux.Machine.{Emu, update, next, store_le, store, set_reg, set_rip, set_flags}
use flux.Machine.Keeps.{Keeps, Keeps-modify, Keeps-require, Keeps-bind}

pub record IsValid (s : Emu) : Type 0 where
  pub regs_fit : (i : ℕ) → s.regs i < 2 ^ 64
  pub rip_fits : s.rip < 2 ^ 64
  pub flags_fit : s.flags < 2 ^ 64
  pub mmx_fit : (i : ℕ) → s.mmx i < 2 ^ 64
  pub xmm_fit : (i : ℕ) → s.xmm i < 2 ^ 128
  pub mem_fits : (a : ℕ) → s.mem.byte a < 256

pub update-lt :
    {n : ℕ} (f : ℕ → ℕ) (i v : ℕ) → ((j : ℕ) → f j < n) → v < n → (j : ℕ) → update f i v j < n
update-lt f i v h lt j = ground (arith, h j)

pub store_le-lt :
    (f : ℕ → ℕ) (a n v : ℕ) → ((j : ℕ) → f j < 256) → (j : ℕ) → store_le f a n v j < 256
unfolding store_le
store_le-lt f a zero v h = h
store_le-lt f a (suc n) v h =
    update-lt (store_le f (next a) n (v / 256)) a (v % 256) (store_le-lt f (next a) n (v / 256) h)
      (omega arith)

-- The widths that a general-purpose or MMX register holds.
abbrev pub Fits64 : Width → ℕ → Type 0
Fits64 w8 k = k < 8
Fits64 w16 k = k < 4
Fits64 w32 k = k < 2
Fits64 w64 k = k < 1
Fits64 w128 k = ⊥

abbrev pub Fits128 : Width → ℕ → Type 0
Fits128 w8 k = k < 16
Fits128 w16 k = k < 8
Fits128 w32 k = k < 4
Fits128 w64 k = k < 2
Fits128 w128 k = k < 1

pub set_lane-64 : (w : Width) (k x v : ℕ) → Fits64 w k → v < 2 ^ 64 → set_lane w k x v < 2 ^ 64
set_lane-64 w8 k x v h lt = set_lane-lt w8 8 k x v h lt
set_lane-64 w16 k x v h lt = set_lane-lt w16 4 k x v h lt
set_lane-64 w32 k x v h lt = set_lane-lt w32 2 k x v h lt
set_lane-64 w64 k x v h lt = set_lane-lt w64 1 k x v h lt
set_lane-64 w128 k x v h lt = absurd h

pub set_lane-128 : (w : Width) (k x v : ℕ) → Fits128 w k → v < 2 ^ 128 → set_lane w k x v < 2 ^ 128
set_lane-128 w8 k x v h lt = set_lane-lt w8 16 k x v h lt
set_lane-128 w16 k x v h lt = set_lane-lt w16 8 k x v h lt
set_lane-128 w32 k x v h lt = set_lane-lt w32 4 k x v h lt
set_lane-128 w64 k x v h lt = set_lane-lt w64 2 k x v h lt
set_lane-128 w128 k x v h lt = set_lane-lt w128 1 k x v h lt

pub set_reg-IsValid : (w : Width) (k i v : ℕ) → Fits64 w k → Keeps IsValid (set_reg w k i v)
unfolding set_reg
set_reg-IsValid w k i v fits = Keeps-modify _ λ s h. record {
  regs_fit =
      update-lt s.regs i (set_lane w k v (s.regs i)) h.regs_fit
        (set_lane-64 w k v (s.regs i) fits (h.regs_fit i));
  rip_fits = h.rip_fits;
  flags_fit = h.flags_fit;
  mmx_fit = h.mmx_fit;
  xmm_fit = h.xmm_fit;
  mem_fits = h.mem_fits;
}

pub set_rip-IsValid : (v : ℕ) → Keeps IsValid (set_rip v)
unfolding set_rip
set_rip-IsValid v = Keeps-modify _ λ s h. record {
  regs_fit = h.regs_fit;
  rip_fits = omega arith;
  flags_fit = h.flags_fit;
  mmx_fit = h.mmx_fit;
  xmm_fit = h.xmm_fit;
  mem_fits = h.mem_fits;
}

pub set_flags-IsValid : (v : ℕ) → Keeps IsValid (set_flags v)
unfolding set_flags
set_flags-IsValid v = Keeps-modify _ λ s h. record {
  regs_fit = h.regs_fit;
  rip_fits = h.rip_fits;
  flags_fit = omega arith;
  mmx_fit = h.mmx_fit;
  xmm_fit = h.xmm_fit;
  mem_fits = h.mem_fits;
}

pub store-IsValid : (w : Width) (a v : ℕ) → Keeps IsValid (store w a v)
unfolding store
store-IsValid w a v = Keeps-bind _ _ (Keeps-require _) λ _. Keeps-modify _ λ s h. record {
  regs_fit = h.regs_fit;
  rip_fits = h.rip_fits;
  flags_fit = h.flags_fit;
  mmx_fit = h.mmx_fit;
  xmm_fit = h.xmm_fit;
  mem_fits = store_le-lt s.mem.byte a (bytes w) v h.mem_fits;
}
