-- ===== src/Execute/Valid/Sse.antt =====
-- The invariant of the well-formed states, on the SSE moves of x64emu/execute_0f.c.
use flux.Base.{ℕ, zero, suc, ◌+◌, ◌*◌, ◌<◌, Bool, true, false, arith, if◌then◌else◌, ◌==◌}
use flux.Word.{Width, w32, w64, w128}
use flux.Machine.{Emu}
use flux.Machine.Keeps.{
  Keeps, Keeps-bind, Keeps-bind-gets, Keeps-pure, Keeps-if, Keeps-modify, keeps_rules,
}
use flux.Machine.Valid.{IsValid, Fits128}
use flux.Instr.{Instr, modrm_mod}
use flux.Modrm.{Place, gpr, xmm, mmx, addr, x64modrm_get_xmm, x64modrm_get_xmm_m}
use flux.Place.{write}
use flux.Place.Valid.{Fits, Keeps-read, write-IsValid}
use flux.Execute.Sse.{
  copy, zero_extend, interleave, duplicate, sse_10, sse_11, sse_12, sse_14, sse_15, sse_16,
}

-- A place of 128 bits: an XMM register or memory.
abbrev pub IsSse : Place → Type 0
IsSse (xmm i) = Unit
IsSse (addr a) = Unit
IsSse (gpr i) = ⊥
IsSse (mmx i) = ⊥

Fits-sse : (p : Place) (w : Width) (k : ℕ) → IsSse p → Fits128 w k → Fits p w k
Fits-sse (xmm i) w k p h = h
Fits-sse (addr a) w k p h = tt
Fits-sse (gpr i) w k p h = absurd p
Fits-sse (mmx i) w k p h = absurd p

chosen-IsSse : (b : Bool) (i a : ℕ) → IsSse (if b then xmm i else addr a)
chosen-IsSse true i a = tt
chosen-IsSse false i a = tt

pub xmm_m-IsSse : (ins : Instr) (s : Emu) → IsSse (x64modrm_get_xmm_m ins s)
unfolding x64modrm_get_xmm_m
xmm_m-IsSse ins s = chosen-IsSse (modrm_mod ins == 3) _ _

pub xmm-IsSse : (ins : Instr) → IsSse (x64modrm_get_xmm ins)
unfolding x64modrm_get_xmm
xmm-IsSse ins = tt

copy-IsValid :
    (w : Width) (j : ℕ) (dest : Place) (i : ℕ) (src : Place)
    → Fits dest w j
    → Keeps IsValid (copy w j dest i src)
unfolding copy
copy-IsValid w j dest i src h =
    Keeps-bind _ _ (Keeps-read w i src) (λ v. write-IsValid w j dest v h)

-- A write to a place of 128 bits.
pub sse_write-IsValid :
    (w : Width) (k : ℕ) (p : Place) (v : ℕ) → IsSse p → Fits128 w k → Keeps IsValid (write w k p v)
sse_write-IsValid w k p v sse h = write-IsValid w k p v (Fits-sse p w k sse h)

pub sse_copy-IsValid :
    (w : Width) (j : ℕ) (dest : Place) (i : ℕ) (src : Place)
    → IsSse dest
    → Fits128 w j
    → Keeps IsValid (copy w j dest i src)
sse_copy-IsValid w j dest i src sse h = copy-IsValid w j dest i src (Fits-sse dest w j sse h)

zero_extend-IsValid :
    (w : Width) (dest src : Place) → IsSse dest → Keeps IsValid (zero_extend w dest src)
unfolding zero_extend
zero_extend-IsValid w dest src sse =
    Keeps-bind _ _ (Keeps-read w 0 src) (λ v. sse_write-IsValid w128 0 dest v sse (omega arith))

-- The members that the SSE opcodes assign.
pub fits_w32_0 : Fits128 w32 0
fits_w32_0 = omega arith

pub fits_w32_1 : Fits128 w32 1
fits_w32_1 = omega arith

pub fits_w32_2 : Fits128 w32 2
fits_w32_2 = omega arith

pub fits_w32_3 : Fits128 w32 3
fits_w32_3 = omega arith

pub fits_w64_0 : Fits128 w64 0
fits_w64_0 = omega arith

pub fits_w64_1 : Fits128 w64 1
fits_w64_1 = omega arith

pub fits_w128_0 : Fits128 w128 0
fits_w128_0 = omega arith

pub ruleset sse_rules = (
  keeps_rules, Keeps-read, sse_write-IsValid, fits_w32_0, fits_w32_1, fits_w32_2, fits_w32_3,
  fits_w64_0, fits_w64_1, fits_w128_0,
)

duplicate-IsValid :
    (i j : ℕ) (dest src : Place) → IsSse dest → Keeps IsValid (duplicate i j dest src)
unfolding duplicate
duplicate-IsValid i j dest src sse = search sse_rules depth 20

-- The loops write members below twice the number of rounds.
pub interleave-IsValid :
    (offset left i : ℕ) (w : Width) (dest src : Place)
    → ((k : ℕ) → k < (i + left) * 2 → Fits dest w k)
    → Keeps IsValid (interleave offset left i w dest src)
unfolding interleave
interleave-IsValid offset zero i w dest src fits = Keeps-pure tt
interleave-IsValid offset (suc left) i w dest src fits =
    Keeps-bind _ _ (copy-IsValid w (i * 2) dest (i + offset) dest (fits _ (omega arith))) λ _.
      Keeps-bind _ _ (copy-IsValid w (i * 2 + 1) dest (i + offset) src (fits _ (omega arith)))
        λ _. interleave-IsValid offset left (i + 1) w dest src (λ k h. fits k (omega arith))

module _ (ins : Instr) (dest src : Place) (sse : IsSse dest) where
  pub sse_10-IsValid : Keeps IsValid (sse_10 ins dest src)
  unfolding sse_10
  sse_10-IsValid = search sse_rules depth 20

  pub sse_11-IsValid : Keeps IsValid (sse_11 ins dest src)
  unfolding sse_11
  sse_11-IsValid = search sse_rules depth 20

  pub sse_12-IsValid : Keeps IsValid (sse_12 ins dest src)
  unfolding sse_12
  sse_12-IsValid = search sse_rules depth 20

  pub sse_14-IsValid : Keeps IsValid (sse_14 ins dest src)
  unfolding sse_14
  sse_14-IsValid =
      Keeps-if _ _ _
        (interleave-IsValid 0 1 0 w64 dest src (λ k h. Fits-sse dest w64 k sse (omega arith)))
        (interleave-IsValid 0 2 0 w32 dest src (λ k h. Fits-sse dest w32 k sse (omega arith)))

  pub sse_15-IsValid : Keeps IsValid (sse_15 ins dest src)
  unfolding sse_15
  sse_15-IsValid =
      Keeps-if _ _ _
        (interleave-IsValid 1 1 0 w64 dest src (λ k h. Fits-sse dest w64 k sse (omega arith)))
        (interleave-IsValid 2 2 0 w32 dest src (λ k h. Fits-sse dest w32 k sse (omega arith)))

  pub sse_16-IsValid : Keeps IsValid (sse_16 ins dest src)
  unfolding sse_16
  sse_16-IsValid = search sse_rules depth 20
