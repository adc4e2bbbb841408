-- ===== src/Isa/Operands.antt =====
-- The operands of the instructions: those that the emulator reaches, and their ranges.
use native.Mathlib.Nat.{pow-suc}
use flux.Base.{
  ◌⊎◌, ℕ, zero, suc, ◌+◌, ◌*◌, ◌%◌, ◌^◌, ◌<◌, ◌≡◌, refl, sym, ◌∙◌, ap, arith, Bool, true, false,
  ◌&&◌, ◌==◌, if◌then◌else◌, in_range, some, Bool-cases, inl, inr,
}
use flux.Word.{Width, w8, w16, w32, w64, w128, modulus, bytes}
use flux.Machine.{Emu, load_le, next}
use flux.Machine.Valid.{IsValid}
use flux.Instr.{Instr, modrm_mod, modrm_rm, modrm_reg, rex_b, rex_r}
use flux.Modrm.{gpr, addr, x64modrm_get_reg, x64modrm_get_r_m, rm_index, x64modrm_get_indirect}
use flux.Isa.{Operand, register, high_byte, memory, immediate}
use flux.Isa.Encoding.{named, r, r_m, effective_address}
use flux.Isa.Meaning.{value}
use flux.Isa.Address.{reg_index-eq, rm_index-eq, x64modrm_get_indirect-eq}
use flux.Isa.Performs.{place, IsNamed}

-- None of AH, CH, DH and BH, which the emulator has no pointers to.
abbrev pub IsLow : Operand → Type 0
IsLow (high_byte i) = ⊥
IsLow _ = Unit

named-split :
    (b : Bool) (n m : ℕ)
    → IsLow (if b then high_byte m else register n)
    → (if b then high_byte m else register n) ≡ register n
named-split true n m low = absurd low
named-split false n m low = refl

pub named-register :
    (ins : Instr) (w : Width) (n : ℕ) → IsLow (named ins w n) → named ins w n ≡ register n
named-register ins w8 n low = named-split (ins.rex == 0 && in_range 4 7 n) n _ low
named-register ins w16 n low = refl
named-register ins w32 n low = refl
named-register ins w64 n low = refl
named-register ins w128 n low = refl

pub r-place : (ins : Instr) (w : Width) → IsLow (r ins w) → x64modrm_get_reg ins ≡ place (r ins w)
unfolding x64modrm_get_reg
r-place ins w low =
    ap gpr (reg_index-eq ins)
    ∙ ap place (sym (named-register ins w (modrm_reg ins + 8 * rex_r ins) low))

pub r-IsNamed : (ins : Instr) (w : Width) → IsLow (r ins w) → IsNamed (r ins w)
r-IsNamed ins w low = rw (named-register ins w (modrm_reg ins + 8 * rex_r ins) low) tt

get_r_m-parts :
    (ins : Instr) (s : Emu)
    → x64modrm_get_r_m ins s
      ≡ (if modrm_mod ins == 3 then gpr (rm_index ins) else addr (x64modrm_get_indirect ins s))
unfolding x64modrm_get_r_m
get_r_m-parts ins s = refl

module _ (ins : Instr) (w : Width) (s : Emu) where
  pub r_m-place :
      IsValid s
      → ins.address_sz ≡ false
      → IsLow (r_m ins w s)
      → x64modrm_get_r_m ins s ≡ place (r_m ins w s)
  r_m-place valid wide low = get_r_m-parts ins s ∙ split (Bool-cases (modrm_mod ins == 3)) low
    where
      split :
          ((modrm_mod ins == 3) ≡ true) ⊎ ((modrm_mod ins == 3) ≡ false)
          → IsLow (r_m ins w s)
          → (if modrm_mod ins == 3 then gpr (rm_index ins) else addr (x64modrm_get_indirect ins s))
            ≡ place (r_m ins w s)
      split (inl direct) low = rw direct (
          ap gpr (rm_index-eq ins)
          ∙ ap place (sym (named-register ins w (modrm_rm ins + 8 * rex_b ins) (rw direct at low))))
      split (inr indirect) low =
          rw indirect (ap addr (x64modrm_get_indirect-eq ins s valid.regs_fit wide indirect))

  effective_address-lt : effective_address ins s < 2 ^ 64
  unfolding effective_address
  effective_address-lt = omega arith

  pub r_m-IsNamed : IsLow (r_m ins w s) → IsNamed (r_m ins w s)
  r_m-IsNamed low = split (Bool-cases (modrm_mod ins == 3)) low
    where
      split :
          ((modrm_mod ins == 3) ≡ true) ⊎ ((modrm_mod ins == 3) ≡ false)
          → IsLow (r_m ins w s)
          → IsNamed (r_m ins w s)
      split (inl direct) low =
          rw direct (rw (named-register ins w (modrm_rm ins + 8 * rex_b ins) (rw direct at low)) tt)
      split (inr indirect) low = rw indirect effective_address-lt

pub load_le-lt : (f : ℕ → ℕ) (a n : ℕ) → ((j : ℕ) → f j < 256) → load_le f a n < 256 ^ n
unfolding load_le
load_le-lt f a zero h = omega arith
load_le-lt f a (suc n) h = omega (arith, h a, load_le-lt f (next a) n h, pow-suc 256 n)

bytes-modulus : (w : Width) → 256 ^ bytes w ≡ modulus w
bytes-modulus w8 = refl
bytes-modulus w16 = refl
bytes-modulus w32 = refl
bytes-modulus w64 = refl
bytes-modulus w128 = refl

mod_modulus : (w : Width) (v : ℕ) → v % modulus w < modulus w
mod_modulus w8 v = omega arith
mod_modulus w16 v = omega arith
mod_modulus w32 v = omega arith
mod_modulus w64 v = omega arith
mod_modulus w128 v = omega arith

-- What can be read of `w` bits is a number of `w` bits.
pub value-lt :
    (w : Width) (o : Operand) (s : Emu) (v : ℕ)
    → IsValid s
    → IsNamed o
    → value w o s ≡ some v
    → v < modulus w
value-lt w (register i) s v valid named e = ground (arith, mod_modulus w (s.regs i))
value-lt w (memory a) s v valid named e =
    ground (arith, load_le-lt s.mem.byte a (bytes w) valid.mem_fits, bytes-modulus w)
value-lt w (high_byte i) s v valid named e = absurd named
value-lt w (immediate c) s v valid named e = absurd named
