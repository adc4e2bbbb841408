-- ===== src/Isa/Address.antt =====
-- The operands of x64emu/modrm.c against those of the architecture.
use flux.Base.{
  ℕ, zero, suc, ◌+◌, ◌*◌, ◌%◌, ◌^◌, ◌<◌, ◌≡◌, refl, ◌∙◌, ap, arith, true, false, ◌&&◌, ◌==◌,
  if◌then◌else◌, bit_or, all_pass, all_pass_at, ==_iff, Bool-cases, inl, inr,
}
use flux.Word.{w8, w32, w64, lane}
use flux.Machine.{Emu}
use flux.Instr.{Instr, rex_b, rex_x, rex_r, sib_base, sib_index, modrm_rm, modrm_reg, modrm_mod}
use flux.Modrm.{
  reg_index, rm_index, x64modrm_get_indirect, x64sib_get_scaled_index, x64sib_get_base,
  x64modrm_get_base_rm, x64sib_get_00, x64sib_get_01_10, displ_32, displ_8,
}
use flux.Isa.Encoding.{effective_address, base, index, displacement, extended}

-- The bit above three others is worth 8.
bit_above : (low high : ℕ) → low < 8 → high < 2 → bit_or low (high * 2 ^ 3) ≡ low + 8 * high
unfolding all_pass
bit_above low high h k =
    (==_iff _ _).0
      (all_pass_at (λ l. bit_or l (high * 2 ^ 3) == l + 8 * high) 8 low h (table high k))
  where
    table : (high : ℕ) → high < 2 → all_pass (λ l. bit_or l (high * 2 ^ 3) == l + 8 * high) 8 ≡ true
    table zero k = refl
    table (suc zero) k = refl
    table (suc (suc n)) k = absurd (omega arith)

pub reg_index-eq : (ins : Instr) → reg_index ins ≡ modrm_reg ins + 8 * rex_r ins
unfolding reg_index
reg_index-eq ins = bit_above (modrm_reg ins) (rex_r ins) (omega arith) (omega arith)

pub rm_index-eq : (ins : Instr) → rm_index ins ≡ modrm_rm ins + 8 * rex_b ins
unfolding rm_index
rm_index-eq ins = bit_above (modrm_rm ins) (rex_b ins) (omega arith) (omega arith)

base_index-eq :
    (ins : Instr) → bit_or (sib_base ins) (rex_b ins * 2 ^ 3) ≡ sib_base ins + 8 * rex_b ins
base_index-eq ins = bit_above (sib_base ins) (rex_b ins) (omega arith) (omega arith)

index_index-eq :
    (ins : Instr) → bit_or (sib_index ins) (rex_x ins * 2 ^ 3) ≡ sib_index ins + 8 * rex_x ins
index_index-eq ins = bit_above (sib_index ins) (rex_x ins) (omega arith) (omega arith)

rm_low-eq : (ins : Instr) → bit_or (modrm_rm ins) (rex_b ins * 2 ^ 3) ≡ modrm_rm ins + 8 * rex_b ins
rm_low-eq ins = bit_above (modrm_rm ins) (rex_b ins) (omega arith) (omega arith)

-- The scaled index, where there is a SIB byte.
scaled-eq :
    (ins : Instr) (s : Emu)
    → (modrm_rm ins == 4) ≡ true
    → x64sib_get_scaled_index ins s ≡ index ins s % 2 ^ 64
unfolding x64sib_get_scaled_index
scaled-eq ins s h = ground (arith, index_index-eq ins)

sib_base-eq :
    (ins : Instr) (s : Emu) → x64sib_get_base ins s ≡ s.regs (sib_base ins + 8 * rex_b ins)
unfolding x64sib_get_base
sib_base-eq ins s = ap s.regs (base_index-eq ins)

base_rm-eq :
    (ins : Instr) (s : Emu) → x64modrm_get_base_rm ins s ≡ s.regs (modrm_rm ins + 8 * rex_b ins)
unfolding x64modrm_get_base_rm
base_rm-eq ins s = ap s.regs (rm_low-eq ins)

-- What the functions compute, with the parts shut.
sib_00-parts :
    (ins : Instr) (s : Emu)
    → x64sib_get_00 ins s
      ≡ (x64sib_get_scaled_index ins s
          + (if sib_base ins == 5 then displ_32 ins else x64sib_get_base ins s))
        % 2 ^ 64
unfolding x64sib_get_00
sib_00-parts ins s = refl

sib_01_10-parts :
    (ins : Instr) (s : Emu)
    → x64sib_get_01_10 ins s ≡ (x64sib_get_scaled_index ins s + x64sib_get_base ins s) % 2 ^ 64
unfolding x64sib_get_01_10
sib_01_10-parts ins s = refl

displ_32-eq : (ins : Instr) → displ_32 ins ≡ extended w32 w64 ins.displ
unfolding displ_32 lane
displ_32-eq ins = refl

displ_8-eq : (ins : Instr) → displ_8 ins ≡ extended w8 w64 ins.displ
unfolding displ_8 lane
displ_8-eq ins = refl

module _ (ins : Instr) (s : Emu) where
  -- One lemma for each form of the address.
  module _ (r4 : (modrm_rm ins == 4) ≡ true) where
    sum_00 :
        (modrm_mod ins == 0) ≡ true
        → (if sib_base ins == 5 then displ_32 ins else x64sib_get_base ins s)
          ≡ base ins s + displacement ins
    sum_00 m0 = rw (displ_32-eq ins, sib_base-eq ins s) (ground arith)

    with_sib_00 : (modrm_mod ins == 0) ≡ true → x64sib_get_00 ins s ≡ effective_address ins s
    unfolding effective_address
    with_sib_00 m0 = omega (arith, sib_00-parts ins s, scaled-eq ins s r4, sum_00 m0)

    with_sib :
        (d : ℕ)
        → (modrm_mod ins == 0) ≡ false
        → d ≡ displacement ins
        → (x64sib_get_01_10 ins s + d) % 2 ^ 64 ≡ effective_address ins s
    unfolding effective_address
    with_sib d m0 hd =
        omega (arith, sib_01_10-parts ins s, scaled-eq ins s r4, sib_base-eq ins s, based)
      where
        based : base ins s ≡ s.regs (sib_base ins + 8 * rex_b ins)
        based = rw (r4, m0)

  module _ (r4 : (modrm_rm ins == 4) ≡ false) where
    plain :
        (d : ℕ)
        → (modrm_mod ins == 0 && modrm_rm ins == 5) ≡ false
        → d ≡ displacement ins
        → (x64modrm_get_base_rm ins s + d) % 2 ^ 64 ≡ effective_address ins s
    unfolding effective_address
    plain d m0 hd = omega (arith, base_rm-eq ins s, based, unindexed)
      where
        based : base ins s ≡ s.regs (modrm_rm ins + 8 * rex_b ins)
        based = rw (r4, m0)

        unindexed : index ins s ≡ 0
        unindexed = rw r4

  indirect-parts :
      ins.address_sz ≡ false
      → x64modrm_get_indirect ins s ≡ (
          if modrm_mod ins == 0
          then (if modrm_rm ins == 5
              then (s.rip + displ_32 ins) % 2 ^ 64
              else if modrm_rm ins == 4
              then x64sib_get_00 ins s
              else x64modrm_get_base_rm ins s)
          else if modrm_mod ins == 1
          then ((if modrm_rm ins == 4 then x64sib_get_01_10 ins s else x64modrm_get_base_rm ins s)
              + displ_8 ins)
            % 2 ^ 64
          else if modrm_mod ins == 2
          then ((if modrm_rm ins == 4 then x64sib_get_01_10 ins s else x64modrm_get_base_rm ins s)
              + displ_32 ins)
            % 2 ^ 64
          else 0)
  unfolding x64modrm_get_indirect
  indirect-parts wide = rw wide

  rip_relative :
      (modrm_mod ins == 0) ≡ true
      → (modrm_rm ins == 5) ≡ true
      → (s.rip + displ_32 ins) % 2 ^ 64 ≡ effective_address ins s
  unfolding effective_address
  rip_relative m0 r5 = rw (displ_32-eq ins) (ground arith)

  undisplaced :
      (modrm_mod ins == 0) ≡ true
      → (modrm_rm ins == 5) ≡ false
      → (modrm_rm ins == 4) ≡ false
      → 0 ≡ displacement ins
  undisplaced m0 r5 r4 = ground arith

  -- The address without a displacement, by the kind of its base.
  mod_0 :
      ((i : ℕ) → s.regs i < 2 ^ 64)
      → (modrm_mod ins == 0) ≡ true
      → (if modrm_rm ins == 5
          then (s.rip + displ_32 ins) % 2 ^ 64
          else if modrm_rm ins == 4
          then x64sib_get_00 ins s
          else x64modrm_get_base_rm ins s)
        ≡ effective_address ins s
  mod_0 fit m0 = elim (Bool-cases (modrm_rm ins == 5)) [
    | inl r5 ↦ rw r5 (rip_relative m0 r5)
    | inr r5 ↦ rw r5 (elim (Bool-cases (modrm_rm ins == 4)) [
      | inl r4 ↦ rw r4 (with_sib_00 r4 m0)
      | inr r4 ↦ rw r4 (
          omega (
            arith,
            plain r4 0 (rw (m0, r5)) (undisplaced m0 r5 r4),
            base_rm-eq ins s,
            fit (modrm_rm ins + 8 * rex_b ins),
          ))
    ])
  ]

  -- With a displacement `d`.
  mod_1_2 :
      (d : ℕ)
      → (modrm_mod ins == 0) ≡ false
      → d ≡ displacement ins
      → ((if modrm_rm ins == 4 then x64sib_get_01_10 ins s else x64modrm_get_base_rm ins s) + d)
          % 2 ^ 64
        ≡ effective_address ins s
  mod_1_2 d m0 hd = elim (Bool-cases (modrm_rm ins == 4)) [
    | inl r4 ↦ rw r4 (with_sib r4 d m0 hd)
    | inr r4 ↦ rw r4 (plain r4 d (rw m0) hd)
  ]

  -- Without an address-size prefix the emulator's address is the architecture's.
  pub x64modrm_get_indirect-eq :
      ((i : ℕ) → s.regs i < 2 ^ 64)
      → ins.address_sz ≡ false
      → (modrm_mod ins == 3) ≡ false
      → x64modrm_get_indirect ins s ≡ effective_address ins s
  x64modrm_get_indirect-eq fit wide m3 =
      indirect-parts wide ∙ elim (Bool-cases (modrm_mod ins == 0)) [
        | inl m0 ↦ rw m0 (mod_0 fit m0)
        | inr m0 ↦ rw m0 (elim (Bool-cases (modrm_mod ins == 1)) [
          | inl m1 ↦ rw m1 (mod_1_2 (displ_8 ins) m0 (displ_8-eq ins ∙ rw m1))
          | inr m1 ↦ rw m1 (elim (Bool-cases (modrm_mod ins == 2)) [
            | inl m2 ↦ rw m2 (mod_1_2 (displ_32 ins) m0 (displ_32-eq ins ∙ rw (m1, m2)))
            | inr m2 ↦ absurd (ground arith)
          ])
        ])
      ]
