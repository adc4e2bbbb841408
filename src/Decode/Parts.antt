-- ===== src/Decode/Parts.antt =====
-- The parts of an instruction behind the opcode (x64emu/decode_private.h, modrm.c and the cases of
-- decode.c): each function takes the bytes of its part.
use mathlib.Core.Path.{subst}
use flux.Base.{
  length, length-append, ℕ, ◌/◌, ◌%◌, ◌<◌, ◌≡◌, ◌≢◌, refl, sym, ap, ◌∙◌, Bool, true, false, ◌&&◌,
  ◌||◌, leb, ◌==◌, if◌then◌else◌, if_true, if_false, List, [], ◌∷◌, ◌++◌, arith,
}
use flux.Word.{Width, w8, w16, w32, w64, w128, bytes, modulus, IsWord, set_lane}
use flux.Machine.{◌>>=◌, pure}
use flux.Instr.{Instr, fetch, rex_w, modrm_rm, modrm_reg, modrm_mod, sib_base}
use flux.Modrm.{fetch_sib, fetch_displ, x64modrm_fetch}
use flux.Decode.{
  fetch_imm, fetch_imm_16_32, fetch_imm_16_32_64, fetch_operands, Operands, no_operands, modrm_only,
  imm_8, imm_16, imm_32, imm_16_32, imm_16_32_64, modrm_imm_8, modrm_imm_16_32, modrm_test_8,
  modrm_test_16_32, unhandled,
}
use flux.Decode.Format.{number, AreBytes, sib_length, displ_length}
use flux.Decode.Reads.{
  Reads, Reads-nothing, Reads-bind, Reads-if, Reads-map, Reads-fetch, Reads-byte, number-modulus,
}

-- A member of a union that was zero, once a number of its width is assigned.
set_lane-zero :
    (w : Width) (v old : ℕ) → IsWord w → old ≡ 0 → v < modulus w → set_lane w 0 v old ≡ v
unfolding set_lane
set_lane-zero w8 v old word none fits = omega arith
set_lane-zero w16 v old word none fits = omega arith
set_lane-zero w32 v old word none fits = omega arith
set_lane-zero w64 v old word none fits = omega arith
set_lane-zero w128 v old word none fits = absurd word

number_of_none : (bs : List ℕ) → length bs ≡ 0 → number bs ≡ 0
number_of_none [] h = refl
number_of_none (b ∷ bs) h = absurd (omega arith)

module _ (imm : List ℕ) (fit : AreBytes imm) (ins : Instr) (none : ins.imm ≡ 0) where
  imm-Reads :
      (w : Width)
      → IsWord w
      → length imm ≡ bytes w
      → Reads (fetch_imm w ins) imm (record ins { imm = number imm })
  unfolding fetch_imm
  imm-Reads w word size =
      subst (λ (v : ℕ). Reads (fetch_imm w ins) imm (record ins { imm = v }))
        (set_lane-zero w (number imm) ins.imm word none (number-modulus w imm word size fit))
        (Reads-map (λ v. record ins { imm = set_lane w 0 v ins.imm }) (Reads-fetch w imm size))

  imm_16_32-Reads :
      length imm ≡ (if ins.operand_sz then 2 else 4)
      → Reads (fetch_imm_16_32 ins) imm (record ins { imm = number imm })
  unfolding fetch_imm_16_32
  imm_16_32-Reads size =
      Reads-if ins.operand_sz (λ h. imm-Reads w16 tt (size ∙ if_true _ _ h))
        (λ h. imm-Reads w32 tt (size ∙ if_false _ _ h))

  imm_16_32_64-Reads :
      length imm ≡ (if rex_w ins then 8 else if ins.operand_sz then 2 else 4)
      → Reads (fetch_imm_16_32_64 ins) imm (record ins { imm = number imm })
  unfolding fetch_imm_16_32_64 fetch_imm_16_32
  imm_16_32_64-Reads size =
      Reads-if (rex_w ins) (λ h. imm-Reads w64 tt (size ∙ if_true _ _ h))
        (λ h. imm_16_32-Reads (size ∙ if_false _ _ h))

  no_imm-Reads : length imm ≡ 0 → Reads (pure ins) imm (record ins { imm = number imm })
  no_imm-Reads size =
      Reads-nothing ins _ imm size
        (ap (λ (v : ℕ). record ins { imm = v }) (none ∙ sym (number_of_none imm size)))

module _ (sib : List ℕ) (ins : Instr) (none : ins.sib ≡ 0) where
  sib-Reads :
      length sib ≡ (if modrm_rm ins == 4 then 1 else 0)
      → Reads (fetch_sib ins) sib (record ins { sib = number sib })
  unfolding fetch_sib
  sib-Reads size =
      Reads-if (modrm_rm ins == 4)
        (λ h. Reads-map (λ b. record ins { sib = b }) (Reads-fetch w8 sib (size ∙ if_true _ _ h)))
        (λ h. Reads-nothing ins _ sib (size ∙ if_false _ _ h) (
          ap (λ (v : ℕ). record ins { sib = v })
            (none ∙ sym (number_of_none sib (size ∙ if_false _ _ h)))))

-- The displacement, by Mod, R/M and the base of SIB.
displ_size : Instr → ℕ
displ_size ins =
    if modrm_mod ins == 1
    then 1
    else if modrm_mod ins == 2
    then 4
    else if modrm_mod ins == 0 && (modrm_rm ins == 5 || modrm_rm ins == 4 && sib_base ins == 5)
    then 4
    else 0

module _ (displ : List ℕ) (fit : AreBytes displ) (ins : Instr) (none : ins.displ ≡ 0) where
  some_displ-Reads :
      (w : Width)
      → IsWord w
      → length displ ≡ bytes w
      → Reads
          (fetch w >>= λ d. pure (record ins { displ = set_lane w 0 d ins.displ }))
          displ
          (record ins { displ = number displ })
  some_displ-Reads w word size =
      subst
        (λ (v : ℕ).
          Reads (fetch w >>= λ d. pure (record ins { displ = set_lane w 0 d ins.displ })) displ
            (record ins { displ = v }))
        (set_lane-zero w (number displ) ins.displ word none (number-modulus w displ word size fit))
        (Reads-map (λ v. record ins { displ = set_lane w 0 v ins.displ })
          (Reads-fetch w displ size))

  no_displ-Reads : length displ ≡ 0 → Reads (pure ins) displ (record ins { displ = number displ })
  no_displ-Reads size =
      Reads-nothing ins _ displ size
        (ap (λ (v : ℕ). record ins { displ = v }) (none ∙ sym (number_of_none displ size)))

  displ-Reads :
      length displ ≡ displ_size ins
      → Reads (fetch_displ ins) displ (record ins { displ = number displ })
  unfolding fetch_displ displ_size
  displ-Reads size =
      Reads-if (modrm_mod ins == 0)
        (λ h.
          Reads-if (modrm_rm ins == 5 || modrm_rm ins == 4 && sib_base ins == 5)
            (λ base. some_displ-Reads w32 tt (size ∙ ground arith))
            (λ base. no_displ-Reads (size ∙ ground arith)))
        (λ h.
          Reads-if (modrm_mod ins == 1) (λ one. some_displ-Reads w8 tt (size ∙ if_true _ _ one))
            (λ one.
              Reads-if (modrm_mod ins == 2)
                (λ two. some_displ-Reads w32 tt (size ∙ if_false _ _ one ∙ if_true _ _ two))
                (λ two. no_displ-Reads (size ∙ ground arith))))

-- Whether the decoder takes ModR/M, and the size of the immediate that it takes.
abbrev pub takes_modrm : Operands → Bool
takes_modrm modrm_only = true
takes_modrm modrm_imm_8 = true
takes_modrm modrm_imm_16_32 = true
takes_modrm modrm_test_8 = true
takes_modrm modrm_test_16_32 = true
takes_modrm _ = false

abbrev pub taken_length : Operands → Instr → ℕ
taken_length imm_8 ins = 1
taken_length imm_16 ins = 2
taken_length imm_32 ins = 4
taken_length imm_16_32 ins = if ins.operand_sz then 2 else 4
taken_length imm_16_32_64 ins = if rex_w ins then 8 else if ins.operand_sz then 2 else 4
taken_length modrm_imm_8 ins = 1
taken_length modrm_imm_16_32 ins = if ins.operand_sz then 2 else 4
taken_length modrm_test_8 ins = if leb (modrm_reg ins) 1 then 1 else 0
taken_length modrm_test_16_32 ins =
    if leb (modrm_reg ins) 1 then (if ins.operand_sz then 2 else 4) else 0
taken_length _ ins = 0

-- ModR/M, SIB and displacement.
module _ (m : ℕ) (sib displ : List ℕ) (fit : AreBytes displ) (ins : Instr) (no_sib : ins.sib ≡ 0)
    (no_displ : ins.displ ≡ 0) where
  abbrev full : Instr
  full = record ins { modrm = m; sib = number sib; displ = number displ }

  modrm-Reads :
      length sib ≡ sib_length m
      → length displ ≡ displ_length m (number sib)
      → Reads (x64modrm_fetch ins) (m ∷ (sib ++ displ)) full
  unfolding x64modrm_fetch displ_size
  modrm-Reads sib_size size = Reads-bind _ (Reads-byte m) (
      Reads-if (m / 64 % 4 == 3)
        (λ h.
          Reads-nothing _ _ (sib ++ displ)
            (omega (arith, length-append sib displ, the_sib h, the_displ h))
            (ap (λ (v : ℕ). record ins { modrm = m; sib = v })
                (no_sib ∙ sym (number_of_none sib (the_sib h)))
              ∙ ap (λ (v : ℕ). record ins { modrm = m; sib = number sib; displ = v })
                  (no_displ ∙ sym (number_of_none displ (the_displ h)))))
        (λ h.
          Reads-bind _ (sib-Reads sib (record ins { modrm = m }) no_sib (sib_size ∙ ground arith))
            (displ-Reads displ fit (record ins { modrm = m; sib = number sib }) no_displ size)))
    where
      the_sib : (m / 64 % 4 == 3) ≡ true → length sib ≡ 0
      the_sib h = sib_size ∙ ground arith

      the_displ : (m / 64 % 4 == 3) ≡ true → length displ ≡ 0
      the_displ h = size ∙ ground arith

  -- What follows an opcode.
  module _ (imm : List ℕ) (imm_fit : AreBytes imm) (no_imm : ins.imm ≡ 0)
      (sib_size : length sib ≡ sib_length m)
      (displ_size : length displ ≡ displ_length m (number sib)) where
    abbrev pub part : Operands → List ℕ
    part o = if takes_modrm o then m ∷ (sib ++ displ) else []

    abbrev pub parsed : Operands → Instr
    parsed o = if takes_modrm o then full else ins

    addressed : Reads (x64modrm_fetch ins) (m ∷ (sib ++ displ)) full
    addressed = modrm-Reads sib_size displ_size

    abbrev ending : Instr → Bool × Instr
    ending ins' = (true, ins')

    pub operands-Reads :
        (o : Operands)
        → o ≢ unhandled
        → length imm ≡ taken_length o (parsed o)
        → Reads
            (fetch_operands o ins)
            (part o ++ imm)
            (true, record (parsed o) { imm = number imm })
    unfolding fetch_operands
    operands-Reads no_operands known size =
        Reads-nothing _ _ imm size
          (ap (λ (v : ℕ). ending (record ins { imm = v })) (no_imm ∙ sym (number_of_none imm size)))
    operands-Reads imm_8 known size = Reads-map ending (imm-Reads imm imm_fit ins no_imm w8 tt size)
    operands-Reads imm_16 known size =
        Reads-map ending (imm-Reads imm imm_fit ins no_imm w16 tt size)
    operands-Reads imm_32 known size =
        Reads-map ending (imm-Reads imm imm_fit ins no_imm w32 tt size)
    operands-Reads imm_16_32 known size =
        Reads-map ending (imm_16_32-Reads imm imm_fit ins no_imm size)
    operands-Reads imm_16_32_64 known size =
        Reads-map ending (imm_16_32_64-Reads imm imm_fit ins no_imm size)
    operands-Reads modrm_only known size = Reads-bind _ addressed (
        Reads-nothing _ _ imm size (
          ap (λ (v : ℕ). ending (record full { imm = v }))
            (no_imm ∙ sym (number_of_none imm size))))
    operands-Reads modrm_imm_8 known size =
        Reads-bind _ addressed (Reads-map ending (imm-Reads imm imm_fit full no_imm w8 tt size))
    operands-Reads modrm_imm_16_32 known size =
        Reads-bind _ addressed (Reads-map ending (imm_16_32-Reads imm imm_fit full no_imm size))
    operands-Reads modrm_test_8 known size = Reads-bind _ addressed (
        Reads-map ending (
          Reads-if (leb (modrm_reg full) 1)
            (λ h. imm-Reads imm imm_fit full no_imm w8 tt (size ∙ if_true _ _ h))
            (λ h. no_imm-Reads imm imm_fit full no_imm (size ∙ if_false _ _ h))))
    operands-Reads modrm_test_16_32 known size = Reads-bind _ addressed (
        Reads-map ending (
          Reads-if (leb (modrm_reg full) 1)
            (λ h. imm_16_32-Reads imm imm_fit full no_imm (size ∙ if_true _ _ h))
            (λ h. no_imm-Reads imm imm_fit full no_imm (size ∙ if_false _ _ h))))
    operands-Reads unhandled known size = absurd (known refl)
