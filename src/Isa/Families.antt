-- ===== src/Isa/Families.antt =====
-- The shapes of the cases of x64emu/execute.c for the opcode families and the groups 80, 81 and 83,
-- whatever the operation is, against the forms of the architecture.
use flux.Base.{
  ℕ, zero, suc, ◌/◌, ◌%◌, ◌^◌, ◌≤◌, ◌<◌, ◌≡◌, refl, ap, arith, Bool, true, false, ◌==◌,
  if◌then◌else◌,
}
use flux.Word.{Width, w8, w16, w32, w64, w128, modulus, lane, IsWord}
use flux.Machine.{Emu, M, Outcome, ◌>>=◌, and_then, pure, rax}
use flux.Machine.Valid.{IsValid}
use flux.Instr.{Instr, modrm_reg}
use flux.Modrm.{Place, gpr, x64modrm_get_reg, x64modrm_get_r_m}
use flux.Alu.{Operation}
use flux.Execute.Operands.{
  Macro, at, imm, read_source, perform, op2_fixed, dest_op2, s_8, s_32, s_64,
}
use flux.Execute.Groups.{alu_case, x64execute_80, x64execute_81, x64execute_83}
use flux.Execute.Low.{opcode_family}
use flux.Execute.Valid.Operands.{op_width-IsWord}
use flux.Isa.{Mnemonic, mnemonic, Operand, immediate}
use flux.Isa.Encoding.{family_form, r, r_m, operand_size, wide_immediate, extended}
use flux.Isa.Meaning.{flags_alone, Performs}
use flux.Isa.Arithmetic.{operation, IsExact}
use flux.Isa.Performs.{IsClear}
use flux.Isa.Operands.{IsLow, r-place, r-IsNamed, r_m-place, r_m-IsNamed}
use flux.Isa.Macros.{alu_case-eq, Reads, named-Reads, constant-Reads, macro-Performs}

-- The sign extension of a constant stays within its width.
extended-lt : (w : Width) (v : ℕ) → IsWord w → extended w8 w v < modulus w
extended-lt w8 v word = ground arith
extended-lt w16 v word = ground arith
extended-lt w32 v word = ground arith
extended-lt w64 v word = ground arith
extended-lt w128 v word = absurd word

module _ (s : Emu) (v : ℕ) where
  pub byte-Reads : Reads w8 (immediate (v % 2 ^ 8)) (read_source w8 (imm v)) s
  unfolding read_source lane pure
  byte-Reads = constant-Reads w8 s (v % 2 ^ 8) _ (omega arith) refl

  pub wide-Reads : (w : Width) → IsWord w → Reads w (wide_immediate w v) (s_32 (imm v) w) s
  unfolding s_32 read_source lane ◌>>=◌
  wide-Reads w8 word = constant-Reads w8 s (v % 2 ^ 8) _ (omega arith) refl
  wide-Reads w16 word = constant-Reads w16 s (v % 2 ^ 16) _ (omega arith) refl
  wide-Reads w32 word = constant-Reads w32 s (v % 2 ^ 32) _ (omega arith) refl
  wide-Reads w64 word = constant-Reads w64 s (extended w32 w64 v) _ (ground arith) refl
  wide-Reads w128 word = absurd word

  pub signed_byte-Reads :
      (w : Width) → IsWord w → Reads w (immediate (extended w8 w v)) (s_8 (imm v) w) s
  unfolding s_8 read_source lane ◌>>=◌
  signed_byte-Reads w word = constant-Reads w s (extended w8 w v) _ (extended-lt w v word) refl

-- One of the six forms, with the operation as an argument.
unfoldable pub family_code : Macro → ℕ → Instr → Emu → M (Unit {0})
family_code oper k ins s =
    if k == 0
    then op2_fixed oper w8 (x64modrm_get_r_m ins s) (at (x64modrm_get_reg ins))
    else if k == 1
    then dest_op2 oper ins (x64modrm_get_r_m ins s) (s_64 (at (x64modrm_get_reg ins)))
    else if k == 2
    then op2_fixed oper w8 (x64modrm_get_reg ins) (at (x64modrm_get_r_m ins s))
    else if k == 3
    then dest_op2 oper ins (x64modrm_get_reg ins) (s_64 (at (x64modrm_get_r_m ins s)))
    else if k == 4
    then op2_fixed oper w8 (gpr rax) (imm ins.imm)
    else dest_op2 oper ins (gpr rax) (s_32 (imm ins.imm))

pub family_parts :
    (start k : ℕ) (ins : Instr) (s : Emu)
    → opcode_family ins start k s
      ≡ and_then (family_code (perform (alu_case (start / 8))) k ins s s) (λ _. pure true)
unfolding opcode_family family_code ◌>>=◌
family_parts start k ins s = refl

module _ (ins : Instr) (s : Emu) (valid : IsValid s) (wide : ins.address_sz ≡ false) where
  pub r-Reads :
      (w : Width)
      → IsLow (r ins w)
      → Reads w (r ins w) (read_source w (at (x64modrm_get_reg ins))) s
  r-Reads w low = rw (r-place ins w low) (named-Reads w s (r ins w) valid (r-IsNamed ins w low))

  r_m-Reads :
      (w : Width)
      → IsLow (r_m ins w s)
      → Reads w (r_m ins w s) (read_source w (at (x64modrm_get_r_m ins s))) s
  r_m-Reads w low =
      rw (r_m-place ins w s valid wide low)
        (named-Reads w s (r_m ins w s) valid (r_m-IsNamed ins w s low))

  -- Whatever the operation is, a form with the operands of the instruction is performed.
  module _ (op : Mnemonic) (w : Width) (word : IsWord w) (exact : IsExact op s.flags) where
    unfoldable pub run : Place → M ℕ → Outcome Bool
    run dest src = and_then (and_then (src s) λ b. perform (operation op) w dest b) (λ _. pure true)

    pub r_m-Performs :
        (o : Operand) (src : M ℕ)
        → IsLow (r_m ins w s)
        → (flags_alone op ≡ false → IsClear w (r_m ins w s) s.regs)
        → Reads w o src s
        → Performs
            (record { op = op; width = w; dest = r_m ins w s; source = o })
            s
            (run (x64modrm_get_r_m ins s) src)
    unfolding run
    r_m-Performs o src low clear reads =
        rw (r_m-place ins w s valid wide low)
          (macro-Performs _ src s valid word (r_m-IsNamed ins w s low) reads clear exact)

    r-Performs :
        (o : Operand) (src : M ℕ)
        → IsLow (r ins w)
        → (flags_alone op ≡ false → IsClear w (r ins w) s.regs)
        → Reads w o src s
        → Performs
            (record { op = op; width = w; dest = r ins w; source = o })
            s
            (run (x64modrm_get_reg ins) src)
    unfolding run
    r-Performs o src low clear reads =
        rw (r-place ins w low)
          (macro-Performs _ src s valid word (r-IsNamed ins w low) reads clear exact)

  module _ (op : Mnemonic) (exact : IsExact op s.flags) where
    abbrev size : Width
    size = operand_size ins

    word : IsWord (operand_size ins)
    word = op_width-IsWord ins

    -- The six forms.
    pub family-Performs :
        (k : ℕ)
        → k ≤ 5
        → IsLow (family_form op k ins s).dest
        → IsLow (family_form op k ins s).source
        → (flags_alone op ≡ false
            → IsClear (family_form op k ins s).width (family_form op k ins s).dest s.regs)
        → Performs
            (family_form op k ins s)
            s
            (and_then (family_code (perform (operation op)) k ins s s) (λ _. pure true))
    unfolding family_form family_code run op2_fixed dest_op2 ◌>>=◌ s_64
    family-Performs zero le low low' clear =
        r_m-Performs op w8 tt exact (r ins w8) _ low clear (r-Reads w8 low')
    family-Performs (suc zero) le low low' clear =
        r_m-Performs op size word exact (r ins size) _ low clear (r-Reads size low')
    family-Performs (suc (suc zero)) le low low' clear =
        r-Performs op w8 tt exact (r_m ins w8 s) _ low clear (r_m-Reads w8 low')
    family-Performs (suc (suc (suc zero))) le low low' clear =
        r-Performs op size word exact (r_m ins size s) _ low clear (r_m-Reads size low')
    family-Performs (suc (suc (suc (suc zero)))) le low low' clear =
        macro-Performs _ _ s valid tt tt (byte-Reads s ins.imm) clear exact
    family-Performs (suc (suc (suc (suc (suc zero))))) le low low' clear =
        macro-Performs _ _ s valid word tt (wide-Reads s ins.imm size word) clear exact
    family-Performs (suc (suc (suc (suc (suc (suc k)))))) le low low' clear = absurd (omega arith)

-- The cases of `x64execute_80`, `x64execute_81` and `x64execute_83`, in the words of the forms.
module _ (ins : Instr) (s : Emu) where
  abbrev pub group : (Operation → M (Unit {0})) → Outcome Bool
  group body = and_then (body (operation (mnemonic (modrm_reg ins))) s) (λ _. pure true)

  pub parts_80 :
      x64execute_80 ins s
      ≡ group (λ op. op2_fixed (perform op) w8 (x64modrm_get_r_m ins s) (imm ins.imm))
  unfolding x64execute_80 ◌>>=◌
  parts_80 =
      ap
        (λ op.
          and_then (op2_fixed (perform op) w8 (x64modrm_get_r_m ins s) (imm ins.imm) s)
            (λ _. pure true))
        (alu_case-eq (modrm_reg ins))

  pub parts_81 :
      x64execute_81 ins s
      ≡ group (λ op. dest_op2 (perform op) ins (x64modrm_get_r_m ins s) (s_32 (imm ins.imm)))
  unfolding x64execute_81 ◌>>=◌
  parts_81 =
      ap
        (λ op.
          and_then (dest_op2 (perform op) ins (x64modrm_get_r_m ins s) (s_32 (imm ins.imm)) s)
            (λ _. pure true))
        (alu_case-eq (modrm_reg ins))

  pub parts_83 :
      x64execute_83 ins s
      ≡ group (λ op. dest_op2 (perform op) ins (x64modrm_get_r_m ins s) (s_8 (imm ins.imm)))
  unfolding x64execute_83 ◌>>=◌
  parts_83 =
      ap
        (λ op.
          and_then (dest_op2 (perform op) ins (x64modrm_get_r_m ins s) (s_8 (imm ins.imm)) s)
            (λ _. pure true))
        (alu_case-eq (modrm_reg ins))
