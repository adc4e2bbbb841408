-- ===== src/Isa/Refines.antt =====
-- The instructions of x64emu/execute.c that the opcode families and the groups 80, 81 and 83 make,
-- against the architecture.
use flux.Base.{==_iff, ℕ, ◌*◌, ◌/◌, ◌%◌, ◌^◌, ◌≡◌, arith, true, false, ◌&&◌, leb, ◌==◌, some}
use flux.Word.{w8}
use flux.Machine.{Emu, ◌>>=◌}
use flux.Machine.Valid.{IsValid}
use flux.Instr.{Instr, modrm_reg}
use flux.Context.{Os}
use flux.Execute.{x64execute}
use flux.Execute.Operands.{imm, read_source, op2_fixed, dest_op2, s_8, s_32}
use flux.Execute.Valid.Operands.{op_width-IsWord}
use flux.Isa.{Mnemonic, mnemonic, immediate, Form}
use flux.Isa.Encoding.{form, family_form, r_m, operand_size, wide_immediate, extended}
use flux.Isa.Meaning.{flags_alone, Performs}
use flux.Isa.Arithmetic.{IsExact}
use flux.Isa.Performs.{IsClear}
use flux.Isa.Operands.{IsLow}
use flux.Isa.Families.{
  byte-Reads, wide-Reads, signed_byte-Reads, family_parts, r_m-Performs, family-Performs, parts_80,
  parts_81, parts_83, run,
}
use flux.Isa.Claims.{Claim, Claims, Claims-if, Claims-some}
use flux.Isa.Others.{other_form-Claim}
use flux.Isa.Macros.{alu_case-eq, execute_family, execute_80, execute_81, execute_83}

family_form-op : (op : Mnemonic) (k : ℕ) (ins : Instr) (s : Emu) → (family_form op k ins s).op ≡ op
unfolding family_form
family_form-op op k ins s = ground arith

module _ (os : Os) (ins : Instr) (s : Emu) (valid : IsValid s) (wide : ins.address_sz ≡ false) where
  family-Claim :
      (leb ins.opcode 0x3D && leb (ins.opcode % 8) 5) ≡ true
      → Claim os ins s (family_form (mnemonic (ins.opcode / 8)) (ins.opcode % 8) ins s)
  family-Claim h low low' clear exact = rw (execute_family os ins h) (
      rw
        (
          family_parts (ins.opcode / 8 * 8) (ins.opcode % 8) ins s,
          start,
          alu_case-eq (ins.opcode / 8),
        )
        (family-Performs ins s valid wide family (rw named at exact) (ins.opcode % 8) (ground arith)
          low low' (rw named at clear)))
    where
      family : Mnemonic
      family = mnemonic (ins.opcode / 8)

      start : ins.opcode / 8 * 8 / 8 ≡ ins.opcode / 8
      start = omega arith

      named : (family_form family (ins.opcode % 8) ins s).op ≡ family
      named = family_form-op family (ins.opcode % 8) ins s

  abbrev op : Mnemonic
  op = mnemonic (modrm_reg ins)

  group_80-Claim :
      ins.opcode ≡ 0x80
      → Claim os ins s (record {
        op = op;
        width = w8;
        dest = r_m ins w8 s;
        source = immediate (ins.imm % 2 ^ 8);
      })
  unfolding run op2_fixed ◌>>=◌
  group_80-Claim h low low' clear exact = rw (execute_80 os ins h) (
      rw (parts_80 ins s) (
        r_m-Performs ins s valid wide op w8 tt exact _ (read_source w8 (imm ins.imm)) low clear
          (byte-Reads s ins.imm)))

  group_81-Claim :
      ins.opcode ≡ 0x81
      → Claim os ins s (record {
        op = op;
        width = operand_size ins;
        dest = r_m ins (operand_size ins) s;
        source = wide_immediate (operand_size ins) ins.imm;
      })
  unfolding run dest_op2 ◌>>=◌
  group_81-Claim h low low' clear exact = rw (execute_81 os ins h) (
      rw (parts_81 ins s) (
        r_m-Performs ins s valid wide op (operand_size ins) (op_width-IsWord ins) exact _
          (s_32 (imm ins.imm) (operand_size ins)) low clear
          (wide-Reads s ins.imm (operand_size ins) (op_width-IsWord ins))))

  group_83-Claim :
      ins.opcode ≡ 0x83
      → Claim os ins s (record {
        op = op;
        width = operand_size ins;
        dest = r_m ins (operand_size ins) s;
        source = immediate (extended w8 (operand_size ins) ins.imm);
      })
  unfolding run dest_op2 ◌>>=◌
  group_83-Claim h low low' clear exact = rw (execute_83 os ins h) (
      rw (parts_83 ins s) (
        r_m-Performs ins s valid wide op (operand_size ins) (op_width-IsWord ins) exact _
          (s_8 (imm ins.imm) (operand_size ins)) low clear
          (signed_byte-Reads s ins.imm (operand_size ins) (op_width-IsWord ins))))

  form-Claim : Claims (Claim os ins s) (form ins s)
  unfolding form
  form-Claim =
      Claims-if _ (leb ins.opcode 0x3D && leb (ins.opcode % 8) 5)
        (λ h. Claims-some _ _ (family-Claim h))
        (λ _.
          Claims-if _ (ins.opcode == 0x80)
            (λ h. Claims-some _ _ (group_80-Claim ((==_iff _ _).0 h)))
            (λ _.
              Claims-if _ (ins.opcode == 0x81)
                (λ h. Claims-some _ _ (group_81-Claim ((==_iff _ _).0 h)))
                (λ _.
                  Claims-if _ (ins.opcode == 0x83)
                    (λ h. Claims-some _ _ (group_83-Claim ((==_iff _ _).0 h)))
                    (λ _. other_form-Claim os ins s valid wide))))

-- An instruction of ADD, OR, ADC, SBB, AND, SUB, XOR or CMP in the opcodes 00 to 3D, 80, 81 and 83,
-- of TEST in 84, 85, A8, A9, F6 and F7, or of INC or DEC in FE and FF does what the architecture
-- asks: if an operand cannot be read, x64execute faults; otherwise it writes the result of the
-- operation to the destination (CMP and TEST write none), leaves CF, OF, ZF, SF, PF and the other
-- flags as the manual defines them, AF apart, and returns true, or faults where the destination
-- cannot be written. The state is well-formed, there is no address-size prefix, no operand is one
-- of AH, CH, DH and BH, a 32-bit destination register has a clear upper half unless the instruction
-- is CMP or TEST, and ADC and SBB find CF and OF clear.
pub x64execute-Performs :
    (os : Os) (ins : Instr) (s : Emu) (f : Form)
    → form ins s ≡ some f
    → IsValid s
    → ins.address_sz ≡ false
    → IsLow f.dest
    → IsLow f.source
    → (flags_alone f.op ≡ false → IsClear f.width f.dest s.regs)
    → IsExact f.op s.flags
    → Performs f s (x64execute os ins s)
x64execute-Performs os ins s f e valid wide = form-Claim os ins s valid wide f e
