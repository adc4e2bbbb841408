-- ===== src/Isa/Others.antt =====
-- The cases of x64emu/execute.c for TEST, INC and DEC against the architecture.
use flux.Base.{
  ==_iff, ◌%◌, ◌^◌, ◌≡◌, refl, arith, Bool, true, false, ◌&&◌, leb, ◌==◌, if◌then◌else◌,
}
use flux.Word.{Width, w8, w16, w32, w64, w128, IsWord}
use flux.Machine.{Emu, ◌>>=◌, pure}
use flux.Machine.Valid.{IsValid}
use flux.Instr.{Instr, modrm_reg}
use flux.Context.{Os}
use flux.Execute.Operands.{imm, read_source, op2_fixed, dest_op2, s_32, s_64}
use flux.Execute.Low.{test_xchg_mov}
use flux.Execute.High.{test_acc}
use flux.Execute.Valid.Operands.{op_width-IsWord}
use flux.Isa.{Mnemonic, register, immediate}
use flux.Isa.Encoding.{other_form, r, r_m, operand_size, wide_immediate}
use flux.Isa.Macros.{Reads, constant-Reads, macro-Performs}
use flux.Isa.Families.{byte-Reads, wide-Reads, r-Reads, r_m-Performs, run}
use flux.Isa.Pieces.{
  execute_84, execute_85, execute_a8, execute_a9, execute_f6, execute_f7, execute_fe, execute_ff,
  parts_f6, parts_f7, parts_inc_8, parts_dec_8, parts_inc, parts_dec,
}
use flux.Isa.Claims.{Claim, Claims, Claims-none, Claims-some, Claims-if}

one-Reads : (w : Width) (s : Emu) → IsWord w → Reads w (immediate 1) (pure 1) s
unfolding pure
one-Reads w8 s word = constant-Reads w8 s 1 _ (omega arith) refl
one-Reads w16 s word = constant-Reads w16 s 1 _ (omega arith) refl
one-Reads w32 s word = constant-Reads w32 s 1 _ (omega arith) refl
one-Reads w64 s word = constant-Reads w64 s 1 _ (omega arith) refl
one-Reads w128 s word = absurd word

module _ (os : Os) (ins : Instr) (s : Emu) (valid : IsValid s) (wide : ins.address_sz ≡ false) where
  abbrev size : Width
  size = operand_size ins

  word : IsWord (operand_size ins)
  word = op_width-IsWord ins

  test_84-Claim :
      ins.opcode ≡ 0x84
      → Claim os ins s
          (record { op = Mnemonic.test; width = w8; dest = r_m ins w8 s; source = r ins w8 })
  unfolding run op2_fixed test_xchg_mov ◌>>=◌
  test_84-Claim h low low' clear exact = rw (execute_84 os ins h) (
      r_m-Performs ins s valid wide Mnemonic.test w8 tt exact (r ins w8) _ low clear
        (r-Reads ins s valid wide w8 low'))

  test_85-Claim :
      ins.opcode ≡ 0x85
      → Claim os ins s
          (record { op = Mnemonic.test; width = size; dest = r_m ins size s; source = r ins size })
  unfolding run dest_op2 s_64 test_xchg_mov ◌>>=◌
  test_85-Claim h low low' clear exact = rw (execute_85 os ins h) (
      r_m-Performs ins s valid wide Mnemonic.test size word exact (r ins size) _ low clear
        (r-Reads ins s valid wide size low'))

  test_a8-Claim :
      ins.opcode ≡ 0xA8
      → Claim os ins s (record {
        op = Mnemonic.test;
        width = w8;
        dest = register 0;
        source = immediate (ins.imm % 2 ^ 8);
      })
  unfolding op2_fixed test_acc ◌>>=◌
  test_a8-Claim h low low' clear exact =
      rw (execute_a8 os ins h) (macro-Performs _ _ s valid tt tt (byte-Reads s ins.imm) clear exact)

  test_a9-Claim :
      ins.opcode ≡ 0xA9
      → Claim os ins s (record {
        op = Mnemonic.test;
        width = size;
        dest = register 0;
        source = wide_immediate size ins.imm;
      })
  unfolding dest_op2 test_acc ◌>>=◌
  test_a9-Claim h low low' clear exact =
      rw (execute_a9 os ins h)
        (macro-Performs _ _ s valid word tt (wide-Reads s ins.imm size word) clear exact)

  test_f6-Claim :
      ins.opcode ≡ 0xF6
      → leb (modrm_reg ins) 1 ≡ true
      → Claim os ins s (record {
        op = Mnemonic.test;
        width = w8;
        dest = r_m ins w8 s;
        source = immediate (ins.imm % 2 ^ 8);
      })
  unfolding run op2_fixed ◌>>=◌
  test_f6-Claim h k low low' clear exact = rw (execute_f6 os ins h) (
      rw (parts_f6 ins s k) (
        r_m-Performs ins s valid wide Mnemonic.test w8 tt exact _ (read_source w8 (imm ins.imm)) low
          clear (byte-Reads s ins.imm)))

  test_f7-Claim :
      ins.opcode ≡ 0xF7
      → leb (modrm_reg ins) 1 ≡ true
      → Claim os ins s (record {
        op = Mnemonic.test;
        width = size;
        dest = r_m ins size s;
        source = wide_immediate size ins.imm;
      })
  unfolding run dest_op2 ◌>>=◌
  test_f7-Claim h k low low' clear exact = rw (execute_f7 os ins h) (
      rw (parts_f7 ins s k) (
        r_m-Performs ins s valid wide Mnemonic.test size word exact _ (s_32 (imm ins.imm) size) low
          clear (wide-Reads s ins.imm size word)))

  -- INC or DEC, by ModR/M.reg.
  abbrev step : Bool → Mnemonic
  step is_inc = if is_inc then Mnemonic.inc else Mnemonic.dec

  step_fe-Claim :
      (is_inc : Bool)
      → (modrm_reg ins == 0) ≡ is_inc
      → ins.opcode ≡ 0xFE
      → leb (modrm_reg ins) 1 ≡ true
      → Claim os ins s
          (record { op = step is_inc; width = w8; dest = r_m ins w8 s; source = immediate 1 })
  unfolding run pure
  step_fe-Claim true k h l low low' clear exact = rw (execute_fe os ins h) (
      rw (parts_inc_8 ins s k) (
        r_m-Performs ins s valid wide Mnemonic.inc w8 tt exact _ (pure 1) low clear
          (one-Reads w8 s tt)))
  step_fe-Claim false k h l low low' clear exact = rw (execute_fe os ins h) (
      rw (parts_dec_8 ins s k l) (
        r_m-Performs ins s valid wide Mnemonic.dec w8 tt exact _ (pure 1) low clear
          (one-Reads w8 s tt)))

  step_ff-Claim :
      (is_inc : Bool)
      → (modrm_reg ins == 0) ≡ is_inc
      → ins.opcode ≡ 0xFF
      → leb (modrm_reg ins) 1 ≡ true
      → Claim os ins s
          (record { op = step is_inc; width = size; dest = r_m ins size s; source = immediate 1 })
  unfolding run dest_op2 ◌>>=◌
  step_ff-Claim true k h l low low' clear exact = rw (execute_ff os ins h) (
      rw (parts_inc ins s k) (
        r_m-Performs ins s valid wide Mnemonic.inc size word exact _ (pure 1) low clear
          (one-Reads size s word)))
  step_ff-Claim false k h l low low' clear exact = rw (execute_ff os ins h) (
      rw (parts_dec ins s k l) (
        r_m-Performs ins s valid wide Mnemonic.dec size word exact _ (pure 1) low clear
          (one-Reads size s word)))

  both : {a b : Bool} → (a && b) ≡ true → (a ≡ true) × (b ≡ true)
  both {a = true} h = (refl, h)
  both {a = false} h = absurd (cc)

  pub other_form-Claim : Claims (Claim os ins s) (other_form ins s)
  unfolding other_form
  other_form-Claim =
      Claims-if _ (ins.opcode == 0x84) (λ h. Claims-some _ _ (test_84-Claim ((==_iff _ _).0 h)))
        (λ _.
          Claims-if _ (ins.opcode == 0x85) (λ h. Claims-some _ _ (test_85-Claim ((==_iff _ _).0 h)))
            (λ _.
              Claims-if _ (ins.opcode == 0xA8)
                (λ h. Claims-some _ _ (test_a8-Claim ((==_iff _ _).0 h)))
                (λ _.
                  Claims-if _ (ins.opcode == 0xA9)
                    (λ h. Claims-some _ _ (test_a9-Claim ((==_iff _ _).0 h)))
                    (λ _.
                      Claims-if _ (ins.opcode == 0xF6 && leb (modrm_reg ins) 1)
                        (λ h.
                          let (op, reg) = both h in
                          Claims-some _ _ (test_f6-Claim ((==_iff _ _).0 op) reg))
                        (λ _.
                          Claims-if _ (ins.opcode == 0xF7 && leb (modrm_reg ins) 1)
                            (λ h.
                              let (op, reg) = both h in
                              Claims-some _ _ (test_f7-Claim ((==_iff _ _).0 op) reg))
                            (λ _.
                              Claims-if _ (ins.opcode == 0xFE && leb (modrm_reg ins) 1)
                                (λ h.
                                  let (op, reg) = both h in
                                  Claims-some _ _ (step_fe-Claim _ refl ((==_iff _ _).0 op) reg))
                                (λ _.
                                  Claims-if _ (ins.opcode == 0xFF && leb (modrm_reg ins) 1)
                                    (λ h.
                                      let (op, reg) = both h in
                                      Claims-some _ _
                                        (step_ff-Claim _ refl ((==_iff _ _).0 op) reg))
                                    (λ _. Claims-none _))))))))
