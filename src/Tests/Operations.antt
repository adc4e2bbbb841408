-- ===== src/Tests/Operations.antt =====
-- The operations of the arithmetic unit on concrete words.
use flux.Base.{
  ◌^◌, [], refl, ℕ, ◌+◌, ◌-◌, ◌*◌, ◌%◌, ◌<◌, ◌≡◌, ◌≢◌, not, ltb, leb, ◌==◌, if◌then◌else◌, some,
  arith, get_bit,
}
use flux.Word.{w8, w16, modulus, bits}
use flux.Word.Signed.{signed, ltb_ℤ, leb_ℤ, ◌+ℤ◌, ◌-ℤ◌}
use flux.Machine.Flags.{parity, carry, overflow, flag}
use flux.Alu.{
  set_result_flags, flags_after, op_s_add, op_s_sub, op_s_cmp, op_s_inc, op_s_dec, op_s_adc,
  op_s_sbb,
}
use flux.Alu.Compare.{cmp_conditions}
use flux.Alu.Overflow.{in_signed_range, add_flags, sub_flags}
use flux.Alu.Carry.{written, inc_dec_keep_carry, adc_sbb_lose_carry}
use flux.Cond.{x64execute_jmp_cond}
use flux.Cond.Laws.{jmp_cond-odd}
use flux.Shift.{shift_count, op_rol, op_ror, op_shl, op_shr}
use flux.Shift.Rotate.{ror-rol, rol_bits}
use flux.Alu.Parity.{ones, set_result_flags-parity}
use flux.Instr.{Instr, blank}
use flux.Modrm.{
  gpr, x64modrm_get_reg, x64modrm_get_xmm, x64modrm_get_mmx, x64modrm_get_r_m, x64modrm_get_xmm_m,
  x64modrm_get_mmx_m,
}
use flux.Modrm.Bounds.{IsInFile, operand-IsInFile}
use flux.Execute.Low.{opcode_reg}
use flux.Tests.State.{machine, plain_regs}
use flux.Shift.Laws.{shift_bits, shift_carry_out}

cmp_conditions_example :
    let f = flags_after (op_s_cmp w8 0x80 1 0) 0 in
    (x64execute_jmp_cond 0x2 f ≡ ltb 0x80 1)
    × (x64execute_jmp_cond 0x6 f ≡ leb 0x80 1)
    × (x64execute_jmp_cond 0x4 f ≡ (0x80 == 1))
    × (x64execute_jmp_cond 0xC f ≡ ltb_ℤ (signed w8 0x80) (signed w8 1))
    × (x64execute_jmp_cond 0xE f ≡ leb_ℤ (signed w8 0x80) (signed w8 1))
cmp_conditions_example = cmp_conditions w8 0x80 1 0 tt (omega arith) (omega arith)

add_flags_example :
    (flag carry (flags_after (op_s_add w16 0x7FFF 1 0) 0) ≡ leb (modulus w16) (0x7FFF + 1))
    × (flag overflow (flags_after (op_s_add w16 0x7FFF 1 0) 0)
        ≡ not (in_signed_range w16 (signed w16 0x7FFF +ℤ signed w16 1)))
add_flags_example = add_flags w16 0x7FFF 1 0 tt (omega arith) (omega arith)

sub_flags_example :
    (flag carry (flags_after (op_s_sub w8 0x80 1 0) 0) ≡ ltb 0x80 1)
    × (flag overflow (flags_after (op_s_sub w8 0x80 1 0) 0)
        ≡ not (in_signed_range w8 (signed w8 0x80 -ℤ signed w8 1)))
sub_flags_example = sub_flags w8 0x80 1 0 tt (omega arith) (omega arith)

inc_dec_keep_carry_example :
    (flag carry (flags_after (op_s_inc w8 0xFF 1 1) 1) ≡ flag carry 1)
    × (flag carry (flags_after (op_s_dec w8 0xFF 1 1) 1) ≡ flag carry 1)
    × (written (op_s_inc w8 0xFF 1 1) ≡ written (op_s_add w8 0xFF 1 1))
    × (written (op_s_dec w8 0xFF 1 1) ≡ written (op_s_sub w8 0xFF 1 1))
inc_dec_keep_carry_example = inc_dec_keep_carry w8 0xFF 1 1

adc_sbb_lose_carry_example :
    (written (op_s_adc w8 1 1 1) ≡ written (op_s_add w8 1 1 1))
    × (written (op_s_sbb w8 1 1 1) ≡ written (op_s_sub w8 1 1 1))
    × (written (op_s_adc w8 1 1 1) ≢ some ((1 + 1 + 1) % modulus w8))
    × (written (op_s_sbb w8 1 1 1) ≢ some ((1 + 2 * modulus w8 - 1 - 1) % modulus w8))
adc_sbb_lose_carry_example = adc_sbb_lose_carry w8 1 1 1 tt (omega arith)

jmp_cond-odd_example : x64execute_jmp_cond (2 * 7 + 1) 0x80 ≡ not (x64execute_jmp_cond (2 * 7) 0x80)
jmp_cond-odd_example = jmp_cond-odd 7 0x80

three : 0 < shift_count w8 3
unfolding shift_count
three = omega arith

ror-rol_example :
    (r : ℕ) × (written (op_rol w8 0xC1 3 0) ≡ some r) × (written (op_ror w8 r 3 0x246) ≡ some 0xC1)
ror-rol_example = ror-rol w8 0xC1 3 0 0x246 (omega arith) three

rol_bits_example :
    (r : ℕ) × (written (op_rol w8 0xC1 3 0) ≡ some r)
    × (get_bit 1 r ≡ get_bit ((1 + bits w8 - shift_count w8 3) % bits w8) 0xC1)
    × (flag carry (flags_after (op_rol w8 0xC1 3 0) 0) ≡ (get_bit 0 r == 1))
rol_bits_example = rol_bits w8 0xC1 3 0 (omega arith) 1 (omega arith) three

shift_bits_example :
    (l r : ℕ) × (written (op_shl w8 0xC1 3 0) ≡ some l)
    × (written (op_shr w8 0xC1 3 0) ≡ some r)
    × (get_bit 4 l ≡ (if ltb 4 (shift_count w8 3) then 0 else get_bit (4 - shift_count w8 3) 0xC1))
    × (get_bit 4 r ≡ get_bit (4 + shift_count w8 3) 0xC1)
shift_bits_example = shift_bits w8 0xC1 3 0 4 (omega arith)

shift_carry_out_example :
    (flag carry (flags_after (op_shl w8 0xC1 3 0) 0)
      ≡ (get_bit (bits w8 - shift_count w8 3) 0xC1 == 1))
    × (flag carry (flags_after (op_shr w8 0xC1 3 0) 0) ≡ (get_bit (shift_count w8 3 - 1) 0xC1 == 1))
shift_carry_out_example = shift_carry_out w8 0xC1 3 0 three

eight : shift_count w8 8 ≡ 0
unfolding shift_count
eight = refl

set_result_flags-parity_example :
    flag parity (set_result_flags w16 0x0103 0) ≡ (ones 8 (0x0103 % 2 ^ 8) % 2 == 0)
set_result_flags-parity_example = set_result_flags-parity w16 0x0103 0

-- REX.RB with the operands R15 and R12.
abbrev high_registers : Instr
high_registers = record blank { rex = 0x45; modrm = 0xFC }

operand-IsInFile_example :
    IsInFile (x64modrm_get_reg high_registers)
    × IsInFile (x64modrm_get_xmm high_registers)
    × IsInFile (x64modrm_get_mmx high_registers)
    × IsInFile (x64modrm_get_r_m high_registers (machine [] plain_regs))
    × IsInFile (x64modrm_get_xmm_m high_registers (machine [] plain_regs))
    × IsInFile (x64modrm_get_mmx_m high_registers (machine [] plain_regs))
    × IsInFile (gpr (opcode_reg high_registers 0x57))
operand-IsInFile_example = operand-IsInFile high_registers 0x57 (machine [] plain_regs)
