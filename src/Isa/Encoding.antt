-- ===== src/Isa/Encoding.antt =====
-- How the architecture encodes the instructions: the operands that the bytes name.
use flux.Base.{
  ℕ, ◌+◌, ◌-◌, ◌*◌, ◌/◌, ◌%◌, ◌^◌, not, ◌&&◌, ◌||◌, leb, ◌==◌, if◌then◌else◌, in_range, Option,
  none, some,
}
use flux.Word.{Width, w8, w16, w32, w64, modulus, half}
use flux.Machine.{Emu}
use flux.Instr.{
  Instr, rex_b, rex_x, rex_r, rex_w, sib_base, sib_index, sib_scale, modrm_rm, modrm_reg, modrm_mod,
}
use flux.Isa.{Mnemonic, mnemonic, Operand, register, high_byte, memory, immediate, Form}

-- A number of `w` bits from `b` bits, by its sign.
abbrev pub extended : Width → Width → ℕ → ℕ
extended b w v = let x = v % modulus b in if leb (half b) x then x + (modulus w - modulus b) else x

-- Without a REX prefix the byte registers 4 to 7 are AH, CH, DH and BH.
abbrev pub named : Instr → Width → ℕ → Operand
named ins w8 n = if ins.rex == 0 && in_range 4 7 n then high_byte (n - 4) else register n
named ins w n = register n

-- The address of a memory operand: base, scaled index, and displacement.
abbrev pub base : Instr → Emu → ℕ
base ins s =
    if modrm_rm ins == 4
    then (if modrm_mod ins == 0 && sib_base ins == 5
        then 0
        else s.regs (sib_base ins + 8 * rex_b ins))
    else if modrm_mod ins == 0 && modrm_rm ins == 5
    then s.rip
    else s.regs (modrm_rm ins + 8 * rex_b ins)

abbrev pub index : Instr → Emu → ℕ
index ins s =
    let i = sib_index ins + 8 * rex_x ins in
    if not (modrm_rm ins == 4) || i == 4 then 0 else s.regs i * 2 ^ sib_scale ins

abbrev pub displacement : Instr → ℕ
displacement ins =
    if modrm_mod ins == 1
    then extended w8 w64 ins.displ
    else if modrm_mod ins == 2 || modrm_rm ins == 5 || modrm_rm ins == 4 && sib_base ins == 5
    then extended w32 w64 ins.displ
    else 0

unfoldable pub effective_address : Instr → Emu → ℕ
effective_address ins s = (base ins s + index ins s + displacement ins) % 2 ^ 64

abbrev pub r_m : Instr → Width → Emu → Operand
r_m ins w s =
    if modrm_mod ins == 3
    then named ins w (modrm_rm ins + 8 * rex_b ins)
    else memory (effective_address ins s)

abbrev pub r : Instr → Width → Operand
r ins w = named ins w (modrm_reg ins + 8 * rex_r ins)

abbrev pub operand_size : Instr → Width
operand_size ins = if rex_w ins then w64 else if ins.operand_sz then w16 else w32

-- An immediate of 16 or 32 bits, and of 32 bits with its sign for 64.
abbrev pub wide_immediate : Width → ℕ → Operand
wide_immediate w64 v = immediate (extended w32 w64 v)
wide_immediate w v = immediate (v % modulus w)

-- The six forms of a mnemonic in the opcodes up to 3D.
unfoldable pub family_form : Mnemonic → ℕ → Instr → Emu → Form
family_form op k ins s =
    let w = operand_size ins in
    if k == 0
    then record { op = op; width = w8; dest = r_m ins w8 s; source = r ins w8 }
    else if k == 1
    then record { op = op; width = w; dest = r_m ins w s; source = r ins w }
    else if k == 2
    then record { op = op; width = w8; dest = r ins w8; source = r_m ins w8 s }
    else if k == 3
    then record { op = op; width = w; dest = r ins w; source = r_m ins w s }
    else if k == 4
    then record { op = op; width = w8; dest = register 0; source = immediate (ins.imm % 2 ^ 8) }
    else record { op = op; width = w; dest = register 0; source = wide_immediate w ins.imm }

-- TEST, INC and DEC.
unfoldable pub other_form : Instr → Emu → Option Form
other_form ins s =
    let w = operand_size ins in
    let op = if modrm_reg ins == 0 then Mnemonic.inc else Mnemonic.dec in
    if ins.opcode == 0x84
    then some (record { op = Mnemonic.test; width = w8; dest = r_m ins w8 s; source = r ins w8 })
    else if ins.opcode == 0x85
    then some (record { op = Mnemonic.test; width = w; dest = r_m ins w s; source = r ins w })
    else if ins.opcode == 0xA8
    then some (record {
      op = Mnemonic.test;
      width = w8;
      dest = register 0;
      source = immediate (ins.imm % 2 ^ 8);
    })
    else if ins.opcode == 0xA9
    then some (record {
      op = Mnemonic.test;
      width = w;
      dest = register 0;
      source = wide_immediate w ins.imm;
    })
    else if ins.opcode == 0xF6 && leb (modrm_reg ins) 1
    then some (record {
      op = Mnemonic.test;
      width = w8;
      dest = r_m ins w8 s;
      source = immediate (ins.imm % 2 ^ 8);
    })
    else if ins.opcode == 0xF7 && leb (modrm_reg ins) 1
    then some (record {
      op = Mnemonic.test;
      width = w;
      dest = r_m ins w s;
      source = wide_immediate w ins.imm;
    })
    else if ins.opcode == 0xFE && leb (modrm_reg ins) 1
    then some (record { op = op; width = w8; dest = r_m ins w8 s; source = immediate 1 })
    else if ins.opcode == 0xFF && leb (modrm_reg ins) 1
    then some (record { op = op; width = w; dest = r_m ins w s; source = immediate 1 })
    else none

unfoldable pub form : Instr → Emu → Option Form
unfolding mnemonic family_form other_form
form ins s =
    let w = operand_size ins in
    let op = mnemonic (modrm_reg ins) in
    if leb ins.opcode 0x3D && leb (ins.opcode % 8) 5
    then some (family_form (mnemonic (ins.opcode / 8)) (ins.opcode % 8) ins s)
    else if ins.opcode == 0x80
    then some
        (record { op = op; width = w8; dest = r_m ins w8 s; source = immediate (ins.imm % 2 ^ 8) })
    else if ins.opcode == 0x81
    then some (record { op = op; width = w; dest = r_m ins w s; source = wide_immediate w ins.imm })
    else if ins.opcode == 0x83
    then some (record {
      op = op;
      width = w;
      dest = r_m ins w s;
      source = immediate (extended w8 w ins.imm);
    })
    else other_form ins s
