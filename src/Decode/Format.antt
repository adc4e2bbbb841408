-- ===== src/Decode/Format.antt =====
-- The format of an instruction: legacy prefixes, REX, one or two bytes of opcode, ModR/M with SIB and
-- displacement, and an immediate. The decoder (x64emu/decode.c, decode_0f.c,
-- modrm.c) is held to it, and none of its definitions is used here.
use flux.Base.{
  ℕ, ◌+◌, ◌*◌, ◌/◌, ◌%◌, ◌<◌, ◌≡◌, Bool, true, false, not, ◌&&◌, ◌||◌, leb, ◌==◌, if◌then◌else◌,
  in_range, Option, none, some, List, [], ◌∷◌, ◌++◌,
}
use flux.Machine.{Mem}
use flux.Instr.{Instr, blank, rex_w, modrm_reg}
use flux.Decode.Opcodes.{Layout, mr, ib, iw, iz, iv, jz, mb, mz, tb, tz, layout_1, layout_2}

-- The bytes lie at `a`, and can be read.
abbrev pub CodeAt : Mem → ℕ → List ℕ → Type 0
CodeAt mem a [] = Unit
CodeAt mem a (b ∷ bs) = (mem.byte a ≡ b) × (mem.readable a ≡ true) × CodeAt mem (a + 1) bs

-- A number from its bytes, the least significant first.
abbrev pub number : List ℕ → ℕ
number [] = 0
number (b ∷ bs) = b + 256 * number bs

abbrev pub AreBytes : List ℕ → Type 0
AreBytes [] = Unit
AreBytes (b ∷ bs) = (b < 256) × AreBytes bs

-- The prefixes that the decoder takes: of segments, of the sizes, and of repetition.
pub data Legacy : Type 0 where
  es cs ss ds operand_size address_size repne rep : Legacy

abbrev pub legacy_byte : Legacy → ℕ
legacy_byte es = 0x26
legacy_byte cs = 0x2E
legacy_byte ss = 0x36
legacy_byte ds = 0x3E
legacy_byte operand_size = 0x66
legacy_byte address_size = 0x67
legacy_byte repne = 0xF2
legacy_byte Legacy.rep = 0xF3

abbrev pub with_legacy : Legacy → Instr → Instr
with_legacy operand_size ins = record ins { operand_sz = true }
with_legacy address_size ins = record ins { address_sz = true }
with_legacy repne ins = record ins { rep = 0xF2 }
with_legacy Legacy.rep ins = record ins { rep = 0xF3 }
with_legacy _ ins = ins

abbrev pub legacy_bytes : List Legacy → List ℕ
legacy_bytes [] = []
legacy_bytes (p ∷ ps) = legacy_byte p ∷ legacy_bytes ps

-- The prefixes take effect in their order.
abbrev pub with_prefixes : List Legacy → Instr → Instr
with_prefixes [] ins = ins
with_prefixes (p ∷ ps) ins = with_prefixes ps (with_legacy p ins)

-- A byte that begins an opcode: no prefix of any kind.
abbrev pub is_opcode : ℕ → Bool
is_opcode b = not (
    in_range 0x40 0x4F b
    || b == 0x26
    || b == 0x2E
    || b == 0x36
    || b == 0x3E
    || in_range 0x64 0x67 b
    || b == 0xF0
    || in_range 0xF2 0xF3 b)

pub data Opcode : Type 0 where
  one_byte : ℕ → Opcode
  two_byte : ℕ → Opcode

pub record Encoding : Type 0 where
  pub prefixes : List Legacy
  pub rex : Option ℕ
  pub opcode : Opcode
  pub modrm : ℕ
  pub sib : List ℕ
  pub displ : List ℕ
  pub imm : List ℕ

-- What follows the opcode.
abbrev pub layout_of : Opcode → Layout
layout_of (one_byte op) = layout_1 op
layout_of (two_byte op) = layout_2 op

abbrev pub has_modrm : Layout → Bool
has_modrm mr = true
has_modrm mb = true
has_modrm mz = true
has_modrm tb = true
has_modrm tz = true
has_modrm _ = false

-- A SIB byte follows ModR/M where R/M is 4 and Mod no register; the displacement has 1 or 4 bytes by
-- Mod, and 4 where an address has no base.
abbrev pub sib_length : ℕ → ℕ
sib_length modrm = if not (modrm / 64 % 4 == 3) && modrm % 8 == 4 then 1 else 0

abbrev pub displ_length : ℕ → ℕ → ℕ
displ_length modrm sib =
    if modrm / 64 % 4 == 1
    then 1
    else if modrm / 64 % 4 == 2
    then 4
    else if modrm / 64 % 4 == 0 && (modrm % 8 == 5 || modrm % 8 == 4 && sib % 8 == 5)
    then 4
    else 0

-- REX.W takes precedence over the operand-size prefix.
abbrev pub wide_length : Instr → ℕ
wide_length ins = if ins.operand_sz && not (rex_w ins) then 2 else 4

abbrev pub imm_length : Layout → Instr → ℕ
imm_length ib ins = 1
imm_length iw ins = 2
imm_length iz ins = wide_length ins
imm_length iv ins = if rex_w ins then 8 else if ins.operand_sz then 2 else 4
imm_length jz ins = 4
imm_length mb ins = 1
imm_length mz ins = wide_length ins
imm_length tb ins = if leb (modrm_reg ins) 1 then 1 else 0
imm_length tz ins = if leb (modrm_reg ins) 1 then wide_length ins else 0
imm_length _ ins = 0

abbrev pub rex_bytes : Option ℕ → List ℕ
rex_bytes none = []
rex_bytes (some b) = b ∷ []

abbrev pub opcode_bytes : Opcode → List ℕ
opcode_bytes (one_byte op) = op ∷ []
opcode_bytes (two_byte op) = 0x0F ∷ op ∷ []

abbrev pub modrm_bytes : Encoding → List ℕ
modrm_bytes e = if has_modrm (layout_of e.opcode) then e.modrm ∷ (e.sib ++ e.displ) else []

abbrev pub encode : Encoding → List ℕ
encode e =
    legacy_bytes e.prefixes
    ++ (rex_bytes e.rex ++ (opcode_bytes e.opcode ++ (modrm_bytes e ++ e.imm)))

-- The fields that the bytes stand for.
abbrev pub with_rex : Option ℕ → Instr → Instr
with_rex none ins = ins
with_rex (some b) ins = record ins { rex = b }

abbrev pub with_opcode : Opcode → Instr → Instr
with_opcode (one_byte op) ins = record ins { opcode = op }
with_opcode (two_byte op) ins = record ins { opcode = 0x0F; opcode_0f = op }

abbrev pub with_modrm : Encoding → Instr → Instr
with_modrm e ins =
    if has_modrm (layout_of e.opcode)
    then record ins { modrm = e.modrm; sib = number e.sib; displ = number e.displ }
    else ins

abbrev pub header : Encoding → Instr
header e = with_modrm e (with_opcode e.opcode (with_rex e.rex (with_prefixes e.prefixes blank)))

abbrev pub fields : Encoding → Instr
fields e = record (header e) { imm = number e.imm }
