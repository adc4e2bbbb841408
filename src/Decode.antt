-- ===== src/Decode.antt =====
-- x64emu/decode.c and x64emu/decode_0f.c: the bytes of an instruction to the fields of `Instr`.
-- A function with a `bool` result returns it beside the instruction that it filled in.
pub mod Keeps
pub mod Frame
pub mod Fuel
pub mod Opcodes
pub mod Format
pub mod Agreement
pub mod Reads
pub mod Parts
pub mod Roundtrip
use flux.Base.{ℕ, zero, suc, ◌%◌, Bool, true, false, ◌&&◌, ◌||◌, leb, ◌==◌, if◌then◌else◌, in_range}
use flux.Word.{Width, w8, w16, w32, w64, set_lane}
use flux.Machine.{M, ◌>>=◌, pure, undefined}
use flux.Instr.{Instr, rex_w, modrm_reg, fetch}
use flux.Modrm.{x64modrm_fetch}

-- What a pass of the prefix loop does with a byte: go on, or leave with an opcode byte. The fetch
-- behind REX is the caller's.
pub data Pass : Type 0 where
  again : Instr → Pass
  rex_then_fetch : Instr → Pass
  leave : ℕ → Pass

unfoldable pub prefix : ℕ → Instr → Pass
prefix byte ins =
    if in_range 0x40 0x4F byte
    then rex_then_fetch (record ins { rex = byte })
    else if byte == 0x26 || byte == 0x2E || byte == 0x36 || byte == 0x3E
    then again ins
    else if byte == 0x64 || byte == 0x65
    then leave 6
    else if byte == 0x66
    then again (record ins { operand_sz = true })
    else if byte == 0x67
    then again (record ins { address_sz = true })
    else if byte == 0xF0
    then leave 6
    else if byte == 0xF2 || byte == 0xF3
    then again (record ins { rep = byte })
    else leave byte

-- `decode_prefixes`. The loop is on fuel: without any, its result is not defined.
unfoldable pub decode_prefixes : ℕ → Instr → M (ℕ × Instr)
unfolding prefix
decode_prefixes zero ins = undefined
decode_prefixes (suc fuel) ins = do
  byte ← fetch w8
  elim (prefix byte ins) [
    | again ins' ↦ decode_prefixes fuel ins'
    | rex_then_fetch ins' ↦ (do b ← fetch w8; pure (b, ins'))
    | leave b ↦ pure (b, ins)
  ]

-- The macros of x64emu/decode_private.h.
unfoldable pub fetch_imm : Width → Instr → M Instr
fetch_imm w ins = do v ← fetch w; pure (record ins { imm = set_lane w 0 v ins.imm })

unfoldable pub fetch_imm_16_32 : Instr → M Instr
unfolding fetch_imm
fetch_imm_16_32 ins = if ins.operand_sz then fetch_imm w16 ins else fetch_imm w32 ins

unfoldable pub fetch_imm_16_32_64 : Instr → M Instr
unfolding fetch_imm
fetch_imm_16_32_64 ins =
    if rex_w ins
    then fetch_imm w64 ins
    else if ins.operand_sz
    then fetch_imm w16 ins
    else fetch_imm w32 ins

-- What follows an opcode, the cases of both switches.
pub data Operands : Type 0 where
  no_operands : Operands
  modrm_only : Operands
  imm_8 imm_16 imm_32 imm_16_32 imm_16_32_64 : Operands
  modrm_imm_8 modrm_imm_16_32 : Operands
  modrm_test_8 modrm_test_16_32 : Operands
  unhandled : Operands

-- The cases from B0 on.
unfoldable pub operands_high : ℕ → Operands
operands_high op =
    if in_range 0xB0 0xB7 op
    then imm_8
    else if in_range 0xB8 0xBF op
    then imm_16_32_64
    else if in_range 0xC0 0xC1 op
    then modrm_imm_8
    else if op == 0xC2
    then imm_16
    else if op == 0xC3
    then no_operands
    else if op == 0xC6
    then modrm_imm_8
    else if op == 0xC7
    then modrm_imm_16_32
    else if op == 0xC9
    then no_operands
    else if in_range 0xD0 0xD3 op
    then modrm_only
    else if in_range 0xE8 0xE9 op
    then imm_32
    else if op == 0xEB
    then imm_8
    else if op == 0xF5
    then no_operands
    else if op == 0xF6
    then modrm_test_8
    else if op == 0xF7
    then modrm_test_16_32
    else if in_range 0xF8 0xFD op
    then no_operands
    else if in_range 0xFE 0xFF op
    then modrm_only
    else unhandled

-- The cases of the switch in `x64decode` up to AB, the two-byte opcodes apart.
unfoldable pub operands : ℕ → Operands
unfolding operands_high
operands op =
    if leb op 0x3D && leb (op % 8) 3
    then modrm_only
    else if leb op 0x3D && op % 8 == 4
    then imm_8
    else if leb op 0x3D && op % 8 == 5
    then imm_16_32
    else if in_range 0x50 0x5F op
    then no_operands
    else if op == 0x63
    then modrm_only
    else if op == 0x68
    then imm_16_32
    else if op == 0x6A
    then imm_8
    else if in_range 0x70 0x7F op
    then imm_8
    else if op == 0x80
    then modrm_imm_8
    else if op == 0x81
    then modrm_imm_16_32
    else if op == 0x83
    then modrm_imm_8
    else if in_range 0x84 0x8B op
    then modrm_only
    else if op == 0x8D || op == 0x8F
    then modrm_only
    else if in_range 0x90 0x99 op
    then no_operands
    else if in_range 0x9C 0x9F op
    then no_operands
    else if op == 0xA8
    then imm_8
    else if op == 0xA9
    then imm_16_32
    else if in_range 0xAA 0xAB op
    then no_operands
    else operands_high op

-- The cases of the switch in `x64decode_0f`.
unfoldable pub operands_0f : ℕ → Operands
operands_0f op =
    if op == 0x05
    then no_operands
    else if op == 0x0D
    then modrm_only
    else if in_range 0x10 0x1F op
    then modrm_only
    else if in_range 0x28 0x2F op
    then modrm_only
    else if in_range 0x40 0x6F op
    then modrm_only
    else if in_range 0x70 0x73 op
    then modrm_imm_8
    else if in_range 0x74 0x76 op
    then modrm_only
    else if in_range 0x7C 0x7F op
    then modrm_only
    else if in_range 0x80 0x8F op
    then imm_16_32
    else if in_range 0x90 0x9F op
    then modrm_only
    else if op == 0xA2
    then no_operands
    else if in_range 0xB6 0xB7 op
    then modrm_only
    else unhandled

-- The body of a case. With its result `false` the switch has logged an unhandled opcode.
unfoldable pub fetch_operands : Operands → Instr → M (Bool × Instr)
unfolding x64modrm_fetch fetch_imm fetch_imm_16_32 fetch_imm_16_32_64
fetch_operands no_operands ins = pure (true, ins)
fetch_operands modrm_only ins = do ins ← x64modrm_fetch ins; pure (true, ins)
fetch_operands imm_8 ins = do ins ← fetch_imm w8 ins; pure (true, ins)
fetch_operands imm_16 ins = do ins ← fetch_imm w16 ins; pure (true, ins)
fetch_operands imm_32 ins = do ins ← fetch_imm w32 ins; pure (true, ins)
fetch_operands imm_16_32 ins = do ins ← fetch_imm_16_32 ins; pure (true, ins)
fetch_operands imm_16_32_64 ins = do ins ← fetch_imm_16_32_64 ins; pure (true, ins)
fetch_operands modrm_imm_8 ins = do
  ins ← x64modrm_fetch ins
  ins ← fetch_imm w8 ins
  pure (true, ins)
fetch_operands modrm_imm_16_32 ins = do
  ins ← x64modrm_fetch ins
  ins ← fetch_imm_16_32 ins
  pure (true, ins)
fetch_operands modrm_test_8 ins = do
  ins ← x64modrm_fetch ins
  ins ← (if leb (modrm_reg ins) 1 then fetch_imm w8 ins else pure ins)
  pure (true, ins)
fetch_operands modrm_test_16_32 ins = do
  ins ← x64modrm_fetch ins
  ins ← (if leb (modrm_reg ins) 1 then fetch_imm_16_32 ins else pure ins)
  pure (true, ins)
fetch_operands unhandled ins = pure (false, ins)

unfoldable pub x64decode_0f : Instr → M (Bool × Instr)
unfolding fetch_operands operands_0f
x64decode_0f ins = do op ← fetch w8; fetch_operands (operands_0f op) (record ins { opcode_0f = op })

-- `fuel` bounds the rounds of the prefix loop.
unfoldable pub x64decode : ℕ → Instr → M (Bool × Instr)
unfolding decode_prefixes fetch_operands operands x64decode_0f
x64decode fuel ins = do
  (op, ins) ← decode_prefixes fuel ins
  let ins = record ins { opcode = op }
  if op == 0x0F then x64decode_0f ins else fetch_operands (operands op) ins
