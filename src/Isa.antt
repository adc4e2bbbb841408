-- ===== src/Isa.antt =====
-- What the architecture asks of ADD, OR, ADC, SBB, AND, SUB, XOR, CMP, TEST, INC and DEC: a
-- description after the manual of the processor, with none of the definitions of the executor
-- (x64emu/execute.c, execute_private.h, modrm.c). AF is left out.
pub mod Encoding
pub mod Meaning
pub mod Address
pub mod Flags
pub mod CarryIn
pub mod Arithmetic
pub mod Performs
pub mod Operands
pub mod Macros
pub mod Families
pub mod Claims
pub mod Pieces
pub mod Others
pub mod Refines
pub mod Step
use flux.Base.{ℕ, ◌==◌, if◌then◌else◌}
use flux.Word.{Width}

pub data Mnemonic : Type 0 where
  add or adc sbb and sub xor cmp test inc dec : Mnemonic

-- The eight that an opcode family or ModR/M.reg numbers.
unfoldable pub mnemonic : ℕ → Mnemonic
mnemonic r =
    if r == 0
    then Mnemonic.add
    else if r == 1
    then Mnemonic.or
    else if r == 2
    then Mnemonic.adc
    else if r == 3
    then Mnemonic.sbb
    else if r == 4
    then Mnemonic.and
    else if r == 5
    then Mnemonic.sub
    else if r == 6
    then Mnemonic.xor
    else Mnemonic.cmp

-- The low bytes of a register, one of AH, CH, DH and BH, an address, or a constant.
pub data Operand : Type 0 where
  register : ℕ → Operand
  high_byte : ℕ → Operand
  memory : ℕ → Operand
  immediate : ℕ → Operand

pub record Form : Type 0 where
  pub op : Mnemonic
  pub width : Width
  pub dest : Operand
  pub source : Operand
