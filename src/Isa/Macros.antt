-- ===== src/Isa/Macros.antt =====
-- The pieces of `x64execute` (x64emu/execute.c) that an opcode family and the groups go through, and the
-- macros of execute_private.h on operands that the emulator reaches.
use flux.Base.{
  if_true, if_false, ℕ, ◌*◌, ◌/◌, ◌%◌, ◌<◌, ◌≡◌, refl, sym, ◌∙◌, ap, arith, Bool, true, false, ◌&&◌,
  leb, ◌==◌, if◌then◌else◌, some,
}
use flux.Word.{Width, modulus, IsWord}
use flux.Machine.{Emu, M, ok, and_then, pure}
use flux.Machine.Valid.{IsValid}
use flux.Instr.{Instr}
use flux.Alu.{op_s_add, op_s_or, op_s_adc, op_s_sbb, op_s_and, op_s_sub, op_s_xor, op_s_cmp}
use flux.Context.{Os}
use flux.Execute.{x64execute}
use flux.Execute.Operands.{at, read_source, perform}
use flux.Execute.Groups.{alu_case, x64execute_80, x64execute_81, x64execute_83}
use flux.Execute.Low.{opcode_family, x64execute_low}
use flux.Isa.{Mnemonic, mnemonic, Operand, immediate, Form}
use flux.Isa.Encoding.{r}
use flux.Isa.Meaning.{value, flags_alone, Performs}
use flux.Isa.Arithmetic.{operation, IsExact}
use flux.Isa.Performs.{place, IsNamed, IsClear, found, read-value, perform-Performs}
use flux.Isa.Operands.{value-lt}

operation-if :
    (b : Bool) (m n : Mnemonic)
    → operation (if b then m else n) ≡ (if b then operation m else operation n)
operation-if true m n = refl
operation-if false m n = refl

pub alu_case-eq : (r : ℕ) → alu_case r ≡ operation (mnemonic r)
alu_case-eq r = cases ∙ sym (ap operation names ∙ simp operation-if)
  where
    cases : alu_case r ≡ (
        if r == 0
        then op_s_add
        else if r == 1
        then op_s_or
        else if r == 2
        then op_s_adc
        else if r == 3
        then op_s_sbb
        else if r == 4
        then op_s_and
        else if r == 5
        then op_s_sub
        else if r == 6
        then op_s_xor
        else op_s_cmp)
    cases = unfold alu_case in refl

    names : mnemonic r ≡ (
        if r == 0
        then Mnemonic.add
        else if r == 1
        then Mnemonic.or
        else if r == 2
        then Mnemonic.adc
        else if r == 3
        then Mnemonic.sbb
        else if r == 4
        then Mnemonic.and
        else if r == 5
        then Mnemonic.sub
        else if r == 6
        then Mnemonic.xor
        else Mnemonic.cmp)
    names = unfold mnemonic in refl

-- What `x64execute` calls, with the calls shut.
module _ (os : Os) (ins : Instr) where
  pub execute_low :
      (ins.opcode == 0x0F) ≡ false
      → leb ins.opcode 0x8F ≡ true
      → x64execute os ins ≡ x64execute_low ins ins.opcode
  unfolding x64execute
  execute_low two low = if_false _ _ two ∙ if_true _ _ low

  low_family :
      (leb ins.opcode 0x3D && leb (ins.opcode % 8) 5) ≡ true
      → x64execute_low ins ins.opcode ≡ opcode_family ins (ins.opcode / 8 * 8) (ins.opcode % 8)
  unfolding x64execute_low
  low_family h = if_true _ _ h

  pub execute_family :
      (leb ins.opcode 0x3D && leb (ins.opcode % 8) 5) ≡ true
      → x64execute os ins ≡ opcode_family ins (ins.opcode / 8 * 8) (ins.opcode % 8)
  execute_family h = execute_low (ground arith) (ground arith) ∙ low_family h

  pub execute_80 : ins.opcode ≡ 0x80 → x64execute os ins ≡ x64execute_80 ins
  unfolding x64execute_low
  execute_80 h = execute_low (rw h) (rw h) ∙ ap (x64execute_low ins) h

  pub execute_81 : ins.opcode ≡ 0x81 → x64execute os ins ≡ x64execute_81 ins
  unfolding x64execute_low
  execute_81 h = execute_low (rw h) (rw h) ∙ ap (x64execute_low ins) h

  pub execute_83 : ins.opcode ≡ 0x83 → x64execute os ins ≡ x64execute_83 ins
  unfolding x64execute_low
  execute_83 h = execute_low (rw h) (rw h) ∙ ap (x64execute_low ins) h

-- A source of an instruction gives the value of its operand.
pub record Reads (w : Width) (o : Operand) (src : M ℕ) (s : Emu) : Type 0 where
  pub reads : src s ≡ found (value w o s) s
  pub fits : (b : ℕ) → value w o s ≡ some b → b < modulus w

module _ (w : Width) (s : Emu) where
  pub named-Reads :
      (o : Operand) → IsValid s → IsNamed o → Reads w o (read_source w (at (place o))) s
  unfolding read_source
  named-Reads o valid named = record {
    reads = read-value w o s named;
    fits = λ b e. value-lt w o s b valid named e;
  }

  pub constant-Reads :
      (v : ℕ) (src : M ℕ) → v < modulus w → src s ≡ ok v s → Reads w (immediate v) src s
  constant-Reads v src lt e = record { reads = e; fits = λ b eb. ground arith }

-- A macro with its source, on operands that the emulator reaches.
pub macro-Performs :
    (f : Form) (src : M ℕ) (s : Emu)
    → IsValid s
    → IsWord f.width
    → IsNamed f.dest
    → Reads f.width f.source src s
    → (flags_alone f.op ≡ false → IsClear f.width f.dest s.regs)
    → IsExact f.op s.flags
    → Performs f s (
        and_then
          (and_then (src s) λ b. perform (operation f.op) f.width (place f.dest) b)
          (λ _. pure true))
macro-Performs f src s valid word named reads clear exact =
    perform-Performs f s
      (record {
        word = word;
        dest_named = named;
        source_fits = reads.fits;
        dest_fits = λ a e. value-lt f.width f.dest s a valid named e;
        regs_fit = valid.regs_fit;
        flags_fit = valid.flags_fit;
        clear = clear;
        exact = exact;
      })
      src reads.reads
