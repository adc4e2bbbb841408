-- ===== src/Execute/Valid/Operands.antt =====
-- The invariant of the well-formed states, on the operand macros of x64emu/execute_private.h.
use flux.Base.{ℕ, Bool, true, false, if◌then◌else◌}
use flux.Word.{Width, w8, w16, w32, w64, w128, IsWord}
use flux.Machine.{Emu, M}
use flux.Machine.Keeps.{Keeps, Keeps-bind, Keeps-pure, Keeps-undefined, keeps_rules}
use flux.Machine.Valid.{IsValid, set_reg-IsValid, set_rip-IsValid, set_flags-IsValid, store-IsValid}
use flux.Modrm.{Place}
use flux.Instr.{Instr, rex_w}
use flux.Place.Valid.{Keeps-read, write_first-IsValid, set_reg_first-IsValid}
use flux.Stack.{push, pop}
use flux.Alu.{Effect, writes, flags_only, Operation}
use flux.Execute.Operands.{
  Source, at, imm, Macro, read_source, effect, perform, op_mov, op_xchg, op_width, dest_op2, s_8,
  s_32, s_64, u_8, u_16, u_64, op2_fixed,
}

-- A macro that keeps well-formed states at the widths of the instructions.
pub record MacroIsValid (op : Macro) : Type 0 where
  pub at_width : (w : Width) (dest : Place) (v : ℕ) → IsWord w → Keeps IsValid (op w dest v)

pub Keeps-read_source : {P : Emu → Type 0} (w : Width) (src : Source) → Keeps P (read_source w src)
unfolding read_source
Keeps-read_source w (at p) = Keeps-read w 0 p
Keeps-read_source w (imm v) = Keeps-pure _

pub effect-IsValid :
    (e : Effect) (w : Width) (dest : Place) → IsWord w → Keeps IsValid (effect e w dest)
unfolding effect
effect-IsValid (writes v flags) w dest h =
    Keeps-bind _ _ (set_flags-IsValid flags) (λ _. write_first-IsValid w dest v h)
effect-IsValid (flags_only flags) w dest h = set_flags-IsValid flags
effect-IsValid Effect.undefined w dest h = Keeps-undefined

pub perform-IsValid : (op : Operation) → MacroIsValid (perform op)
unfolding perform
perform-IsValid op = record {
  at_width = λ w dest v h. search (keeps_rules, Keeps-read, effect-IsValid);
}

pub perform_at-IsValid :
    (op : Operation) (w : Width) (dest : Place) (v : ℕ)
    → IsWord w
    → Keeps IsValid (perform op w dest v)
perform_at-IsValid op = (perform-IsValid op).at_width

pub op_mov-IsValid : MacroIsValid op_mov
unfolding op_mov
op_mov-IsValid = record { at_width = λ w dest v h. write_first-IsValid w dest v h }

pub op_xchg-IsValid : (w : Width) (dest src : Place) → IsWord w → Keeps IsValid (op_xchg w dest src)
unfolding op_xchg
op_xchg-IsValid w dest src h = search (keeps_rules, Keeps-read, write_first-IsValid)

width-IsWord : (a b : Bool) → IsWord (if a then w64 else if b then w16 else w32)
width-IsWord true b = tt
width-IsWord false true = tt
width-IsWord false false = tt

pub op_width-IsWord : (ins : Instr) → IsWord (op_width ins)
op_width-IsWord ins = width-IsWord (rex_w ins) ins.operand_sz

-- The width of PUSH, POP and LEAVE, and that of MOVD.
pub stack_width-IsWord : (b : Bool) → IsWord (if b then w16 else w64)
stack_width-IsWord true = tt
stack_width-IsWord false = tt

pub movd_width-IsWord : (b : Bool) → IsWord (if b then w64 else w32)
movd_width-IsWord true = tt
movd_width-IsWord false = tt

pub dest_op2-IsValid :
    (op : Macro) (ins : Instr) (dest : Place) (src : Width → M ℕ)
    → MacroIsValid op
    → ((w : Width) → Keeps IsValid (src w))
    → Keeps IsValid (dest_op2 op ins dest src)
unfolding dest_op2
dest_op2-IsValid op ins dest src k ks =
    Keeps-bind _ _ (ks _) (λ v. k.at_width _ dest v (op_width-IsWord ins))

pub op2_fixed-IsValid :
    (op : Macro) (w : Width) (dest : Place) (src : Source)
    → MacroIsValid op
    → IsWord w
    → Keeps IsValid (op2_fixed op w dest src)
unfolding op2_fixed
op2_fixed-IsValid op w dest src k h =
    Keeps-bind _ _ (Keeps-read_source w src) (λ v. k.at_width w dest v h)

module _ {P : Emu → Type 0} (src : Source) where
  pub Keeps-s_8 : (w : Width) → Keeps P (s_8 src w)
  unfolding s_8
  Keeps-s_8 w = search (keeps_rules, Keeps-read_source)

  pub Keeps-s_32 : (w : Width) → Keeps P (s_32 src w)
  unfolding s_32
  Keeps-s_32 w8 = Keeps-read_source w8 src
  Keeps-s_32 w16 = Keeps-read_source w16 src
  Keeps-s_32 w32 = Keeps-read_source w32 src
  Keeps-s_32 w64 = search (keeps_rules, Keeps-read_source)
  Keeps-s_32 w128 = Keeps-read_source w128 src

  pub Keeps-s_64 : (w : Width) → Keeps P (s_64 src w)
  unfolding s_64
  Keeps-s_64 w = Keeps-read_source w src

  pub Keeps-u_8 : (w : Width) → Keeps P (u_8 src w)
  unfolding u_8
  Keeps-u_8 w = Keeps-read_source w8 src

  pub Keeps-u_16 : (w : Width) → Keeps P (u_16 src w)
  unfolding u_16
  Keeps-u_16 w = Keeps-read_source w16 src

  pub Keeps-u_64 : (w : Width) → Keeps P (u_64 src w)
  unfolding u_64
  Keeps-u_64 w = Keeps-read_source w src

pub push-IsValid : (w : Width) (v : ℕ) → Keeps IsValid (push w v)
unfolding push
push-IsValid w v = search (keeps_rules, set_reg_first-IsValid, store-IsValid, tt)

pub pop-IsValid : (w : Width) → Keeps IsValid (pop w)
unfolding pop
pop-IsValid w = search (keeps_rules, set_reg_first-IsValid, tt)

pub ruleset source_rules = (
  keeps_rules, Keeps-read, Keeps-read_source, Keeps-s_8, Keeps-s_32, Keeps-s_64, Keeps-u_8,
  Keeps-u_16, Keeps-u_64,
)

pub ruleset valid_rules = (
  source_rules, perform-IsValid, perform_at-IsValid, op_mov-IsValid, op_xchg-IsValid,
  op_width-IsWord, stack_width-IsWord, movd_width-IsWord, dest_op2-IsValid, op2_fixed-IsValid,
  write_first-IsValid, set_rip-IsValid, set_flags-IsValid, set_reg_first-IsValid, store-IsValid,
  push-IsValid, pop-IsValid, tt,
)
