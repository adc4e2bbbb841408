-- ===== src/Execute/Operands.antt =====
-- The operand macros of x64emu/execute_private.h: which width an instruction works on, how a
-- source operand is read and extended, and how an operation is applied to `dest`.
use flux.Base.{ℕ, if◌then◌else◌}
use flux.Word.{Width, w8, w16, w32, w64, lane, sign_extend}
use flux.Machine.{Emu, M, ◌>>=◌, ◌>>◌, pure, gets, undefined, set_flags}
use flux.Modrm.{Place}
use flux.Place.{read, write}
use flux.Alu.{Effect, writes, flags_only, Operation}
use flux.Instr.{Instr, rex_w}

-- `void *src`: an operand in a register or in memory, or `&ins->imm`.
pub data Source : Type 0 where
  at : Place → Source
  imm : ℕ → Source

unfoldable pub read_source : Width → Source → M ℕ
unfolding read
read_source w (at p) = read w 0 p
read_source w (imm v) = pure (lane w 0 v)

-- An `operation(s_type, u_type, operand)` with `dest` in scope.
abbrev pub Macro : Type 0
Macro = Width → Place → ℕ → M (Unit {0})

unfoldable pub effect : Effect → Width → Place → M (Unit {0})
unfolding write
effect (writes v flags) w dest = do set_flags flags; write w 0 dest v
effect (flags_only flags) w dest = set_flags flags
effect Effect.undefined w dest = undefined

unfoldable pub perform : Operation → Macro
unfolding effect read
perform op w dest operand = do
  sav ← read w 0 dest
  flags ← gets Emu.flags
  effect (op w sav operand flags) w dest

-- `OP_S_MOV` and `OP_U_MOV`
unfoldable pub op_mov : Macro
unfolding write
op_mov w dest operand = write w 0 dest operand

-- `OP_XCHG`
unfoldable pub op_xchg : Width → Place → Place → M (Unit {0})
unfolding read write
op_xchg w dest src = do sav ← read w 0 dest; v ← read w 0 src; write w 0 dest v; write w 0 src sav

-- The choice of `DEST_OP2_16_32_64` and `PP_OP2_16_32_64`.
abbrev pub op_width : Instr → Width
op_width ins = if rex_w ins then w64 else if ins.operand_sz then w16 else w32

-- `DEST_OP2_16_32_64`, with the source expressions as a function of the width.
unfoldable pub dest_op2 : Macro → Instr → Place → (Width → M ℕ) → M (Unit {0})
dest_op2 op ins dest src = do v ← src (op_width ins); op (op_width ins) dest v

-- The source expressions of `DEST_OP2_16_32_64_S_8` .. `_U_64`.
unfoldable pub s_8 : Source → Width → M ℕ
unfolding read_source
s_8 src w = do v ← read_source w8 src; pure (sign_extend w8 w v)

unfoldable pub s_32 : Source → Width → M ℕ
unfolding read_source
s_32 src w64 = do v ← read_source w32 src; pure (sign_extend w32 w64 v)
s_32 src w = read_source w src

unfoldable pub s_64 : Source → Width → M ℕ
unfolding read_source
s_64 src w = read_source w src

unfoldable pub u_8 : Source → Width → M ℕ
unfolding read_source
u_8 src w = read_source w8 src

unfoldable pub u_16 : Source → Width → M ℕ
unfolding read_source
u_16 src w = read_source w16 src

unfoldable pub u_64 : Source → Width → M ℕ
unfolding read_source
u_64 src w = read_source w src

-- `OP2_FIXED_S` and `OP2_FIXED_U`
unfoldable pub op2_fixed : Macro → Width → Place → Source → M (Unit {0})
unfolding read_source
op2_fixed op w dest src = do v ← read_source w src; op w dest v

-- `SRC1_NULL`: the operation does not use its operand.
abbrev pub no_source : Width → M ℕ
no_source w = pure 0
