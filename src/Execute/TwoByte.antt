-- ===== src/Execute/TwoByte.antt =====
-- The other cases of x64emu/execute_0f.c, and `x64execute_0f`.
use flux.Base.{ℕ, Bool, true, false, ◌||◌, ◌==◌, if◌then◌else◌, in_range, to_nat}
use flux.Word.{Width, w8, w16, w32, w64, lane, sign_extend}
use flux.Machine.{Emu, M, ◌>>=◌, ◌>>◌, pure, gets, set_reg, rax, rbx, rcx, rdx}
use flux.Instr.{Instr}
use flux.Modrm.{x64modrm_get_reg, x64modrm_get_r_m}
use flux.Place.{write}
use flux.Context.{Os}
use flux.Syscall.{x64syscall}
use flux.Cond.{x64execute_jmp_cond}
use flux.Execute.Operands.{Source, at, op_mov, dest_op2, u_8, u_16, u_64}
use flux.Execute.Low.{jump}
use flux.Execute.Sse.{sse_move, punpck, movd, movdq}

module _ (ins : Instr) where
  -- 40 .. 4F
  unfoldable pub cmov : ℕ → M Bool
  unfolding dest_op2 op_mov u_64 x64modrm_get_reg x64modrm_get_r_m x64execute_jmp_cond
  cmov op = do
    flags ← gets Emu.flags
    r_m ← gets (x64modrm_get_r_m ins)
    if x64execute_jmp_cond op flags
        then dest_op2 op_mov ins (x64modrm_get_reg ins) (u_64 (at r_m))
        else pure tt
    pure true

  -- 80 .. 8F
  unfoldable pub jcc_16_32 : ℕ → M Bool
  unfolding jump x64execute_jmp_cond
  jcc_16_32 op = do
    flags ← gets Emu.flags
    if x64execute_jmp_cond op flags
        then jump (
            if ins.operand_sz
            then sign_extend w16 w64 (lane w16 0 ins.imm)
            else sign_extend w32 w64 (lane w32 0 ins.imm))
        else pure tt
    pure true

  -- 90 .. 9F
  unfoldable pub setcc : ℕ → M Bool
  unfolding write x64modrm_get_r_m x64execute_jmp_cond
  setcc op = do
    dest ← gets (x64modrm_get_r_m ins)
    flags ← gets Emu.flags
    write w8 0 dest (to_nat (x64execute_jmp_cond op flags))
    pure true

  -- B6 and B7
  unfoldable pub movzx : (Source → Width → M ℕ) → M Bool
  unfolding dest_op2 op_mov x64modrm_get_reg x64modrm_get_r_m
  movzx ext = do
    r_m ← gets (x64modrm_get_r_m ins)
    dest_op2 op_mov ins (x64modrm_get_reg ins) (ext (at r_m))
    pure true

-- A2
unfoldable pub cpuid : M Bool
cpuid = do
  set_reg w32 0 rdx 0
  set_reg w32 0 rcx 0
  set_reg w32 0 rbx 0
  set_reg w32 0 rax 0
  pure true

module _ (os : Os) (ins : Instr) where
  unfoldable pub x64execute_0f : M Bool
  unfolding x64syscall sse_move punpck movd movdq cmov jcc_16_32 setcc movzx u_8 u_16 cpuid
  x64execute_0f =
      let op = ins.opcode_0f in
      if op == 0x05
      then x64syscall os
      else if op == 0x0D
      then pure true
      else if in_range 0x10 0x17 op
      then sse_move ins op
      else if in_range 0x18 0x1F op
      then pure true
      else if op == 0x28 || op == 0x29 || op == 0x2B
      then sse_move ins op
      else if in_range 0x40 0x4F op
      then cmov ins op
      else if in_range 0x60 0x62 op || in_range 0x68 0x6A op
      then punpck ins op
      else if op == 0x6E
      then movd ins
      else if op == 0x6F
      then movdq ins
      else if in_range 0x80 0x8F op
      then jcc_16_32 ins op
      else if in_range 0x90 0x9F op
      then setcc ins op
      else if op == 0xA2
      then cpuid
      else if op == 0xB6
      then movzx ins u_8
      else if op == 0xB7
      then movzx ins u_16
      else pure false
