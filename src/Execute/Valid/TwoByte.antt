-- ===== src/Execute/Valid/TwoByte.antt =====
-- The invariant of the well-formed states, on x64emu/execute_0f.c and x64emu/syscall.c.
use flux.Base.{ℕ, ◌*◌, ◌<◌, arith}
use flux.Word.{Width, w8, w16, w32}
use flux.Machine.{Emu}
use flux.Machine.Keeps.{
  Keeps, Keeps-bind, Keeps-bind-gets, Keeps-pure, Keeps-if, Keeps-modify, keeps_rules,
}
use flux.Machine.Valid.{IsValid, Fits64, Fits128}
use flux.Instr.{Instr}
use flux.Context.{Os, x64emu_free}
use flux.Syscall.{sys_write, sys_exit, x64syscall}
use flux.Execute.Operands.{u_8, u_16}
use flux.Execute.Valid.Operands.{valid_rules}
use flux.Execute.Valid.Low.{jump-IsValid}
use flux.Execute.Valid.Sse.{
  sse_rules, sse_copy-IsValid, sse_10-IsValid, sse_11-IsValid, sse_12-IsValid, sse_14-IsValid,
  sse_15-IsValid, sse_16-IsValid, xmm_m-IsSse, xmm-IsSse, interleave-IsValid,
}
use flux.Execute.Sse.{interleave_low, interleave_high, sse_move, unpack, punpck, movd, movdq}
use flux.Execute.TwoByte.{cmov, jcc_16_32, setcc, movzx, cpuid, x64execute_0f}

module _ (ins : Instr) where
  sse_move-IsValid : (op : ℕ) → Keeps IsValid (sse_move ins op)
  unfolding sse_move
  sse_move-IsValid op = Keeps-bind-gets _ _ λ s.
      search
        (
          sse_rules,
          sse_copy-IsValid,
          sse_10-IsValid,
          sse_11-IsValid,
          sse_12-IsValid,
          sse_14-IsValid,
          sse_15-IsValid,
          sse_16-IsValid,
          xmm_m-IsSse ins s,
          xmm-IsSse ins,
          tt,
        )
        depth 30

  -- The MMX registers hold half as many members as the XMM registers.
  module _ (times : ℕ) (w : Width) (f128 : (k : ℕ) → k < times * 4 → Fits128 w k)
      (f64 : (k : ℕ) → k < times * 2 → Fits64 w k) where
    unpack_low-IsValid : Keeps IsValid (unpack ins interleave_low w times)
    unfolding unpack
    unpack_low-IsValid = Keeps-bind-gets _ _ λ s. Keeps-bind-gets _ _ λ s'.
        Keeps-bind _ _
          (Keeps-if _ _ _ (interleave-IsValid _ _ 0 w _ _ (λ k h. f128 k (omega arith)))
            (interleave-IsValid _ _ 0 w _ _ (λ k h. f64 k (omega arith))))
          λ _. Keeps-pure _

    unpack_high-IsValid : Keeps IsValid (unpack ins interleave_high w times)
    unfolding unpack
    unpack_high-IsValid = Keeps-bind-gets _ _ λ s. Keeps-bind-gets _ _ λ s'.
        Keeps-bind _ _
          (Keeps-if _ _ _ (interleave-IsValid _ _ 0 w _ _ (λ k h. f128 k (omega arith)))
            (interleave-IsValid _ _ 0 w _ _ (λ k h. f64 k (omega arith))))
          λ _. Keeps-pure _

  punpck-IsValid : (op : ℕ) → Keeps IsValid (punpck ins op)
  unfolding punpck
  punpck-IsValid op =
      Keeps-if _ _ _ (unpack_low-IsValid 4 w8 (λ k h. omega arith) (λ k h. omega arith)) (
        Keeps-if _ _ _ (unpack_low-IsValid 2 w16 (λ k h. omega arith) (λ k h. omega arith)) (
          Keeps-if _ _ _ (unpack_low-IsValid 1 w32 (λ k h. omega arith) (λ k h. omega arith)) (
            Keeps-if _ _ _ (unpack_high-IsValid 4 w8 (λ k h. omega arith) (λ k h. omega arith)) (
              Keeps-if _ _ _ (unpack_high-IsValid 2 w16 (λ k h. omega arith) (λ k h. omega arith))
                (unpack_high-IsValid 1 w32 (λ k h. omega arith) (λ k h. omega arith))))))

  movd-IsValid : Keeps IsValid (movd ins)
  unfolding movd
  movd-IsValid = search (valid_rules, sse_rules) depth 30

  movdq-IsValid : Keeps IsValid (movdq ins)
  unfolding movdq
  movdq-IsValid = search (valid_rules, sse_rules) depth 30

  cmov-IsValid : (op : ℕ) → Keeps IsValid (cmov ins op)
  unfolding cmov
  cmov-IsValid op = search valid_rules depth 20

  jcc_16_32-IsValid : (op : ℕ) → Keeps IsValid (jcc_16_32 ins op)
  unfolding jcc_16_32
  jcc_16_32-IsValid op = search (valid_rules, jump-IsValid) depth 20

  setcc-IsValid : (op : ℕ) → Keeps IsValid (setcc ins op)
  unfolding setcc
  setcc-IsValid op = search valid_rules depth 20

  movzx_8-IsValid : Keeps IsValid (movzx ins u_8)
  unfolding movzx
  movzx_8-IsValid = search valid_rules depth 20

  movzx_16-IsValid : Keeps IsValid (movzx ins u_16)
  unfolding movzx
  movzx_16-IsValid = search valid_rules depth 20

cpuid-IsValid : Keeps IsValid cpuid
unfolding cpuid
cpuid-IsValid = search valid_rules depth 20

module _ (os : Os) where
  free-IsValid : (s : Emu) → IsValid s → IsValid (x64emu_free os s).1
  unfolding x64emu_free
  free-IsValid s h = record {
    regs_fit = h.regs_fit;
    rip_fits = h.rip_fits;
    flags_fit = h.flags_fit;
    mmx_fit = h.mmx_fit;
    xmm_fit = h.xmm_fit;
    mem_fits = h.mem_fits;
  }

  sys_exit-IsValid : Keeps IsValid (sys_exit os)
  unfolding sys_exit
  sys_exit-IsValid = search (keeps_rules, Keeps-modify, free-IsValid) depth 20

  sys_write-IsValid : Keeps IsValid (sys_write os)
  unfolding sys_write
  sys_write-IsValid = search valid_rules depth 20

  x64syscall-IsValid : Keeps IsValid (x64syscall os)
  unfolding x64syscall
  x64syscall-IsValid = search (valid_rules, sys_write-IsValid, sys_exit-IsValid) depth 20

pub x64execute_0f-IsValid : (os : Os) (ins : Instr) → Keeps IsValid (x64execute_0f os ins)
unfolding x64execute_0f
x64execute_0f-IsValid os ins =
    search
      (
        keeps_rules, x64syscall-IsValid, sse_move-IsValid, cmov-IsValid, movd-IsValid,
        movdq-IsValid, jcc_16_32-IsValid, setcc-IsValid, movzx_8-IsValid, movzx_16-IsValid,
        cpuid-IsValid, punpck-IsValid,
      )
      depth 40
