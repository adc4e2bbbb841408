-- ===== src/Stack/Setup/Rsp.antt =====
-- The stack pointer after `x64stack_setup` (x64emu/stack.c).
use flux.Base.{length, ℕ, ◌+◌, ◌%◌, ◌^◌, ◌≤◌, ◌<◌, ◌≡◌, refl, Bool, true, ◌==◌, arith}
use flux.Machine.{Emu, ok, rsp}
use flux.Stack.Setup.{Host, x64stack_setup}
use flux.Stack.Setup.Aligned.{Ends-x64stack_setup}

-- If all memory can be written, there are strings for the counters of arguments and of the
-- environment, at least one argument, and the alignment is 16, x64stack_setup returns, and RSP is
-- then a multiple of 16 exactly if the two counters have an odd sum.
pub x64stack_setup-rsp :
    (host : Host) (enoent : Bool) (s : Emu)
    → ((a : ℕ) → s.mem.writable a ≡ true)
    → s.regs rsp < 2 ^ 64
    → s.ctx.stack.align ≡ 16
    → 0 < s.ctx.argc
    → s.ctx.argc ≤ length s.ctx.argv
    → s.ctx.envc ≤ length s.ctx.envv
    → (t : Emu) × (x64stack_setup host enoent s ≡ ok tt t)
      × ((t.regs rsp % 16 == 0) ≡ ((s.ctx.argc + s.ctx.envc) % 2 == 1))
x64stack_setup-rsp host enoent s writable fits align some_argument argc_fits envc_fits =
    let (u, t, run, q, ready, moved) =
      (Ends-x64stack_setup s.ctx host argc_fits envc_fits some_argument align enoent).at s
        (record { writable = writable; fits = fits; same_ctx = refl }) in
    (t, run, ground arith)
