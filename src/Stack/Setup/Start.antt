-- ===== src/Stack/Setup/Start.antt =====
-- The state in which `x64emu_init` (x64emu/emu.c) leaves the emulator: the entry of a process.
use mathlib.Core.Path.{subst}
use flux.Base.{
  length, ℕ, ◌+◌, ◌*◌, ◌%◌, ◌^◌, ◌≤◌, ◌<◌, ◌≡◌, refl, ap, ◌∙◌, Bool, true, arith, bit_or, set_bit,
}
use flux.Word.{w32, w64, lane, set_lane}
use flux.Machine.{Emu, ok, ◌>>=◌, set_reg, set_rip, set_flags, update, rsp, rdi, rsi, rdx}
use flux.Machine.Keeps.{After}
use flux.Machine.Valid.{IsValid, set_flags-IsValid}
use flux.Stack.Laws.{set_lane_full}
use flux.Place.Valid.{set_reg_first-IsValid}
use flux.Stack.Setup.{Host, x64stack_setup, x64emu_init}
use flux.Stack.Setup.Layout.{IsLaidOut, string_bytes}
use flux.Stack.Setup.Contents.{x64stack_setup-IsLaidOut}
use flux.Stack.Setup.Valid.{x64stack_setup-Keeps}

-- The entry of a process of the context `ctx`, with the memory of the stack in `f`.
pub record IsStarted (host : Host) (enoent : Bool) (s t : Emu) : Type 0 where
  pub laid_out : IsLaidOut host s.ctx enoent (t.regs rsp) t.mem.byte
  pub entry_is : t.rip ≡ s.ctx.entry % 2 ^ 64
  pub argc_is : t.regs rdi ≡ s.ctx.argc % 2 ^ 64
  pub argv_is : t.regs rsi ≡ (t.regs rsp + 8) % 2 ^ 64
  pub envp_is : t.regs rdx ≡ (t.regs rsp + 8 + 8 * (s.ctx.argc + 1)) % 2 ^ 64
  pub same_ctx : t.ctx ≡ s.ctx

module _ (host : Host) (enoent : Bool) (s : Emu) where
  -- The state before `x64stack_setup`.
  with_flags : Emu
  with_flags = record s {
    flags =
        set_bit 13 1 (set_bit 12 1 (set_lane w32 0 (bit_or (lane w32 0 s.flags) 2) s.flags))
        % 2 ^ 64;
  }

  top : Emu
  top = record with_flags {
    regs = update s.regs rsp (set_lane w64 0 (s.ctx.stack.base + s.ctx.stack.size) (s.regs rsp));
  }

  top-IsValid : IsValid s → IsValid top
  unfolding top with_flags set_flags set_reg
  top-IsValid valid =
      (set_reg_first-IsValid w64 rsp (s.ctx.stack.base + s.ctx.stack.size) tt).at with_flags (
        (set_flags-IsValid (
            set_bit 13 1
              (set_bit 12 1 (set_lane w32 0 (bit_or (lane w32 0 s.flags) 2) s.flags)))).at
          s valid)

  top_rsp : IsValid s → top.regs rsp ≡ (s.ctx.stack.base + s.ctx.stack.size) % 2 ^ 64
  unfolding top with_flags
  top_rsp valid =
      set_lane_full (s.ctx.stack.base + s.ctx.stack.size) (s.regs rsp) (valid.regs_fit rsp)

  -- The state after it, of which the registers of the arguments and RIP are assigned.
  module _ (t : Emu) where
    started : Emu
    started =
        let a = update t.regs rdi (set_lane w64 0 s.ctx.argc (t.regs rdi)) in
        let b = update a rsi (set_lane w64 0 (a rsp + 8) (a rsi)) in
        record t {
          regs = update b rdx (set_lane w64 0 (b rsi + 8 * (s.ctx.argc + 1)) (b rdx));
          rip = s.ctx.entry % 2 ^ 64;
        }

    init-ok : x64stack_setup host enoent top ≡ ok tt t → x64emu_init host enoent s ≡ ok true started
    unfolding x64emu_init top with_flags started ◌>>=◌ set_flags set_reg set_rip
    init-ok run = rw run

    -- Each register is assigned as a whole.
    started-IsStarted :
        IsValid t
        → IsLaidOut host s.ctx enoent (t.regs rsp) t.mem.byte
        → t.ctx ≡ s.ctx
        → IsStarted host enoent s started
    unfolding started
    started-IsStarted valid laid same = record {
      laid_out = laid;
      entry_is = refl;
      argc_is = set_lane_full s.ctx.argc (t.regs rdi) (valid.regs_fit rdi);
      argv_is = argv;
      envp_is =
          set_lane_full _ (t.regs rdx) (valid.regs_fit rdx)
          ∙ ap (λ (a : ℕ). (a + 8 * (s.ctx.argc + 1)) % 2 ^ 64) argv
          ∙ omega arith;
      same_ctx = same;
    }
      where
        argv : set_lane w64 0 (t.regs rsp + 8) (t.regs rsi) ≡ (t.regs rsp + 8) % 2 ^ 64
        argv = set_lane_full (t.regs rsp + 8) (t.regs rsi) (valid.regs_fit rsi)

-- From a well-formed state whose stack area can be written and has the room, with counters that are
-- the numbers of the strings, at least one argument and an alignment of 16, x64emu_init returns in
-- the state in which a process begins, the alignment of RSP apart.
pub x64emu_init-IsStarted :
    (host : Host) (enoent : Bool) (s : Emu)
    → IsValid s
    → ((a : ℕ)
        → s.ctx.stack.base ≤ a
        → a < s.ctx.stack.base + s.ctx.stack.size
        → s.mem.writable a ≡ true)
    → s.ctx.stack.align ≡ 16
    → 0 < s.ctx.argc
    → s.ctx.argc ≡ length s.ctx.argv
    → s.ctx.envc ≡ length s.ctx.envv
    → s.ctx.stack.base + s.ctx.stack.size < 2 ^ 64
    → string_bytes s.ctx.argv + string_bytes s.ctx.envv + 8 * (s.ctx.argc + s.ctx.envc) + 254
      ≤ s.ctx.stack.size
    → (t : Emu) × (x64emu_init host enoent s ≡ ok true t) × IsStarted host enoent s t
unfolding top with_flags
x64emu_init-IsStarted host enoent s valid writable align some_argument argc_is envc_is fits room =
    let (t, run, laid, kept, same) =
      x64stack_setup-IsLaidOut host enoent s.ctx.stack.base (top host enoent s)
        (λ a le lt. writable a le (omega (arith, top_rsp host enoent s valid)))
        (omega (arith, top_rsp host enoent s valid)) align some_argument argc_is envc_is
        (omega (arith, top_rsp host enoent s valid)) in
    let after : After IsValid (x64stack_setup host enoent (top host enoent s)) =
      (x64stack_setup-Keeps host enoent).at (top host enoent s) (top-IsValid host enoent s valid) in
    (
      started host enoent s t,
      init-ok host enoent s t run,
      started-IsStarted host enoent s t (subst (After IsValid) run after) laid same,
    )
