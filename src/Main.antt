-- ===== src/Main.antt =====
-- src/main.c: from the arguments of the process to its exit status.
pub mod Start
use flux.Base.{length, ℕ, Bool, true, false, not, ◌==◌, if◌then◌else◌, List, [], ◌∷◌}
use flux.Machine.{Emu, Context, Mem, Outcome, ok, exited, fault}
use flux.Context.{Os, x64emu_free}
use flux.Context.Init.{Mapper, stack_init_size, x64context_init}
use flux.Elf.{File, Loaded, loaded, failed, out_of_bounds, crashed, elfloader_load}
use flux.Stack.Setup.{Host, x64emu_init}
use flux.Execute.{x64emu_run}

-- What the process runs on: the kernel for each part, the file at a path, and the memory once the
-- stack is mapped at an address. `regs_at` is the address of `emu.regs`, and `enoent` says whether
-- `errno` is ENOENT when the stack is built.
pub record World : Type 0 where
  pub os : Os
  pub mapper : Mapper
  pub file : List ℕ → File
  pub host : Host
  pub with_stack : ℕ → ℕ → Mem → Mem
  pub regs_at : ℕ
  pub enoent : Bool

-- `x64context_t ctx = { 0 }`
abbrev pub zero_context : Context
zero_context = record {
  entry = 0;
  stack = record { base = 0; size = 0; align = 0 };
  segments = [];
  argc = 0;
  argv = [];
  envc = 0;
  envv = [];
  page_size = 0;
}

-- `x64emu_t emu = { 0 }`, with what `x64emu_init` is given.
abbrev pub zero_emu : World → Context → Mem → Emu
zero_emu world ctx mem = record {
  ctx = ctx;
  regs = λ i. 0;
  rip = 0;
  flags = 0;
  mmx = λ i. 0;
  xmm = λ i. 0;
  mem = mem;
  regs_at = world.regs_at;
}

-- How the process ends: `main` returns, the guest exits, something has no defined result, or the
-- guest is still running when the fuel has run out.
pub data End : Type 0 where
  returned : ℕ → End
  exit : ℕ → End
  undefined : End
  running : Emu → End

-- What follows `x64emu_run`.
unfoldable pub after_run : Os → Outcome Bool → End
unfolding x64emu_free
after_run os (ok true s) = running s
after_run os (ok false s) = if (x64emu_free os s).0 then returned 0 else returned 1
after_run os (exited status) = exit status
after_run os fault = undefined

-- What follows `x64emu_init`.
unfoldable pub after_init : World → ℕ → ℕ → Outcome Bool → End
unfolding x64emu_run after_run
after_init world prefixes fuel (ok true s) =
    after_run world.os (x64emu_run world.os prefixes fuel s)
after_init world prefixes fuel (ok false s) = returned 1
after_init world prefixes fuel (exited status) = exit status
after_init world prefixes fuel fault = undefined

-- What follows `elfloader_load`.
unfoldable pub after_load : World → ℕ → ℕ → Loaded → End
unfolding after_init x64emu_init
after_load world prefixes fuel (loaded ctx mem) =
    after_init world prefixes fuel (x64emu_init world.host world.enoent (zero_emu world ctx mem))
after_load world prefixes fuel (failed ctx) = returned 1
after_load world prefixes fuel out_of_bounds = undefined
after_load world prefixes fuel crashed = undefined

-- Without a name of its own the process reads behind the NULL of `argv`.
unfoldable pub main : World → ℕ → ℕ → List (List ℕ) → List (List ℕ) → Mem → End
unfolding x64context_init after_load elfloader_load
main world prefixes fuel [] envp mem = undefined
main world prefixes fuel (name ∷ []) envp mem = returned 1
main world prefixes fuel (name ∷ path ∷ args) envp mem =
    let (done, ctx) =
      x64context_init world.mapper (length (name ∷ path ∷ args)) (name ∷ path ∷ args) envp
        zero_context in
    if not done
    then returned 1
    else after_load world prefixes fuel
        (elfloader_load (world.file path) ctx (world.with_stack ctx.stack.base stack_init_size mem))
