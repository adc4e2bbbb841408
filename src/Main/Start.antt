-- ===== src/Main/Start.antt =====
-- What `main` of src/main.c runs once the stack is mapped and the file is loaded.
use mathlib.Core.Path.{subst}
use flux.Base.{length, ℕ, ◌+◌, ◌*◌, ◌^◌, ◌≤◌, ◌<◌, ◌≡◌, refl, ap, ◌∙◌, true, List, ◌∷◌, arith}
use flux.Machine.{Emu, Context, StackArea, Mem, ok}
use flux.Machine.Keeps.{After}
use flux.Machine.Valid.{IsValid}
use flux.Stack.Setup.Valid.{x64emu_init-IsValid}
use flux.Context.Init.{Mapper, stack_init_size, x64context_init, x64context_init-counts}
use flux.Elf.{loaded, elfloader_load}
use flux.Elf.Process.{SameProcess, KeepsProcess, elfloader_load-KeepsProcess}
use flux.Stack.Setup.Layout.{string_bytes}
use flux.Stack.Setup.Start.{IsStarted, x64emu_init-IsStarted}
use flux.Execute.{x64emu_run}
use flux.Stack.Setup.{x64emu_init}
use flux.Main.{World, zero_context, zero_emu, after_run, after_init, after_load, main}

-- The context that `x64context_init` makes of the arguments.
record IsReady (path : List ℕ) (args envp : List (List ℕ)) (c : Context) : Type 0 where
  argc_is : c.argc ≡ length args + 1
  argv_is : c.argv ≡ path ∷ args
  envc_is : c.envc ≡ length envp
  envv_is : c.envv ≡ envp
  size_is : c.stack.size ≡ stack_init_size
  align_is : c.stack.align ≡ 16

context-IsReady :
    (mapper : Mapper) (name path : List ℕ) (args envp : List (List ℕ)) (c : Context)
    → length (name ∷ path ∷ args) < 2 ^ 31
    → x64context_init mapper (length (name ∷ path ∷ args)) (name ∷ path ∷ args) envp zero_context
      ≡ (true, c)
    → IsReady path args envp c
context-IsReady mapper name path args envp c fits h =
    let (argc_is, argv_is, envc_is, envv_is, _, (base, _, stack_is)) =
      x64context_init-counts mapper (length (name ∷ path ∷ args)) name (path ∷ args) envp
        zero_context c refl fits h in
    record {
      argc_is = argc_is ∙ omega arith;
      argv_is = argv_is;
      envc_is = envc_is;
      envv_is = envv_is;
      size_is = ap (λ (a : StackArea). a.size) stack_is;
      align_is = ap (λ (a : StackArea). a.align) stack_is;
    }

zero_emu-IsValid :
    (world : World) (c : Context) (mem : Mem)
    → ((a : ℕ) → mem.byte a < 256)
    → IsValid (zero_emu world c mem)
zero_emu-IsValid world c mem bytes = record {
  regs_fit = λ i. omega arith;
  rip_fits = omega arith;
  flags_fit = omega arith;
  mmx_fit = λ i. omega arith;
  xmm_fit = λ i. omega arith;
  mem_fits = bytes;
}

-- The three calls before the loop, when all succeed.
main-run :
    (world : World) (prefixes fuel : ℕ) (name path : List ℕ) (args envp : List (List ℕ))
    (mem mem' : Mem) (c d : Context) (t : Emu)
    → x64context_init world.mapper
        (length (name ∷ path ∷ args))
        (name ∷ path ∷ args)
        envp
        zero_context
      ≡ (true, c)
    → elfloader_load (world.file path) c (world.with_stack c.stack.base stack_init_size mem)
      ≡ loaded d mem'
    → x64emu_init world.host world.enoent (zero_emu world d mem') ≡ ok true t
    → main world prefixes fuel (name ∷ path ∷ args) envp mem
      ≡ after_run world.os (x64emu_run world.os prefixes fuel t)
unfolding main after_load after_init
main-run world prefixes fuel name path args envp mem mem' c d t init load run =
    rw init (rw load (rw run))

-- If x64context_init succeeds on the arguments, elfloader_load loads the file at the first of them,
-- the memory holds bytes, and the stack area can be written, fits in 64 bits and has room for the
-- strings and pointers, then main runs x64emu_run from the state in which a process begins: RIP at
-- the entry, RDI, RSI and RDX with argc, argv and envp, and on the stack the counter, the pointers,
-- the auxiliary vector and the strings of the path, its arguments and the environment, in the order
-- and at the distances of the ABI, the alignment of RSP apart. Every field of the state is in the
-- range of its C type.
pub main-IsStarted :
    (world : World) (prefixes fuel : ℕ) (name path : List ℕ) (args envp : List (List ℕ))
    (mem mem' : Mem) (c d : Context)
    → x64context_init world.mapper
        (length (name ∷ path ∷ args))
        (name ∷ path ∷ args)
        envp
        zero_context
      ≡ (true, c)
    → elfloader_load (world.file path) c (world.with_stack c.stack.base stack_init_size mem)
      ≡ loaded d mem'
    → ((a : ℕ) → mem'.byte a < 256)
    → ((a : ℕ) → c.stack.base ≤ a → a < c.stack.base + stack_init_size → mem'.writable a ≡ true)
    → c.stack.base + stack_init_size < 2 ^ 64
    → string_bytes (path ∷ args) + string_bytes envp + 8 * (length args + 1 + length envp) + 254
      ≤ stack_init_size
    → (t : Emu) × (main world prefixes fuel (name ∷ path ∷ args) envp mem
        ≡ after_run world.os (x64emu_run world.os prefixes fuel t))
      × IsStarted world.host world.enoent (zero_emu world d mem') t
      × IsValid t
      × (d.argv ≡ path ∷ args)
      × (d.envv ≡ envp)
main-IsStarted world prefixes fuel name path args envp mem mem' c d init load bytes writable fits
      room =
    let ready = context-IsReady world.mapper name path args envp c (omega (arith, room)) init in
    let same : SameProcess c d = subst (KeepsProcess c) load (
      elfloader_load-KeepsProcess (world.file path) c
        (world.with_stack c.stack.base stack_init_size mem)) in
    let base_is : d.stack.base ≡ c.stack.base = ap (λ (a : StackArea). a.base) same.same_stack in
    let size_is : d.stack.size ≡ stack_init_size =
      ap (λ (a : StackArea). a.size) same.same_stack ∙ ready.size_is in
    let align_is : d.stack.align ≡ 16 =
      ap (λ (a : StackArea). a.align) same.same_stack ∙ ready.align_is in
    let argv_is = same.same_argv ∙ ready.argv_is in
    let envv_is = same.same_envv ∙ ready.envv_is in
    let argc_is : d.argc ≡ length args + 1 = same.same_argc ∙ ready.argc_is in
    let envc_is : d.envc ≡ length envp = same.same_envc ∙ ready.envc_is in
    let argv_len = ap length argv_is in
    let envv_len = ap length envv_is in
    let (t, run, started) =
      x64emu_init-IsStarted world.host world.enoent (zero_emu world d mem')
        (zero_emu-IsValid world d mem' bytes) (λ a le lt. writable a (omega arith) (omega arith))
        align_is (omega arith) (omega arith) (omega arith) (omega arith)
        (omega (arith, ap string_bytes argv_is, ap string_bytes envv_is)) in
    let valid = subst (After IsValid) run (
      x64emu_init-IsValid world.host world.enoent (zero_emu world d mem')
        (zero_emu-IsValid world d mem' bytes)) in
    (
      t,
      main-run world prefixes fuel name path args envp mem mem' c d t init load run,
      started,
      valid,
      argv_is,
      envv_is,
    )
