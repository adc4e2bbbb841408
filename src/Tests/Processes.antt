-- ===== src/Tests/Processes.antt =====
-- Runs of an instruction, of the loop, and of the start of a process.
use flux.Base.{◌≡◌, refl, true, false, some, [], ◌∷◌, arith}
use flux.Word.{w64}
use flux.Machine.{Emu, Context, ok}
use flux.Machine.Valid.{IsValid}
use flux.Instr.{Instr, blank}
use flux.Context.Init.{stack_init_size, x64context_init}
use flux.Elf.{loaded, elfloader_load}
use flux.Stack.Setup.{x64emu_init}
use flux.Stack.Setup.Start.{IsStarted, x64emu_init-IsStarted}
use flux.Execute.{x64execute, x64emu_run}
use flux.Isa.{Mnemonic, Form, register}
use flux.Isa.Encoding.{form, effective_address}
use flux.Isa.Meaning.{Performs}
use flux.Isa.Refines.{x64execute-Performs}
use flux.Main.{World, zero_context, zero_emu, after_run, main}
use flux.Main.Start.{main-IsStarted}
use flux.Tests.State.{quiet, machine, plain_regs, machine-IsValid}
use flux.Tests.Setups.{host, mapper, arguments, one_argument}
use flux.Tests.Loads.{file, memory}

-- ADD [RDI + 8], RCX.
abbrev add_memory : Instr
add_memory = record blank { opcode = 0x01; rex = 0x48; modrm = 0x4F; displ = 8 }

abbrev add_form : Form
add_form = record {
  op = Mnemonic.add;
  width = w64;
  dest = flux.Isa.memory 0x5008;
  source = register 1;
}

add_memory-form : form add_memory (machine [] plain_regs) ≡ some add_form
unfolding form effective_address
add_memory-form = refl

x64execute-Performs_example :
    Performs add_form (machine [] plain_regs) (x64execute quiet add_memory (machine [] plain_regs))
x64execute-Performs_example =
    x64execute-Performs quiet add_memory (machine [] plain_regs) add_form add_memory-form
      (machine-IsValid []) refl tt tt (λ e. tt) tt

one_argument-IsValid : IsValid one_argument
one_argument-IsValid = record {
  regs_fit = (machine-IsValid []).regs_fit;
  rip_fits = (machine-IsValid []).rip_fits;
  flags_fit = (machine-IsValid []).flags_fit;
  mmx_fit = (machine-IsValid []).mmx_fit;
  xmm_fit = (machine-IsValid []).xmm_fit;
  mem_fits = (machine-IsValid []).mem_fits;
}

x64emu_init-IsStarted_example :
    (t : Emu) × (x64emu_init host false one_argument ≡ ok true t)
    × IsStarted host false one_argument t
x64emu_init-IsStarted_example =
    x64emu_init-IsStarted host false one_argument one_argument-IsValid (λ a le lt. refl) refl
      (omega arith) refl refl (omega arith) (omega arith)

abbrev world : World
world = record {
  os = quiet;
  mapper = mapper;
  file = λ path. file;
  host = host;
  with_stack = λ a size mem. mem;
  regs_at = 0x9000;
  enoent = false;
}

abbrev context : Context
context = record zero_context {
  stack = record { base = 123144228569088; size = stack_init_size; align = 16 };
  argc = 1;
  argv = (0x61 ∷ []) ∷ [];
  page_size = 0x1000;
}

world-context : x64context_init mapper 2 arguments [] zero_context ≡ (true, context)
unfolding x64context_init
world-context = refl

abbrev loaded_context : Context
loaded_context = record context {
  entry = 0x401020;
  segments = record { base = 0x401000; size = 0x500 } ∷ [];
}

world-loaded : elfloader_load file context memory ≡ loaded loaded_context memory
unfolding elfloader_load
world-loaded = refl

main-IsStarted_example :
    (t : Emu) × (main world 15 100 arguments [] memory
      ≡ after_run quiet (x64emu_run quiet 15 100 t))
    × IsStarted host false (zero_emu world loaded_context memory) t
    × IsValid t
    × (loaded_context.argv ≡ (0x61 ∷ []) ∷ [])
    × (loaded_context.envv ≡ [])
main-IsStarted_example =
    main-IsStarted world 15 100 (0x66 ∷ []) (0x61 ∷ []) [] [] memory memory context loaded_context
      world-context world-loaded (machine-IsValid []).mem_fits (λ a le lt. refl) (omega arith)
      (omega arith)
