-- ===== src/Tests/Setups.antt =====
-- Runs of the set-up, and of the interleaves.
use flux.Base.{
  ℕ, ◌+◌, ◌*◌, ◌%◌, ◌≡◌, refl, true, false, ◌==◌, if◌then◌else◌, none, some, List, [], ◌∷◌, arith,
}
use flux.Word.{w8, w32, lane}
use flux.Machine.{Emu, Context, ok, rsp}
use flux.Modrm.{xmm}
use flux.Stack.Setup.{Host, x64stack_setup}
use flux.Stack.Setup.Rsp.{x64stack_setup-rsp}
use flux.Context.{x64stack_free}
use flux.Context.Init.{
  Mapper, stack_init_size, x64stack_init, x64context_init, x64context_init-counts,
  x64stack_free-init, stack_hint,
}
use flux.Execute.Sse.{interleave_high, interleave_low}
use flux.Execute.Interleave.{interleave_high-lane, interleave_low-lane}
use flux.Tests.State.{quiet, small_context, machine, plain_regs}

abbrev pub host : Host
host = record { getauxval = λ t. if t == 23 then none else some t; random = λ i. 4 }

abbrev pub one_argument : Emu
one_argument = record (machine [] plain_regs) {
  ctx = record small_context { argc = 1; argv = (0x61 ∷ []) ∷ [] };
}

x64stack_setup-rsp_example :
    (t : Emu) × (x64stack_setup host false one_argument ≡ ok tt t)
    × ((t.regs rsp % 16 == 0) ≡ ((1 + 0) % 2 == 1))
x64stack_setup-rsp_example =
    x64stack_setup-rsp host false one_argument (λ a. refl) (omega arith) refl (omega arith)
      (omega arith) (omega arith)

abbrev pub mapper : Mapper
mapper = record {
  mmap = λ hint size. some hint;
  maps = some (some (0x400000, 0x401000) ∷ none ∷ some (0x7FFE00000000, 0x7FFF00000000) ∷ []);
  page_size = 0x1000;
}

abbrev pub arguments : List (List ℕ)
arguments = (0x66 ∷ []) ∷ (0x61 ∷ []) ∷ []

abbrev initialised : Context
initialised = record small_context {
  stack = record { base = 123144228569088; size = stack_init_size; align = 16 };
  argc = 1;
  argv = (0x61 ∷ []) ∷ [];
}

initialised-eq : x64context_init mapper 2 arguments [] small_context ≡ (true, initialised)
unfolding x64context_init
initialised-eq = refl

x64context_init-counts_example :
    (initialised.argc ≡ 1)
    × (initialised.argv ≡ (0x61 ∷ []) ∷ [])
    × (initialised.envc ≡ 0)
    × (initialised.envv ≡ [])
    × (initialised.page_size ≡ mapper.page_size)
    × ((base : ℕ) × (mapper.mmap (stack_hint mapper) stack_init_size ≡ some base)
        × (initialised.stack ≡ record { base = base; size = stack_init_size; align = 16 }))
x64context_init-counts_example =
    x64context_init-counts mapper 2 (0x66 ∷ []) ((0x61 ∷ []) ∷ []) [] small_context initialised refl
      (omega arith) initialised-eq

x64stack_free-init_example :
    (x64stack_free quiet (x64stack_init mapper small_context).1).unmapped
    ≡ record { base = stack_hint mapper; size = stack_init_size } ∷ []
x64stack_free-init_example =
    x64stack_free-init mapper quiet small_context (some (stack_hint mapper)) refl

abbrev two_words : Emu
two_words = record (machine [] plain_regs) {
  xmm = λ i. if i == 0 then 0x0706050403020100 else 0x1716151413121110;
}

interleave_high-lane_example :
    (t : Emu) × (interleave_high w8 4 (xmm 0) (xmm 1) two_words ≡ ok tt t)
    × (lane w8 (2 * 2) (t.xmm 0) ≡ lane w8 (2 + 4) (two_words.xmm 0))
    × (lane w8 (2 * 2 + 1) (t.xmm 0) ≡ lane w8 (2 + 4) (two_words.xmm 1))
    × (t.xmm 1 ≡ two_words.xmm 1)
interleave_high-lane_example = interleave_high-lane w8 4 0 1 2 two_words refl (omega arith)

interleave_low-lane_example :
    (t : Emu) × (interleave_low w32 2 (xmm 0) (xmm 1) two_words ≡ ok tt t)
    × (lane w32 0 (t.xmm 0) ≡ lane w32 0 (two_words.xmm 0))
    × (lane w32 1 (t.xmm 0) ≡ lane w32 0 (two_words.xmm 1))
    × (lane w32 2 (t.xmm 0) ≡ lane w32 0 (two_words.xmm 1))
    × (lane w32 3 (t.xmm 0) ≡ lane w32 1 (two_words.xmm 1))
interleave_low-lane_example = interleave_low-lane 0 1 two_words refl
