-- ===== src/Tests/State.antt =====
-- The states that the tests run on: a small address space, and a kernel that answers every call.
use flux.Base.{ℕ, ◌+◌, ◌<◌, ◌%◌, true, ◌==◌, if◌then◌else◌, List, [], ◌∷◌, arith}
use flux.Machine.{Emu, Context, rsp, rcx, rdi}
use flux.Machine.Valid.{IsValid}
use flux.Context.{Os}

abbrev pub quiet : Os
quiet = record { write = λ fd buf count mem. (count, 0); munmap = λ base size. true }

abbrev pub small_context : Context
small_context = record {
  entry = 0x1000;
  stack = record { base = 0x7000; size = 0x1000; align = 16 };
  segments = record { base = 0x1000; size = 0x1000 } ∷ [];
  argc = 0;
  argv = [];
  envc = 0;
  envv = [];
  page_size = 0x1000;
}

-- Memory that starts with the bytes at hand, with zeros behind them.
abbrev pub code : List ℕ → ℕ → ℕ → ℕ
code [] base a = 0
code (b ∷ rest) base a = if a == base then b % 256 else code rest (base + 1) a

abbrev pub machine : List ℕ → (ℕ → ℕ) → Emu
machine program regs = record {
  ctx = small_context;
  regs = regs;
  rip = 0x1000;
  flags = 0x246;
  mmx = λ i. 0;
  xmm = λ i. 0;
  mem = record { byte = code program 0x1000; readable = λ a. true; writable = λ a. true };
  regs_at = 0x9000;
}

abbrev pub plain_regs : ℕ → ℕ
plain_regs i = if i == rsp then 0x8000 else if i == rcx then 3 else if i == rdi then 0x5000 else 1

code-lt : (program : List ℕ) (base a : ℕ) → code program base a < 256
code-lt [] base a = omega arith
code-lt (b ∷ rest) base a = ground (arith, code-lt rest (base + 1) a)

pub machine-IsValid : (program : List ℕ) → IsValid (machine program plain_regs)
machine-IsValid program = record {
  regs_fit = λ i. ground arith;
  rip_fits = omega arith;
  flags_fit = omega arith;
  mmx_fit = λ i. omega arith;
  xmm_fit = λ i. omega arith;
  mem_fits = code-lt program 0x1000;
}
