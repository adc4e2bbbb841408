-- ===== src/Lib.antt =====
-- Verification of flux64, a user-mode emulator of x86-64: the emulated processor.
--
-- The program maps an ELF file into its own address space (src/elfloader), builds a stack
-- (src/x64emu/stack.c), and runs a loop (src/x64emu/emu.c) that decodes an instruction
-- (src/x64emu/decode.c, decode_0f.c, modrm.c) and executes it (src/x64emu/execute.c, execute_0f.c
-- with the macros of execute_private.h) on `x64emu_t`, the registers. A SYSCALL goes to
-- src/x64emu/syscall.c, which answers two calls and at the exit releases what is mapped
-- (src/x64emu/context.c).
--
-- Files, each with the code that it models:
--   Base, Word: bits, machine words of 8 to 128 bits, and the members of the register unions.
--   Machine: `x64emu_t` and the memory it shares with the guest, RFLAGS, and the type `M` of a
--     function on them, which returns, ends the process or faults. Machine.Keeps has the rules for
--     an invariant, Machine.Valid the invariant that every field is in the range of its C type.
--   Instr, Decode, Modrm: `x64instr_t`, `x64decode`, `x64decode_0f`, and modrm.c. Decode.Opcodes
--     has the opcode maps of the architecture and Decode.Format the bytes of an instruction by them,
--     both without a definition of the decoder; Decode.Agreement compares the two switches of the
--     decoder with the maps, and Decode.Roundtrip the decoder with the format.
--   Alu, Shift, Cond: the `OP_*` macros of execute_private.h and `x64execute_jmp_cond`.
--   Place: reads and writes through an operand pointer, which is a register or an address.
--   Stack: `push_N` and `pop_N` of stack_private.h. Stack.Setup: the rest of it, `x64stack_setup` of
--     stack.c and `x64emu_init` of emu.c, with theorems in its children; Stack.Setup.Layout
--     describes the stack of a new process by the ABI.
--   Execute: `x64execute` in pieces (Operands: the operand macros; Groups: the opcodes that
--     ModR/M.reg extends; FlagOps: the instructions on RFLAGS; Low and High: the other cases; Sse and
--     TwoByte: `x64execute_0f`), `x64emu_run`, and theorems (Valid, Call, Fill, FlagMoves,
--     Interleave, Run, on the loop without a bound, and Exit).
--   Isa: what the architecture asks of ADD, OR, ADC, SBB, AND, SUB, XOR, CMP, TEST, INC and DEC
--     (Encoding: the operands that the bytes name; Meaning: results, flags and memory), a
--     description without the definitions of the executor, to which Refines holds the executor, and
--     Step a pass of the loop from the bytes in memory on.
--   Context, Syscall: `x64context_free`, `x64stack_free` and `x64syscall`; the kernel is the
--     parameter `Os`. Context.Init: `x64context_init`, `x64stack_init` and, of
--     src/platform/virtual.c, `detect_48bit_va`.
--   Elf: `check_elf_header`, `load_program_headers` and `elfloader_load` of
--     src/elfloader/elfloader.c; the file and the kernel are the parameter `File`.
--   Main: `main` of src/main.c; what the process runs on is the parameter `World`.
--   Tests: concrete runs.
--
-- Conventions:
--   A value of a signed or unsigned type is its bit pattern, a number below 2 ^ w. Signed sums and
--   differences wrap at each width, as the code relies on; C itself defines that for the unsigned
--   types only. A shift by the width of the promoted operand or more, or to the left
--   past the range of a promoted `int`, is an effect of its own, `undefined`, and so is an access
--   that the memory does not allow. The `memset` of the loader crashes there, as a result `crashed`.
--   What `fread`, `mmap` and `mprotect` do to the memory is the parameter's.
--   The `argc` of `main` is the length of `argv`.
--   The structures of the emulator do not overlap the memory that the guest uses, which lies in
--   the same process. A NULL operand pointer is the address 0.
--   `op & 7` and `op & 0xF` are written as remainders.
--   `decode_prefixes` and `x64emu_run` are recursions on fuel. For the first, more fuel than there
--   are legacy prefixes is enough (Decode.Fuel). The second runs for ever on a guest that does:
--   what is shown of it holds for every fuel or for all from some number on, and
--   Execute.Run relates it to the loop without a bound. The loop of a REP prefix is a recursion on
--   the counter that it counts down.
--   A fetch is that of a build without HAVE_TRACE.
--
-- Not modelled: `dump_self_maps`, logging, and the trace of a debug build. What
-- `munmap` does to the memory is not tracked, since the process ends.
pub mod Base
pub mod Word
pub mod Instr
pub mod Modrm
pub mod Decode
pub mod Alu
pub mod Shift
pub mod Cond
pub mod Place
pub mod Stack
pub mod Context
pub mod Syscall
pub mod Execute
pub mod Machine
pub mod Tests
pub mod Elf
pub mod Isa
pub mod Main
