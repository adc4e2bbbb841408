-- ===== src/Tests/Programs.antt =====
-- Runs of instructions, of the decoder and of the system calls.
use flux.Base.{ℕ, ◌≡◌, refl, true, ◌==◌, if◌then◌else◌, List, [], ◌∷◌, arith, get_bit}
use flux.Word.{w8, w64, trunc}
use flux.Machine.{Emu, ok, ◌>>=◌, all_allowed, set_flags, rax, rcx, rdi, r11, reg, sub_reg}
use flux.Machine.Flags.{direction, flag}
use flux.Machine.Keeps.{After}
use flux.Machine.Valid.{IsValid}
use flux.Instr.{Instr, blank}
use flux.Decode.{decode_prefixes, x64decode}
use flux.Decode.Frame.{MovedFrom, x64decode-MovedFrom}
use flux.Decode.Fuel.{Returns, decode_prefixes-Returns}
use flux.Stack.{push, pop}
use flux.Stack.Laws.{below, stored, pop-push}
use flux.Context.{x64context_free}
use flux.Context.Laws.{all_unmap, mapped, x64context_free-mapped, x64context_free-twice}
use flux.Syscall.{x64syscall}
use flux.Syscall.Laws.{kernel_result, written_to, x64syscall-write}
use flux.Execute.{x64execute, x64emu_run}
use flux.Execute.Call.{call, ret, ret-call}
use flux.Execute.Fill.{filled, rep_prefixed, stos-filled}
use flux.Execute.FlagMoves.{sahf-lahf, popf-pushf}
use flux.Execute.FlagOps.{lahf, sahf, pushf, popf}
use flux.Execute.High.{stos}
use flux.Execute.Valid.{x64execute-IsValid, x64emu_run-IsValid}
use flux.Tests.State.{quiet, small_context, machine, plain_regs, machine-IsValid}

-- `mov ecx, 5; rep stosb; jmp -4`
abbrev program : List ℕ
program = 0xB9 ∷ 5 ∷ 0 ∷ 0 ∷ 0 ∷ 0xF3 ∷ 0xAA ∷ 0xEB ∷ 0xFC ∷ []

abbrev start : Emu
start = machine program plain_regs

x64emu_run-IsValid_example : After IsValid (x64emu_run quiet 15 3 start)
x64emu_run-IsValid_example = x64emu_run-IsValid quiet 15 3 start (machine-IsValid program)

-- `xchg eax, ecx`
abbrev exchange : Instr
exchange = record blank { opcode = 0x91 }

x64execute-IsValid_example : After IsValid (x64execute quiet exchange start)
x64execute-IsValid_example = x64execute-IsValid quiet exchange start (machine-IsValid program)

allowed_8 : (a : ℕ) → all_allowed (λ b. true) a 8 ≡ true
unfolding all_allowed
allowed_8 a = refl

ret-call_example :
    (x64execute quiet (call blank) >>= λ _. x64execute quiet (ret blank)) start
    ≡ ok true (stored w64 (below w64 start) start.rip start)
ret-call_example =
    ret-call quiet blank blank start (omega arith) (omega arith) (allowed_8 _) (allowed_8 _)

pop-push_example :
    (push w64 7 >>= λ _. pop w64) start ≡ ok (trunc w64 7) (stored w64 (below w64 start) 7 start)
pop-push_example = pop-push w64 7 start tt (omega arith) (allowed_8 _) (allowed_8 _)

carry_mask : get_bit 0 0xD5 ≡ 1
unfolding get_bit
carry_mask = refl

sahf-lahf_example :
    (t : Emu) × ((lahf blank >>= λ _. set_flags 0x7 >>= λ _. sahf blank) start ≡ ok true t)
    × (get_bit 0 t.flags ≡ get_bit 0 start.flags)
sahf-lahf_example = sahf-lahf blank start 0x7 0 carry_mask

direction_mask : get_bit 10 0x244FD5 ≡ 1
unfolding get_bit
direction_mask = refl

popf-pushf_example :
    (t : Emu) × ((pushf blank >>= λ _. set_flags 0x400 >>= λ _. popf blank) start ≡ ok true t)
    × (get_bit 10 t.flags ≡ get_bit 10 start.flags)
popf-pushf_example =
    popf-pushf blank start 0x400 10 direction_mask refl (omega arith) (allowed_8 _) (allowed_8 _)

stos-filled_example :
    (t : Emu) × (stos (rep_prefixed blank) w8 start ≡ ok true t)
    × (t.regs rcx ≡ 0)
    × (t.regs rdi ≡ start.regs rdi)
    × (t.mem.byte
        ≡ filled
            (flag direction start.flags)
            w8
            (sub_reg w8 0 rax start)
            (reg rdi start)
            (start.regs rcx)
            start.mem.byte)
stos-filled_example = stos-filled blank w8 start (λ a. refl) (omega arith)

-- Two operand-size prefixes before `nop`.
abbrev prefixed : Emu
prefixed = machine (0x66 ∷ 0x66 ∷ 0x90 ∷ []) plain_regs

allowed_4 : (a : ℕ) → all_allowed (λ b. true) a 4 ≡ true
unfolding all_allowed
allowed_4 a = refl

decode_prefixes-Returns_example : Returns (decode_prefixes 3 blank) prefixed
decode_prefixes-Returns_example =
    decode_prefixes-Returns 2 3 blank prefixed (omega arith) (allowed_4 _) refl

x64decode-MovedFrom_example : After (MovedFrom start) (x64decode 15 blank start)
x64decode-MovedFrom_example = x64decode-MovedFrom 15 blank start

abbrev writing : Emu
writing = machine [] λ i. if i == rax then 1 else 0

x64syscall-write_example :
    (t : Emu) × (x64syscall quiet writing ≡ ok true t)
    × (t.regs rax ≡ kernel_result (written_to quiet writing))
    × (t.regs rcx ≡ writing.rip)
    × (t.regs r11 ≡ writing.flags)
    × (t.flags ≡ 0)
x64syscall-write_example =
    x64syscall-write quiet writing refl (omega arith) (omega arith) (omega arith) (omega arith)

x64context_free-mapped_example :
    ((x64context_free quiet small_context).unmapped ≡ mapped small_context)
    × ((x64context_free quiet small_context).ret ≡ all_unmap quiet (mapped small_context))
x64context_free-mapped_example = x64context_free-mapped quiet small_context

freed : (x64context_free quiet small_context).ret ≡ true
unfolding x64context_free
freed = refl

x64context_free-twice_example :
    ((x64context_free quiet ((x64context_free quiet small_context).ctx)).unmapped ≡ [])
    × ((x64context_free quiet ((x64context_free quiet small_context).ctx)).ret ≡ true)
x64context_free-twice_example = x64context_free-twice quiet small_context freed
