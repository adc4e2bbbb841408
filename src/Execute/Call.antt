-- ===== src/Execute/Call.antt =====
-- CALL rel32 (E8) and RET (C3h) of x64emu/execute.c.
use flux.Base.{ℕ, ◌+◌, ◌%◌, ◌^◌, ◌<◌, ◌≡◌, ◌∙◌, true, false, arith}
use mathlib.Core.Path.{ap, ap₂}
use flux.Word.{w32, w64, lane, sign_extend}
use flux.Machine.{Emu, ok, ◌>>=◌, load_le, all_allowed, rsp, load, store, set_reg, set_rip}
use flux.Instr.{Instr}
use flux.Stack.Laws.{below, with_rsp, stored, pushed, value, popped, still_readable}
use flux.Context.{Os}
use flux.Execute.{x64execute}

-- The two instructions, whatever else the decoder filled in.
abbrev pub call : Instr → Instr
call ins = record ins { opcode = 0xE8; address_sz = false }

abbrev pub ret : Instr → Instr
ret ins = record ins { opcode = 0xC3; address_sz = false }

-- `(int64_t)ins->imm.sd[0]`
abbrev pub rel32 : Instr → ℕ
rel32 ins = sign_extend w32 w64 (lane w32 0 ins.imm)

module _ (os : Os) (ins ins' : Instr) (s : Emu) where
  -- CALL pushes the address of the next instruction and moves RIP by the immediate.
  pub call-ok :
      all_allowed s.mem.writable (below w64 s) 8 ≡ true
      → x64execute os (call ins) s
        ≡ ok true (record (stored w64 (below w64 s) s.rip (with_rsp (below w64 s) s)) {
          rip = (s.rip + rel32 ins) % 2 ^ 64;
        })
  unfolding x64execute ◌>>=◌ store set_reg set_rip
  call-ok writable = rw writable

  -- RET pops RIP.
  pub ret-ok :
      all_allowed s.mem.readable (s.regs rsp) 8 ≡ true
      → x64execute os (ret ins') s
        ≡ ok true (record (with_rsp (s.regs rsp + 8) s) {
          rip = load_le s.mem.byte (s.regs rsp) 8 % 2 ^ 64;
        })
  unfolding x64execute ◌>>=◌ load set_reg set_rip
  ret-ok readable = rw readable

module _ (os : Os) (ins ins' : Instr) (s : Emu) (rsp_fits : s.regs rsp < 2 ^ 64)
    (rip_fits : s.rip < 2 ^ 64) (writable : all_allowed s.mem.writable (below w64 s) 8 ≡ true)
    (readable : all_allowed s.mem.readable (below w64 s) 8 ≡ true) where
  inside : Emu
  inside = record (pushed w64 s.rip s tt rsp_fits writable readable) {
    rip = (s.rip + rel32 ins) % 2 ^ 64;
  }

  returned : x64execute os (ret ins') inside ≡ ok true (stored w64 (below w64 s) s.rip s)
  unfolding inside
  returned =
      ret-ok os ins ins' inside (still_readable w64 s.rip s tt rsp_fits writable readable)
      ∙ ap₂ (λ (t : Emu) (r : ℕ). ok true (record t { rip = r % 2 ^ 64 }))
          (popped w64 s.rip s tt rsp_fits writable readable)
          (value w64 s.rip s tt rsp_fits writable readable)
      ∙ ap (λ (r : ℕ). ok true (record (stored w64 (below w64 s) s.rip s) { rip = r })) fits
    where
      fits : s.rip % 2 ^ 64 % 2 ^ 64 ≡ s.rip
      fits = omega arith

  -- CALL rel32 and a RET behind it, both without the address-size prefix, return with RIP at the
  -- instruction after the call and every register as before, and have stored only the return
  -- address below RSP, if RSP and RIP fit 64 bits and those 8 bytes can be written and read.
  pub ret-call :
      (x64execute os (call ins) >>= λ _. x64execute os (ret ins')) s
      ≡ ok true (stored w64 (below w64 s) s.rip s)
  unfolding ◌>>=◌ inside pushed
  ret-call = rw (call-ok os ins ins' s writable) returned
