-- ===== src/Execute/Fill.antt =====
-- REP STOS (AA and AB under a REP prefix) of x64emu/execute.c.
use flux.Base.{
  ℕ, zero, suc, ◌+◌, ◌-◌, ◌%◌, ◌^◌, ◌<◌, ◌≡◌, refl, ◌∙◌, Bool, true, false, if◌then◌else◌, arith,
}
use flux.Word.{Width, w64, bytes, lane, set_lane}
use flux.Machine.{
  Emu, ok, ◌>>=◌, pure, store, store_le, update, set_reg, sub_reg, rcx, rax, rdi, reg,
}
use flux.Machine.Memory.{all_allowed-all}
use flux.Machine.Flags.{direction, flag}
use flux.Instr.{Instr}
use flux.Execute.High.{rep_loop, op_mov_rep, stos}

-- The address of the next element.
abbrev advance : Bool → Width → ℕ → ℕ
advance down w a = (if down then a + 2 ^ 64 - bytes w else a + bytes w) % 2 ^ 64

-- The memory with `v` written to `n` elements from `a` on.
abbrev pub filled : Bool → Width → ℕ → ℕ → ℕ → (ℕ → ℕ) → ℕ → ℕ
filled down w v a zero byte = byte
filled down w v a (suc n) byte = filled down w v (advance down w a) n (store_le byte a (bytes w) v)

module _ (w : Width) (v : ℕ) where
  -- The state after one element.
  abbrev after_one : ℕ → Emu → Emu
  after_one a s = record s {
    regs = update s.regs rcx (set_lane w64 0 (lane w64 0 (s.regs rcx) + 2 ^ 64 - 1) (s.regs rcx));
    mem = record (s.mem) { byte = store_le s.mem.byte a (bytes w) v };
  }

  rep_loop-suc :
      (n a : ℕ) (s : Emu)
      → ((b : ℕ) → s.mem.writable b ≡ true)
      → rep_loop (suc n) w64 w a v s
        ≡ rep_loop n w64 w (advance (flag direction s.flags) w a) v (after_one a s)
  unfolding rep_loop ◌>>=◌ store set_reg
  rep_loop-suc n a s h = rw (all_allowed-all s.mem.writable a (bytes w) h) refl

  counted : (n c : ℕ) → c ≡ suc n → c < 2 ^ 64 → set_lane w64 0 (lane w64 0 c + 2 ^ 64 - 1) c ≡ n
  unfolding set_lane lane
  counted n c e h = omega arith

  rep_loop-filled :
      (n a : ℕ) (s : Emu)
      → ((b : ℕ) → s.mem.writable b ≡ true)
      → s.regs rcx ≡ n
      → n < 2 ^ 64
      → (t : Emu) × (rep_loop n w64 w a v s ≡ ok tt t)
        × (t.regs rcx ≡ 0)
        × (t.regs rdi ≡ s.regs rdi)
        × (t.mem.byte ≡ filled (flag direction s.flags) w v a n s.mem.byte)
  unfolding rep_loop pure
  rep_loop-filled zero a s h e lt = (s, refl, e, refl, refl)
  rep_loop-filled (suc n) a s h e lt =
      let (t, run, done, same, bytes) =
        rep_loop-filled n (advance (flag direction s.flags) w a) (after_one a s) h
          (counted n (s.regs rcx) e (omega arith)) (omega arith) in
      (t, rep_loop-suc n a s h ∙ run, done, same, bytes)

-- STOS with a REP prefix and 64-bit addresses.
abbrev pub rep_prefixed : Instr → Instr
rep_prefixed ins = record ins { rep = 0xF3; address_sz = false }

-- REP STOS with 64-bit addresses, over memory that can all be written, returns with RCX at 0 and
-- as many elements as RCX held set to the accumulator, up or down from RDI as DF says; RDI does
-- not change.
pub stos-filled :
    (ins : Instr) (w : Width) (s : Emu)
    → ((a : ℕ) → s.mem.writable a ≡ true)
    → s.regs rcx < 2 ^ 64
    → (t : Emu) × (stos (rep_prefixed ins) w s ≡ ok true t)
      × (t.regs rcx ≡ 0)
      × (t.regs rdi ≡ s.regs rdi)
      × (t.mem.byte
          ≡ filled
              (flag direction s.flags)
              w
              (sub_reg w 0 rax s)
              (reg rdi s)
              (s.regs rcx)
              s.mem.byte)
unfolding stos op_mov_rep ◌>>=◌ pure
stos-filled ins w s h lt =
    let (t, run, done, same, bytes) =
      rep_loop-filled w (sub_reg w 0 rax s) (s.regs rcx) (reg rdi s) s h refl lt in
    (t, rw run refl, done, same, bytes)
