-- ===== src/Stack/Laws.antt =====
-- `push_N` and `pop_N` of x64emu/stack_private.h together.
use flux.Base.{ℕ, ◌+◌, ◌-◌, ◌%◌, ◌^◌, ◌<◌, ◌≡◌, ◌∙◌, true, arith}
use mathlib.Core.Path.{ap₂, fun_ext}
use flux.Word.{Width, w8, w16, w32, w64, w128, bytes, trunc, set_lane, IsWord}
use flux.Machine.{Emu, ok, ◌>>=◌, load, store, load_le, store_le, all_allowed, update, set_reg, rsp}
use flux.Machine.Memory.{load-store_word}
use flux.Stack.{push, pop}

-- The stack pointer after a push.
abbrev pub below : Width → Emu → ℕ
below w s = (s.regs rsp + 2 ^ 64 - bytes w) % 2 ^ 64

abbrev pub with_rsp : ℕ → Emu → Emu
with_rsp v s = record s { regs = update s.regs rsp (set_lane w64 0 v (s.regs rsp)) }

abbrev pub stored : Width → ℕ → ℕ → Emu → Emu
stored w a v s = record s { mem = record (s.mem) { byte = store_le s.mem.byte a (bytes w) v } }

pub push-ok :
    (w : Width) (v : ℕ) (s : Emu)
    → all_allowed s.mem.writable (below w s) (bytes w) ≡ true
    → push w v s ≡ ok tt (stored w (below w s) v (with_rsp (below w s) s))
unfolding push ◌>>=◌ store set_reg
push-ok w v s h = rw h

pub pop-ok :
    (w : Width) (s : Emu)
    → all_allowed s.mem.readable (s.regs rsp) (bytes w) ≡ true
    → pop w s ≡ ok (load_le s.mem.byte (s.regs rsp) (bytes w)) (with_rsp (s.regs rsp + bytes w) s)
unfolding pop ◌>>=◌ load set_reg
pop-ok w s h = rw h

-- An assignment to all 64 bits.
pub set_lane_full : (x v : ℕ) → v < 2 ^ 64 → set_lane w64 0 x v ≡ x % 2 ^ 64
unfolding set_lane
set_lane_full x v hv = omega arith

update_back : (f : ℕ → ℕ) (i a b : ℕ) → b ≡ f i → update (update f i a) i b ≡ f
update_back f i a b e = fun_ext λ j. ground arith

back :
    (w : Width) (sp : ℕ) → sp < 2 ^ 64 → ((sp + 2 ^ 64 - bytes w) % 2 ^ 64 + bytes w) % 2 ^ 64 ≡ sp
back w8 sp h = omega arith
back w16 sp h = omega arith
back w32 sp h = omega arith
back w64 sp h = omega arith
back w128 sp h = omega arith

module _ (w : Width) (v : ℕ) (s : Emu) (word : IsWord w) (fits : s.regs rsp < 2 ^ 64)
    (writable : all_allowed s.mem.writable (below w s) (bytes w) ≡ true)
    (readable : all_allowed s.mem.readable (below w s) (bytes w) ≡ true) where
  unfoldable pub pushed : Emu
  pushed = stored w (below w s) v (with_rsp (below w s) s)

  pushed_rsp : pushed.regs rsp ≡ below w s
  unfolding pushed
  pushed_rsp = set_lane_full (below w s) (s.regs rsp) fits ∙ omega arith

  pub value : load_le pushed.mem.byte (pushed.regs rsp) (bytes w) ≡ trunc w v
  value =
      rw pushed_rsp (unfold pushed in load-store_word s.mem.byte w (below w s) v word (omega arith))

  rsp_back : set_lane w64 0 (pushed.regs rsp + bytes w) (pushed.regs rsp) ≡ s.regs rsp
  rsp_back =
      rw pushed_rsp
        (set_lane_full (below w s + bytes w) (below w s) (omega arith) ∙ back w (s.regs rsp) fits)

  pub popped : with_rsp (pushed.regs rsp + bytes w) pushed ≡ stored w (below w s) v s
  unfolding pushed
  popped = λ i. record (stored w (below w s) v s) { regs = regs_back i }
    where
      regs_back :
          update pushed.regs rsp (set_lane w64 0 (pushed.regs rsp + bytes w) (pushed.regs rsp))
          ≡ s.regs
      regs_back =
          unfold pushed in
          update_back s.regs rsp (set_lane w64 0 (below w s) (s.regs rsp)) _ rsp_back

  pub still_readable : all_allowed pushed.mem.readable (pushed.regs rsp) (bytes w) ≡ true
  still_readable = rw pushed_rsp (unfold pushed in readable)

  -- A push of 8 to 64 bits and the pop behind it return the value cut to the width, and leave the
  -- machine as it was but for the bytes stored below RSP, if RSP fits 64 bits and those bytes can
  -- be written and read.
  pub pop-push : (push w v >>= λ _. pop w) s ≡ ok (trunc w v) (stored w (below w s) v s)
  unfolding ◌>>=◌ pushed
  pop-push = rw (push-ok w v s writable) after
    where
      after : pop w pushed ≡ ok (trunc w v) (stored w (below w s) v s)
      after = pop-ok w pushed still_readable ∙ ap₂ ok value popped
