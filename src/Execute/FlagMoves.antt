-- ===== src/Execute/FlagMoves.antt =====
-- LAHF and SAHF, PUSHF and POPF of x64emu/execute.c.
use flux.Base.{
  ℕ, ◌+◌, ◌*◌, ◌/◌, ◌%◌, ◌^◌, ◌≤◌, ◌<◌, ◌≡◌, refl, ap, ◌∙◌, true, false, ◌||◌, ◌==◌, ltb, arith,
  get_bit, get_bit-lt, get_bit-high, get_bit-low, get_bit-mod, get_bit-bit_and, get_bit-bit_or,
  bit_and, bit_or, all_pass, all_pass_at, Bool-cases, inl, inr, ltb→lt,
}
use flux.Word.{w8, w32, w64, lane, set_lane}
use flux.Word.Lanes.{lane-set_lane}
use flux.Machine.{Emu, ok, ◌>>=◌, pure, all_allowed, set_reg, set_flags, rax, rsp, load_le}
use flux.Instr.{Instr}
use flux.Stack.Laws.{below, with_rsp, stored, push-ok, pop-ok, pushed, value, still_readable}
use flux.Execute.FlagOps.{set_eflags, lahf, sahf, pushf, popf}

-- `r_eflags = v` sets the low bits of RFLAGS.
get_bit-eflags : (i v f : ℕ) → i < 32 → get_bit i (set_lane w32 0 v f % 2 ^ 64) ≡ get_bit i v
unfolding set_lane
get_bit-eflags i v f h =
    get_bit-mod i 64 (f / 2 ^ 32 * 2 ^ 32 + v % 2 ^ 32) (omega arith)
    ∙ get_bit-low i 32 (f / 2 ^ 32) v h

-- A mask picks the bits of `y`, and another, without them, those of `x`.
picked :
    (i x y keep mask : ℕ)
    → get_bit i keep ≡ 0
    → get_bit i mask ≡ 1
    → get_bit i (bit_or (bit_and x keep) (bit_and y mask)) ≡ get_bit i y
picked i x y keep mask h k = omega (
  arith,
  h,
  k,
  get_bit-lt i y,
  get_bit-bit_or i (bit_and x keep) (bit_and y mask),
  get_bit-bit_and i x keep,
  get_bit-bit_and i y mask,
)

-- At each bit of `mask`, a word of `n` bits, `other` has the bit `c`.
over_mask :
    (n other c mask i : ℕ)
    → all_pass (λ i. get_bit i mask == 0 || get_bit i other == c) n ≡ true
    → mask < 2 ^ n
    → get_bit i mask ≡ 1
    → (i < n) × (get_bit i other ≡ c)
over_mask n other c mask i h lt one = (inside, apart)
  where
    le : ltb i n ≡ false → n ≤ i
    le h = ground arith

    inside : i < n
    inside = elim (Bool-cases (ltb i n)) [
      | inl below_n ↦ ltb→lt i n below_n
      | inr above ↦ absurd (omega (arith, one, get_bit-high i n mask lt (le above)))
    ]

    apart : get_bit i other ≡ c
    apart =
        ground
          (arith, all_pass_at (λ i. get_bit i mask == 0 || get_bit i other == c) n i inside h, one)

module _ (ins : Instr) (s : Emu) (flags' : ℕ) where
  -- LAHF and then SAHF, whatever was assigned to RFLAGS between, return with SF, ZF, AF, PF and CF
  -- as before.
  pub sahf-lahf :
      (i : ℕ)
      → get_bit i 0xD5 ≡ 1
      → (t : Emu) × ((lahf ins >>= λ _. set_flags flags' >>= λ _. sahf ins) s ≡ ok true t)
        × (get_bit i t.flags ≡ get_bit i s.flags)
  unfolding ◌>>=◌ lahf sahf set_eflags set_flags set_reg pure all_pass get_bit lane
  sahf-lahf i one = (
    _,
    refl,
    get_bit-eflags i _ _ (omega (arith, inside))
        ∙ picked i _ _ 0xFFFFFF2A 0xD5 ((over_mask 8 0xFFFFFF2A 0 0xD5 i refl (omega arith) one).1)
            one
        ∙ ap (get_bit i) (lane-set_lane w8 1 1 _ (s.regs rax))
        ∙ get_bit-mod i 8 _ inside
        ∙ with_two
        ∙ get_bit-mod i 8 _ inside
        ∙ get_bit-mod i 32 s.flags (omega (arith, inside)),
  )
    where
      inside : i < 8
      inside = (over_mask 8 2 0 0xD5 i refl (omega arith) one).0

      with_two :
          get_bit i (bit_or (bit_and (s.flags % 2 ^ 32 % 2 ^ 8) 0xD5) 2)
          ≡ get_bit i (s.flags % 2 ^ 32 % 2 ^ 8)
      with_two = omega (
        arith,
        one,
        (over_mask 8 2 0 0xD5 i refl (omega arith) one).1,
        get_bit-lt i (s.flags % 2 ^ 32 % 2 ^ 8),
        get_bit-bit_or i (bit_and (s.flags % 2 ^ 32 % 2 ^ 8) 0xD5) 2,
        get_bit-bit_and i (s.flags % 2 ^ 32 % 2 ^ 8) 0xD5,
      )

  -- RFLAGS after POPF of `v`.
  abbrev popped_flags : ℕ → ℕ → ℕ
  popped_flags v f =
      set_lane w32 0 (bit_or (bit_and (lane w32 0 f) 0xFFDAB02A) (bit_and (v % 2 ^ 32) 0x244FD5)) f
      % 2 ^ 64

  popf-ok :
      (u : Emu)
      → ins.operand_sz ≡ false
      → all_allowed u.mem.readable (u.regs rsp) 8 ≡ true
      → popf ins u
        ≡ ok true (record (with_rsp (u.regs rsp + 8) u) {
          flags = popped_flags (load_le u.mem.byte (u.regs rsp) 8) u.flags;
        })
  unfolding popf ◌>>=◌ set_eflags set_flags pure
  popf-ok u wide readable = rw (wide, pop-ok w64 u readable) refl

  pushf-ok :
      ins.operand_sz ≡ false
      → all_allowed s.mem.writable (below w64 s) 8 ≡ true
      → pushf ins s
        ≡ ok true (stored w64 (below w64 s) (bit_and s.flags 0xFCFFFF) (with_rsp (below w64 s) s))
  unfolding ◌>>=◌ pushf pure
  pushf-ok wide writable = rw (wide, push-ok w64 (bit_and s.flags 0xFCFFFF) s writable) refl

  -- PUSHFQ and then POPFQ, whatever was assigned to RFLAGS between, return with every flag that
  -- POPFQ writes as before, if RSP fits 64 bits and the 8 bytes below it can be written and read.
  pub popf-pushf :
      (i : ℕ)
      → get_bit i 0x244FD5 ≡ 1
      → ins.operand_sz ≡ false
      → s.regs rsp < 2 ^ 64
      → all_allowed s.mem.writable (below w64 s) 8 ≡ true
      → all_allowed s.mem.readable (below w64 s) 8 ≡ true
      → (t : Emu) × ((pushf ins >>= λ _. set_flags flags' >>= λ _. popf ins) s ≡ ok true t)
        × (get_bit i t.flags ≡ get_bit i s.flags)
  unfolding ◌>>=◌ set_flags pure pushed all_pass get_bit
  popf-pushf i one wide fits writable readable = (
    record (with_rsp (between.regs rsp + 8) between) {
      flags = popped_flags (load_le between.mem.byte (between.regs rsp) 8) between.flags;
    },
    rw (pushf-ok wide writable)
        (popf-ok between wide (still_readable w64 image s tt fits writable readable)),
    get_bit-eflags i _ between.flags (omega (arith, kept.0))
        ∙ picked i _ _ 0xFFDAB02A 0x244FD5
            ((over_mask 22 0xFFDAB02A 0 0x244FD5 i refl (omega arith) one).1) one
        ∙ get_bit-mod i 32 _ (omega (arith, kept.0))
        ∙ ap (get_bit i) (value w64 image s tt fits writable readable)
        ∙ get_bit-mod i 64 image (omega (arith, kept.0))
        ∙ omega (arith, kept.1, get_bit-lt i s.flags, get_bit-bit_and i s.flags 0xFCFFFF),
  )
    where
      kept : (i < 22) × (get_bit i 0xFCFFFF ≡ 1)
      kept = over_mask 22 0xFCFFFF 1 0x244FD5 i refl (omega arith) one

      image : ℕ
      image = bit_and s.flags 0xFCFFFF

      between : Emu
      between = record (pushed w64 image s tt fits writable readable) { flags = flags' % 2 ^ 64 }
