-- ===== src/Decode/Fuel.antt =====
-- The prefix loop of `decode_prefixes` (x64emu/decode.c) and its fuel.
use flux.Base.{
  ℕ, zero, suc, ◌<◌, ◌≡◌, ◌⊎◌, inl, inr, refl, ap, Bool, true, false, ◌||◌, ◌==◌, arith,
}
use flux.Word.{w8}
use flux.Machine.{Emu, M, ok, ◌>>=◌, pure, all_allowed, next, load, load_le, set_rip}
use flux.Instr.{Instr, fetch}
use flux.Decode.{Pass, again, rex_then_fetch, leave, prefix, decode_prefixes}

-- The bytes that a further prefix or an opcode may follow.
abbrev pub is_legacy : ℕ → Bool
is_legacy b =
    b == 0x26
    || b == 0x2E
    || b == 0x36
    || b == 0x3E
    || b == 0x66
    || b == 0x67
    || b == 0xF2
    || b == 0xF3

abbrev is_again : Pass → Bool
is_again (again ins) = true
is_again (rex_then_fetch ins) = false
is_again (leave b) = false

not_again : (b : ℕ) (ins : Instr) → is_legacy b ≡ false → is_again (prefix b ins) ≡ false
unfolding prefix
not_again b ins h = ground arith

-- `m` returns from `s`.
abbrev pub Returns : {A : Type 0} → M A → Emu → Type 0
Returns {A} m s = (a : A) × (t : Emu) × (m s ≡ ok a t)

fetch-ok :
    (s : Emu)
    → s.mem.readable s.rip ≡ true
    → fetch w8 s ≡ ok (s.mem.byte s.rip) (record s { rip = next s.rip })
unfolding fetch ◌>>=◌ load set_rip load_le all_allowed
fetch-ok s h = rw h (ap (λ (b : ℕ). ok b (record s { rip = next s.rip })) (omega arith))

module _ {A B : Type 0} where
  Returns-bind :
      (m : M A) (k : A → M B) (s t : Emu) (a : A)
      → m s ≡ ok a t
      → Returns (k a) t
      → Returns (m >>= k) s
  unfolding ◌>>=◌
  Returns-bind m k s t a e (b, u, r) = (b, u, rw e r)

-- The rest of a round, after the byte `b` was fetched.
Returns-last :
    (fuel b : ℕ) (ins : Instr) (p : Pass) (s : Emu)
    → (is_again p ≡ false) ⊎ ((ins' : Instr) → Returns (decode_prefixes fuel ins') s)
    → s.mem.readable s.rip ≡ true
    → Returns
        (elim p [
          | again ins' ↦ decode_prefixes fuel ins'
          | rex_then_fetch ins' ↦ (do b ← fetch w8; pure (b, ins'))
          | leave b ↦ pure (b, ins)
        ])
        s
unfolding pure
Returns-last fuel b ins (again ins') s (inl h) readable = absurd (ground arith)
Returns-last fuel b ins (again ins') s (inr k) readable = k ins'
Returns-last fuel b ins (rex_then_fetch ins') s h readable =
    Returns-bind (fetch w8) _ s _ _ (fetch-ok s readable) ((s.mem.byte s.rip, ins'), _, refl)
Returns-last fuel b ins (leave b') s h readable = ((b', ins), s, refl)

-- The address `n` bytes behind `a`.
abbrev pub skip : ℕ → ℕ → ℕ
skip zero a = a
skip (suc n) a = skip n (next a)

module _ (test : ℕ → Bool) (a n : ℕ) where
  here : all_allowed test a (suc n) ≡ true → test a ≡ true
  unfolding all_allowed
  here h = ground arith

  rest : all_allowed test a (suc n) ≡ true → all_allowed test (next a) n ≡ true
  unfolding all_allowed
  rest h = ground arith

-- The prefix loop returns if it has more fuel than there are bytes before some byte at or behind
-- RIP that is no legacy prefix, and the bytes up to the one behind it can be read.
pub decode_prefixes-Returns :
    (n fuel : ℕ) (ins : Instr) (s : Emu)
    → n < fuel
    → all_allowed s.mem.readable s.rip (suc (suc n)) ≡ true
    → is_legacy (s.mem.byte (skip n s.rip)) ≡ false
    → Returns (decode_prefixes fuel ins) s
unfolding decode_prefixes
decode_prefixes-Returns n zero ins s h readable end = absurd (omega arith)
decode_prefixes-Returns zero (suc fuel) ins s h readable end =
    Returns-bind (fetch w8) _ s _ (s.mem.byte s.rip) (fetch-ok s (here _ _ 1 readable)) (
      Returns-last fuel (s.mem.byte s.rip) ins (prefix (s.mem.byte s.rip) ins) _
        (inl (not_again (s.mem.byte s.rip) ins end)) (here _ _ 0 (rest _ _ 1 readable)))
decode_prefixes-Returns (suc n) (suc fuel) ins s h readable end =
    Returns-bind (fetch w8) _ s _ (s.mem.byte s.rip) (fetch-ok s (here _ _ (suc (suc n)) readable))
      (Returns-last fuel (s.mem.byte s.rip) ins (prefix (s.mem.byte s.rip) ins) _
        (inr λ ins'.
          decode_prefixes-Returns n fuel ins' (record s { rip = next s.rip }) (omega arith)
            (rest _ _ (suc (suc n)) readable) end)
        (here _ _ (suc n) (rest _ _ (suc (suc n)) readable)))
