-- ===== src/Isa/Performs.antt =====
-- From the operations to the instructions: the macros of x64emu/execute_private.h perform the form
-- of an instruction.
use flux.Base.{
  ℕ, ◌+◌, ◌*◌, ◌%◌, ◌^◌, ◌<◌, ◌≡◌, refl, ◌∙◌, ap, arith, Bool, true, false, Option, none, some,
  Bool-cases, inl, inr, to_nat,
}
use flux.Word.{Width, w8, w16, w32, w64, w128, modulus, bytes, lane, set_lane, IsWord}
use flux.Machine.{
  Emu, M, Outcome, and_then, gets, ok, fault, ◌>>=◌, pure, load, store, set_reg, set_flags, update,
  all_allowed,
}
use flux.Machine.Flags.{carry, flag}
use flux.Modrm.{Place, gpr, addr}
use flux.Place.{read, write}
use flux.Execute.Operands.{perform, effect}
use flux.Isa.{Operand, register, high_byte, memory, immediate, Form}
use flux.Isa.Meaning.{
  value, merged, put, result, finish, returned, flags_alone, Performs, unreadable, performed,
}
use flux.Isa.Arithmetic.{operation, effect_of, Meets, IsExact, operation-Meets}

-- An operand that the emulator's pointers reach.
abbrev pub IsNamed : Operand → Type 0
IsNamed (register i) = Unit
IsNamed (memory a) = a < 2 ^ 64
IsNamed _ = ⊥

abbrev pub place : Operand → Place
place (register i) = gpr i
place (memory a) = addr a
place _ = addr 0

-- The upper half of a register of 32 bits, which the emulator keeps, is clear.
abbrev pub IsClear : Width → Operand → (ℕ → ℕ) → Type 0
IsClear w32 (register i) regs = regs i < 2 ^ 32
IsClear _ _ regs = Unit

abbrev pub found : Option ℕ → Emu → Outcome ℕ
found none s = fault
found (some v) s = ok v s

at_start : (w : Width) (a : ℕ) → a < 2 ^ 64 → (a + 0 * bytes w) % 2 ^ 64 ≡ a
at_start w a h = omega arith

pub read-value :
    (w : Width) (o : Operand) (s : Emu) → IsNamed o → read w 0 (place o) s ≡ found (value w o s) s
unfolding read lane load ◌>>=◌
read-value w (register i) s h = refl
read-value w (memory a) s h =
    rw (at_start w a h) (elim (Bool-cases (all_allowed s.mem.readable a (bytes w))) [
      | inl allowed ↦ rw allowed
      | inr refused ↦ rw refused
    ])
read-value w (high_byte i) s h = absurd h
read-value w (immediate v) s h = absurd h

abbrev pub wrote : Option Emu → Outcome (Unit {0})
wrote none = fault
wrote (some t) = ok tt t

set_lane-merged :
    (w : Width) (i v : ℕ) (s : Emu)
    → IsWord w
    → IsClear w (register i) s.regs
    → s.regs i < 2 ^ 64
    → set_lane w 0 v (s.regs i) ≡ merged w v (s.regs i)
unfolding set_lane
set_lane-merged w8 i v s word clear fit = refl
set_lane-merged w16 i v s word clear fit = refl
set_lane-merged w32 i v s word clear fit = omega arith
set_lane-merged w64 i v s word clear fit = omega arith
set_lane-merged w128 i v s word clear fit = absurd word

pub write-put :
    (w : Width) (o : Operand) (v : ℕ) (s : Emu)
    → IsWord w
    → IsNamed o
    → IsClear w o s.regs
    → ((i : ℕ) → s.regs i < 2 ^ 64)
    → write w 0 (place o) v s ≡ wrote (put w o v s)
unfolding write store set_reg ◌>>=◌
write-put w (register i) v s word h clear fit =
    ap (λ x. ok tt (record s { regs = update s.regs i x }))
      (set_lane-merged w i v s word clear (fit i))
write-put w (memory a) v s word h clear fit =
    rw (at_start w a h) (elim (Bool-cases (all_allowed s.mem.writable a (bytes w))) [
      | inl allowed ↦ rw allowed
      | inr refused ↦ rw refused
    ])
write-put w (high_byte i) v s word h clear fit = absurd h
write-put w (immediate c) v s word h clear fit = absurd h

-- What an instruction of the form needs, for the emulator to do what the architecture asks.
pub record IsSupported (f : Form) (s : Emu) : Type 0 where
  pub word : IsWord f.width
  pub dest_named : IsNamed f.dest
  pub source_fits : (b : ℕ) → value f.width f.source s ≡ some b → b < modulus f.width
  pub dest_fits : (a : ℕ) → value f.width f.dest s ≡ some a → a < modulus f.width
  pub regs_fit : (i : ℕ) → s.regs i < 2 ^ 64
  pub flags_fit : s.flags < 2 ^ 64
  pub clear : flags_alone f.op ≡ false → IsClear f.width f.dest s.regs
  pub exact : IsExact f.op s.flags

end_of : (o : Option Emu) → and_then (wrote o) (λ _. pure true) ≡ returned o
unfolding pure
end_of none = refl
end_of (some t) = refl

module _ (f : Form) (s : Emu) (h : IsSupported f s) where
  -- The assignments of an operation that meets the architecture's are the end of the instruction.
  effect-finish :
      (v flags : ℕ)
      → flags < 2 ^ 64
      → (effect (effect_of f.op v flags) f.width (place f.dest) >>= λ _. pure true) s
        ≡ finish f v (record s { flags = flags })
  unfolding effect set_flags ◌>>=◌
  effect-finish v flags fits = elim (Bool-cases (flags_alone f.op)) [
    | inl cmp ↦ rw cmp (ap (λ (x : ℕ). ok true (record s { flags = x })) same)
    | inr other ↦ rw other (
        ap
          (λ (x : ℕ).
            and_then (write f.width 0 (place f.dest) v (record s { flags = x })) (λ _. pure true))
          same
        ∙ ap (λ o. and_then o (λ _. pure true))
            (write-put f.width f.dest v (record s { flags = flags }) h.word h.dest_named
              (h.clear other) h.regs_fit)
        ∙ end_of (put f.width f.dest v (record s { flags = flags })))
  ]
    where
      same : flags % 2 ^ 64 ≡ flags
      same = omega arith

  -- Both operands can be read.
  module _ (a b : ℕ) (va : value f.width f.dest s ≡ some a)
      (vb : value f.width f.source s ≡ some b) where
    meets : Meets f.op f.width a b s.flags (operation f.op f.width a b s.flags)
    meets =
        operation-Meets f.width a b s.flags h.word (h.dest_fits a va) (h.source_fits b vb)
          h.flags_fit f.op h.exact

    perform-finish :
        (perform (operation f.op) f.width (place f.dest) b >>= λ _. pure true) s
        ≡ finish f
            (result f.op f.width a b (to_nat (flag carry s.flags)))
            (record s { flags = meets.new })
    unfolding perform ◌>>=◌
    perform-finish =
        ap
          (λ o.
            and_then
              (and_then o λ sav. gets Emu.flags >>= λ flags.
                effect (operation f.op f.width sav b flags) f.width (place f.dest))
              (λ _. pure true))
          (read-value f.width f.dest s h.dest_named ∙ ap (λ o. found o s) va)
        ∙ ap (λ e. and_then (effect e f.width (place f.dest) s) (λ _. pure true)) meets.does
        ∙ effect-finish (result f.op f.width a b (to_nat (flag carry s.flags))) meets.new meets.fits

  -- A macro with its source performs the form.
  pub perform-Performs :
      (src : M ℕ)
      → src s ≡ found (value f.width f.source s) s
      → Performs f s (
          and_then
            (and_then (src s) λ b. perform (operation f.op) f.width (place f.dest) b)
            (λ _. pure true))
  unfolding ◌>>=◌ perform
  perform-Performs src hsrc =
      rw hsrc (go (value f.width f.source s) refl (value f.width f.dest s) refl)
    where
      after : Option ℕ → Outcome Bool
      after vb =
          and_then (and_then (found vb s) λ b. perform (operation f.op) f.width (place f.dest) b)
            (λ _. pure true)

      go :
          (vb : Option ℕ)
          → value f.width f.source s ≡ vb
          → (va : Option ℕ) → value f.width f.dest s ≡ va
          → Performs f s (after vb)
      go none eb va ea = unreadable (inr eb) refl
      go (some b) eb none ea =
          unreadable (inl ea) (rw (read-value f.width f.dest s h.dest_named) (rw ea))
      go (some b) eb (some a) ea =
          performed a b (meets a b ea eb).new ea eb (meets a b ea eb).flags_are
            (perform-finish a b ea eb)
