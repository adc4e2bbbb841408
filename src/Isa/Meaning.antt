-- ===== src/Isa/Meaning.antt =====
-- What the instructions do to registers, memory and flags, by the architecture.
use flux.Base.{
  ℕ, ◌+◌, ◌-◌, ◌*◌, ◌/◌, ◌%◌, ◌^◌, ◌≡◌, ◌≢◌, ◌⊎◌, Bool, true, false, not, ◌&&◌, ltb, leb, ◌==◌,
  if◌then◌else◌, bit_and, bit_or, bit_xor, to_nat, Option, none, some,
}
use flux.Word.{Width, w8, w16, modulus, half, bytes}
use flux.Word.Signed.{ℤ, pos, pos_part, neg_part, signed, ◌+ℤ◌, ◌-ℤ◌}
use flux.Machine.{Emu, Outcome, ok, fault, load_le, store_le, all_allowed, update}
use flux.Machine.Flags.{carry, parity, adjust, zero_flag, sign, overflow, flag}
use flux.Alu.Parity.{ones}
use flux.Isa.{Mnemonic, Operand, register, high_byte, memory, immediate, Form}

-- The value of an operand, with none where the memory does not allow it.
abbrev pub value : Width → Operand → Emu → Option ℕ
value w (register i) s = some (s.regs i % modulus w)
value w (high_byte i) s = some (s.regs i / 2 ^ 8 % 2 ^ 8)
value w (memory a) s =
    if all_allowed s.mem.readable a (bytes w) then some (load_le s.mem.byte a (bytes w)) else none
value w (immediate v) s = some v

-- A register after an assignment of `w` bits: those of 32 bits clear the upper half.
abbrev pub merged : Width → ℕ → ℕ → ℕ
merged w8 v old = old / 2 ^ 8 * 2 ^ 8 + v % 2 ^ 8
merged w16 v old = old / 2 ^ 16 * 2 ^ 16 + v % 2 ^ 16
merged w v old = v % modulus w

abbrev pub put : Width → Operand → ℕ → Emu → Option Emu
put w (register i) v s = some (record s { regs = update s.regs i (merged w v (s.regs i)) })
put w (high_byte i) v s =
    let old = s.regs i in
    some (record s {
      regs = update s.regs i (old / 2 ^ 16 * 2 ^ 16 + v % 2 ^ 8 * 2 ^ 8 + old % 2 ^ 8);
    })
put w (memory a) v s =
    if all_allowed s.mem.writable a (bytes w)
    then some (record s { mem = record (s.mem) { byte = store_le s.mem.byte a (bytes w) v } })
    else none
put w (immediate c) v s = none

-- The result of `a op b`, with `c` carried in; the second operand of INC and DEC is 1.
abbrev pub result : Mnemonic → Width → ℕ → ℕ → ℕ → ℕ
result Mnemonic.add w a b c = (a + b) % modulus w
result Mnemonic.or w a b c = bit_or a b
result Mnemonic.adc w a b c = (a + b + c) % modulus w
result Mnemonic.sbb w a b c = (a + 2 * modulus w - b - c) % modulus w
result Mnemonic.and w a b c = bit_and a b
result Mnemonic.sub w a b c = (a + modulus w - b) % modulus w
result Mnemonic.xor w a b c = bit_xor a b
result Mnemonic.cmp w a b c = (a + modulus w - b) % modulus w
result Mnemonic.test w a b c = bit_and a b
result Mnemonic.inc w a b c = (a + b) % modulus w
result Mnemonic.dec w a b c = (a + modulus w - b) % modulus w

abbrev pub carries : Mnemonic → Width → ℕ → ℕ → ℕ → Bool
carries Mnemonic.add w a b c = leb (modulus w) (a + b)
carries Mnemonic.adc w a b c = leb (modulus w) (a + b + c)
carries Mnemonic.sub w a b c = ltb a b
carries Mnemonic.cmp w a b c = ltb a b
carries Mnemonic.sbb w a b c = ltb a (b + c)
carries Mnemonic.inc w a b c = c == 1
carries Mnemonic.dec w a b c = c == 1
carries _ w a b c = false

-- The integer is no value of the signed type.
abbrev pub out_of_range : Width → ℤ → Bool
out_of_range w z = not (leb (neg_part z) (half w) && ltb (pos_part z) (half w))

abbrev pub overflows : Mnemonic → Width → ℕ → ℕ → ℕ → Bool
overflows Mnemonic.add w a b c = out_of_range w (signed w a +ℤ signed w b)
overflows Mnemonic.adc w a b c = out_of_range w (signed w a +ℤ signed w b +ℤ pos c)
overflows Mnemonic.sub w a b c = out_of_range w (signed w a -ℤ signed w b)
overflows Mnemonic.cmp w a b c = out_of_range w (signed w a -ℤ signed w b)
overflows Mnemonic.sbb w a b c = out_of_range w (signed w a -ℤ signed w b -ℤ pos c)
overflows Mnemonic.inc w a b c = out_of_range w (signed w a +ℤ signed w b)
overflows Mnemonic.dec w a b c = out_of_range w (signed w a -ℤ signed w b)
overflows _ w a b c = false

-- No status flag.
abbrev pub IsOther : ℕ → Type 0
IsOther i =
    (i ≢ carry) × (i ≢ parity) × (i ≢ adjust) × (i ≢ zero_flag) × (i ≢ sign) × (i ≢ overflow)

-- The flags that an instruction leaves, after those before it.
pub record FlagsAre (op : Mnemonic) (w : Width) (a b old new : ℕ) : Type 0 where
  pub carry_is : flag carry new ≡ carries op w a b (to_nat (flag carry old))
  pub overflow_is : flag overflow new ≡ overflows op w a b (to_nat (flag carry old))
  pub zero_is : flag zero_flag new ≡ (result op w a b (to_nat (flag carry old)) == 0)
  pub sign_is : flag sign new ≡ leb (half w) (result op w a b (to_nat (flag carry old)))
  pub parity_is :
      flag parity new ≡ (ones 8 (result op w a b (to_nat (flag carry old)) % 2 ^ 8) % 2 == 0)
  pub others_stay : (i : ℕ) → IsOther i → flag i new ≡ flag i old

-- CMP and TEST assign to the flags alone.
abbrev pub flags_alone : Mnemonic → Bool
flags_alone Mnemonic.cmp = true
flags_alone Mnemonic.test = true
flags_alone _ = false

abbrev pub returned : Option Emu → Outcome Bool
returned none = fault
returned (some t) = ok true t

-- The end of an instruction whose result is `v`.
abbrev pub finish : Form → ℕ → Emu → Outcome Bool
finish f v s = if flags_alone f.op then ok true s else returned (put f.width f.dest v s)

-- An outcome that the architecture allows.
pub data Performs (f : Form) (s : Emu) (r : Outcome Bool) : Type 0 where
  unreadable :
      (value f.width f.dest s ≡ none) ⊎ (value f.width f.source s ≡ none)
      → r ≡ fault
      → Performs f s r
  performed :
      (a b flags : ℕ)
      → value f.width f.dest s ≡ some a
      → value f.width f.source s ≡ some b
      → FlagsAre f.op f.width a b s.flags flags
      → r
        ≡ finish f
            (result f.op f.width a b (to_nat (flag carry s.flags)))
            (record s { flags = flags })
      → Performs f s r
