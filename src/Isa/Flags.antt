-- ===== src/Isa/Flags.antt =====
-- The status flags that the operations of x64emu/execute_private.h assign, against the architecture's.
use flux.Base.{
  ℕ, ◌^◌, ◌<◌, ◌≡◌, ◌≢◌, sym, ◌∙◌, ap, arith, Bool, false, ◌||◌, leb, ◌==◌, to_nat, set_bit-lt,
}
use flux.Word.{Width, half}
use flux.Machine.Flags.{carry, parity, adjust, zero_flag, sign, overflow, flag, assign, flag-assign}
use flux.Alu.{set_result_flags, or_assign}
use flux.Alu.Parity.{set_result_flags-parity}
use flux.Isa.{Mnemonic}
use flux.Isa.Meaning.{result, carries, overflows, FlagsAre, IsOther}

module _ (w : Width) (x flags : ℕ) where
  result_zero : flag zero_flag (set_result_flags w x flags) ≡ (x == 0)
  unfolding set_result_flags
  result_zero = simp flag-assign

  result_sign : flag sign (set_result_flags w x flags) ≡ leb (half w) x
  unfolding set_result_flags
  result_sign = simp flag-assign

  result_carry : flag carry (set_result_flags w x flags) ≡ flag carry flags
  unfolding set_result_flags
  result_carry = simp flag-assign

  result_overflow : flag overflow (set_result_flags w x flags) ≡ flag overflow flags
  unfolding set_result_flags
  result_overflow = simp flag-assign

assign_other : (i j : ℕ) (b : Bool) (flags : ℕ) → i ≢ j → flag i (assign j b flags) ≡ flag i flags
assign_other i j b flags ne = ground (arith, flag-assign i j b flags)

result_other :
    (w : Width) (x flags i : ℕ) → IsOther i → flag i (set_result_flags w x flags) ≡ flag i flags
unfolding set_result_flags
result_other w x flags i (nc, np, na, nz, ns, no') =
    assign_other i parity _ _ np ∙ assign_other i zero_flag _ _ nz ∙ assign_other i sign _ _ ns

ruleset flag_reads =
    (flag-assign, result_zero, result_sign, result_carry, result_overflow, set_result_flags-parity)

-- The flags that ADD, SUB and CMP leave; `z` goes to AF.
module _ (op : Mnemonic) (w : Width) (a b old : ℕ) (c o z : Bool) where
  abbrev pub arithmetic_flags : ℕ
  arithmetic_flags = assign carry c (
      assign overflow o
        (assign adjust z (set_result_flags w (result op w a b (to_nat (flag carry old))) old)))

  pub arithmetic-FlagsAre :
      c ≡ carries op w a b (to_nat (flag carry old))
      → o ≡ overflows op w a b (to_nat (flag carry old))
      → FlagsAre op w a b old arithmetic_flags
  arithmetic-FlagsAre hc ho = record {
    carry_is = simp flag_reads hc;
    overflow_is = simp flag_reads ho;
    zero_is = simp flag_reads;
    sign_is = simp flag_reads;
    parity_is = simp flag_reads;
    others_stay = λ i other.
        assign_other i carry _ _ other.0
        ∙ assign_other i overflow _ _ other.5
        ∙ assign_other i adjust _ _ other.2
        ∙ result_other _ _ _ i other;
  }

  -- ADC and SBB, that find CF and OF clear, leave the same in another order.
  abbrev pub carried_flags : ℕ
  carried_flags = or_assign overflow o (
      or_assign adjust z
        (or_assign carry c (set_result_flags w (result op w a b (to_nat (flag carry old))) old)))

  pub carried-FlagsAre :
      flag carry old ≡ false
      → flag overflow old ≡ false
      → c ≡ carries op w a b (to_nat (flag carry old))
      → o ≡ overflows op w a b (to_nat (flag carry old))
      → FlagsAre op w a b old carried_flags
  carried-FlagsAre hcf hof hc ho = record {
    carry_is = simp flag_reads (ap (λ x. x || c) hcf ∙ hc);
    overflow_is = simp flag_reads (ap (λ x. x || o) hof ∙ ho);
    zero_is = simp flag_reads;
    sign_is = simp flag_reads;
    parity_is = simp flag_reads;
    others_stay = λ i other.
        assign_other i overflow _ _ other.5
        ∙ assign_other i adjust _ _ other.2
        ∙ assign_other i carry _ _ other.0
        ∙ result_other _ _ _ i other;
  }

-- The flags that INC and DEC leave: CF stays.
module _ (op : Mnemonic) (w : Width) (a b old : ℕ) (o z : Bool) where
  abbrev pub stepped_flags : ℕ
  stepped_flags =
      assign overflow o
        (assign adjust z (set_result_flags w (result op w a b (to_nat (flag carry old))) old))

  pub stepped-FlagsAre :
      flag carry old ≡ carries op w a b (to_nat (flag carry old))
      → o ≡ overflows op w a b (to_nat (flag carry old))
      → FlagsAre op w a b old stepped_flags
  stepped-FlagsAre hc ho = record {
    carry_is = simp flag_reads hc;
    overflow_is = simp flag_reads ho;
    zero_is = simp flag_reads;
    sign_is = simp flag_reads;
    parity_is = simp flag_reads;
    others_stay = λ i other.
        assign_other i overflow _ _ other.5
        ∙ assign_other i adjust _ _ other.2
        ∙ result_other _ _ _ i other;
  }

-- The flags that AND, OR, XOR and TEST leave.
module _ (op : Mnemonic) (w : Width) (a b old : ℕ) where
  abbrev pub logic_flags : ℕ
  logic_flags =
      assign carry false
        (assign overflow false (set_result_flags w (result op w a b (to_nat (flag carry old))) old))

  pub logic-FlagsAre :
      carries op w a b (to_nat (flag carry old)) ≡ false
      → overflows op w a b (to_nat (flag carry old)) ≡ false
      → FlagsAre op w a b old logic_flags
  logic-FlagsAre hc ho = record {
    carry_is = simp flag_reads (sym hc);
    overflow_is = simp flag_reads (sym ho);
    zero_is = simp flag_reads;
    sign_is = simp flag_reads;
    parity_is = simp flag_reads;
    others_stay = λ i other.
        assign_other i carry false _ other.0
        ∙ assign_other i overflow false _ other.5
        ∙ result_other w (result op w a b (to_nat (flag carry old))) old i other;
  }

-- RFLAGS stays a number of 64 bits.
pub result-lt : (w : Width) (x flags : ℕ) → flags < 2 ^ 64 → set_result_flags w x flags < 2 ^ 64
unfolding set_result_flags
result-lt w x flags h =
    set_bit-lt 64 2 _ _ (omega arith)
      (set_bit-lt 64 6 _ _ (omega arith) (set_bit-lt 64 7 _ _ (omega arith) h))

pub assign-lt : (i : ℕ) (b : Bool) (flags : ℕ) → i < 64 → flags < 2 ^ 64 → assign i b flags < 2 ^ 64
assign-lt i b flags h k = set_bit-lt 64 i _ flags h k
