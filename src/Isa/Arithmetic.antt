-- ===== src/Isa/Arithmetic.antt =====
-- The operations of x64emu/execute_private.h against the architecture's: results and flags.
use flux.Base.{
  ◌==◌, Bool, true, false, ℕ, ◌+◌, ◌-◌, ◌*◌, ◌%◌, ◌^◌, ◌<◌, ◌≡◌, refl, sym, ◌∙◌, ap, arith, Bool,
  false, ltb, leb, if◌then◌else◌, to_nat,
}
use flux.Word.{Width, modulus, IsWord, add, sub}
use flux.Machine.Flags.{carry, adjust, overflow, flag}
use flux.Alu.{
  Operation, Effect, writes, flags_only, set_result_flags, byte_lt, or_assign, add_overflows,
  sub_overflows, op_s_add, op_s_or, op_s_adc, op_s_sbb, op_s_and, op_s_sub, op_s_xor, op_s_cmp,
  op_s_test_and, op_s_inc, op_s_dec,
}
use flux.Alu.Overflow.{add-ltb, sub-ltb, add_overflows_lem, sub_overflows_lem}
use flux.Isa.{Mnemonic}
use flux.Word.Signed.{pos, signed, ◌+ℤ◌, ◌-ℤ◌}
use flux.Isa.Meaning.{flags_alone, out_of_range, result, carries, overflows, FlagsAre}
use flux.Isa.Flags.{
  arithmetic_flags, arithmetic-FlagsAre, carried_flags, carried-FlagsAre, logic_flags,
  logic-FlagsAre, stepped_flags, stepped-FlagsAre, result-lt, assign-lt,
}
use flux.Isa.CarryIn.{add_zero, sub_zero, sub_twice, adc_clear, sbb_clear}

-- What an operation may do for the architecture.
abbrev pub effect_of : Mnemonic → ℕ → ℕ → Effect
effect_of op v flags = if flags_alone op then flags_only flags else writes v flags

pub record Meets (op : Mnemonic) (w : Width) (a b old : ℕ) (e : Effect) : Type 0 where
  pub new : ℕ
  pub does : e ≡ effect_of op (result op w a b (to_nat (flag carry old))) new
  pub flags_are : FlagsAre op w a b old new
  pub fits : new < 2 ^ 64

-- ADC and SBB are right where CF and OF are clear.
abbrev pub IsExact : Mnemonic → ℕ → Type 0
IsExact Mnemonic.adc old = (flag carry old ≡ false) × (flag overflow old ≡ false)
IsExact Mnemonic.sbb old = (flag carry old ≡ false) × (flag overflow old ≡ false)
IsExact _ old = Unit

abbrev pub operation : Mnemonic → Operation
operation Mnemonic.add = op_s_add
operation Mnemonic.or = op_s_or
operation Mnemonic.adc = op_s_adc
operation Mnemonic.sbb = op_s_sbb
operation Mnemonic.and = op_s_and
operation Mnemonic.sub = op_s_sub
operation Mnemonic.xor = op_s_xor
operation Mnemonic.cmp = op_s_cmp
operation Mnemonic.test = op_s_test_and
operation Mnemonic.inc = op_s_inc
operation Mnemonic.dec = op_s_dec

kept : (b : Bool) → b ≡ (to_nat b == 1)
kept true = refl
kept false = refl

module _ (w : Width) (a b old : ℕ) (word : IsWord w) (ha : a < modulus w) (hb : b < modulus w)
    (fits : old < 2 ^ 64) where
  arithmetic-Meets :
      (op : Mnemonic) (e : Effect) (c o z : Bool)
      → e
        ≡ effect_of op
            (result op w a b (to_nat (flag carry old)))
            (arithmetic_flags op w a b old c o z)
      → c ≡ carries op w a b (to_nat (flag carry old))
      → o ≡ overflows op w a b (to_nat (flag carry old))
      → Meets op w a b old e
  arithmetic-Meets op e c o z he hc ho = record {
    new = arithmetic_flags op w a b old c o z;
    does = he;
    flags_are = arithmetic-FlagsAre op w a b old c o z hc ho;
    fits = assign-lt carry _ _ (omega arith) (
        assign-lt overflow _ _ (omega arith)
          (assign-lt adjust _ _ (omega arith) (result-lt w _ old fits)));
  }

  carried-Meets :
      (op : Mnemonic) (e : Effect) (c o z : Bool)
      → flag carry old ≡ false
      → flag overflow old ≡ false
      → e
        ≡ effect_of op
            (result op w a b (to_nat (flag carry old)))
            (carried_flags op w a b old c o z)
      → c ≡ carries op w a b (to_nat (flag carry old))
      → o ≡ overflows op w a b (to_nat (flag carry old))
      → Meets op w a b old e
  carried-Meets op e c o z hcf hof he hc ho = record {
    new = carried_flags op w a b old c o z;
    does = he;
    flags_are = carried-FlagsAre op w a b old c o z hcf hof hc ho;
    fits = assign-lt overflow _ _ (omega arith) (
        assign-lt adjust _ _ (omega arith)
          (assign-lt carry _ _ (omega arith) (result-lt w _ old fits)));
  }

  stepped-Meets :
      (op : Mnemonic) (e : Effect) (o z : Bool)
      → e
        ≡ effect_of op (result op w a b (to_nat (flag carry old))) (stepped_flags op w a b old o z)
      → flag carry old ≡ carries op w a b (to_nat (flag carry old))
      → o ≡ overflows op w a b (to_nat (flag carry old))
      → Meets op w a b old e
  stepped-Meets op e o z he hc ho = record {
    new = stepped_flags op w a b old o z;
    does = he;
    flags_are = stepped-FlagsAre op w a b old o z hc ho;
    fits =
        assign-lt overflow _ _ (omega arith)
          (assign-lt adjust _ _ (omega arith) (result-lt w _ old fits));
  }

  logic-Meets :
      (op : Mnemonic) (e : Effect)
      → e ≡ effect_of op (result op w a b (to_nat (flag carry old))) (logic_flags op w a b old)
      → carries op w a b (to_nat (flag carry old)) ≡ false
      → overflows op w a b (to_nat (flag carry old)) ≡ false
      → Meets op w a b old e
  logic-Meets op e he hc ho = record {
    new = logic_flags op w a b old;
    does = he;
    flags_are = logic-FlagsAre op w a b old hc ho;
    fits = assign-lt carry false _ (omega arith) (
        assign-lt overflow false _ (omega arith)
          (result-lt w (result op w a b (to_nat (flag carry old))) old fits));
  }

  -- Without a carry in, the carry is no part of the sum.
  module _ (clear : flag carry old ≡ false) where
    none_in : to_nat (flag carry old) ≡ 0
    none_in = ap to_nat clear

    adc-carries : ltb (add w a b) a ≡ carries Mnemonic.adc w a b (to_nat (flag carry old))
    adc-carries = add-ltb w a b word ha hb ∙ ap (leb (modulus w)) (omega (arith, none_in))

    sbb-carries : ltb a (sub w a b) ≡ carries Mnemonic.sbb w a b (to_nat (flag carry old))
    sbb-carries = sub-ltb w a b word ha hb ∙ ap (ltb a) (omega (arith, none_in))

    adc-overflows :
        add_overflows w b a (add w a b) ≡ overflows Mnemonic.adc w a b (to_nat (flag carry old))
    adc-overflows =
        add_overflows_lem w a b word ha hb
        ∙ ap (out_of_range w) (
            sym (add_zero (signed w a +ℤ signed w b))
            ∙ ap (λ c. signed w a +ℤ signed w b +ℤ pos c) (sym none_in))

    sbb-overflows :
        sub_overflows w b a (sub w a b) ≡ overflows Mnemonic.sbb w a b (to_nat (flag carry old))
    sbb-overflows =
        sub_overflows_lem w a b word ha hb
        ∙ ap (out_of_range w) (
            sym (sub_zero (signed w a -ℤ signed w b))
            ∙ ap (λ c. signed w a -ℤ signed w b -ℤ pos c) (sym none_in))

    adc-result : add w a b ≡ result Mnemonic.adc w a b (to_nat (flag carry old))
    adc-result = ap (λ t. t % modulus w) (omega (arith, none_in))

    sbb-result : sub w a b ≡ result Mnemonic.sbb w a b (to_nat (flag carry old))
    sbb-result =
        sub_twice w a b hb ∙ ap (λ c. (a + 2 * modulus w - b - c) % modulus w) (sym none_in)

  pub operation-Meets :
      (op : Mnemonic) → IsExact op old → Meets op w a b old (operation op w a b old)
  operation-Meets Mnemonic.add exact =
      arithmetic-Meets Mnemonic.add _ (ltb (add w a b) a) (add_overflows w b a (add w a b))
        (byte_lt (add w a b) a) (unfold op_s_add in refl) (add-ltb w a b word ha hb)
        (add_overflows_lem w a b word ha hb)
  operation-Meets Mnemonic.or exact = logic-Meets Mnemonic.or _ (unfold op_s_or in refl) refl refl
  operation-Meets Mnemonic.adc (hcf, hof) =
      carried-Meets Mnemonic.adc _ (ltb (add w a b) a) (add_overflows w b a (add w a b))
        (byte_lt (add w a b) a) hcf hof
        (adc_clear w a b old hcf
          ∙ ap
              (λ v. writes v (
                or_assign overflow (add_overflows w b a (add w a b)) (
                  or_assign adjust (byte_lt (add w a b) a)
                    (or_assign carry (ltb (add w a b) a) (set_result_flags w v old)))))
              (adc-result hcf))
        (adc-carries hcf) (adc-overflows hcf)
  operation-Meets Mnemonic.sbb (hcf, hof) =
      carried-Meets Mnemonic.sbb _ (ltb a (sub w a b)) (sub_overflows w b a (sub w a b))
        (byte_lt a (sub w a b)) hcf hof
        (sbb_clear w a b old hcf
          ∙ ap
              (λ v. writes v (
                or_assign overflow (sub_overflows w b a (sub w a b)) (
                  or_assign adjust (byte_lt a (sub w a b))
                    (or_assign carry (ltb a (sub w a b)) (set_result_flags w v old)))))
              (sbb-result hcf))
        (sbb-carries hcf) (sbb-overflows hcf)
  operation-Meets Mnemonic.and exact =
      logic-Meets Mnemonic.and _ (unfold op_s_and in refl) refl refl
  operation-Meets Mnemonic.sub exact =
      arithmetic-Meets Mnemonic.sub _ (ltb a (sub w a b)) (sub_overflows w b a (sub w a b))
        (byte_lt a (sub w a b)) (unfold op_s_sub in refl) (sub-ltb w a b word ha hb)
        (sub_overflows_lem w a b word ha hb)
  operation-Meets Mnemonic.xor exact =
      logic-Meets Mnemonic.xor _ (unfold op_s_xor in refl) refl refl
  operation-Meets Mnemonic.cmp exact =
      arithmetic-Meets Mnemonic.cmp _ (ltb a (sub w a b)) (sub_overflows w b a (sub w a b))
        (byte_lt a (sub w a b)) (unfold op_s_cmp in refl) (sub-ltb w a b word ha hb)
        (sub_overflows_lem w a b word ha hb)
  operation-Meets Mnemonic.test exact =
      logic-Meets Mnemonic.test _ (unfold op_s_test_and in refl) refl refl
  operation-Meets Mnemonic.inc exact =
      stepped-Meets Mnemonic.inc _ (add_overflows w b a (add w a b)) (byte_lt (add w a b) a)
        (unfold op_s_inc in refl) (kept (flag carry old)) (add_overflows_lem w a b word ha hb)
  operation-Meets Mnemonic.dec exact =
      stepped-Meets Mnemonic.dec _ (sub_overflows w b a (sub w a b)) (byte_lt a (sub w a b))
        (unfold op_s_dec in refl) (kept (flag carry old)) (sub_overflows_lem w a b word ha hb)
