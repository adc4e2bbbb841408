-- ===== src/Alu/Parity.antt =====
-- The parity flag of `SET_RESULT_FLAGS` (x64emu/execute_private.h).
use flux.Base.{
  ℕ, zero, suc, ◌+◌, ◌%◌, ◌^◌, ◌≡◌, refl, true, ◌==◌, get_bit, all_pass, all_pass_at, ==_iff, arith,
}
use flux.Machine.Flags.{parity, flag, flag-assign}
use flux.Alu.{get_byte_parity, set_result_flags}
use flux.Word.{Width}

-- The number of ones among the low `n` bits.
abbrev pub ones : ℕ → ℕ → ℕ
ones zero x = 0
ones (suc n) x = get_bit n x + ones n x

every_byte : all_pass (λ x. get_byte_parity x == (1 + ones 8 x) % 2) 256 ≡ true
unfolding all_pass get_byte_parity get_bit
every_byte = refl

-- SET_RESULT_FLAGS of any width sets PF exactly if the low byte of the result has an even number
-- of ones.
pub set_result_flags-parity :
    (w : Width) (x flags : ℕ)
    → flag parity (set_result_flags w x flags) ≡ (ones 8 (x % 2 ^ 8) % 2 == 0)
unfolding set_result_flags
set_result_flags-parity w x flags = simp flag-assign (
    ground (
      arith,
      (==_iff _ _).0 (
          all_pass_at (λ x. get_byte_parity x == (1 + ones 8 x) % 2) 256 (x % 2 ^ 8) (omega arith)
            every_byte),
    ))
