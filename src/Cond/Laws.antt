-- ===== src/Cond/Laws.antt =====
-- The pairs of conditions of `x64execute_jmp_cond` (x64emu/execute_private.h).
use flux.Base.{
  ℕ, zero, suc, ◌+◌, ◌*◌, ◌%◌, ◌<◌, ◌≡◌, refl, Bool, true, false, not, ◌&&◌, ◌||◌, arith,
}
use flux.Cond.{x64execute_jmp_cond}

de_morgan : (a b : Bool) → (not a && not b) ≡ not (a || b)
de_morgan true b = refl
de_morgan false b = refl

low_pair :
    (m flags : ℕ)
    → m < 8
    → x64execute_jmp_cond (2 * m + 1) flags ≡ not (x64execute_jmp_cond (2 * m) flags)
unfolding x64execute_jmp_cond
low_pair zero flags h = refl
low_pair (suc zero) flags h = refl
low_pair (suc (suc zero)) flags h = refl
low_pair (suc (suc (suc zero))) flags h = de_morgan _ _
low_pair (suc (suc (suc (suc zero)))) flags h = refl
low_pair (suc (suc (suc (suc (suc zero))))) flags h = refl
low_pair (suc (suc (suc (suc (suc (suc zero)))))) flags h = refl
low_pair (suc (suc (suc (suc (suc (suc (suc zero))))))) flags h = de_morgan _ _
low_pair (suc (suc (suc (suc (suc (suc (suc (suc m)))))))) flags h = absurd (omega arith)

low_bits :
    (op op' flags : ℕ)
    → op % 16 ≡ op' % 16
    → x64execute_jmp_cond op flags ≡ x64execute_jmp_cond op' flags
unfolding x64execute_jmp_cond
low_bits op op' flags e = rw e

-- Each odd condition is the negation of the even one below it, on every RFLAGS.
pub jmp_cond-odd :
    (k flags : ℕ) → x64execute_jmp_cond (2 * k + 1) flags ≡ not (x64execute_jmp_cond (2 * k) flags)
jmp_cond-odd k flags =
    rw
      (
        low_bits (2 * k + 1) (2 * (k % 8) + 1) flags (omega arith),
        low_bits (2 * k) (2 * (k % 8)) flags (omega arith),
      )
      (low_pair (k % 8) flags (omega arith))
