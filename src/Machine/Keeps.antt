-- ===== src/Machine/Keeps.antt =====
-- Invariants of effects: one rule for each way to build an `M`.
use flux.Base.{ℕ, Bool, true, false, if◌then◌else◌}
use flux.Word.{Width}
use flux.Machine.{
  Emu, Outcome, ok, exited, fault, M, pure, gets, undefined, exit, modify, require, ◌>>=◌, and_then,
  load,
}

-- `P` of the state in which an effect returns, if it returns.
abbrev pub After : {A : Type 0} → (Emu → Type 0) → Outcome A → Type 0
After P (ok a s) = P s
After P (exited c) = Unit
After P fault = Unit

-- `m` keeps `P`.
pub record Keeps {A : Type 0} (P : Emu → Type 0) (m : M A) : Type 0 where
  pub at : (s : Emu) → P s → After P (m s)

module _ {A : Type 0} {P : Emu → Type 0} where
  pub Keeps-pure : (a : A) → Keeps P (pure a)
  unfolding pure
  Keeps-pure a = record { at = λ s h. h }

  pub Keeps-gets : (f : Emu → A) → Keeps P (gets f)
  unfolding gets
  Keeps-gets f = record { at = λ s h. h }

  pub Keeps-undefined : Keeps P (undefined {A = A})
  unfolding undefined
  Keeps-undefined = record { at = λ s h. tt }

  pub Keeps-exit : (c : ℕ) → Keeps P (exit {A = A} c)
  unfolding exit
  Keeps-exit c = record { at = λ s h. tt }

  pub Keeps-if : (b : Bool) (m n : M A) → Keeps P m → Keeps P n → Keeps P (if b then m else n)
  Keeps-if true m n km kn = km
  Keeps-if false m n km kn = kn

pub Keeps-modify :
    {P : Emu → Type 0} (f : Emu → Emu) → ((s : Emu) → P s → P (f s)) → Keeps P (modify f)
unfolding modify
Keeps-modify f k = record { at = k }

After-if :
    (P : Emu → Type 0) (b : Bool) (s : Emu)
    → P s
    → After {A = Unit {0}} P (if b then ok tt s else fault)
After-if P true s h = h
After-if P false s h = tt

pub Keeps-require : {P : Emu → Type 0} (f : Emu → Bool) → Keeps P (require f)
unfolding require
Keeps-require {P} f = record { at = λ s h. After-if P (f s) s h }

module _ {A B : Type 0} {P : Emu → Type 0} where
  After-and_then :
      (r : Outcome A) (k : A → M B) → After P r → ((a : A) → Keeps P (k a)) → After P (and_then r k)
  After-and_then (ok a s) k h kk = (kk a).at s h
  After-and_then (exited c) k h kk = tt
  After-and_then fault k h kk = tt

  pub Keeps-bind :
      (m : M A) (k : A → M B) → Keeps P m → ((a : A) → Keeps P (k a)) → Keeps P (m >>= k)
  unfolding ◌>>=◌
  Keeps-bind m k km kk = record { at = λ s h. After-and_then (m s) k (km.at s h) kk }

-- The rest of a block may use that a value was read from the state.
pub Keeps-bind-gets :
    {A B : Type 0} {P : Emu → Type 0} (f : Emu → A) (k : A → M B)
    → ((s : Emu) → Keeps P (k (f s)))
    → Keeps P (gets f >>= k)
unfolding ◌>>=◌
Keeps-bind-gets f k kk = record { at = λ s h. (kk s).at s h }

pub Keeps-load : {P : Emu → Type 0} (w : Width) (a : ℕ) → Keeps P (load w a)
unfolding load
Keeps-load w a = search (Keeps-require, Keeps-gets, Keeps-bind)

pub ruleset keeps_rules = (
  Keeps-pure, Keeps-gets, Keeps-undefined, Keeps-exit, Keeps-if, Keeps-require, Keeps-load,
  Keeps-bind,
)
