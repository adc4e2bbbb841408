-- ===== src/Isa/Claims.antt =====
-- What is to be shown of the instruction that x64emu/execute.c executes, and how a claim about each
-- case makes one about the choice between them.
use mathlib.Core.Path.{subst}
use flux.Base.{◌≡◌, refl, Bool, true, false, if◌then◌else◌, Option, none, some}
use flux.Machine.{Emu}
use flux.Instr.{Instr}
use flux.Context.{Os}
use flux.Execute.{x64execute}
use flux.Isa.{Form}
use flux.Isa.Meaning.{flags_alone, Performs}
use flux.Isa.Arithmetic.{IsExact}
use flux.Isa.Performs.{IsClear}
use flux.Isa.Operands.{IsLow}

-- The instruction of the form `f` does what the architecture asks.
abbrev pub Claim : Os → Instr → Emu → Form → Type 0
Claim os ins s f =
    IsLow f.dest
    → IsLow f.source
    → (flags_alone f.op ≡ false → IsClear f.width f.dest s.regs)
    → IsExact f.op s.flags
    → Performs f s (x64execute os ins s)

none_ne_some : {f : Form} → none ≡ some f → ⊥
none_ne_some e = cc

module _ (P : Form → Type 0) where
  -- `P` holds of the form, if there is one.
  abbrev pub Claims : Option Form → Type 0
  Claims o = (f : Form) → o ≡ some f → P f

  pub Claims-none : Claims none
  Claims-none f e = absurd (none_ne_some e)

  pub Claims-some : (g : Form) → P g → Claims (some g)
  Claims-some g h f e = subst P (cc) h

  pub Claims-if :
      (b : Bool) {x y : Option Form}
      → (b ≡ true → Claims x)
      → (b ≡ false → Claims y)
      → Claims (if b then x else y)
  Claims-if true then_ else_ = then_ refl
  Claims-if false then_ else_ = else_ refl
