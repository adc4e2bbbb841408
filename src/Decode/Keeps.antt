-- ===== src/Decode/Keeps.antt =====
-- Invariants of the decoder (x64emu/decode.c, decode_0f.c, modrm.c) from those of RIP.
use flux.Base.{ℕ, zero, suc}
use flux.Word.{Width, w8}
use flux.Machine.{Emu, set_rip}
use flux.Machine.Keeps.{Keeps, Keeps-bind, Keeps-pure, Keeps-undefined, keeps_rules}
use flux.Instr.{Instr, fetch}
use flux.Modrm.{x64modrm_fetch}
use flux.Machine.{◌>>=◌, pure}
use flux.Decode.{
  Pass, again, rex_then_fetch, leave, prefix, decode_prefixes, Operands, no_operands,
  fetch_operands, x64decode_0f, x64decode,
}

module _ {P : Emu → Type 0} (rip_kept : (v : ℕ) → Keeps P (set_rip v)) where
  pub Keeps-fetch : (w : Width) → Keeps P (fetch w)
  unfolding fetch
  Keeps-fetch w = search (keeps_rules, rip_kept)

  pub Keeps-x64modrm_fetch : (ins : Instr) → Keeps P (x64modrm_fetch ins)
  unfolding x64modrm_fetch
  Keeps-x64modrm_fetch ins = search (keeps_rules, Keeps-fetch) depth 20

  Keeps-decode_prefixes : (fuel : ℕ) (ins : Instr) → Keeps P (decode_prefixes fuel ins)
  unfolding decode_prefixes
  Keeps-decode_prefixes zero ins = Keeps-undefined
  Keeps-decode_prefixes (suc fuel) ins =
      Keeps-bind _ _ (Keeps-fetch _) λ byte. after (prefix byte ins) (Keeps-decode_prefixes fuel)
    where
      after :
          (p : Pass)
          → ((ins' : Instr) → Keeps P (decode_prefixes fuel ins'))
          → Keeps P (elim p [
            | again ins' ↦ decode_prefixes fuel ins'
            | rex_then_fetch ins' ↦ (do b ← fetch w8; pure (b, ins'))
            | leave b ↦ pure (b, ins)
          ])
      after (again ins') k = k ins'
      after (rex_then_fetch ins') k = Keeps-bind _ _ (Keeps-fetch _) (λ b. Keeps-pure _)
      after (leave b) k = Keeps-pure _

  Keeps-fetch_operands : (o : Operands) (ins : Instr) → Keeps P (fetch_operands o ins)
  unfolding fetch_operands
  Keeps-fetch_operands no_operands ins = Keeps-pure _
  Keeps-fetch_operands _ ins = search (keeps_rules, Keeps-fetch, Keeps-x64modrm_fetch) depth 20

  Keeps-x64decode_0f : (ins : Instr) → Keeps P (x64decode_0f ins)
  unfolding x64decode_0f
  Keeps-x64decode_0f ins = search (keeps_rules, Keeps-fetch, Keeps-fetch_operands) depth 20

  pub Keeps-x64decode : (fuel : ℕ) (ins : Instr) → Keeps P (x64decode fuel ins)
  unfolding x64decode
  Keeps-x64decode fuel ins =
      search (keeps_rules, Keeps-decode_prefixes, Keeps-x64decode_0f, Keeps-fetch_operands) depth 20
