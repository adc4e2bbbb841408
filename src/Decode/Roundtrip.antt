-- ===== src/Decode/Roundtrip.antt =====
-- The decoder (x64emu/decode.c, decode_0f.c) takes an instruction of the format back to its fields.
use mathlib.Core.Path.{subst}
use flux.Base.{
  length, ℕ, zero, suc, ◌+◌, ◌^◌, ◌<◌, ◌≡◌, ◌≢◌, refl, sym, ap, ◌∙◌, Bool, true, false, ◌==◌,
  if◌then◌else◌, in_range, if_true, Option, none, some, List, [], ◌∷◌, ◌++◌, arith,
}
use flux.Word.{w8}
use flux.Machine.{Emu, M, ok, ◌>>=◌, pure}
use flux.Instr.{Instr, blank, fetch}
use flux.Decode.{
  again, rex_then_fetch, leave, prefix, decode_prefixes, fetch_operands, operands, x64decode_0f,
  x64decode,
}
use flux.Decode.Format.{
  CodeAt, number, AreBytes, Legacy, es, cs, ss, ds, operand_size, address_size, repne, legacy_byte,
  with_legacy, legacy_bytes, with_prefixes, is_opcode, Opcode, one_byte, two_byte, Encoding,
  layout_of, has_modrm, sib_length, displ_length, imm_length, rex_bytes, opcode_bytes, modrm_bytes,
  encode, with_rex, with_opcode, header, fields,
}
use flux.Decode.Reads.{Reads, Reads-nothing, Reads-bind, Reads-map, Reads-byte}
use flux.Decode.Parts.{takes_modrm, taken_length, operands-Reads}
use flux.Decode.Opcodes.{xx}
use flux.Decode.Agreement.{operands_of, IsByte, IsPlain, takes-has, operands-known, taken-length}

-- The opcode does not begin like a prefix where it could be taken for one.
abbrev pub first_byte : Opcode → ℕ
first_byte (one_byte op) = op
first_byte (two_byte op) = 0x0F

abbrev pub Follows : Option ℕ → ℕ → Type 0
Follows none op = is_opcode op ≡ true
Follows (some b) op = in_range 0x40 0x4F b ≡ true

abbrev pub IsOneByte : Opcode → Type 0
IsOneByte (one_byte op) = (op == 0x0F) ≡ false
IsOneByte (two_byte op) = Unit

-- An instruction that the emulator knows, with each part in its size.
pub record IsEncoding (e : Encoding) : Type 0 where
  pub known : layout_of e.opcode ≢ xx
  pub byte : IsByte e.opcode
  pub follows : Follows e.rex (first_byte e.opcode)
  pub whole : IsOneByte e.opcode
  pub sib_size : length e.sib ≡ sib_length e.modrm
  pub displ_size : length e.displ ≡ displ_length e.modrm (number e.sib)
  pub imm_size : length e.imm ≡ imm_length (layout_of e.opcode) (header e)
  pub plain : IsPlain e.opcode (layout_of e.opcode) (header e)
  pub displ_bytes : AreBytes e.displ
  pub imm_bytes : AreBytes e.imm

-- What a round of the prefix loop does with a byte.
pass : ℕ → ℕ → Instr → M (ℕ × Instr)
pass fuel byte ins = elim (prefix byte ins) [
  | again ins' ↦ decode_prefixes fuel ins'
  | rex_then_fetch ins' ↦ (do b ← fetch w8; pure (b, ins'))
  | leave b ↦ pure (b, ins)
]

legacy-again : (p : Legacy) (ins : Instr) → prefix (legacy_byte p) ins ≡ again (with_legacy p ins)
unfolding prefix
legacy-again es ins = refl
legacy-again cs ins = refl
legacy-again ss ins = refl
legacy-again ds ins = refl
legacy-again operand_size ins = refl
legacy-again address_size ins = refl
legacy-again repne ins = refl
legacy-again Legacy.rep ins = refl

opcode-leave : (op : ℕ) (ins : Instr) → is_opcode op ≡ true → prefix op ins ≡ leave op
unfolding prefix
opcode-leave op ins h = ground arith

rex-leave :
    (b : ℕ) (ins : Instr)
    → in_range 0x40 0x4F b ≡ true
    → prefix b ins ≡ rex_then_fetch (record ins { rex = b })
unfolding prefix
rex-leave b ins h = if_true _ _ h

prefixes-Reads :
    (ps : List Legacy) (rex : Option ℕ) (op fuel : ℕ) (ins : Instr)
    → length ps < fuel
    → Follows rex op
    → Reads
        (decode_prefixes fuel ins)
        (legacy_bytes ps ++ (rex_bytes rex ++ (op ∷ [])))
        (op, with_rex rex (with_prefixes ps ins))
unfolding decode_prefixes
prefixes-Reads ps rex op zero ins enough follows = absurd (omega arith)
prefixes-Reads [] none op (suc fuel) ins enough follows =
    Reads-bind _ (Reads-byte op) (rw (opcode-leave op ins follows) (Reads-nothing _ _ [] refl refl))
prefixes-Reads [] (some b) op (suc fuel) ins enough follows =
    Reads-bind _ (Reads-byte b)
      (rw (rex-leave b ins follows) (Reads-map (λ x. (x, record ins { rex = b })) (Reads-byte op)))
prefixes-Reads (p ∷ ps) rex op (suc fuel) ins enough follows =
    Reads-bind _ (Reads-byte (legacy_byte p)) (
      rw (legacy-again p ins)
        (prefixes-Reads ps rex op fuel (with_legacy p ins) (omega arith) follows))

-- What `x64decode` does behind the prefixes.
after_prefixes : ℕ × Instr → M (Bool × Instr)
after_prefixes (op, before) =
    let ins = record before { opcode = op } in
    if op == 0x0F then x64decode_0f ins else fetch_operands (operands op) ins

second_byte : Opcode → List ℕ
second_byte (one_byte op) = []
second_byte (two_byte op) = op ∷ []

opcode-Reads :
    (o : Opcode) (before : Instr) (bs : List ℕ) (result : Bool × Instr)
    → IsOneByte o
    → Reads (fetch_operands (operands_of o) (with_opcode o before)) bs result
    → Reads (after_prefixes (first_byte o, before)) (second_byte o ++ bs) result
unfolding after_prefixes second_byte x64decode_0f
opcode-Reads (one_byte op) before bs result whole h = rw whole h
opcode-Reads (two_byte op) before bs result whole h = Reads-bind _ (Reads-byte op) h

-- The fields that no prefix and no opcode is put in.
abbrev IsEmpty : Instr → Type 0
IsEmpty ins = (ins.sib ≡ 0) × (ins.displ ≡ 0) × (ins.imm ≡ 0)

legacy-IsEmpty : (p : Legacy) (ins : Instr) → IsEmpty ins → IsEmpty (with_legacy p ins)
legacy-IsEmpty es ins h = h
legacy-IsEmpty cs ins h = h
legacy-IsEmpty ss ins h = h
legacy-IsEmpty ds ins h = h
legacy-IsEmpty operand_size ins h = h
legacy-IsEmpty address_size ins h = h
legacy-IsEmpty repne ins h = h
legacy-IsEmpty Legacy.rep ins h = h

prefixes-IsEmpty : (ps : List Legacy) (ins : Instr) → IsEmpty ins → IsEmpty (with_prefixes ps ins)
prefixes-IsEmpty [] ins h = h
prefixes-IsEmpty (p ∷ ps) ins h = prefixes-IsEmpty ps (with_legacy p ins) (legacy-IsEmpty p ins h)

opened-IsEmpty :
    (o : Opcode) (rex : Option ℕ) (ins : Instr)
    → IsEmpty ins
    → IsEmpty (with_opcode o (with_rex rex ins))
opened-IsEmpty (one_byte op) none ins h = h
opened-IsEmpty (one_byte op) (some b) ins h = h
opened-IsEmpty (two_byte op) none ins h = h
opened-IsEmpty (two_byte op) (some b) ins h = h

-- The bytes in their order.
regrouped :
    (legacy : List Legacy) (rex : Option ℕ) (o : Opcode) (rest : List ℕ)
    → (legacy_bytes legacy ++ (rex_bytes rex ++ (first_byte o ∷ []))) ++ (second_byte o ++ rest)
      ≡ legacy_bytes legacy ++ (rex_bytes rex ++ (opcode_bytes o ++ rest))
unfolding second_byte
regrouped [] none (one_byte op) rest = refl
regrouped [] none (two_byte op) rest = refl
regrouped [] (some b) (one_byte op) rest = refl
regrouped [] (some b) (two_byte op) rest = refl
regrouped (p ∷ ps) rex o rest = ap (λ bs. legacy_byte p ∷ bs) (regrouped ps rex o rest)

module _ (e : Encoding) (fuel : ℕ) (h : IsEncoding e) (enough : length e.prefixes < fuel) where
  opened : Instr
  opened = with_opcode e.opcode (with_rex e.rex (with_prefixes e.prefixes blank))

  empty : IsEmpty opened
  unfolding opened
  empty =
      opened-IsEmpty e.opcode e.rex (with_prefixes e.prefixes blank)
        (prefixes-IsEmpty e.prefixes blank (refl, refl, refl))

  -- The part behind the opcode, if it has ModR/M or not.
  abbrev part : Bool → List ℕ
  part b = if b then e.modrm ∷ (e.sib ++ e.displ) else []

  parsed : Bool → Instr
  parsed b =
      if b
      then record opened { modrm = e.modrm; sib = number e.sib; displ = number e.displ }
      else opened

  same_part : takes_modrm (operands_of e.opcode) ≡ has_modrm (layout_of e.opcode)
  same_part = takes-has e.opcode h.byte

  operands_read :
      Reads (fetch_operands (operands_of e.opcode) opened) (modrm_bytes e ++ e.imm) (true, fields e)
  unfolding opened parsed
  operands_read =
      subst
        (λ b.
          Reads (fetch_operands (operands_of e.opcode) opened) (part b ++ e.imm)
            (true, record (parsed b) { imm = number e.imm }))
        same_part
        (operands-Reads e.modrm e.sib e.displ h.displ_bytes opened empty.0 empty.1 e.imm h.imm_bytes
          empty.2 h.sib_size h.displ_size (operands_of e.opcode)
          (operands-known e.opcode h.byte h.known) size)
    where
      size :
          length e.imm
          ≡ taken_length (operands_of e.opcode) (parsed (takes_modrm (operands_of e.opcode)))
      size =
          h.imm_size
          ∙ sym (taken-length e.opcode h.byte (header e) h.plain)
          ∙ ap (λ b. taken_length (operands_of e.opcode) (parsed b)) (sym same_part)

  decode-Reads : Reads (x64decode fuel blank) (encode e) (true, fields e)
  unfolding x64decode after_prefixes opened
  decode-Reads =
      subst (λ bs. Reads (x64decode fuel blank) bs (true, fields e))
        (regrouped e.prefixes e.rex e.opcode (modrm_bytes e ++ e.imm))
        (Reads-bind after_prefixes
          (prefixes-Reads e.prefixes e.rex (first_byte e.opcode) fuel blank enough h.follows)
          (opcode-Reads e.opcode (with_rex e.rex (with_prefixes e.prefixes blank))
            (modrm_bytes e ++ e.imm) (true, fields e) h.whole operands_read))

  pub x64decode-encode :
      (s : Emu)
      → s.rip + length (encode e) < 2 ^ 64
      → CodeAt s.mem s.rip (encode e)
      → x64decode fuel blank s ≡ ok (true, fields e) (record s { rip = s.rip + length (encode e) })
  x64decode-encode s fits code = decode-Reads.at s fits code
