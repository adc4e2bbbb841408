-- ===== src/Decode/Agreement.antt =====
-- The switches of x64emu/decode.c and decode_0f.c against the opcode maps of the architecture.
use flux.Base.{
  ℕ, ◌<◌, ◌≡◌, ◌≢◌, refl, sym, ap, ◌∙◌, Bool, true, false, ◌&&◌, ◌==◌, all_pass, all_pass_at,
  if◌then◌else◌, ==_iff, arith,
}
use flux.Instr.{Instr, rex_w}
use flux.Decode.{
  operands, operands_0f, Operands, no_operands, modrm_only, imm_8, imm_16, imm_32, imm_16_32,
  imm_16_32_64, modrm_imm_8, modrm_imm_16_32, modrm_test_8, modrm_test_16_32, unhandled,
}
use flux.Decode.Opcodes.{Layout, oo, mr, ib, iw, iz, iv, jz, mb, mz, tb, tz, xx, layout_1, layout_2}
use flux.Decode.Format.{Opcode, one_byte, two_byte, layout_of, has_modrm, imm_length}
use flux.Decode.Parts.{takes_modrm, taken_length}

abbrev pub operands_of : Opcode → Operands
operands_of (one_byte op) = operands op
operands_of (two_byte op) = operands_0f op

-- The case of the switch that fits a layout; a jump of the second map is fetched as an immediate.
abbrev fitting : Operands → Layout → Operands
fitting jump oo = no_operands
fitting jump mr = modrm_only
fitting jump ib = imm_8
fitting jump iw = imm_16
fitting jump iz = imm_16_32
fitting jump iv = imm_16_32_64
fitting jump jz = jump
fitting jump mb = modrm_imm_8
fitting jump mz = modrm_imm_16_32
fitting jump tb = modrm_test_8
fitting jump tz = modrm_test_16_32
fitting jump xx = unhandled

abbrev index_of : Operands → ℕ
index_of no_operands = 0
index_of modrm_only = 1
index_of imm_8 = 2
index_of imm_16 = 3
index_of imm_32 = 4
index_of imm_16_32 = 5
index_of imm_16_32_64 = 6
index_of modrm_imm_8 = 7
index_of modrm_imm_16_32 = 8
index_of modrm_test_8 = 9
index_of modrm_test_16_32 = 10
index_of unhandled = 11

abbrev at_index : ℕ → Operands
at_index n =
    if n == 0
    then no_operands
    else if n == 1
    then modrm_only
    else if n == 2
    then imm_8
    else if n == 3
    then imm_16
    else if n == 4
    then imm_32
    else if n == 5
    then imm_16_32
    else if n == 6
    then imm_16_32_64
    else if n == 7
    then modrm_imm_8
    else if n == 8
    then modrm_imm_16_32
    else if n == 9
    then modrm_test_8
    else if n == 10
    then modrm_test_16_32
    else unhandled

at_index-of : (o : Operands) → at_index (index_of o) ≡ o
at_index-of no_operands = refl
at_index-of modrm_only = refl
at_index-of imm_8 = refl
at_index-of imm_16 = refl
at_index-of imm_32 = refl
at_index-of imm_16_32 = refl
at_index-of imm_16_32_64 = refl
at_index-of modrm_imm_8 = refl
at_index-of modrm_imm_16_32 = refl
at_index-of modrm_test_8 = refl
at_index-of modrm_test_16_32 = refl
at_index-of unhandled = refl

-- Two-byte opcodes are behind the byte 0F, which is no case of the first switch.
abbrev agrees_1 : ℕ → Bool
agrees_1 op = index_of (operands op) == index_of (fitting imm_32 (layout_1 op))

abbrev agrees_2 : ℕ → Bool
agrees_2 op = index_of (operands_0f op) == index_of (fitting imm_16_32 (layout_2 op))

same_index : (o p : Operands) → (index_of o == index_of p) ≡ true → o ≡ p
same_index o p h = sym (at_index-of o) ∙ ap at_index ((==_iff _ _).0 h) ∙ at_index-of p

operands-layout : (op : ℕ) → op < 256 → operands op ≡ fitting imm_32 (layout_1 op)
unfolding operands layout_1 all_pass
operands-layout op h = same_index _ _ (all_pass_at agrees_1 256 op h refl)

operands_0f-layout : (op : ℕ) → op < 256 → operands_0f op ≡ fitting imm_16_32 (layout_2 op)
unfolding operands_0f layout_2 all_pass
operands_0f-layout op h = same_index _ _ (all_pass_at agrees_2 256 op h refl)

-- The opcode is one byte, behind 0F or not.
abbrev pub IsByte : Opcode → Type 0
IsByte (one_byte op) = op < 256
IsByte (two_byte op) = op < 256

abbrev jump_of : Opcode → Operands
jump_of (one_byte op) = imm_32
jump_of (two_byte op) = imm_16_32

operands-fitting : (o : Opcode) → IsByte o → operands_of o ≡ fitting (jump_of o) (layout_of o)
operands-fitting (one_byte op) h = operands-layout op h
operands-fitting (two_byte op) h = operands_0f-layout op h

takes-fitting :
    (jump : Operands) (l : Layout)
    → takes_modrm jump ≡ false
    → takes_modrm (fitting jump l) ≡ has_modrm l
takes-fitting jump oo h = refl
takes-fitting jump mr h = refl
takes-fitting jump ib h = refl
takes-fitting jump iw h = refl
takes-fitting jump iz h = refl
takes-fitting jump iv h = refl
takes-fitting jump jz h = h
takes-fitting jump mb h = refl
takes-fitting jump mz h = refl
takes-fitting jump tb h = refl
takes-fitting jump tz h = refl
takes-fitting jump xx h = refl

known-fitting :
    (jump : Operands) (l : Layout) → jump ≢ unhandled → l ≢ xx → fitting jump l ≢ unhandled
known-fitting jump oo h k = λ e. cc
known-fitting jump mr h k = λ e. cc
known-fitting jump ib h k = λ e. cc
known-fitting jump iw h k = λ e. cc
known-fitting jump iz h k = λ e. cc
known-fitting jump iv h k = λ e. cc
known-fitting jump jz h k = h
known-fitting jump mb h k = λ e. cc
known-fitting jump mz h k = λ e. cc
known-fitting jump tb h k = λ e. cc
known-fitting jump tz h k = λ e. cc
known-fitting jump xx h k = absurd (k refl)

-- Where the decoder takes an immediate of another size than the architecture: with both REX.W and the
-- operand-size prefix, and with that prefix before a jump of the second map.
abbrev pub IsPlain : Opcode → Layout → Instr → Type 0
IsPlain o iz ins = (ins.operand_sz && rex_w ins) ≡ false
IsPlain o mz ins = (ins.operand_sz && rex_w ins) ≡ false
IsPlain o tz ins = (ins.operand_sz && rex_w ins) ≡ false
IsPlain (two_byte op) jz ins = ins.operand_sz ≡ false
IsPlain o _ ins = Unit

length-fitting :
    (o : Opcode) (l : Layout) (ins : Instr)
    → IsPlain o l ins
    → taken_length (fitting (jump_of o) l) ins ≡ imm_length l ins
length-fitting o oo ins h = refl
length-fitting o mr ins h = refl
length-fitting o ib ins h = refl
length-fitting o iw ins h = refl
length-fitting o iz ins h = ground arith
length-fitting o iv ins h = refl
length-fitting (one_byte op) jz ins h = refl
length-fitting (two_byte op) jz ins h = ground arith
length-fitting o mb ins h = refl
length-fitting o mz ins h = ground arith
length-fitting o tb ins h = refl
length-fitting o tz ins h = ground arith
length-fitting o xx ins h = refl

jump-takes : (o : Opcode) → takes_modrm (jump_of o) ≡ false
jump-takes (one_byte op) = refl
jump-takes (two_byte op) = refl

jump-known : (o : Opcode) → jump_of o ≢ unhandled
jump-known (one_byte op) = λ e. cc
jump-known (two_byte op) = λ e. cc

-- The decoder's switches and the maps agree on an opcode.
module _ (o : Opcode) (byte : IsByte o) where
  pub takes-has : takes_modrm (operands_of o) ≡ has_modrm (layout_of o)
  takes-has =
      ap takes_modrm (operands-fitting o byte) ∙ takes-fitting _ (layout_of o) (jump-takes o)

  pub operands-known : layout_of o ≢ xx → operands_of o ≢ unhandled
  operands-known known =
      λ e. known-fitting _ (layout_of o) (jump-known o) known (sym (operands-fitting o byte) ∙ e)

  pub taken-length :
      (ins : Instr)
      → IsPlain o (layout_of o) ins
      → taken_length (operands_of o) ins ≡ imm_length (layout_of o) ins
  taken-length ins plain =
      ap (λ p. taken_length p ins) (operands-fitting o byte)
      ∙ length-fitting o (layout_of o) ins plain
