-- ===== src/Execute/Sse.antt =====
-- The SSE and MMX moves of x64emu/execute_0f.c.
use flux.Base.{ℕ, zero, suc, ◌+◌, ◌*◌, Bool, true, ◌||◌, ◌==◌, if◌then◌else◌, to_nat}
use flux.Word.{Width, w8, w16, w32, w64, w128}
use flux.Machine.{M, ◌>>=◌, ◌>>◌, pure, gets}
use flux.Instr.{Instr, rex_w, modrm_mod}
use flux.Modrm.{Place, x64modrm_get_xmm, x64modrm_get_xmm_m, x64modrm_get_mmx, x64modrm_get_mmx_m}
use flux.Place.{read, write}

-- `dest->u[j] = src->u[i]`, at the width of the member.
unfoldable pub copy : Width → ℕ → Place → ℕ → Place → M (Unit {0})
unfolding read write
copy w j dest i src = do v ← read w i src; write w j dest v

-- `dest->uo[0] = (uint128_t)src->u[0]`
unfoldable pub zero_extend : Width → Place → Place → M (Unit {0})
unfolding read write
zero_extend w dest src = do v ← read w 0 src; write w128 0 dest v

-- `OP_INTERLEAVE_LOW` and `OP_INTERLEAVE_HIGH`: `offset` is 0 or `times`, and `left` rounds are to
-- come from round `i` on.
unfoldable pub interleave : ℕ → ℕ → ℕ → Width → Place → Place → M (Unit {0})
unfolding copy
interleave offset zero i w dest src = pure tt
interleave offset (suc left) i w dest src = do
  copy w (i * 2) dest (i + offset) dest
  copy w (i * 2 + 1) dest (i + offset) src
  interleave offset left (i + 1) w dest src

abbrev pub interleave_low : Width → ℕ → Place → Place → M (Unit {0})
interleave_low w times = interleave 0 times 0 w

abbrev pub interleave_high : Width → ℕ → Place → Place → M (Unit {0})
interleave_high w times = interleave times times 0 w

-- `dest->ud[0] = dest->ud[1] = src->ud[i]; dest->ud[2] = dest->ud[3] = src->ud[j];`
unfoldable pub duplicate : ℕ → ℕ → Place → Place → M (Unit {0})
unfolding copy read write
duplicate i j dest src = do
  v ← read w32 i src
  write w32 1 dest v
  write w32 0 dest v
  v' ← read w32 j src
  write w32 3 dest v'
  write w32 2 dest v'

module _ (ins : Instr) where
  -- The cases 10 .. 17, with `dest` and `src` as `DEST_XMM_SRC_XMM_M` or `DEST_XMM_M_SRC_XMM`
  -- gives them.
  unfoldable pub sse_10 : Place → Place → M (Unit {0})
  unfolding copy zero_extend
  sse_10 dest src =
      if ins.rep == 0xF3
      then (if modrm_mod ins == 3 then copy w32 0 dest 0 src else zero_extend w32 dest src)
      else if ins.rep == 0xF2
      then (if modrm_mod ins == 3 then copy w64 0 dest 0 src else zero_extend w64 dest src)
      else copy w128 0 dest 0 src

  unfoldable pub sse_11 : Place → Place → M (Unit {0})
  unfolding copy
  sse_11 dest src =
      if ins.rep == 0xF3
      then copy w32 0 dest 0 src
      else if ins.rep == 0xF2
      then copy w64 0 dest 0 src
      else copy w128 0 dest 0 src

  unfoldable pub sse_12 : Place → Place → M (Unit {0})
  unfolding copy duplicate read write
  sse_12 dest src =
      if ins.rep == 0xF3
      then duplicate 0 1 dest src
      else if ins.rep == 0xF2
      then (do v ← read w64 0 src; write w64 1 dest v; write w64 0 dest v)
      else if ins.operand_sz
      then copy w64 0 dest 0 src
      else copy w64 0 dest (to_nat (modrm_mod ins == 3)) src

  unfoldable pub sse_14 : Place → Place → M (Unit {0})
  unfolding interleave
  sse_14 dest src =
      if ins.operand_sz then interleave_low w64 1 dest src else interleave_low w32 2 dest src

  unfoldable pub sse_15 : Place → Place → M (Unit {0})
  unfolding interleave
  sse_15 dest src =
      if ins.operand_sz then interleave_high w64 1 dest src else interleave_high w32 2 dest src

  unfoldable pub sse_16 : Place → Place → M (Unit {0})
  unfolding copy duplicate
  sse_16 dest src =
      if ins.rep == 0xF3
      then duplicate 1 3 dest src
      else if ins.operand_sz
      then copy w64 0 dest 1 src
      else copy w64 1 dest 0 src

  unfoldable pub sse_move : ℕ → M Bool
  unfolding sse_10 sse_11 sse_12 sse_14 sse_15 sse_16 copy x64modrm_get_xmm x64modrm_get_xmm_m
  sse_move op = do
    let x = x64modrm_get_xmm ins
    m ← gets (x64modrm_get_xmm_m ins)
    if op == 0x10
        then sse_10 x m
        else if op == 0x11
        then sse_11 m x
        else if op == 0x12
        then sse_12 x m
        else if op == 0x13
        then copy w64 0 m 0 x
        else if op == 0x14
        then sse_14 x m
        else if op == 0x15
        then sse_15 x m
        else if op == 0x16
        then sse_16 x m
        else if op == 0x17
        then copy w64 1 m 0 x
        else if op == 0x28
        then copy w128 0 x 0 m
        else copy w128 0 m 0 x
    pure true

  -- 60 .. 62 and 68 .. 6A: PUNPCKL and PUNPCKH on XMM registers, or on the half as wide MMX ones.
  unfoldable pub unpack : (Width → ℕ → Place → Place → M (Unit {0})) → Width → ℕ → M Bool
  unfolding x64modrm_get_xmm x64modrm_get_xmm_m x64modrm_get_mmx x64modrm_get_mmx_m
  unpack op w times = do
    x ← gets (x64modrm_get_xmm_m ins)
    m ← gets (x64modrm_get_mmx_m ins)
    if ins.operand_sz
        then op w (times * 2) (x64modrm_get_xmm ins) x
        else op w times (x64modrm_get_mmx ins) m
    pure true

  -- 6E
  unfoldable pub movd : M Bool
  unfolding read write x64modrm_get_xmm x64modrm_get_xmm_m x64modrm_get_mmx x64modrm_get_mmx_m
  movd = do
    let width : Width = if rex_w ins then w64 else w32
    x ← gets (x64modrm_get_xmm_m ins)
    m ← gets (x64modrm_get_mmx_m ins)
    if ins.operand_sz
        then (do v ← read width 0 x; write w128 0 (x64modrm_get_xmm ins) v)
        else (do v ← read width 0 m; write w64 0 (x64modrm_get_mmx ins) v)
    pure true

  -- 6F
  unfoldable pub movdq : M Bool
  unfolding copy x64modrm_get_xmm x64modrm_get_xmm_m x64modrm_get_mmx x64modrm_get_mmx_m
  movdq = do
    x ← gets (x64modrm_get_xmm_m ins)
    m ← gets (x64modrm_get_mmx_m ins)
    if ins.operand_sz || ins.rep == 0xF3
        then copy w128 0 (x64modrm_get_xmm ins) 0 x
        else copy w64 0 (x64modrm_get_mmx ins) 0 m
    pure true

  -- 60 .. 62 and 68 .. 6A
  unfoldable pub punpck : ℕ → M Bool
  unfolding unpack interleave
  punpck op =
      if op == 0x60
      then unpack interleave_low w8 4
      else if op == 0x61
      then unpack interleave_low w16 2
      else if op == 0x62
      then unpack interleave_low w32 1
      else if op == 0x68
      then unpack interleave_high w8 4
      else if op == 0x69
      then unpack interleave_high w16 2
      else unpack interleave_high w32 1
