-- ===== src/Decode/Opcodes.antt =====
-- The opcode maps of the architecture in 64-bit mode, for the instructions of the emulator
-- (x64emu/decode.c, decode_0f.c): what follows each opcode, after the manual of the processor.
use flux.Base.{ℕ, zero, suc, ◌/◌, ◌%◌, List, [], ◌∷◌}

-- Nothing; ModR/M; an immediate of 1, of 2, of 2 or 4, and of 2, 4 or 8 bytes; the displacement of a
-- near jump, of 4 bytes; ModR/M with an immediate of 1, and of 2 or 4 bytes; the same where
-- ModR/M.reg is 0 or 1; no instruction of the emulator.
pub data Layout : Type 0 where
  oo mr ib iw iz iv jz mb mz tb tz xx : Layout

abbrev pub column : ℕ → List Layout → Layout
column n [] = xx
column zero (l ∷ ls) = l
column (suc n) (l ∷ ls) = column n ls

abbrev pub line : ℕ → List (List Layout) → List Layout
line n [] = []
line zero (row ∷ rows) = row
line (suc n) (row ∷ rows) = line n rows

abbrev pub arithmetic_row : List Layout
arithmetic_row = mr ∷ mr ∷ mr ∷ mr ∷ ib ∷ iz ∷ xx ∷ xx ∷ mr ∷ mr ∷ mr ∷ mr ∷ ib ∷ iz ∷ xx ∷ xx ∷ []

abbrev pub row_of : Layout → List Layout
row_of l = l ∷ l ∷ l ∷ l ∷ l ∷ l ∷ l ∷ l ∷ l ∷ l ∷ l ∷ l ∷ l ∷ l ∷ l ∷ l ∷ []

-- The rows 00, 10, .. F0 of the one-byte map.
abbrev pub one_byte_map : List (List Layout)
one_byte_map =
    arithmetic_row
    ∷ arithmetic_row
    ∷ arithmetic_row
    ∷ arithmetic_row
    ∷ row_of xx
    ∷ row_of oo
    ∷ (xx ∷ xx ∷ xx ∷ mr ∷ xx ∷ xx ∷ xx ∷ xx ∷ iz ∷ xx ∷ ib ∷ xx ∷ xx ∷ xx ∷ xx ∷ xx ∷ [])
    ∷ row_of ib
    ∷ (mb ∷ mz ∷ xx ∷ mb ∷ mr ∷ mr ∷ mr ∷ mr ∷ mr ∷ mr ∷ mr ∷ mr ∷ xx ∷ mr ∷ xx ∷ mr ∷ [])
    ∷ (oo ∷ oo ∷ oo ∷ oo ∷ oo ∷ oo ∷ oo ∷ oo ∷ oo ∷ oo ∷ xx ∷ xx ∷ oo ∷ oo ∷ oo ∷ oo ∷ [])
    ∷ (xx ∷ xx ∷ xx ∷ xx ∷ xx ∷ xx ∷ xx ∷ xx ∷ ib ∷ iz ∷ oo ∷ oo ∷ xx ∷ xx ∷ xx ∷ xx ∷ [])
    ∷ (ib ∷ ib ∷ ib ∷ ib ∷ ib ∷ ib ∷ ib ∷ ib ∷ iv ∷ iv ∷ iv ∷ iv ∷ iv ∷ iv ∷ iv ∷ iv ∷ [])
    ∷ (mb ∷ mb ∷ iw ∷ oo ∷ xx ∷ xx ∷ mb ∷ mz ∷ xx ∷ oo ∷ xx ∷ xx ∷ xx ∷ xx ∷ xx ∷ xx ∷ [])
    ∷ (mr ∷ mr ∷ mr ∷ mr ∷ xx ∷ xx ∷ xx ∷ xx ∷ xx ∷ xx ∷ xx ∷ xx ∷ xx ∷ xx ∷ xx ∷ xx ∷ [])
    ∷ (xx ∷ xx ∷ xx ∷ xx ∷ xx ∷ xx ∷ xx ∷ xx ∷ jz ∷ jz ∷ xx ∷ ib ∷ xx ∷ xx ∷ xx ∷ xx ∷ [])
    ∷ (xx ∷ xx ∷ xx ∷ xx ∷ xx ∷ oo ∷ tb ∷ tz ∷ oo ∷ oo ∷ oo ∷ oo ∷ oo ∷ oo ∷ mr ∷ mr ∷ [])
    ∷ []

-- The rows of the map behind 0F.
abbrev pub two_byte_map : List (List Layout)
two_byte_map =
    (xx ∷ xx ∷ xx ∷ xx ∷ xx ∷ oo ∷ xx ∷ xx ∷ xx ∷ xx ∷ xx ∷ xx ∷ xx ∷ mr ∷ xx ∷ xx ∷ [])
    ∷ row_of mr
    ∷ (xx ∷ xx ∷ xx ∷ xx ∷ xx ∷ xx ∷ xx ∷ xx ∷ mr ∷ mr ∷ mr ∷ mr ∷ mr ∷ mr ∷ mr ∷ mr ∷ [])
    ∷ row_of xx
    ∷ row_of mr
    ∷ row_of mr
    ∷ row_of mr
    ∷ (mb ∷ mb ∷ mb ∷ mb ∷ mr ∷ mr ∷ mr ∷ xx ∷ xx ∷ xx ∷ xx ∷ xx ∷ mr ∷ mr ∷ mr ∷ mr ∷ [])
    ∷ row_of jz
    ∷ row_of mr
    ∷ (xx ∷ xx ∷ oo ∷ xx ∷ xx ∷ xx ∷ xx ∷ xx ∷ xx ∷ xx ∷ xx ∷ xx ∷ xx ∷ xx ∷ xx ∷ xx ∷ [])
    ∷ (xx ∷ xx ∷ xx ∷ xx ∷ xx ∷ xx ∷ mr ∷ mr ∷ xx ∷ xx ∷ xx ∷ xx ∷ xx ∷ xx ∷ xx ∷ xx ∷ [])
    ∷ []

unfoldable pub layout_1 : ℕ → Layout
layout_1 op = column (op % 16) (line (op / 16) one_byte_map)

unfoldable pub layout_2 : ℕ → Layout
layout_2 op = column (op % 16) (line (op / 16) two_byte_map)
