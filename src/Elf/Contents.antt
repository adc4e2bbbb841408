-- ===== src/Elf/Contents.antt =====
-- What the load of one segment (elfloader/elfloader.c) leaves in the memory.
use flux.Base.{
  ℕ, zero, suc, ◌+◌, ◌-◌, ◌*◌, ◌/◌, ◌%◌, ◌^◌, ◌≤◌, ◌<◌, ◌≡◌, ◌⊎◌, inl, inr, refl, sym, ap, ◌∙◌,
  Bool, true, false, not, ltb, leb, ◌&&◌, ◌==◌, if◌then◌else◌, Option, none, some, List, [], ◌∷◌,
  bit_and, if_both, arith,
}
use flux.Machine.{Mem, next, update}
use flux.Elf.{
  Phdr, File, need_to_load, aligned_addr, aligned_size, zeroed, read_segment, load_segment, Result,
  finished, gave_up, crashes, p_flags_to_prot,
}

-- The end of the last page that reaches below `a`.
abbrev pub page_end : ℕ → ℕ → ℕ
page_end page a = (a + page - 1) / page * page

-- The documented effect of the calls on the memory: `mmap` changes the pages of the area, `fread`
-- stores the bytes of the file, and `mprotect` changes none.
pub record IsFile (file : File) (content : ℕ → ℕ) (page : ℕ) : Type 0 where
  pub maps :
      (a n x ret : ℕ) (mem mem' : Mem)
      → file.mmap a n mem ≡ some (ret, mem')
      → (x < a) ⊎ (page_end page (a + n) ≤ x)
      → mem'.byte x ≡ mem.byte x
  pub reads :
      (offset a n k : ℕ) (mem mem' : Mem)
      → file.read offset a n mem ≡ some mem'
      → k < n
      → mem'.byte (a + k) ≡ content (offset + k)
  pub reads_only :
      (offset a n x : ℕ) (mem mem' : Mem)
      → file.read offset a n mem ≡ some mem'
      → (x < a) ⊎ (a + n ≤ x)
      → mem'.byte x ≡ mem.byte x
  pub protects :
      (a n prot x : ℕ) (mem mem' : Mem)
      → file.mprotect a n prot mem ≡ some mem'
      → mem'.byte x ≡ mem.byte x

-- The sizes of a header.
abbrev pub IsSized : Phdr → Type 0
IsSized ph = (ph.p_filesz ≤ ph.p_memsz) × (ph.p_vaddr + ph.p_memsz < 2 ^ 64)

-- `x` is neither in the pages of a segment nor in the segment.
abbrev pub Outside : ℕ → Phdr → ℕ → Type 0
Outside page ph x =
    ((x < aligned_addr ph) ⊎ (page_end page (aligned_addr ph + aligned_size ph) ≤ x))
    × ((x < ph.p_vaddr) ⊎ (ph.p_vaddr + ph.p_memsz ≤ x))

abbrev pub OutsideAll : ℕ → List Phdr → ℕ → Type 0
OutsideAll page [] x = Unit
OutsideAll page (ph ∷ phs) x = (need_to_load ph ≡ true → Outside page ph x) × OutsideAll page phs x

-- The headers to be loaded are well-sized, and the pages of each are clear of those before it.
abbrev pub AreSeparate : ℕ → List Phdr → Type 0
AreSeparate page [] = Unit
AreSeparate page (ph ∷ phs) =
    (need_to_load ph ≡ true
      → IsSized ph × ((k : ℕ) → k < ph.p_memsz → OutsideAll page phs (ph.p_vaddr + k)))
    × AreSeparate page phs

module _ (content : ℕ → ℕ) where
  -- The bytes of the file, with zeros behind them.
  abbrev pub HoldsSegment : Phdr → (ℕ → ℕ) → Type 0
  HoldsSegment ph f =
      (k : ℕ)
      → k < ph.p_memsz
      → f (ph.p_vaddr + k) ≡ (if ltb k ph.p_filesz then content (ph.p_offset + k) else 0)

  abbrev pub HoldsSegments : List Phdr → (ℕ → ℕ) → Type 0
  HoldsSegments [] f = Unit
  HoldsSegments (ph ∷ phs) f = (need_to_load ph ≡ true → HoldsSegment ph f) × HoldsSegments phs f

-- What `memset` is given.
abbrev from_end : Phdr → ℕ
from_end ph = (ph.p_vaddr + ph.p_filesz) % 2 ^ 64

abbrev left_over : Phdr → ℕ
left_over ph = (ph.p_memsz + 2 ^ 64 - ph.p_filesz) % 2 ^ 64

abbrev byte_at : ℕ → Result Mem → ℕ
byte_at x gave_up = 0
byte_at x crashes = 0
byte_at x (finished mem) = mem.byte x

zeroed-byte :
    (n a x : ℕ) (mem mem' : Mem)
    → a + n < 2 ^ 64
    → zeroed a n mem ≡ finished mem'
    → mem'.byte x ≡ (if leb a x && ltb x (a + n) then 0 else mem.byte x)
unfolding zeroed
zeroed-byte zero a x mem mem' fits e = ap (byte_at x) (sym e) ∙ ground arith
zeroed-byte (suc n) a x mem mem' fits e =
    written (mem.writable a) e
      (zeroed-byte n (next a) x (record mem { byte = update mem.byte a 0 }) mem' (omega arith))
  where
    written :
        (b : Bool)
        → elim b [
          | false ↦ crashes
          | true ↦ zeroed (next a) n (record mem { byte = update mem.byte a 0 })
        ]
          ≡ finished mem'
        → (zeroed (next a) n (record mem { byte = update mem.byte a 0 }) ≡ finished mem'
            → mem'.byte x
              ≡ (if leb (next a) x && ltb x (next a + n) then 0 else update mem.byte a 0 x))
        → mem'.byte x ≡ (if leb a x && ltb x (a + suc n) then 0 else mem.byte x)
    written false e again = absurd cc
    written true e again = again e ∙ ground arith

module _ (file : File) (content : ℕ → ℕ) (page : ℕ) (kernel : IsFile file content page) where
  -- The load of one segment.
  pub record IsStored (ph : Phdr) (mem mem' : Mem) : Type 0 where
    pub holds : HoldsSegment content ph mem'.byte
    pub only : (x : ℕ) → Outside page ph x → mem'.byte x ≡ mem.byte x

  abbrev pub Stores : Phdr → Mem → Result (ℕ × Mem) → Type 0
  Stores ph mem gave_up = Unit
  Stores ph mem crashes = Unit
  Stores ph mem (finished (ret, mem')) = IsStored ph mem mem'

  module _ (ph : Phdr) (mem : Mem) (sized : IsSized ph) where
    -- The memory after each call that succeeds.
    stored :
        (m1 m2 m3 m4 : Mem) (ret prot : ℕ)
        → file.mmap (aligned_addr ph) (aligned_size ph) mem ≡ some (ret, m1)
        → file.read ph.p_offset ph.p_vaddr ph.p_filesz m1 ≡ some m2
        → zeroed (from_end ph) (left_over ph) m2 ≡ finished m3
        → file.mprotect ret (aligned_size ph) prot m3 ≡ some m4
        → IsStored ph mem m4
    stored m1 m2 m3 m4 ret prot mapped read filled protected = record {
      holds =
          λ k lt. kernel.protects _ _ _ _ _ _ protected ∙ cleared (ph.p_vaddr + k) ∙ inside k lt;
      only = λ x out. kernel.protects _ _ _ _ _ _ protected ∙ cleared x ∙ outside x out;
    }
      where
        cleared :
            (x : ℕ)
            → m3.byte x ≡ (
                if leb (ph.p_vaddr + ph.p_filesz) x && ltb x (ph.p_vaddr + ph.p_memsz)
                then 0
                else m2.byte x)
        cleared x =
            zeroed-byte _ _ x m2 m3 (omega (arith, sized.0, sized.1)) filled
            ∙ ground (arith, sized.0, sized.1)

        inside :
            (k : ℕ)
            → k < ph.p_memsz
            → (if leb (ph.p_vaddr + ph.p_filesz) (ph.p_vaddr + k)
                  && ltb (ph.p_vaddr + k) (ph.p_vaddr + ph.p_memsz)
                then 0
                else m2.byte (ph.p_vaddr + k))
              ≡ (if ltb k ph.p_filesz then content (ph.p_offset + k) else 0)
        inside k lt = ground (arith, kernel.reads ph.p_offset ph.p_vaddr ph.p_filesz k m1 m2 read)

        outside :
            (x : ℕ)
            → Outside page ph x
            → (if leb (ph.p_vaddr + ph.p_filesz) x && ltb x (ph.p_vaddr + ph.p_memsz)
                then 0
                else m2.byte x)
              ≡ mem.byte x
        outside x (pages, segment) =
            untouched
            ∙ kernel.reads_only ph.p_offset ph.p_vaddr ph.p_filesz x m1 m2 read beside
            ∙ kernel.maps (aligned_addr ph) (aligned_size ph) x ret mem m1 mapped pages
          where
            beside : (x < ph.p_vaddr) ⊎ (ph.p_vaddr + ph.p_filesz ≤ x)
            beside = elim segment [ inl h ↦ inl h | inr h ↦ inr (omega (arith, sized.0)) ]

            untouched :
                (if leb (ph.p_vaddr + ph.p_filesz) x && ltb x (ph.p_vaddr + ph.p_memsz)
                  then 0
                  else m2.byte x)
                ≡ m2.byte x
            untouched = ground arith

    -- Each call may fail, and then so does the load.
    abbrev after_protect : ℕ → Option Mem → Result (ℕ × Mem)
    after_protect ret o = elim o [ none ↦ gave_up | some m ↦ finished (ret, m) ]

    abbrev after_zeroed : ℕ → Result Mem → Result (ℕ × Mem)
    after_zeroed ret o = elim o [
      | gave_up ↦ gave_up
      | crashes ↦ crashes
      | finished m ↦
          after_protect ret (file.mprotect ret (aligned_size ph) (p_flags_to_prot ph.p_flags) m)
    ]

    abbrev after_read : ℕ → Option Mem → Result (ℕ × Mem)
    after_read ret o =
        after_zeroed ret
          (elim o [ none ↦ gave_up | some m ↦ zeroed (from_end ph) (left_over ph) m ])

    module _ (m1 : Mem) (ret : ℕ)
        (mapped : file.mmap (aligned_addr ph) (aligned_size ph) mem ≡ some (ret, m1)) where
      protect-Stores :
          (m2 m3 : Mem) (prot : ℕ)
          → file.read ph.p_offset ph.p_vaddr ph.p_filesz m1 ≡ some m2
          → zeroed (from_end ph) (left_over ph) m2 ≡ finished m3
          → (o : Option Mem) → file.mprotect ret (aligned_size ph) prot m3 ≡ o
          → Stores ph mem (after_protect ret o)
      protect-Stores m2 m3 prot read filled none e = tt
      protect-Stores m2 m3 prot read filled (some m4) e =
          stored m1 m2 m3 m4 ret prot mapped read filled e

      zeroed-Stores :
          (m2 : Mem)
          → file.read ph.p_offset ph.p_vaddr ph.p_filesz m1 ≡ some m2
          → (o : Result Mem) → zeroed (from_end ph) (left_over ph) m2 ≡ o
          → Stores ph mem (after_zeroed ret o)
      zeroed-Stores m2 read gave_up e = tt
      zeroed-Stores m2 read crashes e = tt
      zeroed-Stores m2 read (finished m3) e = protect-Stores m2 m3 _ read e _ refl

      read-Stores :
          (o : Option Mem)
          → file.read ph.p_offset ph.p_vaddr ph.p_filesz m1 ≡ o
          → Stores ph mem (after_read ret o)
      read-Stores none e = tt
      read-Stores (some m2) e = zeroed-Stores m2 e _ refl

    map-Stores :
        (r : Option (ℕ × Mem))
        → file.mmap (aligned_addr ph) (aligned_size ph) mem ≡ r
        → Stores ph mem (elim r [
          | none ↦ gave_up
          | some (ret, m1) ↦ after_zeroed ret (read_segment file ph m1)
        ])
    unfolding read_segment
    map-Stores none e = tt
    map-Stores (some (ret, m1)) e = read-Stores m1 ret e _ refl

    pub load_segment-Stores : (page_size : ℕ) → Stores ph mem (load_segment file page_size ph mem)
    unfolding load_segment
    load_segment-Stores page_size =
        if_both (Stores ph mem) (not (bit_and ph.p_align ((page_size + 2 ^ 64 - 1) % 2 ^ 64) == 0))
          tt (map-Stores _ refl)
