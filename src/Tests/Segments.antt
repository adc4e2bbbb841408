-- ===== src/Tests/Segments.antt =====
-- A run of the ELF loader on a disk, down to the bytes of the segments.
use mathlib.Core.Path.{subst}
use flux.Base.{
  ℕ, zero, suc, ◌⊎◌, ◌<◌, ◌≤◌, true, ◌+◌, ◌-◌, ◌%◌, ◌≡◌, inl, refl, ltb, leb, ◌&&◌, if◌then◌else◌,
  Option, none, some, [], ◌∷◌, arith,
}
use flux.Machine.{Context, Mem}
use flux.Elf.{Phdr, File, Loaded, loaded, aligned_addr, aligned_size, elfloader_load}
use flux.Elf.Contents.{page_end, IsFile, OutsideAll, AreSeparate, HoldsSegments}
use flux.Elf.Memory.{elfloader_load-HoldsSegments}
use flux.Tests.Loads.{file, header, fresh, memory, text_segment}

abbrev data_segment : Phdr
data_segment = record text_segment {
  p_flags = 6;
  p_offset = 0x1500;
  p_vaddr = 0x402010;
  p_filesz = 0x20;
  p_memsz = 0x24;
}

abbrev bytes_of_file : ℕ → ℕ
bytes_of_file i = i % 251

-- `fread` of one item.
abbrev read_item : ℕ → ℕ → ℕ → Mem → Option Mem
read_item offset a zero mem = none
read_item offset a (suc n) mem = some (record mem {
  byte = λ x. if leb a x && ltb x (a + suc n) then bytes_of_file (offset + (x - a)) else mem.byte x;
})

abbrev disk : File
disk = record file {
  table = λ offset size count. some (text_segment ∷ data_segment ∷ []);
  read = read_item;
  mmap = λ a size mem. some (
    a,
    record mem {
      byte = λ x. if leb a x && ltb x (page_end 0x1000 (a + size)) then 0 else mem.byte x;
      writable =
          λ x. if leb a x && ltb x (page_end 0x1000 (a + size)) then true else mem.writable x;
    },
  );
}

-- What holds of a memory that a call gives.
abbrev Gives : (Mem → Type 0) → Option Mem → Type 0
Gives P none = Unit
Gives P (some m) = P m

abbrev GivesAt : (Mem → Type 0) → Option (ℕ × Mem) → Type 0
GivesAt P none = Unit
GivesAt P (some (ret, m)) = P m

read_item-reads :
    (offset a n k : ℕ) (mem mem' : Mem)
    → read_item offset a n mem ≡ some mem'
    → k < n
    → mem'.byte (a + k) ≡ bytes_of_file (offset + k)
read_item-reads offset a zero k mem mem' e lt = absurd (omega arith)
read_item-reads offset a (suc n) k mem mem' e lt =
    subst (Gives λ m. m.byte (a + k) ≡ bytes_of_file (offset + k)) e (ground arith)

read_item-reads_only :
    (offset a n x : ℕ) (mem mem' : Mem)
    → read_item offset a n mem ≡ some mem'
    → (x < a) ⊎ (a + n ≤ x)
    → mem'.byte x ≡ mem.byte x
read_item-reads_only offset a zero x mem mem' e out = absurd cc
read_item-reads_only offset a (suc n) x mem mem' e out =
    subst (Gives λ m. m.byte x ≡ mem.byte x) e (ground (arith, out))

disk-IsFile : IsFile disk bytes_of_file 0x1000
disk-IsFile = record {
  maps = λ a n x ret mem mem' e out.
      subst (GivesAt λ m. m.byte x ≡ mem.byte x) e (ground (arith, out));
  reads = read_item-reads;
  reads_only = read_item-reads_only;
  protects = λ a n prot x mem mem' e. subst (Gives λ m. m.byte x ≡ mem.byte x) e refl;
}

abbrev context_of : Loaded → Context
context_of (loaded ctx mem) = ctx
context_of _ = fresh

abbrev memory_of : Loaded → Mem
memory_of (loaded ctx mem) = mem
memory_of _ = memory

disk-loaded :
    elfloader_load disk fresh memory
    ≡ loaded
        (context_of (elfloader_load disk fresh memory))
        (memory_of (elfloader_load disk fresh memory))
unfolding elfloader_load
disk-loaded = refl

disk-AreSeparate : AreSeparate 0x1000 (text_segment ∷ data_segment ∷ [])
unfolding aligned_addr aligned_size
disk-AreSeparate = (
  λ needed.
      ((omega arith, omega arith), λ k lt. (λ needed'. (inl (omega arith), inl (omega arith)), tt)),
  (λ needed. ((omega arith, omega arith), λ k lt. tt), tt),
)

elfloader_load-HoldsSegments_example :
    HoldsSegments bytes_of_file
      (text_segment ∷ data_segment ∷ [])
      (memory_of (elfloader_load disk fresh memory)).byte
    × ((x : ℕ)
        → OutsideAll 0x1000 (text_segment ∷ data_segment ∷ []) x
        → (memory_of (elfloader_load disk fresh memory)).byte x ≡ memory.byte x)
elfloader_load-HoldsSegments_example =
    elfloader_load-HoldsSegments disk bytes_of_file 0x1000 disk-IsFile header
      (text_segment ∷ data_segment ∷ []) fresh (context_of (elfloader_load disk fresh memory))
      memory (memory_of (elfloader_load disk fresh memory)) refl refl disk-AreSeparate disk-loaded
