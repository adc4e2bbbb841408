-- ===== src/Tests/Loads.antt =====
-- Runs of the ELF loader.
use flux.Base.{
  ◌==◌, if◌then◌else◌, none, ℕ, ◌≡◌, refl, true, some, [], ◌∷◌, ◌==◌, if◌then◌else◌, arith,
}
use flux.Machine.{Context, Mem}
use flux.Elf.{Ehdr, Phdr, File, failed, need_to_load, load_segments, elfloader_load}
use flux.Elf.Segments.{areas}
use flux.Elf.Load.{IsLoaded, elfloader_load-IsLoaded, load_segments-filesz_zero}
use flux.Tests.State.{small_context, machine, plain_regs}

abbrev ident : ℕ → ℕ
ident i =
    if i == 0
    then 0x7F
    else if i == 1
    then 0x45
    else if i == 2
    then 0x4C
    else if i == 3
    then 0x46
    else if i == 4
    then 2
    else 1

abbrev pub header : Ehdr
header = record {
  e_ident = ident;
  e_machine = 62;
  e_entry = 0x401020;
  e_phoff = 64;
  e_phentsize = 56;
  e_phnum = 2;
}

abbrev pub text_segment : Phdr
text_segment = record {
  p_type = 1;
  p_flags = 5;
  p_offset = 0x1000;
  p_vaddr = 0x401000;
  p_filesz = 0x500;
  p_memsz = 0x500;
  p_align = 0x1000;
}

abbrev note : Phdr
note = record text_segment { p_type = 4 }

abbrev bss : Phdr
bss = record text_segment { p_filesz = 0; p_flags = 6 }

abbrev pub file : File
file = record {
  header = some header;
  table = λ offset size count. some (text_segment ∷ note ∷ []);
  read = λ offset a size mem. if size == 0 then none else some mem;
  mmap = λ a size mem. some (a, mem);
  mprotect = λ a size prot mem. some mem;
}

fixed : (a n : ℕ) (mem mem' : Mem) (ret : ℕ) → file.mmap a n mem ≡ some (ret, mem') → ret ≡ a
fixed a n mem mem' ret e = ground arith

abbrev pub fresh : Context
fresh = record small_context { segments = [] }

abbrev pub memory : Mem
memory = (machine [] plain_regs).mem

elfloader_load-IsLoaded_example :
    IsLoaded (areas (text_segment ∷ note ∷ [])) 0x401020 (elfloader_load file fresh memory)
elfloader_load-IsLoaded_example =
    elfloader_load-IsLoaded file fixed header (text_segment ∷ note ∷ []) fresh memory refl refl

bss_needed : need_to_load bss ≡ true
unfolding need_to_load
bss_needed = refl

load_segments-filesz_zero_example :
    load_segments file (bss ∷ note ∷ []) 0 fresh memory ≡ failed fresh
load_segments-filesz_zero_example =
    load_segments-filesz_zero file bss (λ offset a m. refl) refl (note ∷ []) 0 fresh memory
      bss_needed
