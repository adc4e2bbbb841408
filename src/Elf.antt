-- ===== src/Elf.antt =====
-- elfloader/elfloader.c: from a file to the segments of a context. What `main` does after a failure
-- is to return, so a failure keeps only the context.
pub mod Segments
pub mod Load
pub mod Process
pub mod Contents
pub mod Memory
use flux.Base.{
  ℕ, zero, suc, ◌+◌, ◌-◌, ◌%◌, ◌^◌, Bool, true, false, not, ◌&&◌, ◌||◌, ltb, ◌==◌, if◌then◌else◌,
  Option, none, some, List, [], ◌∷◌, bit_and, bit_or,
}
use flux.Word.{w64, complement}
use flux.Machine.{Segment, Context, Mem, next, update}

-- The fields of `Elf64_Ehdr` that the loader reads.
pub record Ehdr : Type 0 where
  pub e_ident : ℕ → ℕ
  pub e_machine : ℕ
  pub e_entry : ℕ
  pub e_phoff : ℕ
  pub e_phentsize : ℕ
  pub e_phnum : ℕ

-- `Elf64_Phdr`
pub record Phdr : Type 0 where
  pub p_type : ℕ
  pub p_flags : ℕ
  pub p_offset : ℕ
  pub p_vaddr : ℕ
  pub p_filesz : ℕ
  pub p_memsz : ℕ
  pub p_align : ℕ

-- The file and the kernel, with none for a failure: the header, the table of `count` entries of a
-- size at an offset, `size` bytes at an offset read to an address, `mmap` with MAP_FIXED, and
-- `mprotect`. A read of items of size 0 gives what `fread` returns for them.
pub record File : Type 0 where
  pub header : Option Ehdr
  pub table : ℕ → ℕ → ℕ → Option (List Phdr)
  pub read : ℕ → ℕ → ℕ → Mem → Option Mem
  pub mmap : ℕ → ℕ → Mem → Option (ℕ × Mem)
  pub mprotect : ℕ → ℕ → ℕ → Mem → Option Mem

-- The error strings.
pub data HeaderError : Type 0 where
  bad_magic not_64_bit bad_encoding bad_version bad_machine : HeaderError

unfoldable pub check_elf_header : Ehdr → Option HeaderError
check_elf_header e =
    if not
      (e.e_ident 0 == 0x7F && e.e_ident 1 == 0x45 && e.e_ident 2 == 0x4C && e.e_ident 3 == 0x46)
    then some bad_magic
    else if not (e.e_ident 4 == 2)
    then some not_64_bit
    else if not (e.e_ident 5 == 1)
    then some bad_encoding
    else if not (e.e_ident 6 == 1)
    then some bad_version
    else if not (e.e_machine == 62)
    then some bad_machine
    else none

unfoldable pub p_flags_to_prot : ℕ → ℕ
p_flags_to_prot flags =
    bit_or (bit_or (if bit_and flags 1 == 0 then 0 else 4) (if bit_and flags 4 == 0 then 0 else 1))
      (if bit_and flags 2 == 0 then 0 else 2)

unfoldable pub need_to_load : Phdr → Bool
need_to_load ph = ph.p_type == 1 && not (ph.p_memsz == 0) && not (bit_and ph.p_flags 7 == 0)

unfoldable pub aligned_addr : Phdr → ℕ
aligned_addr ph = bit_and ph.p_vaddr (complement w64 ((ph.p_align + 2 ^ 64 - 1) % 2 ^ 64))

unfoldable pub aligned_size : Phdr → ℕ
unfolding aligned_addr
aligned_size ph = (ph.p_memsz + (ph.p_vaddr + 2 ^ 64 - aligned_addr ph) % 2 ^ 64) % 2 ^ 64

-- How a part of the load ends: with a value, at the `goto` of a failure, or by a signal.
pub data Result {ℓ} (A : Type ℓ) : Type ℓ where
  finished : A → Result A
  gave_up : Result A
  crashes : Result A

-- `memset` to 0, which crashes at the first byte that cannot be written.
unfoldable pub zeroed : ℕ → ℕ → Mem → Result Mem
zeroed a zero mem = finished mem
zeroed a (suc n) mem = elim (mem.writable a) [
  | false ↦ crashes
  | true ↦ zeroed (next a) n (record mem { byte = update mem.byte a 0 })
]

-- The loop that counts.
unfoldable pub count_loadable : List Phdr → ℕ
unfolding need_to_load
count_loadable [] = 0
count_loadable (ph ∷ phs) =
    let rest = count_loadable phs in if need_to_load ph then suc rest else rest

-- `calloc`
abbrev pub empty_segment : Segment
empty_segment = record { base = 0; size = 0 }

unfoldable pub calloc : ℕ → List Segment
calloc zero = []
calloc (suc n) = empty_segment ∷ calloc n

-- `ctx->segments[i] = seg`, with none outside the array.
unfoldable pub set_at : ℕ → Segment → List Segment → Option (List Segment)
set_at i seg [] = none
set_at zero seg (old ∷ segs) = some (seg ∷ segs)
set_at (suc i) seg (old ∷ segs) = elim (set_at i seg segs) [
  | none ↦ none
  | some segs' ↦ some (old ∷ segs')
]

pub data Loaded : Type 0 where
  loaded : Context → Mem → Loaded
  failed : Context → Loaded
  out_of_bounds : Loaded
  crashed : Loaded

module _ (file : File) where
  unfoldable pub read_segment : Phdr → Mem → Result Mem
  unfolding zeroed
  read_segment ph mem = elim (file.read ph.p_offset ph.p_vaddr ph.p_filesz mem) [
    | none ↦ gave_up
    | some mem' ↦
        zeroed ((ph.p_vaddr + ph.p_filesz) % 2 ^ 64) ((ph.p_memsz + 2 ^ 64 - ph.p_filesz) % 2 ^ 64)
          mem'
  ]

  -- The body under `need_to_load`, up to the assignment to the array: the mapped address.
  unfoldable pub load_segment : ℕ → Phdr → Mem → Result (ℕ × Mem)
  unfolding aligned_addr aligned_size read_segment p_flags_to_prot
  load_segment page_size ph mem =
      if not (bit_and ph.p_align ((page_size + 2 ^ 64 - 1) % 2 ^ 64) == 0)
      then gave_up
      else elim (file.mmap (aligned_addr ph) (aligned_size ph) mem) [
        | none ↦ gave_up
        | some (ret, mem) ↦ elim (read_segment ph mem) [
          | gave_up ↦ gave_up
          | crashes ↦ crashes
          | finished mem ↦
              elim (file.mprotect ret (aligned_size ph) (p_flags_to_prot ph.p_flags) mem) [
                | none ↦ gave_up
                | some mem ↦ finished (ret, mem)
              ]
        ]
      ]

  -- The second loop of `load_program_headers`.
  unfoldable pub load_segments : List Phdr → ℕ → Context → Mem → Loaded
  unfolding need_to_load load_segment set_at
  load_segments [] seg_idx ctx mem = loaded ctx mem
  load_segments (ph ∷ phs) seg_idx ctx mem = elim (need_to_load ph) [
    | false ↦ load_segments phs seg_idx ctx mem
    | true ↦ elim (load_segment ctx.page_size ph mem) [
      | gave_up ↦ failed ctx
      | crashes ↦ crashed
      | finished (ret, mem') ↦
          elim (set_at seg_idx (record { base = ret; size = aligned_size ph }) ctx.segments) [
            | none ↦ out_of_bounds
            | some segs ↦ load_segments phs (suc seg_idx) (record ctx { segments = segs }) mem'
          ]
    ]
  ]

  unfoldable pub load_program_headers : Ehdr → Context → Mem → Loaded
  unfolding load_segments count_loadable calloc
  load_program_headers e ctx mem = elim (file.table e.e_phoff e.e_phentsize e.e_phnum) [
    | none ↦ failed ctx
    | some phdrs ↦ elim ctx.segments [
      | seg ∷ segs ↦ failed ctx
      | [] ↦ load_segments phdrs 0 (record ctx { segments = calloc (count_loadable phdrs) }) mem
    ]
  ]

  unfoldable pub elfloader_load : Context → Mem → Loaded
  unfolding check_elf_header load_program_headers
  elfloader_load ctx mem = elim file.header [
    | none ↦ failed ctx
    | some e ↦ elim (check_elf_header e) [
      | some error ↦ failed ctx
      | none ↦ elim (load_program_headers e ctx mem) [
        | loaded ctx' mem' ↦ loaded (record ctx' { entry = e.e_entry }) mem'
        | failed ctx' ↦ failed ctx'
        | out_of_bounds ↦ out_of_bounds
        | crashed ↦ crashed
      ]
    ]
  ]
