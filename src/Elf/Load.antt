-- ===== src/Elf/Load.antt =====
-- What a load of elfloader/elfloader.c leaves in the context.
use flux.Base.{
  ℕ, suc, ◌+◌, ◌-◌, ◌%◌, ◌^◌, ◌≡◌, refl, sym, ap, ◌∙◌, Bool, true, false, not, ◌==◌, Option, none,
  some, List, [], ◌∷◌, bit_and, if_both,
}
use mathlib.Core.Path.{subst}
use flux.Machine.{Segment, Context, Mem}
use flux.Elf.{
  HeaderError, Ehdr, Phdr, File, Loaded, loaded, failed, out_of_bounds, crashed, Result, finished,
  gave_up, crashes, need_to_load, aligned_addr, aligned_size, p_flags_to_prot, count_loadable,
  calloc, set_at, read_segment, load_segment, load_segments, load_program_headers, elfloader_load,
  check_elf_header,
}
use flux.Elf.Segments.{areas, Records, load_segments-Records}

-- A load that succeeds has recorded `expected` and set the entry point, and none has left the array.
abbrev pub IsLoaded : List Segment → ℕ → Loaded → Type 0
IsLoaded expected entry (loaded ctx mem) = (ctx.segments ≡ expected) × (ctx.entry ≡ entry)
IsLoaded expected entry (failed ctx) = Unit
IsLoaded expected entry out_of_bounds = ⊥
IsLoaded expected entry crashed = Unit

module _ (file : File)
    (fixed : (a n : ℕ) (mem mem' : Mem) (ret : ℕ)
      → file.mmap a n mem ≡ some (ret, mem')
      → ret ≡ a) where
  load_program_headers-Records :
      (e : Ehdr) (phdrs : List Phdr) (ctx : Context) (mem : Mem)
      → file.table e.e_phoff e.e_phentsize e.e_phnum ≡ some phdrs
      → Records (areas phdrs) (load_program_headers file e ctx mem)
  unfolding load_program_headers
  load_program_headers-Records e phdrs ctx mem table =
      subst (λ (o : Option (List Phdr)). Records (areas phdrs) (of_table o)) (sym table)
        (before ctx.segments)
    where
      of_table : Option (List Phdr) → Loaded
      of_table o = elim o [
        | none ↦ failed ctx
        | some phdrs ↦ elim ctx.segments [
          | seg ∷ segs ↦ failed ctx
          | [] ↦
              load_segments file phdrs 0 (record ctx { segments = calloc (count_loadable phdrs) })
                mem
        ]
      ]

      before :
          (segs : List Segment)
          → Records (areas phdrs) (elim segs [
            | seg ∷ segs ↦ failed ctx
            | [] ↦
                load_segments file phdrs 0
                  (record ctx { segments = calloc (count_loadable phdrs) })
                  mem
          ])
      before (seg ∷ segs) = tt
      before [] = load_segments-Records file fixed phdrs [] _ mem refl

  -- elfloader_load, on a file whose header and table of program headers can be read and with an
  -- mmap that maps where MAP_FIXED asks, never assigns outside the array that it has counted; if
  -- it succeeds, the context has the entry point of the header and one segment for each header
  -- that is to be loaded, in their order, with the address and size mapped for it.
  pub elfloader_load-IsLoaded :
      (e : Ehdr) (phdrs : List Phdr) (ctx : Context) (mem : Mem)
      → file.header ≡ some e
      → file.table e.e_phoff e.e_phentsize e.e_phnum ≡ some phdrs
      → IsLoaded (areas phdrs) e.e_entry (elfloader_load file ctx mem)
  unfolding elfloader_load
  elfloader_load-IsLoaded e phdrs ctx mem header table = rw header (checked (check_elf_header e))
    where
      entered :
          (l : Loaded)
          → Records (areas phdrs) l
          → IsLoaded (areas phdrs) e.e_entry (elim l [
            | loaded ctx' mem' ↦ loaded (record ctx' { entry = e.e_entry }) mem'
            | failed ctx' ↦ failed ctx'
            | out_of_bounds ↦ out_of_bounds
            | crashed ↦ crashed
          ])
      entered (loaded ctx' mem') h = (h, refl)
      entered (failed ctx') h = tt
      entered out_of_bounds h = h
      entered crashed h = tt

      checked :
          (o : Option HeaderError)
          → IsLoaded (areas phdrs) e.e_entry (elim o [
            | some error ↦ failed ctx
            | none ↦ elim (load_program_headers file e ctx mem) [
              | loaded ctx' mem' ↦ loaded (record ctx' { entry = e.e_entry }) mem'
              | failed ctx' ↦ failed ctx'
              | out_of_bounds ↦ out_of_bounds
              | crashed ↦ crashed
            ]
          ])
      checked (some error) = tt
      checked none =
          entered (load_program_headers file e ctx mem)
            (load_program_headers-Records e phdrs ctx mem table)

module _ (file : File) (ph : Phdr)
    (nothing : (offset a : ℕ) (m : Mem) → file.read offset a 0 m ≡ none)
    (empty : ph.p_filesz ≡ 0) where
  not_read : (mem : Mem) → read_segment file ph mem ≡ gave_up
  unfolding read_segment
  not_read mem =
      rw
        (
          read_segment,
          ap (λ (n : ℕ). file.read ph.p_offset ph.p_vaddr n mem) empty
              ∙ nothing ph.p_offset ph.p_vaddr mem,
        )
        refl

  abbrev after_map : Option (ℕ × Mem) → Result (ℕ × Mem)
  after_map o = elim o [
    | none ↦ gave_up
    | some (ret, mem) ↦ elim (read_segment file ph mem) [
      | gave_up ↦ gave_up
      | crashes ↦ crashes
      | finished mem ↦ elim (file.mprotect ret (aligned_size ph) (p_flags_to_prot ph.p_flags) mem) [
        | none ↦ gave_up
        | some mem ↦ finished (ret, mem)
      ]
    ]
  ]

  not_mapped : (o : Option (ℕ × Mem)) → after_map o ≡ gave_up
  not_mapped none = refl
  not_mapped (some (ret, mem)) = rw (after_map, not_read mem) refl

  not_loaded : (page_size : ℕ) (mem : Mem) → load_segment file page_size ph mem ≡ gave_up
  unfolding load_segment
  not_loaded page_size mem =
      if_both (λ (r : Result (ℕ × Mem)). r ≡ gave_up)
        (not (bit_and ph.p_align ((page_size + 2 ^ 64 - 1) % 2 ^ 64) == 0)) refl
        (not_mapped (file.mmap (aligned_addr ph) (aligned_size ph) mem))

  -- Where fread of an item of size 0 returns 0, a header that is to be loaded, but has no byte in
  -- the file, makes the load of the segments fail, whatever else the file and the kernel do.
  pub load_segments-filesz_zero :
      (phs : List Phdr) (seg_idx : ℕ) (ctx : Context) (mem : Mem)
      → need_to_load ph ≡ true
      → load_segments file (ph ∷ phs) seg_idx ctx mem ≡ failed ctx
  unfolding load_segments
  load_segments-filesz_zero phs seg_idx ctx mem needed =
      unread (need_to_load ph) needed (load_segment file ctx.page_size ph mem)
        (not_loaded ctx.page_size mem)
    where
      unread :
          (b : Bool)
          → b ≡ true
          → (r : Result (ℕ × Mem)) → r ≡ gave_up
          → elim b [
            | false ↦ load_segments file phs seg_idx ctx mem
            | true ↦ elim r [
              | gave_up ↦ failed ctx
              | crashes ↦ crashed
              | finished (ret, mem') ↦
                  elim (set_at seg_idx
                    (record { base = ret; size = aligned_size ph })
                    ctx.segments) [
                      | none ↦ out_of_bounds
                      | some segs ↦
                          load_segments file phs (suc seg_idx) (record ctx { segments = segs }) mem'
                    ]
            ]
          ]
            ≡ failed ctx
      unread b h r k = rw (h, k) refl
