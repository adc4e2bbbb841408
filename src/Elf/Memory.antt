-- ===== src/Elf/Memory.antt =====
-- What `elfloader_load` (elfloader/elfloader.c) leaves in the memory.
use mathlib.Core.Path.{subst}
use flux.Base.{
  ℕ, suc, ◌+◌, ◌<◌, ◌≡◌, refl, sym, ◌∙◌, Bool, true, false, Option, none, some, List, [], ◌∷◌,
}
use flux.Machine.{Segment, Context, Mem}
use flux.Elf.{
  HeaderError, Ehdr, Phdr, File, Loaded, loaded, failed, out_of_bounds, crashed, Result, finished,
  gave_up, crashes, need_to_load, aligned_size, count_loadable, calloc, set_at, load_segment,
  load_segments, load_program_headers, elfloader_load, check_elf_header,
}
use flux.Elf.Contents.{
  IsFile, OutsideAll, AreSeparate, HoldsSegments, IsStored, Stores, load_segment-Stores,
}

module _ (file : File) (content : ℕ → ℕ) (page : ℕ) (kernel : IsFile file content page) where
  -- A load that succeeds has changed the areas of its headers alone, and filled them.
  abbrev Fills : List Phdr → Mem → Loaded → Type 0
  Fills phs mem (loaded ctx mem') =
      HoldsSegments content phs mem'.byte
      × ((x : ℕ) → OutsideAll page phs x → mem'.byte x ≡ mem.byte x)
  Fills phs mem (failed ctx) = Unit
  Fills phs mem out_of_bounds = Unit
  Fills phs mem crashed = Unit

  skipped :
      (ph : Phdr) (phs : List Phdr) (mem : Mem) (l : Loaded)
      → need_to_load ph ≡ false
      → Fills phs mem l
      → Fills (ph ∷ phs) mem l
  skipped ph phs mem (loaded ctx mem') idle (holds, only) =
      ((λ wanted. absurd (cc), holds), λ x out. only x out.1)
  skipped ph phs mem (failed ctx) idle h = tt
  skipped ph phs mem out_of_bounds idle h = tt
  skipped ph phs mem crashed idle h = tt

  filled :
      (ph : Phdr) (phs : List Phdr) (mem mem1 : Mem) (l : Loaded)
      → need_to_load ph ≡ true
      → ((k : ℕ) → k < ph.p_memsz → OutsideAll page phs (ph.p_vaddr + k))
      → IsStored file content page kernel ph mem mem1
      → Fills phs mem1 l
      → Fills (ph ∷ phs) mem l
  filled ph phs mem mem1 (loaded ctx mem') wanted clear stored (holds, only) = (
    (λ _. λ k lt. only (ph.p_vaddr + k) (clear k lt) ∙ stored.holds k lt, holds),
    λ x out. only x out.1 ∙ stored.only x (out.0 wanted),
  )
  filled ph phs mem mem1 (failed ctx) wanted clear stored h = tt
  filled ph phs mem mem1 out_of_bounds wanted clear stored h = tt
  filled ph phs mem mem1 crashed wanted clear stored h = tt

  load_segments-Fills :
      (phs : List Phdr) (seg_idx : ℕ) (ctx : Context) (mem : Mem)
      → AreSeparate page phs
      → Fills phs mem (load_segments file phs seg_idx ctx mem)
  unfolding load_segments
  load_segments-Fills [] seg_idx ctx mem separate = (tt, λ x out. refl)
  load_segments-Fills (ph ∷ phs) seg_idx ctx mem (first, separate) =
      header (need_to_load ph) refl (load_segment file ctx.page_size ph mem)
        (λ wanted.
          load_segment-Stores file content page kernel ph mem (first wanted).0 ctx.page_size)
        (λ i c m. load_segments-Fills phs i c m separate)
    where
      header :
          (b : Bool)
          → need_to_load ph ≡ b
          → (r : Result (ℕ × Mem))
          → (need_to_load ph ≡ true → Stores file content page kernel ph mem r)
          → ((i : ℕ) (c : Context) (m : Mem) → Fills phs m (load_segments file phs i c m))
          → Fills (ph ∷ phs) mem (elim b [
            | false ↦ load_segments file phs seg_idx ctx mem
            | true ↦ elim r [
              | gave_up ↦ failed ctx
              | crashes ↦ crashed
              | finished (ret, mem') ↦
                  elim (set_at seg_idx
                    (record { base = ret; size = aligned_size ph })
                    ctx.segments) [
                      | none ↦ out_of_bounds
                      | some segs ↦
                          load_segments file phs (suc seg_idx) (record ctx { segments = segs }) mem'
                    ]
            ]
          ])
      header false idle r stores again =
          skipped ph phs mem (load_segments file phs seg_idx ctx mem) idle (again seg_idx ctx mem)
      header true wanted gave_up stores again = tt
      header true wanted crashes stores again = tt
      header true wanted (finished (ret, mem')) stores again =
          assigned (set_at seg_idx (record { base = ret; size = aligned_size ph }) ctx.segments)
        where
          assigned :
              (o : Option (List Segment))
              → Fills (ph ∷ phs) mem (elim o [
                | none ↦ out_of_bounds
                | some segs ↦
                    load_segments file phs (suc seg_idx) (record ctx { segments = segs }) mem'
              ])
          assigned none = tt
          assigned (some segs) =
              filled ph phs mem mem'
                (load_segments file phs (suc seg_idx) (record ctx { segments = segs }) mem') wanted
                (first wanted).1 (stores wanted)
                (again (suc seg_idx) (record ctx { segments = segs }) mem')

  load_program_headers-Fills :
      (e : Ehdr) (phdrs : List Phdr) (ctx : Context) (mem : Mem)
      → file.table e.e_phoff e.e_phentsize e.e_phnum ≡ some phdrs
      → AreSeparate page phdrs
      → Fills phdrs mem (load_program_headers file e ctx mem)
  unfolding load_program_headers
  load_program_headers-Fills e phdrs ctx mem table separate =
      subst (λ (o : Option (List Phdr)). Fills phdrs mem (of_table o)) (sym table)
        (before ctx.segments)
    where
      of_table : Option (List Phdr) → Loaded
      of_table o = elim o [
        | none ↦ failed ctx
        | some phdrs ↦ elim ctx.segments [
          | seg ∷ segs ↦ failed ctx
          | [] ↦
              load_segments file phdrs 0 (record ctx { segments = calloc (count_loadable phdrs) })
                mem
        ]
      ]

      before :
          (segs : List Segment)
          → Fills phdrs mem (elim segs [
            | seg ∷ segs ↦ failed ctx
            | [] ↦
                load_segments file phdrs 0
                  (record ctx { segments = calloc (count_loadable phdrs) })
                  mem
          ])
      before (seg ∷ segs) = tt
      before [] = load_segments-Fills phdrs 0 _ mem separate

  elfloader_load-Fills :
      (e : Ehdr) (phdrs : List Phdr) (ctx : Context) (mem : Mem)
      → file.header ≡ some e
      → file.table e.e_phoff e.e_phentsize e.e_phnum ≡ some phdrs
      → AreSeparate page phdrs
      → Fills phdrs mem (elfloader_load file ctx mem)
  unfolding elfloader_load
  elfloader_load-Fills e phdrs ctx mem header table separate =
      rw header (checked (check_elf_header e))
    where
      entered :
          (l : Loaded)
          → Fills phdrs mem l
          → Fills phdrs mem (elim l [
            | loaded ctx' mem' ↦ loaded (record ctx' { entry = e.e_entry }) mem'
            | failed ctx' ↦ failed ctx'
            | out_of_bounds ↦ out_of_bounds
            | crashed ↦ crashed
          ])
      entered (loaded ctx' mem') h = h
      entered (failed ctx') h = tt
      entered out_of_bounds h = tt
      entered crashed h = tt

      checked :
          (o : Option HeaderError)
          → Fills phdrs mem (elim o [
            | some error ↦ failed ctx
            | none ↦ elim (load_program_headers file e ctx mem) [
              | loaded ctx' mem' ↦ loaded (record ctx' { entry = e.e_entry }) mem'
              | failed ctx' ↦ failed ctx'
              | out_of_bounds ↦ out_of_bounds
              | crashed ↦ crashed
            ]
          ])
      checked (some error) = tt
      checked none =
          entered (load_program_headers file e ctx mem)
            (load_program_headers-Fills e phdrs ctx mem table separate)

  -- If elfloader_load succeeds, each segment that is to be loaded holds the bytes of the file from
  -- its offset on, as many as p_filesz says, with zeros behind them up to p_memsz, and no byte
  -- outside the segments and their pages has changed. The calls to the kernel do what they are
  -- documented to, the header and the table can be read, no header that is to be loaded has more
  -- bytes in the file than in the memory or ends behind the address space, and the pages of each
  -- are clear of the segments before it.
  pub elfloader_load-HoldsSegments :
      (e : Ehdr) (phdrs : List Phdr) (ctx ctx' : Context) (mem mem' : Mem)
      → file.header ≡ some e
      → file.table e.e_phoff e.e_phentsize e.e_phnum ≡ some phdrs
      → AreSeparate page phdrs
      → elfloader_load file ctx mem ≡ loaded ctx' mem'
      → HoldsSegments content phdrs mem'.byte
        × ((x : ℕ) → OutsideAll page phdrs x → mem'.byte x ≡ mem.byte x)
  elfloader_load-HoldsSegments e phdrs ctx ctx' mem mem' header table separate load =
      subst (Fills phdrs mem) load (elfloader_load-Fills e phdrs ctx mem header table separate)
