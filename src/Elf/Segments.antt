-- ===== src/Elf/Segments.antt =====
-- The segments that `elfloader_load` records, for `segments_free` to unmap.
use flux.Base.{
  length, ℕ, suc, ◌+◌, ◌-◌, ◌%◌, ◌^◌, ◌≡◌, refl, sym, ap, Bool, true, false, not, ◌==◌,
  if◌then◌else◌, Option, none, some, List, [], ◌∷◌, ◌++◌, bit_and, if_both,
}
use mathlib.Core.Path.{subst}
use mathlib.Core.List.{append_assoc}
use flux.Machine.{Segment, Context, Mem}
use flux.Elf.{
  Phdr, File, Loaded, loaded, failed, out_of_bounds, crashed, Result, finished, gave_up, crashes,
  need_to_load, aligned_addr, aligned_size, count_loadable, calloc, set_at, read_segment,
  load_segment, load_segments, p_flags_to_prot, empty_segment,
}

-- The areas of the headers that are to be loaded, in their order.
pub areas : List Phdr → List Segment
areas [] = []
areas (ph ∷ phs) =
    let rest = areas phs in
    if need_to_load ph
    then (record { base = aligned_addr ph; size = aligned_size ph } ∷ rest)
    else rest

-- The assignment is inside the array, and behind those before it.
set_at-length :
    (done : List Segment) (seg old : Segment) (rest : List Segment)
    → set_at (length done) seg (done ++ (old ∷ rest)) ≡ some (done ++ (seg ∷ rest))
unfolding set_at
set_at-length [] seg old rest = refl
set_at-length (d ∷ done) seg old rest = rw (set_at-length done seg old rest) refl

length-snoc :
    (done : List Segment) (seg : Segment) → length (done ++ (seg ∷ [])) ≡ suc (length done)
length-snoc [] seg = refl
length-snoc (d ∷ done) seg = ap suc (length-snoc done seg)

-- A load that succeeds has recorded `expected`, and no load has left the array.
abbrev pub Records : List Segment → Loaded → Type 0
Records expected (loaded ctx mem) = ctx.segments ≡ expected
Records expected (failed ctx) = Unit
Records expected out_of_bounds = ⊥
Records expected crashed = Unit

-- A load that succeeds has mapped at `a`.
abbrev IsAt : ℕ → Result (ℕ × Mem) → Type 0
IsAt a gave_up = Unit
IsAt a crashes = Unit
IsAt a (finished (ret, mem)) = ret ≡ a

module _ (file : File)
    (fixed : (a n : ℕ) (mem mem' : Mem) (ret : ℕ)
      → file.mmap a n mem ≡ some (ret, mem')
      → ret ≡ a) where
  -- The area is where MAP_FIXED asks for it.
  mapped-IsAt :
      (ph : Phdr) (mem : Mem) (r : Option (ℕ × Mem))
      → file.mmap (aligned_addr ph) (aligned_size ph) mem ≡ r
      → IsAt (aligned_addr ph) (elim r [
        | none ↦ gave_up
        | some (ret, mem) ↦ elim (read_segment file ph mem) [
          | gave_up ↦ gave_up
          | crashes ↦ crashes
          | finished mem ↦
              elim (file.mprotect ret (aligned_size ph) (p_flags_to_prot ph.p_flags) mem) [
                | none ↦ gave_up
                | some mem ↦ finished (ret, mem)
              ]
        ]
      ])
  mapped-IsAt ph mem none e = tt
  mapped-IsAt ph mem (some (ret, mem')) e = read (read_segment file ph mem')
    where
      protect :
          (o : Option Mem)
          → IsAt (aligned_addr ph) (elim o [ none ↦ gave_up | some mem ↦ finished (ret, mem) ])
      protect none = tt
      protect (some m) = fixed _ _ _ _ ret e

      read :
          (o : Result Mem)
          → IsAt (aligned_addr ph) (elim o [
            | gave_up ↦ gave_up
            | crashes ↦ crashes
            | finished mem ↦
                elim (file.mprotect ret (aligned_size ph) (p_flags_to_prot ph.p_flags) mem) [
                  | none ↦ gave_up
                  | some mem ↦ finished (ret, mem)
                ]
          ])
      read gave_up = tt
      read crashes = tt
      read (finished m) =
          protect (file.mprotect ret (aligned_size ph) (p_flags_to_prot ph.p_flags) m)

  load_segment-IsAt :
      (page_size : ℕ) (ph : Phdr) (mem : Mem)
      → IsAt (aligned_addr ph) (load_segment file page_size ph mem)
  unfolding load_segment
  load_segment-IsAt page_size ph mem =
      if_both (IsAt (aligned_addr ph))
        (not (bit_and ph.p_align ((page_size + 2 ^ 64 - 1) % 2 ^ 64) == 0)) tt
        (mapped-IsAt ph mem _ refl)

  pub load_segments-Records :
      (phs : List Phdr) (done : List Segment) (ctx : Context) (mem : Mem)
      → ctx.segments ≡ done ++ calloc (count_loadable phs)
      → Records (done ++ areas phs) (load_segments file phs (length done) ctx mem)
  unfolding load_segments count_loadable calloc areas
  load_segments-Records [] done ctx mem e = e
  load_segments-Records (ph ∷ phs) done ctx mem e =
      header (need_to_load ph) e (load_segment file ctx.page_size ph mem)
        (load_segment-IsAt ctx.page_size ph mem) (load_segments-Records phs)
    where
      seg : Segment
      seg = record { base = aligned_addr ph; size = aligned_size ph }

      assigned :
          (o : Option (List Segment)) (mem' : Mem)
          → o ≡ some (done ++ (seg ∷ calloc (count_loadable phs)))
          → ((done : List Segment) (ctx : Context) (mem : Mem)
              → ctx.segments ≡ done ++ calloc (count_loadable phs)
              → Records (done ++ areas phs) (load_segments file phs (length done) ctx mem))
          → Records (done ++ (seg ∷ areas phs)) (elim o [
            | none ↦ out_of_bounds
            | some segs ↦
                load_segments file phs (suc (length done)) (record ctx { segments = segs }) mem'
          ])
      assigned o mem' h again = rw h (
          subst
            (λ (n : ℕ). Records (done ++ (seg ∷ areas phs)) (
              load_segments file phs n
                (record ctx { segments = done ++ (seg ∷ calloc (count_loadable phs)) }) mem'))
            (length-snoc done seg)
            (subst
              (λ (l : List Segment). Records l (
                load_segments file phs (length (done ++ (seg ∷ [])))
                  (record ctx { segments = done ++ (seg ∷ calloc (count_loadable phs)) }) mem'))
              (append_assoc done (seg ∷ []) (areas phs))
              (again (done ++ (seg ∷ [])) _ mem'
                (sym (append_assoc done (seg ∷ []) (calloc (count_loadable phs)))))))

      header :
          (b : Bool)
          → ctx.segments
            ≡ done ++ calloc (if b then suc (count_loadable phs) else count_loadable phs)
          → (r : Result (ℕ × Mem)) → IsAt (aligned_addr ph) r
          → ((done : List Segment) (ctx : Context) (mem : Mem)
              → ctx.segments ≡ done ++ calloc (count_loadable phs)
              → Records (done ++ areas phs) (load_segments file phs (length done) ctx mem))
          → Records (done ++ (if b then (seg ∷ areas phs) else areas phs)) (elim b [
            | false ↦ load_segments file phs (length done) ctx mem
            | true ↦ elim r [
              | gave_up ↦ failed ctx
              | crashes ↦ crashed
              | finished (ret, mem') ↦
                  elim (set_at
                    (length done)
                    (record { base = ret; size = aligned_size ph })
                    ctx.segments) [
                      | none ↦ out_of_bounds
                      | some segs ↦
                          load_segments file phs
                            (suc (length done))
                            (record ctx { segments = segs })
                            mem'
                    ]
            ]
          ])
      header false h r at again = again done ctx mem h
      header true h gave_up at again = tt
      header true h crashes at again = tt
      header true h (finished (ret, mem')) at again =
          assigned _ mem'
            (rw (at, h) (set_at-length done seg empty_segment (calloc (count_loadable phs)))) again
