-- ===== src/Elf/Process.antt =====
-- What a load of elfloader/elfloader.c leaves as it was: the stack area and the strings of the process.
use flux.Base.{ℕ, suc, ◌≡◌, refl, Bool, true, false, Option, none, some, List, [], ◌∷◌}
use flux.Machine.{Segment, Context, Mem}
use flux.Elf.{
  HeaderError, Ehdr, Phdr, File, Loaded, loaded, failed, out_of_bounds, crashed, Result, finished,
  gave_up, crashes, need_to_load, aligned_size, count_loadable, calloc, set_at, load_segment,
  load_segments, load_program_headers, elfloader_load, check_elf_header,
}

pub record SameProcess (c d : Context) : Type 0 where
  pub same_stack : d.stack ≡ c.stack
  pub same_argc : d.argc ≡ c.argc
  pub same_argv : d.argv ≡ c.argv
  pub same_envc : d.envc ≡ c.envc
  pub same_envv : d.envv ≡ c.envv

abbrev pub KeepsProcess : Context → Loaded → Type 0
KeepsProcess c (loaded d mem) = SameProcess c d
KeepsProcess c (failed d) = Unit
KeepsProcess c out_of_bounds = Unit
KeepsProcess c crashed = Unit

module _ (file : File) (c : Context) where
  load_segments-KeepsProcess :
      (phs : List Phdr) (i : ℕ) (d : Context) (mem : Mem)
      → SameProcess c d
      → KeepsProcess c (load_segments file phs i d mem)
  unfolding load_segments
  load_segments-KeepsProcess [] i d mem same = same
  load_segments-KeepsProcess (ph ∷ phs) i d mem same =
      header (need_to_load ph) (load_segment file d.page_size ph mem)
        (load_segments-KeepsProcess phs)
    where
      assigned :
          (o : Option (List Segment)) (mem' : Mem)
          → ((i : ℕ) (d : Context) (mem : Mem)
              → SameProcess c d
              → KeepsProcess c (load_segments file phs i d mem))
          → KeepsProcess c (elim o [
            | none ↦ out_of_bounds
            | some segs ↦ load_segments file phs (suc i) (record d { segments = segs }) mem'
          ])
      assigned none mem' again = tt
      assigned (some segs) mem' again =
          again (suc i) (record d { segments = segs }) mem'
            (record {
              same_stack = same.same_stack;
              same_argc = same.same_argc;
              same_argv = same.same_argv;
              same_envc = same.same_envc;
              same_envv = same.same_envv;
            })

      header :
          (b : Bool) (r : Result (ℕ × Mem))
          → ((i : ℕ) (d : Context) (mem : Mem)
              → SameProcess c d
              → KeepsProcess c (load_segments file phs i d mem))
          → KeepsProcess c (elim b [
            | false ↦ load_segments file phs i d mem
            | true ↦ elim r [
              | gave_up ↦ failed d
              | crashes ↦ crashed
              | finished (ret, mem') ↦
                  elim (set_at i (record { base = ret; size = aligned_size ph }) d.segments) [
                    | none ↦ out_of_bounds
                    | some segs ↦ load_segments file phs (suc i) (record d { segments = segs }) mem'
                  ]
            ]
          ])
      header false r again = again i d mem same
      header true gave_up again = tt
      header true crashes again = tt
      header true (finished (ret, mem')) again =
          assigned (set_at i (record { base = ret; size = aligned_size ph }) d.segments) mem' again

  load_program_headers-KeepsProcess :
      (e : Ehdr) (mem : Mem) → KeepsProcess c (load_program_headers file e c mem)
  unfolding load_program_headers
  load_program_headers-KeepsProcess e mem =
      of_table (file.table e.e_phoff e.e_phentsize e.e_phnum) c.segments
    where
      of_table :
          (o : Option (List Phdr)) (segs : List Segment)
          → KeepsProcess c (elim o [
            | none ↦ failed c
            | some phdrs ↦ elim segs [
              | seg ∷ segs ↦ failed c
              | [] ↦
                  load_segments file phdrs 0
                    (record c { segments = calloc (count_loadable phdrs) })
                    mem
            ]
          ])
      of_table none segs = tt
      of_table (some phdrs) (seg ∷ segs) = tt
      of_table (some phdrs) [] = load_segments-KeepsProcess phdrs 0 _ mem (record {
        same_stack = refl;
        same_argc = refl;
        same_argv = refl;
        same_envc = refl;
        same_envv = refl;
      })

  pub elfloader_load-KeepsProcess : (mem : Mem) → KeepsProcess c (elfloader_load file c mem)
  unfolding elfloader_load
  elfloader_load-KeepsProcess mem = of_header file.header
    where
      entered :
          (e : Ehdr) (l : Loaded)
          → KeepsProcess c l
          → KeepsProcess c (elim l [
            | loaded ctx' mem' ↦ loaded (record ctx' { entry = e.e_entry }) mem'
            | failed ctx' ↦ failed ctx'
            | out_of_bounds ↦ out_of_bounds
            | crashed ↦ crashed
          ])
      entered e (loaded d mem') same = record {
        same_stack = same.same_stack;
        same_argc = same.same_argc;
        same_argv = same.same_argv;
        same_envc = same.same_envc;
        same_envv = same.same_envv;
      }
      entered e (failed d) same = tt
      entered e out_of_bounds same = tt
      entered e crashed same = tt

      checked :
          (e : Ehdr) (o : Option HeaderError)
          → KeepsProcess c (elim o [
            | some error ↦ failed c
            | none ↦ elim (load_program_headers file e c mem) [
              | loaded ctx' mem' ↦ loaded (record ctx' { entry = e.e_entry }) mem'
              | failed ctx' ↦ failed ctx'
              | out_of_bounds ↦ out_of_bounds
              | crashed ↦ crashed
            ]
          ])
      checked e (some error) = tt
      checked e none =
          entered e (load_program_headers file e c mem) (load_program_headers-KeepsProcess e mem)

      of_header :
          (h : Option Ehdr)
          → KeepsProcess c (elim h [
            | none ↦ failed c
            | some e ↦ elim (check_elf_header e) [
              | some error ↦ failed c
              | none ↦ elim (load_program_headers file e c mem) [
                | loaded ctx' mem' ↦ loaded (record ctx' { entry = e.e_entry }) mem'
                | failed ctx' ↦ failed ctx'
                | out_of_bounds ↦ out_of_bounds
                | crashed ↦ crashed
              ]
            ]
          ])
      of_header none = tt
      of_header (some e) = checked e (check_elf_header e)
