-- ===== src/Context/Init.antt =====
-- `x64stack_init` of x64emu/stack.c, `x64context_init` of x64emu/context.c, and `detect_48bit_va` of
-- platform/virtual.c.
use flux.Base.{
  length, ℕ, ◌+◌, ◌-◌, ◌*◌, ◌%◌, ◌^◌, ◌<◌, ◌≡◌, refl, sym, ap, ◌∙◌, Bool, true, false, Option, none,
  some, List, [], ◌∷◌, arith, ltb,
}
use flux.Machine.{Context}
use flux.Context.{Os, unmap, x64stack_free}

-- What the functions ask of the host: an anonymous mapping at a hint, the lines of /proc/self/maps
-- with the two addresses that `sscanf` reads in each, and `sysconf(_SC_PAGESIZE)`.
pub record Mapper : Type 0 where
  pub mmap : ℕ → ℕ → Option ℕ
  pub maps : Option (List (Option (ℕ × ℕ)))
  pub page_size : ℕ

-- `stack_addr_48bit`, `stack_addr_39bit` and `stack_init_size`.
abbrev pub stack_addr : Bool → ℕ
stack_addr true = 7 * 2 ^ 44
stack_addr false = 7 * 2 ^ 36

abbrev pub stack_init_size : ℕ
stack_init_size = 1024 * 1024 * 1024

-- The end of `argv` behind the name of the emulator.
abbrev pub tail : List (List ℕ) → List (List ℕ)
tail [] = []
tail (str ∷ strs) = strs

-- The loop over `envp`, which a NULL ends.
unfoldable pub count_strings : List (List ℕ) → ℕ → ℕ
count_strings [] envc = envc
count_strings (str ∷ strs) envc = count_strings strs (envc + 1)

pub count_strings_lem :
    (strs : List (List ℕ)) (envc : ℕ) → count_strings strs envc ≡ envc + length strs
unfolding count_strings
count_strings_lem [] envc = omega arith
count_strings_lem (str ∷ strs) envc = count_strings_lem strs (envc + 1) ∙ omega arith

-- The loop of `detect_48bit_va`.
unfoldable pub last_end : List (Option (ℕ × ℕ)) → ℕ → ℕ
last_end [] max_address = max_address
last_end (none ∷ lines) max_address = last_end lines max_address
last_end (some (start, end) ∷ lines) max_address = last_end lines end

unfoldable pub detect_48bit_va : Option (List (Option (ℕ × ℕ))) → Bool
unfolding last_end
detect_48bit_va none = false
detect_48bit_va (some lines) = ltb (2 ^ 39 - 1) (last_end lines 0)

-- What follows `mmap`. MAP_FAILED is the address with all bits set.
abbrev pub after_mmap : Context → Option ℕ → Bool × Context
after_mmap ctx none =
    (false, record ctx { stack = record (ctx.stack) { base = 2 ^ 64 - 1; size = 0 } })
after_mmap ctx (some base) =
    (true, record ctx { stack = record { base = base; size = stack_init_size; align = 16 } })

module _ (host : Mapper) where
  unfoldable pub x64stack_init : Context → Bool × Context
  unfolding detect_48bit_va
  x64stack_init ctx =
      after_mmap ctx
        (host.mmap (stack_addr (detect_48bit_va host.maps) - stack_init_size) stack_init_size)

  -- `argc` is the pattern of an `int`. Behind the NULL of `argv` nothing is read of it.
  unfoldable pub x64context_init : ℕ → List (List ℕ) → List (List ℕ) → Context → Bool × Context
  unfolding x64stack_init count_strings
  x64context_init argc argv envp ctx = x64stack_init (record ctx {
    argc = (argc + 2 ^ 32 - 1) % 2 ^ 32;
    argv = tail argv;
    envc = count_strings envp 0;
    envv = envp;
    page_size = host.page_size;
  })

  -- Where the stack is asked for.
  abbrev pub stack_hint : ℕ
  stack_hint = stack_addr (detect_48bit_va host.maps) - stack_init_size

  -- If x64context_init succeeds on a vector of `argc` strings, of which the first names the emulator,
  -- then the context has the others and their number, the strings of the environment and their
  -- number, and the page size of the host; and its stack is the area, of the initial size and
  -- aligned to 16, that mmap has given at the hint below the address that the host's maps suggest.
  pub x64context_init-counts :
      (argc : ℕ) (name : List ℕ) (args envp : List (List ℕ)) (ctx c : Context)
      → argc ≡ length (name ∷ args)
      → argc < 2 ^ 31
      → x64context_init argc (name ∷ args) envp ctx ≡ (true, c)
      → (c.argc ≡ length args)
        × (c.argv ≡ args)
        × (c.envc ≡ length envp)
        × (c.envv ≡ envp)
        × (c.page_size ≡ host.page_size)
        × ((base : ℕ) × (host.mmap stack_hint stack_init_size ≡ some base)
            × (c.stack ≡ record { base = base; size = stack_init_size; align = 16 }))
  unfolding x64context_init x64stack_init
  x64context_init-counts argc name args envp ctx c counted fits h =
      go (host.mmap stack_hint stack_init_size) refl h
    where
      before : Context
      before = record ctx {
        argc = (argc + 2 ^ 32 - 1) % 2 ^ 32;
        argv = args;
        envc = count_strings envp 0;
        envv = envp;
        page_size = host.page_size;
      }

      go :
          (o : Option ℕ)
          → host.mmap stack_hint stack_init_size ≡ o
          → after_mmap before o ≡ (true, c)
          → (c.argc ≡ length args)
            × (c.argv ≡ args)
            × (c.envc ≡ length envp)
            × (c.envv ≡ envp)
            × (c.page_size ≡ host.page_size)
            × ((base : ℕ) × (host.mmap stack_hint stack_init_size ≡ some base)
                × (c.stack ≡ record { base = base; size = stack_init_size; align = 16 }))
      go none e k = absurd (cc)
      go (some base) e k =
          let same = sym (ap (λ (r : Bool × Context). r.1) k) in
          (
            ap (λ (c : Context). c.argc) same ∙ omega (arith, counted),
            ap (λ (c : Context). c.argv) same,
            ap (λ (c : Context). c.envc) same ∙ count_strings_lem envp 0 ∙ omega arith,
            ap (λ (c : Context). c.envv) same,
            ap (λ (c : Context). c.page_size) same,
            (base, e, ap (λ (c : Context). c.stack) same),
          )

  -- x64stack_free after x64stack_init asks to unmap the area that mmap has given, in its whole size,
  -- and nothing if the mapping failed.
  pub x64stack_free-init :
      (os : Os) (ctx : Context) (o : Option ℕ)
      → host.mmap stack_hint stack_init_size ≡ o
      → (x64stack_free os (x64stack_init ctx).1).unmapped
        ≡ (elim o [ none ↦ [] | some base ↦ record { base = base; size = stack_init_size } ∷ [] ])
  unfolding x64stack_free x64stack_init unmap
  x64stack_free-init os ctx o e =
      ap (λ (o : Option ℕ). (x64stack_free os (after_mmap ctx o).1).unmapped) e ∙ go o
    where
      go :
          (o : Option ℕ)
          → (x64stack_free os (after_mmap ctx o).1).unmapped ≡ (elim o [
            | none ↦ []
            | some base ↦ record { base = base; size = stack_init_size } ∷ []
          ])
      go none = refl
      go (some base) = ground arith
