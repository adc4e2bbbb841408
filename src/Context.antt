-- ===== src/Context.antt =====
-- x64emu/context.c without `x64context_init`, `x64stack_free` of x64emu/stack.c, and `x64emu_free`
-- of x64emu/emu.c. The kernel is a parameter.
pub mod Laws
pub mod Init
use flux.Base.{ℕ, Bool, true, false, ◌&&◌, ◌==◌, if◌then◌else◌, List, [], ◌∷◌, ◌++◌}
use flux.Machine.{Emu, Segment, Context, Mem}

-- The system calls that the emulator makes: `write(fd, buf, count)` on a memory gives its result,
-- as a 64-bit pattern, and `errno`; `munmap(base, size)` tells whether it succeeds.
pub record Os : Type 0 where
  pub write : ℕ → ℕ → ℕ → Mem → ℕ × ℕ
  pub munmap : ℕ → ℕ → Bool

-- What a `_free` returns, the context it leaves, and the areas that it asked to unmap, in order.
pub record Freed : Type 0 where
  pub ret : Bool
  pub ctx : Context
  pub unmapped : List Segment

module _ (os : Os) where
  -- A call of `munmap`, behind the requests before it.
  unfoldable pub unmap : Segment → List Segment → Bool × List Segment
  unmap seg before = (os.munmap seg.base seg.size, before ++ (seg ∷ []))

  -- The loop of `segments_free`, which goes on after a failure.
  unfoldable pub unmap_all : List Segment → Bool → List Segment → Bool × List Segment
  unfolding unmap
  unmap_all [] ret before = (ret, before)
  unmap_all (seg ∷ rest) ret before =
      let (done, asked) = unmap seg before in unmap_all rest (if done then ret else false) asked

  unfoldable pub segments_free : Context → Freed
  unfolding unmap_all
  segments_free ctx = elim ctx.segments [
    | [] ↦ record { ret = true; ctx = ctx; unmapped = [] }
    | seg ∷ rest ↦
        let (ret, asked) = unmap_all (seg ∷ rest) true [] in
        if ret
        then record { ret = true; ctx = record ctx { segments = [] }; unmapped = asked }
        else record { ret = false; ctx = ctx; unmapped = asked }
  ]

  unfoldable pub x64stack_free : Context → Freed
  unfolding unmap
  x64stack_free ctx =
      if ctx.stack.size == 0
      then record { ret = true; ctx = ctx; unmapped = [] }
      else (let (done, asked) =
            unmap (record { base = ctx.stack.base; size = ctx.stack.size }) [] in
          if done
          then record {
            ret = true;
            ctx = record ctx { stack = record (ctx.stack) { size = 0 } };
            unmapped = asked;
          }
          else record { ret = false; ctx = ctx; unmapped = asked })

  unfoldable pub x64context_free : Context → Freed
  unfolding x64stack_free segments_free
  x64context_free ctx =
      let a = x64stack_free ctx in
      let b = segments_free a.ctx in
      record { ret = a.ret && b.ret; ctx = b.ctx; unmapped = a.unmapped ++ b.unmapped }

  unfoldable pub x64emu_free : Emu → Bool × Emu
  unfolding x64context_free
  x64emu_free s = let f = x64context_free s.ctx in (f.ret, record s { ctx = f.ctx })
