-- ===== src/Context/Laws.antt =====
-- The requests that `x64context_free` (x64emu/context.c) makes.
use mathlib.Core.List.{append_assoc, append-nil}
use flux.Base.{
  ◌≡◌, refl, sym, ap, ◌∙◌, Bool, true, false, ◌&&◌, ◌==◌, if◌then◌else◌, List, [], ◌∷◌, ◌++◌, arith,
}
use flux.Machine.{Segment, StackArea, Context}
use flux.Context.{Os, Freed, unmap, unmap_all, segments_free, x64stack_free, x64context_free}

-- The areas that a context has mapped: its stack, if there is one, and its segments.
abbrev pub mapped : Context → List Segment
mapped ctx =
    if ctx.stack.size == 0
    then ctx.segments
    else (record { base = ctx.stack.base; size = ctx.stack.size } ∷ ctx.segments)

-- The kernel unmaps each area.
abbrev pub all_unmap : Os → List Segment → Bool
all_unmap os [] = true
all_unmap os (seg ∷ segs) = os.munmap seg.base seg.size && all_unmap os segs

if-and : (done ret rest : Bool) → ((if done then ret else false) && rest) ≡ (ret && (done && rest))
if-and true true rest = refl
if-and true false rest = refl
if-and false true rest = refl
if-and false false rest = refl

and_true : (b : Bool) → (b && true) ≡ b
and_true true = refl
and_true false = refl

module _ (os : Os) where
  unmap_all-all :
      (segs : List Segment) (ret : Bool) (before : List Segment)
      → unmap_all os segs ret before ≡ (ret && all_unmap os segs, before ++ segs)
  unfolding unmap_all unmap
  unmap_all-all [] ret before =
      ap (λ (b : Bool). (b, before)) (sym (and_true ret))
      ∙ ap (λ (l : List Segment). (ret && true, l)) (sym (append-nil before))
  unmap_all-all (seg ∷ rest) ret before =
      unmap_all-all rest _ (before ++ (seg ∷ []))
      ∙ ap (λ (b : Bool). (b, (before ++ (seg ∷ [])) ++ rest))
          (if-and (os.munmap seg.base seg.size) ret (all_unmap os rest))
      ∙ ap (λ (l : List Segment). (ret && (os.munmap seg.base seg.size && all_unmap os rest), l))
          (append_assoc before (seg ∷ []) rest)

  segments_free-lem :
      (ctx : Context)
      → ((segments_free os ctx).ret ≡ all_unmap os ctx.segments)
        × ((segments_free os ctx).unmapped ≡ ctx.segments)
        × ((segments_free os ctx).ret ≡ true → (segments_free os ctx).ctx.segments ≡ [])
        × ((segments_free os ctx).ctx.stack ≡ ctx.stack)
  unfolding segments_free
  segments_free-lem ctx = go ctx.segments refl
    where
      go :
          (segs : List Segment)
          → ctx.segments ≡ segs
          → let f : Freed = elim segs [
            | [] ↦ record { ret = true; ctx = ctx; unmapped = [] }
            | seg ∷ rest ↦
                let (ret, asked) = unmap_all os (seg ∷ rest) true [] in
                if ret
                then record { ret = true; ctx = record ctx { segments = [] }; unmapped = asked }
                else record { ret = false; ctx = ctx; unmapped = asked }
          ] in
            (f.ret ≡ all_unmap os segs)
            × (f.unmapped ≡ segs)
            × (f.ret ≡ true → f.ctx.segments ≡ [])
            × (f.ctx.stack ≡ ctx.stack)
      go [] e = (refl, refl, λ _. e, refl)
      go (seg ∷ rest) e = ground (arith, unmap_all-all (seg ∷ rest) true [])

  -- x64context_free asks to unmap the stack, if its size is not 0, and then each segment, in order
  -- and each once, also after a request that fails, and returns true exactly if every request
  -- succeeds.
  pub x64context_free-mapped :
      (ctx : Context)
      → ((x64context_free os ctx).unmapped ≡ mapped ctx)
        × ((x64context_free os ctx).ret ≡ all_unmap os (mapped ctx))
  unfolding x64context_free x64stack_free unmap
  x64context_free-mapped ctx = ground (arith, segments_free-lem ctx)

  stack_free-lem :
      (ctx : Context)
      → (x64stack_free os ctx).ret ≡ true
      → (x64stack_free os ctx).ctx.stack.size ≡ 0
  unfolding x64stack_free unmap
  stack_free-lem ctx h = ground arith

  -- Nothing is mapped once everything is freed.
  free-empty :
      (ctx : Context)
      → (x64context_free os ctx).ret ≡ true
      → ((x64context_free os ctx).ctx.stack.size ≡ 0) × ((x64context_free os ctx).ctx.segments ≡ [])
  unfolding x64context_free
  free-empty ctx h =
      let (_, _, emptied, same) = segments_free-lem (x64stack_free os ctx).ctx in
      (
        ap (λ (a : StackArea). a.size) same ∙ stack_free-lem ctx (ground (arith, h)),
        emptied (ground (arith, h)),
      )

  -- If x64context_free returns true, a second one asks to unmap nothing and returns true.
  pub x64context_free-twice :
      (ctx : Context)
      → (x64context_free os ctx).ret ≡ true
      → ((x64context_free os ((x64context_free os ctx).ctx)).unmapped ≡ [])
        × ((x64context_free os ((x64context_free os ctx).ctx)).ret ≡ true)
  x64context_free-twice ctx h =
      let (size, segments) = free-empty ctx h in
      let (asked, done) = x64context_free-mapped (x64context_free os ctx).ctx in
      let none : mapped (x64context_free os ctx).ctx ≡ [] = rw size segments in
      (asked ∙ none, done ∙ ap (all_unmap os) none)
