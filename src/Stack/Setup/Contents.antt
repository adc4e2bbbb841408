-- ===== src/Stack/Setup/Contents.antt =====
-- What `x64stack_setup` (x64emu/stack.c) leaves on the stack.
use mathlib.Core.Path.{subst}
use native.Mathlib.Nat.{le_refl}
use flux.Base.{length, ℕ, ◌+◌, ◌*◌, ◌^◌, ◌≤◌, ◌<◌, ◌≡◌, refl, sym, Bool, true, List, [], ◌∷◌, arith}
use flux.Word.{w32, w64}
use flux.Machine.{Emu, Context, ok, ◌>>=◌, pure, gets, reg, rsp, undefined}
use flux.Stack.Setup.{
  Host, push_strings, push_random, push_align, push_vector, push_pointers, x64stack_setup,
}
use flux.Stack.Setup.Layout.{
  Holds, HoldsString, HoldsStrings, x86_64, vector, pointers, string_bytes, IsLaidOut,
}
use flux.Stack.Setup.Lays.{Lays, Lays-bind, Lays-pure, Lays-weaken, Lays-ctx}
use flux.Stack.Setup.Strings.{Lays-push_string, Lays-push_align}
use flux.Stack.Setup.Words.{Words-tail}
use flux.Stack.Setup.Loops.{Lays-at, Lays-push_strings, Lays-push_random}

module _ (c : Context) (lo : ℕ) where
  module _ (host : Host) where
    -- From the auxiliary vector on, with the address of the first argument.
    Lays-tail :
        (enoent : Bool) (platform random_16 : ℕ) (p_argv p_envv : List ℕ)
        → 0 < length p_argv
        → Lays c lo
            (192 + 8 * (length p_argv + length p_envv + 3))
            (λ x u y f.
              (execfn : ℕ) × (p_rest : List ℕ) × (p_argv ≡ execfn ∷ p_rest)
              × Holds w64 f y (
                  pointers c.argc p_argv p_envv
                    (vector host enoent c.entry platform random_16 execfn)))
            (elim p_argv [ [] ↦ undefined {A = ℕ} | p ∷ ps ↦ pure p ] >>= λ execfn.
              push_vector host enoent c.entry platform random_16 execfn >>= λ _.
              push_pointers host c.argc p_argv p_envv)
    Lays-tail enoent platform random_16 [] p_envv some_argument = absurd (omega arith)
    Lays-tail enoent platform random_16 (p ∷ p_rest) p_envv some_argument =
        Lays-weaken c lo (0 + (192 + 8 * (length (p ∷ p_rest) + length p_envv + 3))) _ _
          (omega arith) (λ x a y f q. (p, p_rest, refl, q))
          (Lays-bind c lo 0 _ _ _
            (λ x a y b z f q q'.
              subst
                (λ v. Holds w64 f z (
                  pointers c.argc (p ∷ p_rest) p_envv
                    (vector host enoent c.entry platform random_16 v)))
                q q')
            (Lays-pure c lo {Q = λ x a y f. a ≡ p} p (λ x f. refl))
            λ x a y f q.
              Lays-weaken c lo _ _ _ (le_refl _) (λ x a y f q. q.1.1)
                (Words-tail c lo host enoent c.entry platform random_16 a c.argc (p ∷ p_rest)
                  p_envv).lays)

    module _ (argc_is : c.argc ≡ length c.argv) (envc_is : c.envc ≡ length c.envv)
        (some_argument : 0 < c.argc) (align : c.stack.align ≡ 16) (enoent : Bool) where
      -- The room for the numbers drawn, the alignment, the vector and the pointers.
      abbrev low_room : ℕ
      low_room = 16 + (15 + (192 + 8 * (c.argc + c.envc + 3)))

      laid_out :
          (p_argv p_envv : List ℕ) (platform random_16 z : ℕ) (f : ℕ → ℕ)
          → Holds w32 f random_16
              (host.random 3 ∷ host.random 2 ∷ host.random 1 ∷ host.random 0 ∷ [])
          → (execfn : ℕ) × (p_rest : List ℕ) × (p_argv ≡ execfn ∷ p_rest)
            × Holds w64 f z (
                pointers c.argc p_argv p_envv
                  (vector host enoent c.entry platform random_16 execfn))
          → HoldsStrings f p_argv c.argv
          → HoldsStrings f p_envv c.envv
          → HoldsString f platform x86_64
          → IsLaidOut host c enoent z f
      laid_out p_argv p_envv platform random_16 z f drawn low args env plat = record {
        execfn = low.0;
        p_rest = low.1;
        p_envv = p_envv;
        platform = platform;
        random_16 = random_16;
        arguments = subst (λ ps. HoldsStrings f ps c.argv) low.2 args;
        environment = env;
        platform_string = plat;
        drawn = drawn;
        words =
            subst
              (λ ps.
                Holds w64 f z
                  (pointers c.argc ps p_envv (vector host enoent c.entry platform random_16 low.0)))
              low.2 low.3;
      }

      Lays-low :
          (p_argv p_envv : List ℕ) (platform : ℕ)
          → length p_argv ≡ c.argc
          → length p_envv ≡ c.envc
          → Lays c lo low_room
              (λ x u y f.
                HoldsStrings f p_argv c.argv
                → HoldsStrings f p_envv c.envv
                → HoldsString f platform x86_64
                → IsLaidOut host c enoent y f)
              (push_random host 0 4 >>= λ _. gets (reg rsp) >>= λ random_16. push_align >>= λ _.
                elim p_argv [ [] ↦ undefined {A = ℕ} | p ∷ ps ↦ pure p ] >>= λ execfn.
                push_vector host enoent c.entry platform random_16 execfn >>= λ _.
                push_pointers host c.argc p_argv p_envv)
      Lays-low p_argv p_envv platform argv_len envv_len =
          Lays-at c lo 16 _ _ _
            (λ x p u z f drawn low args env plat.
              laid_out p_argv p_envv platform p z f drawn low args env plat)
            (Lays-push_random c lo host)
            λ random_16.
              Lays-bind c lo 15 _ _ _ (λ x a y b z f q q'. q') (Lays-push_align c lo align)
                λ x a y f q.
                  Lays-weaken c lo _ _ _ (omega arith) (λ x a y f q. q)
                    (Lays-tail enoent platform random_16 p_argv p_envv (omega arith))

      -- The room for all of it.
      abbrev pub room : ℕ
      room = string_bytes c.argv + (string_bytes c.envv + (7 + low_room))

      counted :
          (n : ℕ) (strs : List (List ℕ))
          → n ≡ length strs
          → Lays c lo
              (string_bytes strs)
              (λ x ps y f. HoldsStrings f ps strs × (length ps ≡ n))
              (push_strings n strs)
      counted n strs e =
          subst
            (λ n.
              Lays c lo (string_bytes strs) (λ x ps y f. HoldsStrings f ps strs × (length ps ≡ n))
                (push_strings n strs))
            (sym e) (Lays-push_strings c lo strs)

      pub Lays-x64stack_setup :
          Lays c lo room (λ x u y f. IsLaidOut host c enoent y f) (x64stack_setup host enoent)
      unfolding x64stack_setup
      Lays-x64stack_setup = Lays-ctx c lo _ _ (
          Lays-bind c lo
            {Q' = λ p_argv x b z f. HoldsStrings f p_argv c.argv → IsLaidOut host c enoent z f}
            (string_bytes c.argv) _ _ _ (λ x p_argv y b z f q q'. q' q.0)
            (counted c.argc c.argv argc_is)
            λ x p_argv y f argv_len.
              Lays-bind c lo
                {Q' = λ p_envv x b z f.
                  HoldsStrings f p_argv c.argv
                  → HoldsStrings f p_envv c.envv
                  → IsLaidOut host c enoent z f}
                (string_bytes c.envv) _ _ _ (λ x p_envv y b z f q q' args. q' args q.0)
                (counted c.envc c.envv envc_is)
                λ x p_envv y f envv_len.
                  Lays-at c lo
                    {Q' = λ platform x b z f.
                      HoldsStrings f p_argv c.argv
                      → HoldsStrings f p_envv c.envv
                      → HoldsString f platform x86_64
                      → IsLaidOut host c enoent z f}
                    7 _ _ _ (λ x p b z f q q' args env. q' args env q)
                    (Lays-push_string c lo x86_64)
                    λ platform. Lays-low p_argv p_envv platform argv_len.1 envv_len.1)

-- If the stack from `lo` to RSP can be written and has the room, the counters are the numbers of
-- the strings, there is an argument, and the alignment is 16, x64stack_setup returns.
pub x64stack_setup-IsLaidOut :
    (host : Host) (enoent : Bool) (lo : ℕ) (s : Emu)
    → ((a : ℕ) → lo ≤ a → a < s.regs rsp → s.mem.writable a ≡ true)
    → s.regs rsp < 2 ^ 64
    → s.ctx.stack.align ≡ 16
    → 0 < s.ctx.argc
    → s.ctx.argc ≡ length s.ctx.argv
    → s.ctx.envc ≡ length s.ctx.envv
    → lo + string_bytes s.ctx.argv + string_bytes s.ctx.envv + 8 * (s.ctx.argc + s.ctx.envc) + 254
      ≤ s.regs rsp
    → (t : Emu) × (x64stack_setup host enoent s ≡ ok tt t)
      × IsLaidOut host s.ctx enoent (t.regs rsp) t.mem.byte
      × ((a : ℕ) → s.regs rsp ≤ a → a < 2 ^ 64 → t.mem.byte a ≡ s.mem.byte a)
      × (t.ctx ≡ s.ctx)
x64stack_setup-IsLaidOut host enoent lo s writable fits align some_argument argc_is envc_is enough =
    let (u, t, run, ready, low, near, kept, post) =
      (Lays-x64stack_setup s.ctx lo host argc_is envc_is some_argument align enoent).at s
        (record { writable = writable; fits = fits; same_ctx = refl }) (omega arith) in
    (t, run, post t.mem.byte (λ x h lt. refl), kept, ready.same_ctx)
