-- ===== src/Decode/Reads.antt =====
-- Functions of the decoder (x64emu/decode.c, modrm.c) that take exactly the bytes at RIP.
use mathlib.Core.Path.{subst}
use flux.Base.{
  length, length-append, ℕ, zero, suc, ◌+◌, ◌*◌, ◌%◌, ◌^◌, ◌<◌, ◌≡◌, refl, sym, ap, ◌∙◌, Bool, true,
  false, if◌then◌else◌, List, [], ◌∷◌, ◌++◌, arith,
}
use flux.Word.{Width, w8, w16, w32, w64, w128, bytes, modulus, IsWord}
use flux.Machine.{Emu, Mem, M, ok, and_then, ◌>>=◌, pure, load, load_le, all_allowed, next, set_rip}
use flux.Instr.{fetch}
use flux.Decode.Format.{CodeAt, number, AreBytes}

-- A part of an instruction and the rest.
CodeAt-split :
    (mem : Mem) (a : ℕ) (xs ys : List ℕ)
    → CodeAt mem a (xs ++ ys)
    → CodeAt mem a xs × CodeAt mem (a + length xs) ys
CodeAt-split mem a [] ys h = (tt, subst (λ b. CodeAt mem b ys) (omega arith) h)
CodeAt-split mem a (x ∷ xs) ys (byte, readable, rest) =
    let (left, right) = CodeAt-split mem (a + 1) xs ys rest in
    ((byte, readable, left), subst (λ (b : ℕ). CodeAt mem b ys) (omega arith) right)

-- The state with RIP `n` bytes further on.
abbrev pub moved : ℕ → Emu → Emu
moved n s = record s { rip = s.rip + n }

-- From the bytes `bs` at RIP, `m` returns `a` with RIP behind them.
pub record Reads {A : Type 0} (m : M A) (bs : List ℕ) (a : A) : Type 0 where
  pub at :
      (s : Emu)
      → s.rip + length bs < 2 ^ 64
      → CodeAt s.mem s.rip bs
      → m s ≡ ok a (moved (length bs) s)

module _ {A : Type 0} where
  pub Reads-nothing : (a b : A) (bs : List ℕ) → length bs ≡ 0 → a ≡ b → Reads (pure a) bs b
  unfolding pure
  Reads-nothing a b bs none e = record {
    at = λ s fits code.
        ap (λ (x : A). ok x s) e ∙ ap (λ (n : ℕ). ok b (record s { rip = n })) (omega arith);
  }

module _ {A B : Type 0} where
  pub Reads-bind :
      {m : M A} (k : A → M B) {bs cs : List ℕ} {a : A} {b : B}
      → Reads m bs a
      → Reads (k a) cs b
      → Reads (m >>= k) (bs ++ cs) b
  unfolding ◌>>=◌
  Reads-bind k {bs = bs} {cs = cs} {a = a} {b = b} h g = record {
    at = λ s fits code.
        let (left, right) = CodeAt-split s.mem s.rip bs cs code in
        let size = length-append bs cs in
        ap (λ o. and_then o k) (h.at s (omega (arith, size)) left)
        ∙ g.at (moved (length bs) s) (omega (arith, size)) right
        ∙ ap (λ (n : ℕ). ok b (record s { rip = n })) (omega (arith, size));
  }

  pub Reads-map :
      {m : M A} {bs : List ℕ} {a : A} (f : A → B)
      → Reads m bs a
      → Reads (m >>= λ x. pure (f x)) bs (f a)
  unfolding ◌>>=◌ pure
  Reads-map f h = record {
    at = λ s fits code. ap (λ o. and_then o λ x. pure (f x)) (h.at s fits code);
  }

module _ {A : Type 0} where
  -- A part that a test asks for.
  pub Reads-if :
      (b : Bool) {x y : M A} {bs : List ℕ} {a : A}
      → (b ≡ true → Reads x bs a)
      → (b ≡ false → Reads y bs a)
      → Reads (if b then x else y) bs a
  Reads-if true then_ else_ = then_ refl
  Reads-if false then_ else_ = else_ refl

-- A little-endian number.
load_le-number :
    (mem : Mem) (a : ℕ) (bs : List ℕ)
    → a + length bs < 2 ^ 64
    → CodeAt mem a bs
    → (load_le mem.byte a (length bs) ≡ number bs) × (all_allowed mem.readable a (length bs) ≡ true)
unfolding load_le all_allowed
load_le-number mem a [] fits code = (refl, refl)
load_le-number mem a (b ∷ bs) fits (byte, readable, rest) =
    let next_is : next a ≡ a + 1 = omega arith in
    let (value, allowed) = load_le-number mem (a + 1) bs (omega arith) rest in
    (rw next_is (omega (arith, byte, value)), rw next_is (rw readable allowed))

pub Reads-fetch : (w : Width) (bs : List ℕ) → length bs ≡ bytes w → Reads (fetch w) bs (number bs)
unfolding fetch ◌>>=◌ load set_rip
Reads-fetch w bs size = record {
  at = λ s fits code.
      let (value, allowed) = load_le-number s.mem s.rip bs fits code in
      rw (sym size)
        (rw (small s fits) (rw allowed (ap (λ (v : ℕ). ok v (moved (length bs) s)) value)));
}
  where
    small :
        (s : Emu) → s.rip + length bs < 2 ^ 64 → (s.rip + length bs) % 2 ^ 64 ≡ s.rip + length bs
    small s fits = omega arith

pub Reads-byte : (b : ℕ) → Reads (fetch w8) (b ∷ []) b
Reads-byte b = subst (Reads (fetch w8) (b ∷ [])) (omega arith) (Reads-fetch w8 (b ∷ []) refl)

-- The numbers of so many bytes.
size_of : ℕ → ℕ
size_of zero = 1
size_of (suc n) = 256 * size_of n

number-lt : (bs : List ℕ) → AreBytes bs → number bs < size_of (length bs)
unfolding size_of
number-lt [] h = omega arith
number-lt (b ∷ bs) (fits, rest) = omega (arith, number-lt bs rest)

size_of-modulus : (w : Width) → IsWord w → size_of (bytes w) ≡ modulus w
unfolding size_of
size_of-modulus w8 word = refl
size_of-modulus w16 word = refl
size_of-modulus w32 word = refl
size_of-modulus w64 word = refl
size_of-modulus w128 word = absurd word

pub number-modulus :
    (w : Width) (bs : List ℕ) → IsWord w → length bs ≡ bytes w → AreBytes bs → number bs < modulus w
number-modulus w bs word size fit =
    subst (λ (n : ℕ). number bs < n) (ap size_of size ∙ size_of-modulus w word) (number-lt bs fit)
