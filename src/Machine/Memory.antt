-- ===== src/Machine/Memory.antt =====
-- Laws of little-endian loads and stores.
use flux.Base.{
  Bool, true, ℕ, zero, suc, ◌+◌, ◌-◌, ◌*◌, ◌/◌, ◌%◌, ◌^◌, ◌≤◌, ◌<◌, ◌≡◌, refl, ◌∙◌, arith,
}
use flux.Word.{Width, w8, w16, w32, w64, w128, bytes, trunc, IsWord}
use flux.Machine.{all_allowed, update, next, load_le, store_le}

-- How far `x` lies behind `a`, round the end of the address space.
abbrev pub distance : ℕ → ℕ → ℕ
distance a x = (x + 2 ^ 64 - a) % 2 ^ 64

-- A store changes no byte outside the ones it names.
pub store_le-outside :
    (f : ℕ → ℕ) (a n v x : ℕ)
    → a < 2 ^ 64
    → x < 2 ^ 64
    → n ≤ distance a x
    → store_le f a n v x ≡ f x
unfolding store_le
store_le-outside f a zero v x ha hx out = refl
store_le-outside f a (suc n) v x ha hx out =
    ground (arith, store_le-outside f (next a) n (v / 256) x (omega arith) hx (omega arith))

-- A load sees nothing of a byte outside the ones it names.
load_le-update :
    (f : ℕ → ℕ) (a n x b : ℕ)
    → a < 2 ^ 64
    → x < 2 ^ 64
    → n ≤ distance a x
    → load_le (update f x b) a n ≡ load_le f a n
unfolding load_le
load_le-update f a zero x b ha hx out = refl
load_le-update f a (suc n) x b ha hx out =
    ground (arith, load_le-update f (next a) n x b (omega arith) hx (omega arith))

-- The low `n` bytes of a number.
low_bytes : ℕ → ℕ → ℕ
low_bytes zero v = 0
low_bytes (suc n) v = v % 256 + 256 * low_bytes n (v / 256)

load_le-store_le :
    (f : ℕ → ℕ) (a n v : ℕ)
    → a < 2 ^ 64
    → n ≤ 2 ^ 64
    → load_le (store_le f a n v) a n ≡ low_bytes n v
unfolding load_le store_le low_bytes
load_le-store_le f a zero v ha hn = refl
load_le-store_le f a (suc n) v ha hn = ground (
  arith,
  load_le-update (store_le f (next a) n (v / 256)) (next a) n a (v % 256) (omega arith) ha
      (omega arith),
  load_le-store_le f (next a) n (v / 256) (omega arith) (omega arith),
)

low_bytes-trunc : (w : Width) (v : ℕ) → IsWord w → low_bytes (bytes w) v ≡ trunc w v
unfolding low_bytes
low_bytes-trunc w8 v h = omega arith
low_bytes-trunc w16 v h = omega arith
low_bytes-trunc w32 v h = omega arith
low_bytes-trunc w64 v h = omega arith
low_bytes-trunc w128 v h = absurd h

bytes-le : (w : Width) → bytes w ≤ 2 ^ 64
bytes-le w8 = omega arith
bytes-le w16 = omega arith
bytes-le w32 = omega arith
bytes-le w64 = omega arith
bytes-le w128 = omega arith

-- A word that is stored is loaded back, also across the end of the address space.
pub load-store_word :
    (f : ℕ → ℕ) (w : Width) (a v : ℕ)
    → IsWord w
    → a < 2 ^ 64
    → load_le (store_le f a (bytes w) v) a (bytes w) ≡ trunc w v
load-store_word f w a v h ha =
    load_le-store_le f a (bytes w) v ha (bytes-le w) ∙ low_bytes-trunc w v h

-- Where every access is allowed, every range is.
pub all_allowed-all :
    (test : ℕ → Bool) (a n : ℕ) → ((b : ℕ) → test b ≡ true) → all_allowed test a n ≡ true
unfolding all_allowed
all_allowed-all test a zero h = refl
all_allowed-all test a (suc n) h = rw (h a, all_allowed-all test (next a) n h) refl

pub all_allowed-range :
    (test : ℕ → Bool) (a n : ℕ)
    → a + n < 2 ^ 64
    → ((b : ℕ) → a ≤ b → b < a + n → test b ≡ true)
    → all_allowed test a n ≡ true
unfolding all_allowed
all_allowed-range test a zero room h = refl
all_allowed-range test a (suc n) room h =
    rw
      (
        h a (omega arith) (omega arith),
        all_allowed-range test (next a) n (omega arith)
            (λ b le lt. h b (omega arith) (omega arith)),
      )
      refl
