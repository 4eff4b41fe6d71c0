-- ===== src/Bitmap/Laws.antt =====
-- src/util.c: a bit array behaves as an array of bits: a write changes the bit that it names and no
-- other.
use ncdc.Prelude.{
  ℕ, zero, suc, [], ◌∷◌, Bytes, length, get_or, set, ◌==◌, ◌≡◌, refl, All, Bool, true, false, ◌&&◌,
  if◌then◌else◌, ◌*◌, ◌/◌, ◌%◌, ◌^◌, ◌+◌, ◌<◌, ◌≤◌, arith, get_or-set_self, get_or-set_ne,
  length-set, ltb, replicate, length-replicate,
}
use native.Mathlib.Decide.{ℕ_discrete}
use ncdc.Bitmap.{
  bita_size, bita_new, bita_get, bita_set, bita_reset, byte_get, byte_set, byte_reset,
}

-- A test that every number below a bound passes.
passes : (ℕ → Bool) → ℕ → Bool
passes test zero = true
passes test (suc bound) = let others = passes test bound in if test bound then others else false

passes-at : (test : ℕ → Bool) (bound k : ℕ) → k < bound → passes test bound ≡ true → test k ≡ true
unfolding passes
passes-at test zero k below all = absurd (omega arith)
passes-at test (suc bound) k below all = ground (arith, passes-at test bound k)

-- The laws of one byte at one pair of positions, checked for every value.
byte_ok : ℕ → ℕ → ℕ → Bool
byte_ok b k j =
    ltb (byte_set b k) 256
    && ltb (byte_reset b k) 256
    && byte_get (byte_set b k) j == (if j == k then 1 else byte_get b j)
    && byte_get (byte_reset b k) j == (if j == k then 0 else byte_get b j)

byte_table : passes (λ b. passes (λ k. passes (byte_ok b k) 8) 8) 256 ≡ true
unfolding passes byte_ok byte_get byte_set byte_reset
byte_table = refl

byte_lem :
    (b k j : ℕ)
    → b < 256
    → k < 8
    → j < 8
    → (byte_set b k < 256)
      × (byte_reset b k < 256)
      × (byte_get (byte_set b k) j ≡ (if j == k then 1 else byte_get b j))
      × (byte_get (byte_reset b k) j ≡ (if j == k then 0 else byte_get b j))
byte_lem b k j hb hk hj =
    let row = passes-at _ 256 b hb byte_table in
    let cell = passes-at _ 8 k hk row in byte_ok_lem b k j (passes-at (byte_ok b k) 8 j hj cell)
  where
    byte_ok_lem :
        (b k j : ℕ)
        → byte_ok b k j ≡ true
        → (byte_set b k < 256)
          × (byte_reset b k < 256)
          × (byte_get (byte_set b k) j ≡ (if j == k then 1 else byte_get b j))
          × (byte_get (byte_reset b k) j ≡ (if j == k then 0 else byte_get b j))
    byte_ok_lem b k j h = unfold byte_ok in ground arith

-- The bytes of an array are bytes.
abbrev pub IsBytes : Bytes → Type 0
IsBytes = All (λ b. b < 256)

get_or-lt : (a : Bytes) (i : ℕ) → IsBytes a → get_or a i 0 < 256
get_or-lt [] i h = omega arith
get_or-lt (b ∷ a) zero h = h.0
get_or-lt (b ∷ a) (suc i) h = get_or-lt a i h.1

set-IsBytes : (a : Bytes) (i v : ℕ) → IsBytes a → v < 256 → IsBytes (set a i v)
set-IsBytes [] i v h hv = tt
set-IsBytes (b ∷ a) zero v h hv = (hv, h.1)
set-IsBytes (b ∷ a) (suc i) v h hv = (h.0, set-IsBytes a i v h.1 hv)

pub bita_get-lt : (a : Bytes) (i : ℕ) → bita_get a i < 2
unfolding bita_get
bita_get-lt a i = omega arith

module _ (a : Bytes) (i : ℕ) (bytes : IsBytes a) where
  pub bita_set-IsBytes : IsBytes (bita_set a i)
  unfolding bita_set
  bita_set-IsBytes = set-IsBytes a (i / 8) _ bytes (
      (byte_lem (get_or a (i / 8) 0) (i % 8) 0 (get_or-lt a (i / 8) bytes) (omega arith)
        (omega arith)).0)

  pub bita_reset-IsBytes : IsBytes (bita_reset a i)
  unfolding bita_reset
  bita_reset-IsBytes = set-IsBytes a (i / 8) _ bytes (
      (byte_lem (get_or a (i / 8) 0) (i % 8) 0 (get_or-lt a (i / 8) bytes) (omega arith)
        (omega arith)).1)

  pub length-bita_set : length (bita_set a i) ≡ length a
  unfolding bita_set
  length-bita_set = length-set a (i / 8) _

  pub length-bita_reset : length (bita_reset a i) ≡ length a
  unfolding bita_reset
  length-bita_reset = length-set a (i / 8) _

  module _ (inside : i < 8 * length a) (j : ℕ) where
    same_bit : i / 8 ≡ j / 8 → (j % 8 == i % 8) ≡ (j == i)
    same_bit e = ground arith

    -- After a bit is set, it reads 1, and every other bit reads as before.
    pub bita_get-bita_set : bita_get (bita_set a i) j ≡ (if j == i then 1 else bita_get a j)
    unfolding bita_get bita_set
    bita_get-bita_set = elim (ℕ_discrete (i / 8) (j / 8)) [
      | yes e ↦
          rw
            (
              ← e,
              get_or-set_self a (i / 8) (byte_set (get_or a (i / 8) 0) (i % 8)) 0 (omega arith),
              ← same_bit e,
            )
            ((byte_lem (get_or a (i / 8) 0) (i % 8) (j % 8) (get_or-lt a (i / 8) bytes)
              (omega arith) (omega arith)).2)
      | no ne ↦
          rw (get_or-set_ne a (i / 8) (j / 8) (byte_set (get_or a (i / 8) 0) (i % 8)) 0 ne)
            (ground arith)
    ]

    -- After a bit is cleared, it reads 0, and every other bit reads as before.
    pub bita_get-bita_reset : bita_get (bita_reset a i) j ≡ (if j == i then 0 else bita_get a j)
    unfolding bita_get bita_reset
    bita_get-bita_reset = elim (ℕ_discrete (i / 8) (j / 8)) [
      | yes e ↦
          rw
            (
              ← e,
              get_or-set_self a (i / 8) (byte_reset (get_or a (i / 8) 0) (i % 8)) 0 (omega arith),
              ← same_bit e,
            )
            ((byte_lem (get_or a (i / 8) 0) (i % 8) (j % 8) (get_or-lt a (i / 8) bytes)
              (omega arith) (omega arith)).3)
      | no ne ↦
          rw (get_or-set_ne a (i / 8) (j / 8) (byte_reset (get_or a (i / 8) 0) (i % 8)) 0 ne)
            (ground arith)
    ]

-- Every bit of a new array reads 0, and it has room for `n` bits.
pub bita_new_lem :
    (n : ℕ)
    → n + 7 < 2 ^ 32
    → IsBytes (bita_new n) × (n ≤ 8 * length (bita_new n)) × ((i : ℕ) → bita_get (bita_new n) i ≡ 0)
unfolding bita_new
bita_new_lem n small = (
  replicate-IsBytes (bita_size n),
  rw length-replicate (unfold bita_size in omega arith),
  λ i. unfold bita_get byte_get in rw (get_or-replicate (bita_size n) (i / 8)) (zero-div (i % 8)),
)
  where
    get_or-replicate : (k i : ℕ) → ◌≡◌ {A = ℕ} (get_or (replicate k 0) i 0) 0
    get_or-replicate zero i = refl
    get_or-replicate (suc k) zero = refl
    get_or-replicate (suc k) (suc i) = get_or-replicate k i

    zero-div : (k : ℕ) → 0 / 2 ^ k % 2 ≡ 0
    zero-div k = grind arith

    replicate-IsBytes : (k : ℕ) → IsBytes (replicate k 0)
    replicate-IsBytes zero = tt
    replicate-IsBytes (suc k) = (omega arith, replicate-IsBytes k)
