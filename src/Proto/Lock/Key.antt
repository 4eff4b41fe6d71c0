-- ===== src/Proto/Lock/Key.antt =====
-- src/proto.c: the key of a lock, byte by byte, and the bytes that it never holds.
use Prim.Native.Nat.{bit_xor}
use ncdc.Prelude.{
  ℕ, zero, suc, [], ◌∷◌, Bytes, length, get_or, set, map, ltb, ◌≡◌, ◌≢◌, refl, ap, ◌∙◌, All,
  All-append, ◌-◌, ◌<◌, ◌≤◌, arith, get_or-set_self, get_or-set_ne, length-set, length-map,
  Bool-cases, inl, inr,
}
use native.Mathlib.Decide.{ℕ_discrete}
use ncdc.Proto.Lock.{xor_down, first, swap_nibbles, append_byte, append_bytes, mix, lock2key}

length-xor_down : (k : ℕ) (lock : Bytes) → length (xor_down k lock) ≡ length lock
unfolding xor_down
length-xor_down zero lock = refl
length-xor_down (suc k) lock = rw (length-xor_down k, length-set)

-- Above the cursor nothing is changed.
xor_down_above : (k i : ℕ) (lock : Bytes) → k < i → get_or (xor_down k lock) i 0 ≡ get_or lock i 0
unfolding xor_down
xor_down_above zero i lock h = refl
xor_down_above (suc k) i lock h =
    xor_down_above k i _ (omega arith) ∙ get_or-set_ne lock (suc k) i _ 0 (omega arith)

-- The loop runs downwards, so each byte meets its neighbour as it was in the lock.
xor_down_lem :
    (k i : ℕ) (lock : Bytes)
    → i < k
    → k < length lock
    → get_or (xor_down k lock) (suc i) 0 ≡ bit_xor (get_or lock (suc i) 0) (get_or lock i 0)
unfolding xor_down
xor_down_lem zero i lock h p = absurd (omega arith)
xor_down_lem (suc k) i lock h p = elim (ℕ_discrete i k) [
  | yes e ↦ rw e (
      xor_down_above k (suc k) _ (omega arith)
      ∙ get_or-set_self lock (suc k) (bit_xor (get_or lock (suc k) 0) (get_or lock k 0)) 0 p)
  | no ne ↦ rw (
    xor_down_lem k i (set lock (suc k) (bit_xor (get_or lock (suc k) 0) (get_or lock k 0)))
        (omega arith)
        (omega
          (arith, length-set lock (suc k) (bit_xor (get_or lock (suc k) 0) (get_or lock k 0)))),
    get_or-set_ne lock (suc k) (suc i) (bit_xor (get_or lock (suc k) 0) (get_or lock k 0)) 0
        (omega arith),
    get_or-set_ne lock (suc k) i (bit_xor (get_or lock (suc k) 0) (get_or lock k 0)) 0
        (omega arith),
  )
]

get_or-map :
    (f : ℕ → ℕ) (xs : Bytes) (i : ℕ) → i < length xs → get_or (map f xs) i 0 ≡ f (get_or xs i 0)
get_or-map f [] i h = absurd (omega arith)
get_or-map f (x ∷ xs) zero h = refl
get_or-map f (x ∷ xs) (suc i) h = get_or-map f xs i (omega arith)

-- Each byte of the mixed lock but the first is made of the lock's byte there and the one before it,
-- and the first one of the first, the last, the last but one and 5; the number of bytes stays.
pub mix_lem :
    (lock : Bytes)
    → 3 ≤ length lock
    → (length (mix lock) ≡ length lock)
      × (get_or (mix lock) 0 0
          ≡ swap_nibbles (
              bit_xor
                (bit_xor
                  (bit_xor (get_or lock 0 0) (get_or lock (length lock - 1) 0))
                  (get_or lock (length lock - 2) 0))
                5))
      × ((i : ℕ)
          → suc i < length lock
          → get_or (mix lock) (suc i) 0
            ≡ swap_nibbles (bit_xor (get_or lock (suc i) 0) (get_or lock i 0)))
unfolding mix first
mix_lem lock h = (
  length-map (set (xor_down k lock) 0 v) swap_nibbles ∙ len,
  get_or-map swap_nibbles (set (xor_down k lock) 0 v) 0 (omega (arith, len))
      ∙ ap swap_nibbles
          (get_or-set_self (xor_down k lock) 0 v 0 (omega (arith, length-xor_down k lock))),
  λ i hi.
      get_or-map swap_nibbles (set (xor_down k lock) 0 v) (suc i) (omega (arith, len))
      ∙ ap swap_nibbles (
          get_or-set_ne (xor_down k lock) 0 (suc i) v 0 (omega arith)
          ∙ xor_down_lem k i lock (omega arith) (omega arith)),
)
  where
    k : ℕ
    k = length lock - 1

    v : ℕ
    v = first lock (length lock)

    len : length (set (xor_down k lock) 0 v) ≡ length lock
    len = rw (length-set, length-xor_down k lock)

-- A byte that NMDC does not reserve.
abbrev pub IsFree : ℕ → Type 0
IsFree n = (n ≢ 0) × (n ≢ 5) × (n ≢ b'$') × (n ≢ b'`') × (n ≢ b'|') × (n ≢ b'~')

append_byte-IsFree : (n : ℕ) → All IsFree (append_byte n)
unfolding append_byte
append_byte-IsFree n = ground arith

append_bytes-IsFree : (s : Bytes) → All IsFree (append_bytes s)
unfolding append_bytes
append_bytes-IsFree [] = tt
append_bytes-IsFree (n ∷ s) =
    All-append _ (append_byte n) (append_bytes s) (append_byte-IsFree n) (append_bytes-IsFree s)

-- No key holds a byte that NMDC reserves, whatever the hub sends as its lock.
pub lock2key-IsFree : (lock : Bytes) → All IsFree (lock2key lock)
unfolding lock2key
lock2key-IsFree lock = elim (Bool-cases (ltb (length lock) 3)) [
  | inl e ↦ rw e (omega arith)
  | inr e ↦ rw e (append_bytes-IsFree (mix lock))
]
