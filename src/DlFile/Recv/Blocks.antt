-- ===== src/DlFile/Recv/Blocks.antt =====
-- src/dlfile.c: the data of a file in chunks and blocks, as `dlfile_recv` hashes it.
use ncdc.Prelude.{
  ℕ, zero, suc, [], ◌∷◌, ◌++◌, Bytes, length, take, drop, length-drop, ◌⊎◌, inl, inr, ◌+◌, ◌-◌, ◌*◌,
  ◌/◌, ◌%◌, ◌<◌, ◌≤◌, ◌≡◌, ◌≢◌, refl, sym, ap, ◌∙◌, arith,
}
use native.Mathlib.Nat.{mul-add-div_right, mul-add-mod_self_right, div-eq_of_lt, mod-eq_of_lt}
use native.Mathlib.Decide.{dec_lt}

-- The bytes of a file from `a` up to `b`.
abbrev pub slice : Bytes → ℕ → ℕ → Bytes
slice file a b = take (b - a) (drop a file)

-- Two counts that are equal, for the clauses below.
suc_add : (n m : ℕ) → suc n + m ≡ suc (n + m)
suc_add n m = omega arith

zero_add : (n : ℕ) → 0 + n ≡ n
zero_add n = omega arith

take-nil : (n : ℕ) → take {A = ℕ} n [] ≡ []
take-nil zero = refl
take-nil (suc n) = refl

drop-nil : (n : ℕ) → drop {A = ℕ} n [] ≡ []
drop-nil zero = refl
drop-nil (suc n) = refl

take-add : (n m : ℕ) (xs : Bytes) → take n xs ++ take m (drop n xs) ≡ take (n + m) xs
take-add zero m xs = rw (zero_add m) refl
take-add (suc n) m [] = rw (take-nil m, take-nil (suc n + m)) refl
take-add (suc n) m (x ∷ xs) = rw (suc_add n m) (ap (λ l. x ∷ l) (take-add n m xs))

drop-drop : (n m : ℕ) (xs : Bytes) → drop m (drop n xs) ≡ drop (n + m) xs
drop-drop zero m xs = rw (zero_add m) refl
drop-drop (suc n) m [] = rw (drop-nil m, drop-nil (suc n + m)) refl
drop-drop (suc n) m (x ∷ xs) = rw (suc_add n m) (drop-drop n m xs)

take-take : (n m : ℕ) (xs : Bytes) → n ≤ m → take n (take m xs) ≡ take n xs
take-take zero m xs h = refl
take-take (suc n) zero xs h = absurd (omega arith)
take-take (suc n) (suc m) [] h = refl
take-take (suc n) (suc m) (x ∷ xs) h = ap (λ l. x ∷ l) (take-take n m xs (omega arith))

drop-take : (n m : ℕ) (xs : Bytes) → drop n (take (n + m) xs) ≡ take m (drop n xs)
drop-take zero m xs = rw (zero_add m) refl
drop-take (suc n) m [] = rw (take-nil (suc n + m), take-nil m) refl
drop-take (suc n) m (x ∷ xs) = rw (suc_add n m) (drop-take n m xs)

take-all : (n : ℕ) (xs : Bytes) → length xs ≤ n → take n xs ≡ xs
take-all zero [] h = refl
take-all zero (x ∷ xs) h = absurd (omega arith)
take-all (suc n) [] h = refl
take-all (suc n) (x ∷ xs) h = ap (λ l. x ∷ l) (take-all n xs (omega arith))

pub slice-append :
    (file : Bytes) (a b c : ℕ) → a ≤ b → b ≤ c → slice file a b ++ slice file b c ≡ slice file a c
slice-append file a b c h k =
    let there : a + (b - a) ≡ b = omega arith in
    let whole : b - a + (c - b) ≡ c - a = omega arith in
    ap (λ l. slice file a b ++ take (c - b) l)
      (sym (drop-drop a (b - a) file ∙ ap (λ n. drop n file) there))
    ∙ take-add (b - a) (c - b) (drop a file)
    ∙ ap (λ n. take n (drop a file)) whole

pub take-slice :
    (file : Bytes) (a b k : ℕ) → a + k ≤ b → take k (slice file a b) ≡ slice file a (a + k)
take-slice file a b k h =
    let same : k ≡ a + k - a = omega arith in
    take-take k (b - a) (drop a file) (omega arith) ∙ ap (λ n. take n (drop a file)) same

pub drop-slice :
    (file : Bytes) (a b k : ℕ) → a + k ≤ b → drop k (slice file a b) ≡ slice file (a + k) b
drop-slice file a b k h =
    let whole : b - a ≡ k + (b - (a + k)) = omega arith in
    ap (λ n. drop k (take n (drop a file))) whole
    ∙ drop-take k (b - (a + k)) (drop a file)
    ∙ ap (take (b - (a + k))) (drop-drop a k file)

pub slice-empty : (file : Bytes) (a : ℕ) → slice file a a ≡ []
slice-empty file a = let none_left : a - a ≡ 0 = omega arith in rw none_left refl

-- The data of a block, for blocks of `n` bytes.
abbrev pub block_data : Bytes → ℕ → ℕ → Bytes
block_data file n num = take n (drop (num * n) file)

pub block_data-full :
    (file : Bytes) (n num b : ℕ) → b ≡ num * n + n → slice file (num * n) b ≡ block_data file n num
block_data-full file n num b e =
    let same : b - num * n ≡ n = omega arith in ap (λ k. take k (drop (num * n) file)) same

pub block_data-last :
    (file : Bytes) (n num : ℕ)
    → length file ≤ num * n + n
    → slice file (num * n) (length file) ≡ block_data file n num
block_data-last file n num h =
    let left = length-drop (num * n) file in
    take-all (length file - num * n) (drop (num * n) file) (omega (arith, left))
    ∙ sym (take-all n (drop (num * n) file) (omega (arith, left)))

-- A file that is not longer than a block is its first one.
pub block_data-first : (file : Bytes) (n : ℕ) → length file ≤ n → block_data file n 0 ≡ file
block_data-first file n h =
    let start : 0 * n ≡ 0 = omega arith in ap (λ k. take n (drop k file)) start ∙ take-all n file h

quotient : (d r q n : ℕ) → r < q → n ≡ d * q + r → (n / q ≡ d) × (n % q ≡ r)
quotient d r q n h e = (
  ap (λ m. m / q) e ∙ mul-add-div_right (pos h) d r ∙ rw (div-eq_of_lt h) (plain d),
  ap (λ m. m % q) e ∙ mul-add-mod_self_right d q r ∙ mod-eq_of_lt h,
)
  where
    pos : r < q → 0 < q
    pos k = omega arith

    plain : (n : ℕ) → n + 0 ≡ n
    plain n = omega arith

-- The next chunk is the first one of the next block, or in the same block.
pub next_in_block :
    (c q : ℕ)
    → 0 < q
    → (((c + 1) % q ≡ 0) × (c + 1 ≡ c / q * q + q) × ((c + 1) / q ≡ c / q + 1))
      ⊎ (((c + 1) % q ≢ 0) × (c + 1 < c / q * q + q) × ((c + 1) / q ≡ c / q))
next_in_block c q pos =
    let whole : c ≡ c / q * q + c % q = omega arith in
    let small : c % q < q = omega arith in
    elim (dec_lt (c % q + 1) q) [
      | yes inside ↦
          let (d, r) = quotient (c / q) (c % q + 1) q (c + 1) inside (omega (arith, whole)) in
          inr ((λ z. absurd (omega (arith, r, z))), omega (arith, whole), d)
      | no end ↦
          let next : c + 1 ≡ (c / q + 1) * q + 0 = omega (arith, whole, one_more (c / q) q) in
          let (d, r) = quotient (c / q + 1) 0 q (c + 1) pos next in
          inl (r, omega (arith, next, one_more (c / q) q), d)
    ]
  where
    one_more : (d q : ℕ) → (d + 1) * q ≡ d * q + q
    one_more d q = grind arith
