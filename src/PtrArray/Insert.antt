-- ===== src/PtrArray/Insert.antt =====
-- src/util.c: `ptr_array_insert_before` inserts an element and moves the ones behind it.
use ncdc.Prelude.{
  ℕ, zero, suc, List, [], ◌∷◌, ◌++◌, Bool-cases, inl, inr, ltb, ltb→lt, if◌then◌else◌, take, drop,
  set, length, length-append, append-nil, ◌≡◌, refl, sym, ap, ap₂, ◌∙◌, ◌+◌, ◌-◌, ◌≤◌, arith,
}
use ncdc.PtrArray.{ptr_array_insert_before}

module _ {ℓ} {A : Type ℓ} where
  take-all : (n : ℕ) (xs ys : List A) → length xs ≡ n → take n (xs ++ ys) ≡ xs
  take-all zero [] ys e = refl
  take-all zero (x ∷ xs) ys e = absurd (omega arith)
  take-all (suc n) [] ys e = absurd (omega arith)
  take-all (suc n) (x ∷ xs) ys e = ap (λ t. x ∷ t) (take-all n xs ys (omega arith))

  drop-all : (n : ℕ) (xs : List A) → length xs ≤ n → drop n xs ≡ []
  drop-all zero [] h = refl
  drop-all zero (x ∷ xs) h = absurd (omega arith)
  drop-all (suc n) [] h = refl
  drop-all (suc n) (x ∷ xs) h = drop-all n xs (omega arith)

  take-none : (n : ℕ) (xs : List A) → n ≡ 0 → take n xs ≡ []
  take-none zero xs e = refl
  take-none (suc n) xs e = absurd (omega arith)

  behind :
      (null v : A) (xs ys : List A) (to k n : ℕ)
      → to ≡ 0
      → k ≡ length xs
      → n ≡ suc k
      → v ∷ (take to ys ++ (take k (xs ++ null ∷ []) ++ drop n (xs ++ null ∷ []))) ≡ v ∷ xs
  behind null v xs ys to k n e e' e'' =
      ap₂ (λ a b. v ∷ (a ++ b)) (take-none to ys e)
        (ap₂ (λ a b. a ++ b) (take-all k xs (null ∷ []) (sym e'))
            (drop-all n (xs ++ null ∷ []) (omega (arith, length-append xs (null ∷ []))))
          ∙ append-nil xs)

  -- The two sides of the moved array, with `null` behind it at first.
  moved :
      (null v : A) (xs : List A) (i to k n : ℕ)
      → to ≡ suc i
      → i + k ≡ length xs
      → n ≡ to + k
      → set
          (take to (xs ++ null ∷ [])
            ++ (take k (drop i (xs ++ null ∷ [])) ++ drop n (xs ++ null ∷ [])))
          i
          v
        ≡ take i xs ++ v ∷ drop i xs
  moved null v [] i zero k n e e' e'' = absurd (omega arith)
  moved null v [] zero (suc to) k n e e' e'' =
      behind null v [] [] to k n (omega arith) (omega arith) (omega arith)
  moved null v [] (suc i) (suc to) k n e e' e'' = absurd (omega arith)
  moved null v (x ∷ xs) i zero k n e e' e'' = absurd (omega arith)
  moved null v (x ∷ xs) zero (suc to) k n e e' e'' =
      behind null v (x ∷ xs) (xs ++ null ∷ []) to k n (omega arith) (omega arith) (omega arith)
  moved null v (x ∷ xs) (suc i) (suc to) k zero e e' e'' = absurd (omega arith)
  moved null v (x ∷ xs) (suc i) (suc to) k (suc n) e e' e'' =
      ap (λ t. x ∷ t) (moved null v xs i to k n (omega arith) (omega arith) (omega arith))

  -- The array is as before, with the element in front of the one at the index, or at the end where the index
  -- is beyond the array; whatever the dummy element is.
  pub ptr_array_insert_before_lem :
      (null v : A) (xs : List A) (i : ℕ)
      → ptr_array_insert_before null xs i v
        ≡ (if ltb i (length xs) then take i xs ++ v ∷ drop i xs else xs ++ v ∷ [])
  unfolding ptr_array_insert_before
  ptr_array_insert_before_lem null v xs i = elim (Bool-cases (ltb i (length xs))) [
    | inl inside ↦
        let lt = ltb→lt i (length xs) inside in
        let grown = length-append xs (null ∷ []) in
        rw inside (
          moved null v xs i (i + 1) (length (xs ++ null ∷ []) - i - 1)
            (i + 1 + (length (xs ++ null ∷ []) - i - 1)) (omega arith) (omega (arith, grown)) refl)
    | inr beyond ↦ rw beyond refl
  ]
