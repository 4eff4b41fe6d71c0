-- ===== src/PtrArray/Search.antt =====
-- src/util.c: the binary search finds an element exactly when there is one.
use Prim.Native.Nat.{Ordering}
use ncdc.Prelude.{
  ◌⊎◌, ℕ, zero, suc, List, [], ◌∷◌, true, false, Bool-cases, inl, inr, ltb, ltb→lt, ltb-false→le,
  Option, none, some, length, ◌≡◌, ◌≢◌, refl, ◌+◌, ◌-◌, ◌/◌, ◌<◌, ◌≤◌, arith,
}
use native.Mathlib.Decide.{dec_lt}
use ncdc.PtrArray.{element, search_loop, ptr_array_search}

lt-eq : (o : Ordering) → o ≡ Ordering.lt → o ≡ Ordering.eq → ⊥
lt-eq o e e' = cc

gt-eq : (o : Ordering) → o ≡ Ordering.gt → o ≡ Ordering.eq → ⊥
gt-eq o e e' = cc

Ordering-cases : (o : Ordering) → (o ≡ Ordering.lt) ⊎ ((o ≡ Ordering.eq) ⊎ (o ≡ Ordering.gt))
Ordering-cases Ordering.lt = inl refl
Ordering-cases Ordering.eq = inr (inl refl)
Ordering-cases Ordering.gt = inr (inr refl)

module _ {ℓ} {A : Type ℓ} (cmp : A → Ordering) where
  -- The array is sorted as far as the value that is looked for can tell: behind an element that is not
  -- below it no element is below it, and behind one that is above it all are above it.
  pub record IsOrdered (a : List A) : Type ℓ where
    pub low :
        (i j : ℕ) (x y : A)
        → i ≤ j
        → element a i ≡ some x
        → element a j ≡ some y
        → cmp y ≡ Ordering.lt
        → cmp x ≡ Ordering.lt
    pub high :
        (i j : ℕ) (x y : A)
        → i ≤ j
        → element a i ≡ some x
        → element a j ≡ some y
        → cmp x ≡ Ordering.gt
        → cmp y ≡ Ordering.gt

  element-some : (a : List A) (i : ℕ) → i < length a → (x : A) × (element a i ≡ some x)
  element-some [] i h = absurd (omega arith)
  element-some (x ∷ a) zero h = (x, refl)
  element-some (x ∷ a) (suc i) h = element-some a i (omega arith)

  -- Where a result is right: an index of an equal element, or none is equal from `b` to `e`.
  abbrev Right : List A → ℕ → ℕ → Option ℕ → Type ℓ
  Right a b e none = (j : ℕ) (y : A) → b ≤ j → j < e → element a j ≡ some y → cmp y ≢ Ordering.eq
  Right a b e (some i) = (x : A) × (element a i ≡ some x) × (cmp x ≡ Ordering.eq)

  Right-upper :
      (a : List A) (b i e : ℕ) (x : A) (r : Option ℕ)
      → IsOrdered a
      → element a i ≡ some x
      → cmp x ≡ Ordering.lt
      → Right a (i + 1) e r
      → Right a b e r
  Right-upper a b i e x none s at c right = λ j y from to at' eq. elim (dec_lt i j) [
    | yes behind ↦ right j y (omega arith) to at' eq
    | no before ↦ absurd (lt-eq (cmp y) (s.low j i y x (omega arith) at' at c) eq)
  ]
  Right-upper a b i e x (some k) s at c right = right

  Right-lower :
      (a : List A) (b i e : ℕ) (x : A) (r : Option ℕ)
      → IsOrdered a
      → element a i ≡ some x
      → cmp x ≡ Ordering.gt
      → Right a b i r
      → Right a b e r
  Right-lower a b i e x none s at c right = λ j y from to at' eq. elim (dec_lt j i) [
    | yes before ↦ right j y from before at' eq
    | no behind ↦ absurd (gt-eq (cmp y) (s.high i j x y (omega arith) at at' c) eq)
  ]
  Right-lower a b i e x (some k) s at c right = right

  -- One round, by what the element in the middle says.
  search-by :
      (a : List A) (fuel b e : ℕ) (x : A) (o : Ordering)
      → let i = b + (e - 1 - b) / 2 in
        ltb b e ≡ true
        → element a i ≡ some x
        → cmp x ≡ o
        → search_loop cmp a (suc fuel) b e ≡ elim o [
          | Ordering.lt ↦ search_loop cmp a fuel (i + 1) e
          | Ordering.gt ↦ search_loop cmp a fuel b i
          | Ordering.eq ↦ some i
        ]
  unfolding search_loop
  search-by a fuel b e x o some_left at c = ground (arith, c)

  search-none :
      (a : List A) (fuel b e : ℕ) → ltb b e ≡ false → search_loop cmp a (suc fuel) b e ≡ none
  unfolding search_loop
  search-none a fuel b e shut = ground arith

  search_loop-Right :
      (a : List A) (fuel b e : ℕ)
      → IsOrdered a
      → e ≤ length a
      → e ≤ b + fuel
      → Right a b e (search_loop cmp a fuel b e)
  unfolding search_loop
  search_loop-Right a zero b e s le enough = λ j y from to at eq. omega arith
  search_loop-Right a (suc fuel) b e s le enough = elim (Bool-cases (ltb b e)) [
    | inr shut ↦
        rw (search-none a fuel b e shut)
          (λ j y from to at eq. absurd (omega (arith, ltb-false→le b e shut)))
    | inl some_left ↦
        let i = b + (e - 1 - b) / 2 in
        let lt = ltb→lt b e some_left in
        let (x, at) = element-some a i (omega arith) in
        elim (Ordering-cases (cmp x)) [
          | inl c ↦ rw (search-by a fuel b e x Ordering.lt some_left at c) (
              Right-upper a b i e x (search_loop cmp a fuel (i + 1) e) s at c
                (search_loop-Right a fuel (i + 1) e s le (omega arith)))
          | inr (inl c) ↦ rw (search-by a fuel b e x Ordering.eq some_left at c) (x, at, c)
          | inr (inr c) ↦ rw (search-by a fuel b e x Ordering.gt some_left at c) (
              Right-lower a b i e x (search_loop cmp a fuel b i) s at c
                (search_loop-Right a fuel b i s (omega arith) (omega arith)))
        ]
  ]

  -- The index of an element that equals the value, or none when no element does.
  abbrev pub IsResult : List A → Option ℕ → Type ℓ
  IsResult a none = (j : ℕ) (y : A) → element a j ≡ some y → cmp y ≢ Ordering.eq
  IsResult a (some i) = (x : A) × (element a i ≡ some x) × (cmp x ≡ Ordering.eq)

  some_lt : (a : List A) (j : ℕ) (y : A) → element a j ≡ some y → j < length a
  some_lt [] j y e = absurd (none-some y e)
    where
      none-some : (y : A) → ◌≡◌ {A = Option A} none (some y) → ⊥
      none-some y e = cc
  some_lt (x ∷ a) zero y e = omega arith
  some_lt (x ∷ a) (suc j) y e = omega (arith, some_lt a j y e)

  Right-IsResult : (a : List A) (r : Option ℕ) → Right a 0 (length a) r → IsResult a r
  Right-IsResult a none right = λ j y at eq. right j y (omega arith) (some_lt a j y at) at eq
  Right-IsResult a (some i) right = right

  -- In an ordered array, `ptr_array_search` returns the index of an element that equals the value, and
  -- -1 only if no element does.
  pub ptr_array_search-IsResult : (a : List A) → IsOrdered a → IsResult a (ptr_array_search cmp a)
  unfolding ptr_array_search
  ptr_array_search-IsResult [] s = λ j y at eq. absurd (not_below (some_lt [] j y at))
    where
      not_below : {j : ℕ} → j < 0 → ⊥
      not_below h = omega arith
  ptr_array_search-IsResult (x ∷ a) s =
      Right-IsResult (x ∷ a) (search_loop cmp (x ∷ a) (length (x ∷ a)) 0 (length (x ∷ a))) (
        search_loop-Right (x ∷ a) (length (x ∷ a)) 0 (length (x ∷ a)) s (omega arith) (omega arith))
