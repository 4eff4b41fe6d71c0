-- ===== src/PtrArray.antt =====
-- src/util.c: `ptr_array_search` and `ptr_array_insert_before`. An array is the list of what its pointers
-- point to; what `cmp` returns for an element and the value that is looked for is its sign.
pub mod Search
pub mod Insert
mod Tests
use Prim.Native.Nat.{Ordering}
use ncdc.Prelude.{
  ℕ, zero, suc, List, [], ◌∷◌, ◌++◌, Bool, true, false, Option, none, some, ltb, if◌then◌else◌,
  is_empty, take, drop, set, get_or, length, ◌+◌, ◌-◌, ◌/◌,
}

module _ {ℓ} {A : Type ℓ} where
  abbrev pub element : List A → ℕ → Option A
  element [] i = none
  element (x ∷ xs) zero = some x
  element (x ∷ xs) (suc i) = element xs i

  -- `while(b <= e) …`, with `e + 1` for `e`, which can be -1. The fuel is the length of the array: each
  -- round makes the part that is left shorter.
  pub search_loop : (A → Ordering) → List A → ℕ → ℕ → ℕ → Option ℕ
  search_loop cmp a zero b e = none
  search_loop cmp a (suc fuel) b e =
      let i = b + (e - 1 - b) / 2 in
      elim (ltb b e) [
        | false ↦ none
        | true ↦ elim (element a i) [
          | none ↦ none
          | some x ↦ elim (cmp x) [
            | Ordering.lt ↦ search_loop cmp a fuel (i + 1) e
            | Ordering.gt ↦ search_loop cmp a fuel b i
            | Ordering.eq ↦ some i
          ]
        ]
      ]

  unfoldable pub ptr_array_search : (A → Ordering) → List A → Option ℕ
  unfolding search_loop
  ptr_array_search cmp a = if is_empty a then none else search_loop cmp a (length a) 0 (length a)

  -- `memmove(a->pdata+to, a->pdata+from, …)` on `n` elements.
  abbrev pub memmove : List A → ℕ → ℕ → ℕ → List A
  memmove a to from n = take to a ++ (take n (drop from a) ++ drop (to + n) a)

  -- `null` is the dummy element.
  unfoldable pub ptr_array_insert_before : A → List A → ℕ → A → List A
  ptr_array_insert_before null a i v =
      let grown = a ++ null ∷ [] in
      if ltb i (length a)
      then set (memmove grown (i + 1) i (length grown - i - 1)) i v
      else a ++ v ∷ []
