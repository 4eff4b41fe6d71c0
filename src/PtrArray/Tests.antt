-- ===== src/PtrArray/Tests.antt =====
-- src/util.c: a search in an array of three numbers, and an insertion into it.
use Prim.Native.Nat.{compare}
use ncdc.Prelude.{
  ◌⊎◌, ℕ, zero, suc, List, [], ◌∷◌, some, if◌then◌else◌, ltb, take, drop, ◌++◌, ◌≡◌, arith,
}
use ncdc.PtrArray.{element, ptr_array_search, ptr_array_insert_before}
use ncdc.PtrArray.Search.{IsOrdered, IsResult, ptr_array_search-IsResult}
use ncdc.PtrArray.Insert.{ptr_array_insert_before_lem}

abbrev numbers : List ℕ
numbers = 2 ∷ 3 ∷ 5 ∷ []

at :
    (i x : ℕ)
    → element numbers i ≡ some x
    → ((i ≡ 0) × (x ≡ 2)) ⊎ (((i ≡ 1) × (x ≡ 3)) ⊎ ((i ≡ 2) × (x ≡ 5)))
at zero x e = ground arith
at (suc zero) x e = ground arith
at (suc (suc zero)) x e = ground arith
at (suc (suc (suc i))) x e = ground arith

numbers-IsOrdered : IsOrdered (λ x. compare x 3) numbers
numbers-IsOrdered = record {
  low = λ i j x y le e e' c. ground (arith, at i x e, at j y e');
  high = λ i j x y le e e' c. ground (arith, at i x e, at j y e');
}

ptr_array_search-IsResult_example :
    IsResult (λ x. compare x 3) numbers (ptr_array_search (λ x. compare x 3) numbers)
ptr_array_search-IsResult_example =
    ptr_array_search-IsResult (λ x. compare x 3) numbers numbers-IsOrdered

ptr_array_insert_before_lem_example :
    ptr_array_insert_before 0 numbers 1 7
    ≡ (if ltb 1 3 then take 1 numbers ++ 7 ∷ drop 1 numbers else numbers ++ 7 ∷ [])
ptr_array_insert_before_lem_example = ptr_array_insert_before_lem 0 7 numbers 1
