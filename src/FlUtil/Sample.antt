-- ===== src/FlUtil/Sample.antt =====
-- Directories for the tests of src/fl_util.c. Bytes are characters, of one case.
use Prim.Native.Nat.{Ordering, compare}
use ncdc.Prelude.{ℕ, zero, suc, List, [], ◌∷◌, some, Bytes, ◌≡◌, refl, sym, subst, ◌∙◌, arith}
use ncdc.PtrArray.{element}
use ncdc.FlUtil.{FlInfo, Sub, nothing, item}
use ncdc.FlUtil.Path.{entries, fl_list_cmp}
use ncdc.FlUtil.Path.File.{IsListing, IsStrcmp}

abbrev pub plain : ℕ → ℕ
plain c = c

abbrev pub bytes : Bytes → List ℕ
bytes s = s

pub compare_bytes : Bytes → Bytes → Ordering
compare_bytes [] [] = Ordering.eq
compare_bytes [] (y ∷ b) = Ordering.lt
compare_bytes (x ∷ a) [] = Ordering.gt
compare_bytes (x ∷ a) (y ∷ b) = elim (compare x y) [ Ordering.eq ↦ compare_bytes a b | o ↦ o ]

compare_bytes_self : (a : Bytes) → compare_bytes a a ≡ Ordering.eq
unfolding compare_bytes
compare_bytes_self [] = refl
compare_bytes_self (x ∷ a) = ground (arith, compare_bytes_self a)

compare_bytes_equal : (a b : Bytes) → compare_bytes a b ≡ Ordering.eq → a ≡ b
unfolding compare_bytes
compare_bytes_equal [] [] e = refl
compare_bytes_equal [] (y ∷ b) e = absurd (ground (arith, e))
compare_bytes_equal (x ∷ a) [] e = absurd (ground (arith, e))
compare_bytes_equal (x ∷ a) (y ∷ b) e = ground (arith, compare_bytes_equal a b)

pub law : IsStrcmp bytes plain compare_bytes
law = record { self = compare_bytes_self; equal = compare_bytes_equal }

only : (e x : FlInfo × Sub) (i : ℕ) → element (e ∷ []) i ≡ some x → (i ≡ 0) × (x ≡ e)
only e x zero at = ground arith
only e x (suc i) at = ground arith

pub single-IsListing :
    (ps : List FlInfo) (d f : FlInfo) (s : Sub)
    → IsListing bytes plain compare_bytes
        (record { parents = ps; info = d; sub = item f s nothing })
unfolding entries
single-IsListing ps d f s = record {
  sorted = λ name. record {
    low = λ i j x y le at at' c.
        subst (λ z. fl_list_cmp bytes plain compare_bytes name z.0 ≡ Ordering.lt)
          (same x y i j at at') c;
    high = λ i j x y le at at' c.
        subst (λ z. fl_list_cmp bytes plain compare_bytes name z.0 ≡ Ordering.gt)
          (sym (same x y i j at at')) c;
  };
  distinct = λ i j e e' at at' n. omega (arith, (only (f, s) e i at).0, (only (f, s) e' j at').0);
}
  where
    same :
        (x y : FlInfo × Sub) (i j : ℕ)
        → element ((f, s) ∷ []) i ≡ some x
        → element ((f, s) ∷ []) j ≡ some y
        → y ≡ x
    same x y i j at at' = (only (f, s) y j at').1 ∙ sym (only (f, s) x i at).1
