-- ===== src/StrUtil/Case/Same.antt =====
-- src/strutil.c: when `str_casecmp` says that two texts are the same.
use Prim.Native.Nat.{Ordering}
use ncdc.Prelude.{ℕ, List, [], ◌∷◌, map, ◌≡◌, refl, sym, ◌↔◌, arith}
use ncdc.StrUtil.Case.{str_casecmp}

head_same : (x y : ℕ) (a b : List ℕ) → ◌≡◌ {A = List ℕ} (x ∷ a) (y ∷ b) → x ≡ y
head_same x y a b e = cc

tail_same : (x y : ℕ) (a b : List ℕ) → ◌≡◌ {A = List ℕ} (x ∷ a) (y ∷ b) → a ≡ b
tail_same x y a b e = cc

cons_nil : (x : ℕ) (a : List ℕ) → ◌≡◌ {A = List ℕ} (x ∷ a) [] → ⊥
cons_nil x a e = cc

module _ (tolower : ℕ → ℕ) where
  eq-map : (a b : List ℕ) → str_casecmp tolower a b ≡ Ordering.eq → map tolower a ≡ map tolower b
  unfolding str_casecmp
  eq-map [] [] e = refl
  eq-map [] (y ∷ b) e = absurd (ground (arith, e))
  eq-map (x ∷ a) [] e = absurd (ground (arith, e))
  eq-map (x ∷ a) (y ∷ b) e = ground (arith, eq-map a b)

  map-eq : (a b : List ℕ) → map tolower a ≡ map tolower b → str_casecmp tolower a b ≡ Ordering.eq
  unfolding str_casecmp
  map-eq [] [] e = refl
  map-eq [] (y ∷ b) e = absurd (cons_nil _ _ (sym e))
  map-eq (x ∷ a) [] e = absurd (cons_nil _ _ e)
  map-eq (x ∷ a) (y ∷ b) e = ground (arith, head_same _ _ _ _ e, map-eq a b (tail_same _ _ _ _ e))

  -- `str_casecmp` returns 0 exactly when the texts are the same in lower case.
  pub str_casecmp_iff :
      (a b : List ℕ) → (str_casecmp tolower a b ≡ Ordering.eq) ↔ (map tolower a ≡ map tolower b)
  str_casecmp_iff a b = (eq-map a b, map-eq a b)
