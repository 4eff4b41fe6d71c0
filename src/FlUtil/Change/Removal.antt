-- ===== src/FlUtil/Change/Removal.antt =====
-- src/fl_util.c: `fl_list_remove` takes an item away, and its size from its parents.
use Prim.Native.Nat.{Ordering}
use ncdc.Prelude.{
  ℕ, zero, suc, List, [], ◌∷◌, Option, none, some, Bytes, All, ◌≡◌, refl, sym, ap, subst, ◌+◌, ◌-◌,
  ◌<◌, arith,
}
use ncdc.PtrArray.{element}
use ncdc.FlUtil.{FlInfo, Sub, FlList}
use ncdc.FlUtil.Path.{entries}
use ncdc.FlUtil.Path.File.{IsListing, IsStrcmp, name_index}
use ncdc.FlUtil.Change.{of_entries, target, remove_index, removed, fl_list_remove}
use ncdc.FlUtil.Change.Size.{
  total, AllSized, IsSized, entries_total, total-of_entries, entries_total-entries,
  AllSized-of_entries, AllSized-entries, update_at-IsSized,
}

entries_total-remove_index :
    (i : ℕ) (xs : List (FlInfo × Sub)) (e : FlInfo × Sub)
    → element xs i ≡ some e
    → entries_total (remove_index i xs) + e.0.size ≡ entries_total xs
unfolding remove_index
entries_total-remove_index i [] e at = absurd (none-some e at)
  where
    none-some : (e : FlInfo × Sub) → ◌≡◌ {A = Option (FlInfo × Sub)} none (some e) → ⊥
    none-some e h = cc
entries_total-remove_index zero ((f, sub) ∷ xs) e at =
    omega (arith, ap (λ x. x.0.size) (some_injective at))
  where
    some_injective : {a b : FlInfo × Sub} → some a ≡ some b → a ≡ b
    some_injective h = cc
entries_total-remove_index (suc i) ((f, sub) ∷ xs) e at =
    omega (arith, entries_total-remove_index i xs e at)

All-remove_index :
    (i : ℕ) (xs : List (FlInfo × Sub)) → All IsSized xs → All IsSized (remove_index i xs)
unfolding remove_index
All-remove_index i [] h = h
All-remove_index zero (x ∷ xs) (hx, h) = h
All-remove_index (suc i) (x ∷ xs) (hx, h) = (hx, All-remove_index i xs h)

module _ (chars : Bytes → List ℕ) (tolower : ℕ → ℕ) (strcmp : Bytes → Bytes → Ordering) where
  -- In a sorted directory it is the item itself that is removed.
  pub removed_lem :
      IsStrcmp chars tolower strcmp
      → (dir : FlList) (i : ℕ) (fl : FlInfo × Sub) → IsListing chars tolower strcmp dir
      → element (entries dir.sub) i ≡ some fl
      → removed chars tolower strcmp fl.0.name dir.sub
        ≡ of_entries (remove_index i (entries dir.sub))
  unfolding removed
  removed_lem law dir i fl ok at =
      rw (removed, name_index chars tolower strcmp law dir i fl ok at) refl

  -- Where the size of every directory is the sum of the sizes of its items modulo 2 ^ 64, the item is in a
  -- directory that is reached from the root, sorted and without a name twice, and its size is below 2 ^ 64,
  -- `fl_list_remove` keeps it so. Names are the same when `strcmp` says so.
  pub fl_list_remove-IsSized :
      IsStrcmp chars tolower strcmp
      → (parent : List ℕ) (dir : FlList) (i : ℕ) (fl root : FlInfo × Sub)
      → target parent root.1 ≡ some dir.sub
      → IsListing chars tolower strcmp dir
      → element (entries dir.sub) i ≡ some fl
      → fl.0.size < 18446744073709551616
      → IsSized root
      → IsSized (fl_list_remove chars tolower strcmp parent fl root)
  unfolding fl_list_remove
  fl_list_remove-IsSized law parent dir i fl root found ok at small h =
      let same = removed_lem law dir i fl ok at in
      let less : total (of_entries (remove_index i (entries dir.sub))) + fl.0.size ≡ total dir.sub =
        omega (
          arith,
          total-of_entries (remove_index i (entries dir.sub)),
          entries_total-remove_index i (entries dir.sub) fl at,
          entries_total-entries dir.sub,
        ) in
      update_at-IsSized (18446744073709551616 - fl.0.size) (removed chars tolower strcmp fl.0.name)
        parent root dir.sub found (rw same (omega (arith, less, small)))
        (λ sized. subst AllSized (sym same) (
          AllSized-of_entries (remove_index i (entries dir.sub))
            (All-remove_index i (entries dir.sub) (AllSized-entries dir.sub sized))))
        h
