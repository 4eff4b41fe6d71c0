-- ===== src/FlUtil/Change.antt =====
-- src/fl_util.c: `fl_list_add` and `fl_list_remove`. A directory is named by the indices on the way from the root to it.
pub mod Size
pub mod Removal
mod Tests
use ncdc.Prelude.{
  ℕ, zero, suc, List, [], ◌∷◌, ◌++◌, Bool, true, false, Option, none, Bytes, ◌-◌, some,
  if◌then◌else◌, ◌+◌, ◌%◌,
}
use Prim.Native.Nat.{Ordering}
use ncdc.PtrArray.{element, ptr_array_search, ptr_array_insert_before}
use ncdc.FlUtil.{FlInfo, Sub, nothing, item}
use ncdc.FlUtil.Path.{entries, fl_list_cmp}

pub of_entries : List (FlInfo × Sub) → Sub
of_entries [] = nothing
of_entries ((f, sub) ∷ rest) = item f sub (of_entries rest)

-- The array of the directory that indices lead to.
pub target : List ℕ → Sub → Option Sub
target [] sub = some sub
target (i ∷ path) sub = elim (element (entries sub) i) [
  | none ↦ none
  | some (f, s) ↦ if f.isfile then none else target path s
]

-- `parent->size += …`
pub resized : ℕ → FlInfo → FlInfo
resized v f = record {
  name = f.name;
  size = (f.size + v) % 18446744073709551616;
  isfile = f.isfile;
  hastth = f.hastth;
}

pub change_item : ℕ → (FlInfo × Sub → FlInfo × Sub) → Sub → Sub
change_item i change nothing = nothing
change_item zero change (item f sub rest) = item (change (f, sub)).0 (change (f, sub)).1 rest
change_item (suc i) change (item f sub rest) = item f sub (change_item i change rest)

-- Adds to the size of a directory and of all its parents, and changes its array.
pub update_at : ℕ → (Sub → Sub) → List ℕ → FlInfo × Sub → FlInfo × Sub
update_at v change [] (f, sub) = (resized v f, change sub)
update_at v change (i ∷ path) (f, sub) = (resized v f, change_item i (update_at v change path) sub)

-- `before` is none for a negative index. What `null` is plays no part.
pub inserted : FlInfo × Sub → Option ℕ → Sub → Sub
inserted cur none sub = of_entries (entries sub ++ cur ∷ [])
inserted cur (some i) sub = of_entries (ptr_array_insert_before cur (entries sub) i cur)

unfoldable pub fl_list_add : List ℕ → FlInfo × Sub → Option ℕ → FlInfo × Sub → FlInfo × Sub
fl_list_add parent cur before root = update_at cur.0.size (inserted cur before) parent root

-- `g_ptr_array_remove_index`
pub remove_index : ℕ → List (FlInfo × Sub) → List (FlInfo × Sub)
remove_index i [] = []
remove_index zero (x ∷ xs) = xs
remove_index (suc i) (x ∷ xs) = x ∷ remove_index i xs

module _ (chars : Bytes → List ℕ) (tolower : ℕ → ℕ) (strcmp : Bytes → Bytes → Ordering) where
  pub removed : Bytes → Sub → Sub
  removed name sub =
      elim (ptr_array_search (λ e. fl_list_cmp chars tolower strcmp name e.0) (entries sub)) [
        | none ↦ sub
        | some i ↦ of_entries (remove_index i (entries sub))
      ]

  -- Of an item with a parent. `par->size -= fl->size` is an addition that wraps.
  unfoldable pub fl_list_remove : List ℕ → FlInfo × Sub → FlInfo × Sub → FlInfo × Sub
  fl_list_remove parent fl root =
      update_at (18446744073709551616 - fl.0.size) (removed fl.0.name) parent root
