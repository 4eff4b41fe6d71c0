-- ===== src/FlUtil/Path/File.antt =====
-- src/fl_util.c: `fl_list_file` finds the item of a name.
use Prim.Native.Nat.{Ordering}
use ncdc.Prelude.{ap, ◌∙◌, ℕ, List, [], ◌∷◌, Option, none, some, Bytes, ◌≡◌, refl, arith}
use ncdc.StrUtil.Case.{str_casecmp}
use ncdc.PtrArray.{element, ptr_array_search}
use ncdc.PtrArray.Search.{IsOrdered, IsResult, ptr_array_search-IsResult}
use ncdc.FlUtil.{FlInfo, Sub, FlList}
use ncdc.FlUtil.Path.{entries, child, item_at, fl_list_cmp, fl_list_file}

str_casecmp_self : (tolower : ℕ → ℕ) (a : List ℕ) → str_casecmp tolower a a ≡ Ordering.eq
unfolding str_casecmp
str_casecmp_self tolower [] = refl
str_casecmp_self tolower (x ∷ a) = ground (arith, str_casecmp_self tolower a)

module _ (chars : Bytes → List ℕ) (tolower : ℕ → ℕ) (strcmp : Bytes → Bytes → Ordering) where
  -- A directory that `fl_list_sort` has sorted, and in which no name stands twice.
  pub record IsListing (dir : FlList) : Type 0 where
    pub sorted :
        (name : Bytes)
        → IsOrdered (λ e. fl_list_cmp chars tolower strcmp name e.0) (entries dir.sub)
    pub distinct :
        (i j : ℕ) (e e' : FlInfo × Sub)
        → element (entries dir.sub) i ≡ some e
        → element (entries dir.sub) j ≡ some e'
        → e.0.name ≡ e'.0.name
        → i ≡ j

  pub record IsStrcmp : Type 0 where
    pub self : (a : Bytes) → strcmp a a ≡ Ordering.eq
    pub equal : (a b : Bytes) → strcmp a b ≡ Ordering.eq → a ≡ b

  fl_list_cmp_self :
      IsStrcmp → (f : FlInfo) → fl_list_cmp chars tolower strcmp f.name f ≡ Ordering.eq
  unfolding fl_list_cmp
  fl_list_cmp_self law f =
      rw (fl_list_cmp, str_casecmp_self tolower (chars f.name)) (law.self f.name)

  fl_list_cmp_equal :
      IsStrcmp
      → (name : Bytes) (f : FlInfo) → fl_list_cmp chars tolower strcmp name f ≡ Ordering.eq
      → f.name ≡ name
  unfolding fl_list_cmp
  fl_list_cmp_equal law name f e = law.equal f.name name (ground (arith, e))

  item_at-some :
      (dir : FlList) (i : ℕ) (e : FlInfo × Sub)
      → element (entries dir.sub) i ≡ some e
      → item_at dir (some i) ≡ some (child dir e)
  unfolding item_at
  item_at-some dir i e at = rw (item_at, at) refl

  index-IsResult :
      IsStrcmp
      → (dir : FlList) (i : ℕ) (e : FlInfo × Sub) (r : Option ℕ) → IsListing dir
      → element (entries dir.sub) i ≡ some e
      → IsResult (λ d. fl_list_cmp chars tolower strcmp e.0.name d.0) (entries dir.sub) r
      → r ≡ some i
  index-IsResult law dir i e none ok at result = absurd (result i e at (fl_list_cmp_self law e.0))
  index-IsResult law dir i e (some k) ok at (x, found, same) =
      ap some (ok.distinct k i x e found at (fl_list_cmp_equal law e.0.name x.0 same))

  -- The search by the name of an item finds its index.
  pub name_index :
      IsStrcmp
      → (dir : FlList) (i : ℕ) (e : FlInfo × Sub) → IsListing dir
      → element (entries dir.sub) i ≡ some e
      → ptr_array_search (λ d. fl_list_cmp chars tolower strcmp e.0.name d.0) (entries dir.sub)
        ≡ some i
  name_index law dir i e ok at = index-IsResult law dir i e _ ok at (
      ptr_array_search-IsResult (λ d. fl_list_cmp chars tolower strcmp e.0.name d.0)
        (entries dir.sub) (ok.sorted e.0.name))

  -- In a sorted directory with distinct names, `fl_list_file` finds each item by its name, where `strcmp`
  -- gives 0 just for equal names.
  pub fl_list_file_lem :
      IsStrcmp
      → (dir : FlList) (i : ℕ) (e : FlInfo × Sub) → IsListing dir
      → element (entries dir.sub) i ≡ some e
      → fl_list_file chars tolower strcmp dir e.0.name ≡ some (child dir e)
  unfolding fl_list_file
  fl_list_file_lem law dir i e ok at =
      ap (item_at dir) (name_index law dir i e ok at) ∙ item_at-some dir i e at
