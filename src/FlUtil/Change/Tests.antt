-- ===== src/FlUtil/Change/Tests.antt =====
-- src/fl_util.c: a file is added to a directory in the root.
use ncdc.Prelude.{ℕ, [], ◌∷◌, false, true, none, codes, ◌≡◌, refl, arith}
use ncdc.FlUtil.{FlInfo, Sub, nothing, item}
use ncdc.FlUtil.Path.{entries}
use ncdc.FlUtil.Change.{
  fl_list_add, fl_list_remove, target, update_at, inserted, of_entries, resized, change_item,
}
use ncdc.FlUtil.Sample.{plain, bytes, compare_bytes, law, single-IsListing}
use ncdc.FlUtil.Change.Removal.{fl_list_remove-IsSized}
use ncdc.FlUtil.Change.Size.{IsSized, AllSized, fl_list_add-IsSized}

abbrev sized_file : ℕ → FlInfo × Sub
sized_file n = (record { name = codes "f"; size = n; isfile = true; hastth = true }, nothing)

abbrev sized_dir : ℕ → FlInfo
sized_dir n = record { name = codes "d"; size = n; isfile = false; hastth = false }

abbrev sized_root : FlInfo × Sub
sized_root = (
  sized_dir 12,
  item (sized_dir 5) (item (sized_file 5).0 nothing nothing)
      (item (sized_file 7).0 nothing nothing),
)

added : fl_list_add (0 ∷ []) (sized_file 3) none sized_root ≡ (
  sized_dir 15,
  item
      (sized_dir 8)
      (item (sized_file 5).0 nothing (item (sized_file 3).0 nothing nothing))
      (item (sized_file 7).0 nothing nothing),
)
unfolding fl_list_add update_at inserted of_entries resized change_item entries
added = refl

true-false : true ≡ false → ⊥
true-false e = cc

file-IsSized : (n : ℕ) → IsSized (sized_file n)
file-IsSized n = ((λ e. absurd (true-false e)), tt)

one_file-AllSized : (n : ℕ) → AllSized (item (sized_file n).0 nothing nothing)
one_file-AllSized n = ((λ e. absurd (true-false e)), tt, tt)

root-IsSized : IsSized sized_root
root-IsSized = ((λ e. refl), ((λ e. refl), one_file-AllSized 5, one_file-AllSized 7))

fl_list_add-IsSized_example : IsSized (fl_list_add (0 ∷ []) (sized_file 3) none sized_root)
unfolding target entries
fl_list_add-IsSized_example =
    fl_list_add-IsSized (0 ∷ []) (sized_file 3) none sized_root
      (item (sized_file 5).0 nothing nothing) refl (file-IsSized 3) root-IsSized

fl_list_remove-IsSized_example :
    IsSized (fl_list_remove bytes plain compare_bytes (0 ∷ []) (sized_file 5) sized_root)
unfolding target entries
fl_list_remove-IsSized_example =
    fl_list_remove-IsSized bytes plain compare_bytes law (0 ∷ [])
      (record { parents = []; info = sized_dir 5; sub = item (sized_file 5).0 nothing nothing }) 0
      (sized_file 5) sized_root refl (single-IsListing [] (sized_dir 5) (sized_file 5).0 nothing)
      refl (omega arith) root-IsSized
