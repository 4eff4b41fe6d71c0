-- ===== src/FlUtil/Path/Tests.antt =====
-- src/fl_util.c: the path of a file in a directory. Bytes are characters, of one case.
use ncdc.Prelude.{
  codes, [], ◌∷◌, ◌++◌, true, false, Option, some, if◌then◌else◌, same_text, ==_false, Bytes, ◌≡◌,
  refl, arith,
}
use ncdc.FlUtil.{FlInfo, Sub, nothing, item, FlList}
use ncdc.FlUtil.Path.{entries, child, fl_list_path, fl_list_from_path, fl_list_file, build}
use ncdc.FlUtil.Path.Fuel.{fl_list_from_path-returns}
use ncdc.FlUtil.Path.Text.{IsName, IsStart}
use ncdc.FlUtil.Path.File.{fl_list_file_lem}
use ncdc.FlUtil.Path.RoundTrip.{Below, here, down, IsBuild, fl_list_from_path-fl_list_path}
use ncdc.FlUtil.Sample.{plain, bytes, compare_bytes, law, single-IsListing}

join_names : Bytes → Bytes → Bytes
join_names n path = if same_text n (47 ∷ []) then n ++ path else n ++ 47 ∷ path

join_names-IsBuild :
    (top : FlInfo) (sub : Sub) → IsBuild bytes plain compare_bytes top sub join_names
unfolding join_names
join_names-IsBuild top sub = record { between = between; at_root = λ path start. refl }
  where
    between : (n path : Bytes) → IsName n → IsStart path → join_names n path ≡ n ++ 47 ∷ path
    between [] path h start = absurd h
    between (c ∷ n) path (ne, h) start = rw (==_false c 47 ne) refl

abbrev file_b : FlInfo
file_b = record { name = 98 ∷ []; size = 3; isfile = true; hastth = true }

abbrev dir_a : FlInfo
dir_a = record { name = 97 ∷ []; size = 3; isfile = false; hastth = false }

abbrev top : FlInfo
top = record { name = []; size = 3; isfile = false; hastth = false }

abbrev tree : Sub
tree = item dir_a (item file_b nothing nothing) nothing

abbrev place_a : FlList
place_a = record { parents = top ∷ []; info = dir_a; sub = item file_b nothing nothing }

abbrev place_b : FlList
place_b = record { parents = dir_a ∷ top ∷ []; info = file_b; sub = nothing }

a-Below : Below bytes plain compare_bytes top tree place_a
unfolding child entries
a-Below =
    down 0 (dir_a, item file_b nothing nothing) here refl
      (single-IsListing [] top dir_a (item file_b nothing nothing))
      ((λ e. absurd (omega arith)), tt) refl

b-Below : Below bytes plain compare_bytes top tree place_b
unfolding child entries
b-Below =
    down 0 (file_b, nothing) a-Below refl (single-IsListing (top ∷ []) dir_a file_b nothing)
      ((λ e. absurd (omega arith)), tt) refl

path_b : fl_list_path join_names place_b ≡ 47 ∷ 97 ∷ 47 ∷ 98 ∷ []
unfolding fl_list_path build join_names
path_b = refl

fl_list_from_path-fl_list_path_example :
    fl_list_from_path bytes plain compare_bytes
      (record { parents = []; info = top; sub = tree })
      (fl_list_path join_names place_b)
    ≡ some (some place_b)
fl_list_from_path-fl_list_path_example =
    fl_list_from_path-fl_list_path bytes plain compare_bytes top tree join_names law
      (join_names-IsBuild top tree) place_b b-Below

fl_list_file_lem_example :
    fl_list_file bytes plain compare_bytes place_a (98 ∷ [])
    ≡ some (child place_a (file_b, nothing))
unfolding entries
fl_list_file_lem_example =
    fl_list_file_lem bytes plain compare_bytes law place_a 0 (file_b, nothing)
      (single-IsListing (top ∷ []) dir_a file_b nothing) refl

fl_list_from_path-returns_example :
    (r : Option FlList) × (fl_list_from_path bytes plain compare_bytes
        (record { parents = []; info = top; sub = tree })
        (codes "/a/b")
      ≡ some r)
fl_list_from_path-returns_example =
    fl_list_from_path-returns bytes plain compare_bytes
      (record { parents = []; info = top; sub = tree }) (codes "/a/b")
