-- ===== src/FlUtil/Path.antt =====
-- src/fl_util.c: names in a directory, and paths. The characters of a string (`g_utf8_get_char` and
-- `g_utf8_next_char`), `g_unichar_tolower`, `strcmp` and `g_build_filename` are arguments.
pub mod Text
pub mod File
pub mod RoundTrip
pub mod Fuel
mod Tests
use Prim.Native.Nat.{Ordering}
use ncdc.Prelude.{
  ℕ, zero, suc, List, [], ◌∷◌, Bool, true, false, not, ◌&&◌, ◌||◌, Option, none, some, ◌==◌,
  if◌then◌else◌, is_empty, drop, Bytes, length,
}
use ncdc.StrUtil.Case.{str_casecmp}
use ncdc.PtrArray.{element, ptr_array_search}
use ncdc.FlUtil.{FlInfo, Sub, nothing, item, FlList}

-- The array as a list: each item with its own array.
unfoldable pub entries : Sub → List (FlInfo × Sub)
entries nothing = []
entries (item f sub rest) = (f, sub) ∷ entries rest

-- `cur->parent` is `dir`.
pub child : FlList → FlInfo × Sub → FlList
child dir (f, sub) = record { parents = dir.info ∷ dir.parents; info = f; sub = sub }

-- What an index, or -1 for none, stands for in a directory.
unfoldable pub item_at : FlList → Option ℕ → Option FlList
item_at dir none = none
item_at dir (some i) = elim (element (entries dir.sub) i) [
  | none ↦ none
  | some e ↦ some (child dir e)
]

pub no_hashed : List (FlInfo × Sub) → Bool
no_hashed [] = true
no_hashed ((f, sub) ∷ rest) = if not f.isfile || f.hastth then false else no_hashed rest

unfoldable pub fl_list_isempty : FlList → Bool
fl_list_isempty fl = if fl.info.isfile then false else no_hashed (entries fl.sub)

module _ (chars : Bytes → List ℕ) (tolower : ℕ → ℕ) where
  unfoldable pub fl_list_cmp_strict : Bytes → FlInfo → Ordering
  fl_list_cmp_strict name a = str_casecmp tolower (chars a.name) (chars name)

  -- Get a file name with the same name, but for the case.
  unfoldable pub fl_list_file_strict : FlList → FlInfo → Option FlList
  fl_list_file_strict dir fl =
      item_at dir (ptr_array_search (λ e. fl_list_cmp_strict fl.name (e.0)) (entries dir.sub))

module _ (chars : Bytes → List ℕ) (tolower : ℕ → ℕ) (strcmp : Bytes → Bytes → Ordering) where
  -- The comparison of `a` with an item of this name.
  unfoldable pub fl_list_cmp : Bytes → FlInfo → Ordering
  fl_list_cmp name a = elim (str_casecmp tolower (chars a.name) (chars name)) [
    | Ordering.eq ↦ strcmp a.name name
    | o ↦ o
  ]

  unfoldable pub fl_list_file : FlList → Bytes → Option FlList
  fl_list_file dir name =
      item_at dir (ptr_array_search (λ e. fl_list_cmp name (e.0)) (entries dir.sub))

-- `while(path[0] == '/') path++`
unfoldable pub skip_slashes : Bytes → Bytes
skip_slashes [] = []
skip_slashes (c ∷ path) = if c == 47 then skip_slashes path else c ∷ path

-- The first `strcspn(path, "/")` characters.
unfoldable pub name_part : Bytes → Bytes
name_part [] = []
name_part (c ∷ path) = if c == 47 then [] else c ∷ name_part path

-- What stands behind them.
unfoldable pub slash_part : Bytes → Bytes
slash_part [] = []
slash_part (c ∷ path) = if c == 47 then c ∷ path else slash_part path

module _ (chars : Bytes → List ℕ) (tolower : ℕ → ℕ) (strcmp : Bytes → Bytes → Ordering) where
  -- `none` means that the fuel ran out, and `some none` is NULL. The fuel is one more than the length of
  -- the path.
  unfoldable pub from_path : ℕ → FlList → Bytes → Option (Option FlList)
  from_path zero root path = none
  from_path (suc fuel) root path =
      if is_empty (skip_slashes path)
      then some (some root)
      else elim (fl_list_file chars tolower strcmp root (name_part (skip_slashes path))) [
        | none ↦ some none
        | some n ↦
            if is_empty (slash_part (skip_slashes path))
            then some (some n)
            else if n.info.isfile
            then some none
            else from_path fuel n (drop 1 (slash_part (skip_slashes path)))
      ]

  unfoldable pub fl_list_from_path : FlList → Bytes → Option (Option FlList)
  fl_list_from_path root path = from_path (suc (length path)) root path

-- The path below the root: the names from the outermost directory on.
module _ (g_build_filename : Bytes → Bytes → Bytes) where
  unfoldable pub build : List FlInfo → Bytes → Bytes
  build [] path = path
  build (p ∷ []) path = path
  build (p ∷ q ∷ ps) path = build (q ∷ ps) (g_build_filename p.name path)

  unfoldable pub fl_list_path : FlList → Bytes
  fl_list_path fl = elim fl.parents [
    | [] ↦ 47 ∷ []
    | p ∷ ps ↦ g_build_filename (47 ∷ []) (build (p ∷ ps) fl.info.name)
  ]
