-- ===== src/FlUtil/Search.antt =====
-- src/fl_util.c: the search through the file list. `g_regex_match` is an argument, and so is the test of
-- `g_ascii_strcasecmp` for zero.
pub mod Weed
pub mod All
mod Tests
use ncdc.Prelude.{
  ℕ, zero, suc, List, [], ◌∷◌, ◌++◌, Bool, true, false, not, ◌&&◌, ◌||◌, Option, none, some, ltb,
  leb, ◌==◌, if◌then◌else◌, Bytes, length, ◌-◌, ◌/◌, ◌%◌,
}
use ncdc.FlUtil.{FlInfo, Sub, nothing, item, FlList}

-- -2, -1, 0 and 1
pub data Sizem : Type 0 where
  any_size : Sizem
  at_most : Sizem
  exactly : Sizem
  above : Sizem

-- A pointer that is NULL and an array that is empty are treated alike: `ext` and `ands` are lists.
pub record FlSearch (R : Type 0) : Type 0 where
  pub sizem : Sizem
  pub filedir : ℕ
  pub size : ℕ
  pub ext : List Bytes
  pub ands : List R
  pub nots : Option R

-- `strrchr(s, c)`, and one character on.
pub after_last : ℕ → Bytes → Option Bytes
after_last c [] = none
after_last c (x ∷ s) = elim (after_last c s) [
  | some t ↦ some t
  | none ↦ if x == c then some s else none
]

pub size_match : Sizem → ℕ → ℕ → Bool
size_match any_size n size = true
size_match exactly n size = n == size
size_match at_most n size = leb n size
size_match above n size = ltb size n

pub with_and : {R : Type 0} → FlSearch R → List R → FlSearch R
with_and s rs = record {
  sizem = s.sizem;
  filedir = s.filedir;
  size = s.size;
  ext = s.ext;
  ands = rs;
  nots = s.nots;
}

module _ (same_ascii : Bytes → Bytes → Bool) where
  pub one_of : Bytes → List Bytes → Bool
  one_of l [] = false
  one_of l (e ∷ ext) = same_ascii l e || one_of l ext

  pub has_ext : List Bytes → Bytes → Bool
  has_ext [] name = true
  has_ext (e ∷ ext) name = elim (after_last 46 name) [
    | none ↦ false
    | some [] ↦ false
    | some (c ∷ l) ↦ one_of (c ∷ l) (e ∷ ext)
  ]

module _ {R : Type 0} (g_regex_match : R → Bytes → Bool) where
  pub all_match : List R → Bytes → Bool
  all_match [] name = true
  all_match (r ∷ rs) name = g_regex_match r name && all_match rs name

  -- The keywords that do not match the name.
  unfoldable pub weed : FlInfo → List R → List R
  weed p [] = []
  weed p (r ∷ rs) = if g_regex_match r p.name then weed p rs else r ∷ weed p rs

  -- `parent->parent` is NULL for the root, whose name no keyword is weeded out by.
  unfoldable pub weed_parent : FlInfo → List FlInfo → List R → List R
  weed_parent p [] rs = rs
  weed_parent p (q ∷ ps) rs = weed p rs

  -- `for(; p && p->parent; p=p->parent) …`
  unfoldable pub weed_parents : List FlInfo → List R → List R
  weed_parents [] rs = rs
  weed_parents (p ∷ ps) rs = weed_parents ps (weed_parent p ps rs)

module _ {R : Type 0} (g_regex_match : R → Bytes → Bool) (same_ascii : Bytes → Bytes → Bool) where
  unfoldable pub fl_search_match_name : FlInfo → FlSearch R → Bool
  fl_search_match_name fl s =
      if all_match g_regex_match s.ands fl.name
      then elim s.nots [
        | none ↦ has_ext same_ascii s.ext fl.name
        | some r ↦ if g_regex_match r fl.name then false else has_ext same_ascii s.ext fl.name
      ]
      else false

  unfoldable pub fl_search_match : FlInfo → FlSearch R → Bool
  fl_search_match fl s =
      ((s.filedir / 2) % 2 == 1 && not fl.isfile || s.filedir % 2 == 1 && (fl.isfile && fl.hastth))
      && (size_match s.sizem fl.size s.size && fl_search_match_name fl s)

  -- The item alone, when it matches.
  pub hit : FlSearch R → List FlInfo → FlInfo → Sub → List FlList
  hit s ps f sub =
      if fl_search_match f s then record { parents = ps; info = f; sub = sub } ∷ [] else []

  -- The loop of `fl_search_rec` over the array of a directory, with the parents of its items, and with the
  -- recursive call.
  unfoldable pub search_sub : FlSearch R → List FlInfo → Sub → ℕ → List FlList
  search_sub s ps nothing max = []
  search_sub s ps (item f sub rest) max =
      let left = max - length (hit s ps f sub) in
      let below =
        if not f.isfile && ltb 0 left
        then search_sub (with_and s (weed_parent g_regex_match f ps s.ands)) (f ∷ ps) sub left
        else [] in
      let found = hit s ps f sub ++ below in
      if max == 0 then [] else found ++ search_sub s ps rest (max - length found)

  unfoldable pub fl_search_rec : FlList → FlSearch R → ℕ → List FlList
  fl_search_rec parent s max =
      search_sub (with_and s (weed_parent g_regex_match parent.info parent.parents s.ands))
        (parent.info ∷ parent.parents) parent.sub max

  unfoldable pub fl_search_match_full : FlList → FlSearch R → Bool
  fl_search_match_full fl s =
      fl_search_match fl.info (with_and s (weed_parents g_regex_match fl.parents s.ands))
