-- ===== src/FlUtil/Search/Tests.antt =====
-- src/fl_util.c: a search through a directory with two files, and one of them in a directory of its own.
use ncdc.Prelude.{
  List, [], ◌∷◌, true, false, some, Bytes, codes, starts_with, same_text, take, ◌≡◌, refl,
}
use ncdc.FlUtil.{FlInfo, Sub, nothing, item, FlList}
use ncdc.FlUtil.Search.{
  FlSearch, above, fl_search_rec, fl_search_match, fl_search_match_name, fl_search_match_full,
  search_sub, hit, weed_parent, weed, all_match, has_ext, one_of, after_last, size_match, with_and,
}
use ncdc.FlUtil.Search.All.{items, matching, fl_search_rec-all}

abbrev root : FlInfo
root = record { name = []; size = 12; isfile = false; hastth = false }

abbrev music : FlInfo
music = record { name = codes "music"; size = 7; isfile = false; hastth = false }

abbrev song : FlInfo
song = record { name = codes "song.ogg"; size = 7; isfile = true; hastth = true }

abbrev music_note : FlInfo
music_note = record { name = codes "music.txt"; size = 5; isfile = true; hastth = true }

abbrev tree : Sub
tree = item music (item song nothing nothing) (item music_note nothing nothing)

-- Keywords that match the start of a name.
abbrev search_for : FlSearch Bytes
search_for = record {
  sizem = above;
  filedir = 3;
  size = 4;
  ext = [];
  ands = codes "mu" ∷ [];
  nots = some (codes "x");
}

abbrev found : List FlList
found =
    record { parents = root ∷ []; info = music; sub = item song nothing nothing }
    ∷ record { parents = music ∷ root ∷ []; info = song; sub = nothing }
    ∷ []

-- The song is found by the name of its directory.
two_found :
    fl_search_rec starts_with same_text
      (record { parents = []; info = root; sub = tree })
      search_for
      2
    ≡ found
unfolding fl_search_rec search_sub hit fl_search_match fl_search_match_name weed_parent weed
    all_match has_ext one_of after_last size_match with_and
two_found = refl

fl_search_rec-all_example :
    fl_search_rec starts_with same_text
      (record { parents = []; info = root; sub = tree })
      search_for
      2
    ≡ take 2 (
        matching
          (λ e. fl_search_match_full starts_with same_text e search_for)
          (items (root ∷ []) tree))
fl_search_rec-all_example = fl_search_rec-all starts_with same_text search_for root tree 2
