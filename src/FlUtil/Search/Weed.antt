-- ===== src/FlUtil/Search/Weed.antt =====
-- src/fl_util.c: keywords are weeded out in any order of the parents.
use ncdc.Prelude.{
  List, [], ◌∷◌, Bool, Bool-cases, inl, inr, true, false, Bytes, ◌≡◌, refl, sym, ap, ◌∙◌,
}
use ncdc.FlUtil.{FlInfo}
use ncdc.FlUtil.Search.{weed, weed_parent, weed_parents}

module _ {R : Type 0} (g_regex_match : R → Bytes → Bool) where
  weed_hit :
      (p : FlInfo) (r : R) (rs : List R)
      → g_regex_match r p.name ≡ true
      → weed g_regex_match p (r ∷ rs) ≡ weed g_regex_match p rs
  unfolding weed
  weed_hit p r rs h = rw h

  weed_miss :
      (p : FlInfo) (r : R) (rs : List R)
      → g_regex_match r p.name ≡ false
      → weed g_regex_match p (r ∷ rs) ≡ r ∷ weed g_regex_match p rs
  unfolding weed
  weed_miss p r rs h = rw h

  pub weed_comm :
      (p q : FlInfo) (rs : List R)
      → weed g_regex_match p (weed g_regex_match q rs)
        ≡ weed g_regex_match q (weed g_regex_match p rs)
  unfolding weed
  weed_comm p q [] = refl
  weed_comm p q (r ∷ rs) = elim (Bool-cases (g_regex_match r p.name)) [
    | inl hp ↦ elim (Bool-cases (g_regex_match r q.name)) [
      | inl hq ↦ rw (hp, hq, weed_comm p q rs)
      | inr mq ↦ rw (hp, mq, hp, weed_comm p q rs)
    ]
    | inr mp ↦ elim (Bool-cases (g_regex_match r q.name)) [
      | inl hq ↦ rw (mp, hq, weed_comm p q rs)
      | inr mq ↦ rw (mp, mq, mp, weed_comm p q rs)
    ]
  ]

  pub weed_parents-weed :
      (p : FlInfo) (ps : List FlInfo) (rs : List R)
      → weed_parents g_regex_match ps (weed g_regex_match p rs)
        ≡ weed g_regex_match p (weed_parents g_regex_match ps rs)
  unfolding weed_parents weed_parent
  weed_parents-weed p [] rs = refl
  weed_parents-weed p (q ∷ []) rs = refl
  weed_parents-weed p (q ∷ o ∷ ps) rs =
      ap (weed_parents g_regex_match (o ∷ ps)) (weed_comm q p rs)
      ∙ weed_parents-weed p (o ∷ ps) (weed g_regex_match q rs)

  -- The keywords left of a directory are those left of its parent, less those that its own name matches.
  pub weed_parents_lem :
      (p : FlInfo) (ps : List FlInfo) (rs : List R)
      → weed_parent g_regex_match p ps (weed_parents g_regex_match ps rs)
        ≡ weed_parents g_regex_match (p ∷ ps) rs
  unfolding weed_parents weed_parent
  weed_parents_lem p [] rs = refl
  weed_parents_lem p (q ∷ ps) rs = sym (weed_parents-weed p (q ∷ ps) rs)
