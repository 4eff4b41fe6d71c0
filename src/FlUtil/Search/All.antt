-- ===== src/FlUtil/Search/All.antt =====
-- src/fl_util.c: `fl_search_rec` returns what `fl_search_match_full` accepts.
use ncdc.Prelude.{
  suc_nonzero, ℕ, zero, suc, List, [], ◌∷◌, ◌++◌, Bool, Bool-cases, inl, inr, true, false, not,
  ◌&&◌, if◌then◌else◌, Bytes, length, take, ltb, ltb-false→le, append_assoc, length-append, ◌≡◌,
  refl, sym, ap, ◌∙◌, ◌-◌, ◌≤◌, arith,
}
use ncdc.FlUtil.{FlInfo, Sub, nothing, item, FlList}
use ncdc.FlUtil.Search.{
  FlSearch, with_and, weed_parent, weed_parents, fl_search_match, hit, search_sub, fl_search_rec,
  fl_search_match_full,
}
use ncdc.FlUtil.Search.Weed.{weed_parents_lem}

-- All items of an array whose items have these parents: each before what is below it.
pub items : List FlInfo → Sub → List FlList
items ps nothing = []
items ps (item f sub rest) =
    record { parents = ps; info = f; sub = sub }
    ∷ ((if f.isfile then [] else items (f ∷ ps) sub) ++ items ps rest)

pub matching : (FlList → Bool) → List FlList → List FlList
matching p [] = []
matching p (x ∷ xs) = if p x then x ∷ matching p xs else matching p xs

matching-append :
    (p : FlList → Bool) (xs ys : List FlList)
    → matching p (xs ++ ys) ≡ matching p xs ++ matching p ys
unfolding matching
matching-append p [] ys = refl
matching-append p (x ∷ xs) ys = elim (Bool-cases (p x)) [
  | inl h ↦ rw (h, matching-append p xs ys)
  | inr h ↦ rw (h, matching-append p xs ys)
]

minus_zero : (n : ℕ) → n - 0 ≡ n
minus_zero n = omega arith

minus_suc : (n m : ℕ) → suc n - suc m ≡ n - m
minus_suc n m = omega arith

take_nil : (n : ℕ) → take {A = FlList} n [] ≡ []
take_nil zero = refl
take_nil (suc n) = refl

take_all : (n : ℕ) (xs : List FlList) → length xs ≤ n → take n xs ≡ xs
take_all n [] le = take_nil n
take_all zero (x ∷ xs) le = absurd (omega arith)
take_all (suc n) (x ∷ xs) le = ap (λ l. x ∷ l) (take_all n xs (omega arith))

take-append :
    (n : ℕ) (xs ys : List FlList)
    → take n (xs ++ ys) ≡ take n xs ++ take (n - length (take n xs)) ys
take-append zero [] ys = refl
take-append zero (x ∷ xs) ys = refl
take-append (suc n) [] ys = rw (minus_zero (suc n)) refl
take-append (suc n) (x ∷ xs) ys =
    rw (minus_suc n (length (take n xs))) (ap (λ l. x ∷ l) (take-append n xs ys))

-- What one round of the loop leaves, by what it finds itself, below the item and behind it.
take_parts :
    (n : ℕ) (h b c : List FlList)
    → length h ≤ n
    → (h ++ take (n - length h) b) ++ take (n - length (h ++ take (n - length h) b)) c
      ≡ take n (h ++ (b ++ c))
take_parts n h b c le =
    let m = n - length h in
    let e : n - length (h ++ take m b) ≡ m - length (take m b) =
      omega (arith, length-append h (take m b)) in
    append_assoc h (take m b) (take (n - length (h ++ take m b)) c)
    ∙ ap (λ k. h ++ (take m b ++ take k c)) e
    ∙ ap (λ l. h ++ l) (sym (take-append m b c))
    ∙ ap (λ l. l ++ take (n - length l) (b ++ c)) (sym (take_all n h le))
    ∙ sym (take-append n h (b ++ c))

or_nothing :
    (b : Bool) (m : ℕ) (xs : List FlList)
    → (if b && ltb 0 m then take m xs else []) ≡ take m (if b then xs else [])
or_nothing true m xs = elim (Bool-cases (ltb 0 m)) [
  | inl h ↦ rw h refl
  | inr h ↦ rw (h, zero_of m (ltb-false→le 0 m h)) refl
]
  where
    zero_of : (m : ℕ) → m ≤ 0 → m ≡ 0
    zero_of m h = omega arith
or_nothing false m xs = sym (take_nil m)

module _ {R : Type 0} (g_regex_match : R → Bytes → Bool) (same_ascii : Bytes → Bytes → Bool)
    (s : FlSearch R) where
  abbrev full : FlList → Bool
  full e = fl_search_match_full g_regex_match same_ascii e s

  -- The search with the keywords that are left for the items of a directory.
  abbrev left_for : List FlInfo → FlSearch R
  left_for ps = with_and s (weed_parents g_regex_match ps s.ands)

  left_for-below :
      (f : FlInfo) (ps : List FlInfo)
      → with_and (left_for ps) (weed_parent g_regex_match f ps (left_for ps).ands)
        ≡ left_for (f ∷ ps)
  unfolding with_and weed_parents
  left_for-below f ps = ap (with_and s) (weed_parents_lem g_regex_match f ps s.ands)

  matching-hit :
      (ps : List FlInfo) (f : FlInfo) (sub : Sub) (rest : List FlList)
      → matching full (record { parents = ps; info = f; sub = sub } ∷ rest)
        ≡ hit g_regex_match same_ascii (left_for ps) ps f sub ++ matching full rest
  unfolding matching hit fl_search_match_full
  matching-hit ps f sub rest =
      elim (Bool-cases (fl_search_match g_regex_match same_ascii f (left_for ps))) [
        | inl h ↦ rw h refl
        | inr h ↦ rw h refl
      ]

  length-hit :
      (ps : List FlInfo) (f : FlInfo) (sub : Sub)
      → length (hit g_regex_match same_ascii (left_for ps) ps f sub) ≤ 1
  unfolding hit
  length-hit ps f sub =
      elim (Bool-cases (fl_search_match g_regex_match same_ascii f (left_for ps))) [
        | inl h ↦ rw h (omega arith)
        | inr h ↦ rw h (omega arith)
      ]

  matching-below :
      (isfile : Bool) (xs ys : List FlList)
      → matching full ((if isfile then [] else xs) ++ ys)
        ≡ (if not isfile then matching full xs else []) ++ matching full ys
  matching-below true xs ys = refl
  matching-below false xs ys = matching-append full xs ys

  -- The round of one item, when the loop goes right below it and behind it.
  search-item :
      (ps : List FlInfo) (f : FlInfo) (sub rest : Sub) (max : ℕ)
      → ((m : ℕ)
          → search_sub g_regex_match same_ascii (left_for (f ∷ ps)) (f ∷ ps) sub m
            ≡ take m (matching full (items (f ∷ ps) sub)))
      → ((m : ℕ)
          → search_sub g_regex_match same_ascii (left_for ps) ps rest m
            ≡ take m (matching full (items ps rest)))
      → search_sub g_regex_match same_ascii (left_for ps) ps (item f sub rest) (suc max)
        ≡ take (suc max) (matching full (items ps (item f sub rest)))
  unfolding search_sub items
  search-item ps f sub rest max below behind =
      let h = hit g_regex_match same_ascii (left_for ps) ps f sub in
      let b = if not f.isfile then matching full (items (f ∷ ps) sub) else [] in
      let c = matching full (items ps rest) in
      rw
        (
          suc_nonzero max,
          left_for-below f ps,
          below (suc max - length h),
          or_nothing (not f.isfile) (suc max - length h) (matching full (items (f ∷ ps) sub)),
          behind (suc max - length (h ++ take (suc max - length h) b)),
          matching-hit ps f sub ((if f.isfile then [] else items (f ∷ ps) sub) ++ items ps rest),
          matching-below f.isfile (items (f ∷ ps) sub) (items ps rest),
        )
        (take_parts (suc max) h b c (omega (arith, length-hit ps f sub)))

  search_sub-all :
      (ps : List FlInfo) (sub : Sub) (max : ℕ)
      → search_sub g_regex_match same_ascii (left_for ps) ps sub max
        ≡ take max (matching full (items ps sub))
  unfolding search_sub items matching
  search_sub-all ps nothing max = sym (take_nil max)
  search_sub-all ps (item f sub rest) zero = refl
  search_sub-all ps (item f sub rest) (suc max) =
      search-item ps f sub rest max (search_sub-all (f ∷ ps) sub) (search_sub-all ps rest)

  -- Called on the root with all keywords, `fl_search_rec` returns the first `max` of the items that
  -- `fl_search_match_full` accepts, in the order in which a directory stands before what is in it.
  pub fl_search_rec-all :
      (root : FlInfo) (sub : Sub) (max : ℕ)
      → fl_search_rec g_regex_match same_ascii
          (record { parents = []; info = root; sub = sub })
          s
          max
        ≡ take max (matching full (items (root ∷ []) sub))
  unfolding fl_search_rec weed_parents weed_parent
  fl_search_rec-all root sub max = search_sub-all (root ∷ []) sub max
