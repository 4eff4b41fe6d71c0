-- ===== src/FlUtil/Path/Fuel.antt =====
-- src/fl_util.c: `fl_list_from_path` comes to an end.
use Prim.Native.Nat.{Ordering}
use ncdc.Prelude.{
  ℕ, zero, suc, List, [], ◌∷◌, Bool, Bool-cases, inl, inr, true, false, Option-cases, Option, none,
  some, ◌==◌, is_empty, drop, Bytes, length, if◌then◌else◌, ◌≡◌, refl, ◌∙◌, ◌<◌, ◌≤◌, arith,
}
use ncdc.FlUtil.{FlList}
use ncdc.FlUtil.Path.{
  fl_list_file, from_path, fl_list_from_path, skip_slashes, name_part, slash_part,
}

length-skip_slashes : (path : Bytes) → length (skip_slashes path) ≤ length path
unfolding skip_slashes
length-skip_slashes [] = omega arith
length-skip_slashes (c ∷ path) = elim (Bool-cases (c == 47)) [
  | inl h ↦ rw h (omega (arith, length-skip_slashes path))
  | inr h ↦ rw h (omega arith)
]

length-slash_part : (path : Bytes) → length (slash_part path) ≤ length path
unfolding slash_part
length-slash_part [] = omega arith
length-slash_part (c ∷ path) = elim (Bool-cases (c == 47)) [
  | inl h ↦ rw h (omega arith)
  | inr h ↦ rw h (omega (arith, length-slash_part path))
]

length-drop_one : (s : Bytes) → is_empty s ≡ false → length (drop 1 s) < length s
length-drop_one [] h = absurd (true-false h)
  where
    true-false : true ≡ false → ⊥
    true-false e = cc
length-drop_one (c ∷ s) h = omega arith

if_false {ℓ} : {A : Type ℓ} (b : Bool) (x y : A) → b ≡ false → (if b then x else y) ≡ y
if_false b x y h = rw h refl

module _ (chars : Bytes → List ℕ) (tolower : ℕ → ℕ) (strcmp : Bytes → Bytes → Ordering) where
  from_path-returns :
      (fuel : ℕ) (root : FlList) (path : Bytes)
      → length path < fuel
      → (r : Option FlList) × (from_path chars tolower strcmp fuel root path ≡ some r)
  unfolding from_path
  from_path-returns zero root path h = absurd (omega arith)
  from_path-returns (suc fuel) root path h = elim (Bool-cases (is_empty (skip_slashes path))) [
    | inl ends ↦ (some root, rw (from_path, ends) refl)
    | inr goes_on ↦
        elim (Option-cases
          (fl_list_file chars tolower strcmp root (name_part (skip_slashes path)))) [
            | inl missing ↦ (none, rw (from_path, goes_on, missing) refl)
            | inr (n, found) ↦ elim (Bool-cases (is_empty (slash_part (skip_slashes path)))) [
              | inl last ↦ (some n, rw (from_path, goes_on, found, last) refl)
              | inr more ↦ elim (Bool-cases (n.info.isfile)) [
                | inl file ↦ (none, rw (from_path, goes_on, found, more, file) refl)
                | inr dir ↦
                    let rest = drop 1 (slash_part (skip_slashes path)) in
                    let (r, e) = from_path-returns fuel n rest (
                      omega (
                        arith,
                        length-drop_one (slash_part (skip_slashes path)) more,
                        length-slash_part (skip_slashes path),
                        length-skip_slashes path,
                      )) in
                    (r, rw (from_path, goes_on, found, more) (if_false n.info.isfile _ _ dir ∙ e))
              ]
            ]
          ]
  ]

  -- The recursion of `fl_list_from_path` ends on every tree and every path, within one call more than the
  -- path has characters: it returns an item or NULL.
  pub fl_list_from_path-returns :
      (root : FlList) (path : Bytes)
      → (r : Option FlList) × (fl_list_from_path chars tolower strcmp root path ≡ some r)
  unfolding fl_list_from_path
  fl_list_from_path-returns root path =
      from_path-returns (suc (length path)) root path (omega arith)
