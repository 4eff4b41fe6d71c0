-- ===== src/FlUtil/Change/Size.antt =====
-- src/fl_util.c: the size of a directory is that of what is in it.
use ncdc.Prelude.{
  Option-cases, All, All-append, ℕ, zero, suc, List, [], ◌∷◌, ◌++◌, Bool-cases, inl, inr, false,
  Option, none, some, ltb, take, drop, length, ◌≡◌, refl, ap, subst, ◌∙◌, ◌+◌, ◌%◌, arith,
}
use ncdc.PtrArray.{element, ptr_array_insert_before}
use ncdc.PtrArray.Insert.{ptr_array_insert_before_lem}
use ncdc.FlUtil.{FlInfo, Sub, nothing, item}
use ncdc.FlUtil.Path.{entries}
use ncdc.FlUtil.Change.{of_entries, target, resized, change_item, update_at, inserted, fl_list_add}

abbrev pub total : Sub → ℕ
total nothing = 0
total (item f sub rest) = f.size + total rest

-- What a directory has as its size, the sizes of its items, wraps as the code adds it.
abbrev pub IsSum : FlInfo → Sub → Type 0
IsSum f sub = f.isfile ≡ false → f.size ≡ total sub % 18446744073709551616

abbrev pub AllSized : Sub → Type 0
AllSized nothing = Unit
AllSized (item f sub rest) = IsSum f sub × AllSized sub × AllSized rest

abbrev pub IsSized : FlInfo × Sub → Type 0
IsSized (f, sub) = IsSum f sub × AllSized sub

-- The same number but for what has wrapped.
abbrev pub Grows : ℕ → Sub → Sub → Type 0
Grows v old new = total new % 18446744073709551616 ≡ (total old + v) % 18446744073709551616

abbrev pub entries_total : List (FlInfo × Sub) → ℕ
entries_total [] = 0
entries_total ((f, sub) ∷ rest) = f.size + entries_total rest

pub total-of_entries : (xs : List (FlInfo × Sub)) → total (of_entries xs) ≡ entries_total xs
unfolding of_entries
total-of_entries [] = refl
total-of_entries ((f, sub) ∷ rest) = ap (λ n. f.size + n) (total-of_entries rest)

pub entries_total-entries : (sub : Sub) → entries_total (entries sub) ≡ total sub
unfolding entries
entries_total-entries nothing = refl
entries_total-entries (item f sub rest) = ap (λ n. f.size + n) (entries_total-entries rest)

entries_total-append :
    (xs ys : List (FlInfo × Sub)) → entries_total (xs ++ ys) ≡ entries_total xs + entries_total ys
entries_total-append [] ys = omega arith
entries_total-append ((f, sub) ∷ xs) ys = omega (arith, entries_total-append xs ys)

-- An insertion adds the size of what is put in.
entries_total-take-drop :
    (i : ℕ) (xs : List (FlInfo × Sub)) (x : FlInfo × Sub)
    → entries_total (take i xs ++ x ∷ drop i xs) ≡ entries_total xs + x.0.size
entries_total-take-drop zero xs (f, sub) = omega arith
entries_total-take-drop (suc i) [] (f, sub) = omega arith
entries_total-take-drop (suc i) ((g, s) ∷ xs) x = omega (arith, entries_total-take-drop i xs x)

inserted-total :
    (cur : FlInfo × Sub) (before : Option ℕ) (sub : Sub)
    → total (inserted cur before sub) ≡ total sub + cur.0.size
unfolding inserted
inserted-total cur none sub =
    total-of_entries (entries sub ++ cur ∷ [])
    ∙ omega (arith, entries_total-append (entries sub) (cur ∷ []), entries_total-entries sub)
inserted-total cur (some i) sub =
    total-of_entries (ptr_array_insert_before cur (entries sub) i cur)
    ∙ (rw (ptr_array_insert_before_lem cur cur (entries sub) i)
        (elim (Bool-cases (ltb i (length (entries sub)))) [
          | inl h ↦ rw h (
              omega (arith, entries_total-take-drop i (entries sub) cur, entries_total-entries sub))
          | inr h ↦ rw h (
              omega
                (arith, entries_total-append (entries sub) (cur ∷ []), entries_total-entries sub))
        ]))

pub AllSized-of_entries : (xs : List (FlInfo × Sub)) → All IsSized xs → AllSized (of_entries xs)
unfolding of_entries
AllSized-of_entries [] h = tt
AllSized-of_entries ((f, sub) ∷ xs) ((s, b), h) = (s, b, AllSized-of_entries xs h)

pub AllSized-entries : (sub : Sub) → AllSized sub → All IsSized (entries sub)
unfolding entries
AllSized-entries nothing h = tt
AllSized-entries (item f sub rest) (s, b, h) = ((s, b), AllSized-entries rest h)

All-take-drop :
    (i : ℕ) (xs : List (FlInfo × Sub)) (x : FlInfo × Sub)
    → All IsSized xs
    → IsSized x
    → All IsSized (take i xs ++ x ∷ drop i xs)
All-take-drop zero xs x h hx = (hx, h)
All-take-drop (suc i) [] x h hx = (hx, tt)
All-take-drop (suc i) (y ∷ xs) x (hy, h) hx = (hy, All-take-drop i xs x h hx)

AllSized-inserted :
    (cur : FlInfo × Sub) (before : Option ℕ) (sub : Sub)
    → IsSized cur
    → AllSized sub
    → AllSized (inserted cur before sub)
unfolding inserted
AllSized-inserted cur none sub hc h =
    AllSized-of_entries (entries sub ++ cur ∷ [])
      (All-append IsSized (entries sub) (cur ∷ []) (AllSized-entries sub h) (hc, tt))
AllSized-inserted cur (some i) sub hc h =
    AllSized-of_entries (ptr_array_insert_before cur (entries sub) i cur) (
      rw (ptr_array_insert_before_lem cur cur (entries sub) i)
        (elim (Bool-cases (ltb i (length (entries sub)))) [
          | inl e ↦ rw e (All-take-drop i (entries sub) cur (AllSized-entries sub h) hc)
          | inr e ↦
              rw e (All-append IsSized (entries sub) (cur ∷ []) (AllSized-entries sub h) (hc, tt))
        ]))

-- A step of a path leads to a directory.
target-step :
    (i : ℕ) (path : List ℕ) (sub t : Sub)
    → target (i ∷ path) sub ≡ some t
    → (e : FlInfo × Sub) × (element (entries sub) i ≡ some e)
      × (e.0.isfile ≡ false)
      × (target path e.1 ≡ some t)
unfolding target
target-step i path sub t h = elim (Option-cases (element (entries sub) i)) [
  | inl missing ↦ absurd (none-some (rw (target, missing) at h))
  | inr ((f, s), found) ↦ elim (Bool-cases f.isfile) [
    | inl file ↦ absurd (none-some (rw (target, found, file) at h))
    | inr is_dir ↦ ((f, s), found, is_dir, rw (target, found, is_dir) at h)
  ]
]
  where
    none-some : {t : Sub} → ◌≡◌ {A = Option Sub} none (some t) → ⊥
    none-some e = cc

change_item-IsSized :
    (i : ℕ) (sub : Sub) (e : FlInfo × Sub) (change : FlInfo × Sub → FlInfo × Sub) (v : ℕ)
    → element (entries sub) i ≡ some e
    → (change e).0.size ≡ (e.0.size + v) % 18446744073709551616
    → IsSized (change e)
    → AllSized sub
    → AllSized (change_item i change sub) × Grows v sub (change_item i change sub)
unfolding entries change_item
change_item-IsSized i nothing e change v found grown sized h = absurd (none-some e found)
  where
    none-some : (e : FlInfo × Sub) → ◌≡◌ {A = Option (FlInfo × Sub)} none (some e) → ⊥
    none-some e h = cc
change_item-IsSized zero (item f sub rest) e change v found grown sized (s, b, h) =
    let same : e ≡ (f, sub) = some_injective found in
    let sized' = subst (λ x. IsSized (change x)) same sized in
    let grown' =
      subst (λ x. (change x).0.size ≡ (x.0.size + v) % 18446744073709551616) same grown in
    ((sized'.0, sized'.1, h), omega (arith, grown'))
  where
    some_injective : {a b : FlInfo × Sub} → some a ≡ some b → b ≡ a
    some_injective h = cc
change_item-IsSized (suc i) (item f sub rest) e change v found grown sized (s, b, h) =
    let (later, more) = change_item-IsSized i rest e change v found grown sized h in
    ((s, b, later), omega (arith, more))

AllSized-element :
    (i : ℕ) (sub : Sub) (e : FlInfo × Sub)
    → element (entries sub) i ≡ some e
    → AllSized sub
    → IsSized e
unfolding entries
AllSized-element i nothing e found h = absurd (none-some e found)
  where
    none-some : (e : FlInfo × Sub) → ◌≡◌ {A = Option (FlInfo × Sub)} none (some e) → ⊥
    none-some e h = cc
AllSized-element zero (item f sub rest) e found (s, b, h) =
    subst IsSized (some_injective found) (s, b)
  where
    some_injective : {a b : FlInfo × Sub} → some a ≡ some b → a ≡ b
    some_injective h = cc
AllSized-element (suc i) (item f sub rest) e found (s, b, h) = AllSized-element i rest e found h

update_at-size :
    (v : ℕ) (change : Sub → Sub) (path : List ℕ) (e : FlInfo × Sub)
    → (update_at v change path e).0.size ≡ (e.0.size + v) % 18446744073709551616
unfolding update_at resized
update_at-size v change [] (f, sub) = refl
update_at-size v change (i ∷ path) (f, sub) = refl

pub update_at-IsSized :
    (v : ℕ) (change : Sub → Sub) (path : List ℕ) (root : FlInfo × Sub) (t : Sub)
    → target path root.1 ≡ some t
    → Grows v t (change t)
    → (AllSized t → AllSized (change t))
    → IsSized root
    → IsSized (update_at v change path root)
unfolding target update_at resized
update_at-IsSized v change [] (f, sub) t found grows keeps (s, h) =
    let same : t ≡ sub = some_injective found in
    let grows' = subst (λ x. Grows v x (change x)) same grows in
    (
      λ is_dir. omega (arith, s is_dir, grows'),
      subst (λ x. AllSized x → AllSized (change x)) same keeps h,
    )
  where
    some_injective : {a b : Sub} → some a ≡ some b → b ≡ a
    some_injective h = cc
update_at-IsSized v change (i ∷ path) (f, sub) t found grows keeps (s, h) =
    let (e, at, is_dir, rest) = target-step i path sub t found in
    let inner =
      update_at-IsSized v change path e t rest grows keeps (AllSized-element i sub e at h) in
    let (all, more) =
      change_item-IsSized i sub e (update_at v change path) v at (update_at-size v change path e)
        inner h in
    (λ dir. omega (arith, s dir, more), all)

-- Where the size of every directory, also in what is added, is the sum of the sizes of its items modulo
-- 2 ^ 64, and the parent is a directory that is reached from the root, `fl_list_add` keeps it so.
pub fl_list_add-IsSized :
    (parent : List ℕ) (cur : FlInfo × Sub) (before : Option ℕ) (root : FlInfo × Sub) (t : Sub)
    → target parent root.1 ≡ some t
    → IsSized cur
    → IsSized root
    → IsSized (fl_list_add parent cur before root)
unfolding fl_list_add
fl_list_add-IsSized parent cur before root t found sized h =
    let more : Grows cur.0.size t (inserted cur before t) =
      ap (λ n. n % 18446744073709551616) (inserted-total cur before t) in
    update_at-IsSized cur.0.size (inserted cur before) parent root t found more
      (AllSized-inserted cur before t sized) h
