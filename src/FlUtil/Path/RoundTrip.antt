-- ===== src/FlUtil/Path/RoundTrip.antt =====
-- src/fl_util.c: `fl_list_from_path` finds what `fl_list_path` names.
use Prim.Native.Nat.{Ordering}
use ncdc.Prelude.{
  ℕ, suc, List, [], ◌∷◌, ◌++◌, append-nil, append_assoc, false, some, is_empty, Bytes, length,
  length-append, ◌≡◌, refl, subst, sym, ap, ◌∙◌, ◌+◌, ◌-◌, ◌≤◌, arith,
}
use ncdc.PtrArray.{element}
use ncdc.FlUtil.{FlInfo, Sub, FlList}
use ncdc.FlUtil.Path.{
  entries, child, from_path, fl_list_from_path, skip_slashes, name_part, slash_part, build,
  fl_list_path,
}
use ncdc.FlUtil.Path.Text.{
  Name-IsStart, IsName, IsStart, name-IsStart, skip_slashes-name, name_part-name, slash_part-name,
}
use ncdc.FlUtil.Path.File.{IsListing, IsStrcmp, fl_list_file_lem}

not_empty : (n t : Bytes) → IsName n → is_empty (n ++ t) ≡ false
not_empty [] t h = absurd h
not_empty (c ∷ n) t h = refl

name_length : (n : Bytes) → IsName n → 1 ≤ length n
name_length [] h = absurd h
name_length (c ∷ n) h = omega arith

module _ (chars : Bytes → List ℕ) (tolower : ℕ → ℕ) (strcmp : Bytes → Bytes → Ordering) where
  module _ (law : IsStrcmp chars tolower strcmp) where
    -- A path that begins with the name of an item and ends there.
    from_path-last :
        (fuel : ℕ) (dir : FlList) (i : ℕ) (e : FlInfo × Sub)
        → IsListing chars tolower strcmp dir
        → IsName e.0.name
        → element (entries dir.sub) i ≡ some e
        → from_path chars tolower strcmp (suc fuel) dir e.0.name ≡ some (some (child dir e))
    unfolding from_path
    from_path-last fuel dir i e ok name at =
        let n = e.0.name in
        let whole : skip_slashes n ≡ n =
          subst (λ l. skip_slashes l ≡ l) (append-nil n) (skip_slashes-name n [] name) in
        let first : name_part n ≡ n =
          subst (λ l. name_part l ≡ n) (append-nil n) (name_part-name n [] name tt) in
        let end : slash_part n ≡ [] =
          subst (λ l. slash_part l ≡ []) (append-nil n) (slash_part-name n [] name tt) in
        let some_name : is_empty n ≡ false =
          subst (λ l. is_empty l ≡ false) (append-nil n) (not_empty n [] name) in
        rw
          (
            from_path,
            whole,
            some_name,
            first,
            fl_list_file_lem chars tolower strcmp law dir i e ok at,
            whole,
            end,
          )
          refl

    -- A path that begins with the name of an item and goes on.
    from_path-next :
        (fuel : ℕ) (dir : FlList) (i : ℕ) (e : FlInfo × Sub) (rest : Bytes)
        → IsListing chars tolower strcmp dir
        → IsName e.0.name
        → e.0.isfile ≡ false
        → element (entries dir.sub) i ≡ some e
        → from_path chars tolower strcmp (suc fuel) dir (e.0.name ++ 47 ∷ rest)
          ≡ from_path chars tolower strcmp fuel (child dir e) rest
    unfolding from_path child
    from_path-next fuel dir i e rest ok name is_dir at =
        let n = e.0.name in
        rw
          (
            from_path,
            skip_slashes-name n (47 ∷ rest) name,
            not_empty n (47 ∷ rest) name,
            name_part-name n (47 ∷ rest) name refl,
            fl_list_file_lem chars tolower strcmp law dir i e ok at,
            skip_slashes-name n (47 ∷ rest) name,
            slash_part-name n (47 ∷ rest) name refl,
            is_dir,
          )
          refl

    from_path-slash :
        (fuel : ℕ) (dir : FlList) (path : Bytes)
        → from_path chars tolower strcmp (suc fuel) dir (47 ∷ path)
          ≡ from_path chars tolower strcmp (suc fuel) dir path
    unfolding from_path skip_slashes
    from_path-slash fuel dir path = refl

-- What `build` puts before a path.
dirs : List FlInfo → Bytes
dirs [] = []
dirs (p ∷ []) = []
dirs (p ∷ q ∷ ps) = dirs (q ∷ ps) ++ (p.name ++ 47 ∷ [])

module _ (chars : Bytes → List ℕ) (tolower : ℕ → ℕ) (strcmp : Bytes → Bytes → Ordering)
    (top : FlInfo) (sub : Sub) where
  abbrev pub root : FlList
  root = record { parents = []; info = top; sub = sub }

  -- What is below the root: the directories on the way are sorted, none of them is a file, and what they
  -- hold have names.
  pub data Below : FlList → Type 0 where
    here : Below root
    down :
        {dir : FlList} (i : ℕ) (e : FlInfo × Sub)
        → Below dir
        → dir.info.isfile ≡ false
        → IsListing chars tolower strcmp dir
        → IsName e.0.name
        → element (entries dir.sub) i ≡ some e
        → Below (child dir e)

  depth : {fl : FlList} → Below fl → ℕ
  depth here = 0
  depth (down i e b is_dir ok name at) = suc (depth b)

  depth_le : {fl : FlList} (b : Below fl) → depth b ≤ length (dirs (fl.info ∷ fl.parents))
  unfolding depth dirs child
  depth_le here = omega arith
  depth_le (down {dir} i e b is_dir ok name at) = omega (
    arith,
    depth_le b,
    name_length e.0.name name,
    length-append (dirs (dir.info ∷ dir.parents)) (e.0.name ++ 47 ∷ []),
    length-append e.0.name (47 ∷ []),
  )

  dirs-IsStart :
      {fl : FlList}
      → Below fl
      → (x : Bytes) → IsStart x
      → IsStart (dirs (fl.info ∷ fl.parents) ++ x)
  unfolding dirs child
  dirs-IsStart here x h = h
  dirs-IsStart (down {dir} i e b is_dir ok name at) x h =
      rw (append_assoc (dirs (dir.info ∷ dir.parents)) (e.0.name ++ 47 ∷ []) x) (
        dirs-IsStart b ((e.0.name ++ 47 ∷ []) ++ x) (
          subst IsStart (sym (append_assoc e.0.name (47 ∷ []) x))
            (name-IsStart e.0.name (47 ∷ x) name)))

  -- From the root to a directory.
  from_path-dirs :
      IsStrcmp chars tolower strcmp
      → {dir : FlList} (b : Below dir) (fuel : ℕ) (rest : Bytes) → dir.info.isfile ≡ false
      → from_path chars tolower strcmp (depth b + fuel) root (dirs (dir.info ∷ dir.parents) ++ rest)
        ≡ from_path chars tolower strcmp fuel dir rest
  unfolding depth dirs child
  from_path-dirs law here fuel rest is_dir =
      ap (λ n. from_path chars tolower strcmp n root rest) (zero_plus fuel)
    where
      zero_plus : (n : ℕ) → 0 + n ≡ n
      zero_plus n = omega arith
  from_path-dirs law (down {dir} i e b dir_is_dir ok name at) fuel rest is_dir =
      let e1 : suc (depth b) + fuel ≡ depth b + suc fuel = omega arith in
      rw
        (
          e1,
          append_assoc (dirs (dir.info ∷ dir.parents)) (e.0.name ++ 47 ∷ []) rest,
          append_assoc e.0.name (47 ∷ []) rest,
          from_path-dirs law b (suc fuel) (e.0.name ++ 47 ∷ rest) dir_is_dir,
        )
        (from_path-next chars tolower strcmp law fuel dir i e rest ok name is_dir at)

  -- `g_build_filename` puts one slash between a name, or the root, and what does not begin with one.
  module _ (g_build_filename : Bytes → Bytes → Bytes) where
    pub record IsBuild : Type 0 where
      pub between :
          (n path : Bytes) → IsName n → IsStart path → g_build_filename n path ≡ n ++ 47 ∷ path
      pub at_root : (path : Bytes) → IsStart path → g_build_filename (47 ∷ []) path ≡ 47 ∷ path

    build-dirs :
        IsBuild
        → {fl : FlList} → Below fl
        → (path : Bytes) → IsStart path
        → build g_build_filename (fl.info ∷ fl.parents) path ≡ dirs (fl.info ∷ fl.parents) ++ path
    unfolding build dirs child
    build-dirs law here path start = refl
    build-dirs law (down {dir} i e b is_dir ok name at) path start =
        rw
          (
            law.between e.0.name path name start,
            build-dirs law b (e.0.name ++ 47 ∷ path) (name-IsStart e.0.name (47 ∷ path) name),
            append_assoc (dirs (dir.info ∷ dir.parents)) (e.0.name ++ 47 ∷ []) path,
            append_assoc e.0.name (47 ∷ []) path,
          )
          refl

    from_path-path :
        IsStrcmp chars tolower strcmp
        → {dir : FlList} (i : ℕ) (e : FlInfo × Sub) (b : Below dir) → dir.info.isfile ≡ false
        → IsListing chars tolower strcmp dir
        → IsName e.0.name
        → element (entries dir.sub) i ≡ some e
        → (fuel : ℕ) → depth b ≤ fuel
        → from_path chars tolower strcmp (suc fuel) root (dirs (dir.info ∷ dir.parents) ++ e.0.name)
          ≡ some (some (child dir e))
    from_path-path law {dir} i e b is_dir ok name at fuel enough =
        let e1 : suc fuel ≡ depth b + suc (fuel - depth b) = omega arith in
        rw (e1, from_path-dirs law b (suc (fuel - depth b)) e.0.name is_dir)
          (from_path-last chars tolower strcmp law (fuel - depth b) dir i e ok name at)

    -- What `fl_list_path` returns below the root.
    path-child :
        IsBuild
        → {dir : FlList} (e : FlInfo × Sub) (b : Below dir) → IsName e.0.name
        → fl_list_path g_build_filename (child dir e)
          ≡ 47 ∷ (dirs (dir.info ∷ dir.parents) ++ e.0.name)
    unfolding fl_list_path child
    path-child build_law {dir} e b name =
        ap (g_build_filename (47 ∷ []))
          (build-dirs build_law b e.0.name (Name-IsStart e.0.name name))
        ∙ build_law.at_root (dirs (dir.info ∷ dir.parents) ++ e.0.name)
            (dirs-IsStart b e.0.name (Name-IsStart e.0.name name))

    path-root :
        (fuel : ℕ) → from_path chars tolower strcmp (suc fuel) root (47 ∷ []) ≡ some (some root)
    unfolding from_path skip_slashes
    path-root fuel = refl

    -- With the laws of `strcmp` and `g_build_filename`, `fl_list_from_path` finds the root, and each item that
    -- is reached from it through sorted directories without a name twice, by names that are not empty and
    -- have no slash, by the path that `fl_list_path` gives it.
    pub fl_list_from_path-fl_list_path :
        IsStrcmp chars tolower strcmp
        → IsBuild
        → (fl : FlList) → Below fl
        → fl_list_from_path chars tolower strcmp root (fl_list_path g_build_filename fl)
          ≡ some (some fl)
    unfolding fl_list_from_path fl_list_path
    fl_list_from_path-fl_list_path law build_law fl here = path-root 1
    fl_list_from_path-fl_list_path law build_law fl (down {dir} i e b is_dir ok name at) =
        let x = dirs (dir.info ∷ dir.parents) ++ e.0.name in
        rw (path-child build_law e b name) (
          from_path-slash chars tolower strcmp law (length (47 ∷ x)) root x
          ∙ from_path-path law i e b is_dir ok name at (length (47 ∷ x))
              (omega (arith, depth_le b, length-append (dirs (dir.info ∷ dir.parents)) e.0.name)))
