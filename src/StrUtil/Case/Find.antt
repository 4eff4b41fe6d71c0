-- ===== src/StrUtil/Case/Find.antt =====
-- src/strutil.c: `str_casestr` finds the first place of the needle.
use ncdc.Prelude.{
  suc_nonzero, ℕ, suc, List, [], ◌∷◌, ◌++◌, Bool, Bool-cases, inl, inr, true, false, Option, none,
  some, ltb, ltb→lt, map, take, length, length-append, length-take, length-map, ◌≡◌, refl, ap, ◌<◌,
  ◌≤◌, arith,
}
use ncdc.StrUtil.Case.{same_start, str_casestr}

head_of : (x y : ℕ) (a b : List ℕ) → ◌≡◌ {A = List ℕ} (x ∷ a) (y ∷ b) → x ≡ y
head_of x y a b e = cc

tail_of : (x y : ℕ) (a b : List ℕ) → ◌≡◌ {A = List ℕ} (x ∷ a) (y ∷ b) → a ≡ b
tail_of x y a b e = cc

not_cons : (x : ℕ) (a : List ℕ) → ◌≡◌ {A = List ℕ} (x ∷ a) [] → ⊥
not_cons x a e = cc

not_both : (b : Bool) → b ≡ true → b ≡ false → ⊥
not_both b e e' = cc

module _ (tolower : ℕ → ℕ) where
  -- The needle stands at the start of the text, but for the case.
  abbrev pub Starts : List ℕ → List ℕ → Type 0
  Starts needle text = map tolower (take (length needle) text) ≡ map tolower needle

  same_start-Starts :
      (text needle : List ℕ) → same_start tolower text needle ≡ true → Starts needle text
  unfolding same_start
  same_start-Starts text [] h = refl
  same_start-Starts [] (y ∷ b) h = absurd (ground arith)
  same_start-Starts (x ∷ a) (y ∷ b) h = ground (arith, same_start-Starts a b)

  Starts-same_start :
      (text needle : List ℕ) → Starts needle text → same_start tolower text needle ≡ true
  unfolding same_start
  Starts-same_start text [] h = refl
  Starts-same_start [] (y ∷ b) h = absurd (omega (arith, ap length h))
  Starts-same_start (x ∷ a) (y ∷ b) h =
      ground (arith, head_of _ _ _ _ h, Starts-same_start a b (tail_of _ _ _ _ h))

  -- The first place of the needle, or none.
  abbrev pub IsFirst : List ℕ → List ℕ → Option (List ℕ) → Type 0
  IsFirst needle text none = (before rest : List ℕ) → text ≡ before ++ rest → Starts needle rest → ⊥
  IsFirst needle text (some found) =
      (before : List ℕ) × (text ≡ before ++ found)
      × Starts needle found
      × ((p r : List ℕ) → text ≡ p ++ r → length p < length before → Starts needle r → ⊥)

  Starts-length : (text needle : List ℕ) → Starts needle text → length needle ≤ length text
  Starts-length text needle h = omega (
    arith,
    ap length h,
    length-map (take (length needle) text) tolower,
    length-map needle tolower,
    length-take (length needle) text,
  )

  -- A text that is too short.
  short-IsFirst : (text needle : List ℕ) → length text < length needle → IsFirst needle text none
  short-IsFirst text needle short = λ before rest e h.
      absurd (omega (arith, ap length e, length-append before rest, Starts-length rest needle h))

  here-IsFirst : (text needle : List ℕ) → Starts needle text → IsFirst needle text (some text)
  here-IsFirst text needle h = ([], refl, h, λ p r e lt h'. absurd (omega arith))

  -- A text that does not start with the needle.
  later-IsFirst :
      (x : ℕ) (text needle : List ℕ) (r : Option (List ℕ))
      → (Starts needle (x ∷ text) → ⊥)
      → IsFirst needle text r
      → IsFirst needle (x ∷ text) r
  later-IsFirst x text needle none differs h =
      λ before rest e s. none_before x text needle differs h before rest e s
    where
      none_before :
          (x : ℕ) (text needle : List ℕ)
          → (Starts needle (x ∷ text) → ⊥)
          → IsFirst needle text none
          → (before rest : List ℕ) → x ∷ text ≡ before ++ rest
          → Starts needle rest
          → ⊥
      none_before x text needle differs h [] rest e s = differs (rw e s)
      none_before x text needle differs h (z ∷ before) rest e s =
          h before rest (tail_of x z text (before ++ rest) e) s
  later-IsFirst x text needle (some found) differs (before, whole, s, first) = (
    x ∷ before,
    ap (λ l. x ∷ l) whole,
    s,
    λ p r e lt s'. none_before x text needle differs before first p r e lt s',
  )
    where
      none_before :
          (x : ℕ) (text needle : List ℕ)
          → (Starts needle (x ∷ text) → ⊥)
          → (before : List ℕ)
          → ((p r : List ℕ) → text ≡ p ++ r → length p < length before → Starts needle r → ⊥)
          → (p r : List ℕ) → x ∷ text ≡ p ++ r
          → length p < suc (length before)
          → Starts needle r
          → ⊥
      none_before x text needle differs before first [] r e lt s = differs (rw e s)
      none_before x text needle differs before first (z ∷ p) r e lt s =
          first p r (tail_of x z text (p ++ r) e) (omega arith) s

  -- `str_casestr` returns the text from the first place on at which the needle stands, but for the case, and
  -- NULL only where it stands nowhere.
  pub str_casestr-IsFirst :
      (text needle : List ℕ) → IsFirst needle text (str_casestr tolower text needle)
  unfolding str_casestr
  str_casestr-IsFirst [] [] = here-IsFirst [] [] refl
  str_casestr-IsFirst [] (y ∷ needle) =
      rw (suc_nonzero (length needle)) (short-IsFirst [] (y ∷ needle) (omega arith))
  str_casestr-IsFirst (x ∷ text) needle =
      elim (Bool-cases (ltb (length (x ∷ text)) (length needle))) [
        | inl short ↦
            rw short
              (short-IsFirst (x ∷ text) needle (ltb→lt (length (x ∷ text)) (length needle) short))
        | inr long ↦ elim (Bool-cases (same_start tolower (x ∷ text) needle)) [
          | inl same ↦
              rw (long, same)
                (here-IsFirst (x ∷ text) needle (same_start-Starts (x ∷ text) needle same))
          | inr differ ↦
              rw (long, differ)
                (later-IsFirst x text needle (str_casestr tolower text needle)
                  (λ h.
                    not_both (same_start tolower (x ∷ text) needle)
                      (Starts-same_start (x ∷ text) needle h) differ)
                  (str_casestr-IsFirst text needle))
        ]
      ]
