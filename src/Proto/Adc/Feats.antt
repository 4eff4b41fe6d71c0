-- ===== src/Proto/Adc/Feats.antt =====
-- src/proto.c: which feature lists `adc_parse` accepts.
use ncdc.Prelude.{
  ℕ, List, [], ◌∷◌, ◌++◌, Bytes, ◌≡◌, refl, true, false, All, Lacks, ◌↔◌, ◌⊎◌, inl, inr, length,
  ◌%◌, ◌*◌, if◌then◌else◌, arith, ◌==◌, ==_false, Bool-cases,
}
use ncdc.Proto.Sid.{efcc}
use ncdc.Proto.Sid.RoundTrip.{IsSid, dfcc-efcc}
use ncdc.Proto.Adc.{
  int_in_array, check_feats, take_feats, split_word, Result, ok, err, feature_missing,
  feature_excluded, ◌>>=◌,
}

-- A feature list as it stands in a message: for each feature a sign and the four-character code.
unfoldable pub feature_text : List (ℕ × ℕ) → Bytes
feature_text [] = []
feature_text ((sign, f) ∷ fs) = sign ∷ (efcc f ++ feature_text fs)

abbrev pub IsFeature : ℕ × ℕ → Type 0
IsFeature (sign, f) = ((sign ≡ b'+') ⊎ (sign ≡ b'-')) × IsSid f

-- What a sign asks of the features that we have.
abbrev pub Accepts : List ℕ → ℕ × ℕ → Type 0
Accepts feats (sign, f) = (sign ≡ b'+' → ¬ Lacks f feats) × (sign ≡ b'-' → Lacks f feats)

int_in_array-false : (feats : List ℕ) (f : ℕ) → int_in_array feats f ≡ false → Lacks f feats
unfolding int_in_array
int_in_array-false [] f h = tt
int_in_array-false (x ∷ feats) f h = ground (arith, int_in_array-false feats f)

int_in_array-true : (feats : List ℕ) (f : ℕ) → int_in_array feats f ≡ true → ¬ Lacks f feats
unfolding int_in_array
int_in_array-true [] f h l = cc
int_in_array-true (x ∷ feats) f h l = ground (arith, int_in_array-true feats f)

abbrev IsAccepted : Result (Unit {0}) → Type 0
IsAccepted r = r ≡ ok tt

module _ (feats : List ℕ) where
  -- One round of the loop, at a feature with either sign.
  check_feats-plus :
      (f : ℕ) (s : Bytes)
      → IsSid f
      → check_feats feats (b'+' ∷ (efcc f ++ s))
        ≡ (if int_in_array feats f then check_feats feats s else err feature_missing)
  unfolding check_feats efcc
  check_feats-plus f s h = rw (dfcc-efcc f h) (ground arith)

  check_feats-minus :
      (f : ℕ) (s : Bytes)
      → IsSid f
      → check_feats feats (b'-' ∷ (efcc f ++ s))
        ≡ (if int_in_array feats f then err feature_excluded else check_feats feats s)
  unfolding check_feats efcc
  check_feats-minus f s h = rw (dfcc-efcc f h) (ground arith)

  Accepts-plus :
      (f : ℕ) (r : Result (Unit {0}))
      → IsAccepted (if int_in_array feats f then r else err feature_missing)
        ↔ (Accepts feats (b'+', f) × IsAccepted r)
  Accepts-plus f r = elim (Bool-cases (int_in_array feats f)) [
    | inl e ↦
        rw e
          ((λ h. (((λ _. int_in_array-true feats f e), (λ d. absurd (omega arith))), h)), λ h. h.1)
    | inr e ↦ rw e ((λ h. cc), λ h. absurd (h.0.0 refl (int_in_array-false feats f e)))
  ]

  Accepts-minus :
      (f : ℕ) (r : Result (Unit {0}))
      → IsAccepted (if int_in_array feats f then err feature_excluded else r)
        ↔ (Accepts feats (b'-', f) × IsAccepted r)
  Accepts-minus f r = elim (Bool-cases (int_in_array feats f)) [
    | inl e ↦ rw e ((λ h. cc), λ h. absurd (int_in_array-true feats f e (h.0.1 refl)))
    | inr e ↦
        rw e
          ((λ h. (((λ d. absurd (omega arith)), (λ _. int_in_array-false feats f e)), h)), λ h. h.1)
  ]

  check_feats_cons :
      (sign f : ℕ) (s : Bytes)
      → IsFeature (sign, f)
      → IsAccepted (check_feats feats (sign ∷ (efcc f ++ s)))
        ↔ (Accepts feats (sign, f) × IsAccepted (check_feats feats s))
  check_feats_cons sign f s (inl e, h) = rw (e, check_feats-plus f s h) (Accepts-plus f _)
  check_feats_cons sign f s (inr e, h) = rw (e, check_feats-minus f s h) (Accepts-minus f _)

  check_feats_iff :
      (fs : List (ℕ × ℕ))
      → All IsFeature fs
      → IsAccepted (check_feats feats (feature_text fs)) ↔ All (Accepts feats) fs
  unfolding feature_text
  check_feats_iff [] h = ((λ _. tt), λ _. unfold check_feats in refl)
  check_feats_iff ((sign, f) ∷ fs) (hf, h) =
      let step = check_feats_cons sign f (feature_text fs) hf in
      let rest = check_feats_iff fs h in
      ((λ e. let (a, r) = step.0 e in (a, rest.0 r)), λ (a, r). step.1 (a, rest.1 r))

length-feature_text : (fs : List (ℕ × ℕ)) → length (feature_text fs) ≡ length fs * 5
unfolding feature_text efcc
length-feature_text [] = omega arith
length-feature_text ((sign, f) ∷ fs) = omega (arith, length-feature_text fs)

split_word-append : (w s : Bytes) → Lacks b' ' w → split_word (w ++ (b' ' ∷ s)) ≡ (w, s)
unfolding split_word
split_word-append [] s h = refl
split_word-append (c ∷ w) s (hc, h) = rw (split_word-append w s h, ==_false c b' ' hc)

passed_on : (r : Result (Unit {0})) (s : Bytes) → ((r >>= λ u. ok s) ≡ ok s) ↔ IsAccepted r
passed_on (ok u) s = ((λ _. refl), λ _. refl)
passed_on (err e) s = ((λ h. cc), λ h. cc)

five_each : (fs : List (ℕ × ℕ)) → (length (feature_text fs) % 5 == 0) ≡ true
five_each fs = rw length-feature_text (ground arith)

-- The feature list of an F message, with a blank and the arguments `s` behind it, lets the message
-- through exactly when we have every feature listed with `+` and none listed with `-`. The signs
-- are `+` or `-`, and the codes are ASCII and hold no blank.
pub take_feats_iff :
    (feats : List ℕ) (fs : List (ℕ × ℕ)) (s : Bytes)
    → All IsFeature fs
    → Lacks b' ' (feature_text fs)
    → (take_feats feats (feature_text fs ++ (b' ' ∷ s)) ≡ ok s) ↔ All (Accepts feats) fs
unfolding take_feats
take_feats_iff feats fs s h blank =
    let step = passed_on (check_feats feats (feature_text fs)) s in
    let loop = check_feats_iff feats fs h in
    rw (split_word-append (feature_text fs) s blank, five_each fs)
      ((λ e. loop.0 (step.0 e)), λ a. step.1 (loop.1 a))
