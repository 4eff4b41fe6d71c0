-- ===== src/Tth/Cut.antt =====
-- src/tth.c: the leaves of a text, as the tree hash defines them.
use ncdc.Prelude.{
  ℕ, zero, suc, List, [], ◌∷◌, ◌++◌, Bytes, Bool, true, false, leb, All, take, drop, length,
  length-append, append_assoc, append-nil, ◌≡◌, refl, ap, ap₂, ◌∙◌, ◌<◌, ◌≤◌, arith,
}
use ncdc.Tth.Update.{concat}

-- The leaves of a text: 1024 bytes each, but the last one may be shorter; the empty text has one.
unfoldable pub cut : ℕ → Bytes → List Bytes
cut zero d = d ∷ []
cut (suc n) d = elim (leb (length d) 1024) [
  | true ↦ d ∷ []
  | false ↦ take 1024 d ∷ cut n (drop 1024 d)
]

at_true :
    (b : Bool) (x y : List Bytes)
    → b ≡ true
    → ◌≡◌ {A = List Bytes} (elim b [ true ↦ x | false ↦ y ]) x
at_true true x y h = refl
at_true false x y h = cc

at_false :
    (b : Bool) (x y : List Bytes)
    → b ≡ false
    → ◌≡◌ {A = List Bytes} (elim b [ true ↦ x | false ↦ y ]) y
at_false true x y h = cc
at_false false x y h = refl

pub cut-last : (n : ℕ) (d : Bytes) → length d ≤ 1024 → cut n d ≡ d ∷ []
unfolding cut
cut-last zero d h = refl
cut-last (suc n) d h = at_true (leb (length d) 1024) _ _ (le→leb (length d) 1024 h)
  where
    le→leb : (a b : ℕ) → a ≤ b → leb a b ≡ true
    le→leb a b h = ground arith

take_front : (c e : Bytes) (n : ℕ) → length c ≡ n → take n (c ++ e) ≡ c
take_front [] e zero h = refl
take_front [] e (suc n) h = absurd (omega arith)
take_front (x ∷ c) e zero h = absurd (omega arith)
take_front (x ∷ c) e (suc n) h = ap (λ t. x ∷ t) (take_front c e n (omega arith))

drop_front : (c e : Bytes) (n : ℕ) → length c ≡ n → drop n (c ++ e) ≡ e
drop_front [] e zero h = refl
drop_front [] e (suc n) h = absurd (omega arith)
drop_front (x ∷ c) e zero h = absurd (omega arith)
drop_front (x ∷ c) e (suc n) h = drop_front c e n (omega arith)

cut-more :
    (n : ℕ) (c e : Bytes) → length c ≡ 1024 → 0 < length e → cut (suc n) (c ++ e) ≡ c ∷ cut n e
unfolding cut
cut-more n c e len more =
    at_false (leb (length (c ++ e)) 1024) _ _
      (gt→leb (length (c ++ e)) 1024 (omega (arith, length-append c e)))
    ∙ ap₂ (λ a b. a ∷ cut n b) (take_front c e 1024 len) (drop_front c e 1024 len)
  where
    gt→leb : (a b : ℕ) → b < a → leb a b ≡ false
    gt→leb a b h = ground arith

-- Leaves and a shorter one are cut apart again.
pub cut-concat :
    (fulls : List Bytes) (p : Bytes) (n : ℕ)
    → All (λ c. length c ≡ 1024) fulls
    → length p ≤ 1024
    → 0 < length p
    → length fulls ≤ n
    → cut n (concat fulls ++ p) ≡ fulls ++ p ∷ []
unfolding concat
cut-concat [] p n h le pos fuel = cut-last n p le
cut-concat (c ∷ cs) p zero h le pos fuel = absurd (omega arith)
cut-concat (c ∷ cs) p (suc n) (len, h) le pos fuel =
    ap (λ t. cut (suc n) t) (append_assoc c (concat cs) p)
    ∙ cut-more n c (concat cs ++ p) len (omega (arith, length-append (concat cs) p))
    ∙ ap (λ t. c ∷ t) (cut-concat cs p n h le pos (omega arith))

pub cut-fulls :
    (c : Bytes) (cs : List Bytes) (n : ℕ)
    → All (λ c. length c ≡ 1024) (c ∷ cs)
    → length cs ≤ n
    → cut n (concat (c ∷ cs)) ≡ c ∷ cs
unfolding concat
cut-fulls c [] n (len, h) fuel = ap (λ t. cut n t) (append-nil c) ∙ cut-last n c (omega arith)
cut-fulls c (d ∷ ds) zero (len, h) fuel = absurd (omega arith)
cut-fulls c (d ∷ ds) (suc n) (len, h) fuel =
    cut-more n c (concat (d ∷ ds)) len (omega (arith, length-append d (concat ds), h.0))
    ∙ ap (λ t. c ∷ t) (cut-fulls d ds n h (omega arith))
