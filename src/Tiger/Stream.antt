-- ===== src/Tiger/Stream.antt =====
-- src/tth.c: `tiger_update` takes data in pieces of any size.
use ncdc.Prelude.{
  ℕ, zero, suc, [], ◌∷◌, ◌++◌, Bytes, Bool, Bool-cases, inl, inr, true, false, ltb, ltb→lt,
  ltb-false→le, take, drop, length, length-append, length-drop, ◌≡◌, refl, sym, ap, ap₂, ◌∙◌, ◌%◌,
  ◌<◌, ◌≤◌, arith,
}
use ncdc.Tiger.{Words, process}

-- The hash of the full blocks of the data, and the bytes behind them.
unfoldable pub absorb : ℕ → Words → Bytes → Words × Bytes
absorb zero h d = (h, d)
absorb (suc n) h d = elim (ltb (length d) 64) [
  | true ↦ (h, d)
  | false ↦ absorb n (process h (take 64 d)) (drop 64 d)
]

pub at_true {ℓ} :
    {A : Type ℓ} (b : Bool) (x y : A) → b ≡ true → ◌≡◌ {A = A} (elim b [ true ↦ x | false ↦ y ]) x
at_true true x y h = refl
at_true false x y h = cc

pub at_false {ℓ} :
    {A : Type ℓ} (b : Bool) (x y : A) → b ≡ false → ◌≡◌ {A = A} (elim b [ true ↦ x | false ↦ y ]) y
at_false true x y h = cc
at_false false x y h = refl

pub le→ltb : (a b : ℕ) → b ≤ a → ltb a b ≡ false
le→ltb a b h = ground arith

pub absorb-short : (n : ℕ) (h : Words) (d : Bytes) → length d < 64 → absorb n h d ≡ (h, d)
unfolding absorb
absorb-short zero h d short = refl
absorb-short (suc n) h d short = ground arith

pub absorb-long :
    (n : ℕ) (h : Words) (d : Bytes)
    → 64 ≤ length d
    → absorb (suc n) h d ≡ absorb n (process h (take 64 d)) (drop 64 d)
unfolding absorb
absorb-long n h d long =
    at_false (ltb (length d) 64) (h, d) (absorb n (process h (take 64 d)) (drop 64 d))
      (le→ltb (length d) 64 long)

pub take_of_append : (n : ℕ) (d e : Bytes) → n ≤ length d → take n (d ++ e) ≡ take n d
take_of_append zero d e h = refl
take_of_append (suc n) [] e h = absurd (omega arith)
take_of_append (suc n) (x ∷ d) e h = rw (take_of_append n d e (omega arith)) refl

pub drop_of_append : (n : ℕ) (d e : Bytes) → n ≤ length d → drop n (d ++ e) ≡ drop n d ++ e
drop_of_append zero d e h = refl
drop_of_append (suc n) [] e h = absurd (omega arith)
drop_of_append (suc n) (x ∷ d) e h = drop_of_append n d e (omega arith)

-- More fuel than there are bytes changes nothing.
pub absorb_fuel :
    (n m : ℕ) (h : Words) (d : Bytes) → length d ≤ n → length d ≤ m → absorb n h d ≡ absorb m h d
absorb_fuel zero m h d le le' =
    absorb-short zero h d (omega arith) ∙ sym (absorb-short m h d (omega arith))
absorb_fuel (suc n) zero h d le le' =
    absorb-short (suc n) h d (omega arith) ∙ sym (absorb-short zero h d (omega arith))
absorb_fuel (suc n) (suc m) h d le le' = elim (Bool-cases (ltb (length d) 64)) [
  | inl short ↦
      let lt = ltb→lt (length d) 64 short in
      absorb-short (suc n) h d lt ∙ sym (absorb-short (suc m) h d lt)
  | inr long ↦
      let ge = ltb-false→le (length d) 64 long in
      absorb-long n h d ge
      ∙ absorb_fuel n m (process h (take 64 d)) (drop 64 d) (omega (arith, length-drop 64 d))
          (omega (arith, length-drop 64 d))
      ∙ sym (absorb-long m h d ge)
]

-- The bytes behind the full blocks are fewer than a block.
pub absorb-lt :
    (n : ℕ) (h : Words) (d : Bytes) → length d ≤ n → length (absorb n h d).1 ≡ length d % 64
absorb-lt zero h d le = rw (absorb-short zero h d (omega arith)) (omega arith)
absorb-lt (suc n) h d le = elim (Bool-cases (ltb (length d) 64)) [
  | inl short ↦
      let lt = ltb→lt (length d) 64 short in rw (absorb-short (suc n) h d lt) (omega arith)
  | inr long ↦
      let ge = ltb-false→le (length d) 64 long in
      rw (absorb-long n h d ge) (
        absorb-lt n (process h (take 64 d)) (drop 64 d) (omega (arith, length-drop 64 d))
        ∙ omega (arith, length-drop 64 d))
]

-- Data in two pieces, when the first has a full block.
append_step :
    (n m : ℕ) (h : Words) (d e : Bytes)
    → 64 ≤ length d
    → length d ≤ suc n
    → length (d ++ e) ≤ suc m
    → (let (h', r) = absorb n (process h (take 64 d)) (drop 64 d) in
        absorb m (process h (take 64 d)) (drop 64 d ++ e) ≡ absorb m h' (r ++ e))
    → let (h', r) = absorb (suc n) h d in absorb (suc m) h (d ++ e) ≡ absorb (suc m) h' (r ++ e)
append_step n m h d e ge le le' rest =
    let h1 = process h (take 64 d) in
    let d1 = drop 64 d in
    let few : length ((absorb n h1 d1).1 ++ e) ≤ m = omega (
      arith,
      length-append (absorb n h1 d1).1 e,
      length-append d e,
      length-drop 64 d,
      absorb-lt n h1 d1 (omega (arith, length-drop 64 d)),
    ) in
    absorb-long m h (d ++ e) (omega (arith, length-append d e))
    ∙ ap₂ (λ x y. absorb m (process h x) y) (take_of_append 64 d e ge) (drop_of_append 64 d e ge)
    ∙ rest
    ∙ absorb_fuel m (suc m) (absorb n h1 d1).0 ((absorb n h1 d1).1 ++ e) few (omega arith)
    ∙ ap (λ (p : Words × Bytes). absorb (suc m) p.0 (p.1 ++ e)) (sym (absorb-long n h d ge))

-- Data in two pieces.
pub absorb-append :
    (n m : ℕ) (h : Words) (d e : Bytes)
    → length d ≤ n
    → length (d ++ e) ≤ m
    → let (h', r) = absorb n h d in absorb m h (d ++ e) ≡ absorb m h' (r ++ e)
absorb-append zero m h d e le le' =
    ap (λ (p : Words × Bytes). absorb m p.0 (p.1 ++ e)) (sym (absorb-short zero h d (omega arith)))
absorb-append (suc n) zero h d e le le' =
    ap (λ (p : Words × Bytes). absorb zero p.0 (p.1 ++ e))
      (sym (absorb-short (suc n) h d (omega (arith, length-append d e))))
absorb-append (suc n) (suc m) h d e le le' = elim (Bool-cases (ltb (length d) 64)) [
  | inl short ↦
      ap (λ (p : Words × Bytes). absorb (suc m) p.0 (p.1 ++ e))
        (sym (absorb-short (suc n) h d (ltb→lt (length d) 64 short)))
  | inr long ↦
      let ge = ltb-false→le (length d) 64 long in
      append_step n m h d e ge le le' (
        absorb-append n m (process h (take 64 d)) (drop 64 d) e (omega (arith, length-drop 64 d))
          (omega (arith, length-append d e, length-append (drop 64 d) e, length-drop 64 d)))
]
