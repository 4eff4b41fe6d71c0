-- ===== src/StrUtil/Sizes/Read.antt =====
-- src/strutil.c: what `str_fullsize` writes reads as the size.
use ncdc.Prelude.{
  ℕ, zero, suc, [], ◌∷◌, Bool, Bool-cases, inl, inr, true, false, not, ◌&&◌, ◌==◌, ==_iff,
  if◌then◌else◌, drop, get_or, length, All, Bytes, ◌≡◌, refl, sym, ap, ◌∙◌, ◌+◌, ◌-◌, ◌*◌, ◌/◌, ◌%◌,
  ◌^◌, ◌≤◌, ◌<◌, arith,
}
use ncdc.StrUtil.Sizes.{digits, reverse_dotted, str_fullsize}

-- The number that digits stand for when dots between them are passed over.
pub read_number : ℕ → Bytes → ℕ
read_number n [] = n
read_number n (c ∷ s) = if c == 46 then read_number n s else read_number (n * 10 + (c - 48)) s

-- The number of digits whose last one stands first.
value : Bytes → ℕ
value [] = 0
value (c ∷ s) = (c - 48) + 10 * value s

abbrev IsDigit : ℕ → Type 0
IsDigit c = (48 ≤ c) × (c ≤ 57)

digits-IsDigit : (fuel size : ℕ) → All IsDigit (digits fuel size)
unfolding digits
digits-IsDigit zero size = tt
digits-IsDigit (suc fuel) size = elim (Bool-cases (size / 10 == 0)) [
  | inl last ↦ rw last ((omega arith, omega arith), tt)
  | inr more ↦ rw more ((omega arith, omega arith), digits-IsDigit fuel (size / 10))
]

-- With fuel for its digits, the digits of a number have its value.
value-digits : (fuel size : ℕ) → size < 10 ^ fuel → value (digits fuel size) ≡ size
unfolding digits value
value-digits zero size h = omega arith
value-digits (suc fuel) size h = elim (Bool-cases (size / 10 == 0)) [
  | inl last ↦ rw last (omega (arith, (==_iff (size / 10) 0).0 last))
  | inr more ↦ rw more (omega (arith, value-digits fuel (size / 10) (omega (arith, h))))
]

drop-get_or :
    (s : Bytes) (i : ℕ)
    → i < length s
    → value (drop i s) ≡ (get_or s i 0 - 48) + 10 * value (drop (suc i) s)
unfolding value
drop-get_or [] i h = absurd (omega arith)
drop-get_or (c ∷ s) zero h = refl
drop-get_or (c ∷ s) (suc i) h = drop-get_or s i (omega arith)

IsDigit-get_or : (s : Bytes) (i : ℕ) → All IsDigit s → i < length s → IsDigit (get_or s i 0)
IsDigit-get_or [] i d h = absurd (omega arith)
IsDigit-get_or (c ∷ s) zero (d, ds) h = d
IsDigit-get_or (c ∷ s) (suc i) (d, ds) h = IsDigit-get_or s i ds (omega arith)

read-digit :
    (n c : ℕ) (s : Bytes) → IsDigit c → read_number n (c ∷ s) ≡ read_number (n * 10 + (c - 48)) s
unfolding read_number
read-digit n c s d = rw (no_dot c d) refl
  where
    no_dot : (c : ℕ) → IsDigit c → (c == 46) ≡ false
    no_dot c d = ground arith

read-dot :
    (n : ℕ) (b : Bool) (s : Bytes) → read_number n (if b then 46 ∷ s else s) ≡ read_number n s
unfolding read_number
read-dot n true s = refl
read-dot n false s = refl

-- From the digits before an index, the number of those behind it goes on to the whole.
read-reverse_dotted :
    (tmp : Bytes) (i : ℕ)
    → All IsDigit tmp
    → i ≤ length tmp
    → read_number (value (drop i tmp)) (reverse_dotted tmp i) ≡ value tmp
unfolding read_number reverse_dotted
read-reverse_dotted tmp zero d h = refl
read-reverse_dotted tmp (suc i) d h =
    let e : value (drop (suc i) tmp) * 10 + (get_or tmp i 0 - 48) ≡ value (drop i tmp) =
      omega (arith, drop-get_or tmp i (omega arith)) in
    let rest = reverse_dotted tmp i in
    let dotted = if not (i == 0) && i % 3 == 0 then 46 ∷ rest else rest in
    read-digit (value (drop (suc i) tmp)) (get_or tmp i 0) dotted
      (IsDigit-get_or tmp i d (omega arith))
    ∙ read-dot (value (drop (suc i) tmp) * 10 + (get_or tmp i 0 - 48)) (not (i == 0) && i % 3 == 0)
        rest
    ∙ ap (λ n. read_number n rest) e
    ∙ read-reverse_dotted tmp i d (omega arith)

drop_all : (s : Bytes) → drop (length s) s ≡ []
drop_all [] = refl
drop_all (c ∷ s) = drop_all s

-- The digits that `str_fullsize` writes for a 64-bit size, without its dots, are the size.
pub read_number-str_fullsize :
    (size : ℕ) → size < 18446744073709551616 → read_number 0 (str_fullsize size) ≡ size
unfolding str_fullsize value
read_number-str_fullsize size h =
    let tmp = digits 20 size in
    ap (λ s. read_number (value s) (reverse_dotted tmp (length tmp))) (sym (drop_all tmp))
    ∙ read-reverse_dotted tmp (length tmp) (digits-IsDigit 20 size) (omega arith)
    ∙ value-digits 20 size (omega (arith, h))
