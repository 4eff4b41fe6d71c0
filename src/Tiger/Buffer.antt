-- ===== src/Tiger/Buffer.antt =====
-- src/tth.c: the buffer `message` of a context, after a `memcpy` into it.
use ncdc.Prelude.{
  ℕ, zero, suc, [], ◌∷◌, ◌++◌, Bytes, take, drop, length, length-append, length-take, length-drop,
  append_assoc, ◌≡◌, refl, sym, ap, ap₂, ◌∙◌, ◌+◌, ◌≤◌, arith,
}
use ncdc.Tiger.{write}

pub take_all : (d : Bytes) → take (length d) d ≡ d
take_all [] = refl
take_all (x ∷ d) = ap (λ t. x ∷ t) (take_all d)

pub take_prefix : (d e : Bytes) → take (length d) (d ++ e) ≡ d
take_prefix [] e = refl
take_prefix (x ∷ d) e = ap (λ t. x ∷ t) (take_prefix d e)

pub length-write :
    (buf : Bytes) (at : ℕ) (bytes : Bytes)
    → at + length bytes ≤ length buf
    → length (write buf at bytes) ≡ length buf
length-write buf at bytes fits = omega (
  arith,
  length-append (take at buf) (bytes ++ drop (at + length bytes) buf),
  length-append bytes (drop (at + length bytes) buf),
  length-take at buf,
  length-drop (at + length bytes) buf,
)

pub take-write :
    (buf : Bytes) (at n : ℕ) (bytes : Bytes)
    → at + length bytes ≤ length buf
    → n ≡ at + length bytes
    → take n (write buf at bytes) ≡ take at buf ++ bytes
take-write buf at n bytes fits e =
    let here = take at buf ++ bytes in
    let len : n ≡ length here =
      omega (arith, length-append (take at buf) bytes, length-take at buf) in
    ap₂ (λ k d. take k d) len
      (sym (append_assoc (take at buf) bytes (drop (at + length bytes) buf)))
    ∙ take_prefix here (drop (at + length bytes) buf)

pub write_full :
    (buf : Bytes) (at : ℕ) (bytes : Bytes)
    → at + length bytes ≡ length buf
    → write buf at bytes ≡ take at buf ++ bytes
write_full buf at bytes e =
    sym (take_all (write buf at bytes))
    ∙ take-write buf at (length (write buf at bytes)) bytes (omega arith)
        (length-write buf at bytes (omega arith) ∙ sym e)

pub take_behind : (r msg : Bytes) (k n : ℕ) → n ≡ length r + k → take n (r ++ msg) ≡ r ++ take k msg
take_behind [] msg k n e = let same : n ≡ k = omega arith in ap (λ j. take j msg) same
take_behind (x ∷ r) msg k zero e = absurd (omega arith)
take_behind (x ∷ r) msg k (suc n) e = ap (λ t. x ∷ t) (take_behind r msg k n (omega arith))

pub drop_behind : (r msg : Bytes) (k n : ℕ) → n ≡ length r + k → drop n (r ++ msg) ≡ drop k msg
drop_behind [] msg k n e = let same : n ≡ k = omega arith in ap (λ j. drop j msg) same
drop_behind (x ∷ r) msg k zero e = absurd (omega arith)
drop_behind (x ∷ r) msg k (suc n) e = drop_behind r msg k n (omega arith)
