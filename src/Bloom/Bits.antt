-- ===== src/Bloom/Bits.antt =====
-- src/bloom.c: `bloom_add` sets the bits that the sub-hashes of a hash name, and no others.
use ncdc.Prelude.{
  ℕ, zero, suc, [], ◌∷◌, Bytes, Bool, Bool-cases, inl, inr, ltb, ltb→lt, ltb-false→le, true, false,
  ◌||◌, ◌==◌, if◌then◌else◌, length, ◌≡◌, refl, ◌∙◌, sym, subst, ap, ◌+◌, ◌-◌, ◌*◌, ◌/◌, ◌%◌, ◌^◌,
  ◌<◌, ◌≤◌, arith,
}
use native.Mathlib.Nat.{div-div-eq-div-mul}
use ncdc.Bitmap.{bita_get, bita_set}
use ncdc.Bitmap.Laws.{IsBytes, bita_set-IsBytes, length-bita_set, bita_get-bita_set}
use ncdc.Bloom.{Bloom, hash_bit, gather, filter_bits, add_from, bloom_add}

-- The number whose digits to the base 256 are the bytes of the hash, the lowest first.
abbrev pub number : Bytes → ℕ
number [] = 0
number (b ∷ bs) = b + 256 * number bs

-- The sub-hash `i` of the hash: `h` bits from bit `i * h` on.
abbrev pub sub_hash : ℕ → Bytes → ℕ → ℕ
sub_hash h hash i = number hash / 2 ^ (i * h) % 2 ^ h

-- Whether one of the `n` sub-hashes from `i` on names the bit `j` of the filter.
abbrev pub is_named : Bloom → Bytes → ℕ → ℕ → ℕ → Bool
is_named b hash zero i j = false
is_named b hash (suc n) i j = j == sub_hash b.h hash i % (b.m * 8) || is_named b hash n (suc i) j

pow_suc : (k : ℕ) → 2 ^ suc k ≡ 2 * 2 ^ k
pow_suc k = omega arith

pow_add : (a b : ℕ) → 2 ^ (a + b) ≡ 2 ^ a * 2 ^ b
pow_add zero b = grind arith
pow_add (suc a) b = grind (arith, pow_add a b, pow_suc (a + b), pow_suc a)

-- One byte, and the bytes behind it.
low_byte : (b n pos : ℕ) → b < 256 → pos < 8 → (b + 256 * n) / 2 ^ pos % 2 ≡ b / 2 ^ pos % 2
low_byte b n zero small h = omega arith
low_byte b n (suc zero) small h = omega arith
low_byte b n (suc (suc zero)) small h = omega arith
low_byte b n (suc (suc (suc zero))) small h = omega arith
low_byte b n (suc (suc (suc (suc zero)))) small h = omega arith
low_byte b n (suc (suc (suc (suc (suc zero))))) small h = omega arith
low_byte b n (suc (suc (suc (suc (suc (suc zero)))))) small h = omega arith
low_byte b n (suc (suc (suc (suc (suc (suc (suc zero))))))) small h = omega arith
low_byte b n (suc (suc (suc (suc (suc (suc (suc (suc pos)))))))) small h = absurd (omega arith)

high_bytes : (b n p : ℕ) → b < 256 → (b + 256 * n) / 2 ^ (8 + p) ≡ n / 2 ^ p
high_bytes b n p small =
    let quotient : (b + 256 * n) / 256 ≡ n = omega arith in
    ap (λ d. (b + 256 * n) / d) (pow_add 8 p)
    ∙ sym (div-div-eq-div-mul (b + 256 * n) 256 (2 ^ p))
    ∙ ap (λ q. q / 2 ^ p) quotient

zero_div : (d : ℕ) → 0 / d % 2 ≡ 0
zero_div d = grind arith

at_least : (n : ℕ) → 8 ≤ n → 8 + (n - 8) ≡ n
at_least n h = omega arith

next_byte :
    (b : ℕ) (bs : Bytes) (p : ℕ)
    → b < 256
    → hash_bit bs p ≡ number bs / 2 ^ p % 2
    → hash_bit (b ∷ bs) (8 + p) ≡ number (b ∷ bs) / 2 ^ (8 + p) % 2
unfolding hash_bit
next_byte b bs p small h =
    let byte : (8 + p) / 8 ≡ suc (p / 8) = omega arith in
    let within : (8 + p) % 8 ≡ p % 8 = omega arith in
    rw (byte, within, high_bytes b (number bs) p small) h

regroup : (q d : ℕ) → q * (2 * d) ≡ 2 * (q * d)
regroup q d = grind arith

mod_double : (x d : ℕ) → 0 < d → x % (2 * d) ≡ x % 2 + 2 * (x / 2 % d)
mod_double x d pos =
    let q = x / 2 / d in
    let same : q ≡ x / (2 * d) = div-div-eq-div-mul x 2 d in
    let whole : x ≡ q * (2 * d) + x % (2 * d) = rw same (omega arith) in
    let half : x / 2 ≡ q * d + x / 2 % d = omega arith in omega (arith, whole, half, regroup q d)

hash_bit-number :
    (hash : Bytes) (pos : ℕ) → IsBytes hash → hash_bit hash pos ≡ number hash / 2 ^ pos % 2
unfolding hash_bit
hash_bit-number [] pos bytes = zero_div (2 ^ (pos % 8)) ∙ sym (zero_div (2 ^ pos))
hash_bit-number (b ∷ bs) pos bytes = elim (Bool-cases (ltb pos 8)) [
  | inl low ↦
      let p = ltb→lt pos 8 low in
      let byte : pos / 8 ≡ 0 = omega arith in
      let within : pos % 8 ≡ pos = omega arith in
      rw (byte, within) (sym (low_byte b (number bs) pos bytes.0 p))
  | inr high ↦
      subst (λ x. hash_bit (b ∷ bs) x ≡ number (b ∷ bs) / 2 ^ x % 2)
        (at_least pos (ltb-false→le pos 8 high))
        (next_byte b bs (pos - 8) bytes.0 (hash_bit-number bs (pos - 8) bytes.1))
]

pow_pos : (k : ℕ) → 0 < 2 ^ k
pow_pos zero = omega arith
pow_pos (suc k) = omega (arith, pow_suc k, pow_pos k)

spread : (t a b d : ℕ) → t + a * d + b * (2 * d) ≡ t + (a + 2 * b) * d
spread t a b d = grind arith

gather_lem :
    (hash : Bytes) (n j pos tmp : ℕ)
    → IsBytes hash
    → gather hash n j pos tmp ≡ tmp + number hash / 2 ^ pos % 2 ^ n * 2 ^ j
unfolding gather
gather_lem hash zero j pos tmp bytes = grind arith
gather_lem hash (suc n) j pos tmp bytes =
    let x = number hash / 2 ^ pos in
    let half : number hash / 2 ^ (pos + 1) ≡ x / 2 =
      ap (λ d. number hash / d) (pow_add pos 1)
      ∙ sym (div-div-eq-div-mul (number hash) (2 ^ pos) 2) in
    let rest = gather_lem hash n (suc j) (pos + 1) (tmp + hash_bit hash pos * 2 ^ j) bytes in
    rest
    ∙ (rw
        (
          hash_bit-number hash pos bytes,
          half,
          pow_suc n,
          pow_suc j,
          mod_double x (2 ^ n) (pow_pos n),
        )
        (spread tmp (x % 2) (x / 2 % 2 ^ n) (2 ^ j)))

-- The sub-hash that the inner loop gathers.
gather-sub_hash :
    (hash : Bytes) (h i pos : ℕ)
    → IsBytes hash
    → pos ≡ i * h
    → gather hash h 0 pos 0 ≡ sub_hash h hash i
gather-sub_hash hash h i pos bytes e =
    gather_lem hash h 0 pos 0 bytes ∙ rw e (one_times (number hash / 2 ^ (i * h) % 2 ^ h))
  where
    one_times : (x : ℕ) → 0 + x * 2 ^ 0 ≡ x
    one_times x = grind arith

next_pos : (i h : ℕ) → i * h + h ≡ suc i * h
next_pos i h = grind arith

filter_bits_lem : (m : ℕ) → m < 2 ^ 28 → filter_bits m ≡ m * 8
unfolding filter_bits
filter_bits_lem m h = ground arith

mod_inside : (x m : ℕ) → 0 < m → x % (m * 8) < m * 8
mod_inside x m pos = omega arith

add_from_lem :
    (b : Bloom) (hash : Bytes) (n i pos : ℕ) (d : Bytes) (j : ℕ)
    → IsBytes hash
    → IsBytes d
    → length d ≡ b.m
    → 0 < b.m
    → b.m < 2 ^ 28
    → pos ≡ i * b.h
    → bita_get (add_from b hash n pos d) j ≡ (if is_named b hash n i j then 1 else bita_get d j)
unfolding add_from
add_from_lem b hash zero i pos d j bytes dbytes len full small e = refl
add_from_lem b hash (suc n) i pos d j bytes dbytes len full small e =
    let at = sub_hash b.h hash i % (b.m * 8) in
    let inside : at < 8 * length d = omega (arith, mod_inside (sub_hash b.h hash i) b.m full) in
    let d' = bita_set d at in
    let rest =
      add_from_lem b hash n (suc i) (pos + b.h) d' j bytes (bita_set-IsBytes d at dbytes)
        (length-bita_set d at dbytes ∙ len) full small (ap (λ p. p + b.h) e ∙ next_pos i b.h) in
    rw (gather-sub_hash hash b.h i pos bytes e, filter_bits_lem b.m small)
      (rest
        ∙ or_set (is_named b hash n (suc i) j) (j == at) (bita_get d' j) (bita_get d j)
            (bita_get-bita_set d at dbytes inside j))
  where
    or_set :
        (more here : Bool) (v w : ℕ)
        → v ≡ (if here then 1 else w)
        → (if more then 1 else v) ≡ (if here || more then 1 else w)
    or_set true true v w e = refl
    or_set true false v w e = refl
    or_set false true v w e = e
    or_set false false v w e = e

-- After a hash is added, the bits that its sub-hashes name are 1, and every other bit is as before.
-- The sub-hash `i` is the number of `h` bits from bit `i * h` of the hash on, modulo the number of
-- bits of the filter, which is not empty and of fewer than 2 ^ 28 bytes, so that the number is an int.
-- A sub-hash has 64 bits at most, and all of them together are within the hash.
pub bloom_add_lem :
    (b : Bloom) (hash : Bytes) (j : ℕ)
    → IsBytes hash
    → IsBytes b.d
    → length b.d ≡ b.m
    → 0 < b.m
    → b.m < 2 ^ 28
    → b.h ≤ 64
    → b.k * b.h ≤ 8 * length hash
    → bita_get (bloom_add b hash).d j ≡ (if is_named b hash b.k 0 j then 1 else bita_get b.d j)
unfolding bloom_add
bloom_add_lem b hash j bytes dbytes len full small short within =
    add_from_lem b hash b.k 0 0 b.d j bytes dbytes len full small (omega arith)
