-- ===== src/Bloom.antt =====
-- src/bloom.c: the bloom filter of the hashes that a client shares. The filter `d` is the list of its
-- bytes; `d[j>>3] |= 1<<(j&7)` is the macro `bita_set` of src/util.c. The arguments of `bloom_init` are
-- natural numbers: a negative one is refused like zero.
pub mod Bits
mod Tests
use ncdc.Prelude.{
  ℕ, zero, suc, List, [], ◌∷◌, Bytes, Bool, Option, none, some, ltb, leb, ◌==◌, ◌&&◌, ◌||◌, not,
  if◌then◌else◌, get_or, replicate, ◌+◌, ◌-◌, ◌*◌, ◌/◌, ◌%◌, ◌^◌,
}
use ncdc.Bitmap.{bita_set}

-- `bloom_t`
pub record Bloom : Type 0 where
  pub m : ℕ
  pub k : ℕ
  pub h : ℕ
  pub d : Bytes

-- `((guint64)1)<<(h-3)` for h up to 66; a count below zero is taken as that count and 64, as the
-- processor does.
abbrev shifted : ℕ → ℕ
shifted h = 2 ^ ((h + 61) % 64)

-- `k*h > 192` on an `int`, whose product wraps.
abbrev too_long : ℕ → ℕ → Bool
too_long k h = let p = k * h % 2 ^ 32 in ltb 192 p && ltb p (2 ^ 31)

-- `none` is the result -1.
unfoldable pub bloom_init : ℕ → ℕ → ℕ → Option Bloom
bloom_init m k h =
    if m == 0
      || k == 0
      || h == 0
      || not (m % 8 == 0)
      || too_long k h
      || ltb 64 h
      || leb (shifted h) (m / 8)
    then none
    else some (record { m = m; k = k; h = h; d = replicate m 0 })

-- `(hash[pos>>3] >> (pos&7)) & 1`
pub hash_bit : Bytes → ℕ → ℕ
hash_bit hash pos = get_or hash (pos / 8) 0 / 2 ^ (pos % 8) % 2

-- The loop over j, from `j` on, for `n` bits that are left; a bit that is not set yet is added by
-- `|=`. `tmp` is a guint64: `bloom_init` sees to it that no more than 64 bits are gathered.
pub gather : Bytes → ℕ → ℕ → ℕ → ℕ → ℕ
unfolding hash_bit
gather hash zero j pos tmp = tmp
gather hash (suc n) j pos tmp = gather hash n (suc j) (pos + 1) (tmp + hash_bit hash pos * 2 ^ j)

-- `b->m<<3`: the int wraps, and is taken as a guint64 for the remainder.
pub filter_bits : ℕ → ℕ
filter_bits m = let p = m * 8 % 2 ^ 32 in if ltb p (2 ^ 31) then p else p + (2 ^ 64 - 2 ^ 32)

-- The loop over i, for `n` sub-hashes that are left.
pub add_from : Bloom → Bytes → ℕ → ℕ → Bytes → Bytes
unfolding gather filter_bits
add_from b hash zero pos d = d
add_from b hash (suc n) pos d =
    add_from b hash n (pos + b.h) (bita_set d (gather hash b.h 0 pos 0 % filter_bits b.m))

unfoldable pub bloom_add : Bloom → Bytes → Bloom
unfolding add_from
bloom_add b hash = record b { d = add_from b hash b.k 0 b.d }
