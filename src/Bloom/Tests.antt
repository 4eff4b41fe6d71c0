-- ===== src/Bloom/Tests.antt =====
-- src/bloom.c: a filter of eight bytes, with three sub-hashes of eight bits.
use ncdc.Prelude.{[], ◌∷◌, some, if◌then◌else◌, ◌≡◌, refl, replicate, arith}
use ncdc.Bitmap.{bita_get, bita_new, bita_size}
use ncdc.Bitmap.Laws.{IsBytes, bita_new_lem}
use ncdc.Bloom.{Bloom, filter_bits, bloom_init, bloom_add}
use ncdc.Bloom.Bits.{is_named, bloom_add_lem}

abbrev filter : Bloom
filter = record { m = 8; k = 3; h = 8; d = replicate 8 0 }

made : bloom_init 8 3 8 ≡ some filter
unfolding bloom_init
made = refl

-- The product of 2 ^ 30 and 4 wraps to 0, which passes for short.
wraps :
    bloom_init 8 1073741824 4 ≡ some (record { m = 8; k = 1073741824; h = 4; d = replicate 8 0 })
unfolding bloom_init
wraps = refl

-- With a filter of 2 ^ 29 bytes the number of its bits wraps to 0.
too_big : filter_bits 536870912 ≡ 0
unfolding filter_bits
too_big = refl

zeros : IsBytes (replicate 8 0)
unfolding bita_new bita_size
zeros = (bita_new_lem 64 (omega arith)).0

bloom_add_lem_example :
    bita_get (bloom_add filter (3 ∷ 65 ∷ 9 ∷ [])).d 1
    ≡ (if is_named filter (3 ∷ 65 ∷ 9 ∷ []) 3 0 1 then 1 else bita_get filter.d 1)
bloom_add_lem_example =
    bloom_add_lem filter (3 ∷ 65 ∷ 9 ∷ []) 1 (omega arith, (omega arith, (omega arith, tt))) zeros
      refl (omega arith) (omega arith) (omega arith) (omega arith)
