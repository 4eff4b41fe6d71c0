-- ===== src/Proto/Sid.antt =====
-- src/proto.c: the four-character codes of ADC, the macros `ADC_EFCC`, `ADC_DFCC` and
-- `ADC_TOCMDV`. An `int` is its 32-bit pattern, a natural number below 2 ^ 32; a `char` is signed, so a
-- byte from 128 on is subtracted.
pub mod RoundTrip
use ncdc.Prelude.{ℕ, zero, [], ◌∷◌, Bytes, ltb, if◌then◌else◌, ◌+◌, ◌-◌, ◌*◌, ◌/◌, ◌%◌, ◌^◌}

-- A `char` promoted to `int`.
unfoldable pub promote : ℕ → ℕ
promote c = if ltb c 128 then c else 2 ^ 32 - 256 + c

-- `(sid >> 8 * k) & 0xFF` for the four values of k.
unfoldable pub efcc : ℕ → Bytes
efcc sid = sid % 256 ∷ sid / 256 % 256 ∷ sid / 65536 % 256 ∷ sid / 16777216 % 256 ∷ []

unfoldable pub dfcc : ℕ → ℕ → ℕ → ℕ → ℕ
unfolding promote
dfcc a b c d = (promote a + promote b * 256 + promote c * 65536 + promote d * 16777216) % 2 ^ 32

unfoldable pub tocmd : ℕ → ℕ → ℕ → ℕ
unfolding promote
tocmd a b c = (promote a + promote b * 256 + promote c * 65536) % 2 ^ 32
