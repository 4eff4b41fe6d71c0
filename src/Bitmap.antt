-- ===== src/Bitmap.antt =====
-- src/util.c: the bit arrays, `bita_size`, `bita_new`, `bita_get`, `bita_set` and `bita_reset`. An
-- array is the list of its bytes. `1 << (i & 7)` is `2 ^ (i % 8)`.
pub mod Laws
mod Tests
use Prim.Native.Nat.{bit_and, bit_or}
use ncdc.Prelude.{ℕ, Bytes, get_or, set, replicate, ◌+◌, ◌-◌, ◌/◌, ◌%◌, ◌^◌}

-- The size is a guint32.
unfoldable pub bita_size : ℕ → ℕ
bita_size n = (n + 7) % 2 ^ 32 / 8

unfoldable pub bita_new : ℕ → Bytes
unfolding bita_size
bita_new n = replicate (bita_size n) 0

-- One byte of the array.
byte_get : ℕ → ℕ → ℕ
byte_get b k = b / 2 ^ k % 2

byte_set : ℕ → ℕ → ℕ
byte_set b k = bit_or b (2 ^ k)

byte_reset : ℕ → ℕ → ℕ
byte_reset b k = bit_and b (255 - 2 ^ k)

unfoldable pub bita_get : Bytes → ℕ → ℕ
unfolding byte_get
bita_get a i = byte_get (get_or a (i / 8) 0) (i % 8)

unfoldable pub bita_set : Bytes → ℕ → Bytes
unfolding byte_set
bita_set a i = set a (i / 8) (byte_set (get_or a (i / 8) 0) (i % 8))

unfoldable pub bita_reset : Bytes → ℕ → Bytes
unfolding byte_reset
bita_reset a i = set a (i / 8) (byte_reset (get_or a (i / 8) 0) (i % 8))
