-- ===== src/Proto/Lock.antt =====
-- src/proto.c: `nmdc_lock2key`, which answers the `$Lock` of an NMDC hub.
pub mod Key
mod Tests
use Prim.Native.Nat.{bit_and, bit_or, bit_xor}
use ncdc.Prelude.{Bool}
use ncdc.Prelude.{
  ℕ, zero, suc, List, [], ◌∷◌, ◌++◌, Bytes, codes, length, get_or, set, map, ltb, ◌==◌, ◌||◌,
  if◌then◌else◌, ◌+◌, ◌-◌, ◌*◌, ◌/◌, ◌%◌,
}

-- `for(i=len-1; i; i--) lock[i] = lock[i] ^ lock[i-1];`
xor_down : ℕ → Bytes → Bytes
xor_down zero lock = lock
xor_down (suc i) lock =
    xor_down i (set lock (suc i) (bit_xor (get_or lock (suc i) 0) (get_or lock i 0)))

first : Bytes → ℕ → ℕ
first lock len =
    bit_xor
      (bit_xor (bit_xor (get_or lock 0 0) (get_or lock (len - 1) 0)) (get_or lock (len - 2) 0)) 5

pub swap_nibbles : ℕ → ℕ
swap_nibbles c = bit_or (bit_and (c * 16) 0xf0) (bit_and (c / 16) 0x0f)

abbrev is_reserved : ℕ → Bool
is_reserved n = n == 0 || n == 5 || n == 36 || n == 96 || n == 124 || n == 126

-- `/%%DCN%03d%%/` for a byte that the protocol reserves.
append_byte : ℕ → Bytes
append_byte n =
    if is_reserved n
    then codes "/%DCN"
      ++ ((b'0' + n / 100 % 10) ∷ (b'0' + n / 10 % 10) ∷ (b'0' + n % 10) ∷ codes "%/")
    else n ∷ []

append_bytes : Bytes → Bytes
append_bytes [] = []
append_bytes (n ∷ s) = append_byte n ++ append_bytes s

-- The lock after the loops over it.
pub mix : Bytes → Bytes
mix lock =
    let len = length lock in map swap_nibbles (set (xor_down (len - 1) lock) 0 (first lock len))

unfoldable pub lock2key : Bytes → Bytes
unfolding mix append_bytes append_byte xor_down first swap_nibbles
lock2key lock = if ltb (length lock) 3 then codes "STUPIDKEY!" else append_bytes (mix lock)
