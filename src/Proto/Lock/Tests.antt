-- ===== src/Proto/Lock/Tests.antt =====
-- src/proto.c: keys of concrete locks.
use ncdc.Prelude.{ℕ, suc, ◌≡◌, ◌<◌, refl, codes, length, get_or, arith, All}
use Prim.Native.Nat.{bit_xor}
use ncdc.Proto.Lock.{lock2key, mix, swap_nibbles}
use ncdc.Proto.Lock.Key.{mix_lem, lock2key-IsFree, IsFree}

short_lock : lock2key (codes "AB") ≡ codes "STUPIDKEY!"
unfolding lock2key
short_lock = refl

-- `AAA` gives a byte 0x44 and two bytes 0.
reserved_bytes : lock2key (codes "AAA") ≡ codes "D/%DCN000%//%DCN000%/"
unfolding lock2key
reserved_bytes = refl

lock2key-IsFree_example : All IsFree (lock2key (codes "EXTENDEDPROTOCOL"))
lock2key-IsFree_example = lock2key-IsFree (codes "EXTENDEDPROTOCOL")

mix_lem_example :
    (length (mix (codes "ABC")) ≡ 3)
    × (get_or (mix (codes "ABC")) 0 0 ≡ swap_nibbles (bit_xor (bit_xor (bit_xor 65 67) 66) 5))
    × ((i : ℕ)
        → suc i < 3
        → get_or (mix (codes "ABC")) (suc i) 0
          ≡ swap_nibbles (bit_xor (get_or (codes "ABC") (suc i) 0) (get_or (codes "ABC") i 0)))
mix_lem_example = mix_lem (codes "ABC") (omega arith)
