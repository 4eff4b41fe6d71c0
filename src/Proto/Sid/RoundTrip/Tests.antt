-- ===== src/Proto/Sid/RoundTrip/Tests.antt =====
-- src/proto.c: four-character codes at concrete values.
use ncdc.Prelude.{◌≡◌, refl, codes, [], ◌∷◌, arith, ◌^◌, ◌-◌}
use ncdc.Proto.Sid.{efcc, dfcc, tocmd}
use ncdc.Proto.Sid.RoundTrip.{efcc-dfcc}

command_inf : efcc (tocmd b'I' b'N' b'F') ≡ b'I' ∷ b'N' ∷ b'F' ∷ 0 ∷ []
unfolding efcc tocmd
command_inf = refl

-- A byte that is negative as a `char` makes the code of another number.
negative_byte : dfcc 128 0 0 0 ≡ 2 ^ 32 - 128
unfolding dfcc
negative_byte = refl

efcc-dfcc_example : efcc (dfcc b'A' b'B' b'C' b'2') ≡ codes "ABC2"
efcc-dfcc_example = efcc-dfcc b'A' b'B' b'C' b'2' (omega arith)
