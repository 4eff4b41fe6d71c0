-- ===== src/Proto/Sid/RoundTrip.antt =====
-- src/proto.c: a session id or command of ASCII bytes survives its way through the wire.
mod Tests
use ncdc.Prelude.{ℕ, [], ◌∷◌, ◌≡◌, ◌≢◌, refl, Bytes, All, arith, ◌+◌, ◌*◌, ◌/◌, ◌%◌, ◌^◌, ◌<◌, ◌≤◌}
use ncdc.Proto.Sid.{promote, efcc, dfcc, tocmd}

-- A byte that is neither the terminating zero nor negative as a `char`.
abbrev pub IsAscii : ℕ → Type 0
IsAscii c = (0 < c) × (c < 128)

-- A session id whose four bytes are ASCII, as those of ADC are.
abbrev pub IsSid : ℕ → Type 0
IsSid sid =
    (sid < 2 ^ 32)
    × IsAscii (sid % 256)
    × IsAscii (sid / 256 % 256)
    × IsAscii (sid / 65536 % 256)
    × IsAscii (sid / 16777216 % 256)

-- A command of three ASCII bytes.
abbrev pub IsCommand : ℕ → Type 0
IsCommand cmd =
    (cmd < 2 ^ 24) × IsAscii (cmd % 256) × IsAscii (cmd / 256 % 256) × IsAscii (cmd / 65536)

-- The four bytes that `ADC_EFCC` writes for a session id of ASCII bytes are read back by
-- `ADC_DFCC`.
pub dfcc-efcc :
    (sid : ℕ)
    → IsSid sid
    → dfcc (sid % 256) (sid / 256 % 256) (sid / 65536 % 256) (sid / 16777216 % 256) ≡ sid
unfolding dfcc
dfcc-efcc sid h = ground arith

pub tocmd-efcc :
    (cmd : ℕ) → IsCommand cmd → tocmd (cmd % 256) (cmd / 256 % 256) (cmd / 65536 % 256) ≡ cmd
unfolding tocmd
tocmd-efcc cmd h = ground arith

-- Four ASCII bytes are what `ADC_EFCC` writes for the number that `ADC_DFCC` reads.
pub efcc-dfcc :
    (a b c d : ℕ) → All IsAscii (a ∷ b ∷ c ∷ d ∷ []) → efcc (dfcc a b c d) ≡ a ∷ b ∷ c ∷ d ∷ []
unfolding efcc dfcc
efcc-dfcc a b c d h = ground arith
