-- ===== src/Proto/Escape.antt =====
-- src/proto.c: `adc_escape` and `adc_unescape`, the escapes of an ADC parameter.
pub mod RoundTrip
mod Tests
use ncdc.Prelude.{ℕ, List, [], ◌∷◌, ◌++◌, Bytes, codes, ◌==◌, ◌&&◌, ◌||◌, if◌then◌else◌}
use ncdc.Prelude.{Bool, true, false, Option, none, some, ◌>>=◌}

abbrev pub backslash : ℕ
backslash = b'\\'

abbrev pub newline : ℕ
newline = 10

-- What one round of `adc_escape` appends; the flag asks for the escapes of an NMDC hub.
hide : Bool → ℕ → Bytes
hide nmdc c =
    if c == b' '
    then if nmdc then codes "\\ " else codes "\\s"
    else if c == newline
    then codes "\\n"
    else if c == backslash
    then codes "\\\\"
    else c ∷ []

unfoldable pub escape : Bool → Bytes → Bytes
unfolding hide
escape nmdc [] = []
escape nmdc (c ∷ s) = hide nmdc c ++ escape nmdc s

-- The byte that a backslash and `c` stand for.
reveal : Bool → ℕ → Option ℕ
reveal nmdc c =
    if c == b's' || (nmdc && c == b' ')
    then some b' '
    else if c == b'n'
    then some newline
    else if c == backslash
    then some backslash
    else none

-- The loop of `adc_unescape`; the flag `pending` is set between a backslash and its letter. A
-- backslash at the end meets the terminating zero, which is no letter.
read : Bool → Bool → Bytes → Option Bytes
unfolding reveal
read nmdc true [] = none
read nmdc false [] = some []
read nmdc true (c ∷ s) = do o ← reveal nmdc c; r ← read nmdc false s; some (o ∷ r)
read nmdc false (c ∷ s) = elim (c == backslash) [
  | true ↦ read nmdc true s
  | false ↦ read nmdc false s >>= λ r. some (c ∷ r)
]

unfoldable pub unescape : Bool → Bytes → Option Bytes
unfolding read
unescape nmdc s = read nmdc false s
