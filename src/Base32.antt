-- ===== src/Base32.antt =====
-- src/util.c: `base32_encode_dat` and `base32_decode`. The characters of a text are their codes; the
-- `int` `value` keeps its low 32 bits, since nothing above them is read.
mod Tests
use ncdc.Prelude.{
  ℕ, zero, suc, List, [], ◌∷◌, ◌++◌, Bytes, codes, ltb, leb, if◌then◌else◌, get_or, ◌+◌, ◌-◌, ◌*◌,
  ◌/◌, ◌%◌, ◌^◌,
}

abbrev pub alphabet : Bytes
alphabet = codes "ABCDEFGHIJKLMNOPQRSTUVWXYZ234567"

-- `alphabet[x & 0x1F]`
pub letter : ℕ → ℕ
letter x = get_or alphabet (x % 32) 0

-- The loop over `bits`, which is below 13 when it starts: what it writes, and what is left of `bits`.
pub emit : ℕ → ℕ → ℕ → Bytes × ℕ
unfolding letter
emit zero value bits = ([], bits)
emit (suc fuel) value bits =
    let (out, bits') = emit fuel value (bits - 5) in
    if ltb 5 bits then (letter (value / 2 ^ (bits - 5)) ∷ out, bits') else ([], bits)

-- The loop over the data, for `value` and `bits`, and the last letter.
pub encode_from : ℕ → ℕ → Bytes → Bytes
unfolding emit letter
encode_from value bits [] = if ltb 0 bits then letter (value * 2 ^ (5 - bits)) ∷ [] else []
encode_from value bits (x ∷ data') =
    let value' = (value * 256 + x) % 2 ^ 32 in
    let (out, bits') = emit 3 value' (bits + 8) in out ++ encode_from value' bits' data'

unfoldable pub base32_encode_dat : Bytes → Bytes
unfolding encode_from
base32_encode_dat = encode_from 0 0

-- `*from <= '9' ? (26+(*from-'2')) : *from-'A'`
pub digit_of : ℕ → ℕ
digit_of c = if leb c b'9' then 26 + (c - b'2') else c - b'A'

-- The loop over the text; `while(bits >= 8)` writes one byte at most.
pub decode_from : ℕ → ℕ → Bytes → Bytes
unfolding digit_of
decode_from value bits [] = []
decode_from value bits (c ∷ from) =
    let value' = (value * 32 + digit_of c) % 2 ^ 32 in
    let rest = decode_from value' (bits + 5) from in
    let rest' = decode_from value' (bits + 5 - 8) from in
    if leb 8 (bits + 5) then (value' / 2 ^ (bits + 5 - 8) % 256) ∷ rest' else rest

unfoldable pub base32_decode : Bytes → Bytes
unfolding decode_from
base32_decode = decode_from 0 0
