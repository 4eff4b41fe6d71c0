-- ===== src/Proto/Nmdc.antt =====
-- src/proto.c: `nmdc_encode_and_escape` and `nmdc_unescape_and_decode`.
-- The character set conversion around the two loops is the argument `convert`: `charset_convert`
-- hands the text to iconv with the hub's encoding.
pub mod RoundTrip
mod Tests
use ncdc.Prelude.{ℕ, zero, suc, List, [], ◌∷◌, ◌++◌, Bytes, codes, starts_with, ◌==◌}
use ncdc.Prelude.{◌&&◌, ◌||◌, if◌then◌else◌, Bool, true, false}

-- The texts that stand for `$`, `|` and `&`.
abbrev pub dollar_entity : Bytes
dollar_entity = codes "&#36;"

abbrev pub pipe_entity : Bytes
pipe_entity = codes "&#124;"

abbrev pub amp_entity : Bytes
amp_entity = codes "&amp;"

-- Whether the text at the cursor reads like an entity.
is_entity : Bytes → Bool
is_entity s = starts_with amp_entity s || starts_with dollar_entity s || starts_with pipe_entity s

-- What one round of the escaping loop appends, at the character `c` with `s` behind it.
hide : ℕ → Bytes → Bytes
unfolding is_entity
hide c s =
    if c == b'$'
    then dollar_entity
    else if c == b'|'
    then pipe_entity
    else if c == b'&' && is_entity (c ∷ s)
    then amp_entity
    else c ∷ []

unfoldable pub escape : Bytes → Bytes
unfolding hide
escape [] = []
escape (c ∷ s) = hide c s ++ escape s

-- One round of the unescaping loop at a text: the byte that it appends, and by how many bytes more
-- than one it moves on.
reveal : ℕ → Bytes → ℕ × ℕ
reveal c s =
    if starts_with dollar_entity (c ∷ s)
    then (b'$', 4)
    else if starts_with pipe_entity (c ∷ s)
    then (b'|', 5)
    else if starts_with amp_entity (c ∷ s)
    then (b'&', 4)
    else (c, 0)

-- The unescaping loop; the first argument counts the bytes of an entity that are still skipped.
unescape_from : ℕ → Bytes → Bytes
unfolding reveal
unescape_from k [] = []
unescape_from (suc k) (c ∷ s) = unescape_from k s
unescape_from zero (c ∷ s) = let (o, k) = reveal c s in o ∷ unescape_from k s

unfoldable pub unescape : Bytes → Bytes
unfolding unescape_from
unescape = unescape_from 0

-- `convert to_utf8 text` is `charset_convert` for the hub at hand.
module _ (convert : Bool → Bytes → Bytes) where
  pub encode_and_escape : Bytes → Bytes
  encode_and_escape s = escape (convert false s)

  pub unescape_and_decode : Bytes → Bytes
  unescape_and_decode s = convert true (unescape s)
