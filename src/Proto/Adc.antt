-- ===== src/Proto/Adc.antt =====
-- src/proto.c: `adc_parse`, `adc_generate`, `adc_append` and the search for parameters. The cursor
-- `off` into the message is the text that is left. Two functions of GLib are parameters; their
-- documented behaviour is in the record `GlibLaws`.
pub mod Params
pub mod RoundTrip
pub mod Feats
mod Tests
use ncdc.Prelude.{ℕ, List, [], ◌∷◌, ◌++◌, Bytes, length, ltb, ◌==◌, ◌&&◌, ◌||◌, if◌then◌else◌}
use ncdc.Prelude.{Bool, true, false, not, Option, none, some, ◌%◌, ◌≡◌, ◌≢◌, All, Lacks}
use ncdc.Proto.Escape
use ncdc.Proto.Sid.{efcc, dfcc, tocmd}

-- `g_utf8_validate(str, -1, NULL)` and `g_strsplit(str, " ", 0)`.
pub record Glib : Type 0 where
  pub utf8_validate : Bytes → Bool
  pub strsplit : Bytes → List Bytes

-- Words with a blank in front of each.
abbrev pub after_blanks : List Bytes → Bytes
after_blanks [] = []
after_blanks (w ∷ ws) = b' ' ∷ (w ++ after_blanks ws)

-- What the documentation of `g_strsplit` says of a text of words: the words are returned, and the
-- empty text has none.
pub record GlibLaws (g : Glib) : Type 0 where
  pub strsplit-nil : g.strsplit [] ≡ []
  pub strsplit-words :
      (w : Bytes) (ws : List Bytes)
      → w ≢ []
      → All (Lacks b' ') (w ∷ ws)
      → g.strsplit (w ++ after_blanks ws) ≡ w ∷ ws

-- `adc_cmd_t`; `argc` is the length of `argv`.
pub record Cmd : Type 0 where
  pub type : ℕ
  pub cmd : ℕ
  pub source : ℕ
  pub dest : ℕ
  pub argv : List Bytes

-- The messages that `adc_parse` sets in `err`.
pub data Error : Type 0 where
  invalid_encoding too_short invalid_type after_command after_argument : Error
  feature_missing feature_excluded invalid_escape : Error

pub data Result {ℓ} (A : Type ℓ) : Type ℓ where
  ok : A → Result A
  err : Error → Result A

infixl 5 ◌>>=◌
abbrev ◌>>=◌ {ℓ κ} : {A : Type ℓ} {B : Type κ} → Result A → (A → Result B) → Result B
ok a >>= f = f a
err e >>= f = err e

int_in_array : List ℕ → ℕ → Bool
int_in_array [] needle = false
int_in_array (f ∷ arr) needle = f == needle || int_in_array arr needle

abbrev is_type : ℕ → Bool
is_type t =
    t == b'B'
    || t == b'C'
    || t == b'D'
    || t == b'E'
    || t == b'F'
    || t == b'H'
    || t == b'I'
    || t == b'U'

abbrev has_source : ℕ → Bool
has_source t = t == b'B' || t == b'D' || t == b'E' || t == b'F'

abbrev has_dest : ℕ → Bool
has_dest t = t == b'D' || t == b'E'

-- The end of the command: nothing more, or a blank that is passed over.
skip_blank : Error → Bytes → Result Bytes
skip_blank e [] = ok []
skip_blank e (c ∷ off) = if c == b' ' then ok off else err e

-- A session id and the blank behind it.
take_sid : Bytes → Result (ℕ × Bytes)
unfolding skip_blank
take_sid (a ∷ b ∷ c ∷ d ∷ off) = do off' ← skip_blank after_argument off; ok (dfcc a b c d, off')
take_sid off = err too_short

-- The text up to the first blank, and what stands behind that blank.
split_word : Bytes → Bytes × Bytes
split_word [] = ([], [])
split_word (c ∷ s) = let (w, off) = split_word s in if c == b' ' then ([], s) else (c ∷ w, off)

-- The loop over the features that the message asks for, five bytes each.
check_feats : List ℕ → Bytes → Result (Unit {0})
unfolding int_in_array
check_feats feats (sign ∷ a ∷ b ∷ c ∷ d ∷ s) =
    let f = dfcc a b c d in
    let rest = check_feats feats s in
    if sign == b'+' && not (int_in_array feats f)
    then err feature_missing
    else if sign == b'-' && int_in_array feats f
    then err feature_excluded
    else rest
check_feats feats s = ok tt

pub take_feats : List ℕ → Bytes → Result Bytes
unfolding split_word check_feats
take_feats feats off =
    let (w, rest) = split_word off in
    if not (length w % 5 == 0) then err too_short else check_feats feats w >>= λ u. ok rest

unescape_all : List Bytes → Result (List Bytes)
unescape_all [] = ok []
unescape_all (s ∷ ss) = elim (Escape.unescape false s) [
  | none ↦ err invalid_escape
  | some a ↦ unescape_all ss >>= λ as'. ok (a ∷ as')
]

-- The fields that only some types of message have.
take_source : Cmd → Bytes → Result (Cmd × Bytes)
unfolding take_sid
take_source c off =
    if has_source c.type
    then (take_sid off >>= λ (s, off'). ok (record c { source = s }, off'))
    else ok (c, off)

take_dest : Cmd → Bytes → Result (Cmd × Bytes)
unfolding take_sid
take_dest c off =
    if has_dest c.type
    then (take_sid off >>= λ (s, off'). ok (record c { dest = s }, off'))
    else ok (c, off)

module _ (g : Glib) where
  -- What follows the type and the command.
  parse_fields : List ℕ → Cmd → Bytes → Result Cmd
  unfolding take_source take_dest take_feats skip_blank unescape_all
  parse_fields feats c s = do
    off0 ← skip_blank after_command s
    (c1, off1) ← take_source c off0
    (c2, off2) ← take_dest c1 off1
    off3 ← if c.type == b'F' then take_feats feats off2 else ok off2
    args ← unescape_all (g.strsplit off3)
    ok (record c2 { argv = args })

  parse_text : Bytes → Cmd → List ℕ → Result Cmd
  unfolding parse_fields
  parse_text (t ∷ x ∷ y ∷ z ∷ s) c feats =
      if is_type t
      then parse_fields feats (record c { type = t; cmd = tocmd x y z }) s
      else err invalid_type
  parse_text s c feats = err too_short

  -- `c` holds what the caller's struct held: the fields that the type does not have stay as they
  -- were. The struct of a refused message is not read by any caller and not modelled.
  unfoldable pub parse : Bytes → Cmd → List ℕ → Result Cmd
  unfolding parse_text
  parse str c feats =
      if not (g.utf8_validate str) then err invalid_encoding else parse_text str c feats

-- `g_string_append` copies up to the terminating zero.
until_zero : Bytes → Bytes
until_zero [] = []
until_zero (c ∷ s) = if c == 0 then [] else c ∷ until_zero s

append_sid : ℕ → Bytes
unfolding until_zero
append_sid sid = if sid == 0 then [] else b' ' ∷ until_zero (efcc sid)

unfoldable pub generate : ℕ → ℕ → ℕ → ℕ → Bytes
unfolding append_sid until_zero
generate type cmd source dest =
    type ∷ (until_zero (efcc cmd) ++ (append_sid source ++ append_sid dest))

-- A name of NULL is the empty one.
unfoldable pub append : Bytes → Bytes → Bytes → Bytes
append c name arg = c ++ (b' ' ∷ (name ++ Escape.escape false arg))
