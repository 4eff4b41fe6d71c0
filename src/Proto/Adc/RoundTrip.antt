-- ===== src/Proto/Adc/RoundTrip.antt =====
-- src/proto.c: a message that `adc_generate` and `adc_append` build is what `adc_parse` reads.
use ncdc.Prelude.{
  ℕ, List, [], ◌∷◌, ◌++◌, ◌≡◌, ◌≢◌, refl, ap₂, sym, Bytes, Lacks, All, map, true, false, arith,
  append_assoc, append-nil, if◌then◌else◌, ◌%◌, ◌/◌,
}
use ncdc.Proto.Escape.{escape}
use ncdc.Proto.Escape.RoundTrip.{
  unescape-escape, escape-Lacks, IsUnescaped, append-escape, escape-ne-nil,
}
use ncdc.Proto.Sid.{efcc}
use ncdc.Proto.Sid.RoundTrip.{IsSid, IsCommand, dfcc-efcc, tocmd-efcc}
use ncdc.Proto.Adc.{
  Glib, GlibLaws, after_blanks, Cmd, ok, Error, after_command, parse, parse_text, parse_fields,
  skip_blank, take_sid, take_source, take_dest, unescape_all, until_zero, append_sid, generate,
  append, has_source, has_dest, is_type,
}

-- Words with a blank between them.
abbrev unblank : List Bytes → Bytes
unblank [] = []
unblank (w ∷ ws) = w ++ after_blanks ws

after_blanks-append :
    (vs ws : List Bytes) → after_blanks (vs ++ ws) ≡ after_blanks vs ++ after_blanks ws
after_blanks-append [] ws = refl
after_blanks-append (v ∷ vs) ws = simp (after_blanks-append vs ws, append_assoc)

skip_blank-after_blanks :
    (e : Error) (ws : List Bytes) → skip_blank e (after_blanks ws) ≡ ok (unblank ws)
unfolding skip_blank
skip_blank-after_blanks e [] = refl
skip_blank-after_blanks e (w ∷ ws) = refl

take_sid-unblank :
    (sid : ℕ) (ws : List Bytes)
    → IsSid sid
    → take_sid (unblank (efcc sid ∷ ws)) ≡ ok (sid, unblank ws)
unfolding take_sid efcc
take_sid-unblank sid ws h = rw (skip_blank-after_blanks _ ws, dfcc-efcc sid h)

until_zero-command :
    (cmd : ℕ)
    → IsCommand cmd
    → until_zero (efcc cmd) ≡ cmd % 256 ∷ cmd / 256 % 256 ∷ cmd / 65536 % 256 ∷ []
unfolding until_zero efcc
until_zero-command cmd h = ground arith

append_sid-IsSid : (sid : ℕ) → IsSid sid → append_sid sid ≡ after_blanks (efcc sid ∷ [])
unfolding append_sid until_zero efcc
append_sid-IsSid sid h = ground arith

append_sid-zero : append_sid 0 ≡ []
unfolding append_sid
append_sid-zero = refl

-- A parameter as the callers of `adc_append` give it: a name that needs no escape, and any value.
abbrev pub IsParam : Bytes × Bytes → Type 0
IsParam (n, v) = IsUnescaped n × (n ++ v ≢ [])

abbrev word : Bytes × Bytes → Bytes
word (n, v) = n ++ escape false v

-- The arguments that the reader of the message gets.
abbrev pub joined : Bytes × Bytes → Bytes
joined (n, v) = n ++ v

unfoldable pub append_all : Bytes → List (Bytes × Bytes) → Bytes
unfolding append
append_all c [] = c
append_all c ((n, v) ∷ ps) = append_all (append c n v) ps

append_all-words :
    (c : Bytes) (ps : List (Bytes × Bytes)) → append_all c ps ≡ c ++ after_blanks (map word ps)
unfolding append_all append
append_all-words c [] = sym (append-nil c)
append_all-words c ((n, v) ∷ ps) = rw (append_all-words (append c n v) ps) (simp append_assoc)

words-escape :
    (ps : List (Bytes × Bytes)) → All IsParam ps → map word ps ≡ map (escape false) (map joined ps)
words-escape [] h = refl
words-escape ((n, v) ∷ ps) ((hn, hv), h) = ap₂ ◌∷◌ (append-escape false n v hn) (words-escape ps h)

escape-All-Lacks : (as' : List Bytes) → All (Lacks b' ') (map (escape false) as')
escape-All-Lacks [] = tt
escape-All-Lacks (a ∷ as') = ((escape-Lacks a).0, escape-All-Lacks as')

unescape_all-escape : (as' : List Bytes) → unescape_all (map (escape false) as') ≡ ok as'
unfolding unescape_all
unescape_all-escape [] = refl
unescape_all-escape (a ∷ as') =
    rw (unescape-escape false a, unescape_all) (rw (unescape_all-escape as'))

strsplit-unblank :
    {g : Glib} (laws : GlibLaws g) (as' : List Bytes)
    → All (λ a. a ≢ []) as'
    → g.strsplit (unblank (map (escape false) as')) ≡ map (escape false) as'
strsplit-unblank laws [] h = laws.strsplit-nil
strsplit-unblank laws (a ∷ as') (ha, h) =
    laws.strsplit-words (escape false a) _ (escape-ne-nil false a ha) (escape-All-Lacks (a ∷ as'))

joined-ne-nil : (ps : List (Bytes × Bytes)) → All IsParam ps → All (λ a. a ≢ []) (map joined ps)
joined-ne-nil [] h = tt
joined-ne-nil ((n, v) ∷ ps) ((hn, hv), h) = (hv, joined-ne-nil ps h)

-- The session ids that a message of a type carries, as `adc_generate` is called for it.
pub data IsHeader : ℕ → ℕ → ℕ → Type 0 where
  broadcast : (s : ℕ) → IsSid s → IsHeader b'B' s 0
  direct : (s d : ℕ) → IsSid s → IsSid d → IsHeader b'D' s d
  echo : (s d : ℕ) → IsSid s → IsSid d → IsHeader b'E' s d
  client : IsHeader b'C' 0 0
  hub : IsHeader b'H' 0 0
  info : IsHeader b'I' 0 0
  udp : IsHeader b'U' 0 0

header_one :
    (s : ℕ) (ws : List Bytes)
    → IsSid s
    → append_sid s ++ (append_sid 0 ++ after_blanks ws) ≡ after_blanks (efcc s ∷ ws)
unfolding efcc
header_one s ws hs = rw (append_sid-IsSid s hs, append_sid-zero)

header_two :
    (s d : ℕ) (ws : List Bytes)
    → IsSid s
    → IsSid d
    → append_sid s ++ (append_sid d ++ after_blanks ws) ≡ after_blanks (efcc s ∷ efcc d ∷ ws)
unfolding efcc
header_two s d ws hs hd = rw (append_sid-IsSid s hs, append_sid-IsSid d hd)

module _ (g : Glib) (feats : List ℕ) (ws as' : List Bytes) (splits : g.strsplit (unblank ws) ≡ ws)
    (reads : unescape_all ws ≡ ok as') where
  -- The session ids of the header are read, each into its field, and the words behind them become
  -- the arguments.
  parse_fields-header :
      (t k source dest : ℕ) (c : Cmd)
      → IsHeader t source dest
      → parse_fields g feats
          (record c { type = t; cmd = k })
          (append_sid source ++ (append_sid dest ++ after_blanks ws))
        ≡ ok (record {
          type = t;
          cmd = k;
          source = (if has_source t then source else c.source);
          dest = (if has_dest t then dest else c.dest);
          argv = as';
        })
  unfolding parse_fields take_source take_dest
  parse_fields-header t k source dest c (broadcast s hs) =
      rw (header_one s ws hs, take_sid-unblank s ws hs, splits, reads)
  parse_fields-header t k source dest c (direct s d hs hd) = rw (
    header_two s d ws hs hd,
    take_sid-unblank s (efcc d ∷ ws) hs,
    take_sid-unblank d ws hd,
    splits,
    reads,
  )
  parse_fields-header t k source dest c (echo s d hs hd) = rw (
    header_two s d ws hs hd,
    take_sid-unblank s (efcc d ∷ ws) hs,
    take_sid-unblank d ws hd,
    splits,
    reads,
  )
  parse_fields-header t k source dest c client =
      rw (append_sid-zero, skip_blank-after_blanks after_command ws, splits, reads)
  parse_fields-header t k source dest c hub =
      rw (append_sid-zero, skip_blank-after_blanks after_command ws, splits, reads)
  parse_fields-header t k source dest c info =
      rw (append_sid-zero, skip_blank-after_blanks after_command ws, splits, reads)
  parse_fields-header t k source dest c udp =
      rw (append_sid-zero, skip_blank-after_blanks after_command ws, splits, reads)

generate-command :
    (t cmd source dest : ℕ) (r : Bytes)
    → IsCommand cmd
    → generate t cmd source dest ++ r
      ≡ t
        ∷ cmd % 256
        ∷ cmd / 256 % 256
        ∷ cmd / 65536 % 256
        ∷ (append_sid source ++ (append_sid dest ++ r))
unfolding generate
generate-command t cmd source dest r h = rw (until_zero-command cmd h) (simp append_assoc)

is_type-header : {t source dest : ℕ} → IsHeader t source dest → is_type t ≡ true
is_type-header (broadcast s hs) = refl
is_type-header (direct s d hs hd) = refl
is_type-header (echo s d hs hd) = refl
is_type-header client = refl
is_type-header hub = refl
is_type-header info = refl
is_type-header udp = refl

-- A message that `adc_generate` makes and `adc_append` extends by parameters is parsed into its
-- type, its command, its session ids and the parameters in order, each name joined to its value.
-- The conditions: the message is valid UTF-8, the command and the session ids that the type has
-- are of ASCII bytes, the names need no escape, no parameter is empty, and GLib splits text as
-- documented. Types with a feature list are not among them.
pub parse-generate :
    (g : Glib) (c : Cmd) (feats : List ℕ) (t cmd source dest : ℕ) (ps : List (Bytes × Bytes))
    → GlibLaws g
    → IsHeader t source dest
    → IsCommand cmd
    → All IsParam ps
    → g.utf8_validate (append_all (generate t cmd source dest) ps) ≡ true
    → parse g (append_all (generate t cmd source dest) ps) c feats
      ≡ ok (record {
        type = t;
        cmd = cmd;
        source = (if has_source t then source else c.source);
        dest = (if has_dest t then dest else c.dest);
        argv = map joined ps;
      })
unfolding parse parse_text
parse-generate g c feats t cmd source dest ps laws h hc hp valid =
    rw
      (
        valid,
        append_all-words (generate t cmd source dest) ps,
        generate-command t cmd source dest (after_blanks (map word ps)) hc,
        is_type-header h,
        tocmd-efcc cmd hc,
        words-escape ps hp,
      )
      (parse_fields-header g feats (map (escape false) (map joined ps)) (map joined ps)
        (strsplit-unblank laws (map joined ps) (joined-ne-nil ps hp))
        (unescape_all-escape (map joined ps)) t cmd source dest c h)
