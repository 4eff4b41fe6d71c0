-- ===== src/Proto/Adc/Tests.antt =====
-- src/proto.c: ADC messages at concrete values, with a splitter of text that meets `GlibLaws`.
use ncdc.Prelude.{
  ℕ, List, [], ◌∷◌, ◌++◌, Bytes, some, ◌≡◌, ◌≢◌, refl, true, false, All, Lacks, ◌↔◌, inl, arith,
  ◌==◌, ==_false, codes, append_assoc, append-nil,
}
use ncdc.Proto.Sid.{efcc}
use ncdc.Proto.Escape
use ncdc.Proto.Adc.{
  Glib, GlibLaws, Cmd, ok, err, after_blanks, parse, generate, take_feats, too_short,
}
use ncdc.Proto.Adc.Params.{getparam, getparams, getparams-getparam}
use ncdc.Proto.Adc.Feats.{feature_text, Accepts, take_feats_iff}
use ncdc.Proto.Adc.RoundTrip.{append_all, parse-generate, IsHeader}

cut : Bytes → Bytes → List Bytes
cut [] cur = cur ∷ []
cut (c ∷ s) cur = elim (c == b' ') [ true ↦ cur ∷ cut s [] | false ↦ cut s (cur ++ (c ∷ [])) ]

split_blanks : Bytes → List Bytes
split_blanks [] = []
split_blanks (c ∷ s) = cut (c ∷ s) []

cut-nil : (w cur : Bytes) → Lacks b' ' w → cut w cur ≡ (cur ++ w) ∷ []
unfolding cut
cut-nil [] cur h = rw append-nil
cut-nil (c ∷ w) cur (hc, h) =
    rw (==_false c b' ' hc, cut) (rw (cut-nil w (cur ++ (c ∷ [])) h, append_assoc))

cut-word : (w cur s : Bytes) → Lacks b' ' w → cut (w ++ (b' ' ∷ s)) cur ≡ (cur ++ w) ∷ cut s []
unfolding cut
cut-word [] cur s h = rw append-nil
cut-word (c ∷ w) cur s (hc, h) =
    rw (==_false c b' ' hc, cut) (rw (cut-word w (cur ++ (c ∷ [])) s h, append_assoc))

cut-words :
    (w : Bytes) (ws : List Bytes)
    → All (Lacks b' ') (w ∷ ws)
    → cut (w ++ after_blanks ws) [] ≡ w ∷ ws
cut-words w [] (h, _) = rw append-nil (cut-nil w [] h)
cut-words w (v ∷ ws) (h, hs) = rw (cut-word w [] (v ++ after_blanks ws) h, cut-words v ws hs)

split_blanks-words :
    (w : Bytes) (ws : List Bytes)
    → w ≢ []
    → All (Lacks b' ') (w ∷ ws)
    → split_blanks (w ++ after_blanks ws) ≡ w ∷ ws
unfolding split_blanks
split_blanks-words [] ws ne h = absurd (ne refl)
split_blanks-words (c ∷ w) ws ne h = cut-words (c ∷ w) ws h

abbrev blanks : Glib
unfolding split_blanks cut
blanks = record { utf8_validate = λ s. true; strsplit = split_blanks }

blanks-GlibLaws : GlibLaws blanks
unfolding blanks
blanks-GlibLaws = record { strsplit-nil = refl; strsplit-words = split_blanks-words }

abbrev empty_cmd : Cmd
empty_cmd = record { type = 0; cmd = 0; source = 0; dest = 0; argv = [] }

abbrev sid : ℕ
sid = 0x43424141

abbrev inf : ℕ
inf = 0x464e49

abbrev params : List (Bytes × Bytes)
params = (codes "NI", codes "a b") ∷ (codes "I4", []) ∷ []

generate_text : append_all (generate b'B' inf sid 0) params ≡ codes "BINF AABC NIa\\sb I4"
unfolding append_all generate Escape.escape efcc
generate_text = refl

too_short_text : parse blanks (codes "BIN") empty_cmd [] ≡ err too_short
unfolding parse blanks
too_short_text = refl

parse-generate_example :
    parse blanks (append_all (generate b'B' inf sid 0) params) empty_cmd []
    ≡ ok (record {
      type = b'B';
      cmd = inf;
      source = sid;
      dest = 0;
      argv = codes "NIa b" ∷ codes "I4" ∷ [];
    })
unfolding blanks
parse-generate_example =
    parse-generate blanks empty_cmd [] b'B' inf sid 0 params blanks-GlibLaws
      (IsHeader.broadcast sid (omega arith)) (omega arith)
      ((omega arith, (cc)), ((omega arith, (cc)), tt)) refl

getparams-getparam_example :
    getparams (codes "NIx" ∷ codes "I4" ∷ codes "NIy" ∷ []) b'N' b'I'
    ≡ some (codes "x" ∷ codes "y" ∷ [])
unfolding getparam getparams
getparams-getparam_example =
    getparams-getparam (codes "NIx" ∷ codes "I4" ∷ codes "NIy" ∷ []) b'N' b'I'

take_feats_iff_example :
    (take_feats (sid ∷ []) (feature_text ((b'+', sid) ∷ []) ++ (b' ' ∷ codes "SI9"))
      ≡ ok (codes "SI9"))
    ↔ All (Accepts (sid ∷ [])) ((b'+', sid) ∷ [])
unfolding feature_text efcc
take_feats_iff_example =
    take_feats_iff (sid ∷ []) ((b'+', sid) ∷ []) (codes "SI9") ((inl refl, omega arith), tt)
      (omega arith)
