-- ===== src/Proto/Escape/Tests.antt =====
-- src/proto.c: ADC escapes at concrete texts.
use ncdc.Prelude.{◌≡◌, refl, codes, Lacks, true, false, none, some}
use ncdc.Proto.Escape.{escape, unescape, hide, read, newline}
use ncdc.Proto.Escape.RoundTrip.{unescape-escape, escape-Lacks}

escape_text : escape false (codes "a b\\") ≡ codes "a\\sb\\\\"
unfolding escape hide
escape_text = refl

unescape_unfinished : unescape false (codes "ab\\") ≡ none
unfolding unescape read
unescape_unfinished = refl

unescape-escape_example : unescape true (escape true (codes "a b\\n")) ≡ some (codes "a b\\n")
unescape-escape_example = unescape-escape true (codes "a b\\n")

escape-Lacks_example :
    Lacks b' ' (escape false (codes "a b")) × Lacks newline (escape false (codes "a b"))
escape-Lacks_example = escape-Lacks (codes "a b")
