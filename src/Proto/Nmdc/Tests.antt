-- ===== src/Proto/Nmdc/Tests.antt =====
-- src/proto.c: NMDC escaping at concrete texts.
use ncdc.Prelude.{◌≡◌, refl, codes, Lacks}
use ncdc.Proto.Nmdc.{
  escape, unescape, encode_and_escape, unescape_and_decode, unescape_from, hide, reveal,
}
use ncdc.Proto.Nmdc.RoundTrip.{decode-encode, encode_and_escape-Lacks}

escape_text : escape (codes "a|b$&amp;&x") ≡ codes "a&#124;b&#36;&amp;amp;&x"
unfolding escape hide
escape_text = refl

unescape_text : unescape (codes "&amp;#36;|&#124;&am") ≡ codes "&#36;||&am"
unfolding unescape unescape_from reveal
unescape_text = refl

decode-encode_example :
    unescape_and_decode (λ to s. s) (encode_and_escape (λ to s. s) (codes "&#36;$|"))
    ≡ codes "&#36;$|"
decode-encode_example = decode-encode (λ to s. s) (codes "&#36;$|") refl

encode_and_escape-Lacks_example :
    let out = encode_and_escape (λ to s. s) (codes "a$|b") in Lacks b'$' out × Lacks b'|' out
encode_and_escape-Lacks_example = encode_and_escape-Lacks (λ to s. s) (codes "a$|b")
