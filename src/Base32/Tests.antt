-- ===== src/Base32/Tests.antt =====
-- src/util.c: a text of five bytes in base 32, and back.
use ncdc.Prelude.{codes, ◌≡◌, refl}
use ncdc.Base32.{base32_encode_dat, base32_decode, encode_from, decode_from, emit, letter, digit_of}

encodes : base32_encode_dat (codes "foobar") ≡ codes "MZXW6YTBOI"
unfolding base32_encode_dat encode_from emit letter
encodes = refl

decodes : base32_decode (codes "MZXW6YTBOI") ≡ codes "foobar"
unfolding base32_decode decode_from digit_of
decodes = refl
