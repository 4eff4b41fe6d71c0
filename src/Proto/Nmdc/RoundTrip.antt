-- ===== src/Proto/Nmdc/RoundTrip.antt =====
-- src/proto.c: NMDC escaping is undone by unescaping, and hides the separators of the protocol.
use ncdc.Prelude.{
  ℕ, [], ◌∷◌, ◌++◌, ◌≡◌, ◌≢◌, refl, ap, Bytes, starts_with, Lacks, All, length, codes, ◌∙◌,
  All-append, Bool, true, false, arith, ==_false,
}
use native.Mathlib.Decide.{ℕ_discrete}
use ncdc.Proto.Nmdc.{
  hide, escape, reveal, unescape_from, unescape, is_entity, encode_and_escape, unescape_and_decode,
}

-- A byte that the escaping loop copies whatever follows it.
abbrev IsPlain : ℕ → Type 0
IsPlain c = (c ≢ b'$') × (c ≢ b'|') × (c ≢ b'&')

escape-plain : (c : ℕ) (s : Bytes) → IsPlain c → escape (c ∷ s) ≡ c ∷ escape s
unfolding escape hide
escape-plain c s h = ground arith

hide-head :
    (c : ℕ) (s : Bytes) (p : ℕ) (r t : Bytes)
    → IsPlain p
    → p ≢ c
    → starts_with (p ∷ r) (hide c s ++ t) ≡ false
unfolding hide
hide-head c s p r t h ne = ground arith

-- A text of plain bytes is a prefix of the escaped text only if it is one of the text.
starts_with-escape : (p s : Bytes) → All IsPlain p → starts_with p (escape s) ≡ starts_with p s
starts_with-escape [] s h = refl
starts_with-escape (c ∷ p) [] h = unfold escape in refl
starts_with-escape (c ∷ p) (d ∷ s) (hc, hp) = elim (ℕ_discrete c d) [
  | yes e ↦ ground (arith, escape-plain d s, starts_with-escape p s hp)
  | no ne ↦ unfold escape in rw (hide-head d s c p (escape s) hc ne, ==_false c d ne)
]

-- Escaping the text behind a character leaves the test for an entity as it was.
entity-escape :
    (p s : Bytes) → All IsPlain p → starts_with (b'&' ∷ p) (b'&' ∷ escape s) ≡ starts_with p s
entity-escape p s h = starts_with-escape p s h

unescape-skip : (p s : Bytes) → unescape_from (length p) (p ++ s) ≡ unescape s
unfolding unescape unescape_from
unescape-skip [] s = refl
unescape-skip (c ∷ p) s = unescape-skip p s

-- An ampersand that starts no entity is copied by the unescaping loop.
reveal-amp : (s : Bytes) → is_entity (b'&' ∷ s) ≡ false → reveal b'&' (escape s) ≡ (b'&', 0)
unfolding is_entity reveal
reveal-amp s h =
    rw
      (
        entity-escape (codes "#36;") s (omega arith),
        entity-escape (codes "#124;") s (omega arith),
        entity-escape (codes "amp;") s (omega arith),
      )
      (ground arith)

hide-plain : (c : ℕ) (s : Bytes) → IsPlain c → hide c s ≡ c ∷ []
unfolding hide
hide-plain c s h = ground arith

reveal-plain : (c : ℕ) (s : Bytes) → c ≢ b'&' → reveal c s ≡ (c, 0)
unfolding reveal
reveal-plain c s h = ground arith

unescape-amp :
    (s : Bytes) (e : Bool)
    → is_entity (b'&' ∷ s) ≡ e
    → unescape (hide b'&' s ++ escape s) ≡ b'&' ∷ unescape (escape s)
unfolding hide unescape unescape_from
unescape-amp s true h = rw (h, hide) (unfold reveal in refl)
unescape-amp s false h = rw (h, hide) (rw (reveal-amp s h) refl)

-- One escaped character is read back, whatever stands behind it.
unescape-hide : (c : ℕ) (s : Bytes) → unescape (hide c s ++ escape s) ≡ c ∷ unescape (escape s)
unescape-hide c s = elim (ℕ_discrete c b'$') [
  | yes e ↦ rw e (unfold hide unescape unescape_from reveal in refl)
  | no ne ↦ elim (ℕ_discrete c b'|') [
    | yes e ↦ rw e (unfold hide unescape unescape_from reveal in refl)
    | no np ↦ elim (ℕ_discrete c b'&') [
      | yes e ↦ rw e (unescape-amp s _ refl)
      | no na ↦
          rw (hide-plain c s (ne, np, na))
            (unfold unescape unescape_from in rw (reveal-plain c (escape s) na))
    ]
  ]
]

-- Unescaping undoes escaping, for every text.
pub unescape_lem : (s : Bytes) → unescape (escape s) ≡ s
unfolding escape
unescape_lem [] = unfold unescape unescape_from in refl
unescape_lem (c ∷ s) = unescape-hide c s ∙ ap (λ t. c ∷ t) (unescape_lem s)

hide-Lacks : (c : ℕ) (s : Bytes) → Lacks b'$' (hide c s) × Lacks b'|' (hide c s)
unfolding hide
hide-Lacks c s = ground arith

escape_lem : (s : Bytes) → Lacks b'$' (escape s) × Lacks b'|' (escape s)
unfolding escape
escape_lem [] = (tt, tt)
escape_lem (c ∷ s) =
    let (d, p) = hide-Lacks c s in
    let (ds, ps) = escape_lem s in
    (All-append _ (hide c s) (escape s) d ds, All-append _ (hide c s) (escape s) p ps)

-- Where the conversion to the hub's encoding loses nothing of `s`, a text that was encoded and
-- escaped for NMDC is read back as it was.
pub decode-encode :
    (convert : Bool → Bytes → Bytes) (s : Bytes)
    → convert true (convert false s) ≡ s
    → unescape_and_decode convert (encode_and_escape convert s) ≡ s
unfolding unescape_and_decode encode_and_escape
decode-encode convert s h = rw (unescape_lem (convert false s), h)

-- An encoded and escaped text holds neither `$` nor `|`, the separators of NMDC, whatever the
-- conversion gives.
pub encode_and_escape-Lacks :
    (convert : Bool → Bytes → Bytes) (s : Bytes)
    → let out = encode_and_escape convert s in Lacks b'$' out × Lacks b'|' out
unfolding encode_and_escape
encode_and_escape-Lacks convert s = escape_lem (convert false s)
