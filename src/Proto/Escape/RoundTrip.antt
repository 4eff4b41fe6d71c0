-- ===== src/Proto/Escape/RoundTrip.antt =====
-- src/proto.c: ADC escaping is undone by unescaping, and hides blanks and line ends.
use ncdc.Prelude.{
  ℕ, append_assoc, [], ◌∷◌, ◌++◌, ◌≡◌, ◌≢◌, refl, Bytes, Lacks, All, All-append, Bool, false, arith,
  some, ◌>>=◌,
}
use ncdc.Proto.Escape.{hide, escape, reveal, read, unescape, backslash, newline}

read-hide :
    (nmdc : Bool) (c : ℕ) (s : Bytes)
    → read nmdc false (hide nmdc c ++ s) ≡ (read nmdc false s >>= λ r. some (c ∷ r))
unfolding read hide reveal
read-hide nmdc c s = ground arith

-- Unescaping undoes escaping, with the escapes of ADC and with those of NMDC, for every text.
pub unescape-escape : (nmdc : Bool) (s : Bytes) → unescape nmdc (escape nmdc s) ≡ some s
unfolding unescape escape
unescape-escape nmdc [] = unfold read in refl
unescape-escape nmdc (c ∷ s) = rw (read-hide nmdc c (escape nmdc s), unescape-escape nmdc s)

hide-Lacks : (c : ℕ) → Lacks b' ' (hide false c) × Lacks newline (hide false c)
unfolding hide
hide-Lacks c = ground arith

-- A text escaped for ADC holds no blank, which separates parameters, and no newline, which ends a
-- message.
pub escape-Lacks : (s : Bytes) → Lacks b' ' (escape false s) × Lacks newline (escape false s)
unfolding escape
escape-Lacks [] = (tt, tt)
escape-Lacks (c ∷ s) =
    let (b, n) = hide-Lacks c in
    let (bs, ns) = escape-Lacks s in
    (
      All-append _ (hide false c) (escape false s) b bs,
      All-append _ (hide false c) (escape false s) n ns,
    )

escape-append : (nmdc : Bool) (s t : Bytes) → escape nmdc (s ++ t) ≡ escape nmdc s ++ escape nmdc t
unfolding escape
escape-append nmdc [] t = refl
escape-append nmdc (c ∷ s) t = rw (escape-append nmdc s t, append_assoc)

-- A text that no escape changes.
abbrev pub IsUnescaped : Bytes → Type 0
IsUnescaped = All (λ c. (c ≢ b' ') × (c ≢ newline) × (c ≢ backslash))

hide-IsUnescaped :
    (nmdc : Bool) (c : ℕ) → (c ≢ b' ') × (c ≢ newline) × (c ≢ backslash) → hide nmdc c ≡ c ∷ []
unfolding hide
hide-IsUnescaped nmdc c h = ground arith

pub escape-IsUnescaped : (nmdc : Bool) (s : Bytes) → IsUnescaped s → escape nmdc s ≡ s
unfolding escape
escape-IsUnescaped nmdc [] h = refl
escape-IsUnescaped nmdc (c ∷ s) (hc, hs) =
    rw (hide-IsUnescaped nmdc c hc, escape-IsUnescaped nmdc s hs)

-- A name in front of an escaped text is escaped with it.
pub append-escape :
    (nmdc : Bool) (n s : Bytes) → IsUnescaped n → n ++ escape nmdc s ≡ escape nmdc (n ++ s)
append-escape nmdc n s h = rw (escape-append nmdc n s, escape-IsUnescaped nmdc n h)

hide-ne-nil : (nmdc : Bool) (c : ℕ) (t : Bytes) → hide nmdc c ++ t ≢ []
unfolding hide
hide-ne-nil nmdc c t h = ground arith

pub escape-ne-nil : (nmdc : Bool) (s : Bytes) → s ≢ [] → escape nmdc s ≢ []
unfolding escape
escape-ne-nil nmdc [] h = absurd (h refl)
escape-ne-nil nmdc (c ∷ s) h = hide-ne-nil nmdc c (escape nmdc s)
