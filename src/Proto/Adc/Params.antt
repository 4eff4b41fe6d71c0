-- ===== src/Proto/Adc/Params.antt =====
-- src/proto.c: `adc_getparam` and `adc_getparams`. A name is its two letters, neither of them zero;
-- an argument vector is a list of texts. `adc_getparams` also grows its buffer, which changes
-- nothing of the result.
use ncdc.Prelude.{
  ℕ, List, [], ◌∷◌, ◌++◌, Bytes, Option, none, some, ◌≡◌, refl, Bool, starts_with, drop,
  if◌then◌else◌, arith,
}

-- Whether the argument at the cursor carries the name.
abbrev named : ℕ → ℕ → Bytes → Bool
named x y a = starts_with (x ∷ y ∷ []) a

-- The value behind the name, and the arguments after it, which go through `left`.
unfoldable pub getparam : List Bytes → ℕ → ℕ → Option (Bytes × List Bytes)
getparam [] x y = none
getparam (a ∷ as') x y = if named x y a then some (drop 2 a, as') else getparam as' x y

collect : List Bytes → ℕ → ℕ → List Bytes
collect [] x y = []
collect (a ∷ as') x y = let rest = collect as' x y in if named x y a then drop 2 a ∷ rest else rest

-- No parameter of the name gives NULL.
unfoldable pub getparams : List Bytes → ℕ → ℕ → Option (List Bytes)
unfolding collect
getparams as' x y = elim (collect as' x y) [ [] ↦ none | v ∷ vs ↦ some (v ∷ vs) ]

pub getparam-append :
    (p q : List Bytes) (x y : ℕ) (v : Bytes)
    → getparam p x y ≡ none
    → getparam (p ++ (x ∷ y ∷ v) ∷ q) x y ≡ some (v, q)
unfolding getparam
getparam-append [] q x y v h = ground arith
getparam-append (a ∷ p) q x y v h = ground (arith, getparam-append p q x y v)

-- The values that `adc_getparams` returns are those that repeated calls of `adc_getparam` find,
-- each at the arguments after the last: the first value, and then those of the rest.
pub getparams-getparam :
    (as' : List Bytes) (x y : ℕ)
    → getparams as' x y ≡ elim (getparam as' x y) [
      | none ↦ none
      | some (v, left) ↦ elim (getparams left x y) [
        | none ↦ some (v ∷ [])
        | some vs ↦ some (v ∷ vs)
      ]
    ]
unfolding getparam getparams
getparams-getparam [] x y = refl
getparams-getparam (a ∷ as') x y = ground (arith, getparams-getparam as' x y)
