-- ===== src/StrUtil/Case.antt =====
-- src/strutil.c: `str_casecmp` and `str_casestr`. A text is the list of its characters, as
-- `g_utf8_get_char` and `g_utf8_next_char` walk through it; `g_unichar_tolower` is an argument. The
-- difference of two characters is taken as their order, since they are below 2 ^ 31.
pub mod Same
pub mod Find
mod Tests
use Prim.Native.Nat.{Ordering, compare}
use ncdc.Prelude.{
  ℕ, zero, suc, List, [], ◌∷◌, Bool, true, false, Option, none, some, ltb, ◌==◌, if◌then◌else◌,
  length,
}

module _ (tolower : ℕ → ℕ) where
  unfoldable pub str_casecmp : List ℕ → List ℕ → Ordering
  str_casecmp [] [] = Ordering.eq
  str_casecmp [] (y ∷ b) = Ordering.lt
  str_casecmp (x ∷ a) [] = Ordering.gt
  str_casecmp (x ∷ a) (y ∷ b) = elim (compare (tolower x) (tolower y)) [
    | Ordering.eq ↦ str_casecmp a b
    | o ↦ o
  ]

  -- `while(l-- > 0 && *b) …`, with the result `!d`. The haystack is as long as the needle at least.
  pub same_start : List ℕ → List ℕ → Bool
  same_start a [] = true
  same_start [] (y ∷ b) = false
  same_start (x ∷ a) (y ∷ b) = elim (tolower x == tolower y) [
    | true ↦ same_start a b
    | false ↦ false
  ]

  -- The text from the first place on at which the needle stands.
  unfoldable pub str_casestr : List ℕ → List ℕ → Option (List ℕ)
  unfolding same_start
  str_casestr [] needle = if length needle == 0 then some [] else none
  str_casestr (x ∷ haystack) needle =
      let rest = str_casestr haystack needle in
      if ltb (length (x ∷ haystack)) (length needle)
      then none
      else if same_start (x ∷ haystack) needle
      then some (x ∷ haystack)
      else rest
