-- ===== src/StrUtil/Sizes.antt =====
-- src/strutil.c: `str_fullsize` and `str_parsesize`. `strtoull` is an argument: what it returns, and how
-- many characters it has read. So is the test of `g_ascii_strcasecmp` for zero.
pub mod Read
mod Tests
use ncdc.Prelude.{
  ℕ, zero, suc, List, [], ◌∷◌, Bool, true, false, not, ◌&&◌, ◌||◌, ◌==◌, if◌then◌else◌, is_empty,
  drop, get_or, length, Bytes, codes, ◌+◌, ◌*◌, ◌/◌, ◌%◌,
}

-- The K&R method: the digits, the last one first. The fuel is the number of digits of the greatest size.
unfoldable pub digits : ℕ → ℕ → Bytes
digits zero size = []
digits (suc fuel) size =
    let rest = digits fuel (size / 10) in (size % 10 + 48) ∷ (if size / 10 == 0 then [] else rest)

-- `while(i--) …`
unfoldable pub reverse_dotted : Bytes → ℕ → Bytes
reverse_dotted tmp zero = []
reverse_dotted tmp (suc i) =
    let rest = reverse_dotted tmp i in
    get_or tmp i 0 ∷ (if not (i == 0) && i % 3 == 0 then 46 ∷ rest else rest)

unfoldable pub str_fullsize : ℕ → Bytes
str_fullsize size = reverse_dotted (digits 20 size) (length (digits 20 size))

module _ (strtoull : Bytes → ℕ × ℕ) (same_ascii : Bytes → Bytes → Bool) where
  pub factor : ℕ → ℕ
  factor c =
      if c == 71 || c == 103
      then 1073741824
      else if c == 77 || c == 109
      then 1048576
      else if c == 75 || c == 107
      then 1024
      else 0

  -- What stands behind the number and the unit.
  pub is_end : Bytes → Bool
  is_end e = is_empty e || (same_ascii e (codes "b") || same_ascii e (codes "ib"))

  -- G_MAXUINT64 on errors.
  pub unit_size : ℕ → Bytes → ℕ
  unit_size num [] = num
  unit_size num (c ∷ e) =
      if factor c == 0
      then 18446744073709551615
      else if is_end e
      then (num * factor c) % 18446744073709551616
      else 18446744073709551615

  unfoldable pub str_parsesize : Bytes → ℕ
  str_parsesize str =
      let (num, read) = strtoull str in
      if read == 0 then 18446744073709551615 else unit_size num (drop read str)
