-- ===== src/StrUtil/Sizes/Tests.antt =====
-- src/strutil.c: sizes with dots, and with units.
use ncdc.Prelude.{
  ℕ, [], ◌∷◌, if◌then◌else◌, ltb, ◌&&◌, codes, same_text, Bytes, ◌-◌, ◌*◌, ◌≡◌, refl, arith,
}
use ncdc.StrUtil.Sizes.{
  str_fullsize, reverse_dotted, digits, str_parsesize, unit_size, factor, is_end,
}
use ncdc.StrUtil.Sizes.Read.{read_number, read_number-str_fullsize}

three_groups : str_fullsize 1234567 ≡ codes "1.234.567"
unfolding str_fullsize reverse_dotted digits
three_groups = refl

nothing : str_fullsize 0 ≡ codes "0"
unfolding str_fullsize reverse_dotted digits
nothing = refl

-- A number of one digit.
abbrev one_digit : Bytes → ℕ × ℕ
one_digit [] = (0, 0)
one_digit (c ∷ s) = if ltb 47 c && ltb c 58 then (c - 48, 1) else (0, 0)

gigabytes : str_parsesize one_digit same_text (codes "3Gib") ≡ 3 * 1073741824
unfolding str_parsesize unit_size factor is_end
gigabytes = refl

no_unit : str_parsesize one_digit same_text (codes "3x") ≡ 18446744073709551615
unfolding str_parsesize unit_size factor is_end
no_unit = refl

read_number-str_fullsize_example : read_number 0 (str_fullsize 1234567) ≡ 1234567
read_number-str_fullsize_example = read_number-str_fullsize 1234567 (omega arith)
