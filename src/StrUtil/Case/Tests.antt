-- ===== src/StrUtil/Case/Tests.antt =====
-- src/strutil.c: comparisons and a search in which letters differ in case.
use Prim.Native.Nat.{Ordering}
use ncdc.Prelude.{map, ◌↔◌, ℕ, some, if◌then◌else◌, ltb, ◌&&◌, ◌+◌, codes, ◌≡◌, refl}
use ncdc.StrUtil.Case.{str_casecmp, str_casestr, same_start}
use ncdc.StrUtil.Case.Same.{str_casecmp_iff}
use ncdc.StrUtil.Case.Find.{IsFirst, str_casestr-IsFirst}

abbrev lower : ℕ → ℕ
lower c = if ltb 64 c && ltb c 91 then c + 32 else c

same_case : str_casecmp lower (codes "Readme") (codes "README") ≡ Ordering.eq
unfolding str_casecmp
same_case = refl

longer : str_casecmp lower (codes "Readme") (codes "READ") ≡ Ordering.gt
unfolding str_casecmp
longer = refl

second_word : str_casestr lower (codes "a Song") (codes "SO") ≡ some (codes "Song")
unfolding str_casestr same_start
second_word = refl

str_casestr-IsFirst_example :
    IsFirst lower (codes "SO") (codes "a Song") (str_casestr lower (codes "a Song") (codes "SO"))
str_casestr-IsFirst_example = str_casestr-IsFirst lower (codes "a Song") (codes "SO")

str_casecmp_iff_example :
    (str_casecmp lower (codes "Ab") (codes "aB") ≡ Ordering.eq)
    ↔ (map lower (codes "Ab") ≡ map lower (codes "aB"))
str_casecmp_iff_example = str_casecmp_iff lower (codes "Ab") (codes "aB")
