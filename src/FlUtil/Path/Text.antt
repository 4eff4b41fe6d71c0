-- ===== src/FlUtil/Path/Text.antt =====
-- src/fl_util.c: how a path is cut into names.
use ncdc.Prelude.{[], ◌∷◌, ◌++◌, ==_false, Bytes, Lacks, ◌≡◌, ◌≢◌, refl, ap}
use ncdc.FlUtil.Path.{skip_slashes, name_part, slash_part}

-- A name in a path.
abbrev pub IsName : Bytes → Type 0
IsName [] = ⊥
IsName (c ∷ n) = Lacks 47 (c ∷ n)

-- What does not begin with a slash.
abbrev pub IsStart : Bytes → Type 0
IsStart [] = ⊥
IsStart (c ∷ t) = c ≢ 47

pub name-IsStart : (n t : Bytes) → IsName n → IsStart (n ++ t)
name-IsStart [] t h = absurd h
name-IsStart (c ∷ n) t (ne, h) = ne

pub Name-IsStart : (n : Bytes) → IsName n → IsStart n
Name-IsStart [] h = absurd h
Name-IsStart (c ∷ n) (ne, h) = ne

-- What may follow a name: the end of the path, or a slash.
abbrev pub IsEnd : Bytes → Type 0
IsEnd [] = Unit
IsEnd (c ∷ t) = c ≡ 47

pub skip_slashes-name : (n t : Bytes) → IsName n → skip_slashes (n ++ t) ≡ n ++ t
unfolding skip_slashes
skip_slashes-name [] t h = absurd h
skip_slashes-name (c ∷ n) t (ne, h) = rw (==_false c 47 ne) refl

pub skip_slashes-slash : (t : Bytes) → skip_slashes (47 ∷ t) ≡ skip_slashes t
unfolding skip_slashes
skip_slashes-slash t = refl

name_part-Lacks : (n t : Bytes) → Lacks 47 n → IsEnd t → name_part (n ++ t) ≡ n
unfolding name_part
name_part-Lacks [] [] h e = refl
name_part-Lacks [] (c ∷ t) h e = rw e refl
name_part-Lacks (c ∷ n) t (ne, h) e =
    rw (==_false c 47 ne) (ap (λ l. c ∷ l) (name_part-Lacks n t h e))

slash_part-Lacks : (n t : Bytes) → Lacks 47 n → IsEnd t → slash_part (n ++ t) ≡ t
unfolding slash_part
slash_part-Lacks [] [] h e = refl
slash_part-Lacks [] (c ∷ t) h e = rw e refl
slash_part-Lacks (c ∷ n) t (ne, h) e = rw (==_false c 47 ne) (slash_part-Lacks n t h e)

pub IsName-Lacks : (n : Bytes) → IsName n → Lacks 47 n
IsName-Lacks [] h = absurd h
IsName-Lacks (c ∷ n) h = h

pub name_part-name : (n t : Bytes) → IsName n → IsEnd t → name_part (n ++ t) ≡ n
name_part-name n t h e = name_part-Lacks n t (IsName-Lacks n h) e

pub slash_part-name : (n t : Bytes) → IsName n → IsEnd t → slash_part (n ++ t) ≡ t
slash_part-name n t h e = slash_part-Lacks n t (IsName-Lacks n h) e
