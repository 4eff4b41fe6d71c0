-- ===== src/Tth/Tree.antt =====
-- src/tth.c: the stack of hashes computes the root of the tree over the leaves.
use ncdc.Prelude.{
  ℕ, zero, suc, List, [], ◌∷◌, ◌++◌, Bytes, Bool, true, false, ==_iff, ◌==◌, if◌then◌else◌, get_or,
  set, length, Bool-cases, inl, inr, length-append, get_or-set_self, get_or-set_ne, ◌≡◌, refl, ◌+◌,
  ◌*◌, ◌/◌, ◌%◌, ◌^◌, ◌<◌, ◌≤◌, arith, ap, sym, ◌∙◌,
}
use native.Mathlib.Nat.{div-div-eq-div-mul}
use ncdc.Tth.{digit, tth_combine, combine_up}

-- The last of a list of hashes.
unfoldable pub last_of : List Bytes → Bytes
last_of [] = []
last_of (x ∷ []) = x
last_of (x ∷ y ∷ r) = last_of (y ∷ r)

last_of-append : (l : List Bytes) (t : Bytes) → last_of (l ++ t ∷ []) ≡ t
unfolding last_of
last_of-append [] t = refl
last_of-append (x ∷ []) t = refl
last_of-append (x ∷ y ∷ r) t = last_of-append (y ∷ r) t

pub cons-if :
    (b : Bool) (h : Bytes) (p q : List Bytes)
    → h ∷ (if b then p else q) ≡ (if b then h ∷ p else h ∷ q)
cons-if true h p q = refl
cons-if false h p q = refl

pub parity : (n : ℕ) → (suc (suc (suc n)) % 2 == 1) ≡ (suc n % 2 == 1)
parity n = ground arith

pub pow_suc : (k : ℕ) → 2 ^ suc k ≡ 2 * 2 ^ k
pow_suc k = omega arith

pub pow_pos : (k : ℕ) → 0 < 2 ^ k
pow_pos zero = omega arith
pow_pos (suc k) = omega (arith, pow_suc k, pow_pos k)

pub div_pow : (n k : ℕ) → n / 2 ^ suc k ≡ n / 2 ^ k / 2
div_pow n k = sym (div-div-eq-div-mul n (2 ^ k) 2 ∙ ap (λ d. n / d) (omega (arith, pow_suc k)))

module _ (f : Bytes → Bytes → Bytes) where
  -- One level of the tree: neighbours are combined, and the last is passed on if it has none.
  abbrev pub level : List Bytes → List Bytes
  level [] = []
  level (x ∷ []) = x ∷ []
  level (x ∷ y ∷ r) = f x y ∷ level r

  -- The root, level by level.
  abbrev pub root_of : ℕ → List Bytes → Bytes
  root_of fuel [] = []
  root_of fuel (x ∷ []) = x
  root_of zero (x ∷ y ∷ r) = []
  root_of (suc fuel) (x ∷ y ∷ r) = root_of fuel (level (x ∷ y ∷ r))

  -- The complete pairs of a level.
  unfoldable pub pairs : List Bytes → List Bytes
  pairs [] = []
  pairs (x ∷ []) = []
  pairs (x ∷ y ∷ r) = f x y ∷ pairs r

  pub length-pairs : (l : List Bytes) → length (pairs l) ≡ length l / 2
  unfolding pairs
  length-pairs [] = omega arith
  length-pairs (x ∷ []) = omega arith
  length-pairs (x ∷ y ∷ r) = omega (arith, length-pairs r)

  pairs-append :
      (l : List Bytes) (t : Bytes)
      → pairs (l ++ t ∷ [])
        ≡ (if length l % 2 == 1 then pairs l ++ f (last_of l) t ∷ [] else pairs l)
  unfolding pairs last_of
  pairs-append [] t = refl
  pairs-append (x ∷ []) t = refl
  pairs-append (x ∷ y ∷ []) t = refl
  pairs-append (x ∷ y ∷ z ∷ r) t = ground (arith, pairs-append (z ∷ r) t)

  pub level-pairs :
      (l : List Bytes)
      → level l ≡ (if length l % 2 == 1 then pairs l ++ last_of l ∷ [] else pairs l)
  unfolding pairs last_of
  level-pairs [] = refl
  level-pairs (x ∷ []) = refl
  level-pairs (x ∷ y ∷ []) = refl
  level-pairs (x ∷ y ∷ z ∷ r) = rw (parity (length r), level-pairs (z ∷ r)) (cons-if _ (f x y) _ _)

  pub level-append :
      (l : List Bytes) (t : Bytes)
      → level (l ++ t ∷ []) ≡ pairs l ++ (if length l % 2 == 1 then f (last_of l) t else t) ∷ []
  unfolding pairs last_of
  level-append [] t = refl
  level-append (x ∷ []) t = refl
  level-append (x ∷ y ∷ []) t = refl
  level-append (x ∷ y ∷ z ∷ r) t = ground (arith, level-append (z ∷ r) t)

  pub root_of-level : (r : ℕ) (l : List Bytes) → root_of (suc r) l ≡ root_of r (level l)
  root_of-level r [] = refl
  root_of-level r (x ∷ []) = refl
  root_of-level r (x ∷ y ∷ l) = refl

  -- The stack holds the last hash of each level that has an odd number of them, from `k` on.
  unfoldable pub Stored : ℕ → ℕ → List Bytes → List Bytes → Type 0
  Stored zero k l stack = length l ≡ 0
  Stored (suc m) k l stack =
      (length l % 2 ≡ 1 → get_or stack k [] ≡ last_of l) × Stored m (suc k) (pairs l) stack

  pub Stored-set :
      (m k : ℕ) (l stack : List Bytes) (pos : ℕ) (v : Bytes)
      → pos < k
      → Stored m k l stack
      → Stored m k l (set stack pos v)
  unfolding Stored
  Stored-set zero k l stack pos v h s = s
  Stored-set (suc m) k l stack pos v h (here, above) = (
    λ odd. get_or-set_ne stack pos k v [] (omega arith) ∙ here odd,
    Stored-set m (suc k) (pairs l) stack pos v (omega arith) above,
  )

module _ (tiger : Bytes → Bytes) where
  abbrev f : Bytes → Bytes → Bytes
  f = tth_combine tiger

  pub combine_up_lem :
      (m fuel k leafnum : ℕ) (l stack : List Bytes) (t : Bytes)
      → (length l ≡ leafnum / 2 ^ k)
      → length l + 1 < 2 ^ m
      → m ≤ fuel
      → k + m ≤ length stack
      → Stored f m k l stack
      → let (pos, h) = combine_up tiger fuel leafnum stack k t in
        (k ≤ pos) × Stored f m k (l ++ t ∷ []) (set stack pos h)
  unfolding Stored combine_up
  combine_up_lem zero fuel k leafnum l stack t n small enough room s = absurd (omega arith)
  combine_up_lem (suc m) zero k leafnum l stack t n small enough room s = absurd (omega arith)
  combine_up_lem (suc m) (suc fuel) k leafnum l stack t n small enough room (here, above) =
      elim (Bool-cases (digit leafnum k)) [
        | inl odd ↦
            let one : length l % 2 ≡ 1 = rw n ((==_iff _ 1).0 odd) in
            let h = f (get_or stack k []) t in
            let up : length (pairs f l) ≡ leafnum / 2 ^ suc k =
              omega (arith, length-pairs f l, div_pow leafnum k, n) in
            let (le, s') =
              combine_up_lem m fuel (suc k) leafnum (pairs f l) stack h up
                (omega (arith, length-pairs f l, pow_suc m)) (omega arith) (omega arith) above in
            rw odd (
              omega (arith, le),
              (
                λ now. absurd (omega (arith, length-append l (t ∷ []))),
                rw (pairs-append f l t, n, odd, ← here one) s',
              ),
            )
        | inr even ↦ rw even (
          omega arith,
          (
            λ now. get_or-set_self stack k t [] (omega arith) ∙ sym (last_of-append l t),
            rw (pairs-append f l t, n, even)
                (Stored-set f m (suc k) (pairs f l) stack k t (omega arith) above),
          ),
        )
      ]
