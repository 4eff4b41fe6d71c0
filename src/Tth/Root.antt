-- ===== src/Tth/Root.antt =====
-- src/tth.c: `tth_root` and `tth_stack_final` give the root of the tree over the leaves.
use ncdc.Prelude.{
  ℕ, zero, suc, List, [], ◌∷◌, ◌++◌, Bytes, true, false, ==_iff, ltb, ◌==◌, get_or, length,
  Bool-cases, inl, inr, ◌≡◌, refl, ◌+◌, ◌*◌, ◌/◌, ◌%◌, ◌^◌, ◌<◌, ◌≤◌, arith, ap, sym, ◌∙◌,
}
use native.Mathlib.Nat.{mul-div_cancel}
use ncdc.Tth.{digit, tth_combine, combine_rest, lowest}
use ncdc.Tth.Tree.{
  last_of, pow_suc, pow_pos, div_pow, pairs, length-pairs, level-pairs, level-append, root_of,
  root_of-level, Stored,
}

div_mod_eq : (n d : ℕ) → 0 < d → (n / d * d ≤ n) × (n < n / d * d + d)
div_mod_eq n d pos = omega arith

is_short : (n d : ℕ) → 0 < d → 0 ≡ n / d → ltb n d ≡ true
is_short n d pos e = let (low, high) = div_mod_eq n d pos in ground (arith, rw (← e) at high)

is_long : (n d q : ℕ) → 0 < d → suc q ≡ n / d → ltb n d ≡ false
is_long n d q pos e = let (low, high) = div_mod_eq n d pos in grind (arith, rw (← e) at low)

lowest-here : (fuel leafnum k : ℕ) → digit leafnum k ≡ true → lowest (suc fuel) leafnum k ≡ k
unfolding lowest
lowest-here fuel leafnum k odd = ground arith

lowest-next :
    (fuel leafnum k : ℕ)
    → digit leafnum k ≡ false
    → ltb (2 ^ k) leafnum ≡ true
    → lowest (suc fuel) leafnum k ≡ lowest fuel leafnum (suc k)
unfolding lowest
lowest-next fuel leafnum k even more = rw (more, even)

quotient_of : (n q d : ℕ) → 0 < d → n ≡ q * d → q ≡ n / d
quotient_of n q d pos e = rw e (sym (mul-div_cancel q pos))

-- An even number of hashes, of which there is one, is two or more.
two_more : (n q d : ℕ) → 0 < d → n ≡ q * d → 1 < q → ltb d n ≡ true
two_more n q d pos e more = grind arith

even_more : (q : ℕ) → 0 < q → (q % 2 == 1) ≡ false → 1 < q
even_more q pos even = ground arith

halved : (n q d : ℕ) → n ≡ q * d → (q % 2 == 1) ≡ false → n ≡ q / 2 * (2 * d)
halved n q d e even =
    let twice : q ≡ q / 2 * 2 = ground arith in e ∙ ap (λ x. x * d) twice ∙ regroup (q / 2) d
  where
    regroup : (h d : ℕ) → h * 2 * d ≡ h * (2 * d)
    regroup h d = grind arith

at_suc : (P : ℕ → Type 0) (r : ℕ) → 0 < r → ((s : ℕ) → r ≡ suc s → P (suc s)) → P r
at_suc P zero pos p = absurd (omega arith)
at_suc P (suc s) pos p = p s refl

module _ (tiger : Bytes → Bytes) where
  abbrev f : Bytes → Bytes → Bytes
  f = tth_combine tiger

  pub combine_rest_lem :
      (fuel m r k leafnum : ℕ) (l stack : List Bytes) (t : Bytes)
      → (length l ≡ leafnum / 2 ^ k)
      → length l < 2 ^ fuel
      → length l ≤ r
      → Stored f m k l stack
      → combine_rest tiger fuel leafnum stack k t ≡ root_of f r (l ++ t ∷ [])
  unfolding combine_rest Stored
  combine_rest_lem zero m r k leafnum [] stack t n small enough s = refl
  combine_rest_lem zero m r k leafnum (x ∷ l) stack t n small enough s = absurd (omega arith)
  combine_rest_lem (suc fuel) m r k leafnum [] stack t n small enough s =
      rw (is_short leafnum (2 ^ k) (pow_pos k) n) refl
  combine_rest_lem (suc fuel) zero r k leafnum (x ∷ l) stack t n small enough s =
      absurd (omega arith)
  combine_rest_lem (suc fuel) (suc m) zero k leafnum (x ∷ l) stack t n small enough s =
      absurd (omega arith)
  combine_rest_lem (suc fuel) (suc m) (suc r) k leafnum (x ∷ l) stack t n small enough
        (here, above) =
      let more : ltb leafnum (2 ^ k) ≡ false = is_long leafnum (2 ^ k) (length l) (pow_pos k) n in
      let up : length (pairs f (x ∷ l)) ≡ leafnum / 2 ^ suc k =
        omega (arith, length-pairs f (x ∷ l), div_pow leafnum k, n) in
      let next : (t' : Bytes)
          → combine_rest tiger fuel leafnum stack (suc k) t'
            ≡ root_of f r (pairs f (x ∷ l) ++ t' ∷ []) =
        λ t'.
          combine_rest_lem fuel m r (suc k) leafnum (pairs f (x ∷ l)) stack t' up
            (omega (arith, length-pairs f (x ∷ l), pow_suc fuel))
            (omega (arith, length-pairs f (x ∷ l))) above in
      rw (more, root_of-level f r ((x ∷ l) ++ t ∷ []), level-append f (x ∷ l) t, n)
        (elim (Bool-cases (digit leafnum k)) [
          | inl odd ↦ rw (odd, here (rw n ((==_iff _ 1).0 odd))) (next (f (last_of (x ∷ l)) t))
          | inr even ↦ rw even (next t)
        ])

  pub lowest_lem :
      (fuel m r k leafnum : ℕ) (l stack : List Bytes)
      → leafnum ≡ length l * 2 ^ k
      → 0 < length l
      → length l < 2 ^ fuel
      → length l < 2 ^ 31
      → length l ≤ suc r
      → Stored f m k l stack
      → let pos = lowest fuel leafnum k in
        combine_rest tiger 31 leafnum stack (suc pos) (get_or stack pos []) ≡ root_of f (suc r) l
  unfolding Stored
  lowest_lem zero m r k leafnum l stack n some_left fits small enough s = absurd (omega arith)
  lowest_lem (suc fuel) zero r k leafnum l stack n some_left fits small enough s =
      absurd (omega arith)
  lowest_lem (suc fuel) (suc m) r k leafnum l stack n some_left fits small enough (here, above) =
      let quotient : length l ≡ leafnum / 2 ^ k =
        quotient_of leafnum (length l) (2 ^ k) (pow_pos k) n in
      let half = length-pairs f l in
      elim (Bool-cases (digit leafnum k)) [
        | inl odd ↦
            let one : length l % 2 ≡ 1 = rw quotient ((==_iff _ 1).0 odd) in
            rw
              (
                lowest-here fuel leafnum k odd,
                here one,
                root_of-level f r l,
                level-pairs f l,
                quotient,
                odd,
              )
              (combine_rest_lem 31 m r (suc k) leafnum (pairs f l) stack (last_of l)
                (omega (arith, half, div_pow leafnum k, quotient)) (omega (arith, half))
                (omega (arith, half)) above)
        | inr even ↦
            let even' : (length l % 2 == 1) ≡ false = rw quotient even in
            let more = even_more (length l) some_left even' in
            rw
              (
                lowest-next fuel leafnum k even
                    (two_more leafnum (length l) (2 ^ k) (pow_pos k) n more),
                root_of-level f r l,
                level-pairs f l,
                quotient,
                even,
              )
              (at_suc
                (λ r'.
                  combine_rest tiger 31 leafnum stack (suc (lowest fuel leafnum (suc k)))
                    (get_or stack (lowest fuel leafnum (suc k)) [])
                  ≡ root_of f r' (pairs f l))
                r (omega arith)
                (λ r' e.
                  lowest_lem fuel m r' (suc k) leafnum (pairs f l) stack
                    (rw (half, pow_suc k) (halved leafnum (length l) (2 ^ k) n even'))
                    (omega (arith, half)) (omega (arith, half, pow_suc fuel)) (omega (arith, half))
                    (omega (arith, half)) above))
      ]
