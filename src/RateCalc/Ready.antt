-- ===== src/RateCalc/Ready.antt =====
-- src/util.c: pass one of `ratecalc_calc` in a class that owes nothing.
use ncdc.Prelude.{
  ℕ, List, [], ◌∷◌, Bool-cases, inl, inr, true, ltb, lt→ltb, ◌==◌, ==_iff, if◌then◌else◌, ◌≡◌, refl,
  sym, ap, subst, ◌∙◌, ◌+◌, ◌-◌, ◌<◌, arith,
}
use ncdc.RateCalc.{
  ℤ, pos, negsuc, plus, below, debt, room, Ratecalc, put, prepend, measured, repaid, pass_one,
}
use ncdc.RateCalc.Burst.{up, cut, debts, open_count}

-- A relation holds between the items of two lists, place by place.
abbrev pub Zip : (Ratecalc → Ratecalc → Type 0) → List Ratecalc → List Ratecalc → Type 0
Zip R [] [] = Unit
Zip R [] (y ∷ ys) = ⊥
Zip R (x ∷ xs) [] = ⊥
Zip R (x ∷ xs) (y ∷ ys) = R x y × Zip R xs ys

module _ (max : ℕ → ℕ) (c : ℕ) where
  -- After pass one.
  abbrev pub Ready : Ratecalc → Ratecalc → Type 0
  Ready x y =
      (y.reg ≡ x.reg) × ((c == x.reg) ≡ true → up x.burst < max c → y.burst ≡ pos (up x.burst))

  cut-low : (b : ℤ) (r m : ℕ) → debt b ≡ 0 → r ≡ 0 → up b < m → cut m (plus b r) ≡ pos (up b)
  unfolding debt plus below
  cut-low (pos n) r m free none_paid low = rw (none_paid, plus_zero n, lt→ltb n m low) refl
    where
      plus_zero : (n : ℕ) → n + 0 ≡ n
      plus_zero n = omega arith
  cut-low (negsuc n) r m free none_paid low = absurd (omega (arith, free))

  head_free :
      (rc : Ratecalc) (old : List Ratecalc)
      → debts c (rc ∷ old) ≡ 0
      → (c == rc.reg) ≡ true
      → debt rc.burst ≡ 0
  head_free rc old free mine = omega (arith, rw mine at free)

  repaid-nothing : (left : ℕ → ℕ) (rc : Ratecalc) → debt rc.burst ≡ 0 → repaid left rc ≡ 0
  unfolding repaid
  repaid-nothing left rc free = omega arith

  -- Pass one leaves a class that owes nothing as it is.
  pub pass_one-Ready :
      (old : List Ratecalc) (left nums : ℕ → ℕ)
      → debts c old ≡ 0
      → Zip Ready old (pass_one max old left nums).rcs
  unfolding pass_one prepend measured
  pass_one-Ready [] left nums free = tt
  pass_one-Ready (rc ∷ old) left nums free = (
    (
      refl,
      λ mine low.
          let d = head_free rc old free mine in
          cut-low rc.burst (repaid left rc) (max rc.reg) d (repaid-nothing left rc d)
            (subst (λ r. up rc.burst < max r) ((==_iff c rc.reg).0 mine) low),
    ),
    pass_one-Ready old _ _ (omega (arith, free)),
  )

  pub pass_one-left :
      (old : List Ratecalc) (left nums : ℕ → ℕ)
      → debts c old ≡ 0
      → (pass_one max old left nums).left c ≡ left c
  unfolding pass_one prepend
  pass_one-left [] left nums free = refl
  pass_one-left (rc ∷ old) left nums free =
      let r = repaid left rc in
      let n =
        if below (plus rc.burst r) (max rc.reg) then put nums rc.reg (nums rc.reg + 1) else nums in
      let rest = pass_one-left old (put left rc.reg (left rc.reg - r)) n (omega (arith, free)) in
      elim (Bool-cases (c == rc.reg)) [
        | inr other ↦ rest ∙ rw other refl
        | inl mine ↦
            let none_paid = repaid-nothing left rc (head_free rc old free mine) in
            let e : left rc.reg ≡ left c = ap left (sym ((==_iff c rc.reg).0 mine)) in
            rest ∙ rw (mine, e) (omega (arith, none_paid))
      ]

  cut-open :
      (b : ℤ) (r m : ℕ) → debt b ≡ 0 → r ≡ 0 → ltb 0 (room m (cut m (plus b r))) ≡ ltb 0 (room m b)
  unfolding debt plus below room
  cut-open (pos n) r m free none_paid = ground arith
  cut-open (negsuc n) r m free none_paid = absurd (omega (arith, free))

  pub pass_one-open :
      (old : List Ratecalc) (left nums : ℕ → ℕ)
      → debts c old ≡ 0
      → open_count max c (pass_one max old left nums).rcs ≡ open_count max c old
  unfolding pass_one prepend measured
  pass_one-open [] left nums free = refl
  pass_one-open (rc ∷ old) left nums free =
      let r = repaid left rc in
      let n =
        if below (plus rc.burst r) (max rc.reg) then put nums rc.reg (nums rc.reg + 1) else nums in
      let rest = pass_one-open old (put left rc.reg (left rc.reg - r)) n (omega (arith, free)) in
      elim (Bool-cases (c == rc.reg)) [
        | inr other ↦ rw other (omega (arith, rest))
        | inl mine ↦
            let d = head_free rc old free mine in
            rw (mine, cut-open rc.burst r (max rc.reg) d (repaid-nothing left rc d))
              (omega (arith, rest))
      ]
