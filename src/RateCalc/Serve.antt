-- ===== src/RateCalc/Serve.antt =====
-- src/util.c: `ratecalc_calc` gives something to each item of a class that has room.
use native.Mathlib.Nat.{le-div_iff_mul-le}
use ncdc.Prelude.{
  ℕ, zero, suc, List, [], ◌∷◌, Bool-cases, inl, inr, true, false, ◌&&◌, map, lt→ltb, leb, ◌==◌,
  ==_iff, ◌≡◌, refl, sym, ap, ◌∙◌, ◌≤◌, ◌<◌, arith,
}
use ncdc.RateCalc.{
  ℤ, pos, negsuc, plus, room, Ratecalc, Shares, prepend, pass_one, with_burst, allocated,
  distribute, average, anything, passes, ratecalc_calc,
}
use ncdc.RateCalc.Burst.{up, debts, open_count}
use ncdc.RateCalc.Ready.{Zip, Ready, pass_one-Ready, pass_one-left, pass_one-open}
use ncdc.RateCalc.First.{pass_one-open_count}

Zip-map :
    (R S : Ratecalc → Ratecalc → Type 0) (f : Ratecalc → Ratecalc)
    → ((x y : Ratecalc) → R x y → S x (f y))
    → (xs ys : List Ratecalc) → Zip R xs ys
    → Zip S xs (map f ys)
Zip-map R S f h [] [] z = tt
Zip-map R S f h [] (y ∷ ys) z = absurd z
Zip-map R S f h (x ∷ xs) [] z = absurd z
Zip-map R S f h (x ∷ xs) (y ∷ ys) (r, z) = (h x y r, Zip-map R S f h xs ys z)

module _ (max : ℕ → ℕ) where
  given : (ℕ → ℕ) → Ratecalc → Ratecalc
  given bwp rc = with_burst rc (plus rc.burst (allocated max bwp rc))

  distribute-map :
      (bwp : ℕ → ℕ) (rcs : List Ratecalc) (left nums : ℕ → ℕ)
      → (distribute max bwp rcs left nums).rcs ≡ map (given bwp) rcs
  unfolding distribute prepend given
  distribute-map bwp [] left nums = refl
  distribute-map bwp (rc ∷ rcs) left nums = ap (λ l. given bwp rc ∷ l) (distribute-map bwp rcs _ _)

  module _ (c : ℕ) where
    -- The item stays in its class; in this class, if it was below the limit, it has more now.
    abbrev pub Served : Ratecalc → Ratecalc → Type 0
    Served x y =
        (y.reg ≡ x.reg) × ((c == x.reg) ≡ true → up x.burst < max c → up x.burst < up y.burst)

    plus-more : (b : ℤ) (a : ℕ) → up b ≤ up (plus b a)
    unfolding plus
    plus-more (pos n) a = omega arith
    plus-more (negsuc n) a = omega arith

    Served-given : (bwp : ℕ → ℕ) (x y : Ratecalc) → Served x y → Served x (given bwp y)
    unfolding given with_burst
    Served-given bwp x y (same, more) =
        (same, λ mine low. omega (arith, more mine low, plus-more y.burst (allocated max bwp y)))

    allocated-some :
        (bwp : ℕ → ℕ) (y : Ratecalc) (n : ℕ)
        → y.burst ≡ pos n
        → n < max y.reg
        → 0 < bwp y.reg
        → 1 ≤ allocated max bwp y
    unfolding allocated room
    allocated-some bwp y n e low some_left = rw (lt→ltb 0 (bwp y.reg) some_left, e) (omega arith)

    grows : (b : ℤ) (n a : ℕ) → b ≡ pos n → 1 ≤ a → n < up (plus b a)
    unfolding plus
    grows b n a e h = rw e (omega arith)

    Ready-given :
        (bwp : ℕ → ℕ) → 0 < bwp c → (x y : Ratecalc) → Ready max c x y → Served x (given bwp y)
    unfolding given with_burst
    Ready-given bwp some_left x y (same, ready) = (
      same,
      λ mine low.
          let e : y.reg ≡ c = same ∙ sym ((==_iff c x.reg).0 mine) in
          let gets : 1 ≤ allocated max bwp y =
            allocated-some bwp y (up x.burst) (ready mine low) (rw e low) (rw e some_left) in
          grows y.burst (up x.burst) (allocated max bwp y) (ready mine low) gets,
    )

    passes-Served :
        (old : List Ratecalc) (i : ℕ) (s : Shares)
        → Zip Served old s.rcs
        → Zip Served old (passes i max s).rcs
    unfolding passes
    passes-Served old zero s z = z
    passes-Served old (suc i) s z = elim (Bool-cases (anything (average s))) [
      | inl some_left ↦ rw some_left (
          passes-Served old i (distribute max (average s) s.rcs s.left s.nums) (
            rw (distribute-map (average s) s.rcs s.left s.nums)
              (Zip-map Served Served (given (average s)) (Served-given (average s)) old s.rcs z)))
      | inr nothing_left ↦ rw nothing_left z
    ]

    passes-first :
        (old : List Ratecalc) (i : ℕ) (s : Shares)
        → anything (average s) ≡ true
        → Zip Served old (distribute max (average s) s.rcs s.left s.nums).rcs
        → Zip Served old (passes (suc i) max s).rcs
    unfolding passes
    passes-first old i s some_left z =
        rw some_left (passes-Served old i (distribute max (average s) s.rcs s.left s.nums) z)

    anything-some : (bwp : ℕ → ℕ) (j : ℕ) → 2 ≤ j → j ≤ 4 → 0 < bwp j → anything bwp ≡ true
    unfolding anything
    anything-some bwp zero low high h = absurd (omega arith)
    anything-some bwp (suc zero) low high h = absurd (omega arith)
    anything-some bwp (suc (suc zero)) low high h = ground (arith, lt→ltb 0 (bwp 2) h)
    anything-some bwp (suc (suc (suc zero))) low high h = ground (arith, lt→ltb 0 (bwp 3) h)
    anything-some bwp (suc (suc (suc (suc zero)))) low high h = ground (arith, lt→ltb 0 (bwp 4) h)
    anything-some bwp (suc (suc (suc (suc (suc n))))) low high h = absurd (omega arith)

    average-some :
        (s : Shares) → 2 ≤ c → c ≤ 4 → 1 ≤ s.nums c → s.nums c ≤ s.left c → 0 < average s c
    unfolding average
    average-some s low high some_items enough =
        rw (inside c low high, nonzero (s.nums c) some_items)
          ((le-div_iff_mul-le some_items).1 (omega (arith, enough)))
      where
        inside : (j : ℕ) → 2 ≤ j → j ≤ 4 → (leb 2 j && leb j 4) ≡ true
        inside j low high = ground arith

        nonzero : (n : ℕ) → 1 ≤ n → (n == 0) ≡ false
        nonzero n h = ground arith

    -- When a class owes nothing, some item of it is below the limit, and the limit is at least the number of
    -- such items, `ratecalc_calc` raises the burst of every one of them.
    pub ratecalc_calc-Served :
        (old : List Ratecalc)
        → 2 ≤ c
        → c ≤ 4
        → debts c old ≡ 0
        → 1 ≤ open_count max c old
        → open_count max c old ≤ max c
        → Zip Served old (ratecalc_calc max old)
    unfolding ratecalc_calc
    ratecalc_calc-Served old low high free some_items enough =
        let s = pass_one max old max (λ j. 0) in
        let counted : s.nums c ≡ open_count max c old = omega (
          arith,
          pass_one-open_count max c old max (λ j. 0),
          pass_one-open max c old max (λ j. 0) free,
        ) in
        let gets : 0 < average s c =
          average-some s low high (omega (arith, counted))
            (omega (arith, counted, pass_one-left max c old max (λ j. 0) free)) in
        passes-first old 2 s (anything-some (average s) c low high gets) (
          rw (distribute-map (average s) s.rcs s.left s.nums) (
            Zip-map (Ready max c) Served (given (average s)) (Ready-given (average s) gets) old
              s.rcs (pass_one-Ready max c old max (λ j. 0) free)))
