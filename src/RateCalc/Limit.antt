-- ===== src/RateCalc/Limit.antt =====
-- src/util.c: what `ratecalc_calc` gives to the items of a class.
use native.Mathlib.Nat.{mul-le-mul_right, mul-div-le}
use ncdc.Prelude.{
  ℕ, zero, suc, List, Bool-cases, inl, inr, ◌&&◌, leb, ◌==◌, ◌+◌, ◌*◌, ◌/◌, ◌≤◌, arith,
}
use ncdc.RateCalc.{Ratecalc, Shares, average, anything, distribute, pass_one, passes, ratecalc_calc}
use ncdc.RateCalc.Burst.{ups, debts, open_count, WithinLimit}
use ncdc.RateCalc.First.{pass_one-WithinLimit, pass_one-ups, pass_one-open_count}
use ncdc.RateCalc.Share.{
  spent, spent-open_count, distribute-left, distribute-ups, distribute-WithinLimit,
  distribute-open_count,
}

module _ (max : ℕ → ℕ) (old : List Ratecalc) where
  -- Between the passes.
  pub record IsFair (s : Shares) : Type 0 where
    pub within : WithinLimit max s.rcs
    pub counted : (c : ℕ) → open_count max c s.rcs ≤ s.nums c
    pub paid : (c : ℕ) → ups c s.rcs + debts c old + s.left c ≤ ups c old + debts c s.rcs + max c

  pass_one-IsFair : IsFair (pass_one max old max (λ j. 0))
  pass_one-IsFair = record {
    within = pass_one-WithinLimit max old max (λ j. 0);
    counted = λ c. omega (arith, pass_one-open_count max c old max (λ j. 0));
    paid = λ c. pass_one-ups max c old max (λ j. 0);
  }

  average-mul : (s : Shares) (c n : ℕ) → n ≤ s.nums c → n * average s c ≤ s.left c
  unfolding average
  average-mul s c n h = elim (Bool-cases (leb 2 c && leb c 4)) [
    | inr other ↦ rw other (omega arith)
    | inl class ↦ elim (Bool-cases (s.nums c == 0)) [
      | inl no_items ↦ rw (class, no_items) (omega arith)
      | inr items ↦ rw (class, items) (times_div n (s.nums c) (s.left c) h)
    ]
  ]
    where
      times_div : (n m l : ℕ) → n ≤ m → n * (l / m) ≤ l
      times_div n m l h = omega (arith, mul-le-mul_right (l / m) h, mul-div-le l m)

  -- The averages for the items with room come to no more than what is left.
  spent-left :
      (s : Shares) (c : ℕ)
      → open_count max c s.rcs ≤ s.nums c
      → spent max (average s) c s.rcs ≤ s.left c
  spent-left s c h =
      omega (
        arith,
        spent-open_count max (average s) c s.rcs,
        average-mul s c (open_count max c s.rcs) h,
      )

  distribute-IsFair :
      (s : Shares) → IsFair s → IsFair (distribute max (average s) s.rcs s.left s.nums)
  distribute-IsFair s fair =
      let w = average s in
      record {
        within = distribute-WithinLimit max w s.rcs s.left s.nums fair.within;
        counted = λ c. omega (
          arith,
          distribute-open_count max w c s.rcs s.left s.nums 0 (omega (arith, fair.counted c)),
        );
        paid = λ c. omega (
          arith,
          fair.paid c,
          spent-left s c (fair.counted c),
          distribute-left max w c s.rcs s.left s.nums,
          distribute-ups max w c s.rcs s.left s.nums,
        );
      }

  passes-IsFair : (i : ℕ) (s : Shares) → IsFair s → IsFair (passes i max s)
  unfolding passes
  passes-IsFair zero s fair = fair
  passes-IsFair (suc i) s fair = elim (Bool-cases (anything (average s))) [
    | inl some_left ↦ rw some_left (passes-IsFair i _ (distribute-IsFair s fair))
    | inr nothing_left ↦ rw nothing_left fair
  ]

  -- No burst is above the limit of its class after `ratecalc_calc`.
  pub ratecalc_calc-WithinLimit : WithinLimit max (ratecalc_calc max old)
  unfolding ratecalc_calc
  ratecalc_calc-WithinLimit = (passes-IsFair 3 _ pass_one-IsFair).within

  -- `ratecalc_calc` raises the bursts of a class, taken together, by no more than the limit of the class.
  pub ratecalc_calc-ups :
      (c : ℕ)
      → ups c (ratecalc_calc max old) + debts c old
        ≤ ups c old + debts c (ratecalc_calc max old) + max c
  unfolding ratecalc_calc
  ratecalc_calc-ups c = omega (arith, (passes-IsFair 3 _ pass_one-IsFair).paid c)
