-- ===== src/RateCalc/Traffic.antt =====
-- src/util.c: the traffic of a class over time, when items add their bytes and `ratecalc_calc` is called once
-- in a second.
use ncdc.Prelude.{
  refl, leb-false→lt, ℕ, List, [], ◌∷◌, ◌++◌, Bool-cases, inl, inr, leb, leb→le, ◌==◌,
  if◌then◌else◌, ◌≡◌, ◌+◌, ◌*◌, ◌^◌, ◌<◌, ◌≤◌, arith,
}
use ncdc.RateCalc.{ℤ, pos, negsuc, minus, wrap, debt, Ratecalc, ratecalc_add, ratecalc_calc}
use ncdc.RateCalc.Burst.{up, total_of, ups, debts}
use ncdc.RateCalc.Limit.{ratecalc_calc-ups}

minus-up : (b : ℤ) (n : ℕ) → up (minus b n) + debt b + n ≡ up b + debt (minus b n)
unfolding minus debt
minus-up (pos m) n = elim (Bool-cases (leb n m)) [
  | inl h ↦ rw h (omega (arith, leb→le n m h))
  | inr h ↦ rw h (omega (arith, leb-false→lt n m h))
]
minus-up (negsuc m) n = omega arith

-- What is an `int` is not changed.
wrap_lem : (b : ℤ) → up b < 2 ^ 31 → debt b < 2 ^ 31 → wrap b ≡ b
unfolding wrap debt
wrap_lem (pos n) high low = ground arith
wrap_lem (negsuc n) high low = ground arith

total_of-append :
    (f : Ratecalc → ℕ) (c : ℕ) (xs ys : List Ratecalc)
    → total_of f c (xs ++ ys) ≡ total_of f c xs + total_of f c ys
total_of-append f c [] ys = omega arith
total_of-append f c (x ∷ xs) ys = omega (arith, total_of-append f c xs ys)

module _ (max : ℕ → ℕ) (c : ℕ) where
  -- What happens to the registered items: `bytes` counts what the items of the class add, and `seconds` the
  -- calls of `ratecalc_calc`.
  pub data Run (start : List Ratecalc) : (bytes seconds : ℕ) → List Ratecalc → Type 0 where
    begin : Run start 0 0 start
    add :
        {bytes seconds : ℕ} (before : List Ratecalc) (rc : Ratecalc) (after : List Ratecalc) (b : ℕ)
        → Run start bytes seconds (before ++ rc ∷ after)
        → Run start
            (bytes + (if c == rc.reg then b else 0))
            seconds
            (before ++ ratecalc_add rc b ∷ after)
    calc :
        {bytes seconds : ℕ} {rcs : List Ratecalc}
        → Run start bytes seconds rcs
        → Run start bytes (seconds + 1) (ratecalc_calc max rcs)

  -- Every burst that an `add` of the run leaves is an `int`, and above the least one, whose debt is none.
  abbrev pub Fits :
      {start rcs : List Ratecalc} {bytes seconds : ℕ} → Run start bytes seconds rcs → Type 0
  Fits begin = Unit {0}
  Fits (add before rc after b run) =
      Fits run × (up (minus rc.burst b) < 2 ^ 31) × (debt (minus rc.burst b) < 2 ^ 31)
  Fits (calc run) = Fits run

  -- An item that is put in the place of another one of its class, with `b` taken from its burst.
  put-ups :
      (before : List Ratecalc) (rc rc' : Ratecalc) (after : List Ratecalc) (b : ℕ)
      → (c == rc'.reg) ≡ (c == rc.reg)
      → up rc'.burst + debt rc.burst + b ≡ up rc.burst + debt rc'.burst
      → let old = before ++ rc ∷ after in
        let new = before ++ rc' ∷ after in
        ups c new + debts c old + (if c == rc.reg then b else 0) ≡ ups c old + debts c new
  put-ups before rc rc' after b same paid = ground (
    arith,
    total_of-append (λ r. up r.burst) c before (rc ∷ after),
    total_of-append (λ r. up r.burst) c before (rc' ∷ after),
    total_of-append (λ r. debt r.burst) c before (rc ∷ after),
    total_of-append (λ r. debt r.burst) c before (rc' ∷ after),
  )

  add-ups :
      (before : List Ratecalc) (rc : Ratecalc) (after : List Ratecalc) (b : ℕ)
      → up (minus rc.burst b) < 2 ^ 31
      → debt (minus rc.burst b) < 2 ^ 31
      → let old = before ++ rc ∷ after in
        let new = before ++ ratecalc_add rc b ∷ after in
        ups c new + debts c old + (if c == rc.reg then b else 0) ≡ ups c old + debts c new
  unfolding ratecalc_add
  add-ups before rc after b high low =
      put-ups before rc (ratecalc_add rc b) after b refl
        (rw (wrap_lem (minus rc.burst b) high low) (minus-up rc.burst b))

  -- The bytes that the items of a class add in a run are at most the bursts they start with, the limit of
  -- the class for each second, and what the items owe at the end, less what is left of their bursts. The
  -- condition: after each `ratecalc_add` of the run the burst is an `int`, and above the least one.
  pub traffic-limit :
      (start rcs : List Ratecalc) (bytes seconds : ℕ) (run : Run start bytes seconds rcs)
      → Fits run
      → bytes + ups c rcs + debts c start ≤ ups c start + debts c rcs + seconds * max c
  traffic-limit start rcs bytes seconds begin fits = omega arith
  traffic-limit start rcs bytes seconds (add before rc after b run) (fits, high, low) =
      omega (arith, traffic-limit start _ _ _ run fits, add-ups before rc after b high low)
  traffic-limit start _ _ _ (calc {seconds} {rcs} run) fits = omega (
    arith,
    traffic-limit start _ _ _ run fits,
    ratecalc_calc-ups max rcs c,
    one_more seconds (max c),
  )
    where
      one_more : (n m : ℕ) → (n + 1) * m ≡ n * m + m
      one_more n m = omega arith
