-- ===== src/RateCalc/First.antt =====
-- src/util.c: pass one of `ratecalc_calc`.
use ncdc.Prelude.{
  ℕ, List, [], ◌∷◌, Bool, Bool-cases, inl, inr, true, false, ◌==◌, ==_iff, if◌then◌else◌, ◌≡◌, refl,
  sym, ap, ◌+◌, ◌-◌, ◌≤◌, arith,
}
use ncdc.RateCalc.{plus, below, Ratecalc, put, prepend, measured, repaid, pass_one}
use ncdc.RateCalc.Burst.{plus-up, cut-limit, cut-up, cut-room, ups, debts, open_count, WithinLimit}

module _ (max : ℕ → ℕ) where
  repaid_le : (left : ℕ → ℕ) (rc : Ratecalc) → repaid left rc ≤ left rc.reg
  unfolding repaid
  repaid_le left rc = omega arith

  pub pass_one-WithinLimit :
      (rcs : List Ratecalc) (left nums : ℕ → ℕ) → WithinLimit max (pass_one max rcs left nums).rcs
  unfolding pass_one prepend measured
  pass_one-WithinLimit [] left nums = tt
  pass_one-WithinLimit (rc ∷ rcs) left nums =
      (cut-limit (max rc.reg) (plus rc.burst (repaid left rc)), pass_one-WithinLimit rcs _ _)

  -- What is paid of the debts of a class, and what is cut off, is taken from what is left.
  pub pass_one-ups :
      (c : ℕ) (rcs : List Ratecalc) (left nums : ℕ → ℕ)
      → ups c (pass_one max rcs left nums).rcs + debts c rcs + (pass_one max rcs left nums).left c
        ≤ ups c rcs + debts c (pass_one max rcs left nums).rcs + left c
  unfolding pass_one prepend measured
  pass_one-ups c [] left nums = omega arith
  pass_one-ups c (rc ∷ rcs) left nums =
      let r = repaid left rc in
      let b = plus rc.burst r in
      let l = put left rc.reg (left rc.reg - r) in
      let n = if below b (max rc.reg) then put nums rc.reg (nums rc.reg + 1) else nums in
      elim (Bool-cases (c == rc.reg)) [
        | inl same ↦
            let e : left rc.reg ≡ left c = ap left (sym ((==_iff c rc.reg).0 same)) in
            let rest = rw same at (pass_one-ups c rcs l n) in
            rw same
              (omega (arith, rest, e, cut-up (max rc.reg) b, plus-up rc.burst r, repaid_le left rc))
        | inr other ↦
            let rest = rw other at (pass_one-ups c rcs l n) in rw other (omega (arith, rest))
      ]

  -- `nums` counts the items that there is room for.
  pub pass_one-open_count :
      (c : ℕ) (rcs : List Ratecalc) (left nums : ℕ → ℕ)
      → open_count max c (pass_one max rcs left nums).rcs + nums c
        ≡ (pass_one max rcs left nums).nums c
  unfolding pass_one prepend measured
  pass_one-open_count c [] left nums = omega arith
  pass_one-open_count c (rc ∷ rcs) left nums =
      let r = repaid left rc in
      let b = plus rc.burst r in
      let l = put left rc.reg (left rc.reg - r) in
      let n = if below b (max rc.reg) then put nums rc.reg (nums rc.reg + 1) else nums in
      let rest = pass_one-open_count c rcs l n in
      elim (Bool-cases (c == rc.reg)) [
        | inl same ↦
            rw (same, cut-room (max rc.reg) b)
              (omega (arith, rest, counted (below b (max rc.reg)) c rc.reg nums same))
        | inr other ↦
            rw other (omega (arith, rest, kept (below b (max rc.reg)) c rc.reg nums other))
      ]
    where
      counted :
          (b : Bool) (c r : ℕ) (nums : ℕ → ℕ)
          → (c == r) ≡ true
          → (if b then put nums r (nums r + 1) else nums) c ≡ (if b then 1 else 0) + nums c
      counted true c r nums same = rw (same, (==_iff c r).0 same) (omega arith)
      counted false c r nums same = omega arith

      kept :
          (b : Bool) (c r : ℕ) (nums : ℕ → ℕ)
          → (c == r) ≡ false
          → (if b then put nums r (nums r + 1) else nums) c ≡ nums c
      kept true c r nums other = rw other refl
      kept false c r nums other = refl
