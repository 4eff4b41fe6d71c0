-- ===== src/RateCalc/Share.antt =====
-- src/util.c: one of the later passes of `ratecalc_calc`.
use ncdc.Prelude.{
  subst, ℕ, List, [], ◌∷◌, Bool, Bool-cases, inl, inr, true, false, ◌&&◌, ltb, ltb-false→le, ◌==◌,
  ==_iff, if◌then◌else◌, min, ◌≡◌, refl, sym, ap, ◌∙◌, ◌+◌, ◌-◌, ◌*◌, ◌≤◌, arith,
}
use native.Mathlib.Nat.{add-mul}
use ncdc.RateCalc.{plus, room, Ratecalc, with_burst, put, prepend, allocated, distribute}
use ncdc.RateCalc.Burst.{
  plus-up, room-plus, plus-limit, total_of, ups, debts, open_count, WithinLimit,
}

module _ (max bwp : ℕ → ℕ) where
  -- What the items of a class get in a pass.
  abbrev pub spent : ℕ → List Ratecalc → ℕ
  spent = total_of (allocated max bwp)

  allocated-room : (rc : Ratecalc) → allocated max bwp rc ≤ room (max rc.reg) rc.burst
  unfolding allocated
  allocated-room rc = elim (Bool-cases (ltb 0 (bwp rc.reg))) [
    | inl h ↦ rw h (omega arith)
    | inr h ↦ rw h (omega arith)
  ]

  -- An item gets at most the average, and only if there is room.
  allocated-open :
      (rc : Ratecalc)
      → allocated max bwp rc ≤ (if ltb 0 (room (max rc.reg) rc.burst) then 1 else 0) * bwp rc.reg
  unfolding allocated
  allocated-open rc = elim (Bool-cases (ltb 0 (bwp rc.reg))) [
    | inl h ↦ elim (Bool-cases (ltb 0 (room (max rc.reg) rc.burst))) [
      | inl some_room ↦ rw (h, some_room) (omega arith)
      | inr full ↦ rw (h, full) (omega (arith, ltb-false→le 0 (room (max rc.reg) rc.burst) full))
    ]
    | inr h ↦ rw h (omega arith)
  ]

  pub spent-open_count : (c : ℕ) (rcs : List Ratecalc) → spent c rcs ≤ open_count max c rcs * bwp c
  spent-open_count c [] = omega arith
  spent-open_count c (rc ∷ rcs) = elim (Bool-cases (c == rc.reg)) [
    | inl same ↦
        let e = (==_iff c rc.reg).0 same in
        let o = if ltb 0 (room (max rc.reg) rc.burst) then 1 else 0 in
        let head : allocated max bwp rc ≤ o * bwp c =
          subst (λ r. allocated max bwp rc ≤ o * bwp r) (sym e) (allocated-open rc) in
        rw same (
          sum_le (allocated max bwp rc) (spent c rcs) o (open_count max c rcs) (bwp c) head
            (spent-open_count c rcs))
    | inr other ↦
        rw other (zeros_le (spent c rcs) (open_count max c rcs) (bwp c) (spent-open_count c rcs))
  ]
    where
      sum_le : (a s o n b : ℕ) → a ≤ o * b → s ≤ n * b → a + s ≤ (o + n) * b
      sum_le a s o n b h k = rw (add-mul o n b) (omega (arith, h, k))

      zeros_le : (s n b : ℕ) → s ≤ n * b → 0 + s ≤ (0 + n) * b
      zeros_le s n b h = sum_le 0 s 0 n b (omega arith) h

  pub distribute-left :
      (c : ℕ) (rcs : List Ratecalc) (left nums : ℕ → ℕ)
      → (distribute max bwp rcs left nums).left c ≡ left c - spent c rcs
  unfolding distribute prepend
  distribute-left c [] left nums = omega arith
  distribute-left c (rc ∷ rcs) left nums =
      let a = allocated max bwp rc in
      let n = if ltb 0 a && ltb a (bwp rc.reg) then put nums rc.reg (nums rc.reg - 1) else nums in
      let rest = distribute-left c rcs (put left rc.reg (left rc.reg - a)) n in
      elim (Bool-cases (c == rc.reg)) [
        | inl same ↦
            let e : left rc.reg ≡ left c = ap left (sym ((==_iff c rc.reg).0 same)) in
            rest ∙ rw (same, e) (minus_minus (left c) a (spent c rcs))
        | inr other ↦ rest ∙ rw other (minus_sum (left c) (spent c rcs))
      ]
    where
      minus_minus : (l a s : ℕ) → l - a - s ≡ l - (a + s)
      minus_minus l a s = omega arith

      minus_sum : (l s : ℕ) → l - s ≡ l - (0 + s)
      minus_sum l s = omega arith

  pub distribute-ups :
      (c : ℕ) (rcs : List Ratecalc) (left nums : ℕ → ℕ)
      → ups c (distribute max bwp rcs left nums).rcs + debts c rcs
        ≡ ups c rcs + debts c (distribute max bwp rcs left nums).rcs + spent c rcs
  unfolding distribute prepend with_burst
  distribute-ups c [] left nums = refl
  distribute-ups c (rc ∷ rcs) left nums =
      let a = allocated max bwp rc in
      let n = if ltb 0 a && ltb a (bwp rc.reg) then put nums rc.reg (nums rc.reg - 1) else nums in
      let rest = distribute-ups c rcs (put left rc.reg (left rc.reg - a)) n in
      elim (Bool-cases (c == rc.reg)) [
        | inl same ↦ rw same (omega (arith, rest, plus-up rc.burst a))
        | inr other ↦ rw other (omega (arith, rest))
      ]

  pub distribute-WithinLimit :
      (rcs : List Ratecalc) (left nums : ℕ → ℕ)
      → WithinLimit max rcs
      → WithinLimit max (distribute max bwp rcs left nums).rcs
  unfolding distribute prepend with_burst
  distribute-WithinLimit [] left nums h = h
  distribute-WithinLimit (rc ∷ rcs) left nums (h, hs) = (
    plus-limit (max rc.reg) rc.burst (allocated max bwp rc) h (allocated-room rc),
    distribute-WithinLimit rcs _ _ hs,
  )

  -- What `nums` loses with an item covers the room that the item loses.
  nums_step :
      (r w n rest k : ℕ)
      → let a = if ltb 0 w then min r w else 0 in
        (if ltb 0 r then 1 else 0) + rest + k ≤ n
        → rest + (k + (if ltb 0 (r - a) then 1 else 0)) ≤ (if ltb 0 a && ltb a w then n - 1 else n)
  nums_step r w n rest k h = ground arith

  nums_at :
      (b : Bool) (c r : ℕ) (nums : ℕ → ℕ)
      → (c == r) ≡ true
      → (if b then put nums r (nums r - 1) else nums) c ≡ (if b then nums c - 1 else nums c)
  nums_at true c r nums same = rw (same, (==_iff c r).0 same) refl
  nums_at false c r nums same = refl

  nums_other :
      (b : Bool) (c r : ℕ) (nums : ℕ → ℕ)
      → (c == r) ≡ false
      → (if b then put nums r (nums r - 1) else nums) c ≡ nums c
  nums_other true c r nums other = rw other refl
  nums_other false c r nums other = refl

  -- `nums` stays at least the number of items that there is room for.
  pub distribute-open_count :
      (c : ℕ) (rcs : List Ratecalc) (left nums : ℕ → ℕ) (k : ℕ)
      → open_count max c rcs + k ≤ nums c
      → open_count max c (distribute max bwp rcs left nums).rcs + k
        ≤ (distribute max bwp rcs left nums).nums c
  unfolding distribute prepend with_burst allocated
  distribute-open_count c [] left nums k h = h
  distribute-open_count c (rc ∷ rcs) left nums k h =
      let a = allocated max bwp rc in
      let b = ltb 0 a && ltb a (bwp rc.reg) in
      let n = if b then put nums rc.reg (nums rc.reg - 1) else nums in
      let l = put left rc.reg (left rc.reg - a) in
      let o' : ℕ = if ltb 0 (room (max rc.reg) (plus rc.burst a)) then 1 else 0 in
      elim (Bool-cases (c == rc.reg)) [
        | inl same ↦
            let below : open_count max c rcs + (k + o') ≤ n c =
              rw (room-plus (max rc.reg) rc.burst a, nums_at b c rc.reg nums same)
                (nums_step (room (max rc.reg) rc.burst) (bwp rc.reg) (nums c) (open_count max c rcs)
                  k (rw same at h)) in
            rw same (omega (arith, distribute-open_count c rcs l n (k + o') below))
        | inr other ↦
            let below : open_count max c rcs + k ≤ n c =
              rw (nums_other b c rc.reg nums other) (omega (arith, rw other at h)) in
            rw other (omega (arith, distribute-open_count c rcs l n k below))
      ]
