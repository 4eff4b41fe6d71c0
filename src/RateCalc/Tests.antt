-- ===== src/RateCalc/Tests.antt =====
-- src/util.c: two uploads with a limit of 100 bytes in a second, one of which has sent 30 bytes too many.
use ncdc.Prelude.{arith, ℕ, List, [], ◌∷◌, ◌+◌, ◌*◌, ◌≤◌, ◌≡◌, map, refl}
use ncdc.RateCalc.{
  pos, negsuc, minus, Ratecalc, maxburst, ratecalc_add, ratecalc_calc, pass_one, passes, distribute,
  plus, below, debt, room, with_burst, prepend, measured, repaid, allocated, average, anything,
  new_rate,
}
use ncdc.RateCalc.Burst.{ups, debts, WithinLimit}
use ncdc.RateCalc.Limit.{ratecalc_calc-WithinLimit}
use ncdc.RateCalc.Ready.{Zip}
use ncdc.RateCalc.Serve.{Served, ratecalc_calc-Served}
use ncdc.RateCalc.Traffic.{Run, begin, add, calc, traffic-limit}

abbrev limits : ℕ → ℕ
limits = maxburst 0 100 0

abbrev late : Ratecalc
late = record { total = 500; last = 400; burst = negsuc 29; rate = 60; reg = 3 }

abbrev fresh : Ratecalc
fresh = record { total = 0; last = 0; burst = pos 0; rate = 0; reg = 3 }

-- The debt is paid first, and each gets half of what is left.
halves : map (λ rc. rc.burst) (ratecalc_calc limits (late ∷ fresh ∷ [])) ≡ pos 35 ∷ pos 35 ∷ []
unfolding ratecalc_calc maxburst pass_one passes distribute plus below debt room with_burst prepend
    measured repaid allocated average anything
halves = refl

rates : map (λ rc. rc.rate) (ratecalc_calc limits (late ∷ fresh ∷ [])) ≡ 80 ∷ 0 ∷ []
unfolding ratecalc_calc maxburst pass_one passes distribute plus below debt room with_burst prepend
    measured repaid allocated average anything new_rate
rates = refl

ratecalc_calc-WithinLimit_example : WithinLimit limits (ratecalc_calc limits (late ∷ fresh ∷ []))
ratecalc_calc-WithinLimit_example = ratecalc_calc-WithinLimit limits (late ∷ fresh ∷ [])

abbrev after_add : List Ratecalc
after_add = ratecalc_add late 5 ∷ fresh ∷ []

abbrev short_run : Run limits 3 (late ∷ fresh ∷ []) (0 + 5) (0 + 1) (ratecalc_calc limits after_add)
short_run = calc (add [] late (fresh ∷ []) 5 begin)

traffic-limit_example :
    (0 + 5) + ups 3 (ratecalc_calc limits after_add) + debts 3 (late ∷ fresh ∷ [])
    ≤ ups 3 (late ∷ fresh ∷ []) + debts 3 (ratecalc_calc limits after_add) + (0 + 1) * limits 3
unfolding minus debt
traffic-limit_example =
    traffic-limit limits 3 (late ∷ fresh ∷ []) (ratecalc_calc limits after_add) (0 + 5) (0 + 1)
      short_run (tt, omega arith, omega arith)

ratecalc_calc-Served_example :
    Zip (Served limits 3) (fresh ∷ fresh ∷ []) (ratecalc_calc limits (fresh ∷ fresh ∷ []))
unfolding debt maxburst room
ratecalc_calc-Served_example =
    ratecalc_calc-Served limits 3 (fresh ∷ fresh ∷ []) (omega arith) (omega arith) refl
      (omega arith) (omega arith)

-- Three items of the greatest size make a burst wrap.
wraps : (ratecalc_add (ratecalc_add fresh 2147483647) 2147483647).burst ≡ pos 2
unfolding ratecalc_add minus
wraps = refl
