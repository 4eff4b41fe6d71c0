-- ===== src/RateCalc/Burst.antt =====
-- src/util.c: what `burst` is worth when it is paid, lent and cut, and sums of it over a class.
use ncdc.Prelude.{
  leb-false→lt, ℕ, List, [], ◌∷◌, Bool-cases, inl, inr, All, ltb, ltb→lt, ltb-false→le, leb, leb→le,
  ◌==◌, if◌then◌else◌, ◌≡◌, ◌+◌, ◌-◌, ◌≤◌, arith,
}
use ncdc.RateCalc.{ℤ, pos, negsuc, plus, below, debt, room, Ratecalc}

-- `MAX(0, b)`
abbrev pub up : ℤ → ℕ
up (pos n) = n
up (negsuc n) = 0

-- Adding to a burst raises it by just that much.
pub plus-up : (b : ℤ) (a : ℕ) → up (plus b a) + debt b ≡ up b + debt (plus b a) + a
unfolding plus debt
plus-up (pos n) a = omega arith
plus-up (negsuc n) a = elim (Bool-cases (leb a n)) [
  | inl h ↦ rw h (omega (arith, leb→le a n h))
  | inr h ↦ rw h (omega (arith, leb-false→lt a n h))
]

-- A burst that gets no more than there is room for stays below the limit.
pub plus-limit : (m : ℕ) (b : ℤ) (a : ℕ) → up b ≤ m → a ≤ room m b → up (plus b a) ≤ m
unfolding plus room
plus-limit m (pos n) a h k = omega arith
plus-limit m (negsuc n) a h k = elim (Bool-cases (leb a n)) [
  | inl e ↦ rw e (omega arith)
  | inr e ↦ rw e (omega arith)
]

pub room-plus : (m : ℕ) (b : ℤ) (a : ℕ) → room m (plus b a) ≡ room m b - a
unfolding plus room
room-plus m (pos n) a = omega arith
room-plus m (negsuc n) a = elim (Bool-cases (leb a n)) [
  | inl h ↦ rw h (omega (arith, leb→le a n h))
  | inr h ↦ rw h (omega (arith, leb-false→lt a n h))
]

-- What pass one makes of a burst: cut to the limit, it is not above it, and there is room just if it was below.
abbrev pub cut : ℕ → ℤ → ℤ
cut m b = if below b m then b else pos m

pub cut-limit : (m : ℕ) (b : ℤ) → up (cut m b) ≤ m
unfolding below
cut-limit m (pos n) = elim (Bool-cases (ltb n m)) [
  | inl h ↦ rw h (omega (arith, ltb→lt n m h))
  | inr h ↦ rw h (omega arith)
]
cut-limit m (negsuc n) = omega arith

pub cut-up : (m : ℕ) (b : ℤ) → up (cut m b) + debt b ≤ up b + debt (cut m b)
unfolding below debt
cut-up m (pos n) = elim (Bool-cases (ltb n m)) [
  | inl h ↦ rw h (omega arith)
  | inr h ↦ rw h (omega (arith, ltb-false→le n m h))
]
cut-up m (negsuc n) = omega arith

pub cut-room : (m : ℕ) (b : ℤ) → ltb 0 (room m (cut m b)) ≡ below b m
unfolding room below
cut-room m (pos n) = elim (Bool-cases (ltb n m)) [
  | inl h ↦ rw h (ground (arith, ltb→lt n m h))
  | inr h ↦ rw h (ground arith)
]
cut-room m (negsuc n) = ground arith

-- The sum of a number over the items of a class.
abbrev pub total_of : (Ratecalc → ℕ) → ℕ → List Ratecalc → ℕ
total_of f c [] = 0
total_of f c (rc ∷ rcs) = (if c == rc.reg then f rc else 0) + total_of f c rcs

abbrev pub ups : ℕ → List Ratecalc → ℕ
ups = total_of (λ rc. up rc.burst)

abbrev pub debts : ℕ → List Ratecalc → ℕ
debts = total_of (λ rc. debt rc.burst)

-- How many items of a class there is room for in.
abbrev pub open_count : (ℕ → ℕ) → ℕ → List Ratecalc → ℕ
open_count max = total_of (λ rc. if ltb 0 (room (max rc.reg) rc.burst) then 1 else 0)

abbrev pub WithinLimit : (ℕ → ℕ) → List Ratecalc → Type 0
WithinLimit max = All (λ rc. up rc.burst ≤ max rc.reg)
