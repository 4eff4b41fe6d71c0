-- ===== src/RateCalc.antt =====
-- src/util.c: ratecalc, the measure and the limit of the rates of transfers and of hashing. `ratecalc_add`
-- wraps `burst` as an `int`; other sums are taken without overflow, which the ranges of the theorems exclude
-- where it matters. The lock is left out, and each call is one step.
pub mod Burst
pub mod First
pub mod Share
pub mod Limit
pub mod Traffic
pub mod Ready
pub mod Serve
mod Tests
use ncdc.Prelude.{
  ℕ, zero, suc, List, [], ◌∷◌, Bool, true, false, ◌&&◌, ◌||◌, ltb, leb, ◌==◌, if◌then◌else◌, min,
  ◌+◌, ◌-◌, ◌/◌, ◌*◌, ◌%◌, ◌^◌,
}

-- `int`, by the names of the library.
pub data ℤ : Type 0 where
  pos : ℕ → ℤ
  negsuc : ℕ → ℤ

pub minus : ℤ → ℕ → ℤ
minus (pos n) b = if leb b n then pos (n - b) else negsuc (b - n - 1)
minus (negsuc n) b = negsuc (n + b)

pub plus : ℤ → ℕ → ℤ
plus (pos n) a = pos (n + a)
plus (negsuc n) a = if leb a n then negsuc (n - a) else pos (a - n - 1)

pub below : ℤ → ℕ → Bool
below (pos n) m = ltb n m
below (negsuc n) m = true

-- `MAX(0, -b)`
pub debt : ℤ → ℕ
debt (pos n) = 0
debt (negsuc n) = suc n

-- `m - b`, for a `b` that is at most `m`.
pub room : ℕ → ℤ → ℕ
room m (pos b) = m - b
room m (negsuc b) = m + suc b

-- Without the lock. `last` is at most `total`, which only grows.
pub record Ratecalc : Type 0 where
  pub total : ℕ
  pub last : ℕ
  pub burst : ℤ
  pub rate : ℕ
  pub reg : ℕ

unfoldable pub ratecalc_reset : Ratecalc → Ratecalc
ratecalc_reset rc = record { total = 0; last = 0; burst = pos 0; rate = 0; reg = rc.reg }

-- A sum as an `int` of 32 bits in two's complement.
abbrev bits32 : ℕ → ℤ
bits32 n = if ltb n (2 ^ 31) then pos n else negsuc (2 ^ 32 - n - 1)

pub wrap : ℤ → ℤ
wrap (pos n) = bits32 (n % 2 ^ 32)
wrap (negsuc n) = bits32 (2 ^ 32 - 1 - n % 2 ^ 32)

unfoldable pub ratecalc_add : Ratecalc → ℕ → Ratecalc
unfolding wrap
ratecalc_add rc b = record {
  total = rc.total + b;
  last = rc.last;
  burst = wrap (minus rc.burst b);
  rate = rc.rate;
  reg = rc.reg;
}

pub with_burst : Ratecalc → ℤ → Ratecalc
with_burst rc b = record {
  total = rc.total;
  last = rc.last;
  burst = b;
  rate = rc.rate;
  reg = rc.reg;
}

-- An array with an element for each class.
abbrev pub put : (ℕ → ℕ) → ℕ → ℕ → ℕ → ℕ
put f c v j = if j == c then v else f j

-- `maxburst`: the rates of hashing, uploads and downloads that are set, 0 for no limit.
unfoldable pub maxburst : ℕ → ℕ → ℕ → ℕ → ℕ
maxburst hash up down c =
    let v = if c == 2 then hash else if c == 3 then up else if c == 4 then down else 0 in
    if v == 0 then 2147483647 else v

-- The registered items with the arrays `left` and `nums`.
pub record Shares : Type 0 where
  pub rcs : List Ratecalc
  pub left : ℕ → ℕ
  pub nums : ℕ → ℕ

pub prepend : Ratecalc → Shares → Shares
prepend rc s = record { rcs = rc ∷ s.rcs; left = s.left; nums = s.nums }

-- `diff + ((rate - diff) / 2)`, where the division rounds toward 0.
pub new_rate : ℕ → ℕ → ℕ
new_rate rate diff = if leb diff rate then diff + (rate - diff) / 2 else diff - (diff - rate) / 2

pub measured : Ratecalc → ℤ → Ratecalc
measured rc b = record {
  total = rc.total;
  last = rc.total;
  burst = b;
  rate = new_rate rc.rate (rc.total - rc.last);
  reg = rc.reg;
}

-- What `left` pays of a burst below zero.
pub repaid : (ℕ → ℕ) → Ratecalc → ℕ
repaid left rc = min (left rc.reg) (debt rc.burst)

-- Pass one.
unfoldable pub pass_one : (ℕ → ℕ) → List Ratecalc → (ℕ → ℕ) → (ℕ → ℕ) → Shares
pass_one max [] left nums = record { rcs = []; left = left; nums = nums }
pass_one max (rc ∷ rest) left nums =
    let c = rc.reg in
    let b = plus rc.burst (repaid left rc) in
    let low = below b (max c) in
    prepend (measured rc (if low then b else pos (max c))) (
      pass_one max rest (put left c (left c - repaid left rc))
        (if low then put nums c (nums c + 1) else nums))

-- The bandwidth that an item of a class gets.
pub allocated : (ℕ → ℕ) → (ℕ → ℕ) → Ratecalc → ℕ
allocated max bwp rc =
    if ltb 0 (bwp rc.reg) then min (room (max rc.reg) rc.burst) (bwp rc.reg) else 0

-- The loop over the items in one of the later passes.
unfoldable pub distribute : (ℕ → ℕ) → (ℕ → ℕ) → List Ratecalc → (ℕ → ℕ) → (ℕ → ℕ) → Shares
distribute max bwp [] left nums = record { rcs = []; left = left; nums = nums }
distribute max bwp (rc ∷ rest) left nums =
    let c = rc.reg in
    let alloc = allocated max bwp rc in
    prepend (with_burst rc (plus rc.burst alloc)) (
      distribute max bwp rest (put left c (left c - alloc))
        (if ltb 0 alloc && ltb alloc (bwp c) then put nums c (nums c - 1) else nums))

-- `bwp`, for the classes 2 to 4.
pub average : Shares → ℕ → ℕ
average s j = if leb 2 j && leb j 4 then if s.nums j == 0 then 0 else s.left j / s.nums j else 0

pub anything : (ℕ → ℕ) → Bool
anything bwp = ltb 0 (bwp 2) || (ltb 0 (bwp 3) || ltb 0 (bwp 4))

unfoldable pub passes : ℕ → (ℕ → ℕ) → Shares → Shares
passes zero max s = s
passes (suc i) max s =
    let more = passes i max (distribute max (average s) s.rcs s.left s.nums) in
    if anything (average s) then more else s

unfoldable pub ratecalc_calc : (ℕ → ℕ) → List Ratecalc → List Ratecalc
ratecalc_calc max rcs = (passes 3 max (pass_one max rcs max (λ j. 0))).rcs
