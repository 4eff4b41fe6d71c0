-- ===== src/Tth/Size.antt =====
-- src/tth.c: `tth_blocksize` gives the smallest size of a block with which a file has no more than the
-- blocks that are asked for.
use ncdc.Prelude.{
  ℕ, zero, suc, ◌⊎◌, inl, inr, Bool-cases, ltb, ltb→lt, ltb-false→le, ◌≡◌, refl, ◌+◌, ◌-◌, ◌*◌, ◌/◌,
  ◌%◌, ◌^◌, ◌<◌, ◌≤◌, arith,
}
use native.Mathlib.Decide.{dec_lt}
use ncdc.Tth.{double_until, tth_blocksize, tth_num_blocks}

-- `r` is large enough, and half of it, if it is not the smallest size, is not.
record IsSmallest (fs blocks r : ℕ) : Type 0 where
  pub positive : 0 < r
  pub small : r ≤ 2 ^ 63
  pub enough : fs ≤ r * blocks
  pub least : (r ≡ 1024) ⊎ (r / 2 * blocks < fs)
  pub power : (k : ℕ) × (r ≡ 1024 * 2 ^ k)

twice : (r blocks : ℕ) → r * 2 * blocks ≡ 2 * (r * blocks)
twice r blocks = grind arith

at_least : (r blocks : ℕ) → 0 < blocks → r ≤ r * blocks
at_least r blocks pos = grind arith

pow_suc : (k : ℕ) → 2 ^ suc k ≡ 2 * 2 ^ k
pow_suc k = omega arith

enough_fuel : (r f b fs : ℕ) → fs ≤ r * (2 * f) * b → fs ≤ r * 2 * f * b
enough_fuel r f b fs h = grind arith

enough_zero : (r b fs : ℕ) → fs ≤ r * 2 ^ 0 * b → fs ≤ r * b
enough_zero r b fs h = grind arith

halve : (r : ℕ) → r * 2 / 2 ≡ r
halve r = omega arith

twice_power : (r p q : ℕ) → r ≡ 1024 * p → q ≡ 2 * p → r * 2 ≡ 1024 * q
twice_power r p q e e' = omega arith

double_until_lem :
    (fuel fs blocks r : ℕ)
    → 0 < blocks
    → fs ≤ 2 ^ 62
    → 0 < r
    → r * blocks < 2 ^ 63
    → fs ≤ r * 2 ^ fuel * blocks
    → (r ≡ 1024) ⊎ (r / 2 * blocks < fs)
    → (k : ℕ) × (r ≡ 1024 * 2 ^ k)
    → IsSmallest fs blocks (double_until fuel fs blocks r)
unfolding double_until
double_until_lem zero fs blocks r one small pos bound fits least power = record {
  positive = pos;
  small = omega (arith, at_least r blocks one);
  enough = enough_zero r blocks fs fits;
  least = least;
  power = power;
}
double_until_lem (suc fuel) fs blocks r one small pos bound fits least (k, power) =
    let no_wrap : r * blocks % 2 ^ 64 ≡ r * blocks = omega arith in
    let no_wrap' : r * 2 % 2 ^ 64 ≡ r * 2 = omega (arith, at_least r blocks one) in
    elim (Bool-cases (ltb (r * blocks) fs)) [
      | inl more ↦
          let below = ltb→lt (r * blocks) fs more in
          rw (no_wrap, no_wrap', more)
            (double_until_lem fuel fs blocks (r * 2) one small (omega arith)
              (omega (arith, twice r blocks))
              (enough_fuel r (2 ^ fuel) blocks fs (rw (pow_suc fuel) at fits))
              (inr (rw (halve r) below))
              (suc k, twice_power r (2 ^ k) (2 ^ suc k) power (pow_suc k)))
      | inr done ↦
          rw (no_wrap, done)
            (record {
              positive = pos;
              small = omega (arith, at_least r blocks one);
              enough = ltb-false→le (r * blocks) fs done;
              least = least;
              power = (k, power);
            })
    ]

blocks_le : (n r b : ℕ) → 0 < r → n ≤ r * b → (n + r - 1) / r ≤ b
blocks_le n r b pos h = elim (dec_lt b ((n + r - 1) / r)) [
  | yes over ↦
      let low : (n + r - 1) / r * r ≤ n + r - 1 = omega arith in
      absurd (omega (arith, too_many ((n + r - 1) / r) r b over))
  | no fits ↦ omega arith
]
  where
    too_many : (q r b : ℕ) → b < q → r * b + r ≤ q * r
    too_many q r b over = grind arith

first_bound : (blocks : ℕ) → blocks < 2 ^ 31 → 1024 * blocks < 2 ^ 63
first_bound blocks h = omega arith

first_fits : (fs blocks : ℕ) → 0 < blocks → fs ≤ 2 ^ 62 → fs ≤ 1024 * 2 ^ 64 * blocks
first_fits fs blocks pos small = omega arith

-- For a file of up to 2 ^ 62 bytes and one block or more, `tth_blocksize` gives a power of two times
-- 1024 with which the file has no more than these blocks; and it is 1024, or half of it is too small.
pub tth_blocksize_lem :
    (fs blocks : ℕ)
    → 0 < blocks
    → blocks < 2 ^ 31
    → fs ≤ 2 ^ 62
    → let r = tth_blocksize fs blocks in
      (tth_num_blocks fs r ≤ blocks)
      × ((r ≡ 1024) ⊎ (r / 2 * blocks < fs))
      × ((k : ℕ) × (r ≡ 1024 * 2 ^ k))
unfolding tth_blocksize tth_num_blocks
tth_blocksize_lem fs blocks one int small =
    let s =
      double_until_lem 64 fs blocks 1024 one small (omega arith) (first_bound blocks int)
        (first_fits fs blocks one small) (inl refl) (0, refl) in
    let r = double_until 64 fs blocks 1024 in
    let no_wrap : (fs + r + 2 ^ 64 - 1) % 2 ^ 64 ≡ fs + r - 1 =
      omega (arith, s.positive, s.small) in
    (rw no_wrap (omega (arith, blocks_le fs r blocks s.positive s.enough)), s.least, s.power)
