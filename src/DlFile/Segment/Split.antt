-- ===== src/DlFile/Segment/Split.antt =====
-- src/dlfile.c: where `dlfile_getchunk` splits the range of a busy thread.
use ncdc.Prelude.{
  ℕ, suc, true, false, ltb, leb, ◌==◌, ◌&&◌, ◌||◌, if◌then◌else◌, ◌+◌, ◌-◌, ◌*◌, ◌/◌, ◌%◌, ◌^◌, ◌<◌,
  ◌≤◌, ◌≡◌, ◌⊎◌, arith, Bool-cases, inl, inr, ltb→lt, leb→le, ==_iff, &&-left, &&-right,
}
use native.Mathlib.Decide.{dec_lt}
use ncdc.DlFile.{Thread, has_free_block, add32, sub32}
use ncdc.DlFile.Segment.{split_at}

pub div_bounds : (m c : ℕ) → 0 < c → (m / c * c ≤ m) × (m < m / c * c + c)
div_bounds m c h = omega arith

mul_mono : (q p c : ℕ) → q ≤ p → q * c ≤ p * c
mul_mono q p c h = grind arith

-- One multiple of the block size below another is at least a block below it.
mul_step : (q p c : ℕ) → q * c < p * c → q * c + c ≤ p * c
mul_step q p c h = elim (dec_lt q p) [
  | yes l ↦ omega (arith, mul_mono (suc q) p c l)
  | no g ↦ absurd (omega (arith, mul_mono p q c (omega arith)))
]

-- The two ways in which a range has a free block, without the wrapping of the counters: more chunks
-- than a block are not allocated, or the range holds the start `last` of the file's last block, and
-- nothing of that is allocated.
abbrev FreeBlock : ℕ → ℕ → Thread → Type 0
FreeBlock n cpb t =
    (cpb < t.avail - t.allocated)
    ⊎ ((t.chunk + t.avail ≡ n) × (t.chunk + t.allocated ≤ (n - 1) / cpb * cpb))

last_block :
    (n cpb : ℕ) (t : Thread)
    → n < 2 ^ 31
    → t.allocated ≤ t.avail
    → t.chunk + t.avail ≤ n
    → (false
        || (add32 t.chunk t.avail == n && leb (add32 t.chunk t.allocated) ((n - 1) / cpb * cpb)))
      ≡ true
    → (t.chunk + t.avail ≡ n) × (t.chunk + t.allocated ≤ (n - 1) / cpb * cpb)
last_block n cpb t small alloc fits h =
    let first : add32 t.chunk t.avail ≡ n = (==_iff _ n).0 (&&-left _ _ h) in
    let second = leb→le (add32 t.chunk t.allocated) _ (&&-right (add32 t.chunk t.avail == n) _ h) in
    (omega (arith, first), omega (arith, second))

FreeBlock-cases :
    (n cpb : ℕ) (t : Thread)
    → 0 < n
    → n < 2 ^ 31
    → 0 < cpb
    → t.allocated ≤ t.avail
    → t.chunk + t.avail ≤ n
    → has_free_block n cpb t ≡ true
    → FreeBlock n cpb t
unfolding has_free_block
FreeBlock-cases n cpb t pos small some_block alloc fits h =
    let (low, _) = div_bounds (n - 1) cpb some_block in
    let same : sub32 n 1 ≡ n - 1 = omega arith in
    let no_wrap : (n - 1) / cpb * cpb % 2 ^ 32 ≡ (n - 1) / cpb * cpb = omega arith in
    let free : sub32 t.avail t.allocated ≡ t.avail - t.allocated = omega arith in
    elim (Bool-cases (ltb cpb (sub32 t.avail t.allocated))) [
      | inl e ↦ inl (omega (arith, ltb→lt cpb (sub32 t.avail t.allocated) e))
      | inr e ↦ inr (last_block n cpb t small alloc fits (rw (same, no_wrap, e) at h))
    ]

-- The chunk at which the range is split, without the wrapping of the counters.
abbrev cut_at : ℕ → ℕ → ℕ → ℕ
cut_at cpb start free =
    if ltb ((start + free / 2) / cpb * cpb) start
    then (start + free / 2) / cpb * cpb + cpb
    else (start + free / 2) / cpb * cpb

split_at-cut_at :
    (cpb : ℕ) (t : Thread)
    → 0 < cpb
    → cpb < 2 ^ 31
    → t.allocated ≤ t.avail
    → t.chunk + t.avail < 2 ^ 31
    → split_at cpb t ≡ cut_at cpb (t.chunk + t.allocated) (t.avail - t.allocated)
unfolding split_at
split_at-cut_at cpb t some_block small alloc fits =
    let start = t.chunk + t.allocated in
    let free = t.avail - t.allocated in
    let (low, _) = div_bounds (start + free / 2) cpb some_block in
    let e1 : add32 t.chunk t.allocated ≡ start = omega arith in
    let e2 : sub32 t.avail t.allocated ≡ free = omega arith in
    let e3 : add32 start (free / 2) ≡ start + free / 2 = omega arith in
    let e4 : (start + free / 2) / cpb * cpb % 2 ^ 32 ≡ (start + free / 2) / cpb * cpb =
      omega arith in
    let e5 : add32 ((start + free / 2) / cpb * cpb) cpb ≡ (start + free / 2) / cpb * cpb + cpb =
      omega arith in
    rw (e1, e2, e3, e4, e5)

-- A number above a multiple of the block size, cut down to a multiple, and the next one.
cut_at_inside :
    (n cpb start free : ℕ)
    → 0 < cpb
    → 0 < n
    → start + free ≤ n
    → (cpb < free) ⊎ ((start + free ≡ n) × (start ≤ (n - 1) / cpb * cpb))
    → (start ≤ cut_at cpb start free) × (cut_at cpb start free < start + free)
cut_at_inside n cpb start free some_block pos fits (inl wide) =
    let (low, high) = div_bounds (start + free / 2) cpb some_block in ground arith
cut_at_inside n cpb start free some_block pos fits (inr (end, last)) =
    let (low, high) = div_bounds (start + free / 2) cpb some_block in
    let (low', high') = div_bounds (n - 1) cpb some_block in
    ground (arith, mul_step ((start + free / 2) / cpb) ((n - 1) / cpb) cpb)

cut_at_aligned : (cpb start free : ℕ) → (q : ℕ) × (cut_at cpb start free ≡ q * cpb)
cut_at_aligned cpb start free = elim (Bool-cases (ltb ((start + free / 2) / cpb * cpb) start)) [
  | inl e ↦ (suc ((start + free / 2) / cpb), rw e (grind arith))
  | inr e ↦ ((start + free / 2) / cpb, rw e)
]

-- A busy thread with a free block is split at the start of a block, behind its allocated chunks and
-- before its end, for files below 2 ^ 31 chunks.
pub split_at_lem :
    (n cpb : ℕ) (t : Thread)
    → n < 2 ^ 31
    → 0 < cpb
    → cpb < 2 ^ 31
    → 0 < t.avail
    → t.allocated ≤ t.avail
    → t.chunk + t.avail ≤ n
    → has_free_block n cpb t ≡ true
    → (t.chunk + t.allocated ≤ split_at cpb t)
      × (split_at cpb t < t.chunk + t.avail)
      × ((q : ℕ) × (split_at cpb t ≡ q * cpb))
split_at_lem n cpb t small some_block small_block pos alloc fits h =
    let free = t.avail - t.allocated in
    let start = t.chunk + t.allocated in
    let cases = FreeBlock-cases n cpb t (omega arith) small some_block alloc fits h in
    let end : start + free ≡ t.chunk + t.avail = omega arith in
    let (low, high) =
      cut_at_inside n cpb start free some_block (omega arith) (omega arith) (rw end cases) in
    rw (split_at-cut_at cpb t some_block small_block alloc (omega arith))
      (low, omega (arith, high), cut_at_aligned cpb start free)
