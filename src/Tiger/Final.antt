-- ===== src/Tiger/Final.antt =====
-- src/tth.c: `tiger_final` pads the data and gives the hash, however the data was passed on.
use ncdc.Prelude.{
  ℕ, zero, suc, [], ◌∷◌, ◌++◌, Bytes, Bool-cases, inl, inr, ltb, ltb→lt, ltb-false→le,
  if◌then◌else◌, replicate, take, drop, length, length-append, length-take, length-replicate,
  append_assoc, append-nil, ◌≡◌, refl, sym, ap, ap₂, ◌∙◌, ◌+◌, ◌-◌, ◌*◌, ◌/◌, ◌%◌, ◌^◌, ◌<◌, ◌≤◌,
  arith,
}
use ncdc.Tiger.{
  Words, TigerCtx, process, tiger_init, write, zeros_to, bytes_of, result, last_block, tiger_final,
}
use ncdc.Tiger.Stream.{absorb, absorb-short, absorb-long, absorb-append, absorb_fuel}
use ncdc.Tiger.Buffer.{take-write, write_full, length-write, take_prefix}
use ncdc.Tiger.Update.{Holds}

abbrev pub zeros : ℕ → Bytes
zeros n = replicate n 0

length-zeros : (n : ℕ) → length (zeros n) ≡ n
length-zeros n = length-replicate n 0

-- The data with a byte 1, zeros up to the last eight bytes of a block, and the length in bits.
abbrev pub zero_count : ℕ → ℕ
zero_count n = (119 - n % 64) % 64

unfoldable pub padded : Bytes → Bytes
padded d = d ++ (1 ∷ (zeros (zero_count (length d)) ++ bytes_of 8 (length d * 8 % 2 ^ 64)))

-- The hash of data that is there at once.
unfoldable pub tiger : Bytes → Bytes
unfolding padded absorb
tiger d = let p = padded d in result (absorb (length p) tiger_init.hash p).0

length-bytes_of : (n x : ℕ) → length (bytes_of n x) ≡ n
unfolding bytes_of
length-bytes_of zero x = refl
length-bytes_of (suc n) x = ap suc (length-bytes_of n (x / 256))

take_here : (n : ℕ) (blk e : Bytes) → length blk ≡ n → take n (blk ++ e) ≡ blk
take_here n blk e h = ap (λ k. take k (blk ++ e)) (sym h) ∙ take_prefix blk e

drop_here : (n : ℕ) (blk e : Bytes) → length blk ≡ n → drop n (blk ++ e) ≡ e
drop_here zero [] e h = refl
drop_here zero (x ∷ blk) e h = absurd (omega arith)
drop_here (suc n) [] e h = absurd (omega arith)
drop_here (suc n) (x ∷ blk) e h = drop_here n blk e (omega arith)

absorb-block :
    (n : ℕ) (h : Words) (blk e : Bytes)
    → length blk ≡ 64
    → absorb (suc n) h (blk ++ e) ≡ absorb n (process h blk) e
absorb-block n h blk e len =
    absorb-long n h (blk ++ e) (omega (arith, length-append blk e))
    ∙ ap₂ (λ b r. absorb n (process h b) r) (take_here 64 blk e len) (drop_here 64 blk e len)

absorb-last :
    (n : ℕ) (h : Words) (blk : Bytes) → length blk ≡ 64 → absorb (suc n) h blk ≡ (process h blk, [])
absorb-last n h blk len =
    ap (λ b. absorb (suc n) h b) (sym (append-nil blk))
    ∙ absorb-block n h blk [] len
    ∙ absorb-short n (process h blk) [] (omega arith)

zeros-add : (a b c : ℕ) → c ≡ a + b → zeros c ≡ zeros a ++ zeros b
zeros-add zero b c e = let same : c ≡ b = omega arith in ap (λ n. zeros n) same
zeros-add (suc a) b zero e = absurd (omega arith)
zeros-add (suc a) b (suc c) e = ap (λ t. 0 ∷ t) (zeros-add a b c (omega arith))

regroup : (r a b e : Bytes) → r ++ (1 ∷ ((a ++ b) ++ e)) ≡ (r ++ (1 ∷ a)) ++ (b ++ e)
regroup r a b e =
    ap (λ t. r ++ (1 ∷ t)) (append_assoc a b e) ∙ sym (append_assoc r (1 ∷ a) (b ++ e))

-- The last eight bytes behind zeros.
last_bytes :
    (m e : Bytes) → length m ≡ 64 → length e ≡ 8 → write (zeros_to m 0 56) 56 e ≡ zeros 56 ++ e
last_bytes m e room len =
    let fits : 0 + length (zeros 56) ≤ length m = omega (arith, length-zeros 56) in
    write_full (zeros_to m 0 56) 56 e (omega (arith, length-write m 0 (zeros 56) fits))
    ∙ ap (λ t. t ++ e) (take-write m 0 56 (zeros 56) fits (omega (arith, length-zeros 56)))

module _ (ctx : TigerCtx) (d : Bytes) (h : Holds ctx d) where
  idx : ℕ
  idx = length d % 64

  r : Bytes
  unfolding idx
  r = take idx ctx.message

  le : Bytes
  le = bytes_of 8 (length d * 8 % 2 ^ 64)

  one : Bytes
  unfolding idx
  one = write ctx.message idx (1 ∷ [])

  one-room : length one ≡ 64
  unfolding one idx
  one-room = length-write ctx.message idx (1 ∷ []) (omega (arith, h.room)) ∙ h.room

  one-take : take (idx + 1) one ≡ r ++ 1 ∷ []
  unfolding one idx r
  one-take = take-write ctx.message idx (idx + 1) (1 ∷ []) (omega (arith, h.room)) (omega arith)

  -- The data up to its full blocks, and what the padding adds.
  start :
      absorb (length (padded d)) tiger_init.hash (padded d)
      ≡ absorb (length (padded d)) ctx.hash (r ++ (1 ∷ (zeros (zero_count (length d)) ++ le)))
  unfolding padded idx r le
  start =
      absorb-append (length d) (length (padded d)) tiger_init.hash d _ (omega arith) (omega arith)
      ∙ ap
          (λ (p : Words × Bytes).
            absorb (length (padded d)) p.0 (p.1 ++ (1 ∷ (zeros (zero_count (length d)) ++ le))))
          h.state

  -- The buffer filled with zeros from behind the byte 1 on.
  zeros-full : (zeros_to one (idx + 1) 64) ≡ r ++ (1 ∷ zeros (63 - idx))
  unfolding idx
  zeros-full =
      write_full one (idx + 1) (zeros (64 - (idx + 1)))
        (omega (arith, one-room, length-zeros (64 - (idx + 1))))
      ∙ ap₂ (λ t z. t ++ z) one-take (ap (λ n. zeros n) (omega arith))
      ∙ append_assoc r (1 ∷ []) (zeros (63 - idx))

  idx-lt : idx < 64
  unfolding idx
  idx-lt = omega arith

  length-r : length r ≡ idx
  unfolding idx r
  length-r = omega (arith, h.room, length-take (length d % 64) ctx.message)

  -- The room for the padding, when there is more than a block of it.
  zero_count-two : 55 < idx → zero_count (length d) ≡ 63 - idx + 56
  unfolding idx
  zero_count-two many = omega arith

  zero_count-one : idx ≤ 55 → zero_count (length d) ≡ 55 - idx
  unfolding idx
  zero_count-one few = omega arith

  length-le : length le ≡ 8
  unfolding le
  length-le = length-bytes_of 8 (length d * 8 % 2 ^ 64)

  length-end : length (zeros 56 ++ le) ≡ 64
  length-end = omega (arith, length-append (zeros 56) le, length-zeros 56, length-le)

  length-padded : length (padded d) ≡ length d + 9 + zero_count (length d)
  unfolding padded le
  length-padded = omega (
    arith,
    length-append d (1 ∷ (zeros (zero_count (length d)) ++ le)),
    length-append (zeros (zero_count (length d))) le,
    length-zeros (zero_count (length d)),
    length-le,
  )

  -- Two blocks: the byte 1 and zeros, then zeros and the length.
  two_blocks :
      55 < idx
      → last_block
          (process ctx.hash (zeros_to one (idx + 1) 64))
          (zeros_to (zeros_to one (idx + 1) 64) 0 56)
          (length d)
        ≡ tiger d
  unfolding tiger last_block le
  two_blocks many =
      let m = zeros_to one (idx + 1) 64 in
      let blk = r ++ (1 ∷ zeros (63 - idx)) in
      let end = zeros 56 ++ le in
      let blk-room : length blk ≡ 64 = omega (
        arith,
        idx-lt,
        length-r,
        length-append r (1 ∷ zeros (63 - idx)),
        length-zeros (63 - idx),
      ) in
      let whole : r ++ (1 ∷ (zeros (zero_count (length d)) ++ le)) ≡ blk ++ end =
        ap (λ z. r ++ (1 ∷ (z ++ le)))
          (zeros-add (63 - idx) 56 (zero_count (length d)) (zero_count-two many))
        ∙ regroup r (zeros (63 - idx)) (zeros 56) le in
      let last : write (zeros_to m 0 56) 56 le ≡ end =
        last_bytes m le (ap length zeros-full ∙ blk-room)
          (length-bytes_of 8 (length d * 8 % 2 ^ 64)) in
      ap (λ (q : Words × Bytes). result q.0)
        (sym (
          start
          ∙ ap (λ x. absorb (length (padded d)) ctx.hash x) whole
          ∙ absorb_fuel (length (padded d)) 130 ctx.hash (blk ++ end)
              (omega (
                arith,
                length-padded,
                blk-room,
                length-append blk end,
                length-end,
                zero_count-two many,
                idx-lt,
              ))
              (omega (arith, blk-room, length-append blk end, length-end))
          ∙ absorb-block 129 ctx.hash blk end blk-room
          ∙ absorb-last 128 (process ctx.hash blk) end length-end
          ∙ ap₂ (λ b e. (process (process ctx.hash b) e, [])) (sym zeros-full) (sym last)))

  last_one :
      idx ≤ 55
      → (e : Bytes) → length e ≡ 8
      → write (zeros_to one (idx + 1) 56) 56 e ≡ r ++ (1 ∷ (zeros (55 - idx) ++ e))
  last_one few e len =
      let z = zeros (56 - (idx + 1)) in
      let fits : idx + 1 + length z ≤ length one =
        omega (arith, one-room, length-zeros (56 - (idx + 1))) in
      write_full (zeros_to one (idx + 1) 56) 56 e
        (omega (arith, length-write one (idx + 1) z fits, one-room))
      ∙ ap (λ t. t ++ e)
          (take-write one (idx + 1) 56 z fits (omega (arith, length-zeros (56 - (idx + 1))))
            ∙ ap₂ (λ t n. t ++ zeros n) one-take (omega arith)
            ∙ append_assoc r (1 ∷ []) (zeros (55 - idx)))
      ∙ append_assoc r (1 ∷ zeros (55 - idx)) e

  -- One block: the byte 1, zeros and the length.
  one_block : idx ≤ 55 → last_block ctx.hash (zeros_to one (idx + 1) 56) (length d) ≡ tiger d
  unfolding tiger last_block le
  one_block few =
      let blk = r ++ (1 ∷ (zeros (55 - idx) ++ le)) in
      let blk-room : length blk ≡ 64 = omega (
        arith,
        length-r,
        length-append r (1 ∷ (zeros (55 - idx) ++ le)),
        length-append (zeros (55 - idx)) le,
        length-zeros (55 - idx),
        length-le,
      ) in
      ap (λ (q : Words × Bytes). result q.0)
        (sym (
          start
          ∙ ap (λ n. absorb (length (padded d)) ctx.hash (r ++ (1 ∷ (zeros n ++ le))))
              (zero_count-one few)
          ∙ absorb_fuel (length (padded d)) 65 ctx.hash blk
              (omega (arith, length-padded, blk-room, zero_count-one few)) (omega (arith, blk-room))
          ∙ absorb-last 64 ctx.hash blk blk-room
          ∙ ap (λ b. (process ctx.hash b, [])) (sym (last_one few le length-le))))

  by_room :
      (n i : ℕ)
      → n ≡ length d
      → i ≡ idx
      → let m = write ctx.message i (1 ∷ []) in
        (if ltb 56 (i + 1)
          then last_block
              (process ctx.hash (zeros_to m (i + 1) 64))
              (zeros_to (zeros_to m (i + 1) 64) 0 56)
              n
          else last_block ctx.hash (zeros_to m (i + 1) 56) n)
        ≡ tiger d
  by_room n i e e' =
      rw (e, e')
        (elim (Bool-cases (ltb 56 (idx + 1))) [
          | inl two ↦ rw two (unfold one in two_blocks (omega (arith, ltb→lt 56 (idx + 1) two)))
          | inr single ↦
              rw single (unfold one in one_block (omega (arith, ltb-false→le 56 (idx + 1) single)))
        ])

  -- The hash that `tiger_final` gives is that of all the data.
  pub tiger_final-Holds : tiger_final ctx ≡ tiger d
  unfolding tiger_final idx
  tiger_final-Holds = by_room ctx.length (ctx.length % 64) h.number (ap (λ n. n % 64) h.number)
