-- ===== src/Tiger/Update.antt =====
-- src/tth.c: `tiger_update` keeps the hash of the full blocks, and the bytes behind them in the buffer.
use ncdc.Prelude.{
  ℕ, zero, suc, ◌++◌, Bytes, Bool, Bool-cases, inl, inr, true, false, ltb, ltb→lt, ltb-false→le,
  ◌==◌, if◌then◌else◌, ==_iff, take, drop, length, length-append, length-take, length-drop, ◌≡◌,
  refl, sym, ap, ap₂, ◌∙◌, ◌+◌, ◌-◌, ◌%◌, ◌^◌, ◌<◌, ◌≤◌, arith,
}
use ncdc.Tiger.{Words, TigerCtx, process, tiger_init, write, full_blocks, update_rest, tiger_update}
use ncdc.Tiger.Buffer.{take-write, write_full, length-write, take_behind, drop_behind}
use ncdc.Tiger.Stream.{
  absorb, at_true, at_false, absorb-short, absorb-long, absorb-lt, absorb-append, absorb_fuel,
}

-- The context has taken up the data `d`.
pub record Holds (ctx : TigerCtx) (d : Bytes) : Type 0 where
  pub number : ctx.length ≡ length d
  pub room : length ctx.message ≡ 64
  pub state : absorb (length d) tiger_init.hash d ≡ (ctx.hash, take (length d % 64) ctx.message)

full_blocks-short :
    (aligned : Bool) (n : ℕ) (h : Words) (m msg : Bytes)
    → ltb (length msg) 64 ≡ true
    → full_blocks aligned (suc n) h m msg ≡ (h, m, msg)
unfolding full_blocks
full_blocks-short aligned n h m msg e = at_true (ltb (length msg) 64) _ _ e

full_blocks-long :
    (aligned : Bool) (n : ℕ) (h : Words) (m msg : Bytes)
    → ltb (length msg) 64 ≡ false
    → full_blocks aligned (suc n) h m msg
      ≡ full_blocks aligned n
          (process h (take 64 msg))
          (if aligned then m else take 64 msg)
          (drop 64 msg)
unfolding full_blocks
full_blocks-long aligned n h m msg e = at_false (ltb (length msg) 64) _ _ e

buffer_room :
    (aligned : Bool) (m msg : Bytes)
    → length m ≡ 64
    → 64 ≤ length msg
    → length (if aligned then m else take 64 msg) ≡ 64
buffer_room true m msg room long = room
buffer_room false m msg room long = omega (arith, length-take 64 msg)

full_blocks-absorb :
    (aligned : Bool) (n : ℕ) (h : Words) (m msg : Bytes)
    → length m ≡ 64
    → let (h', m', left) = full_blocks aligned n h m msg in
      (◌≡◌ {A = Words × Bytes} (h', left) (absorb n h msg)) × (length m' ≡ 64)
unfolding full_blocks absorb
full_blocks-absorb aligned zero h m msg room = (refl, room)
full_blocks-absorb aligned (suc n) h m msg room = elim (Bool-cases (ltb (length msg) 64)) [
  | inl short ↦
      rw
        (
          full_blocks-short aligned n h m msg short,
          absorb-short (suc n) h msg (ltb→lt (length msg) 64 short),
        )
        (refl, room)
  | inr long ↦
      let ge = ltb-false→le (length msg) 64 long in
      rw (full_blocks-long aligned n h m msg long, absorb-long n h msg ge)
        (full_blocks-absorb aligned n (process h (take 64 msg)) (if aligned then m else take 64 msg)
          (drop 64 msg) (buffer_room aligned m msg room ge))
]

-- A piece of data for a context whose buffer is empty.
update_rest-state :
    (aligned : Bool) (ctx : TigerCtx) (msg : Bytes)
    → length ctx.message ≡ 64
    → let out = update_rest aligned ctx msg in
      (out.length ≡ ctx.length)
      × (length out.message ≡ 64)
      × (absorb (length msg) ctx.hash msg ≡ (out.hash, take (length msg % 64) out.message))
unfolding update_rest
update_rest-state aligned ctx msg room =
    let (h', m', left) = full_blocks aligned (length msg) ctx.hash ctx.message msg in
    let (e, room') = full_blocks-absorb aligned (length msg) ctx.hash ctx.message msg room in
    let few : length left ≡ length msg % 64 =
      ap (λ (p : Words × Bytes). length p.1) e
      ∙ absorb-lt (length msg) ctx.hash msg (omega arith) in
    (
      refl,
      length-write m' 0 left (omega arith) ∙ room',
      sym e
          ∙ ap (λ r. (h', r))
              (sym (take-write m' 0 (length msg % 64) left (omega arith) (omega arith))),
    )

-- What the context holds with a piece of data behind it.
absorb-piece :
    (ctx : TigerCtx) (d msg : Bytes)
    → Holds ctx d
    → absorb (length (d ++ msg)) tiger_init.hash (d ++ msg)
      ≡ absorb (length (d ++ msg)) ctx.hash (take (length d % 64) ctx.message ++ msg)
absorb-piece ctx d msg h =
    absorb-append (length d) (length (d ++ msg)) tiger_init.hash d msg (omega arith) (omega arith)
    ∙ ap (λ (p : Words × Bytes). absorb (length (d ++ msg)) p.0 (p.1 ++ msg)) h.state

module _ (aligned : Bool) (ctx : TigerCtx) (d msg : Bytes) (h : Holds ctx d)
    (bound : length d + length msg < 2 ^ 64) where
  after : TigerCtx
  after = record ctx { length = (ctx.length + length msg) % 2 ^ 64 }

  after-length : after.length ≡ length (d ++ msg)
  unfolding after
  after-length = omega (arith, h.number, length-append d msg)

  kept : length (take (length d % 64) ctx.message) ≡ length d % 64
  kept = omega (arith, h.room, length-take (length d % 64) ctx.message)

  from_empty : length d % 64 ≡ 0 → Holds (update_rest aligned after msg) (d ++ msg)
  unfolding after
  from_empty none =
      let (len, room, state) = update_rest-state aligned after msg h.room in
      let rest : length (d ++ msg) % 64 ≡ length msg % 64 = omega (arith, length-append d msg) in
      record {
        number = len ∙ after-length;
        room = room;
        state =
            absorb-piece ctx d msg h
            ∙ ap (λ k. absorb (length (d ++ msg)) ctx.hash (take k ctx.message ++ msg)) none
            ∙ absorb_fuel (length (d ++ msg)) (length msg) ctx.hash msg
                (omega (arith, length-append d msg)) (omega arith)
            ∙ state
            ∙ ap
                (λ k. (
                  (update_rest aligned after msg).hash,
                  take k (update_rest aligned after msg).message,
                ))
                (sym rest);
      }

  still_partial :
      length d % 64 + length msg < 64
      → Holds (record after { message = write ctx.message (length d % 64) msg }) (d ++ msg)
  unfolding after
  still_partial few = record {
    number = after-length;
    room = length-write ctx.message (length d % 64) msg (omega (arith, h.room)) ∙ h.room;
    state =
        absorb-piece ctx d msg h
        ∙ absorb-short (length (d ++ msg)) ctx.hash (take (length d % 64) ctx.message ++ msg)
            (omega (arith, kept, length-append (take (length d % 64) ctx.message) msg))
        ∙ ap (λ r. (ctx.hash, r))
            (sym (
              take-write ctx.message (length d % 64) (length (d ++ msg) % 64) msg
                (omega (arith, h.room)) (omega (arith, length-append d msg))));
  }

  fills_block :
      64 ≤ length d % 64 + length msg
      → let left = 64 - length d % 64 in
        let filled = write ctx.message (length d % 64) (take left msg) in
        Holds
          (update_rest aligned
            (record after { hash = process ctx.hash filled; message = filled })
            (drop left msg))
          (d ++ msg)
  unfolding after
  fills_block many =
      let idx = length d % 64 in
      let left = 64 - idx in
      let r = take idx ctx.message in
      let filled = write ctx.message idx (take left msg) in
      let next : TigerCtx = record after { hash = process ctx.hash filled; message = filled } in
      let full : length (take left msg) ≡ left = omega (arith, length-take left msg) in
      let same : filled ≡ take 64 (r ++ msg) =
        write_full ctx.message idx (take left msg) (omega (arith, h.room))
        ∙ sym (take_behind r msg left 64 (omega (arith, kept))) in
      let (len, room, state) =
        update_rest-state aligned next (drop left msg)
          (length-write ctx.message idx (take left msg) (omega (arith, h.room)) ∙ h.room) in
      let rest : length (d ++ msg) % 64 ≡ length (drop left msg) % 64 =
        omega (arith, length-append d msg, length-drop left msg) in
      let all = length (d ++ msg) in
      let long : 64 ≤ length (r ++ msg) = omega (arith, kept, length-append r msg) in
      record {
        number = len ∙ after-length;
        room = room;
        state =
            absorb-piece ctx d msg h
            ∙ absorb_fuel all (suc (64 + length msg)) ctx.hash (r ++ msg)
                (omega (arith, kept, length-append r msg, length-append d msg))
                (omega (arith, kept, length-append r msg))
            ∙ absorb-long (64 + length msg) ctx.hash (r ++ msg) long
            ∙ ap₂ (λ b e. absorb (64 + length msg) (process ctx.hash b) e) (sym same)
                (drop_behind r msg left 64 (omega (arith, kept)))
            ∙ absorb_fuel (64 + length msg) (length (drop left msg)) next.hash (drop left msg)
                (omega (arith, length-drop left msg)) (omega arith)
            ∙ state
            ∙ ap
                (λ k. (
                  (update_rest aligned next (drop left msg)).hash,
                  take k (update_rest aligned next (drop left msg)).message,
                ))
                (sym rest);
      }

  by_index :
      (i : ℕ)
      → i ≡ length d % 64
      → let left = 64 - i in
        let filled = write ctx.message i (take left msg) in
        Holds
          (if i == 0
            then update_rest aligned after msg
            else if ltb (length msg) left
            then record after { message = write ctx.message i msg }
            else update_rest aligned
                (record after { hash = process ctx.hash filled; message = filled })
                (drop left msg))
          (d ++ msg)
  by_index i e = rw e (elim (Bool-cases (length d % 64 == 0)) [
    | inl none ↦ rw none (from_empty ((==_iff _ 0).0 none))
    | inr some_there ↦ elim (Bool-cases (ltb (length msg) (64 - length d % 64))) [
      | inl few ↦
          rw (some_there, few)
            (still_partial (omega (arith, ltb→lt (length msg) (64 - length d % 64) few)))
      | inr many ↦
          rw (some_there, many)
            (fills_block (omega (arith, ltb-false→le (length msg) (64 - length d % 64) many)))
    ]
  ])

  -- A context that has taken up the data `d` has taken up `d ++ msg` after `tiger_update` on `msg`.
  pub tiger_update-Holds : Holds (tiger_update aligned ctx msg) (d ++ msg)
  unfolding tiger_update after
  tiger_update-Holds = by_index (ctx.length % 64) (ap (λ n. n % 64) h.number)
