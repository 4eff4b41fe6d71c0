-- ===== src/DlFile/Recv/Round.antt =====
-- src/dlfile.c: one round of the loop of `dlfile_recv` on a sound download.
use ncdc.Prelude.{
  ◌⊎◌, ℕ, [], Bytes, Bool, true, false, not, ltb, ◌==◌, ◌&&◌, ==_iff, length, Bool-cases, inl, inr,
  ◌+◌, ◌*◌, ◌^◌, ◌<◌, ◌≤◌, ◌≡◌, refl, arith,
}
use ncdc.DlFile.{Thread, Dl, chunk_size, add32, add64}
use ncdc.DlFile.Cover.{IsSized}
use ncdc.DlFile.Recv.{put_thread, take_part, next_chunk, mark, recv_check, chunk_end, recv_round}
use ncdc.DlFile.Recv.Ready.{IsReady, Took, IsReady-part, Took-next}

recv_check-passes :
    (tth : Bytes → Bytes) (root : Bytes) (db_check : ℕ → Bytes → Bool) (dl : Dl) (i : ℕ)
    (t : Thread) (leaf : Bytes)
    → (recv_check tth root db_check dl i t leaf).0 ≡ true
    → (recv_check tth root db_check dl i t leaf).1 ≡ put_thread dl i t
unfolding recv_check
recv_check-passes tth root db_check dl i t leaf h = ground arith

full_len : (a b : ℕ) → a ≤ b → not false && ltb a b ≡ false → a ≡ b
full_len a b le e = ground arith

-- The two ways to go on from a part, by the sizes.
pub part_short :
    (dl : Dl) (t : Thread) (part : Bytes)
    → t.len + length part ≤ chunk_size
    → let t' = take_part dl t part in
      not (add64 (t'.chunk * chunk_size) t'.len == dl.size) && ltb t'.len chunk_size ≡ true
      → t.len + length part < chunk_size
unfolding take_part
part_short dl t part fits e =
    let same : add32 t.len (length part) ≡ t.len + length part = omega arith in
    ground (arith, rw same at e)

pub part_full :
    (dl : Dl) (t : Thread) (part : Bytes)
    → t.len + length part ≤ chunk_size
    → t.chunk * chunk_size + t.len + length part < 2 ^ 64
    → let t' = take_part dl t part in
      not (add64 (t'.chunk * chunk_size) t'.len == dl.size) && ltb t'.len chunk_size ≡ false
      → (t.chunk * chunk_size + t.len + length part ≡ dl.size) ⊎ (t.len + length part ≡ chunk_size)
unfolding take_part
part_full dl t part fits small e =
    let same : add32 t.len (length part) ≡ t.len + length part = omega arith in
    let same' : add64 (t.chunk * chunk_size) (t.len + length part)
        ≡ t.chunk * chunk_size + t.len + length part =
      omega arith in
    elim (Bool-cases (t.chunk * chunk_size + t.len + length part == dl.size)) [
      | inl last ↦ inl ((==_iff _ _).0 last)
      | inr more ↦ inr (full_len _ _ fits (rw (same, same', more) at e))
    ]

module _ (tth : Bytes → Bytes) (root : Bytes) (db_check : ℕ → Bytes → Bool) where
  -- What the end of a chunk changes, when it goes on.
  chunk_end_lem :
      (dl : Dl) (i : ℕ) (t : Thread) (islast : Bool)
      → (chunk_end tth root db_check dl i t islast).0 ≡ true
      → let out = chunk_end tth root db_check dl i t islast in
        (out.1 ≡ put_thread dl i out.2) × (out.2 ≡ record t { hashed = out.2.hashed })
  unfolding chunk_end
  chunk_end_lem dl i t islast h =
      let passes =
        recv_check-passes tth root db_check dl i (record t { hashed = [] }) (tth t.hashed) in
      ground (arith, passes)

  pub recv_round-short :
      (dl : Dl) (i : ℕ) (t : Thread) (part : Bytes)
      → let t' = take_part dl t part in
        not (add64 (t'.chunk * chunk_size) t'.len == dl.size) && ltb t'.len chunk_size ≡ true
        → recv_round tth root db_check dl i t part
          ≡ (true, put_thread (record dl { have = add64 dl.have (length part) }) i t', t')
  unfolding recv_round
  recv_round-short dl i t part e = rw e

  pub recv_round-full :
      (dl : Dl) (i : ℕ) (t : Thread) (part : Bytes)
      → let t' = take_part dl t part in
        let islast = add64 (t'.chunk * chunk_size) t'.len == dl.size in
        not islast && ltb t'.len chunk_size ≡ false
        → recv_round tth root db_check dl i t part
          ≡ chunk_end tth root db_check
              (mark (record dl { have = add64 dl.have (length part) }) t'.chunk)
              i
              (next_chunk t')
              islast
  unfolding recv_round
  recv_round-full dl i t part e = rw e

  round_short :
      (dl : Dl) (i : ℕ) (t : Thread) (n : ℕ) (part : Bytes)
      → IsReady dl i t n
      → 0 < length part
      → length part ≤ n
      → t.len + length part < chunk_size
      → let t' = take_part dl t part in
        Took dl i n
          (length part)
          (put_thread (record dl { have = add64 dl.have (length part) }) i t')
          t'
  unfolding take_part
  round_short dl i t n part r pos le short =
      let same : add32 t.len (length part) ≡ t.len + length part = omega arith in
      (
        IsReady-part dl _ i t (take_part dl t part) n (length part) r pos le short refl
            (rw same refl),
        refl,
        refl,
        refl,
      )

  round_full :
      (dl : Dl) (i : ℕ) (t : Thread) (n : ℕ) (part : Bytes) (islast : Bool)
      → IsReady dl i t n
      → IsSized dl
      → 0 < length part
      → length part ≤ n
      → (t.chunk * chunk_size + t.len + length part ≡ dl.size) ⊎ (t.len + length part ≡ chunk_size)
      → let t' = take_part dl t part in
        let out =
          chunk_end tth root db_check
            (mark (record dl { have = add64 dl.have (length part) }) t'.chunk)
            i
            (next_chunk t')
            islast in
        out.0 ≡ true → Took dl i n (length part) out.1 out.2
  unfolding take_part next_chunk mark
  round_full dl i t n part islast r s pos le end h =
      let dl1 : Dl = record dl { have = add64 dl.have (length part) } in
      let (e, e') =
        chunk_end_lem (mark dl1 t.chunk) i (next_chunk (take_part dl t part)) islast h in
      Took-next dl (mark dl1 t.chunk) _ i t _ n (length part) r s pos le end (rw r.file refl) e e'

  -- A round that goes on takes up its part of the data, and leaves the thread ready for the rest.
  pub recv_round_lem :
      (dl : Dl) (i : ℕ) (t : Thread) (n : ℕ) (part : Bytes)
      → IsReady dl i t n
      → IsSized dl
      → 0 < length part
      → length part ≤ n
      → t.len + length part ≤ chunk_size
      → (recv_round tth root db_check dl i t part).0 ≡ true
      → let out = recv_round tth root db_check dl i t part in Took dl i n (length part) out.1 out.2
  recv_round_lem dl i t n part r s pos le fits h =
      let t' = take_part dl t part in
      let islast = add64 (t'.chunk * chunk_size) t'.len == dl.size in
      elim (Bool-cases (not islast && ltb t'.len chunk_size)) [
        | inl e ↦
            rw (recv_round-short dl i t part e)
              (round_short dl i t n part r pos le (part_short dl t part fits e))
        | inr e ↦ rw (recv_round-full dl i t part e) (
            round_full dl i t n part islast r s pos le
              (part_full dl t part fits (omega (arith, s.file, r.in_file (omega arith))) e)
              (rw (recv_round-full dl i t part e) at h))
      ]
