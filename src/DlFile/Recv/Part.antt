-- ===== src/DlFile/Recv/Part.antt =====
-- src/dlfile.c: a round of the loop of `dlfile_recv`, at the data of the file.
use ncdc.Prelude.{
  ℕ, ◌++◌, Bytes, Bool, true, false, not, Bool-cases, inl, inr, length, ltb, ◌==◌, ==_iff, ◌&&◌,
  ◌⊎◌, ◌+◌, ◌-◌, ◌*◌, ◌/◌, ◌^◌, ◌<◌, ◌≤◌, ◌≡◌, refl, sym, ap, ap₂, subst, ◌∙◌, arith,
}
use mathlib.Core.Path.{subst₂}
use ncdc.DlFile.{Thread, Dl, chunk_size, add32, add64}
use ncdc.DlFile.Cover.{IsSized}
use ncdc.DlFile.Recv.{mark, take_part, next_chunk, chunk_end, recv_round}
use ncdc.DlFile.Recv.Blocks.{slice, slice-append}
use ncdc.DlFile.Recv.Check.{
  IsHashed, IsStored, block_begun, chunk_end-true, chunk_end-IsHashed, chunk_end-place,
}
use ncdc.DlFile.Recv.Ready.{IsReady}
use ncdc.DlFile.Recv.Round.{part_full, recv_round-short, recv_round-full}
use ncdc.DlFile.Recv.Sound.{IsSized-same}

-- How many bytes of the file are in front of a thread.
abbrev pub place : Thread → ℕ
place t = t.chunk * chunk_size + t.len

-- Marking a chunk leaves the sizes as they are.
mark-same :
    (dl : Dl) (c : ℕ)
    → ((mark dl c).size ≡ dl.size)
      × ((mark dl c).hash_block ≡ dl.hash_block)
      × ((mark dl c).islist ≡ dl.islist)
unfolding mark
mark-same dl c = ground arith

-- The hash is given the part of the data that is next.
part-hashed :
    (dl : Dl) (t : Thread) (part file : Bytes)
    → dl.islist ≡ false
    → IsHashed file dl.hash_block t
    → t.chunk / (dl.hash_block / chunk_size) * dl.hash_block ≤ t.chunk * chunk_size + t.len
    → part ≡ slice file (t.chunk * chunk_size + t.len) (t.chunk * chunk_size + t.len + length part)
    → (take_part dl t part).hashed
      ≡ slice file
          (t.chunk / (dl.hash_block / chunk_size) * dl.hash_block)
          (t.chunk * chunk_size + t.len + length part)
unfolding take_part
part-hashed dl t part file is_file held begun e = rw is_file (
    ap₂ (λ a b. a ++ b) held e
    ∙ slice-append file _ (t.chunk * chunk_size + t.len) _ begun (omega arith))

-- The sum that is compared with the size does not wrap.
whole_sum :
    (c len k size : ℕ)
    → c * chunk_size + len + k ≤ size
    → size ≤ 2 ^ 47
    → len + k ≤ chunk_size
    → add64 (c * chunk_size) (add32 len k) ≡ c * chunk_size + len + k
whole_sum c len k size h small fits = omega arith

module _ (tth : Bytes → Bytes) (root : Bytes) (db_check : ℕ → Bytes → Bool) (file : Bytes) where
  -- The end of a chunk, with the marked download `dl` and the thread `t` behind it.
  chunk_end-accepts :
      (dl : Dl) (i : ℕ) (t : Thread) (islast : Bool) (c pos : ℕ)
      → IsStored tth root db_check file dl.size dl.hash_block
      → IsSized dl
      → dl.islist ≡ false
      → t.chunk ≡ add32 c 1
      → t.len ≡ 0
      → c * chunk_size < pos
      → pos ≤ dl.size
      → pos ≤ (c + 1) * chunk_size
      → (pos == dl.size) ≡ islast
      → (pos ≡ dl.size) ⊎ (pos ≡ (c + 1) * chunk_size)
      → t.hashed ≡ slice file (c / (dl.hash_block / chunk_size) * dl.hash_block) pos
      → let out = chunk_end tth root db_check dl i t islast in
        (out.0 ≡ true) × (pos < dl.size → IsHashed file dl.hash_block out.2 × (place out.2 ≡ pos))
  chunk_end-accepts dl i t true c pos v s is_file next start inside low fits e end held =
      let last = (==_iff pos dl.size).0 e in
      let next' : t.chunk ≡ c + 1 = omega (arith, s.file) in
      (
        chunk_end-true tth root db_check file dl i t true c pos v (omega (arith, s.block)) next'
            (omega (arith, s.file)) (omega arith) fits (λ _. last) (λ no. cc) held,
        λ more. absurd (omega (arith, last)),
      )
  chunk_end-accepts dl i t false c pos v s is_file next start inside low fits e end held =
      let next' : t.chunk ≡ c + 1 = omega (arith, s.file) in
      let full : pos ≡ (c + 1) * chunk_size = ground arith in
      (
        chunk_end-true tth root db_check file dl i t false c pos v (omega (arith, s.block)) next'
            (omega (arith, s.file)) (omega arith) fits (λ no. cc) (λ _. full) held,
        λ more. (
          chunk_end-IsHashed tth root db_check file dl i t c is_file v.chunks
              (omega (arith, s.block)) next' start
              (held ∙ ap (slice file (c / (dl.hash_block / chunk_size) * dl.hash_block)) full),
          omega (arith, chunk_end-place tth root db_check file dl i t false),
        ),
      )

  module _ (dl : Dl) (i : ℕ) (t : Thread) (n : ℕ) (part : Bytes) (r : IsReady dl i t n)
      (s : IsSized dl) (v : IsStored tth root db_check file dl.size dl.hash_block)
      (held : IsHashed file dl.hash_block t) (pos : 0 < length part) (le : length part ≤ n)
      (fits : t.len + length part ≤ chunk_size)
      (e : part
        ≡ slice file
            (t.chunk * chunk_size + t.len)
            (t.chunk * chunk_size + t.len + length part)) where
    grown :
        (take_part dl t part).hashed
        ≡ slice file
            (t.chunk / (dl.hash_block / chunk_size) * dl.hash_block)
            (t.chunk * chunk_size + t.len + length part)
    grown =
        part-hashed dl t part file r.file held
          (omega (arith, block_begun dl.hash_block t.chunk v.chunks (omega (arith, s.block)))) e

    round_short-accepts :
        IsHashed file dl.hash_block (take_part dl t part)
        × (place (take_part dl t part) ≡ place t + length part)
    unfolding take_part
    round_short-accepts =
        let same : t.chunk * chunk_size + t.len + length part
            ≡ t.chunk * chunk_size + add32 t.len (length part) =
          omega arith in
        (
          grown ∙ ap (slice file (t.chunk / (dl.hash_block / chunk_size) * dl.hash_block)) same,
          sym same,
        )

    round_full-accepts :
        (t.chunk * chunk_size + t.len + length part ≡ dl.size) ⊎ (t.len + length part ≡ chunk_size)
        → let t' = take_part dl t part in
          let out =
            chunk_end tth root db_check
              (mark (record dl { have = add64 dl.have (length part) }) t'.chunk)
              i
              (next_chunk t')
              (add64 (t'.chunk * chunk_size) t'.len == dl.size) in
          (out.0 ≡ true)
          × (0 < n - length part
              → IsHashed file dl.hash_block out.2 × (place out.2 ≡ place t + length part))
    unfolding take_part next_chunk
    round_full-accepts end =
        let c = t.chunk in
        let p = c * chunk_size + t.len + length part in
        let low : p ≤ dl.size = omega (arith, r.in_file (omega arith)) in
        let dl1 : Dl = record dl { have = add64 dl.have (length part) } in
        let m = mark dl1 c in
        let (es, eb, el) = mark-same dl1 c in
        let sum = whole_sum c t.len (length part) dl.size low s.file fits in
        let t2 = next_chunk (take_part dl t part) in
        let islast = add64 (c * chunk_size) (add32 t.len (length part)) == dl.size in
        let (ok, next) =
          chunk_end-accepts m i t2 islast c p
            (subst₂ (λ a b. IsStored tth root db_check file a b) (sym es) (sym eb) v)
            (IsSized-same dl m es eb s) (el ∙ r.file) refl refl (omega arith) (omega (arith, es))
            (omega arith) (ap₂ (λ a b. a == b) (sym sum) es)
            (elim end [ inl last ↦ inl (last ∙ sym es) | inr full ↦ inr (omega (arith, full)) ])
            (subst (λ hb. (take_part dl t part).hashed ≡ slice file (c / (hb / chunk_size) * hb) p)
              (sym eb) grown) in
        (
          ok,
          λ more.
              let (h, at) = next (omega (arith, es, r.in_file (omega arith))) in
              (
                subst (λ hb. IsHashed file hb (chunk_end tth root db_check m i t2 islast).2) eb h,
                at,
              ),
        )

    -- A round goes on, and the hash holds what it is to hold.
    pub recv_round-accepts :
        let out = recv_round tth root db_check dl i t part in
        (out.0 ≡ true)
        × (0 < n - length part
            → IsHashed file dl.hash_block out.2 × (place out.2 ≡ place t + length part))
    recv_round-accepts =
        let t' = take_part dl t part in
        let islast = add64 (t'.chunk * chunk_size) t'.len == dl.size in
        elim (Bool-cases (not islast && ltb t'.len chunk_size)) [
          | inl short ↦
              rw (recv_round-short tth root db_check dl i t part short)
                (refl, λ more. round_short-accepts)
          | inr full ↦ rw (recv_round-full tth root db_check dl i t part full) (
              round_full-accepts
                (part_full dl t part fits (omega (arith, s.file, r.in_file (omega arith))) full))
        ]
