-- ===== src/DlFile/Recv/Accept.antt =====
-- src/dlfile.c: `dlfile_recv` succeeds when the data can be written and is that of the file.
use ncdc.Prelude.{
  ℕ, zero, suc, [], ◌∷◌, Bytes, Bool, true, length, take, drop, length-take, length-drop, ◌+◌, ◌-◌,
  min, ◌<◌, ◌≡◌, refl, sym, ap, ap₂, subst, ◌∙◌, arith,
}
use mathlib.Core.Path.{subst₂}
use ncdc.DlFile.{Thread, Dl, chunk_size, sub32}
use ncdc.DlFile.Cover.{IsSized}
use ncdc.DlFile.Recv.{recv_loop, recv_round, recv}
use ncdc.DlFile.Recv.Blocks.{slice, take-slice, drop-slice}
use ncdc.DlFile.Recv.Check.{IsHashed, IsStored}
use ncdc.DlFile.Recv.Part.{place, recv_round-accepts}
use ncdc.DlFile.Recv.Ready.{IsReady}
use ncdc.DlFile.Recv.Round.{recv_round_lem}
use ncdc.DlFile.Recv.Sound.{IsSized-same}

-- The data is what stands in the file from the place of the thread on.
abbrev pub IsNext : Bytes → Thread → Bytes → Type 0
IsNext file t buf = buf ≡ slice file (place t) (place t + length buf)

next_part :
    (file buf : Bytes) (p k : ℕ)
    → buf ≡ slice file p (p + length buf)
    → k < suc (length buf)
    → take k buf ≡ slice file p (p + k)
next_part file buf p k e h = ap (take k) e ∙ take-slice file p (p + length buf) k (omega arith)

next_rest :
    (file buf : Bytes) (p k q : ℕ)
    → buf ≡ slice file p (p + length buf)
    → k < suc (length buf)
    → q ≡ p + k
    → drop k buf ≡ slice file q (q + length (drop k buf))
next_rest file buf p k q e h there =
    let end : p + length buf ≡ q + length (drop k buf) = omega (arith, length-drop k buf) in
    ap (drop k) e
    ∙ drop-slice file p (p + length buf) k (omega arith)
    ∙ ap₂ (slice file) (sym there) end

module _ (tth : Bytes → Bytes) (root : Bytes) (db_check : ℕ → Bytes → Bool) (file : Bytes) where
  recv_loop-true :
      (fuel : ℕ) (dl : Dl) (i : ℕ) (t : Thread) (buf : Bytes)
      → IsReady dl i t (length buf)
      → IsSized dl
      → IsStored tth root db_check file dl.size dl.hash_block
      → (0 < length buf → IsHashed file dl.hash_block t × IsNext file t buf)
      → (recv_loop tth root db_check fuel dl i t buf).0 ≡ true
  unfolding recv_loop
  recv_loop-true zero dl i t buf r s v h = refl
  recv_loop-true (suc fuel) dl i t [] r s v h = refl
  recv_loop-true (suc fuel) dl i t (b ∷ bs) r s v h =
      let buf = b ∷ bs in
      let inchunk = min (length buf) (sub32 chunk_size t.len) in
      let part = take inchunk buf in
      let round = recv_round tth root db_check dl i t part in
      let some_left : sub32 chunk_size t.len ≡ chunk_size - t.len = omega (arith, r.in_chunk) in
      let k : length part ≡ inchunk = omega (arith, length-take inchunk buf) in
      let left : length (drop inchunk buf) ≡ length buf - length part =
        omega (arith, length-drop inchunk buf) in
      let (held, next) = h (omega arith) in
      let (on, after) =
        recv_round-accepts tth root db_check file dl i t (length buf) part r s v held
          (omega (arith, r.in_chunk)) (omega arith) (omega (arith, r.in_chunk))
          (next_part file buf (place t) inchunk next (omega arith)
            ∙ ap (λ n. slice file (place t) (place t + n)) (sym k)) in
      let (r', size, block, have) =
        recv_round_lem tth root db_check dl i t (length buf) part r s (omega (arith, r.in_chunk))
          (omega arith) (omega (arith, r.in_chunk)) on in
      let rest =
        recv_loop-true fuel round.1 i round.2 (drop inchunk buf) (rw left r')
          (IsSized-same dl round.1 size block s)
          (subst₂ (λ a b. IsStored tth root db_check file a b) (sym size) (sym block) v)
          (λ more.
            let (held', at) = after (omega arith) in
            (
              subst (λ hb. IsHashed file hb round.2) (sym block) held',
              next_rest file buf (place t) inchunk (place round.2) next (omega arith)
                  (at ∙ ap (λ n. place t + n) k),
            )) in
      rw on rest

  -- Data that arrives for a busy thread of a sound download, within the file and the segment of the
  -- thread, is accepted when it is written and is what stands in the file at the place of the thread.
  -- The hash of the thread holds the data of its block up to there; the database accepts the hash
  -- of each block of the file, or the root is the hash of the file where that is smaller than a
  -- block; blocks are made of whole chunks, and the sizes are those for which no counter wraps.
  pub recv-true :
      (dl : Dl) (i : ℕ) (t : Thread) (buf : Bytes)
      → IsReady dl i t (length buf)
      → IsSized dl
      → IsStored tth root db_check file dl.size dl.hash_block
      → IsHashed file dl.hash_block t
      → IsNext file t buf
      → (recv tth root db_check dl i t buf true).0 ≡ true
  unfolding recv
  recv-true dl i t buf r s v held next =
      recv_loop-true (length buf) dl i t buf r s v (λ _. (held, next))
