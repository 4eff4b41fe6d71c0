-- ===== src/DlFile/Recv/Sound.antt =====
-- src/dlfile.c: `dlfile_recv` keeps a download sound.
use ncdc.Prelude.{
  ℕ, zero, suc, [], ◌∷◌, Bytes, Bool, true, false, Bool-cases, inl, inr, length, take, drop,
  length-take, length-drop, ◌-◌, ◌^◌, min, ◌<◌, ◌≤◌, ◌≡◌, arith,
}
use ncdc.DlFile.{Thread, Dl, chunk_size, add64, sub32}
use ncdc.DlFile.Cover.{IsSound, IsSized}
use ncdc.DlFile.Recv.{recv_loop, recv_round, recv}
use ncdc.DlFile.Recv.Ready.{IsReady}
use ncdc.DlFile.Recv.Round.{recv_round_lem}

pub IsSized-same :
    (dl dl' : Dl) → dl'.size ≡ dl.size → dl'.hash_block ≡ dl.hash_block → IsSized dl → IsSized dl'
IsSized-same dl dl' e e' s = record {
  file = omega (arith, s.file);
  block = omega (arith, s.block);
  block_max = omega (arith, s.block_max);
}

not_true : false ≡ true → ⊥
not_true e = cc

module _ (tth : Bytes → Bytes) (root : Bytes) (db_check : ℕ → Bytes → Bool) where
  recv_loop-IsSound :
      (fuel : ℕ) (dl : Dl) (i : ℕ) (t : Thread) (buf : Bytes)
      → length buf ≤ fuel
      → IsReady dl i t (length buf)
      → IsSized dl
      → dl.have < 2 ^ 64
      → (recv_loop tth root db_check fuel dl i t buf).0 ≡ true
      → let out = (recv_loop tth root db_check fuel dl i t buf).1 in
        IsSound out × (out.have ≡ add64 dl.have (length buf))
  unfolding recv_loop
  recv_loop-IsSound zero dl i t buf enough r s small h = (r.sound, omega arith)
  recv_loop-IsSound (suc fuel) dl i t [] enough r s small h = (r.sound, omega arith)
  recv_loop-IsSound (suc fuel) dl i t (b ∷ bs) enough r s small h =
      let buf = b ∷ bs in
      let inchunk = min (length buf) (sub32 chunk_size t.len) in
      let part = take inchunk buf in
      let round = recv_round tth root db_check dl i t part in
      let some_left : sub32 chunk_size t.len ≡ chunk_size - t.len = omega (arith, r.in_chunk) in
      let k : length part ≡ inchunk = omega (arith, length-take inchunk buf) in
      let left : length (drop inchunk buf) ≡ length buf - length part =
        omega (arith, length-drop inchunk buf) in
      elim (Bool-cases round.0) [
        | inl on ↦
            let (r', size, block, have) =
              recv_round_lem tth root db_check dl i t (length buf) part r s
                (omega (arith, r.in_chunk)) (omega arith) (omega (arith, r.in_chunk)) on in
            let (v, e) =
              recv_loop-IsSound fuel round.1 i round.2 (drop inchunk buf)
                (omega (arith, r.in_chunk)) (rw left r') (IsSized-same dl round.1 size block s)
                (rw have (omega arith)) (rw on at h) in
            rw on (v, rw (e, have) (omega arith))
        | inr stop ↦ absurd (not_true (rw stop at h))
      ]

  -- Data that arrives for a busy thread of a sound download of a file, within the file and the
  -- segment of the thread, leaves the download sound when `dlfile_recv` succeeds, and is counted in
  -- `have` in full. The sizes are those for which no counter of chunks wraps.
  pub recv-IsSound :
      (dl : Dl) (i : ℕ) (t : Thread) (buf : Bytes) (written : Bool)
      → IsReady dl i t (length buf)
      → IsSized dl
      → dl.have < 2 ^ 64
      → (recv tth root db_check dl i t buf written).0 ≡ true
      → let out = (recv tth root db_check dl i t buf written).1 in
        IsSound out × (out.have ≡ add64 dl.have (length buf))
  unfolding recv
  recv-IsSound dl i t buf true r s small h =
      recv_loop-IsSound (length buf) dl i t buf (omega arith) r s small h
  recv-IsSound dl i t buf false r s small h = absurd (not_true h)
