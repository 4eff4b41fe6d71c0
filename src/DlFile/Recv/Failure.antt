-- ===== src/DlFile/Recv/Failure.antt =====
-- src/dlfile.c: what `dlfile_recv_check` leaves when the hash of a block does not match.
use ncdc.Prelude.{
  ℕ, zero, suc, Bytes, Bool, true, false, ltb, leb, ◌&&◌, if◌then◌else◌, same_text, length, set,
  Bool-cases, inl, inr, ◌+◌, ◌-◌, ◌*◌, ◌/◌, ◌%◌, ◌^◌, ◌<◌, ◌≤◌, ◌≡◌, refl, arith,
}
use ncdc.Bitmap.{bita_get, bita_set}
use ncdc.Bitmap.Laws.{IsBytes, bita_set-IsBytes, length-bita_set, bita_get-bita_set}
use ncdc.DlFile.{Thread, Dl, chunk_size, dlfile_chunks, sub32, add32}
use ncdc.DlFile.Cover.{inside, count, IsBitmap, IsSized}
use ncdc.DlFile.Segment.Pick.{At, At-set}
use ncdc.DlFile.Segment.Sound.{inside-le-count}
use ncdc.DlFile.Segment.Split.{div_bounds}
use ncdc.DlFile.Recv.{set_range, fail_block, recv_check}

-- The marks from `j` up to `j + k` are set, and no other mark changes.
set_range_lem :
    (bitmap : Bytes) (j k i : ℕ)
    → IsBytes bitmap
    → j + k ≤ 8 * length bitmap
    → bita_get (set_range bitmap j k) i
      ≡ (if leb j i && ltb i (j + k) then 1 else bita_get bitmap i)
unfolding set_range
set_range_lem bitmap j zero i h room = ground arith
set_range_lem bitmap j (suc k) i h room =
    let rest =
      set_range_lem (bita_set bitmap j) (j + 1) k i (bita_set-IsBytes bitmap j h)
        (omega (arith, length-bita_set bitmap j h)) in
    ground (arith, rest, bita_get-bita_set bitmap j h (omega arith) i)

range_holds : (t : Thread) (j : ℕ) → t.chunk ≤ j → j < t.chunk + t.avail → inside t j ≡ 1
range_holds t j low high = ground arith

marked_in :
    (b j k i v : ℕ) → b ≡ (if leb j i && ltb i (j + k) then 1 else v) → j ≤ i → i < j + k → b ≡ 1
marked_in b j k i v e low high = ground arith

fail_block_lem :
    (dl : Dl) (i : ℕ) (t : Thread) (start j : ℕ)
    → At dl.threads i t
    → IsBitmap (dlfile_chunks dl.size) dl.bitmap
    → t.chunk + t.avail ≤ dlfile_chunks dl.size
    → dlfile_chunks dl.size < 2 ^ 31
    → start ≤ j
    → j < t.chunk
    → (bita_get (fail_block dl i t start).bitmap j ≡ 1)
      × (1 ≤ count (fail_block dl i t start).threads j)
unfolding fail_block
fail_block_lem dl i t start j a (bytes, room) fits small low high =
    let lost = sub32 t.chunk start in
    let again : Thread = record t {
      chunk = start;
      avail = add32 t.avail lost;
      allocated = add32 t.allocated lost;
      uerr = true;
    } in
    let n = dlfile_chunks dl.size in
    let same : lost ≡ t.chunk - start = omega arith in
    let here : inside again j ≡ 1 = range_holds again j low (omega arith) in
    (
      marked_in _ start lost j _ (set_range_lem dl.bitmap start lost j bytes (omega arith)) low
          (omega arith),
      omega (
        arith,
        inside-le-count (set dl.threads i again) i again j (At-set dl.threads i t again a),
        here,
      ),
    )

block_start :
    (cpb c j : ℕ)
    → 0 < cpb
    → 0 < c
    → c < 2 ^ 32
    → (c - 1) / cpb * cpb ≤ j
    → sub32 c 1 / cpb * cpb % 2 ^ 32 ≤ j
block_start cpb c j some_block pos small low =
    let same : sub32 c 1 ≡ c - 1 = omega arith in
    let (low', _) = div_bounds (c - 1) cpb some_block in
    let no_wrap : (c - 1) / cpb * cpb % 2 ^ 32 ≡ (c - 1) / cpb * cpb = omega arith in
    rw (same, no_wrap) low

not_both : (b : Bool) → b ≡ true → b ≡ false → ⊥
not_both b e e' = cc

module _ (tth : Bytes → Bytes) (root : Bytes) (db_check : ℕ → Bytes → Bool) (dl : Dl) (i : ℕ)
    (t : Thread) (leaf : Bytes) where
  -- When a block fails its check, each of its chunks that was downloaded stands in the range of a
  -- thread again, and yet stays marked in the bitmap as downloaded. So the chunks of a failed block
  -- are not covered as those of a sound download are. The thread stands behind a chunk that it has
  -- downloaded, its range ends within the file, and the sizes are those for which no counter wraps.
  pub recv_check-fails :
      (recv_check tth root db_check dl i t leaf).0 ≡ false
      → At dl.threads i t
      → IsBitmap (dlfile_chunks dl.size) dl.bitmap
      → IsSized dl
      → 0 < t.chunk
      → t.chunk + t.avail ≤ dlfile_chunks dl.size
      → (j : ℕ) → (t.chunk - 1) / (dl.hash_block / chunk_size) * (dl.hash_block / chunk_size) ≤ j
      → j < t.chunk
      → let out = (recv_check tth root db_check dl i t leaf).1 in
        (bita_get out.bitmap j ≡ 1) × (1 ≤ count out.threads j)
  unfolding recv_check
  recv_check-fails no_match a b s pos fits j low high =
      elim (Bool-cases (
        if ltb dl.size dl.hash_block
        then same_text leaf root
        else db_check (sub32 t.chunk 1 / (dl.hash_block / chunk_size)) leaf)) [
          | inl match ↦ absurd (not_both true refl (rw match at no_match))
          | inr differ ↦
              let first =
                sub32 t.chunk 1
                / (dl.hash_block / chunk_size)
                * (dl.hash_block / chunk_size)
                % 2 ^ 32 in
              let low' =
                block_start (dl.hash_block / chunk_size) t.chunk j
                  (omega (arith, s.block, s.block_max)) pos (omega (arith, s.file)) low in
              rw differ (fail_block_lem dl i t first j a b fits (omega (arith, s.file)) low' high)
        ]
