-- ===== src/DlFile/Recv.antt =====
-- src/dlfile.c: `dlfile_recv`, `dlfile_recv_check` and `dlfile_recv_done`, which take up received data.
-- Whether `pwrite` succeeds is an argument; so are the hash `tth` of a block's data, the root hash of
-- the file, and the answer `db_check` of the database for a block's number and hash. A change
-- through the pointer `t` is a change of the thread at its place in the list.
pub mod Ready
pub mod Round
pub mod Sound
pub mod Blocks
pub mod Check
pub mod Part
pub mod Accept
pub mod Failure
pub mod Done
mod Tests
use ncdc.Prelude.{
  ℕ, zero, suc, List, [], ◌∷◌, ◌++◌, Bytes, Bool, true, false, not, ltb, ◌==◌, ◌&&◌, ◌||◌,
  if◌then◌else◌, same_text, is_empty, ◌+◌, ◌-◌, ◌*◌, ◌/◌, ◌%◌, ◌^◌, min, max, set, take, drop,
  length,
}
use ncdc.Bitmap.{bita_set}
use ncdc.DlFile.{chunk_size, add32, sub32, add64, Thread, Dl}

abbrev pub put_thread : Dl → ℕ → Thread → Dl
put_thread dl i t = record dl { threads = set dl.threads i t }

-- `for(i=startchunk; i<startchunk+chunksinblock; i++) bita_set(t->dl->bitmap, i);`
pub set_range : Bytes → ℕ → ℕ → Bytes
set_range bitmap j zero = bitmap
set_range bitmap j (suc k) = set_range (bita_set bitmap j) (j + 1) k

-- A block failed its check, and is to be downloaded again. The first chunk of the block is `start`.
pub fail_block : Dl → ℕ → Thread → ℕ → Dl
unfolding set_range
fail_block dl i t start =
    let lost = sub32 t.chunk start in
    put_thread
      (record dl {
        have =
            (dl.have
              + 2 ^ 64
              - min dl.hash_block ((dl.size + 2 ^ 64 - start * chunk_size % 2 ^ 64) % 2 ^ 64))
            % 2 ^ 64;
        bitmap = set_range dl.bitmap start lost;
        saving = true;
      })
      i
      (record t {
        chunk = start;
        avail = add32 t.avail lost;
        allocated = add32 t.allocated lost;
        uerr = true;
      })

-- `t->len += inchunk`, and `tth_update` on the part.
pub take_part : Dl → Thread → Bytes → Thread
take_part dl t part = record t {
  len = add32 t.len (length part);
  hashed = if dl.islist then t.hashed else t.hashed ++ part;
}

-- `t->chunk++; t->allocated--; t->avail--; t->len = 0;`
pub next_chunk : Thread → Thread
next_chunk t = record t {
  chunk = add32 t.chunk 1;
  allocated = sub32 t.allocated 1;
  avail = sub32 t.avail 1;
  len = 0;
}

-- The bitmap of a file, not of a list, marks a complete chunk.
pub mark : Dl → ℕ → Dl
mark dl chunk =
    if dl.islist then dl else record dl { bitmap = bita_set dl.bitmap chunk; saving = true }

module _ (tth : Bytes → Bytes) (root : Bytes) (db_check : ℕ → Bytes → Bool) where
  -- `dlfile_recv_check`
  pub recv_check : Dl → ℕ → Thread → Bytes → Bool × Dl
  unfolding fail_block
  recv_check dl i t leaf =
      let num = sub32 t.chunk 1 / (dl.hash_block / chunk_size) in
      if (if ltb dl.size dl.hash_block then same_text leaf root else db_check num leaf)
      then (true, put_thread dl i t)
      else (false, fail_block dl i t (num * (dl.hash_block / chunk_size) % 2 ^ 32))

  -- A chunk is complete: the hash is checked at the end of a block, and of the file.
  pub chunk_end : Dl → ℕ → Thread → Bool → Bool × Dl × Thread
  unfolding recv_check
  chunk_end dl i t islast =
      let t' : Thread = record t { hashed = [] } in
      let checked = recv_check dl i t' (tth t.hashed) in
      if not dl.islist && (islast || t.chunk % (dl.hash_block / chunk_size) == 0)
      then (checked.0, checked.1, t')
      else (true, put_thread dl i t, t)

  -- One round of the loop of `dlfile_recv`, for the part `part` of the data, which ends with the
  -- data or with the chunk; and the flag to go on.
  pub recv_round : Dl → ℕ → Thread → Bytes → Bool × Dl × Thread
  unfolding chunk_end take_part next_chunk mark
  recv_round dl i t part =
      let t' = take_part dl t part in
      let dl' : Dl = record dl { have = add64 dl.have (length part) } in
      let islast = add64 (t'.chunk * chunk_size) t'.len == dl.size in
      let done = chunk_end (mark dl' t'.chunk) i (next_chunk t') islast in
      if not islast && ltb t'.len chunk_size then (true, put_thread dl' i t', t') else done

  -- `while(len > 0) …`. The fuel is the number of bytes: each round takes one or more.
  pub recv_loop : ℕ → Dl → ℕ → Thread → Bytes → Bool × Dl
  unfolding recv_round
  recv_loop zero dl i t buf = (true, dl)
  recv_loop (suc fuel) dl i t buf =
      let inchunk = min (length buf) (sub32 chunk_size t.len) in
      let (go_on, dl', t') = recv_round dl i t (take inchunk buf) in
      let rest = recv_loop fuel dl' i t' (drop inchunk buf) in
      if is_empty buf then (true, dl) else if go_on then rest else (false, dl')

  -- `dlfile_recv` on the thread at place `i`.
  unfoldable pub recv : Dl → ℕ → Thread → Bytes → Bool → Bool × Dl
  unfolding recv_loop
  recv dl i t buf written =
      if written
      then recv_loop (length buf) dl i t buf
      else (false, put_thread dl i (record t { err = true }))

-- What `dlfile_recv_done` does beyond the download itself: calls of dl.c, and closing the file.
pub data Outcome : Type 0 where
  removed failed user_failed finished kept : Outcome

pub remove : ℕ → List Thread → List Thread
remove i [] = []
remove zero (t ∷ ts) = ts
remove (suc i) (t ∷ ts) = t ∷ remove i ts

-- A thread has done all that it had to; a failed one cannot be complete, and `dlfile_recv_done` then
-- returns at once.
pub is_complete : Dl → Thread → Bool
is_complete dl t = if dl.islist then dl.hassize && dl.have == dl.size else t.avail == 0

pub is_stuck : Dl → Thread → Bool
unfolding is_complete
is_stuck dl t = is_complete dl t && (t.err || t.uerr)

pub done_state : Dl → ℕ → Thread → Dl
unfolding is_stuck remove
done_state dl i t =
    let active = (dl.active_threads + 255) % 256 in
    if is_stuck dl t
    then record dl {
      active_threads = active;
      threads = set dl.threads i (record t { busy = false });
    }
    else if is_complete dl t
    then record dl { active_threads = active; threads = remove i dl.threads }
    else record dl {
      active_threads = active;
      allbusy = false;
      threads =
          set dl.threads i (record t { busy = false; allocated = 0; err = false; uerr = false });
    }

-- `queued` says whether the download is still in the queue of dl.c.
pub done_outcome : Dl → Dl → Thread → Bool → Outcome
unfolding is_stuck
done_outcome dl dl' t queued =
    if is_stuck dl t
    then kept
    else if dl'.active_threads == 0 && not queued
    then removed
    else if t.err
    then failed
    else if t.uerr
    then user_failed
    else if is_empty dl'.threads
    then finished
    else kept

-- `dlfile_recv_done` on the thread at place `i`.
unfoldable pub recv_done : Dl → ℕ → Thread → Bool → Dl × Outcome
unfolding done_state done_outcome
recv_done dl i t queued = let dl' = done_state dl i t in (dl', done_outcome dl dl' t queued)
