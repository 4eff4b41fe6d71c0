-- ===== src/DlFile/Segment.antt =====
-- src/dlfile.c: `dlfile_open` and `dlfile_getchunk`, which choose the segment that a user is asked for.
-- The results of `open` and of writing the bitmap are arguments, and so is the value of the setting
-- `download_segment`. `none` is NULL, and also a read through a pointer that is NULL.
pub mod Pick
pub mod Split
pub mod Sound
mod Tests
use ncdc.Prelude.{
  ℕ, zero, suc, List, [], ◌∷◌, Bytes, Bool, true, false, not, Option, none, some, ◌>>=◌, ltb, ◌==◌,
  ◌&&◌, ◌||◌, if◌then◌else◌, ◌+◌, ◌-◌, ◌*◌, ◌/◌, ◌%◌, ◌^◌, min, max, set, is_empty,
}
use ncdc.Bitmap.{bita_new}
use ncdc.DlFile.{
  chunk_size, add32, sub32, Thread, new_thread, Dl, dlfile_chunks, chunks_per_block, has_free_block,
}

-- A pointer to a thread: its place in the list, and what stands there.
abbrev pub Ref : Type 0
Ref = ℕ × Thread

-- `!best || t->f > best->f`
larger : (Thread → ℕ) → Thread → Option Ref → Bool
larger f t none = true
larger f t (some (i, best)) = ltb (f best) (f t)

abbrev pub unallocated : Thread → ℕ
unallocated t = sub32 t.avail t.allocated

-- Where a new thread starts in the range of `tsec`.
pub split_at : ℕ → Thread → ℕ
split_at cpb tsec =
    let start = add32 tsec.chunk tsec.allocated in
    let chunk = add32 start (unallocated tsec / 2) / cpb * cpb % 2 ^ 32 in
    if ltb chunk start then add32 chunk cpb else chunk

module _ (chunks cpb : ℕ) where
  -- The walk through the threads, for `tsec` and `t`.
  pub pick : List Thread → ℕ → Option Ref → Option Ref → Option Ref × Option Ref
  unfolding larger
  pick [] i tsec t = (tsec, t)
  pick (ti ∷ ts) i tsec t =
      let better =
        not (ti.avail == 0) && (larger unallocated ti tsec && has_free_block chunks cpb ti) in
      let idle = not ti.busy && larger (λ x. x.avail) ti t in
      pick ts (suc i) (if better then some (i, ti) else tsec) (if idle then some (i, ti) else t)

  -- Whether a thread can be given a segment.
  unfoldable pub any_free : List Thread → Bool
  any_free [] = false
  any_free (ti ∷ ts) =
      not (ti.avail == 0) && (not ti.busy || has_free_block chunks cpb ti) || any_free ts

-- The size of the segment, for about five minutes of download.
pub segment_size : ℕ → ℕ → ℕ → ℕ
segment_size minsegment speed avail =
    let wanted = min (2 ^ 32 - 1) (1 + speed * 300 % 2 ^ 64 / chunk_size) in
    let least = (minsegment + chunk_size - 1) % 2 ^ 32 / chunk_size in
    if minsegment == 0 then avail else min avail (max wanted least)

-- The thread that the segment is taken from, made by a split if `t` is NULL; with the threads as
-- they are then.
pub choose : Dl → Option Ref × Option Ref → Option (ℕ × Thread × List Thread)
unfolding split_at
choose dl (tsec, some (i, t)) = some (i, t, dl.threads)
choose dl (none, none) = none
choose dl (some (i, ts), none) =
    let chunk = split_at (chunks_per_block dl) ts in
    let avail = sub32 ts.avail (sub32 chunk ts.chunk) in
    if avail == 0
    then none
    else some (
      0,
      new_thread chunk avail,
      new_thread chunk avail ∷ set dl.threads i (record ts { avail = sub32 ts.avail avail }),
    )

pub find_thread : Dl → Option (ℕ × Thread × List Thread)
unfolding pick choose
find_thread dl =
    choose dl (pick (dlfile_chunks dl.size) (chunks_per_block dl) dl.threads 0 none none)

-- A bitmap of NULL is the empty list.
pub dlfile_open : Dl → Bool → Bool → Option Dl
dlfile_open dl opened saved =
    if not opened
    then none
    else if not (is_empty dl.threads) || not (is_empty dl.bitmap)
    then some dl
    else if dl.islist
    then some (record dl { threads = new_thread 0 0 ∷ [] })
    else if not saved
    then none
    else some (record dl {
      bitmap = bita_new (dlfile_chunks dl.size);
      threads = new_thread 0 (dlfile_chunks dl.size) ∷ [];
    })

-- File lists are downloaded by one request.
getchunk_list : Dl → ℕ → List Thread → Option (Dl × ℕ)
getchunk_list dl uid [] = none
getchunk_list dl uid (t ∷ ts) = some (
  record dl {
    threads = record t { chunk = 0; len = 0; uid = uid; busy = true } ∷ ts;
    hassize = false;
    have = 0;
    allbusy = true;
    active_threads = (dl.active_threads + 1) % 256;
  },
  0,
)

-- The segment is allocated in the thread, and `allbusy` is brought up to date.
pub getchunk_file : Dl → ℕ → ℕ → ℕ → Option (Dl × ℕ)
unfolding find_thread segment_size any_free
getchunk_file dl minsegment uid speed = find_thread dl >>= λ (i, t, threads).
    let t' : Thread = record t {
      allocated = segment_size minsegment speed t.avail;
      busy = true;
      uid = uid;
    } in
    let threads' = set threads i t' in
    some (
      record dl {
        threads = threads';
        active_threads = (dl.active_threads + 1) % 256;
        allbusy = not (any_free (dlfile_chunks dl.size) (chunks_per_block dl) threads');
      },
      i,
    )

-- `dlfile_getchunk`; the result is the new state and the place of the thread.
unfoldable pub getchunk : Dl → Bool → Bool → ℕ → ℕ → ℕ → Option (Dl × ℕ)
unfolding dlfile_open getchunk_list getchunk_file
getchunk dl opened saved minsegment uid speed = dlfile_open dl opened saved >>= λ dl'.
    if dl'.islist then getchunk_list dl' uid dl'.threads else getchunk_file dl' minsegment uid speed
