-- ===== src/DlFile/Segment/Sound.antt =====
-- src/dlfile.c: `dlfile_getchunk` finds a segment whenever there is one, and keeps the download sound.
use ncdc.Prelude.{
  ℕ, zero, suc, List, [], ◌∷◌, Bytes, Bool, true, false, not, Option, none, some, set,
  is_empty-false, ◌+◌, ◌-◌, ◌%◌, ◌^◌, ◌<◌, ◌≤◌, ◌≡◌, ◌≢◌, refl, arith, ==_false, All,
}
use native.Mathlib.Decide.{dec_lt}
use ncdc.Bitmap.{bita_new}
use ncdc.Bitmap.Laws.{bita_new_lem}
use ncdc.DlFile.{Thread, new_thread, Dl, dlfile_chunks, chunks_per_block, sub32}
use ncdc.DlFile.Cover.{inside, count, Covers, IsThread, IsSound, IsSized}
use ncdc.DlFile.Segment.{
  Ref, split_at, any_free, segment_size, find_thread, choose, dlfile_open, getchunk_file, getchunk,
}
use ncdc.DlFile.Segment.Pick.{
  At, At-set, count-set, All-set, All-At, IsSec, IsIdle, AllBusy, NoneFree, any_free-false,
  pick_lem,
}
use ncdc.DlFile.Segment.Split.{split_at_lem}

pub inside-le-count :
    (ts : List Thread) (i : ℕ) (x : Thread) (j : ℕ) → At ts i x → inside x j ≤ count ts j
inside-le-count [] i x j h = absurd h
inside-le-count (t ∷ ts) zero x j h = rw h (omega arith)
inside-le-count (t ∷ ts) (suc i) x j h = omega (arith, inside-le-count ts i x j h)

-- A range ends within the file.
pub range-le :
    (ts : List Thread) (bitmap : Bytes) (n i : ℕ) (x : Thread)
    → Covers ts bitmap n
    → At ts i x
    → 0 < x.avail
    → x.chunk + x.avail ≤ n
range-le ts bitmap n i x v a pos = elim (dec_lt n (x.chunk + x.avail)) [
  | yes over ↦
      let j = x.chunk + x.avail - 1 in
      let none_there : count ts j ≡ 0 = v.above j (omega arith) in
      let here : inside x j ≡ 1 = ground arith in absurd (omega (arith, inside-le-count ts i x j a))
  | no fits ↦ omega arith
]

-- Threads with the same ranges, counted together, cover as before.
pub Covers-count :
    (ts ts' : List Thread) (bitmap : Bytes) (n : ℕ)
    → ((j : ℕ) → count ts' j ≡ count ts j)
    → Covers ts bitmap n
    → Covers ts' bitmap n
Covers-count ts ts' bitmap n same v = record {
  below = λ j h. rw (same j) (v.below j h);
  above = λ j h. rw (same j) (v.above j h);
}

-- What `find_thread` gives: a thread with chunks to download and none of them allocated, among
-- threads that cover the file.
record Found (dl : Dl) (i : ℕ) (t : Thread) (ts : List Thread) : Type 0 where
  at : At ts i t
  some_left : 0 < t.avail
  idle : t.busy ≡ false
  covers : Covers ts dl.bitmap (dlfile_chunks dl.size)
  threads : All IsThread ts

module _ (dl : Dl) (v : IsSound dl) (s : IsSized dl) where
  idle-Found : (i : ℕ) (t : Thread) → At dl.threads i t → t.busy ≡ false → Found dl i t dl.threads
  idle-Found i t a idle = record {
    at = a;
    some_left = ((All-At IsThread dl.threads i t v.threads a).1 idle).0;
    idle = idle;
    covers = v.covers;
    threads = v.threads;
  }

  -- The range of `ts` is cut in two at the chunk `c`.
  cut-Found :
      (i : ℕ) (ts : Thread) (c a1 a2 : ℕ)
      → At dl.threads i ts
      → ts.busy ≡ true
      → ts.chunk + ts.allocated ≤ c
      → c < ts.chunk + ts.avail
      → a1 ≡ ts.chunk + ts.avail - c
      → a2 ≡ c - ts.chunk
      → Found dl 0 (new_thread c a1) (new_thread c a1 ∷ set dl.threads i (record ts { avail = a2 }))
  cut-Found i ts c a1 a2 a busy low high e1 e2 =
      let old : Thread = record ts { avail = a2 } in
      let new : Thread = new_thread c a1 in
      let parts : (j : ℕ) → inside new j + inside old j ≡ inside ts j = λ j. ground arith in
      record {
        at = refl;
        some_left = omega arith;
        idle = refl;
        covers =
            Covers-count dl.threads (new ∷ set dl.threads i old) dl.bitmap (dlfile_chunks dl.size)
              (λ j. omega (arith, parts j, count-set dl.threads i ts old j a)) v.covers;
        threads =
            (omega arith, All-set IsThread dl.threads i old v.threads (omega arith, λ idle. cc));
      }

  -- The choice between the two threads of the walk.
  choose-Found :
      (tsec t : Option Ref)
      → any_free (dlfile_chunks dl.size) (chunks_per_block dl) dl.threads ≡ true
      → IsSec (dlfile_chunks dl.size) (chunks_per_block dl) dl.threads tsec
      → IsIdle (dlfile_chunks dl.size) (chunks_per_block dl) dl.threads t
      → (t ≡ none → AllBusy dl.threads)
      → (tsec ≡ none → NoneFree (dlfile_chunks dl.size) (chunks_per_block dl) dl.threads)
      → (i : ℕ) × (x : Thread) × (ts : List Thread) × (choose dl (tsec, t) ≡ some (i, x, ts))
        × Found dl i x ts
  unfolding choose
  choose-Found tsec (some (i, x)) free sec (a, idle) busy none_free =
      (i, x, dl.threads, refl, idle-Found i x a idle)
  choose-Found none none free sec idle busy none_free =
      let stuck =
        any_free-false (dlfile_chunks dl.size) (chunks_per_block dl) dl.threads (busy refl)
          (none_free refl) in
      cc
  choose-Found (some (i, x)) none free (a, pos, has) idle busy none_free =
      let n = dlfile_chunks dl.size in
      let cpb = chunks_per_block dl in
      let c = split_at cpb x in
      let (alloc, _) = All-At IsThread dl.threads i x v.threads a in
      let fits = range-le dl.threads dl.bitmap n i x v.covers a pos in
      let (low, high, _) =
        split_at_lem n cpb x (omega (arith, s.file)) (omega (arith, s.block, s.block_max))
          (omega (arith, s.block, s.block_max)) pos alloc fits has in
      let small : n < 2 ^ 31 = omega (arith, s.file) in
      let e1 : sub32 x.avail (sub32 c x.chunk) ≡ x.chunk + x.avail - c = omega arith in
      let e2 : sub32 x.avail (sub32 x.avail (sub32 c x.chunk)) ≡ c - x.chunk = omega arith in
      (
        0,
        new_thread c (sub32 x.avail (sub32 c x.chunk)),
        new_thread c (sub32 x.avail (sub32 c x.chunk))
            ∷ set dl.threads i
                (record x { avail = sub32 x.avail (sub32 x.avail (sub32 c x.chunk)) }),
        rw (==_false (sub32 x.avail (sub32 c x.chunk)) 0 (omega arith)),
        cut-Found i x c (sub32 x.avail (sub32 c x.chunk))
            (sub32 x.avail (sub32 x.avail (sub32 c x.chunk))) a
            (All-At (λ y. y.busy ≡ true) dl.threads i x (busy refl) a) low high e1 e2,
      )

  -- A thread is found whenever one is free.
  find_thread-Found :
      any_free (dlfile_chunks dl.size) (chunks_per_block dl) dl.threads ≡ true
      → (i : ℕ) × (x : Thread) × (ts : List Thread) × (find_thread dl ≡ some (i, x, ts))
        × Found dl i x ts
  unfolding find_thread
  find_thread-Found free =
      let (sec, idle, busy, none_free) =
        pick_lem (dlfile_chunks dl.size) (chunks_per_block dl) dl.threads in
      choose-Found _ _ free sec idle busy none_free

segment_size_bounds :
    (minsegment speed avail : ℕ)
    → 0 < avail
    → (0 < segment_size minsegment speed avail) × (segment_size minsegment speed avail ≤ avail)
unfolding segment_size
segment_size_bounds minsegment speed avail h = ground arith

-- Allocating a segment in the thread that was found.
allocate-IsSound :
    (dl dl' : Dl) (i : ℕ) (t t' : Thread) (ts : List Thread)
    → Found dl i t ts
    → t'.chunk ≡ t.chunk
    → t'.avail ≡ t.avail
    → t'.allocated ≤ t.avail
    → t'.busy ≡ true
    → IsSound dl
    → dl'.threads ≡ set ts i t'
    → dl'.bitmap ≡ dl.bitmap
    → dl'.size ≡ dl.size
    → IsSound dl'
allocate-IsSound dl dl' i t t' ts f same_chunk same_avail fits busy v e1 e2 e3 = record {
  covers =
      rw (e1, e2, e3)
        (Covers-count ts (set ts i t') dl.bitmap (dlfile_chunks dl.size)
          (λ j. omega (arith, count-set ts i t t' j f.at, same_range j)) f.covers);
  bitmap = rw (e2, e3) v.bitmap;
  threads = rw e1 (All-set IsThread ts i t' f.threads (omega arith, λ idle. cc));
}
  where
    same_range : (j : ℕ) → inside t' j ≡ inside t j
    same_range j = ground arith

-- Whenever a thread of a sound download is free, `dlfile_getchunk` returns a thread, marked busy for
-- the user who asked, with at least one chunk allocated and no more than it has, and the download
-- stays sound: no chunk is lost, and no chunk stands in two threads. The download is of a file of a
-- size for which no counter wraps, and has a thread already, so that nothing is written when it is
-- opened.
pub getchunk-IsSound :
    (dl : Dl) (saved : Bool) (minsegment uid speed : ℕ)
    → IsSound dl
    → IsSized dl
    → dl.islist ≡ false
    → dl.threads ≢ []
    → any_free (dlfile_chunks dl.size) (chunks_per_block dl) dl.threads ≡ true
    → (dl' : Dl) × (i : ℕ) × (x : Thread) × (getchunk dl true saved minsegment uid speed
        ≡ some (dl', i))
      × IsSound dl'
      × At dl'.threads i x
      × (x.busy ≡ true)
      × (x.uid ≡ uid)
      × (0 < x.allocated)
      × (x.allocated ≤ x.avail)
unfolding getchunk dlfile_open getchunk_file
getchunk-IsSound dl saved minsegment uid speed v s file has_thread free =
    let (i, t, ts, ran, f) = find_thread-Found dl v s free in
    let (pos, fits) = segment_size_bounds minsegment speed t.avail f.some_left in
    let t' : Thread = record t {
      allocated = segment_size minsegment speed t.avail;
      busy = true;
      uid = uid;
    } in
    let dl' : Dl = record dl {
      threads = set ts i t';
      active_threads = (dl.active_threads + 1) % 256;
      allbusy = not (any_free (dlfile_chunks dl.size) (chunks_per_block dl) (set ts i t'));
    } in
    (
      dl',
      i,
      t',
      rw (is_empty-false dl.threads has_thread, file, ran),
      allocate-IsSound dl dl' i t t' ts f refl refl fits refl v refl refl refl,
      At-set ts i t t' f.at,
      refl,
      refl,
      pos,
      fits,
    )

-- Opening a download of a file that is not empty, of which nothing is there yet, makes one thread
-- for the whole file and an empty bitmap, and is sound.
pub dlfile_open-IsSound :
    (dl : Dl)
    → IsSized dl
    → 0 < dl.size
    → dl.islist ≡ false
    → dl.threads ≡ []
    → dl.bitmap ≡ []
    → let n = dlfile_chunks dl.size in
      let dl' : Dl = record dl { bitmap = bita_new n; threads = new_thread 0 n ∷ [] } in
      (dlfile_open dl true true ≡ some dl') × IsSound dl'
unfolding dlfile_open
dlfile_open-IsSound dl s pos file no_threads no_bitmap =
    let n = dlfile_chunks dl.size in
    let (bytes, room, empty) = bita_new_lem n (omega (arith, s.file)) in
    (
      rw (no_threads, no_bitmap, file),
      record {
        covers = record { below = λ j h. ground (arith, empty j); above = λ j h. ground arith };
        bitmap = (bytes, room);
        threads = omega (arith, s.file);
      },
    )
