-- ===== src/DlFile/Recv/Done.antt =====
-- src/dlfile.c: `dlfile_recv_done` keeps a download sound, and a download is finished only when every
-- chunk is there.
use ncdc.Prelude.{
  ℕ, zero, suc, List, [], ◌∷◌, Bool, true, false, ◌==◌, is_empty, set, All, Bool-cases, inl, inr,
  ◌+◌, ◌<◌, ◌≡◌, refl, arith,
}
use ncdc.Bitmap.{bita_get}
use ncdc.DlFile.{Thread, Dl, dlfile_chunks}
use ncdc.DlFile.Cover.{inside, count, IsThread, IsSound}
use ncdc.DlFile.Segment.Pick.{At, count-set, All-set}
use ncdc.DlFile.Segment.Sound.{Covers-count}
use ncdc.DlFile.Recv.{finished, remove, is_complete, is_stuck, done_state, done_outcome, recv_done}

count-remove :
    (ts : List Thread) (i : ℕ) (x : Thread) (j : ℕ)
    → At ts i x
    → count (remove i ts) j + inside x j ≡ count ts j
unfolding remove
count-remove [] i x j h = absurd h
count-remove (t ∷ ts) zero x j h = rw h (omega arith)
count-remove (t ∷ ts) (suc i) x j h = omega (arith, count-remove ts i x j h)

All-remove : (P : Thread → Type 0) (ts : List Thread) (i : ℕ) → All P ts → All P (remove i ts)
unfolding remove
All-remove P [] i h = tt
All-remove P (t ∷ ts) zero h = h.1
All-remove P (t ∷ ts) (suc i) h = (h.0, All-remove P ts i h.1)

done_state-IsSound :
    (dl : Dl) (i : ℕ) (t : Thread)
    → IsSound dl
    → dl.islist ≡ false
    → At dl.threads i t
    → is_stuck dl t ≡ false
    → IsSound (done_state dl i t)
unfolding done_state is_complete
done_state-IsSound dl i t v file a free = elim (Bool-cases (t.avail == 0)) [
  | inl none_left ↦
      rw (free, file, none_left)
        (record {
          covers =
              Covers-count dl.threads (remove i dl.threads) dl.bitmap (dlfile_chunks dl.size)
                (λ j. ground (arith, count-remove dl.threads i t j a)) v.covers;
          bitmap = v.bitmap;
          threads = All-remove IsThread dl.threads i v.threads;
        })
  | inr more ↦
      let idle : Thread = record t { busy = false; allocated = 0; err = false; uerr = false } in
      let same : (j : ℕ) → inside idle j ≡ inside t j = λ j. refl in
      rw (free, file, more)
        (record {
          covers =
              Covers-count dl.threads (set dl.threads i idle) dl.bitmap (dlfile_chunks dl.size)
                (λ j. omega (arith, count-set dl.threads i t idle j a, same j)) v.covers;
          bitmap = v.bitmap;
          threads = All-set IsThread dl.threads i idle v.threads (ground arith);
        })
]

size-done_state : (dl : Dl) (i : ℕ) (t : Thread) → (done_state dl i t).size ≡ dl.size
unfolding done_state
size-done_state dl i t = ground arith

done_outcome-finished :
    (dl dl' : Dl) (t : Thread) (queued : Bool)
    → done_outcome dl dl' t queued ≡ finished
    → (is_stuck dl t ≡ false) × (is_empty dl'.threads ≡ true)
unfolding done_outcome
done_outcome-finished dl dl' t queued h = ground arith

-- What giving a thread back makes of the threads.
done_state-dropped :
    (dl : Dl) (i : ℕ) (t : Thread)
    → dl.islist ≡ false
    → is_stuck dl t ≡ false
    → t.avail ≡ 0
    → (done_state dl i t).threads ≡ remove i dl.threads
unfolding done_state is_complete
done_state-dropped dl i t file free none_left =
    let e : (t.avail == 0) ≡ true = ground arith in rw (free, file, e) refl

-- A thread that waits for a user, at the chunks of `t`.
pub record IsFreed (t u : Thread) : Type 0 where
  pub busy : u.busy ≡ false
  pub allocated : u.allocated ≡ 0
  pub err : u.err ≡ false
  pub uerr : u.uerr ≡ false
  pub chunk : u.chunk ≡ t.chunk
  pub avail : u.avail ≡ t.avail
  pub hashed : u.hashed ≡ t.hashed

done_state-IsFreed :
    (dl : Dl) (i : ℕ) (t : Thread)
    → dl.islist ≡ false
    → is_stuck dl t ≡ false
    → 0 < t.avail
    → ((done_state dl i t).allbusy ≡ false)
      × (u : Thread) × IsFreed t u
      × ((done_state dl i t).threads ≡ set dl.threads i u)
unfolding done_state is_complete
done_state-IsFreed dl i t file free more =
    let e : (t.avail == 0) ≡ false = ground arith in
    (
      rw (free, file, e) refl,
      record t { busy = false; allocated = 0; err = false; uerr = false },
      record {
        busy = refl;
        allocated = refl;
        err = refl;
        uerr = refl;
        chunk = refl;
        avail = refl;
        hashed = refl;
      },
      rw (free, file, e) refl,
    )

-- Giving a thread back keeps a sound download of a file sound. A thread with nothing left is dropped
-- from the list; any other stays at its place, idle again, with nothing allocated, no error, and its
-- chunks and its hash as they were, and not all threads are busy any more. No other thread changes.
-- The thread is not one that failed and has nothing left all the same.
pub recv_done-IsSound :
    (dl : Dl) (i : ℕ) (t : Thread) (queued : Bool)
    → IsSound dl
    → dl.islist ≡ false
    → At dl.threads i t
    → is_stuck dl t ≡ false
    → let out = (recv_done dl i t queued).0 in
      IsSound out
      × (t.avail ≡ 0 → out.threads ≡ remove i dl.threads)
      × (0 < t.avail
          → (out.allbusy ≡ false) × (u : Thread) × IsFreed t u × (out.threads ≡ set dl.threads i u))
unfolding recv_done
recv_done-IsSound dl i t queued v file a free = (
  done_state-IsSound dl i t v file a free,
  done_state-dropped dl i t file free,
  done_state-IsFreed dl i t file free,
)

none_in_empty : (ts : List Thread) (j : ℕ) → is_empty ts ≡ true → count ts j ≡ 0
none_in_empty [] j h = refl
none_in_empty (t ∷ ts) j h = cc

-- When `dlfile_recv_done` finishes a sound download of a file, every chunk of the file is marked as
-- downloaded.
pub recv_done-finished :
    (dl : Dl) (i : ℕ) (t : Thread) (queued : Bool)
    → IsSound dl
    → dl.islist ≡ false
    → At dl.threads i t
    → (recv_done dl i t queued).1 ≡ finished
    → (j : ℕ) → j < dlfile_chunks dl.size
    → bita_get (recv_done dl i t queued).0.bitmap j ≡ 1
unfolding recv_done
recv_done-finished dl i t queued v file a end j h =
    let out = done_state dl i t in
    let (free, empty) = done_outcome-finished dl out t queued end in
    let w = done_state-IsSound dl i t v file a free in
    omega
      (arith, w.covers.below j (rw (size-done_state dl i t) h), none_in_empty out.threads j empty)
