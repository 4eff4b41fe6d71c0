-- ===== src/DlQueue/Run.antt =====
-- src/dl.c: what happens to the queue, call by call.
use Prim.Native.Nat.{Ordering}
use ncdc.Prelude.{ℕ, List, Bool, false, Option, none, Bytes}
use ncdc.DlQueue.{UserDl, Queue, Prio, dl_user_waitdone, dl_user_cc, dl_user_join}
use ncdc.DlQueue.Start.{dl_queue_start_user}
use ncdc.DlQueue.Change.{
  dl_queue_rm, dl_queue_addlist, dl_queue_addfile, dl_queue_matchfile, dl_queue_rmuser,
  dl_queue_setprio, dl_queue_seterr, dl_queue_setuerr,
}

abbrev pub empty_queue : Queue
empty_queue = record { dls = λ h. none; users = λ uid. none; needstart = false }

module _ (insert_sorted : (UserDl → UserDl → Ordering) → UserDl → List UserDl → List UserDl)
    (sort_changed : (UserDl → UserDl → Ordering) → ℕ → List UserDl → List UserDl)
    (sort : (UserDl → UserDl → Ordering) → List UserDl → List UserDl)
    (strcmp : Bytes → Bytes → Ordering) where
  -- The calls, in any order. A download that is complete is moved to its place, and then leaves the queue; a
  -- move that fails is a call of `dl_queue_seterr`.
  pub data Call (s : Queue) : Queue → Type 0 where
    waitdone : (uid : ℕ) → Call s (dl_user_waitdone uid s)
    connection : (uid : ℕ) (cc : Option ℕ) → Call s (dl_user_cc uid cc s)
    join : (uid : ℕ) → Call s (dl_user_join uid s)
    start : (online : Bool) (uid : ℕ) → Call s (dl_queue_start_user online uid s).1
    addlist :
        (h uid : ℕ) (dest : Bytes) → Call s (dl_queue_addlist insert_sorted strcmp h uid dest s)
    addfile :
        (uid h size : ℕ) (dest : Bytes)
        → Call s (dl_queue_addfile insert_sorted strcmp dl_queue_rm uid h size dest s).1
    matchfile : (uid h : ℕ) → Call s (dl_queue_matchfile insert_sorted strcmp uid h s).1
    remove : (h : ℕ) → Call s (dl_queue_rm h s)
    rmuser : (uid : ℕ) (tth : Option ℕ) → Call s (dl_queue_rmuser uid tth s)
    setprio :
        (h : ℕ) (prio : Prio)
        → Call s (dl_queue_setprio sort_changed sort strcmp dl_queue_rm h prio s)
    seterr : (h e : ℕ) → Call s (dl_queue_seterr sort_changed sort strcmp dl_queue_rm h e s)
    setuerr :
        (uid : ℕ) (tth : Option ℕ) (e : ℕ)
        → Call s (dl_queue_setuerr sort_changed sort strcmp dl_queue_rm uid tth e s)

  pub data Reach : Queue → Type 0 where
    begin : Reach empty_queue
    next : {s t : Queue} → Reach s → Call s t → Reach t
