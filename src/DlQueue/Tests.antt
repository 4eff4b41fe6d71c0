-- ===== src/DlQueue/Tests.antt =====
-- src/dl.c: two users who share a file, one of whom is connected and downloads it, and then goes.
use Prim.Native.Nat.{Ordering}
use ncdc.Prelude.{ℕ, List, [], ◌∷◌, true, none, some, Bytes, ◌≡◌, refl}
use ncdc.DlQueue.{
  UserDl, Queue, dl_user_cc, dl_user_setstate, settle, to_state, dl_user_getdl, dl_user_dl_enabled,
  dl_enabled,
}
use ncdc.DlQueue.Change.{
  dl_queue_addfile, dl_queue_matchfile, dl_queue_rm, dl_queue_rmuser, dl_queue_insert, rm_from,
  rm_from_all,
}
use ncdc.DlQueue.Start.{dl_queue_start_user}
use ncdc.DlQueue.Users.{users_of, dl_user_add, dl_user_rm, unlink}
use ncdc.DlQueue.Run.{empty_queue}

-- The order is left out: a new item stands first, and sorting changes nothing.
first : (UserDl → UserDl → Ordering) → UserDl → List UserDl → List UserDl
first c x q = x ∷ q

as_it_is : (UserDl → UserDl → Ordering) → List UserDl → List UserDl
as_it_is c q = q

moved : (UserDl → UserDl → Ordering) → ℕ → List UserDl → List UserDl
moved c h q = q

no_order : Bytes → Bytes → Ordering
no_order a b = Ordering.eq

-- The file 5 is queued from the user 1, and the user 2 has it too; the user 1 connects, begins the download, and
-- is removed.
abbrev queued : Queue
queued =
    (dl_queue_matchfile first no_order 2 5
      (dl_queue_addfile first no_order dl_queue_rm 1 5 10 [] empty_queue).1).1

abbrev active : Queue
active = (dl_queue_start_user true 1 (dl_user_cc 1 (some 9) queued)).1

abbrev left : Queue
left = dl_queue_rmuser 1 none active

one_left : users_of left 5 ≡ 2 ∷ []
unfolding first dl_queue_addfile dl_queue_rmuser dl_queue_start_user dl_user_cc dl_queue_matchfile
    dl_user_add dl_queue_insert dl_user_setstate settle to_state dl_user_getdl dl_user_dl_enabled
    dl_enabled rm_from_all rm_from dl_user_rm unlink
one_left = refl
