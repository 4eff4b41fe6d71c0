-- ===== src/DlQueue/Change.antt =====
-- src/dl.c: the operations on the queue that other parts of the program call.
pub mod Consistent
pub mod Additions
pub mod Sorting
use Prim.Native.Nat.{Ordering}
use ncdc.Prelude.{
  ℕ, zero, suc, List, [], ◌∷◌, ◌++◌, Bool, true, false, not, ◌&&◌, ◌||◌, Option, none, some, ltb,
  leb, ◌==◌, if◌then◌else◌, is_empty, length, Bytes, map, ◌+◌,
}
use ncdc.DlQueue.{
  Dl, UserDl, User, Queue, Prio, failed, off, med, rank, nco, set_user, set_dl, is_none,
  dl_queue_start, dl_user_dl_sort, dl_user_cc,
}
use ncdc.DlQueue.Users.{dl_user_add, dl_user_rm, index_of, users_of}

-- `while(dl->u->len > 0) dl_user_rm(dl, 0)`, with the number of users as fuel.
unfoldable pub rm_users : ℕ → ℕ → Queue → Queue
rm_users zero h s = s
rm_users (suc fuel) h s = rm_users fuel h (dl_user_rm h 0 s)

-- Whether the struct is freed as well is told apart by the threads only; the queue no longer has it.
unfoldable pub dl_queue_rm : ℕ → Queue → Queue
dl_queue_rm h s = set_dl (rm_users (length (users_of s h)) h s) h none

-- A new item of the queue; `dl` is empty but for the fields that its caller has set.
unfoldable pub dl_queue_insert : ℕ → Dl → Bool → Queue → Queue
dl_queue_insert h dl init s =
    let small = not dl.islist && (not dl.hastthl && leb dl.size 2097152) in
    let dl' = record dl {
      users = [];
      hastthl = dl.hastthl || small;
      hash_block = if small then 2097152 else dl.hash_block;
    } in
    if init then set_dl s h (some dl') else dl_queue_start (set_dl s h (some dl'))

abbrev pub empty_dl : Bool → ℕ → Bytes → Dl
empty_dl islist size dest = record {
  islist = islist;
  hastthl = false;
  hassize = false;
  allbusy = false;
  prio = med;
  error = 0;
  active_threads = 0;
  dest = dest;
  users = [];
  size = size;
  have = 0;
  hash_block = 0;
}

module _ (insert_sorted : (UserDl → UserDl → Ordering) → UserDl → List UserDl → List UserDl)
    (strcmp : Bytes → Bytes → Ordering) where
  -- The list of a user, whose hash is the Tiger hash of the uid.
  unfoldable pub dl_queue_addlist : ℕ → ℕ → Bytes → Queue → Queue
  dl_queue_addlist h uid dest s =
      if is_none (s.dls h)
      then dl_user_add insert_sorted strcmp h uid 0
          (dl_queue_insert h (empty_dl true 0 dest) false s)
      else s

  -- Whether the file was added; `finished` stands for `dlfile_finished`.
  unfoldable pub dl_queue_addfile : (ℕ → Queue → Queue) → ℕ → ℕ → ℕ → Bytes → Queue → Bool × Queue
  dl_queue_addfile finished uid h size dest s =
      let s' =
        dl_user_add insert_sorted strcmp h uid 0
          (dl_queue_insert h (empty_dl false size dest) false s) in
      if is_none (s.dls h) then (true, (if size == 0 then finished h s' else s')) else (false, s)

  -- none for -1, and whether the user was added.
  unfoldable pub dl_queue_matchfile : ℕ → ℕ → Queue → Option Bool × Queue
  dl_queue_matchfile uid h s = elim (s.dls h) [
    | none ↦ (none, s)
    | some dl ↦
        if is_none (index_of uid dl.users)
        then (some true, dl_queue_start (dl_user_add insert_sorted strcmp h uid 0 s))
        else (some false, s)
  ]

-- From one item, or from all. A list without a user leaves the queue.
unfoldable pub rm_from : ℕ → ℕ → Queue → Queue
rm_from uid h s = elim (s.dls h) [
  | none ↦ s
  | some dl ↦
      let s' : Queue = elim (index_of uid dl.users) [ none ↦ s | some i ↦ dl_user_rm h i s ] in
      if dl.islist && is_empty (users_of s' h) then dl_queue_rm h s' else s'
]

unfoldable pub rm_from_all : ℕ → List UserDl → Queue → Queue
rm_from_all uid [] s = s
rm_from_all uid (x ∷ xs) s = rm_from_all uid xs (rm_from uid x.dl s)

unfoldable pub dl_queue_rmuser : ℕ → Option ℕ → Queue → Queue
dl_queue_rmuser uid tth s = elim (s.users uid) [
  | none ↦ s
  | some du ↦ elim tth [ none ↦ rm_from_all uid du.queue s | some h ↦ rm_from uid h s ]
]

-- The error of one item of a sequence.
pub set_error : ℕ → ℕ → List UserDl → List UserDl
set_error h e [] = []
set_error h e (x ∷ xs) = if h == x.dl then record x { error = e } ∷ xs else x ∷ set_error h e xs

-- `sort_changed` moves the item of a `dl` to its place, and `sort` sorts a sequence.
module _ (sort_changed : (UserDl → UserDl → Ordering) → ℕ → List UserDl → List UserDl)
    (sort : (UserDl → UserDl → Ordering) → List UserDl → List UserDl)
    (strcmp : Bytes → Bytes → Ordering) (finished : ℕ → Queue → Queue) where
  -- The queue of one user is put in order again.
  pub resort : ℕ → ℕ → Queue → Queue
  resort h uid s = elim (s.users uid) [
    | none ↦ s
    | some du ↦
        set_user s uid
          (some (record du { queue = sort_changed (dl_user_dl_sort strcmp s.dls) h du.queue }))
  ]

  pub resort_all : ℕ → List ℕ → Queue → Queue
  resort_all h [] s = s
  resort_all h (uid ∷ uids) s = resort_all h uids (resort h uid s)

  -- For an item of the queue.
  unfoldable pub dl_queue_setprio : ℕ → Prio → Queue → Queue
  dl_queue_setprio h prio s = elim (s.dls h) [
    | none ↦ s
    | some dl ↦
        let s' = resort_all h dl.users (set_dl s h (some (record dl { prio = prio }))) in
        if leb (rank dl.prio) 1 && ltb 1 (rank prio)
        then if dl.active_threads == 0 && ((dl.hassize || not dl.islist) && dl.have == dl.size)
          then finished h s'
          else dl_queue_start s'
        else s'
  ]

  unfoldable pub dl_queue_seterr : ℕ → ℕ → Queue → Queue
  dl_queue_seterr h e s = elim (s.dls h) [
    | none ↦ s
    | some dl ↦ dl_queue_setprio h failed (set_dl s h (some (record dl { error = e })))
  ]

  unfoldable pub dl_queue_setuerr : ℕ → Option ℕ → ℕ → Queue → Queue
  dl_queue_setuerr uid tth e s = elim (s.users uid) [
    | none ↦ s
    | some du ↦ elim tth [
      | none ↦ dl_queue_start (
          set_user s uid (
            some (record du {
              queue =
                  sort (dl_user_dl_sort strcmp s.dls)
                    (map {A = UserDl} (λ x. record x { error = e }) du.queue);
            })))
      | some h ↦ elim (s.dls h) [
        | none ↦ s
        | some dl ↦ dl_queue_start (
            if is_none (index_of uid dl.users)
            then s
            else resort h uid
                (set_user s uid (some (record du { queue = set_error h e du.queue }))))
      ]
    ]
  ]
