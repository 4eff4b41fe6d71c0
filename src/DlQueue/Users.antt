-- ===== src/DlQueue/Users.antt =====
-- src/dl.c: `dl_user_add` and `dl_user_rm`. The functions of GSequence are arguments: `insert_sorted` takes
-- the comparison, the new item and the sequence.
pub mod Links
pub mod Remove
pub mod Insert
use Prim.Native.Nat.{Ordering}
use ncdc.Prelude.{
  ℕ, zero, suc, List, [], ◌∷◌, ◌++◌, Bool, true, false, not, ◌&&◌, ◌||◌, Option, none, some, ◌==◌,
  if◌then◌else◌, is_empty, length, Bytes, ◌+◌,
}
use ncdc.DlQueue.{
  Dl, UserDl, User, Queue, nco, set_user, set_dl, dl_user_dl_sort, settle, dl_user_cc,
}

abbrev pub users_in : Option Dl → List ℕ
users_in none = []
users_in (some dl) = dl.users

abbrev pub users_of : Queue → ℕ → List ℕ
users_of s h = users_in (s.dls h)

abbrev pub queue_in : Option User → List UserDl
queue_in none = []
queue_in (some du) = du.queue

abbrev pub queue_of : Queue → ℕ → List UserDl
queue_of s uid = queue_in (s.users uid)

-- How often an item stands in the queue of a user, and a user among those of an item.
abbrev pub times : ℕ → List UserDl → ℕ
times h [] = 0
times h (x ∷ xs) = (if h == x.dl then 1 else 0) + times h xs

abbrev pub occurs : ℕ → List ℕ → ℕ
occurs uid [] = 0
occurs uid (x ∷ xs) = (if uid == x then 1 else 0) + occurs uid xs

-- `g_sequence_remove` of the item of a `dl`.
abbrev pub remove_item : ℕ → List UserDl → List UserDl
remove_item h [] = []
remove_item h (x ∷ xs) = if h == x.dl then xs else x ∷ remove_item h xs

abbrev pub last_or : ℕ → List ℕ → ℕ
last_or x [] = x
last_or x (y ∷ ys) = last_or y ys

abbrev pub but_last : List ℕ → List ℕ
but_last [] = []
but_last (x ∷ []) = []
but_last (x ∷ y ∷ ys) = x ∷ but_last (y ∷ ys)

-- `g_ptr_array_remove_index_fast`: the last element takes the place of the one that is removed.
abbrev pub remove_index_fast : ℕ → List ℕ → List ℕ
remove_index_fast i [] = []
remove_index_fast zero (x ∷ []) = []
remove_index_fast zero (x ∷ y ∷ ys) = last_or y ys ∷ but_last (y ∷ ys)
remove_index_fast (suc i) (x ∷ xs) = x ∷ remove_index_fast i xs

-- The index of a user, from `i` on.
abbrev pub index_of : ℕ → List ℕ → Option ℕ
index_of uid [] = none
index_of uid (x ∷ xs) =
    if uid == x then some 0 else elim (index_of uid xs) [ none ↦ none | some i ↦ some (suc i) ]

abbrev pub nth : ℕ → List ℕ → Option ℕ
nth i [] = none
nth zero (x ∷ xs) = some x
nth (suc i) (x ∷ xs) = nth i xs

abbrev pub new_user : User
new_user = record { state = nco; timer = false; cc = none; queue = []; active = none }

abbrev pub user_in : Option User → User
user_in none = new_user
user_in (some du) = du

abbrev pub user_or_new : Queue → ℕ → User
user_or_new s uid = user_in (s.users uid)

module _ (insert_sorted : (UserDl → UserDl → Ordering) → UserDl → List UserDl → List UserDl)
    (strcmp : Bytes → Bytes → Ordering) where
  unfoldable pub dl_user_add : ℕ → ℕ → ℕ → Queue → Queue
  dl_user_add h uid error s = elim (s.dls h) [
    | none ↦ s
    | some dl ↦
        let du = user_or_new s uid in
        let dud : UserDl = record { dl = h; error = error } in
        if dl.islist && not (is_empty dl.users)
        then s
        else set_dl
            (set_user s uid (
              some
                (record du { queue = insert_sorted (dl_user_dl_sort strcmp s.dls) dud du.queue })))
            h (some (record dl { users = dl.users ++ uid ∷ [] }))
  ]

-- What `cc_disconnect` does in dl.c; what dlfile.c does when the thread stops comes as a later step.
abbrev pub disconnect : ℕ → Queue → Queue
disconnect uid s = dl_user_cc uid none s

abbrev pub is_active : ℕ → Option ℕ → Bool
is_active h none = false
is_active h (some a) = h == a

-- The part of `dl_user_rm` behind the disconnect.
unfoldable pub unlink : ℕ → ℕ → ℕ → Queue → Queue
unlink h i uid s = elim (s.dls h) [
  | none ↦ s
  | some dl ↦ elim (s.users uid) [
    | none ↦ s
    | some du ↦
        let du' = record du {
          queue = remove_item h du.queue;
          active = if is_active h du.active then none else du.active;
        } in
        settle (set_dl s h (some (record dl { users = remove_index_fast i dl.users }))) uid du'
  ]
]

unfoldable pub dl_user_rm : ℕ → ℕ → Queue → Queue
dl_user_rm h i s = elim (s.dls h) [
  | none ↦ s
  | some dl ↦ elim (nth i dl.users) [
    | none ↦ s
    | some uid ↦ elim (s.users uid) [
      | none ↦ s
      | some du ↦ unlink h i uid (if is_active h du.active then disconnect uid s else s)
    ]
  ]
]
