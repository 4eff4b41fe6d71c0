-- ===== src/DlQueue.antt =====
-- src/dl.c: the download queue. A `dl_t` is named by its hash and a `dl_user_t` by its uid; the hash tables
-- are functions of them. The order of the items of a user is kept by a `GSequence`, whose functions are
-- arguments, and so is `strcmp`.
pub mod Users
pub mod Start
pub mod Change
pub mod Run
mod Tests
use Prim.Native.Nat.{Ordering}
use ncdc.Prelude.{
  ℕ, List, [], ◌∷◌, Bool, true, false, not, ◌&&◌, ◌||◌, Option, none, some, ltb, ◌==◌,
  if◌then◌else◌, Bytes,
}

-- DLU_*
pub data UserState : Type 0 where
  nco expecting idle act wai : UserState

-- DLP_*, from the lowest to the highest
pub data Prio : Type 0 where
  failed off vlow low med high vhigh : Prio

abbrev pub rank : Prio → ℕ
rank failed = 0
rank off = 1
rank vlow = 2
rank low = 3
rank med = 4
rank high = 5
rank vhigh = 6

-- The fields of `dl_t` that dl.c works with. `users` is `u`, the uids of its users; an error is its number.
pub record Dl : Type 0 where
  pub islist : Bool
  pub hastthl : Bool
  pub hassize : Bool
  pub allbusy : Bool
  pub prio : Prio
  pub error : ℕ
  pub active_threads : ℕ
  pub dest : Bytes
  pub users : List ℕ
  pub size : ℕ
  pub have : ℕ
  pub hash_block : ℕ

-- `dl_user_dl_t`: the hash of its `dl`, and its error.
pub record UserDl : Type 0 where
  pub dl : ℕ
  pub error : ℕ

-- `dl_user_t`; `timer` says whether `timeout` is a source that runs, `cc` names the connection, and `active`
-- is the hash of the item that is downloaded.
pub record User : Type 0 where
  pub state : UserState
  pub timer : Bool
  pub cc : Option ℕ
  pub queue : List UserDl
  pub active : Option ℕ

-- `dl_queue`, `queue_users` and `dl_queue_needstart`
pub record Queue : Type 0 where
  pub dls : ℕ → Option Dl
  pub users : ℕ → Option User
  pub needstart : Bool

-- A hash table with another value for a key, or with none.
abbrev pub assign {ℓ} : {A : Type ℓ} → (ℕ → Option A) → ℕ → Option A → ℕ → Option A
assign m k v j = if j == k then v else m j

abbrev pub set_user : Queue → ℕ → Option User → Queue
set_user s uid u = record s { users = assign s.users uid u }

abbrev pub set_dl : Queue → ℕ → Option Dl → Queue
set_dl s h d = record s { dls = assign s.dls h d }

-- An item whose `dl` there is: it stays while a user has it.
pub dl_enabled : ℕ → Dl → Bool
dl_enabled error d =
    error == 0 && ltb 1 (rank d.prio) && (d.size == 0 && d.islist || not (d.size == d.have))

unfoldable pub dl_user_dl_enabled : (ℕ → Option Dl) → UserDl → Bool
dl_user_dl_enabled dls dud = elim (dls dud.dl) [ none ↦ false | some d ↦ dl_enabled dud.error d ]

-- The first of two tests that says which stands first, else the rest.
abbrev pub first_true : Bool → Bool → Ordering → Ordering
first_true true false o = Ordering.lt
first_true false true o = Ordering.gt
first_true true true o = o
first_true false false o = o

module _ (strcmp : Bytes → Bytes → Ordering) where
  pub sort_dls : ℕ × Dl → ℕ × Dl → Ordering
  sort_dls (ex, dx) (ey, dy) = first_true (dl_enabled ex dx) (dl_enabled ey dy) (
      first_true dx.islist dy.islist (
        first_true (ltb (rank dy.prio) (rank dx.prio)) (ltb (rank dx.prio) (rank dy.prio))
          (strcmp dx.dest dy.dest)))

  -- Where a `dl` is missing, which does not happen, the order is not looked at.
  unfoldable pub dl_user_dl_sort : (ℕ → Option Dl) → UserDl → UserDl → Ordering
  dl_user_dl_sort dls x y = elim (dls x.dl) [
    | none ↦ Ordering.eq
    | some dx ↦ elim (dls y.dl) [
      | none ↦ Ordering.eq
      | some dy ↦ sort_dls (x.error, dx) (y.error, dy)
    ]
  ]

abbrev pub allbusy_of : (ℕ → Option Dl) → ℕ → Bool
allbusy_of dls h = elim (dls h) [ none ↦ true | some d ↦ d.allbusy ]

unfoldable pub dl_user_getdl : (ℕ → Option Dl) → List UserDl → Option UserDl
dl_user_getdl dls [] = none
dl_user_getdl dls (dud ∷ rest) =
    if dl_user_dl_enabled dls dud && not (allbusy_of dls dud.dl)
    then some dud
    else dl_user_getdl dls rest

-- What `dl_queue_start` leaves is that a start is due: the timer runs once.
abbrev pub dl_queue_start : Queue → Queue
dl_queue_start s = record s { needstart = true }

abbrev pub is_nco : UserState → Bool
is_nco nco = true
is_nco _ = false

abbrev pub is_act : UserState → Bool
is_act act = true
is_act _ = false

abbrev pub is_wai : UserState → Bool
is_wai wai = true
is_wai _ = false

abbrev pub is_idle : UserState → Bool
is_idle idle = true
is_idle _ = false

abbrev pub is_none {ℓ} : {A : Type ℓ} → Option A → Bool
is_none none = true
is_none (some a) = false

abbrev pub no_items : List UserDl → Bool
no_items [] = true
no_items (x ∷ xs) = false

-- The changes to the struct, for a state that is not -1.
pub to_state : User → UserState → User
to_state du state = record du {
  state = state;
  timer =
      if not (is_wai du.state) && is_wai state
      then true
      else if is_wai du.state && not (is_wai state)
      then false
      else du.timer;
  active = if is_act du.state && not (is_act state) then none else du.active;
}

-- What `dl_user_setstate` does in the end.
pub settle : Queue → ℕ → User → Queue
settle s uid du =
    if is_nco du.state && no_items du.queue
    then set_user s uid none
    else dl_queue_start (set_user s uid (some du))

unfoldable pub dl_user_setstate : Queue → ℕ → User → UserState → Queue
dl_user_setstate s uid du state = settle s uid (to_state du state)

unfoldable pub dl_user_waitdone : ℕ → Queue → Queue
dl_user_waitdone uid s = elim (s.users uid) [
  | none ↦ s
  | some du ↦ if is_wai du.state then dl_user_setstate s uid du nco else s
]

abbrev pub takes_cc : UserState → Bool
takes_cc nco = true
takes_cc expecting = true
takes_cc act = true
takes_cc _ = false

unfoldable pub dl_user_cc : ℕ → Option ℕ → Queue → Queue
dl_user_cc uid cc s = elim (s.users uid) [
  | none ↦ s
  | some du ↦
      if is_none cc || takes_cc du.state
      then dl_user_setstate s uid (record du { cc = cc }) (if is_none cc then wai else idle)
      else s
]

unfoldable pub dl_user_join : ℕ → Queue → Queue
dl_user_join uid s = if uid == 0 || not (is_none (s.users uid)) then dl_queue_start s else s
