-- ===== src/DlQueue/Users/Links.antt =====
-- src/dl.c: users and items that point to each other.
use ncdc.Prelude.{
  some_injective, none-some, true-false, ◌⊎◌, &&-right, ℕ, List, [], ◌∷◌, Bool, Bool-cases, inl,
  inr, true, false, not, ◌&&◌, ◌||◌, Option, Option-cases, none, some, ◌==◌, ==_iff, ==-self,
  if◌then◌else◌, ◌≡◌, refl, sym, ap, subst, ◌∙◌, ◌≤◌, arith,
}
use ncdc.DlQueue.{
  UserDl, User, Queue, UserState, nco, idle, wai, assign, is_nco, is_act, is_wai, is_idle, is_none,
  no_items, to_state, settle, dl_user_setstate, dl_user_waitdone, takes_cc, dl_user_cc,
}
use ncdc.DlQueue.Users.{times, occurs, users_of, queue_of, queue_in, is_active}

-- What holds of a user whose queue may be empty for the moment.
pub record IsSteady (du : User) : Type 0 where
  pub connected : (is_idle du.state || is_act du.state) ≡ true → is_none du.cc ≡ false
  pub downloading : is_none du.active ≡ false → is_act du.state ≡ true
  pub queued : (h : ℕ) → is_active h du.active ≡ true → 1 ≤ times h du.queue
  pub timed : du.timer ≡ is_wai du.state

-- A user who is not connected has something to download.
abbrev pub IsUseful : User → Type 0
IsUseful du = is_nco du.state ≡ true → no_items du.queue ≡ false

-- Each user of an item has it in the queue, once, and the other way round, and no user is kept without need.
pub record IsConsistent (s : Queue) : Type 0 where
  pub linked : (uid h : ℕ) → occurs uid (users_of s h) ≡ times h (queue_of s uid)
  pub once : (uid h : ℕ) → occurs uid (users_of s h) ≤ 1
  pub steady : (uid : ℕ) (du : User) → s.users uid ≡ some du → IsSteady du
  pub useful : (uid : ℕ) (du : User) → s.users uid ≡ some du → IsUseful du

no_items-nil : (q : List UserDl) → no_items q ≡ true → q ≡ []
no_items-nil [] e = refl
no_items-nil (x ∷ q) e = cc

pub assign_self : {A : Type 0} (m : ℕ → Option A) (k : ℕ) (v : Option A) → assign m k v k ≡ v
assign_self m k v = rw (==-self k) refl

pub assign_ne :
    {A : Type 0} (m : ℕ → Option A) (k j : ℕ) (v : Option A)
    → (j == k) ≡ false
    → assign m k v j ≡ m j
assign_ne m k j v e = rw e refl

pub assign-in :
    {A : Type 0} {B : Type 0} (f : Option A → B) (m : ℕ → Option A) (k : ℕ) (v : Option A) (j : ℕ)
    → f (assign m k v j) ≡ (if j == k then f v else f (m j))
assign-in f m k v j = elim (Bool-cases (j == k)) [
  | inl same ↦ rw same refl
  | inr other ↦ rw other refl
]

settle-queue_of :
    (s : Queue) (uid : ℕ) (du : User) (j : ℕ)
    → queue_of (settle s uid du) j ≡ (if j == uid then du.queue else queue_of s j)
unfolding settle
settle-queue_of s uid du j = elim (Bool-cases (is_nco du.state && no_items du.queue)) [
  | inl gone ↦
      rw (settle, gone)
        (assign-in queue_in s.users uid none j
          ∙ ap (λ q. if j == uid then q else queue_of s j)
              (sym (no_items-nil du.queue (&&-right (is_nco du.state) (no_items du.queue) gone))))
  | inr stays ↦ rw (settle, stays) (assign-in queue_in s.users uid (some du) j)
]

pub settle-users_of :
    (s : Queue) (uid : ℕ) (du : User) (h : ℕ) → users_of (settle s uid du) h ≡ users_of s h
unfolding settle
settle-users_of s uid du h = ground arith

settle-user :
    (s : Queue) (uid : ℕ) (du : User) (j : ℕ) (v : User)
    → (settle s uid du).users j ≡ some v
    → ((j ≡ uid) × (v ≡ du) × IsUseful du) ⊎ (s.users j ≡ some v)
unfolding settle
settle-user s uid du j v e = elim (Bool-cases (is_nco du.state && no_items du.queue)) [
  | inl gone ↦ elim (Bool-cases (j == uid)) [
    | inl same ↦ absurd (none-some (rw (settle, gone, same) at e))
    | inr other ↦ inr (rw (settle, gone, other) at e)
  ]
  | inr stays ↦ elim (Bool-cases (j == uid)) [
    | inl same ↦
        let v_du : v ≡ du = sym (some_injective (rw (settle, stays, same) at e)) in
        inl (
          (==_iff j uid).0 same,
          v_du,
          λ nco_now. kept (is_nco du.state) (no_items du.queue) stays nco_now,
        )
    | inr other ↦ inr (rw (settle, stays, other) at e)
  ]
]
  where
    kept : (a b : Bool) → (a && b) ≡ false → a ≡ true → b ≡ false
    kept true b e h = e
    kept false b e h = cc

-- What is left to show when a user is put back with other items, and an item with other users.
pub settle-IsConsistent_by :
    (s : Queue) (uid : ℕ) (du : User)
    → ((j h : ℕ) → occurs j (users_of s h) ≡ times h (if j == uid then du.queue else queue_of s j))
    → ((j h : ℕ) → occurs j (users_of s h) ≤ 1)
    → ((j : ℕ) (v : User) → s.users j ≡ some v → IsSteady v × IsUseful v)
    → IsSteady du
    → IsConsistent (settle s uid du)
settle-IsConsistent_by s uid du links once rest steady = record {
  linked = λ j h. rw (settle-users_of s uid du h, settle-queue_of s uid du j) (links j h);
  once = λ j h. rw (settle-users_of s uid du h) (once j h);
  steady = λ j v e. elim (settle-user s uid du j v e) [
    | inl (_, v_du, _) ↦ subst IsSteady (sym v_du) steady
    | inr before ↦ (rest j v before).0
  ];
  useful = λ j v e. elim (settle-user s uid du j v e) [
    | inl (_, v_du, keeps) ↦ subst IsUseful (sym v_du) keeps
    | inr before ↦ (rest j v before).1
  ];
}

-- A user who is put back with the same items keeps the links.
pub settle-IsConsistent :
    (s : Queue) (uid : ℕ) (old du : User)
    → IsConsistent s
    → s.users uid ≡ some old
    → du.queue ≡ old.queue
    → IsSteady du
    → IsConsistent (settle s uid du)
settle-IsConsistent s uid old du c found same steady =
    settle-IsConsistent_by s uid du links c.once (λ j v e. (c.steady j v e, c.useful j v e)) steady
  where
    links :
        (j h : ℕ) → occurs j (users_of s h) ≡ times h (if j == uid then du.queue else queue_of s j)
    links j h = elim (Bool-cases (j == uid)) [
      | inr other ↦ rw other (c.linked j h)
      | inl here ↦
          let j_uid = (==_iff j uid).0 here in
          let q : queue_of s j ≡ du.queue = ap queue_in (ap s.users j_uid ∙ found) ∙ sym same in
          rw here (c.linked j h ∙ ap (times h) q)
    ]

pub to_state-queue : (du : User) (state : UserState) → (to_state du state).queue ≡ du.queue
unfolding to_state
to_state-queue du state = refl

no_active :
    (a : Option ℕ) (b n : Bool)
    → n ≡ false
    → (is_none a ≡ false → b ≡ true)
    → is_none (if b && not n then none else a) ≡ true
no_active a b true e h = cc
no_active none true false e h = refl
no_active none false false e h = refl
no_active (some a) true false e h = refl
no_active (some a) false false e h = cc (h refl)

nothing_active : (a : Option ℕ) → is_none a ≡ true → (h : ℕ) → is_active h a ≡ true → ⊥
nothing_active none e h a = cc
nothing_active (some x) e h a = cc

-- A user who does not download has no active item.
pub to_state-idle :
    (du : User) (cc' : Option ℕ) (state : UserState)
    → IsSteady du
    → is_act state ≡ false
    → is_none (to_state (record du { cc = cc' }) state).active ≡ true
unfolding to_state
to_state-idle du cc' state steady stops =
    no_active du.active (is_act du.state) (is_act state) stops steady.downloading

pub to_state-IsSteady :
    (du : User) (cc' : Option ℕ) (state : UserState)
    → IsSteady du
    → is_act state ≡ false
    → (is_idle state ≡ true → is_none cc' ≡ false)
    → IsSteady (to_state (record du { cc = cc' }) state)
unfolding to_state
to_state-IsSteady du cc' state steady stops has_cc =
    let idle_now = to_state-idle du cc' state steady stops in
    record {
      connected = λ e. has_cc (ground (arith, e, stops));
      downloading = λ e. absurd (true-false (sym idle_now ∙ e));
      queued = λ h e.
          absurd (nothing_active (to_state (record du { cc = cc' }) state).active idle_now h e);
      timed = ground (arith, steady.timed);
    }

module _ (s : Queue) (c : IsConsistent s) where
  pub dl_user_waitdone-IsConsistent : (uid : ℕ) → IsConsistent (dl_user_waitdone uid s)
  unfolding dl_user_waitdone dl_user_setstate
  dl_user_waitdone-IsConsistent uid = elim (Option-cases (s.users uid)) [
    | inl missing ↦ rw (dl_user_waitdone, missing) c
    | inr (du, found) ↦ elim (Bool-cases (is_wai du.state)) [
      | inr other ↦ rw (dl_user_waitdone, found, other) c
      | inl waits ↦
          rw (dl_user_waitdone, found, waits)
            (settle-IsConsistent s uid du (to_state du nco) c found (to_state-queue du nco) (
              to_state-IsSteady du du.cc nco (c.steady uid du found) refl
                (λ e. absurd (true-false (sym e)))))
    ]
  ]

  pub dl_user_cc-IsConsistent : (uid : ℕ) (cc' : Option ℕ) → IsConsistent (dl_user_cc uid cc' s)
  unfolding dl_user_cc dl_user_setstate
  dl_user_cc-IsConsistent uid cc' = elim (Option-cases (s.users uid)) [
    | inl missing ↦ rw (dl_user_cc, missing) c
    | inr (du, found) ↦ elim (Bool-cases (is_none cc')) [
      | inl lost ↦
          rw (dl_user_cc, found, lost)
            (settle-IsConsistent s uid du (to_state (record du { cc = cc' }) wai) c found
              (to_state-queue (record du { cc = cc' }) wai)
              (to_state-IsSteady du cc' wai (c.steady uid du found) refl
                (λ e. absurd (true-false (sym e)))))
      | inr has_cc ↦ elim (Bool-cases (takes_cc du.state)) [
        | inr refused ↦ rw (dl_user_cc, found, has_cc, refused) c
        | inl taken ↦
            rw (dl_user_cc, found, has_cc, taken)
              (settle-IsConsistent s uid du (to_state (record du { cc = cc' }) idle) c found
                (to_state-queue (record du { cc = cc' }) idle)
                (to_state-IsSteady du cc' idle (c.steady uid du found) refl (λ e. has_cc)))
      ]
    ]
  ]
