-- ===== src/DlQueue/Users/Insert.antt =====
-- src/dl.c: `dl_user_add` keeps the links.
use Prim.Native.Nat.{Ordering}
use ncdc.Prelude.{
  some_injective, true-false, ℕ, List, [], ◌∷◌, ◌++◌, Bool-cases, inl, inr, false, not, ◌&&◌,
  Option, Option-cases, none, some, ◌==◌, ==_iff, ==-self, if◌then◌else◌, is_empty, Bytes, ◌≡◌,
  refl, sym, ap, subst, ◌∙◌, ◌+◌, ◌≤◌, arith,
}
use ncdc.DlQueue.{Dl, UserDl, User, Queue, set_user, set_dl, no_items, dl_user_dl_sort}
use ncdc.DlQueue.Users.{
  times, occurs, users_of, queue_of, users_in, queue_in, user_in, new_user, user_or_new,
  dl_user_add,
}
use ncdc.DlQueue.Users.Links.{IsSteady, IsUseful, IsConsistent, assign-in}
use ncdc.DlQueue.Users.Remove.{occurs-append, users_at}

-- What is documented of `g_sequence_insert_sorted`: it puts the new item somewhere between the others.
pub record IsInsert
    (insert_sorted : (UserDl → UserDl → Ordering) → UserDl → List UserDl → List UserDl)
    : Type 0 where
  pub inserts :
      (c : UserDl → UserDl → Ordering) (x : UserDl) (q : List UserDl) (k : ℕ)
      → times k (insert_sorted c x q) ≡ times k (x ∷ q)

pub times-no_items : (q : List UserDl) (h : ℕ) → 1 ≤ times h q → no_items q ≡ false
times-no_items [] h e = absurd (omega arith)
times-no_items (x ∷ q) h e = refl

queue_user_in : (o : Option User) → queue_in o ≡ (user_in o).queue
queue_user_in none = refl
queue_user_in (some du) = refl

new-IsSteady : IsSteady new_user
new-IsSteady = record {
  connected = λ e. absurd (true-false (sym e));
  downloading = λ e. absurd (true-false e);
  queued = λ h e. absurd (true-false (sym e));
  timed = refl;
}

user_in-IsSteady :
    (o : Option User) → ((du : User) → o ≡ some du → IsSteady du) → IsSteady (user_in o)
user_in-IsSteady none h = new-IsSteady
user_in-IsSteady (some du) h = h du refl

-- A user with one more item.
pub longer-IsSteady :
    (du : User) (q : List UserDl)
    → ((k : ℕ) → times k du.queue ≤ times k q)
    → IsSteady du
    → IsSteady (record du { queue = q })
longer-IsSteady du q more steady = record {
  connected = steady.connected;
  downloading = steady.downloading;
  queued = λ k a. omega (arith, steady.queued k a, more k);
  timed = steady.timed;
}

-- What is left to show when a user gets other items, and an item other users.
pub set-IsConsistent :
    (s : Queue) (uid h : ℕ) (du : User) (dl : Dl)
    → IsConsistent s
    → ((j k : ℕ)
        → occurs j (if k == h then dl.users else users_of s k)
          ≡ times k (if j == uid then du.queue else queue_of s j))
    → ((j : ℕ) → occurs j dl.users ≤ 1)
    → IsSteady du
    → IsUseful du
    → IsConsistent (set_dl (set_user s uid (some du)) h (some dl))
set-IsConsistent s uid h du dl c links once steady useful = record {
  linked = λ j k.
      ap (occurs j) (assign-in users_in s.dls h (some dl) k)
      ∙ links j k
      ∙ ap (times k) (sym (assign-in queue_in s.users uid (some du) j));
  once = λ j k.
      subst (λ l. occurs j l ≤ 1) (sym (assign-in users_in s.dls h (some dl) k)) (once_at j k);
  steady = λ j v e. elim (Bool-cases (j == uid)) [
    | inl same ↦ subst IsSteady (some_injective (rw same at e)) steady
    | inr other ↦ c.steady j v (rw other at e)
  ];
  useful = λ j v e. elim (Bool-cases (j == uid)) [
    | inl same ↦ subst IsUseful (some_injective (rw same at e)) useful
    | inr other ↦ c.useful j v (rw other at e)
  ];
}
  where
    once_at : (j k : ℕ) → occurs j (if k == h then dl.users else users_of s k) ≤ 1
    once_at j k = elim (Bool-cases (k == h)) [
      | inl same ↦ rw same (once j)
      | inr other ↦ rw other (c.once j k)
    ]

append-once :
    (s : Queue)
    → IsConsistent s
    → (h uid : ℕ) (dl : Dl) → s.dls h ≡ some dl
    → occurs uid (users_of s h) ≡ 0
    → (j : ℕ) → occurs j (dl.users ++ uid ∷ []) ≤ 1
append-once s c h uid dl found absent j =
    let same_users = users_at s h h dl found (==-self h) in
    let parts = occurs-append j dl.users (uid ∷ []) in
    elim (Bool-cases (j == uid)) [
      | inl same ↦ omega (
        arith,
        rw same at parts,
        ap (λ u. occurs u dl.users) ((==_iff j uid).0 same),
        ap (occurs uid) same_users,
        absent,
      )
      | inr other ↦ omega (arith, rw other at parts, ap (occurs j) same_users, c.once j h)
    ]

module _ (insert_sorted : (UserDl → UserDl → Ordering) → UserDl → List UserDl → List UserDl)
    (strcmp : Bytes → Bytes → Ordering) (law : IsInsert insert_sorted) where
  links :
      (s : Queue)
      → IsConsistent s
      → (h uid : ℕ) (dl : Dl) (q : List UserDl) → s.dls h ≡ some dl
      → ((k : ℕ) → times k q ≡ (if k == h then 1 else 0) + times k (queue_of s uid))
      → (j k : ℕ)
      → occurs j (if k == h then dl.users ++ uid ∷ [] else users_of s k)
        ≡ times k (if j == uid then q else queue_of s j)
  links s c h uid dl q found more j k = elim (Bool-cases (k == h)) [
    | inl kh ↦
        let users = ap (occurs j) (users_at s h k dl found kh) in
        elim (Bool-cases (j == uid)) [
          | inl ju ↦
              rw (kh, ju)
                (omega (
                  arith,
                  c.linked j k,
                  users,
                  rw kh at (more k),
                  rw ju at (occurs-append j dl.users (uid ∷ [])),
                  ap (λ u. times k (queue_of s u)) ((==_iff j uid).0 ju),
                ))
          | inr other ↦
              rw (kh, other)
                (omega
                  (arith, c.linked j k, users, rw other at (occurs-append j dl.users (uid ∷ []))))
        ]
    | inr other ↦ elim (Bool-cases (j == uid)) [
      | inl ju ↦
          rw (other, ju)
            (omega (
              arith,
              c.linked j k,
              rw other at (more k),
              ap (λ u. times k (queue_of s u)) ((==_iff j uid).0 ju),
            ))
      | inr another ↦ rw (other, another) (c.linked j k)
    ]
  ]

  -- A user who does not have the item yet is added.
  pub dl_user_add-IsConsistent :
      (s : Queue)
      → IsConsistent s
      → (h uid error : ℕ) → occurs uid (users_of s h) ≡ 0
      → IsConsistent (dl_user_add insert_sorted strcmp h uid error s)
  unfolding dl_user_add
  dl_user_add-IsConsistent s c h uid error absent = elim (Option-cases (s.dls h)) [
    | inl missing ↦ rw (dl_user_add, missing) c
    | inr (dl, found_dl) ↦ elim (Bool-cases (dl.islist && not (is_empty dl.users))) [
      | inl refused ↦ rw (dl_user_add, found_dl, refused) c
      | inr taken ↦
          let du = user_or_new s uid in
          let dud : UserDl = record { dl = h; error = error } in
          let q = insert_sorted (dl_user_dl_sort strcmp s.dls) dud du.queue in
          let more = law.inserts (dl_user_dl_sort strcmp s.dls) dud du.queue in
          rw (dl_user_add, found_dl, taken)
            (set-IsConsistent s uid h (record du { queue = q })
              (record dl { users = dl.users ++ uid ∷ [] }) c
              (links s c h uid dl q found_dl (λ k.
                more k
                ∙ ap (λ t. (if k == h then 1 else 0) + t)
                    (ap (times k) (sym (queue_user_in (s.users uid))))))
              (λ j. append-once s c h uid dl found_dl absent j)
              (longer-IsSteady du q (λ k. omega (arith, more k))
                (user_in-IsSteady (s.users uid) (λ v e. c.steady uid v e)))
              (λ _. times-no_items q h (rw (more h, ==-self h) (omega arith))))
    ]
  ]
