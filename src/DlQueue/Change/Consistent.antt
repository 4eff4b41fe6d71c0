-- ===== src/DlQueue/Change/Consistent.antt =====
-- src/dl.c: `dl_queue_rm` and `dl_queue_rmuser` keep the links.
use ncdc.Prelude.{
  none-some, ℕ, zero, suc, List, [], ◌∷◌, Bool, Bool-cases, inl, inr, true, false, ◌&&◌, Option,
  Option-cases, none, some, ◌==◌, ==_iff, ==-self, if◌then◌else◌, is_empty, length, ◌≡◌, refl, sym,
  ap, subst, ◌∙◌, ◌≤◌, arith,
}
use ncdc.DlQueue.{Dl, UserDl, User, Queue, set_dl}
use ncdc.DlQueue.Users.{
  times, occurs, remove_index_fast, but_last, nth, index_of, users_of, queue_of, queue_in, users_in,
  is_active, disconnect, unlink, dl_user_rm,
}
use ncdc.DlQueue.Users.Links.{IsConsistent, assign-in, settle-users_of}
use ncdc.DlQueue.Users.Remove.{nth-occurs, users_at, dl_user_cc-lost, dl_user_rm-IsConsistent}
use ncdc.DlQueue.Change.{rm_users, dl_queue_rm, rm_from, rm_from_all, dl_queue_rmuser}

-- An item that is replaced by one with the same users.
pub set_dl-IsConsistent :
    (s : Queue)
    → IsConsistent s
    → (h : ℕ) (o : Option Dl) → users_in o ≡ users_of s h
    → IsConsistent (set_dl s h o)
set_dl-IsConsistent s c h o same = record {
  linked = λ j k. ap (occurs j) (users k) ∙ c.linked j k;
  once = λ j k. subst (λ l. occurs j l ≤ 1) (sym (users k)) (c.once j k);
  steady = c.steady;
  useful = c.useful;
}
  where
    users : (k : ℕ) → users_of (set_dl s h o) k ≡ users_of s k
    users k = elim (Bool-cases (k == h)) [
      | inl here ↦ rw here (same ∙ ap (users_of s) (sym ((==_iff k h).0 here)))
      | inr other ↦ rw other refl
    ]

unlink-users_of :
    (s : Queue) (h i uid : ℕ) (dl : Dl) (du : User)
    → s.dls h ≡ some dl
    → s.users uid ≡ some du
    → (k : ℕ)
    → users_of (unlink h i uid s) k
      ≡ (if k == h then remove_index_fast i dl.users else users_of s k)
unfolding unlink
unlink-users_of s h i uid dl du found_dl found_du k =
    let s' = set_dl s h (some (record dl { users = remove_index_fast i dl.users })) in
    rw (unlink, found_dl, found_du)
      (settle-users_of s' uid _ k
        ∙ assign-in users_in s.dls h (some (record dl { users = remove_index_fast i dl.users })) k)

nth-length :
    (i uid : ℕ) (xs : List ℕ)
    → nth i xs ≡ some uid
    → suc (length (remove_index_fast i xs)) ≡ length xs
nth-length i uid [] e = absurd (none-some e)
nth-length zero uid (x ∷ []) e = refl
nth-length zero uid (x ∷ y ∷ ys) e = ap (λ n. suc (suc n)) (length-but_last y ys)
  where
    length-but_last : (y : ℕ) (ys : List ℕ) → length (but_last (y ∷ ys)) ≡ length ys
    length-but_last y [] = refl
    length-but_last y (z ∷ zs) = ap suc (length-but_last z zs)
nth-length (suc i) uid (x ∷ xs) e = ap suc (nth-length i uid xs e)

some_user : (o : Option User) (h : ℕ) → 1 ≤ times h (queue_in o) → (du : User) × (o ≡ some du)
some_user none h e = absurd (omega arith)
some_user (some du) h e = (du, refl)

module _ (s : Queue) (c : IsConsistent s) where
  -- A user of an item is one of the users of the queue.
  linked_user :
      (h i uid : ℕ) (dl : Dl)
      → s.dls h ≡ some dl
      → nth i dl.users ≡ some uid
      → (du : User) × (s.users uid ≡ some du)
  linked_user h i uid dl found at = some_user (s.users uid) h (
      omega (
        arith,
        nth-occurs i uid dl.users at,
        c.linked uid h,
        ap (occurs uid) (users_at s h h dl found (==-self h)),
      ))

  -- Only the users of the item change, by the one that is removed.
  pub dl_user_rm-users_of :
      (h i uid : ℕ) (dl : Dl)
      → s.dls h ≡ some dl
      → nth i dl.users ≡ some uid
      → (k : ℕ)
      → users_of (dl_user_rm h i s) k
        ≡ (if k == h then remove_index_fast i dl.users else users_of s k)
  unfolding dl_user_rm
  dl_user_rm-users_of h i uid dl found_dl at k =
      let (du, found_du) = linked_user h i uid dl found_dl at in
      elim (Bool-cases (is_active h du.active)) [
        | inr other ↦
            rw (dl_user_rm, found_dl, at, found_du, other)
              (unlink-users_of s h i uid dl du found_dl found_du k)
        | inl active ↦
            let (du', found', inactive, same) = dl_user_cc-lost s c uid du found_du in
            rw (dl_user_rm, found_dl, at, found_du, active)
              (unlink-users_of (disconnect uid s) h i uid dl du' (same h ∙ found_dl) found' k
                ∙ ap (λ o. if k == h then remove_index_fast i dl.users else users_in o) (same k))
      ]

nth-empty : (xs : List ℕ) → nth 0 xs ≡ none → xs ≡ []
nth-empty [] e = refl
nth-empty (x ∷ xs) e = absurd (none-some (sym e))

-- Without users there is nothing to do.
rm_users-empty : (fuel h : ℕ) (s : Queue) → users_of s h ≡ [] → rm_users fuel h s ≡ s
unfolding rm_users dl_user_rm
rm_users-empty zero h s e = refl
rm_users-empty (suc fuel) h s e = (ap (rm_users fuel h) idle ∙ rm_users-empty fuel h s e)
  where
    idle : dl_user_rm h 0 s ≡ s
    idle = elim (Option-cases (s.dls h)) [
      | inl missing ↦ rw (dl_user_rm, missing) refl
      | inr (dl, found) ↦ rw (dl_user_rm, found, sym (users_at s h h dl found (==-self h)) ∙ e) refl
    ]

-- With enough fuel all users of the item leave it, and the other items keep theirs.
pub record IsRemoved (s s' : Queue) (h : ℕ) : Type 0 where
  pub consistent : IsConsistent s'
  pub emptied : users_of s' h ≡ []
  pub others : (k : ℕ) → (k == h) ≡ false → users_of s' k ≡ users_of s k

pub rm_users-IsRemoved :
    (fuel h : ℕ) (s : Queue)
    → IsConsistent s
    → length (users_of s h) ≤ fuel
    → IsRemoved s (rm_users fuel h s) h
unfolding rm_users
rm_users-IsRemoved zero h s c enough = (record {
  consistent = c;
  emptied = no_users (users_of s h) enough;
  others = λ k e. refl;
})
  where
    no_users : (xs : List ℕ) → length xs ≤ 0 → xs ≡ []
    no_users [] e = refl
    no_users (x ∷ xs) e = absurd (omega (arith, e))
rm_users-IsRemoved (suc fuel) h s c enough = elim (Option-cases (s.dls h)) [
  | inl missing ↦ stays (ap users_in missing)
  | inr (dl, found) ↦ elim (Option-cases (nth 0 dl.users)) [
    | inl nobody ↦ stays (users_at s h h dl found (==-self h) ∙ nth-empty dl.users nobody)
    | inr (uid, at) ↦
        let users = dl_user_rm-users_of s c h 0 uid dl found at in
        let rest = rm_users-IsRemoved fuel h (dl_user_rm h 0 s) (dl_user_rm-IsConsistent s c h 0) (
          shorter uid dl at (rw (==-self h) at (users h))
            (ap length (users_at s h h dl found (==-self h)))) in
        (record {
          consistent = rest.consistent;
          emptied = rest.emptied;
          others = λ k e. rest.others k e ∙ users k ∙ rw e refl;
        })
  ]
]
  where
    stays : users_of s h ≡ [] → IsRemoved s (rm_users (suc fuel) h s) h
    stays e =
        subst (λ s'. IsRemoved s s' h) (sym (rm_users-empty (suc fuel) h s e))
          (record { consistent = c; emptied = e; others = λ k e. refl })

    shorter :
        (uid : ℕ) (dl : Dl)
        → nth 0 dl.users ≡ some uid
        → users_of (dl_user_rm h 0 s) h ≡ remove_index_fast 0 dl.users
        → length (users_of s h) ≡ length dl.users
        → length (users_of (dl_user_rm h 0 s) h) ≤ fuel
    shorter uid dl at users before =
        omega (arith, enough, before, ap length users, nth-length 0 uid dl.users at)

pub dl_queue_rm-IsConsistent :
    (s : Queue) → IsConsistent s → (h : ℕ) → IsConsistent (dl_queue_rm h s)
unfolding dl_queue_rm
dl_queue_rm-IsConsistent s c h =
    let all = rm_users-IsRemoved (length (users_of s h)) h s c (omega arith) in
    (set_dl-IsConsistent (rm_users (length (users_of s h)) h s) all.consistent h none
      (sym all.emptied))

-- An item that is removed is in no user's queue any more, and every other item keeps its users and stays in
-- their queues as often as it was.
pub dl_queue_rm_lem :
    (s : Queue)
    → IsConsistent s
    → (h : ℕ)
    → ((uid : ℕ) → times h (queue_of (dl_queue_rm h s) uid) ≡ 0)
      × ((k : ℕ)
          → (k == h) ≡ false
          → (users_of (dl_queue_rm h s) k ≡ users_of s k)
            × ((uid : ℕ) → times k (queue_of (dl_queue_rm h s) uid) ≡ times k (queue_of s uid)))
unfolding dl_queue_rm
dl_queue_rm_lem s c h =
    let s' = rm_users (length (users_of s h)) h s in
    let all = rm_users-IsRemoved (length (users_of s h)) h s c (omega arith) in
    (
      (λ uid. sym (all.consistent.linked uid h) ∙ ap (occurs uid) all.emptied),
      λ k other. (
        rw other (all.others k other),
        λ uid.
            sym (all.consistent.linked uid k)
            ∙ ap (occurs uid) (all.others k other)
            ∙ c.linked uid k,
      ),
    )

rm_from-IsConsistent : (uid h : ℕ) (s : Queue) → IsConsistent s → IsConsistent (rm_from uid h s)
unfolding rm_from
rm_from-IsConsistent uid h s c = elim (Option-cases (s.dls h)) [
  | inl missing ↦ rw (rm_from, missing) c
  | inr (dl, found) ↦ elim (Option-cases (index_of uid dl.users)) [
    | inl absent ↦ rw (rm_from, found, absent) (list_rm s c (dl.islist && is_empty (users_of s h)))
    | inr (i, at) ↦
        let s' = dl_user_rm h i s in
        rw (rm_from, found, at)
          (list_rm s' (dl_user_rm-IsConsistent s c h i) (dl.islist && is_empty (users_of s' h)))
  ]
]
  where
    list_rm :
        (s' : Queue)
        → IsConsistent s'
        → (b : Bool) → IsConsistent (if b then dl_queue_rm h s' else s')
    list_rm s' c' true = dl_queue_rm-IsConsistent s' c' h
    list_rm s' c' false = c'

rm_from_all-IsConsistent :
    (uid : ℕ) (q : List UserDl) (s : Queue) → IsConsistent s → IsConsistent (rm_from_all uid q s)
unfolding rm_from_all
rm_from_all-IsConsistent uid [] s c = c
rm_from_all-IsConsistent uid (x ∷ xs) s c =
    rm_from_all-IsConsistent uid xs (rm_from uid x.dl s) (rm_from-IsConsistent uid x.dl s c)

pub dl_queue_rmuser-IsConsistent :
    (s : Queue)
    → IsConsistent s
    → (uid : ℕ) (tth : Option ℕ) → IsConsistent (dl_queue_rmuser uid tth s)
unfolding dl_queue_rmuser
dl_queue_rmuser-IsConsistent s c uid tth = elim (Option-cases (s.users uid)) [
  | inl missing ↦ rw (dl_queue_rmuser, missing) c
  | inr (du, found) ↦ elim (Option-cases tth) [
    | inl all ↦ rw (dl_queue_rmuser, found, all) (rm_from_all-IsConsistent uid du.queue s c)
    | inr (h, one) ↦ rw (dl_queue_rmuser, found, one) (rm_from-IsConsistent uid h s c)
  ]
]
