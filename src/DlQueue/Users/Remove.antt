-- ===== src/DlQueue/Users/Remove.antt =====
-- src/dl.c: `dl_user_add` and `dl_user_rm` keep the links.
use ncdc.Prelude.{
  some_injective, none-some, true-false, ℕ, zero, suc, List, [], ◌∷◌, ◌++◌, Bool-cases, inl, inr,
  true, false, Option, Option-cases, none, some, ◌==◌, ==_iff, ==-self, if◌then◌else◌, ◌≡◌, refl,
  sym, ap, subst, ◌∙◌, ◌+◌, ◌≤◌, arith,
}
use ncdc.DlQueue.{
  Dl, UserDl, User, Queue, wai, set_dl, is_none, settle, to_state, dl_user_setstate, dl_user_cc,
}
use ncdc.DlQueue.Users.{
  times, occurs, remove_item, last_or, but_last, remove_index_fast, nth, users_of, queue_of,
  users_in, queue_in, is_active, unlink, dl_user_rm,
}
use ncdc.DlQueue.Users.Links.{
  IsSteady, IsConsistent, assign-in, assign_self, to_state-idle, settle-IsConsistent_by,
  dl_user_cc-IsConsistent,
}

pub occurs-append : (j : ℕ) (xs ys : List ℕ) → occurs j (xs ++ ys) ≡ occurs j xs + occurs j ys
occurs-append j [] ys = omega arith
occurs-append j (x ∷ xs) ys = omega (arith, occurs-append j xs ys)

occurs-last :
    (j x : ℕ) (xs : List ℕ) → occurs j (last_or x xs ∷ but_last (x ∷ xs)) ≡ occurs j (x ∷ xs)
occurs-last j x [] = refl
occurs-last j x (y ∷ ys) = omega (arith, occurs-last j y ys)

-- Removing an element leaves the others as often as they were.
occurs-remove_index_fast :
    (j i uid : ℕ) (xs : List ℕ)
    → nth i xs ≡ some uid
    → (if j == uid then 1 else 0) + occurs j (remove_index_fast i xs) ≡ occurs j xs
occurs-remove_index_fast j i uid [] e = absurd (none-some e)
occurs-remove_index_fast j zero uid (x ∷ []) e = rw (sym (some_injective e)) refl
occurs-remove_index_fast j zero uid (x ∷ y ∷ ys) e =
    rw (sym (some_injective e)) (omega (arith, occurs-last j y ys))
occurs-remove_index_fast j (suc i) uid (x ∷ xs) e =
    omega (arith, occurs-remove_index_fast j i uid xs e)

times-remove_item :
    (h k : ℕ) (q : List UserDl)
    → 1 ≤ times h q
    → (if k == h then 1 else 0) + times k (remove_item h q) ≡ times k q
times-remove_item h k [] one = absurd (omega arith)
times-remove_item h k (x ∷ q) one = elim (Bool-cases (h == x.dl)) [
  | inl same ↦ rw (same, (==_iff h x.dl).0 same) refl
  | inr other ↦ rw other (omega (arith, times-remove_item h k q (omega (arith, rw other at one))))
]

pub nth-occurs : (i uid : ℕ) (xs : List ℕ) → nth i xs ≡ some uid → 1 ≤ occurs uid xs
nth-occurs i uid [] e = absurd (none-some e)
nth-occurs zero uid (x ∷ xs) e = rw (some_injective e, ==-self uid) (omega arith)
nth-occurs (suc i) uid (x ∷ xs) e = omega (arith, nth-occurs i uid xs e)

-- The users and the queue that a key names.
pub users_at :
    (s : Queue) (h k : ℕ) (dl : Dl) → s.dls h ≡ some dl → (k == h) ≡ true → users_of s k ≡ dl.users
users_at s h k dl found same = ap users_in (ap s.dls ((==_iff k h).0 same) ∙ found)

pub queue_at :
    (s : Queue) (uid j : ℕ) (du : User)
    → s.users uid ≡ some du
    → (j == uid) ≡ true
    → queue_of s j ≡ du.queue
queue_at s uid j du found same = ap queue_in (ap s.users ((==_iff j uid).0 same) ∙ found)

module _ (s : Queue) (c : IsConsistent s) where
  module _ (h i uid : ℕ) (dl : Dl) (du : User) (found_dl : s.dls h ≡ some dl)
      (found_du : s.users uid ≡ some du) (at : nth i dl.users ≡ some uid) where
    in_queue : 1 ≤ times h du.queue
    in_queue = omega (
      arith,
      nth-occurs i uid dl.users at,
      c.linked uid h,
      ap (occurs uid) (users_at s h h dl found_dl (==-self h)),
      ap (times h) (queue_at s uid uid du found_du (==-self uid)),
    )

    unlink-links :
        (j k : ℕ)
        → occurs j (if k == h then remove_index_fast i dl.users else users_of s k)
          ≡ times k (if j == uid then remove_item h du.queue else queue_of s j)
    unlink-links j k = elim (Bool-cases (k == h)) [
      | inl kh ↦ elim (Bool-cases (j == uid)) [
        | inl ju ↦
            rw (kh, ju)
              (omega (
                arith,
                c.linked j k,
                ap (occurs j) (users_at s h k dl found_dl kh),
                ap (times k) (queue_at s uid j du found_du ju),
                rw ju at (occurs-remove_index_fast j i uid dl.users at),
                rw kh at (times-remove_item h k du.queue in_queue),
              ))
        | inr other ↦
            rw (kh, other)
              (omega (
                arith,
                c.linked j k,
                ap (occurs j) (users_at s h k dl found_dl kh),
                rw other at (occurs-remove_index_fast j i uid dl.users at),
              ))
      ]
      | inr other ↦ elim (Bool-cases (j == uid)) [
        | inl ju ↦
            rw (other, ju)
              (omega (
                arith,
                c.linked j k,
                ap (times k) (queue_at s uid j du found_du ju),
                rw other at (times-remove_item h k du.queue in_queue),
              ))
        | inr another ↦ rw (other, another) (c.linked j k)
      ]
    ]

    unlink-once :
        (j k : ℕ) → occurs j (if k == h then remove_index_fast i dl.users else users_of s k) ≤ 1
    unlink-once j k = elim (Bool-cases (k == h)) [
      | inl kh ↦ rw kh (
          omega (
            arith,
            c.once j k,
            ap (occurs j) (users_at s h k dl found_dl kh),
            occurs-remove_index_fast j i uid dl.users at,
          ))
      | inr other ↦ rw other (c.once j k)
    ]

    unlink-IsSteady :
        is_active h du.active ≡ false → IsSteady (record du { queue = remove_item h du.queue })
    unlink-IsSteady other =
        let steady = c.steady uid du found_du in
        record {
          connected = steady.connected;
          downloading = steady.downloading;
          queued = λ k a. omega (
            arith,
            steady.queued k a,
            rw (differs du.active k a other) at (times-remove_item h k du.queue in_queue),
          );
          timed = steady.timed;
        }
      where
        differs :
            (a : Option ℕ) (k : ℕ) → is_active k a ≡ true → is_active h a ≡ false → (k == h) ≡ false
        differs none k e e' = absurd (true-false (sym e))
        differs (some x) k e e' = ground (arith, e, e')

    unlink-IsConsistent : is_active h du.active ≡ false → IsConsistent (unlink h i uid s)
    unfolding unlink
    unlink-IsConsistent other =
        let s' = set_dl s h (some (record dl { users = remove_index_fast i dl.users })) in
        let du' : User = record du { queue = remove_item h du.queue } in
        let users' =
          assign-in users_in s.dls h (some (record dl { users = remove_index_fast i dl.users })) in
        rw (unlink, found_dl, found_du, other)
          (settle-IsConsistent_by s' uid du' (λ j k. ap (occurs j) (users' k) ∙ unlink-links j k)
            (λ j k. subst (λ l. occurs j l ≤ 1) (sym (users' k)) (unlink-once j k))
            (λ j v e. (c.steady j v e, c.useful j v e)) (unlink-IsSteady other))

module _ (s : Queue) (c : IsConsistent s) where
  -- A user whose connection is lost waits, and downloads nothing.
  pub dl_user_cc-lost :
      (uid : ℕ) (du : User)
      → s.users uid ≡ some du
      → (du' : User) × ((dl_user_cc uid none s).users uid ≡ some du')
        × ((h : ℕ) → is_active h du'.active ≡ false)
        × ((h : ℕ) → (dl_user_cc uid none s).dls h ≡ s.dls h)
  unfolding dl_user_cc dl_user_setstate settle to_state
  dl_user_cc-lost uid du found =
      let du' = to_state (record du { cc = none }) wai in
      (
        du',
        rw (dl_user_cc, found) (assign_self s.users uid (some du')),
        (λ h. inactive h du'.active (to_state-idle du none wai (c.steady uid du found) refl)),
        λ h. rw (dl_user_cc, found) refl,
      )
    where
      inactive : (h : ℕ) (a : Option ℕ) → is_none a ≡ true → is_active h a ≡ false
      inactive h none e = refl
      inactive h (some x) e = absurd (true-false (sym e))

  unlink-disconnected :
      (h i uid : ℕ) (dl : Dl) (du : User)
      → (dl_user_cc uid none s).dls h ≡ some dl
      → (dl_user_cc uid none s).users uid ≡ some du
      → nth i dl.users ≡ some uid
      → is_active h du.active ≡ false
      → IsConsistent (unlink h i uid (dl_user_cc uid none s))
  unlink-disconnected h i uid dl du found_dl found_du at other =
      unlink-IsConsistent (dl_user_cc uid none s) (dl_user_cc-IsConsistent s c uid none) h i uid dl
        du found_dl found_du at other

  pub dl_user_rm-IsConsistent : (h i : ℕ) → IsConsistent (dl_user_rm h i s)
  unfolding dl_user_rm
  dl_user_rm-IsConsistent h i = elim (Option-cases (s.dls h)) [
    | inl missing ↦ rw (dl_user_rm, missing) c
    | inr (dl, found_dl) ↦ elim (Option-cases (nth i dl.users)) [
      | inl missing ↦ rw (dl_user_rm, found_dl, missing) c
      | inr (uid, at) ↦ elim (Option-cases (s.users uid)) [
        | inl missing ↦ rw (dl_user_rm, found_dl, at, missing) c
        | inr (du, found_du) ↦ elim (Bool-cases (is_active h du.active)) [
          | inr other ↦
              rw (dl_user_rm, found_dl, at, found_du, other)
                (unlink-IsConsistent s c h i uid dl du found_dl found_du at other)
          | inl active ↦
              let (du', found', inactive, same) = dl_user_cc-lost uid du found_du in
              rw (dl_user_rm, found_dl, at, found_du, active)
                (unlink-disconnected h i uid dl du' (same h ∙ found_dl) found' at (inactive h))
        ]
      ]
    ]
  ]
