-- ===== src/DlQueue/Change/Additions.antt =====
-- src/dl.c: the operations that add to the queue keep the links.
use Prim.Native.Nat.{Ordering}
use ncdc.Prelude.{
  true-false, ℕ, suc, List, [], ◌∷◌, Bool-cases, inl, inr, true, false, Option, Option-cases, none,
  some, ◌==◌, ==-self, Bytes, ◌≡◌, refl, sym, ap, ◌∙◌, arith,
}
use ncdc.DlQueue.{Dl, UserDl, Queue, set_dl, is_none, dl_queue_start}
use ncdc.DlQueue.Users.{occurs, users_of, users_in, dl_user_add, index_of}
use ncdc.DlQueue.Users.Links.{IsConsistent, assign_self}
use ncdc.DlQueue.Users.Remove.{users_at}
use ncdc.DlQueue.Users.Insert.{IsInsert, dl_user_add-IsConsistent}
use ncdc.DlQueue.Change.{
  dl_queue_insert, empty_dl, dl_queue_addlist, dl_queue_addfile, dl_queue_matchfile, dl_queue_rm,
}
use ncdc.DlQueue.Change.Consistent.{set_dl-IsConsistent, dl_queue_rm-IsConsistent}

pub start-IsConsistent : (s : Queue) → IsConsistent s → IsConsistent (dl_queue_start s)
start-IsConsistent s c = record {
  linked = c.linked;
  once = c.once;
  steady = c.steady;
  useful = c.useful;
}

no_users_yet : (s : Queue) (h : ℕ) → is_none (s.dls h) ≡ true → users_of s h ≡ []
no_users_yet s h e = none_users (s.dls h) e
  where
    none_users : (o : Option Dl) → is_none o ≡ true → users_in o ≡ []
    none_users none e = refl
    none_users (some dl) e = absurd (true-false (sym e))

-- A new item has no users, and is in no queue.
dl_queue_insert-IsConsistent :
    (s : Queue)
    → IsConsistent s
    → (h : ℕ) (dl : Dl) → is_none (s.dls h) ≡ true
    → IsConsistent (dl_queue_insert h dl false s) × (users_of (dl_queue_insert h dl false s) h ≡ [])
unfolding dl_queue_insert
dl_queue_insert-IsConsistent s c h dl new = (
  start-IsConsistent (set_dl s h _) (set_dl-IsConsistent s c h _ (sym (no_users_yet s h new))),
  ap users_in (assign_self s.dls h _),
)

index_of-none : (uid : ℕ) (xs : List ℕ) → is_none (index_of uid xs) ≡ true → occurs uid xs ≡ 0
index_of-none uid [] e = refl
index_of-none uid (x ∷ xs) e = elim (Bool-cases (uid == x)) [
  | inl same ↦ absurd (true-false (sym (rw same at e)))
  | inr other ↦
      rw other (omega (arith, index_of-none uid xs (behind (index_of uid xs) (rw other at e))))
]
  where
    behind :
        (o : Option ℕ)
        → is_none (elim o as (λ _. Option ℕ) [ none ↦ none | some i ↦ some (suc i) ]) ≡ true
        → is_none o ≡ true
    behind none e = refl
    behind (some i) e = absurd (true-false (sym e))

module _ (insert_sorted : (UserDl → UserDl → Ordering) → UserDl → List UserDl → List UserDl)
    (strcmp : Bytes → Bytes → Ordering) (law : IsInsert insert_sorted) where
  added :
      (s : Queue)
      → IsConsistent s
      → (h uid : ℕ) (dl : Dl) → is_none (s.dls h) ≡ true
      → IsConsistent (dl_user_add insert_sorted strcmp h uid 0 (dl_queue_insert h dl false s))
  added s c h uid dl new =
      let (c', nobody) = dl_queue_insert-IsConsistent s c h dl new in
      dl_user_add-IsConsistent insert_sorted strcmp law (dl_queue_insert h dl false s) c' h uid 0
        (ap (occurs uid) nobody)

  pub dl_queue_addlist-IsConsistent :
      (s : Queue)
      → IsConsistent s
      → (h uid : ℕ) (dest : Bytes)
      → IsConsistent (dl_queue_addlist insert_sorted strcmp h uid dest s)
  unfolding dl_queue_addlist
  dl_queue_addlist-IsConsistent s c h uid dest = elim (Bool-cases (is_none (s.dls h))) [
    | inl new ↦ rw new (added s c h uid (empty_dl true 0 dest) new)
    | inr old ↦ rw old c
  ]

  pub dl_queue_addfile-IsConsistent :
      (s : Queue)
      → IsConsistent s
      → (uid h size : ℕ) (dest : Bytes)
      → IsConsistent (dl_queue_addfile insert_sorted strcmp dl_queue_rm uid h size dest s).1
  unfolding dl_queue_addfile
  dl_queue_addfile-IsConsistent s c uid h size dest = elim (Bool-cases (is_none (s.dls h))) [
    | inr old ↦ rw old c
    | inl new ↦
        let c' = added s c h uid (empty_dl false size dest) new in
        elim (Bool-cases (size == 0)) [
          | inl nothing ↦ rw (new, nothing) (dl_queue_rm-IsConsistent _ c' h)
          | inr more ↦ rw (new, more) c'
        ]
  ]

  pub dl_queue_matchfile-IsConsistent :
      (s : Queue)
      → IsConsistent s
      → (uid h : ℕ) → IsConsistent (dl_queue_matchfile insert_sorted strcmp uid h s).1
  unfolding dl_queue_matchfile
  dl_queue_matchfile-IsConsistent s c uid h = elim (Option-cases (s.dls h)) [
    | inl missing ↦ rw (dl_queue_matchfile, missing) c
    | inr (dl, found) ↦ elim (Bool-cases (is_none (index_of uid dl.users))) [
      | inr there ↦ rw (dl_queue_matchfile, found, there) c
      | inl absent ↦
          rw (dl_queue_matchfile, found, absent)
            (start-IsConsistent _ (
              dl_user_add-IsConsistent insert_sorted strcmp law s c h uid 0 (
                ap (occurs uid) (users_at s h h dl found (==-self h))
                ∙ index_of-none uid dl.users absent)))
    ]
  ]
