-- ===== src/DlQueue/Change/Sorting.antt =====
-- src/dl.c: the operations that change a priority or set an error, and sort again, keep the links.
use Prim.Native.Nat.{Ordering}
use ncdc.Prelude.{
  true-false, ℕ, List, [], ◌∷◌, Bool, Bool-cases, inl, inr, true, false, not, ◌&&◌, ◌||◌, Option,
  Option-cases, some, some_injective, ◌==◌, ==_iff, ==-self, if◌then◌else◌, leb, ltb, Bytes, map,
  ◌≡◌, refl, sym, ap, subst, ◌∙◌, arith,
}
use ncdc.DlQueue.{
  UserDl, User, Queue, Prio, failed, rank, set_user, is_none, no_items, dl_queue_start,
  dl_user_dl_sort,
}
use ncdc.DlQueue.Users.{times, queue_of, queue_in, index_of}
use ncdc.DlQueue.Users.Links.{IsSteady, IsUseful, IsConsistent, assign-in}
use ncdc.DlQueue.Users.Remove.{users_at}
use ncdc.DlQueue.Users.Insert.{longer-IsSteady, times-no_items}
use ncdc.DlQueue.Change.{
  dl_queue_rm, resort, resort_all, dl_queue_setprio, dl_queue_seterr, set_error, dl_queue_setuerr,
}
use ncdc.DlQueue.Change.Consistent.{set_dl-IsConsistent, dl_queue_rm-IsConsistent}
use ncdc.DlQueue.Change.Additions.{start-IsConsistent}

still_items :
    (p q : List UserDl)
    → ((k : ℕ) → times k q ≡ times k p)
    → no_items p ≡ false
    → no_items q ≡ false
still_items [] q same e = absurd (true-false e)
still_items (x ∷ p) q same e = times-no_items q x.dl (rw (same x.dl, ==-self x.dl) (omega arith))

-- The queue of a user in another order, or with other errors.
requeue-IsConsistent :
    (s : Queue)
    → IsConsistent s
    → (uid : ℕ) (du : User) (q : List UserDl) → s.users uid ≡ some du
    → ((k : ℕ) → times k q ≡ times k du.queue)
    → IsConsistent (set_user s uid (some (record du { queue = q })))
requeue-IsConsistent s c uid du q found same = record {
  linked = λ j k.
      c.linked j k
      ∙ sym (
          ap (times k) (assign-in queue_in s.users uid (some (record du { queue = q })) j)
          ∙ at j k);
  once = c.once;
  steady = λ j v e. elim (Bool-cases (j == uid)) [
    | inl here ↦
        subst IsSteady (some_injective (rw here at e))
          (longer-IsSteady du q (λ k. omega (arith, same k)) (c.steady uid du found))
    | inr other ↦ c.steady j v (rw other at e)
  ];
  useful = λ j v e. elim (Bool-cases (j == uid)) [
    | inl here ↦
        subst IsUseful (some_injective (rw here at e))
          (λ n. still_items du.queue q same (c.useful uid du found n))
    | inr other ↦ c.useful j v (rw other at e)
  ];
}
  where
    at : (j k : ℕ) → times k (if j == uid then q else queue_of s j) ≡ times k (queue_of s j)
    at j k = elim (Bool-cases (j == uid)) [
      | inr other ↦ rw other refl
      | inl here ↦
          rw here
            (same k ∙ ap (times k) (sym (ap queue_in (ap s.users ((==_iff j uid).0 here) ∙ found))))
    ]

times-set_error : (h e : ℕ) (q : List UserDl) (k : ℕ) → times k (set_error h e q) ≡ times k q
unfolding set_error
times-set_error h e [] k = refl
times-set_error h e (x ∷ q) k = elim (Bool-cases (h == x.dl)) [
  | inl here ↦ rw here refl
  | inr other ↦ rw other (omega (arith, times-set_error h e q k))
]

times-map_error :
    (e : ℕ) (q : List UserDl) (k : ℕ)
    → times k (map {A = UserDl} (λ x. record x { error = e }) q) ≡ times k q
times-map_error e [] k = refl
times-map_error e (x ∷ q) k = omega (arith, times-map_error e q k)

-- What is documented of `g_sequence_sort_changed` and `g_sequence_sort`: no item comes or goes.
pub record IsSort (sort_changed : (UserDl → UserDl → Ordering) → ℕ → List UserDl → List UserDl)
    (sort : (UserDl → UserDl → Ordering) → List UserDl → List UserDl) : Type 0 where
  pub keeps_changed :
      (c : UserDl → UserDl → Ordering) (h : ℕ) (q : List UserDl) (k : ℕ)
      → times k (sort_changed c h q) ≡ times k q
  pub keeps :
      (c : UserDl → UserDl → Ordering) (q : List UserDl) (k : ℕ) → times k (sort c q) ≡ times k q

module _ (sort_changed : (UserDl → UserDl → Ordering) → ℕ → List UserDl → List UserDl)
    (sort : (UserDl → UserDl → Ordering) → List UserDl → List UserDl)
    (strcmp : Bytes → Bytes → Ordering) (law : IsSort sort_changed sort) where
  resort-IsConsistent :
      (s : Queue)
      → IsConsistent s
      → (h uid : ℕ) → IsConsistent (resort sort_changed sort strcmp dl_queue_rm h uid s)
  unfolding resort
  resort-IsConsistent s c h uid = elim (Option-cases (s.users uid)) [
    | inl missing ↦ rw (resort, missing) c
    | inr (du, found) ↦
        rw (resort, found)
          (requeue-IsConsistent s c uid du _ found
            (law.keeps_changed (dl_user_dl_sort strcmp s.dls) h du.queue))
  ]

  resort_all-IsConsistent :
      (h : ℕ) (uids : List ℕ) (s : Queue)
      → IsConsistent s
      → IsConsistent (resort_all sort_changed sort strcmp dl_queue_rm h uids s)
  unfolding resort_all
  resort_all-IsConsistent h [] s c = c
  resort_all-IsConsistent h (uid ∷ uids) s c =
      resort_all-IsConsistent h uids _ (resort-IsConsistent s c h uid)

  pub dl_queue_setprio-IsConsistent :
      (s : Queue)
      → IsConsistent s
      → (h : ℕ) (prio : Prio)
      → IsConsistent (dl_queue_setprio sort_changed sort strcmp dl_queue_rm h prio s)
  unfolding dl_queue_setprio
  dl_queue_setprio-IsConsistent s c h prio = elim (Option-cases (s.dls h)) [
    | inl missing ↦ rw (dl_queue_setprio, missing) c
    | inr (dl, found) ↦
        let changed =
          set_dl-IsConsistent s c h (some (record dl { prio = prio }))
            (sym (users_at s h h dl found (==-self h))) in
        let sorted = resort_all-IsConsistent h dl.users _ changed in
        rw (dl_queue_setprio, found)
          (ends _ sorted (leb (rank dl.prio) 1 && ltb 1 (rank prio))
            (dl.active_threads == 0 && ((dl.hassize || not dl.islist) && dl.have == dl.size)))
  ]
    where
      ends :
          (s' : Queue)
          → IsConsistent s'
          → (on all : Bool)
          → IsConsistent (if on then if all then dl_queue_rm h s' else dl_queue_start s' else s')
      ends s' c' true true = dl_queue_rm-IsConsistent s' c' h
      ends s' c' true false = start-IsConsistent s' c'
      ends s' c' false all = c'

  pub dl_queue_seterr-IsConsistent :
      (s : Queue)
      → IsConsistent s
      → (h e : ℕ) → IsConsistent (dl_queue_seterr sort_changed sort strcmp dl_queue_rm h e s)
  unfolding dl_queue_seterr
  dl_queue_seterr-IsConsistent s c h e = elim (Option-cases (s.dls h)) [
    | inl missing ↦ rw (dl_queue_seterr, missing) c
    | inr (dl, found) ↦
        rw (dl_queue_seterr, found)
          (dl_queue_setprio-IsConsistent _
            (set_dl-IsConsistent s c h (some (record dl { error = e }))
              (sym (users_at s h h dl found (==-self h))))
            h failed)
  ]

  pub dl_queue_setuerr-IsConsistent :
      (s : Queue)
      → IsConsistent s
      → (uid : ℕ) (tth : Option ℕ) (e : ℕ)
      → IsConsistent (dl_queue_setuerr sort_changed sort strcmp dl_queue_rm uid tth e s)
  unfolding dl_queue_setuerr
  dl_queue_setuerr-IsConsistent s c uid tth e = elim (Option-cases (s.users uid)) [
    | inl missing ↦ rw (dl_queue_setuerr, missing) c
    | inr (du, found) ↦ elim (Option-cases tth) [
      | inl all ↦
          rw (dl_queue_setuerr, found, all)
            (start-IsConsistent _ (
              requeue-IsConsistent s c uid du _ found (λ k.
                law.keeps (dl_user_dl_sort strcmp s.dls)
                  (map {A = UserDl} (λ x. record x { error = e }) du.queue) k
                ∙ times-map_error e du.queue k)))
      | inr (h, one) ↦ elim (Option-cases (s.dls h)) [
        | inl unknown ↦ rw (dl_queue_setuerr, found, one, unknown) c
        | inr (dl, known) ↦ elim (Bool-cases (is_none (index_of uid dl.users))) [
          | inl absent ↦ rw (dl_queue_setuerr, found, one, known, absent) (start-IsConsistent s c)
          | inr there ↦
              rw (dl_queue_setuerr, found, one, known, there)
                (start-IsConsistent _ (
                  resort-IsConsistent _
                    (requeue-IsConsistent s c uid du _ found (times-set_error h e du.queue)) h uid))
        ]
      ]
    ]
  ]
