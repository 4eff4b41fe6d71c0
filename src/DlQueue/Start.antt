-- ===== src/DlQueue/Start.antt =====
-- src/dl.c: `dl_queue_start_istarget` and `dl_queue_start_user`, which connect to a user or begin a download.
-- `online` says whether the user is on a hub that is logged in; what `hub_opencc` and `cc_download` do in
-- the end comes back as a later call.
use ncdc.Prelude.{
  true-false, ℕ, List, [], ◌∷◌, Bool, Bool-cases, inl, inr, true, false, not, ◌&&◌, ◌||◌, Option,
  Option-cases, none, some, some_injective, none-some, ◌==◌, ==_iff, if◌then◌else◌, ◌≡◌, refl, sym,
  ap, subst, ◌≤◌, arith,
}
use ncdc.DlQueue.{
  Dl, UserDl, User, Queue, expecting, act, is_nco, is_act, is_idle, is_none, to_state,
  dl_user_setstate, dl_user_getdl, dl_user_dl_enabled, allbusy_of,
}
use ncdc.DlQueue.Users.{times, is_active}
use ncdc.DlQueue.Users.Links.{
  IsSteady, IsConsistent, settle-IsConsistent, to_state-queue, to_state-IsSteady,
}

unfoldable pub dl_queue_start_istarget : Bool → (ℕ → Option Dl) → User → Bool
dl_queue_start_istarget online dls du =
    (is_nco du.state || is_idle du.state)
    && (not (is_none (dl_user_getdl dls du.queue)) && (if is_nco du.state then online else true))

-- Whether a download was begun.
unfoldable pub dl_queue_start_user : Bool → ℕ → Queue → Bool × Queue
unfolding dl_queue_start_istarget
dl_queue_start_user online uid s = elim (s.users uid) [
  | none ↦ (false, s)
  | some du ↦
      if not (dl_queue_start_istarget online s.dls du)
      then (false, s)
      else if is_nco du.state
      then (false, dl_user_setstate s uid du expecting)
      else elim (dl_user_getdl s.dls du.queue) [
        | none ↦ (false, s)
        | some dud ↦ (true, dl_user_setstate s uid (record du { active = some (dud.dl) }) act)
      ]
]

-- The item that is chosen stands in the queue of the user.
getdl-times :
    (dls : ℕ → Option Dl) (q : List UserDl) (x : UserDl)
    → dl_user_getdl dls q ≡ some x
    → 1 ≤ times x.dl q
unfolding dl_user_getdl
getdl-times dls [] x e = absurd (none-some e)
getdl-times dls (y ∷ q) x e =
    elim (Bool-cases (dl_user_dl_enabled dls y && not (allbusy_of dls y.dl))) [
      | inl found ↦
          let y_x : y ≡ x = some_injective (rw found at e) in
          let here : (x.dl == y.dl) ≡ true = (==_iff _ _).1 (ap (λ (u : UserDl). u.dl) (sym y_x)) in
          rw here (omega arith)
      | inr later ↦ omega (arith, getdl-times dls q x (rw later at e))
    ]

act-IsSteady :
    (du : User) (h : ℕ)
    → IsSteady du
    → is_idle du.state ≡ true
    → 1 ≤ times h du.queue
    → IsSteady (to_state (record du { active = some h }) act)
unfolding to_state
act-IsSteady du h steady idle has = record {
  connected = λ _. steady.connected (rw idle refl);
  downloading = λ _. refl;
  queued = λ k e. at k (is_act du.state) e;
  timed = ground (arith, steady.timed);
}
  where
    at :
        (k : ℕ) (b : Bool)
        → is_active k (if b && false then none else some h) ≡ true
        → 1 ≤ times k du.queue
    at k true e = subst (λ j. 1 ≤ times j du.queue) (sym ((==_iff k h).0 e)) has
    at k false e = subst (λ j. 1 ≤ times j du.queue) (sym ((==_iff k h).0 e)) has

idle_of : (n i r : Bool) → not ((n || i) && r) ≡ false → n ≡ false → i ≡ true
idle_of true i r e f = cc
idle_of false true r e f = refl
idle_of false false r e f = cc

pub dl_queue_start_user-IsConsistent :
    (s : Queue)
    → IsConsistent s
    → (online : Bool) (uid : ℕ) → IsConsistent (dl_queue_start_user online uid s).1
unfolding dl_queue_start_user dl_user_setstate
dl_queue_start_user-IsConsistent s c online uid = elim (Option-cases (s.users uid)) [
  | inl missing ↦ rw (dl_queue_start_user, missing) c
  | inr (du, found) ↦ elim (Bool-cases (not (dl_queue_start_istarget online s.dls du))) [
    | inl refused ↦ rw (dl_queue_start_user, found, refused) c
    | inr target ↦ elim (Bool-cases (is_nco du.state)) [
      | inl unconnected ↦
          rw (dl_queue_start_user, found, target, unconnected)
            (settle-IsConsistent s uid du (to_state du expecting) c found
              (to_state-queue du expecting)
              (to_state-IsSteady du du.cc expecting (c.steady uid du found) refl
                (λ e. absurd (true-false (sym e)))))
      | inr connected ↦ elim (Option-cases (dl_user_getdl s.dls du.queue)) [
        | inl nothing ↦ rw (dl_queue_start_user, found, target, connected, nothing) c
        | inr (dud, chosen) ↦
            rw (dl_queue_start_user, found, target, connected, chosen)
              (settle-IsConsistent s uid du (to_state (record du { active = some (dud.dl) }) act) c
                found (to_state-queue (record du { active = some (dud.dl) }) act)
                (act-IsSteady du dud.dl (c.steady uid du found)
                  (idle_of (is_nco du.state) (is_idle du.state) _ target connected)
                  (getdl-times s.dls du.queue dud chosen)))
      ]
    ]
  ]
]
