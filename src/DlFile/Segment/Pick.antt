-- ===== src/DlFile/Segment/Pick.antt =====
-- src/dlfile.c: which threads the walk of `dlfile_getchunk` finds.
use ncdc.Prelude.{
  ℕ, zero, suc, List, [], ◌∷◌, Bool, true, false, not, Option, none, some, ◌==◌, ◌&&◌,
  if◌then◌else◌, ◌+◌, ◌<◌, ◌≡◌, refl, subst, &&-left, &&-right, arith, All, set, Bool-cases, inl,
  inr,
}
use ncdc.DlFile.{Thread, has_free_block}
use ncdc.DlFile.Cover.{inside, count}
use ncdc.DlFile.Segment.{Ref, larger, unallocated, pick, any_free}

-- What a pointer to a thread of the list stands for.
abbrev pub At : List Thread → ℕ → Thread → Type 0
At [] i x = ⊥
At (t ∷ ts) zero x = t ≡ x
At (t ∷ ts) (suc i) x = At ts i x

pub At-set : (ts : List Thread) (i : ℕ) (x x' : Thread) → At ts i x → At (set ts i x') i x'
At-set [] i x x' h = h
At-set (t ∷ ts) zero x x' h = refl
At-set (t ∷ ts) (suc i) x x' h = At-set ts i x x' h

-- Replacing a thread changes the counts by that thread.
pub count-set :
    (ts : List Thread) (i : ℕ) (x x' : Thread) (j : ℕ)
    → At ts i x
    → count (set ts i x') j + inside x j ≡ count ts j + inside x' j
count-set [] i x x' j h = absurd h
count-set (t ∷ ts) zero x x' j h = rw h (omega arith)
count-set (t ∷ ts) (suc i) x x' j h = omega (arith, count-set ts i x x' j h)

pub All-set :
    (P : Thread → Type 0) (ts : List Thread) (i : ℕ) (x' : Thread)
    → All P ts
    → P x'
    → All P (set ts i x')
All-set P [] i x' h p = tt
All-set P (t ∷ ts) zero x' h p = (p, h.1)
All-set P (t ∷ ts) (suc i) x' h p = (h.0, All-set P ts i x' h.1 p)

pub All-At :
    (P : Thread → Type 0) (ts : List Thread) (i : ℕ) (x : Thread) → All P ts → At ts i x → P x
All-At P [] i x h a = absurd a
All-At P (t ∷ ts) zero x h a = subst P a h.0
All-At P (t ∷ ts) (suc i) x h a = All-At P ts i x h.1 a

not-true : (b : Bool) → not b ≡ true → b ≡ false
not-true true h = cc
not-true false h = refl

nonzero : (n : ℕ) → not (n == 0) ≡ true → 0 < n
nonzero n h = ground arith

-- Threads that are busy; threads without a free block.
abbrev pub AllBusy : List Thread → Type 0
AllBusy = All (λ x. x.busy ≡ true)

abbrev pub NoneFree : ℕ → ℕ → List Thread → Type 0
NoneFree chunks cpb = All (λ x. 0 < x.avail → has_free_block chunks cpb x ≡ false)

pub any_free-false :
    (chunks cpb : ℕ) (ts : List Thread)
    → AllBusy ts
    → NoneFree chunks cpb ts
    → any_free chunks cpb ts ≡ false
unfolding any_free
any_free-false chunks cpb [] b f = refl
any_free-false chunks cpb (t ∷ ts) (bt, b) (ft, f) =
    rw (bt, any_free-false chunks cpb ts b f) (ground (arith, ft))

next_idle_none :
    (ti : Thread) (i : ℕ) (t : Option Ref)
    → (if not ti.busy && larger (λ x. x.avail) ti t then some (i, ti) else t) ≡ none
    → (t ≡ none) × (ti.busy ≡ true)
unfolding larger
next_idle_none ti i none h = ground arith
next_idle_none ti i (some r) h = ground arith

next_sec_none :
    (chunks cpb : ℕ) (ti : Thread) (i : ℕ) (tsec : Option Ref)
    → (if not (ti.avail == 0) && (larger unallocated ti tsec && has_free_block chunks cpb ti)
        then some (i, ti)
        else tsec)
      ≡ none
    → (tsec ≡ none) × (0 < ti.avail → has_free_block chunks cpb ti ≡ false)
unfolding larger
next_sec_none chunks cpb ti i none h = ground arith
next_sec_none chunks cpb ti i (some r) h = ground arith

module _ (chunks cpb : ℕ) (all : List Thread) where
  -- What `tsec` and `t` may point to.
  abbrev pub IsSec : Option Ref → Type 0
  IsSec none = Unit {0}
  IsSec (some (i, x)) = At all i x × (0 < x.avail) × (has_free_block chunks cpb x ≡ true)

  abbrev pub IsIdle : Option Ref → Type 0
  IsIdle none = Unit {0}
  IsIdle (some (i, x)) = At all i x × (x.busy ≡ false)

  abbrev Later : List Thread → ℕ → Type 0
  Later ts i = (j : ℕ) (x : Thread) → At ts j x → At all (i + j) x

  next-IsSec :
      (ti : Thread) (i : ℕ) (tsec : Option Ref)
      → At all i ti
      → IsSec tsec
      → IsSec (
          if not (ti.avail == 0) && (larger unallocated ti tsec && has_free_block chunks cpb ti)
          then some (i, ti)
          else tsec)
  next-IsSec ti i tsec a h =
      elim (Bool-cases
        (not (ti.avail == 0) && (larger unallocated ti tsec && has_free_block chunks cpb ti))) [
          | inl e ↦ rw e (a, nonzero ti.avail (&&-left _ _ e), &&-right _ _ (&&-right _ _ e))
          | inr e ↦ rw e h
        ]

  next-IsIdle :
      (ti : Thread) (i : ℕ) (t : Option Ref)
      → At all i ti
      → IsIdle t
      → IsIdle (if not ti.busy && larger (λ x. x.avail) ti t then some (i, ti) else t)
  next-IsIdle ti i t a h = elim (Bool-cases (not ti.busy && larger (λ x. x.avail) ti t)) [
    | inl e ↦ rw e (a, not-true ti.busy (&&-left _ _ e))
    | inr e ↦ rw e h
  ]

  pick_from :
      (ts : List Thread) (i : ℕ) (tsec t : Option Ref)
      → Later ts i
      → IsSec tsec
      → IsIdle t
      → let (tsec', t') = pick chunks cpb ts i tsec t in
        IsSec tsec'
        × IsIdle t'
        × (t' ≡ none → (t ≡ none) × AllBusy ts)
        × (tsec' ≡ none → (tsec ≡ none) × NoneFree chunks cpb ts)
  unfolding pick
  pick_from [] i tsec t later sec idle = (sec, idle, (λ e. (e, tt)), λ e. (e, tt))
  pick_from (ti ∷ ts) i tsec t later sec idle =
      let here : At all i ti = subst (λ k. At all k ti) (omega arith) (later 0 ti refl) in
      let after : Later ts (suc i) =
        λ j x a. subst (λ k. At all k x) (omega arith) (later (suc j) x a) in
      let (sec', idle', none_idle, none_sec) =
        pick_from ts (suc i) _ _ after (next-IsSec ti i tsec here sec)
          (next-IsIdle ti i t here idle) in
      (
        sec',
        idle',
        (λ e.
            let (e', busy) = none_idle e in
            let (e'', b) = next_idle_none ti i t e' in (e'', (b, busy))),
        λ e.
            let (e', free) = none_sec e in
            let (e'', f) = next_sec_none chunks cpb ti i tsec e' in (e'', (f, free)),
      )

  -- The walk over all threads: `tsec` points to a thread with a free block and `t` to an idle one,
  -- and each is NULL only where there is none.
  pub pick_lem :
      let (tsec, t) = pick chunks cpb all 0 none none in
      IsSec tsec × IsIdle t × (t ≡ none → AllBusy all) × (tsec ≡ none → NoneFree chunks cpb all)
  pick_lem =
      let (sec, idle, none_idle, none_sec) =
        pick_from all 0 none none (λ j x a. subst (λ k. At all k x) (omega arith) a) tt tt in
      (sec, idle, (λ e. (none_idle e).1), λ e. (none_sec e).1)
