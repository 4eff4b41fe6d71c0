-- ===== src/Tth/Update.antt =====
-- src/tth.c: `tth_update` cuts the data into leaves of 1024 bytes.
use ncdc.Prelude.{
  ℕ, List, [], ◌∷◌, ◌++◌, Bytes, Bool, Bool-cases, inl, inr, true, false, ==_iff, ◌==◌, map, All,
  All-append, length, length-append, length-map, append_assoc, append-nil, ◌≡◌, refl, sym, ap, ◌∙◌,
  ◌+◌, ◌*◌, ◌^◌, ◌<◌, ◌≤◌, arith,
}
use ncdc.Tth.{Ctx, tth_update_leaf, update_part}
use ncdc.Tth.Leaves.{Holds, tth_update_leaf-Holds}

unfoldable pub concat : List Bytes → Bytes
concat [] = []
concat (c ∷ cs) = c ++ concat cs

pub concat-append : (cs : List Bytes) (c : Bytes) → concat (cs ++ c ∷ []) ≡ concat cs ++ c
unfolding concat
concat-append [] c = append-nil c
concat-append (d ∷ cs) c =
    ap (λ t. d ++ t) (concat-append cs c) ∙ sym (append_assoc d (concat cs) c)

pub map-append :
    (g : Bytes → Bytes) (cs : List Bytes) (c : Bytes) → map g (cs ++ c ∷ []) ≡ map g cs ++ g c ∷ []
map-append g [] c = refl
map-append g (d ∷ cs) c = ap (λ t. g d ∷ t) (map-append g cs c)

module _ (tiger : Bytes → Bytes) where
  -- The hash of a leaf.
  abbrev pub leaf : Bytes → Bytes
  leaf c = tiger (0 ∷ c)

  -- The context has taken up the data `d`: the leaves `fulls`, and less than a leaf.
  pub record Taken (ctx : Ctx) (d : Bytes) : Type 0 where
    pub fulls : List Bytes
    pub complete : All (λ c. length c ≡ 1024) fulls
    pub whole : concat fulls ++ ctx.pending ≡ d
    pub few : length ctx.pending < 1024
    pub tree : Holds tiger ctx (map leaf fulls)

  pub Holds-pending :
      (ctx : Ctx) (p : Bytes) (g : Bool) (l : List Bytes)
      → Holds tiger ctx l
      → Holds tiger (record ctx { pending = p; gotfirst = g }) l
  Holds-pending ctx p g l h = record { number = h.number; room = h.room; stored = h.stored }

  pub length-concat :
      (cs : List Bytes) → All (λ c. length c ≡ 1024) cs → length (concat cs) ≡ 1024 * length cs
  unfolding concat
  length-concat [] h = refl
  length-concat (c ∷ cs) (e, h) = omega (arith, length-append c (concat cs), length-concat cs h)

  update_part-short :
      (ctx : Ctx) (part : Bytes)
      → (length (ctx.pending ++ part) == 1024) ≡ false
      → update_part tiger ctx part ≡ record ctx { pending = ctx.pending ++ part }
  unfolding update_part
  update_part-short ctx part e = rw e refl

  update_part-full :
      (ctx : Ctx) (part : Bytes)
      → (length (ctx.pending ++ part) == 1024) ≡ true
      → let ctx' : Ctx = record ctx { pending = ctx.pending ++ part } in
        update_part tiger ctx part
        ≡ record (tth_update_leaf tiger ctx' (leaf (ctx.pending ++ part))) { pending = [] }
  unfolding update_part
  update_part-full ctx part e = rw e refl

  -- A part that does not go beyond the leaf.
  pub update_part-Taken :
      (ctx : Ctx) (d part : Bytes)
      → Taken ctx d
      → length ctx.pending + length part ≤ 1024
      → length d + length part < 2 ^ 39
      → Taken (update_part tiger ctx part) (d ++ part)
  update_part-Taken ctx d part t fits small =
      let pending = ctx.pending ++ part in
      let len = length-append ctx.pending part in
      let whole : concat t.fulls ++ pending ≡ d ++ part =
        sym (append_assoc (concat t.fulls) ctx.pending part) ∙ ap (λ x. x ++ part) t.whole in
      elim (Bool-cases (length pending == 1024)) [
        | inl full ↦
            let ctx' : Ctx = record ctx { pending = pending } in
            let last = (==_iff (length pending) 1024).0 full in
            let room : length (map leaf t.fulls) + 1 < 2 ^ 29 = omega (
              arith,
              length-map t.fulls leaf,
              length-concat t.fulls t.complete,
              length-append (concat t.fulls) pending,
              ap length whole,
              length-append d part,
            ) in
            let tree =
              tth_update_leaf-Holds tiger ctx' (map leaf t.fulls) (leaf pending) room
                (Holds-pending ctx pending ctx.gotfirst (map leaf t.fulls) t.tree) in
            rw (update_part-full ctx part full) (record {
              fulls = t.fulls ++ pending ∷ [];
              complete = All-append _ t.fulls (pending ∷ []) t.complete (last, tt);
              whole =
                  append-nil (concat (t.fulls ++ pending ∷ []))
                  ∙ concat-append t.fulls pending
                  ∙ whole;
              few = omega arith;
              tree =
                  rw (map-append leaf t.fulls pending)
                    (record { number = tree.number; room = tree.room; stored = tree.stored });
            })
        | inr more ↦ rw (update_part-short ctx part more) (record {
          fulls = t.fulls;
          complete = t.complete;
          whole = whole;
          few = not_full (length pending) (omega (arith, len)) more;
          tree = record { number = t.tree.number; room = t.tree.room; stored = t.tree.stored };
        })
      ]
    where
      not_full : (n : ℕ) → n ≤ 1024 → (n == 1024) ≡ false → n < 1024
      not_full n le e = ground arith
