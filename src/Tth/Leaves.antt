-- ===== src/Tth/Leaves.antt =====
-- src/tth.c: `tth_root` gives the root of the tree over the blocks.
use ncdc.Prelude.{
  ℕ, zero, suc, List, [], ◌∷◌, ◌++◌, Bytes, true, replicate, length, length-append, append_assoc,
  append-nil, length-set, ◌≡◌, refl, ◌+◌, ◌^◌, ◌<◌, arith, sym, ◌∙◌,
}
use ncdc.Tth.{
  Ctx, tth_init, tth_combine, combine_up, tth_update_leaf, tth_stack_final, update_leaves,
  tth_final, tth_root,
}
use ncdc.Tth.Tree.{pairs, root_of, Stored, combine_up_lem}
use ncdc.Tth.Root.{lowest_lem}

module _ (tiger : Bytes → Bytes) where
  abbrev f : Bytes → Bytes → Bytes
  f = tth_combine tiger

  -- The context has taken up the leaves `l`.
  pub record Holds (ctx : Ctx) (l : List Bytes) : Type 0 where
    pub number : ctx.leafnum ≡ length l
    pub room : length ctx.stack ≡ 29
    pub stored : Stored f 29 0 l ctx.stack

  pub tth_update_leaf-Holds :
      (ctx : Ctx) (l : List Bytes) (t : Bytes)
      → length l + 1 < 2 ^ 29
      → Holds ctx l
      → Holds (tth_update_leaf tiger ctx t) (l ++ t ∷ [])
  unfolding tth_update_leaf
  tth_update_leaf-Holds ctx l t small h =
      let (pos, v) = combine_up tiger 31 ctx.leafnum ctx.stack 0 t in
      let (le, s) =
        combine_up_lem tiger 29 31 0 ctx.leafnum l ctx.stack t (omega (arith, h.number)) small
          (omega arith) (omega (arith, h.room)) h.stored in
      record {
        number = omega (arith, h.number, length-append l (t ∷ []));
        room = length-set ctx.stack pos v ∙ h.room;
        stored = s;
      }

  -- The fields that the loop of `tth_root` leaves, and the leaves that it takes up.
  update_leaves-Holds :
      (blocks : List Bytes) (ctx : Ctx) (l : List Bytes)
      → length l + length blocks < 2 ^ 29
      → Holds ctx l
      → Holds (update_leaves tiger ctx blocks) (l ++ blocks)
  unfolding update_leaves
  update_leaves-Holds [] ctx l small h = rw append-nil h
  update_leaves-Holds (b ∷ blocks) ctx l small h = rw (sym (append_assoc l (b ∷ []) blocks)) (
      update_leaves-Holds blocks (tth_update_leaf tiger ctx b) (l ++ b ∷ [])
        (omega (arith, length-append l (b ∷ []))) (tth_update_leaf-Holds ctx l b (omega arith) h))

  update_leaves-fields :
      (blocks : List Bytes) (ctx : Ctx)
      → let out = update_leaves tiger ctx blocks in
        (out.pending ≡ ctx.pending) × (ctx.gotfirst ≡ true → out.gotfirst ≡ true)
  unfolding update_leaves tth_update_leaf
  update_leaves-fields [] ctx = (refl, λ h. h)
  update_leaves-fields (b ∷ blocks) ctx =
      let (p, g) = update_leaves-fields blocks (tth_update_leaf tiger ctx b) in (p, λ h. g refl)

  pub tth_stack_final-Holds :
      (ctx : Ctx) (l : List Bytes)
      → 0 < length l
      → length l < 2 ^ 29
      → Holds ctx l
      → tth_stack_final tiger ctx ≡ root_of f (length l) l
  unfolding tth_stack_final
  tth_stack_final-Holds ctx [] some_left small h = absurd (omega arith)
  tth_stack_final-Holds ctx (x ∷ l) some_left small h =
      lowest_lem tiger 31 29 (length l) 0 ctx.leafnum (x ∷ l) ctx.stack (omega (arith, h.number))
        some_left (omega arith) (omega arith) (omega arith) h.stored

  pub Stored-nil : (m k : ℕ) (stack : List Bytes) → Stored f m k [] stack
  unfolding Stored pairs
  Stored-nil zero k stack = refl
  Stored-nil (suc m) k stack = (λ odd. absurd (omega arith), Stored-nil m (suc k) stack)

  pub tth_final-done :
      (ctx : Ctx)
      → ctx.pending ≡ []
      → ctx.gotfirst ≡ true
      → tth_final tiger ctx ≡ tth_stack_final tiger ctx
  unfolding tth_final
  tth_final-done ctx e g = rw (e, g)

  -- For one block or more, and fewer than 2 ^ 29, `tth_root` gives the root of the tree over the
  -- blocks: at each level neighbours are combined, and a last one without a neighbour is passed on.
  pub tth_root_lem :
      (blocks : List Bytes)
      → 0 < length blocks
      → length blocks < 2 ^ 29
      → tth_root tiger blocks ≡ root_of (tth_combine tiger) (length blocks) blocks
  unfolding tth_root
  tth_root_lem [] some_left small = absurd (omega arith)
  tth_root_lem (b ∷ blocks) some_left small =
      let start : Holds tth_init [] = record {
        number = refl;
        room = refl;
        stored = Stored-nil 29 0 (replicate 29 []);
      } in
      let all = b ∷ blocks in
      let (p, g) = update_leaves-fields blocks (tth_update_leaf tiger tth_init b) in
      tth_final-done (update_leaves tiger tth_init all) (unfold update_leaves tth_update_leaf in p)
        (unfold update_leaves tth_update_leaf in g refl)
      ∙ tth_stack_final-Holds (update_leaves tiger tth_init all) all some_left small
          (update_leaves-Holds all tth_init [] (omega arith) start)
