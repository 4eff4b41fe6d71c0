-- ===== src/Tth/Data.antt =====
-- src/tth.c: the tree hash of data that `tth_update` takes in pieces of any size.
use ncdc.Prelude.{
  ℕ, zero, suc, List, [], ◌∷◌, ◌++◌, Bytes, Bool, true, false, not, is_empty, ◌||◌, map, All, take,
  drop, replicate, length, length-append, length-take, length-drop, length-map, take-append-drop,
  append_assoc, append-nil, ◌≡◌, refl, sym, ap, ap₂, subst, ◌∙◌, ◌+◌, ◌-◌, ◌^◌, ◌<◌, ◌≤◌, min,
  arith,
}
use ncdc.Tth.{
  Ctx, tth_init, tth_combine, tth_update_leaf, tth_stack_final, tth_final, update_part, update_loop,
  tth_update,
}
use ncdc.Tth.Tree.{root_of}
use ncdc.Tth.Leaves.{
  Holds, tth_update_leaf-Holds, tth_stack_final-Holds, Stored-nil, tth_final-done,
}
use ncdc.Tth.Cut.{cut, cut-concat, cut-fulls, cut-last}
use ncdc.Tth.Update.{concat, leaf, map-append, Taken, update_part-Taken, length-concat}

-- Data in pieces.
abbrev pub data_of : List Bytes → Bytes
data_of [] = []
data_of (msg ∷ ps) = msg ++ data_of ps

module _ (tiger : Bytes → Bytes) where
  abbrev pub update_all : Ctx → List Bytes → Ctx
  update_all ctx [] = ctx
  update_all ctx (msg ∷ ps) = update_all (tth_update tiger ctx msg) ps

  update_part-got :
      (ctx : Ctx) (part : Bytes)
      → ctx.gotfirst ≡ true
      → (update_part tiger ctx part).gotfirst ≡ true
  unfolding update_part tth_update_leaf
  update_part-got ctx part g = ground arith

  update_loop-Taken :
      (n : ℕ) (ctx : Ctx) (d msg : Bytes)
      → length msg ≤ n
      → Taken tiger ctx d
      → ctx.gotfirst ≡ true
      → length d + length msg < 2 ^ 39
      → Taken tiger (update_loop tiger n ctx msg) (d ++ msg)
        × ((update_loop tiger n ctx msg).gotfirst ≡ true)
  unfolding update_loop
  update_loop-Taken zero ctx d [] le t g small = (rw (append-nil d) t, g)
  update_loop-Taken zero ctx d (x ∷ msg) le t g small = absurd (omega arith)
  update_loop-Taken (suc n) ctx d [] le t g small = (rw (append-nil d) t, g)
  update_loop-Taken (suc n) ctx d (x ∷ msg) le t g small =
      let all = x ∷ msg in
      let left = min (1024 - length ctx.pending) (length all) in
      let len = length-take left all in
      let len' = length-drop left all in
      let t' =
        update_part-Taken tiger ctx d (take left all) t (omega (arith, t.few)) (omega arith) in
      let (end, got) =
        update_loop-Taken n (update_part tiger ctx (take left all)) (d ++ take left all)
          (drop left all) (omega (arith, t.few)) t' (update_part-got ctx (take left all) g)
          (omega (arith, length-append d (take left all))) in
      let same : (d ++ take left all) ++ drop left all ≡ d ++ all =
        append_assoc d (take left all) (drop left all)
        ∙ ap (λ r. d ++ r) (take-append-drop left all) in
      (
        subst
            (λ b.
              Taken tiger
                (update_loop tiger n (update_part tiger ctx (take left all)) (drop left all)) b)
            same end,
        got,
      )

  -- Whether there was data.
  abbrev Got : Ctx → Bytes → Type 0
  Got ctx d = ctx.gotfirst ≡ not (is_empty d)

  tth_update-Taken :
      (ctx : Ctx) (d msg : Bytes)
      → Taken tiger ctx d
      → Got ctx d
      → length d + length msg < 2 ^ 39
      → Taken tiger (tth_update tiger ctx msg) (d ++ msg)
        × Got (tth_update tiger ctx msg) (d ++ msg)
  unfolding tth_update
  tth_update-Taken ctx d [] t g small = (rw (append-nil d) t, rw (append-nil d) g)
  tth_update-Taken ctx d (x ∷ msg) t g small =
      let ctx' : Ctx = record ctx { gotfirst = true } in
      let t' : Taken tiger ctx' d = record {
        fulls = t.fulls;
        complete = t.complete;
        whole = t.whole;
        few = t.few;
        tree = record { number = t.tree.number; room = t.tree.room; stored = t.tree.stored };
      } in
      let (end, got) =
        update_loop-Taken (length (x ∷ msg)) ctx' d (x ∷ msg) (omega arith) t' refl small in
      (end, got ∙ sym (some_data d x msg))
    where
      some_data : (d : Bytes) (x : ℕ) (msg : Bytes) → not (is_empty (d ++ x ∷ msg)) ≡ true
      some_data [] x msg = refl
      some_data (y ∷ d) x msg = refl

  update_all-Taken :
      (ps : List Bytes) (ctx : Ctx) (d : Bytes)
      → Taken tiger ctx d
      → Got ctx d
      → length d + length (data_of ps) < 2 ^ 39
      → Taken tiger (update_all ctx ps) (d ++ data_of ps)
        × Got (update_all ctx ps) (d ++ data_of ps)
  update_all-Taken [] ctx d t g small = (rw (append-nil d) t, rw (append-nil d) g)
  update_all-Taken (msg ∷ ps) ctx d t g small =
      let (t', g') =
        tth_update-Taken ctx d msg t g (omega (arith, length-append msg (data_of ps))) in
      rw (sym (append_assoc d msg (data_of ps))) (
        update_all-Taken ps (tth_update tiger ctx msg) (d ++ msg) t' g'
          (omega (arith, length-append d msg, length-append msg (data_of ps))))

  tth_init-Taken : Taken tiger tth_init []
  unfolding concat
  tth_init-Taken = record {
    fulls = [];
    complete = tt;
    whole = refl;
    few = omega arith;
    tree = record { number = refl; room = refl; stored = Stored-nil tiger 29 0 (replicate 29 []) };
  }

  -- The tree hash of a text: the root over the hashes of its leaves.
  unfoldable pub tree_hash : Bytes → Bytes
  unfolding cut
  tree_hash d =
      let leaves = map (leaf tiger) (cut (length d) d) in
      root_of (tth_combine tiger) (length leaves) leaves

  tth_final-last :
      (ctx : Ctx)
      → (not ctx.gotfirst || not (is_empty ctx.pending)) ≡ true
      → tth_final tiger ctx
        ≡ tth_stack_final tiger (tth_update_leaf tiger ctx (leaf tiger ctx.pending))
  unfolding tth_final
  tth_final-last ctx e = rw e refl

  -- A shorter leaf, or none at all, is taken up at the end.
  final-partial :
      (ctx : Ctx) (d : Bytes) (t : Taken tiger ctx d)
      → length d < 2 ^ 39 - 1024
      → cut (length d) d ≡ t.fulls ++ ctx.pending ∷ []
      → tth_stack_final tiger (tth_update_leaf tiger ctx (leaf tiger ctx.pending)) ≡ tree_hash d
  unfolding tree_hash
  final-partial ctx d t small e =
      let leaves = map (leaf tiger) t.fulls ++ leaf tiger ctx.pending ∷ [] in
      let room : length (map (leaf tiger) t.fulls) + 1 < 2 ^ 29 = omega (
        arith,
        length-map t.fulls (leaf tiger),
        length-concat tiger t.fulls t.complete,
        length-append (concat t.fulls) ctx.pending,
        ap length t.whole,
      ) in
      let len = length-append (map (leaf tiger) t.fulls) (leaf tiger ctx.pending ∷ []) in
      tth_stack_final-Holds tiger (tth_update_leaf tiger ctx (leaf tiger ctx.pending)) leaves
        (omega (arith, len)) (omega (arith, len))
        (tth_update_leaf-Holds tiger ctx (map (leaf tiger) t.fulls) (leaf tiger ctx.pending) room
          t.tree)
      ∙ ap (λ l. root_of (tth_combine tiger) (length l) l)
          (sym (ap (λ cs. map (leaf tiger) cs) e ∙ map-append (leaf tiger) t.fulls ctx.pending))

  some_first :
      (c : Bytes) (cs : List Bytes) → length c ≡ 1024 → not (is_empty (concat (c ∷ cs))) ≡ true
  unfolding concat
  some_first [] cs e = absurd (omega arith)
  some_first (x ∷ c) cs e = refl

  final-full :
      (ctx : Ctx) (d c : Bytes) (cs : List Bytes)
      → Holds tiger ctx (map (leaf tiger) (c ∷ cs))
      → All (λ c. length c ≡ 1024) (c ∷ cs)
      → concat (c ∷ cs) ≡ d
      → ctx.pending ≡ []
      → Got ctx d
      → length d < 2 ^ 39 - 1024
      → tth_final tiger ctx ≡ tree_hash d
  unfolding tree_hash
  final-full ctx d c cs h complete whole empty g small =
      let size = length-concat tiger (c ∷ cs) complete in
      let number = length-map (c ∷ cs) (leaf tiger) in
      let parts : cut (length d) d ≡ c ∷ cs =
        ap (λ x. cut (length d) x) (sym whole)
        ∙ cut-fulls c cs (length d) complete (omega (arith, ap length whole, size)) in
      tth_final-done tiger ctx empty
        (g ∙ ap (λ x. not (is_empty x)) (sym whole) ∙ some_first c cs complete.0)
      ∙ tth_stack_final-Holds tiger ctx (map (leaf tiger) (c ∷ cs)) (omega arith)
          (omega (arith, number, ap length whole, size)) h
      ∙ ap (λ l. root_of (tth_combine tiger) (length l) l)
          (sym (ap (λ x. map (leaf tiger) x) parts))

  concat-nil : concat [] ++ [] ≡ []
  unfolding concat
  concat-nil = refl

  first_leaf : (g b : Bool) → g ≡ false → (not g || b) ≡ true
  first_leaf true b e = cc
  first_leaf false b e = refl

  pending_left : (g : Bool) (x : ℕ) (p q : Bytes) → q ≡ x ∷ p → (not g || not (is_empty q)) ≡ true
  pending_left true x p q e = rw e refl
  pending_left false x p q e = refl

  final-cases :
      (ctx : Ctx) (d p : Bytes) (fs : List Bytes) (t : Taken tiger ctx d)
      → ctx.pending ≡ p
      → t.fulls ≡ fs
      → Got ctx d
      → length d < 2 ^ 39 - 1024
      → tth_final tiger ctx ≡ tree_hash d
  final-cases ctx d (x ∷ p) fs t e e' g small =
      let size = length-append (concat t.fulls) ctx.pending in
      let parts =
        cut-concat t.fulls ctx.pending (length d) t.complete (omega (arith, t.few))
          (omega (arith, ap length e))
          (omega (arith, length-concat tiger t.fulls t.complete, size, ap length t.whole)) in
      tth_final-last ctx (pending_left ctx.gotfirst x p ctx.pending e)
      ∙ final-partial ctx d t small (ap (λ b. cut (length d) b) (sym t.whole) ∙ parts)
  final-cases ctx d [] [] t e e' g small =
      let nothing : d ≡ [] = sym t.whole ∙ ap₂ (λ fs p. concat fs ++ p) e' e ∙ concat-nil in
      let parts : cut (length d) d ≡ t.fulls ++ ctx.pending ∷ [] =
        cut-last (length d) d (omega (arith, ap length nothing))
        ∙ ap₂ (λ fs b. fs ++ b ∷ []) (sym e') (nothing ∙ sym e) in
      tth_final-last ctx (
        first_leaf ctx.gotfirst (not (is_empty ctx.pending))
          (g ∙ ap (λ x. not (is_empty x)) nothing))
      ∙ final-partial ctx d t small parts
  final-cases ctx d [] (c ∷ cs) t e e' g small =
      final-full ctx d c cs (subst (λ fs. Holds tiger ctx (map (leaf tiger) fs)) e' t.tree)
        (subst (λ fs. All (λ c. length c ≡ 1024) fs) e' t.complete)
        (sym (append-nil (concat (c ∷ cs)))
          ∙ ap₂ (λ fs p. concat fs ++ p) (sym e') (sym e)
          ∙ t.whole)
        e g small

  -- However a text is cut into pieces for `tth_update`, `tth_final` gives its tree hash: the root over the
  -- hashes of its leaves of 1024 bytes. The text is shorter than 2 ^ 39 - 1024 bytes, with which fewer than
  -- 2 ^ 29 leaves fill the stack.
  pub tth_final-pieces :
      (ps : List Bytes)
      → length (data_of ps) < 2 ^ 39 - 1024
      → tth_final tiger (update_all tth_init ps) ≡ tree_hash (data_of ps)
  tth_final-pieces ps small =
      let (t, g) = update_all-Taken ps tth_init [] tth_init-Taken refl (omega arith) in
      final-cases (update_all tth_init ps) (data_of ps) (update_all tth_init ps).pending t.fulls t
        refl refl g small
