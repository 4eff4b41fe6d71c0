-- ===== src/Tth.antt =====
-- src/tth.c: the tree hash. A hash is the list of its 24 bytes, and the function `tiger` of the data
-- is an argument; the state `tiger` of a context is the data that it was given behind the first byte.
-- `it` is `2 ^ pos`, and `it & leafnum` is a digit of `leafnum`.
pub mod Tree
pub mod Root
pub mod Leaves
pub mod Size
pub mod Update
pub mod Cut
pub mod Data
mod Tests
use ncdc.Prelude.{
  ℕ, zero, suc, List, [], ◌∷◌, ◌++◌, Bytes, Bool, true, false, not, ltb, ◌==◌, ◌&&◌, ◌||◌,
  if◌then◌else◌, get_or, set, replicate, length, take, drop, is_empty, ◌+◌, ◌-◌, ◌*◌, ◌/◌, ◌%◌, ◌^◌,
  min, max,
}

-- `tth_ctx_t`; of `gotfirst` only whether it is zero is read.
pub record Ctx : Type 0 where
  pub pending : Bytes
  pub leafnum : ℕ
  pub gotfirst : Bool
  pub stack : List Bytes

abbrev pub tth_init : Ctx
tth_init = record { pending = []; leafnum = 0; gotfirst = false; stack = replicate 29 [] }

-- Whether `it & leafnum` is not zero.
abbrev pub digit : ℕ → ℕ → Bool
digit leafnum pos = leafnum / 2 ^ pos % 2 == 1

-- `for(it=1; it<ctx->leafnum && (it&ctx->leafnum)==0; it<<=1) pos++;`
pub lowest : ℕ → ℕ → ℕ → ℕ
lowest zero leafnum pos = pos
lowest (suc fuel) leafnum pos =
    let next = lowest fuel leafnum (suc pos) in
    if ltb (2 ^ pos) leafnum && not (digit leafnum pos) then next else pos

-- The loop of `tth_blocksize`. The fuel is the number of bits of `r`.
pub double_until : ℕ → ℕ → ℕ → ℕ → ℕ
double_until zero fs blocks r = r
double_until (suc fuel) fs blocks r =
    let next = double_until fuel fs blocks (r * 2 % 2 ^ 64) in
    if ltb (r * blocks % 2 ^ 64) fs then next else r

unfoldable pub tth_blocksize : ℕ → ℕ → ℕ
unfolding double_until
tth_blocksize fs blocks = double_until 64 fs blocks 1024

-- For a block size that is not zero.
unfoldable pub tth_num_blocks : ℕ → ℕ → ℕ
tth_num_blocks fs bs = max ((fs + bs + 2 ^ 64 - 1) % 2 ^ 64 / bs) 1

module _ (tiger : Bytes → Bytes) where
  abbrev pub tth_combine : Bytes → Bytes → Bytes
  tth_combine left right = tiger (1 ∷ (left ++ right))

  -- `for(it=1; it & ctx->leafnum; it <<= 1) …`, for `pos` and `tmp`; `it` has 31 values above zero.
  pub combine_up : ℕ → ℕ → List Bytes → ℕ → Bytes → ℕ × Bytes
  combine_up zero leafnum stack pos tmp = (pos, tmp)
  combine_up (suc fuel) leafnum stack pos tmp =
      let next = combine_up fuel leafnum stack (suc pos) (tth_combine (get_or stack pos []) tmp) in
      if digit leafnum pos then next else (pos, tmp)

  unfoldable pub tth_update_leaf : Ctx → Bytes → Ctx
  unfolding combine_up
  tth_update_leaf ctx leaf =
      let (pos, tmp) = combine_up 31 ctx.leafnum ctx.stack 0 leaf in
      record ctx { stack = set ctx.stack pos tmp; leafnum = ctx.leafnum + 1; gotfirst = true }

  -- `for(it<<=1; it <= ctx->leafnum; it<<=1) …`, for `last`.
  pub combine_rest : ℕ → ℕ → List Bytes → ℕ → Bytes → Bytes
  combine_rest zero leafnum stack pos last = last
  combine_rest (suc fuel) leafnum stack pos last =
      let last' = if digit leafnum pos then tth_combine (get_or stack pos []) last else last in
      let next = combine_rest fuel leafnum stack (suc pos) last' in
      if ltb leafnum (2 ^ pos) then last else next

  unfoldable pub tth_stack_final : Ctx → Bytes
  unfolding combine_rest lowest
  tth_stack_final ctx =
      let pos = lowest 31 ctx.leafnum 0 in
      combine_rest 31 ctx.leafnum ctx.stack (suc pos) (get_or ctx.stack pos [])

  -- The loop of `tth_root`.
  unfoldable pub update_leaves : Ctx → List Bytes → Ctx
  update_leaves ctx [] = ctx
  update_leaves ctx (b ∷ blocks) = update_leaves (tth_update_leaf ctx b) blocks

  -- One round of the loop of `tth_update`, for the part `part` of the data, which ends with the data or
  -- with the leaf.
  pub update_part : Ctx → Bytes → Ctx
  unfolding tth_update_leaf
  update_part ctx part =
      let pending = ctx.pending ++ part in
      let ctx' : Ctx = record ctx { pending = pending } in
      if length pending == 1024
      then record (tth_update_leaf ctx' (tiger (0 ∷ pending))) { pending = [] }
      else ctx'

  -- `while(len > 0) …`. The fuel is `len`: each round takes a byte or more.
  pub update_loop : ℕ → Ctx → Bytes → Ctx
  unfolding update_part
  update_loop zero ctx msg = ctx
  update_loop (suc fuel) ctx [] = ctx
  update_loop (suc fuel) ctx (x ∷ msg) =
      let left = min (1024 - length ctx.pending) (length (x ∷ msg)) in
      update_loop fuel (update_part ctx (take left (x ∷ msg))) (drop left (x ∷ msg))

  unfoldable pub tth_update : Ctx → Bytes → Ctx
  unfolding update_loop
  tth_update ctx msg =
      update_loop (length msg) (if is_empty msg then ctx else record ctx { gotfirst = true }) msg

  unfoldable pub tth_final : Ctx → Bytes
  unfolding tth_stack_final tth_update_leaf
  tth_final ctx =
      if not ctx.gotfirst || not (is_empty ctx.pending)
      then tth_stack_final (tth_update_leaf ctx (tiger (0 ∷ ctx.pending)))
      else tth_stack_final ctx

  unfoldable pub tth_root : List Bytes → Bytes
  unfolding tth_final update_leaves
  tth_root blocks = tth_final (update_leaves tth_init blocks)
