-- ===== src/Tth/Tests.antt =====
-- src/tth.c: a tree of three leaves, with a function in the place of Tiger that keeps its argument,
-- and the size of a block for a file in three blocks.
use ncdc.Prelude.{ℕ, List, [], ◌∷◌, Bytes, ◌≡◌, ◌⊎◌, ◌*◌, ◌/◌, ◌^◌, ◌<◌, ◌≤◌, arith}
use ncdc.Tth.{tth_init, tth_final, tth_combine, tth_root, tth_blocksize, tth_num_blocks}
use ncdc.Tiger.Final.{tiger}
use ncdc.Tth.Tree.{root_of}
use ncdc.Tth.Data.{update_all, tree_hash, tth_final-pieces}
use ncdc.Tth.Size.{tth_blocksize_lem}
use ncdc.Tth.Leaves.{tth_root_lem}

abbrev three : List Bytes
three = (5 ∷ []) ∷ (6 ∷ []) ∷ (7 ∷ []) ∷ []

abbrev keep : Bytes → Bytes
keep bytes = bytes

tth_root_lem_example : tth_root keep three ≡ root_of (tth_combine keep) 3 three
tth_root_lem_example = tth_root_lem keep three (omega arith) (omega arith)

tth_blocksize_lem_example :
    let r = tth_blocksize 5000000 3 in
    (tth_num_blocks 5000000 r ≤ 3)
    × ((r ≡ 1024) ⊎ (r / 2 * 3 < 5000000))
    × ((k : ℕ) × (r ≡ 1024 * 2 ^ k))
tth_blocksize_lem_example = tth_blocksize_lem 5000000 3 (omega arith) (omega arith) (omega arith)

-- The tree hash with Tiger itself.
tth_final-pieces_example :
    tth_final tiger (update_all tiger tth_init ((5 ∷ 6 ∷ []) ∷ (7 ∷ []) ∷ []))
    ≡ tree_hash tiger (5 ∷ 6 ∷ 7 ∷ [])
tth_final-pieces_example = tth_final-pieces tiger ((5 ∷ 6 ∷ []) ∷ (7 ∷ []) ∷ []) (omega arith)
