-- ===== src/Tiger/Pieces.antt =====
-- src/tth.c: the hash of data that is passed on in pieces.
use ncdc.Prelude.{
  List, [], ◌∷◌, ◌++◌, Bytes, Bool, length, length-append, append_assoc, append-nil, ◌≡◌, refl, sym,
  ◌+◌, ◌^◌, ◌<◌, arith,
}
use ncdc.Tiger.{TigerCtx, tiger_init, tiger_update, tiger_final}
use ncdc.Tiger.Stream.{absorb}
use ncdc.Tiger.Update.{Holds, tiger_update-Holds}
use ncdc.Tiger.Final.{tiger, tiger_final-Holds}

-- Data in pieces, each with the alignment of its address.
abbrev pub data_of : List (Bool × Bytes) → Bytes
data_of [] = []
data_of ((aligned, msg) ∷ ps) = msg ++ data_of ps

abbrev pub update_all : TigerCtx → List (Bool × Bytes) → TigerCtx
update_all ctx [] = ctx
update_all ctx ((aligned, msg) ∷ ps) = update_all (tiger_update aligned ctx msg) ps

update_all-Holds :
    (ps : List (Bool × Bytes)) (ctx : TigerCtx) (d : Bytes)
    → Holds ctx d
    → length d + length (data_of ps) < 2 ^ 64
    → Holds (update_all ctx ps) (d ++ data_of ps)
update_all-Holds [] ctx d h bound = rw (append-nil d) h
update_all-Holds ((aligned, msg) ∷ ps) ctx d h bound = rw (sym (append_assoc d msg (data_of ps))) (
    update_all-Holds ps (tiger_update aligned ctx msg) (d ++ msg)
      (tiger_update-Holds aligned ctx d msg h (omega (arith, length-append msg (data_of ps))))
      (omega (arith, length-append d msg, length-append msg (data_of ps))))

init-Holds : Holds tiger_init []
unfolding tiger_init absorb
init-Holds = record { number = refl; room = refl; state = refl }

-- However data of fewer than 2 ^ 64 bytes is cut into pieces for `tiger_update`, and wherever they
-- stand in memory, `tiger_final` gives the hash of the data as a whole: the blocks of the padded data,
-- taken up one after the other.
pub tiger-pieces :
    (ps : List (Bool × Bytes))
    → length (data_of ps) < 2 ^ 64
    → tiger_final (update_all tiger_init ps) ≡ tiger (data_of ps)
tiger-pieces ps bound =
    tiger_final-Holds (update_all tiger_init ps) (data_of ps)
      (update_all-Holds ps tiger_init [] init-Holds (omega arith))
