-- ===== src/Tiger/Tests.antt =====
-- src/tth.c: hashes that are published with Tiger, and data in two pieces.
use ncdc.Prelude.{List, [], ◌∷◌, Bytes, Bool, true, false, ◌≡◌, refl, arith}
use ncdc.Tiger.{
  process, tiger_init, tiger_update, tiger_final, result, last_block, bytes_of, full_blocks,
  update_rest,
}
use ncdc.Tiger.{word_of, round, pass, key_schedule, block_of, turn, back, look}
use ncdc.Tiger.Final.{tiger}
use ncdc.Tiger.Pieces.{update_all, tiger-pieces}

empty_hash :
    tiger_final tiger_init
    ≡ 0x32 ∷ 0x93 ∷ 0xac ∷ 0x63 ∷ 0x0c ∷ 0x13 ∷ 0xf0 ∷ 0x24 ∷ 0x5f ∷ 0x92 ∷ 0xbb ∷ 0xb1 ∷ 0x76
      ∷ 0x6e ∷ 0x16 ∷ 0x16 ∷ 0x7a ∷ 0x4e ∷ 0x58 ∷ 0x49 ∷ 0x2d ∷ 0xde ∷ 0x73 ∷ 0xf3 ∷ []
unfolding tiger_final tiger_init process last_block bytes_of result word_of round pass key_schedule
    block_of turn back look
empty_hash = refl

abc_hash :
    tiger_final (tiger_update true tiger_init (97 ∷ 98 ∷ 99 ∷ []))
    ≡ 0x2a ∷ 0xab ∷ 0x14 ∷ 0x84 ∷ 0xe8 ∷ 0xc1 ∷ 0x58 ∷ 0xf2 ∷ 0xbf ∷ 0xb8 ∷ 0xc5 ∷ 0xff ∷ 0x41
      ∷ 0xb5 ∷ 0x7a ∷ 0x52 ∷ 0x51 ∷ 0x29 ∷ 0x13 ∷ 0x1c ∷ 0x95 ∷ 0x7b ∷ 0x5f ∷ 0x93 ∷ []
unfolding tiger_update update_rest full_blocks tiger_final tiger_init process last_block bytes_of
    result word_of round pass key_schedule block_of turn back look
abc_hash = refl

abbrev two_pieces : List (Bool × Bytes)
two_pieces = (true, 97 ∷ 98 ∷ []) ∷ (false, 99 ∷ []) ∷ []

tiger-pieces_example : tiger_final (update_all tiger_init two_pieces) ≡ tiger (97 ∷ 98 ∷ 99 ∷ [])
tiger-pieces_example = tiger-pieces two_pieces (omega arith)
