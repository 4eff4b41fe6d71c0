-- ===== src/Bitmap/Tests.antt =====
-- src/util.c: bit arrays of one byte.
use ncdc.Prelude.{[], ◌∷◌, ◌≡◌, arith}
use ncdc.Bitmap.{bita_get, bita_set, bita_reset}
use ncdc.Bitmap.Laws.{bita_get-bita_set, bita_get-bita_reset}

bita_get-bita_set_example : bita_get (bita_set (5 ∷ []) 3) 3 ≡ 1
bita_get-bita_set_example = bita_get-bita_set (5 ∷ []) 3 (omega arith, tt) (omega arith) 3

bita_get-bita_reset_example : bita_get (bita_reset (5 ∷ []) 2) 2 ≡ 0
bita_get-bita_reset_example = bita_get-bita_reset (5 ∷ []) 2 (omega arith, tt) (omega arith) 2
