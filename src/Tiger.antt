-- ===== src/Tiger.antt =====
-- src/tth.c: the hash function Tiger. A guint64 is a natural number below 2 ^ 64; `message` is the list of
-- the 64 bytes of the buffer. The rounds are those of the processors for which CPU_X64 is defined.
pub mod Sboxes
pub mod Stream
pub mod Buffer
pub mod Update
pub mod Final
pub mod Pieces
mod Tests
use Prim.Native.Nat.{bit_xor}
use ncdc.Prelude.{
  ℕ, zero, suc, List, [], ◌∷◌, ◌++◌, Bytes, Bool, true, false, ltb, ◌==◌, if◌then◌else◌, get_or,
  take, drop, replicate, length, ◌+◌, ◌-◌, ◌*◌, ◌/◌, ◌%◌, ◌^◌,
}
use ncdc.Tiger.Sboxes.{t1, t2, t3, t4}

-- The three words of the state, and the eight words of a block.
pub record Words : Type 0 where
  pub a : ℕ
  pub b : ℕ
  pub c : ℕ

pub record Block : Type 0 where
  pub x0 : ℕ
  pub x1 : ℕ
  pub x2 : ℕ
  pub x3 : ℕ
  pub x4 : ℕ
  pub x5 : ℕ
  pub x6 : ℕ
  pub x7 : ℕ

-- `tiger_ctx_t`
pub record TigerCtx : Type 0 where
  pub hash : Words
  pub message : Bytes
  pub length : ℕ

abbrev add : ℕ → ℕ → ℕ
add x y = (x + y) % 2 ^ 64

abbrev sub : ℕ → ℕ → ℕ
sub x y = (x + 2 ^ 64 - y) % 2 ^ 64

-- `~x`, `x << 19`, `x >> 23`
abbrev complement : ℕ → ℕ
complement x = 2 ^ 64 - 1 - x

abbrev left19 : ℕ → ℕ
left19 x = x * 2 ^ 19 % 2 ^ 64

abbrev right23 : ℕ → ℕ
right23 x = x / 2 ^ 23

-- `t[(guint8)(c >> (i*8))]`
look : List ℕ → ℕ → ℕ → ℕ
look t c i = get_or t (c / 256 ^ i % 256) 0

round : Words → ℕ → ℕ → Words
unfolding look
round s x mul =
    let c = bit_xor s.c x in
    let a =
      sub s.a
        (bit_xor (bit_xor (bit_xor (look t1 c 0) (look t2 c 2)) (look t3 c 4)) (look t4 c 6)) in
    let b =
      add s.b
        (bit_xor (bit_xor (bit_xor (look t4 c 1) (look t3 c 3)) (look t2 c 5)) (look t1 c 7)) in
    record { a = a; b = b * mul % 2 ^ 64; c = c }

-- The words in the order in which the next call of `round` or `pass` names them.
turn : Words → Words
turn s = record { a = s.b; b = s.c; c = s.a }

back : Words → Words
back s = record { a = s.c; b = s.a; c = s.b }

-- `pass(a,b,c,mul)`; after seven turns the words stand as after one.
pass : Words → Block → ℕ → Words
unfolding round turn back
pass s x mul =
    let s0 = turn (round s x.x0 mul) in
    let s1 = turn (round s0 x.x1 mul) in
    let s2 = turn (round s1 x.x2 mul) in
    let s3 = turn (round s2 x.x3 mul) in
    let s4 = turn (round s3 x.x4 mul) in
    let s5 = turn (round s4 x.x5 mul) in
    let s6 = turn (round s5 x.x6 mul) in back (round s6 x.x7 mul)

key_schedule : Block → Block
key_schedule x =
    let x0 = sub x.x0 (bit_xor x.x7 0xa5a5a5a5a5a5a5a5) in
    let x1 = bit_xor x.x1 x0 in
    let x2 = add x.x2 x1 in
    let x3 = sub x.x3 (bit_xor x2 (left19 (complement x1))) in
    let x4 = bit_xor x.x4 x3 in
    let x5 = add x.x5 x4 in
    let x6 = sub x.x6 (bit_xor x5 (right23 (complement x4))) in
    let x7 = bit_xor x.x7 x6 in
    let y0 = add x0 x7 in
    let y1 = sub x1 (bit_xor y0 (left19 (complement x7))) in
    let y2 = bit_xor x2 y1 in
    let y3 = add x3 y2 in
    let y4 = sub x4 (bit_xor y3 (right23 (complement y2))) in
    let y5 = bit_xor x5 y4 in
    let y6 = add x6 y5 in
    let y7 = sub x7 (bit_xor y6 0x0123456789abcdef) in
    record { x0 = y0; x1 = y1; x2 = y2; x3 = y3; x4 = y4; x5 = y5; x6 = y6; x7 = y7 }

-- The number of `n` bytes, the lowest first, and back.
pub word_of : ℕ → Bytes → ℕ
word_of zero bytes = 0
word_of (suc n) [] = 0
word_of (suc n) (x ∷ bytes) = x + 256 * word_of n bytes

pub bytes_of : ℕ → ℕ → Bytes
bytes_of zero x = []
bytes_of (suc n) x = x % 256 ∷ bytes_of n (x / 256)

block_of : Bytes → Block
unfolding word_of
block_of m = record {
  x0 = word_of 8 m;
  x1 = word_of 8 (drop 8 m);
  x2 = word_of 8 (drop 16 m);
  x3 = word_of 8 (drop 24 m);
  x4 = word_of 8 (drop 32 m);
  x5 = word_of 8 (drop 40 m);
  x6 = word_of 8 (drop 48 m);
  x7 = word_of 8 (drop 56 m);
}

-- `tiger_process_block`. The second and third call of `pass` name the words in another order.
pub process : Words → Bytes → Words
unfolding pass key_schedule block_of turn back
process s m =
    let x = block_of m in
    let s1 = pass s x 5 in
    let x' = key_schedule x in
    let s2 = pass (back s1) x' 7 in
    let x'' = key_schedule x' in
    let s3 = pass (back s2) x'' 9 in
    let r = back s3 in record { a = bit_xor r.a s.a; b = sub r.b s.b; c = add r.c s.c }

pub tiger_init : TigerCtx
tiger_init = record {
  hash = record { a = 0x0123456789abcdef; b = 0xfedcba9876543210; c = 0xf096a5b4c3b2e187 };
  message = replicate 64 0;
  length = 0;
}

-- `memcpy(buf + at, bytes, …)`
abbrev pub write : Bytes → ℕ → Bytes → Bytes
write buf at bytes = take at buf ++ (bytes ++ drop (at + length bytes) buf)

-- `while(size >= tiger_block_size) …`, on the hash, the buffer and what is left of the data. Data that is
-- not aligned is copied through the buffer. The fuel is the size.
pub full_blocks : Bool → ℕ → Words → Bytes → Bytes → Words × Bytes × Bytes
full_blocks aligned zero h m msg = (h, m, msg)
full_blocks aligned (suc fuel) h m msg = elim (ltb (length msg) 64) [
  | true ↦ (h, m, msg)
  | false ↦
      full_blocks aligned fuel (process h (take 64 msg)) (if aligned then m else take 64 msg)
        (drop 64 msg)
]

-- The rest of `tiger_update` once the partial block is filled.
pub update_rest : Bool → TigerCtx → Bytes → TigerCtx
unfolding full_blocks
update_rest aligned ctx msg =
    let (h, m, left) = full_blocks aligned (length msg) ctx.hash ctx.message msg in
    record ctx { hash = h; message = write m 0 left }

-- `tiger_update`; `aligned` is IS_ALIGNED_64 of the data behind the partial block.
unfoldable pub tiger_update : Bool → TigerCtx → Bytes → TigerCtx
unfolding update_rest
tiger_update aligned ctx msg =
    let index = ctx.length % 64 in
    let left = 64 - index in
    let ctx' : TigerCtx = record ctx { length = (ctx.length + length msg) % 2 ^ 64 } in
    let filled = write ctx.message index (take left msg) in
    if index == 0
    then update_rest aligned ctx' msg
    else if ltb (length msg) left
    then record ctx' { message = write ctx.message index msg }
    else update_rest aligned (record ctx' { hash = process ctx.hash filled; message = filled })
        (drop left msg)

-- `while(index < end) ctx->message[index++] = 0;`
abbrev pub zeros_to : Bytes → ℕ → ℕ → Bytes
zeros_to m index end = write m index (replicate (end - index) 0)

pub result : Words → Bytes
unfolding bytes_of
result h = bytes_of 8 h.a ++ (bytes_of 8 h.b ++ bytes_of 8 h.c)

-- `msg64[7] = …`, and the last block.
pub last_block : Words → Bytes → ℕ → Bytes
unfolding bytes_of result
last_block h m len = result (process h (write m 56 (bytes_of 8 (len * 8 % 2 ^ 64))))

unfoldable pub tiger_final : TigerCtx → Bytes
unfolding last_block
tiger_final ctx =
    let index = ctx.length % 64 + 1 in
    let m = write ctx.message (ctx.length % 64) (1 ∷ []) in
    let m' = zeros_to m index 64 in
    if ltb 56 index
    then last_block (process ctx.hash m') (zeros_to m' 0 56) ctx.length
    else last_block ctx.hash (zeros_to m index 56) ctx.length
