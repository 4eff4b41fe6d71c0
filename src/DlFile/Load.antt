-- ===== src/DlFile/Load.antt =====
-- src/dlfile.c: `dlfile_load_threads` and `dlfile_load_block`, which rebuild the threads of a partial
-- download from its bitmap. `pread off n` is what `pread` reads at `off` with room for `n` bytes;
-- nothing stands for the end of the file and for an error. `none` is `g_error`, which aborts.
pub mod Block
pub mod Threads
mod Tests
use ncdc.Prelude.{
  ℕ, zero, suc, List, [], ◌∷◌, ◌++◌, Bytes, Bool, true, false, not, Option, none, some, ◌>>=◌,
  length, ltb, ◌==◌, ◌&&◌, ◌||◌, if◌then◌else◌, ◌+◌, ◌-◌, ◌*◌, ◌%◌, ◌^◌, min,
}
use ncdc.Bitmap.{bita_get, bita_reset}
use ncdc.DlFile.{
  chunk_size, add32, sub32, add64, Thread, new_thread, Dl, dlfile_chunks, chunks_per_block,
}

abbrev pub bit : Bytes → ℕ → Bool
bit bitmap j = bita_get bitmap j == 1

-- The search for a chunk of the block that is not marked.
pub full_block : Bytes → ℕ → ℕ → Bool
full_block bitmap i zero = true
full_block bitmap i (suc k) = bit bitmap i && full_block bitmap (i + 1) k

-- `t->avail += chunksinblock`, where `t` is the thread that was made last: the head of the list.
pub extend_head : List Thread → ℕ → List Thread
extend_head [] n = []
extend_head (t ∷ ts) n = record t { avail = add32 t.avail n } ∷ ts

-- The marks of `k` chunks from `j` on are cleared; the flag says that there was one.
pub reset_range : Bytes → ℕ → ℕ → Bytes × Bool
reset_range bitmap j zero = (bitmap, false)
reset_range bitmap j (suc k) =
    let found = bit bitmap j in
    let (bitmap', more) = reset_range (if found then bita_reset bitmap j else bitmap) (j + 1) k in
    (bitmap', found || more)

abbrev pub block_at : Dl → ℕ → ℕ
block_at dl i = min (chunks_per_block dl) (sub32 (dlfile_chunks dl.size) i)

module _ (pread : ℕ → ℕ → Bytes) where
  -- `while(left > 0) …`: one chunk is read. The offset moves back by what was read, as in the source,
  -- and `pread` refuses a negative one. The fuel is `left` at the start: each round reads a byte.
  read_loop : ℕ → ℕ → ℕ → Bytes → Option Bytes
  read_loop zero off left buf = some buf
  read_loop (suc fuel) off left buf =
      let got = pread off left in
      let left' = left - length got in
      let next = read_loop fuel (off - length got) left' (buf ++ got) in
      if left == 0
      then some buf
      else if length got == 0
      then none
      else if left' == 0
      then some (buf ++ got)
      else if ltb off (length got)
      then none
      else next

  pub read_chunk : ℕ → Option Bytes
  unfolding read_loop
  read_chunk chunk = read_loop chunk_size (chunk * chunk_size) chunk_size []

  -- `while(bita_get(dl->bitmap, t->chunk)) …`, on the thread, `dl->have` and `*reset`.
  pub load_chunks : ℕ → Bytes → Thread → ℕ → ℕ → Option (Thread × ℕ × ℕ)
  unfolding read_chunk
  load_chunks zero bitmap t have reset = none
  load_chunks (suc fuel) bitmap t have reset = elim (bit bitmap t.chunk) [
    | false ↦ some (t, have, reset)
    | true ↦ read_chunk t.chunk >>= λ buf.
        load_chunks fuel bitmap
          (record t { hashed = t.hashed ++ buf; chunk = add32 t.chunk 1; avail = sub32 t.avail 1 })
          (add64 have chunk_size) (sub32 reset 1)
  ]

  -- The fuel is the number of chunks of the block: the caller has seen that one is not marked.
  pub load_block : Dl → ℕ → ℕ → Option (Dl × ℕ)
  unfolding load_chunks
  load_block dl chunk chunksinblock =
      load_chunks chunksinblock dl.bitmap (new_thread chunk chunksinblock) dl.have chunksinblock
      >>= λ (t, have, reset). some (record dl { threads = t ∷ dl.threads; have = have }, reset)

  -- One block: the new `t` (whether there is one), the download, and how many chunks to reset.
  pub load_step : Bool → Dl → ℕ → ℕ → Option (Bool × Dl × ℕ)
  unfolding load_block full_block extend_head
  load_step t dl i chunksinblock =
      let fresh = load_block dl i chunksinblock in
      if t && not (bit dl.bitmap i)
      then some (true, record dl { threads = extend_head dl.threads chunksinblock }, chunksinblock)
      else if full_block dl.bitmap i chunksinblock
      then some (false, record dl { have = add64 dl.have dl.hash_block }, 0)
      else (fresh >>= λ (dl', reset). some (true, dl', reset))

  -- `for(i=0; i<chunknum; i+=chunksperblock) …`; the last component is `needsave`.
  pub load_loop : ℕ → ℕ → Bool → Dl → Bool → Option (Dl × Bool)
  unfolding load_step reset_range
  load_loop zero i t dl needsave = none
  load_loop (suc fuel) i t dl needsave = elim (ltb i (dlfile_chunks dl.size)) [
    | false ↦ some (dl, needsave)
    | true ↦ load_step t dl i (block_at dl i) >>= λ (t', dl', reset).
        let (bitmap', found) = reset_range dl'.bitmap (i + (block_at dl i - reset)) reset in
        load_loop fuel (add32 i (chunks_per_block dl)) t' (record dl' { bitmap = bitmap' })
          (needsave || found)
  ]

  -- Every round moves on by a block, of one chunk or more.
  unfoldable pub load_threads : Dl → Option (Dl × Bool)
  unfolding load_loop
  load_threads dl = load_loop (dlfile_chunks dl.size + 1) 0 false dl false
