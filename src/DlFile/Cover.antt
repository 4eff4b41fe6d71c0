-- ===== src/DlFile/Cover.antt =====
-- src/dlfile.c: the invariant of a segmented download. Every chunk of the file is either marked in
-- the bitmap, or stands in the range of exactly one thread.
use ncdc.Prelude.{
  ℕ, List, [], ◌∷◌, Bytes, length, false, ltb, leb, if◌then◌else◌, ◌&&◌, ◌+◌, ◌*◌, ◌<◌, ◌≤◌, ◌≡◌,
  ◌^◌, All, arith,
}
use ncdc.Bitmap.{bita_get}
use ncdc.Bitmap.Laws.{IsBytes}
use ncdc.DlFile.{Thread, Dl, chunk_size, dlfile_chunks}

-- Whether a chunk stands in the range of a thread, as 0 or 1.
abbrev pub inside : Thread → ℕ → ℕ
inside t j = if leb t.chunk j && ltb j (t.chunk + t.avail) then 1 else 0

-- In how many ranges it stands.
abbrev pub count : List Thread → ℕ → ℕ
count [] j = 0
count (t ∷ ts) j = inside t j + count ts j

-- The chunks below `m` are each either marked or in one range, and the ranges end at `m`.
pub record Covers (ts : List Thread) (bitmap : Bytes) (m : ℕ) : Type 0 where
  pub below : (j : ℕ) → j < m → count ts j + bita_get bitmap j ≡ 1
  pub above : (j : ℕ) → m ≤ j → count ts j ≡ 0

-- The bitmap is an array of bytes with room for every chunk.
abbrev pub IsBitmap : ℕ → Bytes → Type 0
IsBitmap n bitmap = IsBytes bitmap × (n ≤ 8 * length bitmap)

-- An idle thread has chunks to download and none of them allocated; a busy one never has more
-- allocated than there are.
abbrev pub IsThread : Thread → Type 0
IsThread t = (t.allocated ≤ t.avail) × (t.busy ≡ false → (0 < t.avail) × (t.allocated ≡ 0))

-- A thread that waits for a user.
abbrev pub IsWaiting : Thread → Type 0
IsWaiting t = (t.busy ≡ false) × (t.allocated ≡ 0) × (0 < t.avail)

-- The state of a download between two operations.
pub record IsSound (dl : Dl) : Type 0 where
  pub covers : Covers dl.threads dl.bitmap (dlfile_chunks dl.size)
  pub bitmap : IsBitmap (dlfile_chunks dl.size) dl.bitmap
  pub threads : All IsThread dl.threads

-- The sizes for which no counter of chunks wraps: files up to 2 ^ 47 bytes (128 TiB), and blocks of
-- one chunk or more up to that size.
pub record IsSized (dl : Dl) : Type 0 where
  pub file : dl.size ≤ 2 ^ 47
  pub block : chunk_size ≤ dl.hash_block
  pub block_max : dl.hash_block ≤ 2 ^ 47

-- The ranges from `c` to the end of a block join the threads, and their marks are cleared.
pub Covers-extend :
    (ts ts' : List Thread) (bitmap bitmap' : Bytes) (m k c : ℕ)
    → Covers ts bitmap m
    → m ≤ c
    → c ≤ m + k
    → ((j : ℕ) → count ts' j ≡ count ts j + (if leb c j && ltb j (m + k) then 1 else 0))
    → ((j : ℕ) → bita_get bitmap' j ≡ (if leb c j && ltb j (m + k) then 0 else bita_get bitmap j))
    → ((j : ℕ) → m ≤ j → j < c → bita_get bitmap j ≡ 1)
    → Covers ts' bitmap' (m + k)
Covers-extend ts ts' bitmap bitmap' m k c v low high counts marks marked = record {
  below = λ j h. ground (arith, counts j, marks j, marked j, v.below j, v.above j);
  above = λ j h. ground (arith, counts j, v.above j);
}
