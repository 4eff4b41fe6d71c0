-- ===== src/DlFile/Load/Block.antt =====
-- src/dlfile.c: what the loops over one block leave, in the bitmap and in the thread.
use ncdc.Prelude.{
  ℕ, zero, suc, [], ◌++◌, Bytes, true, false, some, length, ltb, leb, ◌&&◌, if◌then◌else◌, ◌+◌, ◌-◌,
  ◌*◌, ◌^◌, ◌<◌, ◌≤◌, ◌≡◌, refl, ◌∙◌, arith, Bool-cases, inl, inr,
}
use ncdc.Bitmap.{bita_get, bita_reset}
use ncdc.Bitmap.Laws.{
  IsBytes, bita_get-lt, bita_reset-IsBytes, length-bita_reset, bita_get-bita_reset,
}
use ncdc.DlFile.{chunk_size, add32, sub32, add64, Thread}
use ncdc.DlFile.Load.{bit, read_loop, read_chunk, load_chunks, full_block, reset_range}

-- The marks of the chunks from `j` up to `j + k` are cleared, and no other mark changes.
pub record Reset (bitmap : Bytes) (j k : ℕ) (out : Bytes) : Type 0 where
  pub bytes : IsBytes out
  pub room : length out ≡ length bitmap
  pub marks : (i : ℕ) → bita_get out i ≡ (if leb j i && ltb i (j + k) then 0 else bita_get bitmap i)

Reset-one :
    (bitmap : Bytes) (j : ℕ)
    → IsBytes bitmap
    → j < 8 * length bitmap
    → Reset bitmap j 1 (if bit bitmap j then bita_reset bitmap j else bitmap)
Reset-one bitmap j h room = elim (Bool-cases (bit bitmap j)) [
  | inl e ↦ rw e (record {
    bytes = bita_reset-IsBytes bitmap j h;
    room = length-bita_reset bitmap j h;
    marks = λ i. ground (arith, bita_get-bita_reset bitmap j h room i);
  })
  | inr e ↦
      rw e (record { bytes = h; room = refl; marks = λ i. ground (arith, bita_get-lt bitmap i) })
]

pub reset_range-Reset :
    (bitmap : Bytes) (j k : ℕ)
    → IsBytes bitmap
    → j + k ≤ 8 * length bitmap
    → Reset bitmap j k (reset_range bitmap j k).0
unfolding reset_range
reset_range-Reset bitmap j zero h room = record {
  bytes = h;
  room = refl;
  marks = λ i. ground arith;
}
reset_range-Reset bitmap j (suc k) h room =
    let mid = if bit bitmap j then bita_reset bitmap j else bitmap in
    let one = Reset-one bitmap j h (omega arith) in
    let rest = reset_range-Reset mid (j + 1) k one.bytes (omega (arith, one.room)) in
    record {
      bytes = rest.bytes;
      room = omega (arith, rest.room, one.room);
      marks = λ i. ground (arith, rest.marks i, one.marks i);
    }

-- What `load_chunks` makes of a thread `t` at the start of `a` chunks: it has passed over the marked
-- chunks in front, and stands at one that is not marked.
pub record Loaded (bitmap : Bytes) (c a : ℕ) (out : Thread) (reset : ℕ) : Type 0 where
  pub start : c ≤ out.chunk
  pub end : out.chunk + out.avail ≡ c + a
  pub some_left : 0 < out.avail
  pub same : reset ≡ out.avail
  pub idle : out.allocated ≡ 0
  pub free : out.busy ≡ false
  pub marked : (j : ℕ) → c ≤ j → j < out.chunk → bita_get bitmap j ≡ 1

Loaded-step :
    (bitmap : Bytes) (c c' a : ℕ) (out : Thread) (reset : ℕ)
    → c' ≡ c + 1
    → bita_get bitmap c ≡ 1
    → Loaded bitmap c' a out reset
    → Loaded bitmap c (suc a) out reset
Loaded-step bitmap c c' a out reset next here l = record {
  start = omega (arith, l.start);
  end = omega (arith, l.end);
  some_left = l.some_left;
  same = l.same;
  idle = l.idle;
  free = l.free;
  marked = λ j low high. ground (arith, l.marked j, here);
}

-- One round of the loop, at a marked chunk that is read.
load_chunks_mark :
    (pread : ℕ → ℕ → Bytes) (bitmap : Bytes) (a : ℕ) (t : Thread) (have : ℕ) (buf : Bytes)
    → suc a < 2 ^ 32
    → bit bitmap t.chunk ≡ true
    → read_chunk pread t.chunk ≡ some buf
    → load_chunks pread (suc a) bitmap t have (suc a)
      ≡ load_chunks pread a bitmap
          (record t { hashed = t.hashed ++ buf; chunk = add32 t.chunk 1; avail = sub32 t.avail 1 })
          (add64 have chunk_size)
          a
unfolding load_chunks
load_chunks_mark pread bitmap a t have buf bound mark read =
    let same : sub32 (suc a) 1 ≡ a = omega arith in rw (mark, load_chunks, read, same)

some_unmarked : (bitmap : Bytes) (i k : ℕ) → full_block bitmap i k ≡ false → 0 < k
unfolding full_block
some_unmarked bitmap i zero h = cc
some_unmarked bitmap i (suc k) h = omega arith

-- Every chunk in front of the last one can be read: the file has its full length on the disk.
abbrev pub Reads : (ℕ → ℕ → Bytes) → ℕ → Type 0
Reads pread n = (c : ℕ) → suc c < n → (buf : Bytes) × (read_chunk pread c ≡ some buf)

module _ (pread : ℕ → ℕ → Bytes) (n : ℕ) (reads : Reads pread n) (bitmap : Bytes) where
  pub load_chunks-Loaded :
      (a : ℕ) (t : Thread) (have : ℕ)
      → t.avail ≡ a
      → t.allocated ≡ 0
      → t.busy ≡ false
      → t.chunk + a ≤ n
      → n < 2 ^ 32
      → full_block bitmap t.chunk a ≡ false
      → (r : Thread × ℕ × ℕ) × (load_chunks pread a bitmap t have a ≡ some r)
        × Loaded bitmap t.chunk a r.0 r.2
  unfolding full_block
  load_chunks-Loaded zero t have e idle free fits bound h = cc
  load_chunks-Loaded (suc a) t have e idle free fits bound h =
      elim (Bool-cases (bit bitmap t.chunk)) [
        | inr unmarked ↦ (
          (t, have, suc a),
          unfold load_chunks in rw (unmarked, load_chunks),
          record {
            start = omega arith;
            end = omega arith;
            some_left = omega arith;
            same = omega arith;
            idle = idle;
            free = free;
            marked = λ j low high. absurd (omega arith);
          },
        )
        | inl mark ↦
            let rest : full_block bitmap (t.chunk + 1) a ≡ false = ground arith in
            let (buf, read) =
              reads t.chunk (omega (arith, some_unmarked bitmap (t.chunk + 1) a rest)) in
            let t' : Thread = record t {
              hashed = t.hashed ++ buf;
              chunk = add32 t.chunk 1;
              avail = sub32 t.avail 1;
            } in
            let have' = add64 have chunk_size in
            let next : add32 t.chunk 1 ≡ t.chunk + 1 = omega arith in
            let (r, ran, l) =
              load_chunks-Loaded a t' have' (omega arith) idle free (omega arith) bound
                (rw next rest) in
            (
              r,
              load_chunks_mark pread bitmap a t have buf (omega arith) mark read ∙ ran,
              Loaded-step bitmap t.chunk (add32 t.chunk 1) a r.0 r.2 next (ground arith) l,
            )
      ]

read_loop_once :
    (pread : ℕ → ℕ → Bytes) (fuel off left : ℕ)
    → length (pread off left) ≡ left
    → 0 < left
    → read_loop pread (suc fuel) off left [] ≡ some (pread off left)
unfolding read_loop
read_loop_once pread fuel off left h pos = ground arith

-- A chunk that `pread` gives whole is what the loop reads.
pub read_chunk_lem :
    (pread : ℕ → ℕ → Bytes) (c : ℕ)
    → length (pread (c * chunk_size) chunk_size) ≡ chunk_size
    → read_chunk pread c ≡ some (pread (c * chunk_size) chunk_size)
unfolding read_chunk
read_chunk_lem pread c h =
    read_loop_once pread (chunk_size - 1) (c * chunk_size) chunk_size h (omega arith)
