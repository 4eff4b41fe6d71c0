-- ===== src/DlFile/Recv/Ready.antt =====
-- src/dlfile.c: what one round of the loop of `dlfile_recv` does to a sound download.
use ncdc.Prelude.{
  ◌⊎◌, ℕ, List, Bytes, true, false, ◌==◌, if◌then◌else◌, set, inl, inr, ◌+◌, ◌-◌, ◌*◌, ◌^◌, ◌<◌,
  ◌≤◌, ◌≡◌, refl, arith,
}
use ncdc.Bitmap.{bita_get, bita_set}
use ncdc.Bitmap.Laws.{bita_set-IsBytes, length-bita_set, bita_get-bita_set}
use ncdc.DlFile.{Thread, Dl, chunk_size, dlfile_chunks, add32, sub32, add64}
use ncdc.DlFile.Cover.{inside, Covers, IsThread, IsSound, IsSized}
use ncdc.DlFile.Segment.Pick.{At, At-set, count-set, All-set, All-At}
use ncdc.DlFile.Segment.Sound.{inside-le-count, range-le, Covers-count}
use ncdc.DlFile.Recv.{put_thread}

-- The thread at place `i` of a sound download of a file is busy, and `n` more bytes may arrive for
-- it: they stay within the file, and within the chunks allocated to the thread.
pub record IsReady (dl : Dl) (i : ℕ) (t : Thread) (n : ℕ) : Type 0 where
  pub sound : IsSound dl
  pub file : dl.islist ≡ false
  pub here : At dl.threads i t
  pub busy : t.busy ≡ true
  pub in_chunk : t.len < chunk_size
  pub in_file : 0 < n → t.chunk * chunk_size + t.len + n ≤ dl.size
  pub in_segment : t.len + n ≤ t.allocated * chunk_size

-- What a round leaves of the download, and for the thread.
abbrev pub Took : Dl → ℕ → ℕ → ℕ → Dl → Thread → Type 0
Took dl i n k dl' t' =
    IsReady dl' i t' (n - k)
    × (dl'.size ≡ dl.size)
    × (dl'.hash_block ≡ dl.hash_block)
    × (dl'.have ≡ add64 dl.have k)

-- The part of a chunk is taken up, and the chunk is not complete.
pub IsReady-part :
    (dl dl' : Dl) (i : ℕ) (t t' : Thread) (n k : ℕ)
    → IsReady dl i t n
    → 0 < k
    → k ≤ n
    → t.len + k < chunk_size
    → dl' ≡ put_thread (record dl { have = dl'.have }) i t'
    → t' ≡ record t { len = t.len + k; hashed = t'.hashed }
    → IsReady dl' i t' (n - k)
IsReady-part dl dl' i t t' n k r pos le short e e' =
    rw (e, e')
      (record {
        sound = record {
          covers =
              Covers-count dl.threads _ dl.bitmap (dlfile_chunks dl.size)
                (λ j. omega (
                  arith,
                  count-set dl.threads i t (record t { len = t.len + k; hashed = t'.hashed }) j
                      r.here,
                ))
                r.sound.covers;
          bitmap = r.sound.bitmap;
          threads =
              All-set IsThread dl.threads i _ r.sound.threads
                (All-At IsThread dl.threads i t r.sound.threads r.here);
        };
        file = r.file;
        here = At-set dl.threads i t _ r.here;
        busy = r.busy;
        in_chunk = short;
        in_file = λ more. omega (arith, r.in_file (omega arith));
        in_segment = omega (arith, r.in_segment);
      })

-- A range without its first chunk.
inside-next :
    (t t' : Thread) (j : ℕ)
    → 0 < t.avail
    → t'.chunk ≡ t.chunk + 1
    → t'.avail ≡ t.avail - 1
    → inside t j ≡ inside t' j + (if j == t.chunk then 1 else 0)
inside-next t t' j pos e e' = ground arith

-- The first chunk of a range is taken up, and marked.
Covers-next :
    (ts : List Thread) (bitmap : Bytes) (n i : ℕ) (t t' : Thread)
    → Covers ts bitmap n
    → At ts i t
    → ((j : ℕ)
        → bita_get (bita_set bitmap t.chunk) j ≡ (if j == t.chunk then 1 else bita_get bitmap j))
    → 0 < t.avail
    → t'.chunk ≡ t.chunk + 1
    → t'.avail ≡ t.avail - 1
    → Covers (set ts i t') (bita_set bitmap t.chunk) n
Covers-next ts bitmap n i t t' v a marks pos e e' = record {
  below = λ j h. ground (
    arith,
    marks j,
    v.below j h,
    count-set ts i t t' j a,
    inside-next t t' j pos e e',
    inside-le-count ts i t j a,
  );
  above = λ j h. omega (
    arith,
    v.above j h,
    count-set ts i t t' j a,
    inside-next t t' j pos e e',
    inside-le-count ts i t j a,
  );
}

div_chunk : (size n : ℕ) → size ≤ 2 ^ 47 → n * chunk_size < size → n < dlfile_chunks size
div_chunk size n small h = omega arith

-- The last part of a chunk is taken up.
IsReady-next :
    (dl dl' : Dl) (i : ℕ) (t t' : Thread) (n k : ℕ)
    → IsReady dl i t n
    → IsSized dl
    → 0 < k
    → k ≤ n
    → (t.chunk * chunk_size + t.len + k ≡ dl.size) ⊎ (t.len + k ≡ chunk_size)
    → dl'
      ≡ put_thread
          (record dl { have = dl'.have; bitmap = bita_set dl.bitmap t.chunk; saving = true })
          i
          t'
    → t' ≡ record t {
      chunk = add32 t.chunk 1;
      allocated = sub32 t.allocated 1;
      avail = sub32 t.avail 1;
      len = 0;
      hashed = t'.hashed;
    }
    → IsReady dl' i t' (n - k)
IsReady-next dl dl' i t t' n k r s pos le end e e' =
    let chunks = dlfile_chunks dl.size in
    let before = div_chunk dl.size t.chunk s.file (omega (arith, r.in_file (omega arith))) in
    let (alloc, idle) = All-At IsThread dl.threads i t r.sound.threads r.here in
    let some_left : 0 < t.allocated = omega (arith, r.in_segment) in
    let fits = range-le dl.threads dl.bitmap chunks i t r.sound.covers r.here (omega arith) in
    let e1 : add32 t.chunk 1 ≡ t.chunk + 1 = omega (arith, s.file) in
    let e2 : sub32 t.allocated 1 ≡ t.allocated - 1 = omega (arith, s.file) in
    let e3 : sub32 t.avail 1 ≡ t.avail - 1 = omega (arith, s.file) in
    let (bytes, room) = r.sound.bitmap in
    let next : Thread = record t {
      chunk = add32 t.chunk 1;
      allocated = sub32 t.allocated 1;
      avail = sub32 t.avail 1;
      len = 0;
      hashed = t'.hashed;
    } in
    rw (e, e')
      (record {
        sound = record {
          covers =
              Covers-next dl.threads dl.bitmap chunks i t next r.sound.covers r.here
                (bita_get-bita_set dl.bitmap t.chunk bytes (omega arith)) (omega arith) e1 e3;
          bitmap = (
            bita_set-IsBytes dl.bitmap t.chunk bytes,
            rw (length-bita_set dl.bitmap t.chunk bytes) room,
          );
          threads =
              All-set IsThread dl.threads i next r.sound.threads
                (omega arith, λ no. absurd (not_idle t r.busy no));
        };
        file = r.file;
        here = At-set dl.threads i t next r.here;
        busy = r.busy;
        in_chunk = omega arith;
        in_file = λ more. elim end [
          | inl last ↦ absurd (omega (arith, r.in_file (omega arith)))
          | inr full ↦ omega (arith, r.in_file (omega arith))
        ];
        in_segment = elim end [
          | inl last ↦ omega (arith, r.in_file (omega arith))
          | inr full ↦ omega (arith, r.in_segment)
        ];
      })
  where
    not_idle : (t : Thread) → t.busy ≡ true → t.busy ≡ false → ⊥
    not_idle t h h' = cc

pub Took-next :
    (dl m dl' : Dl) (i : ℕ) (t t' : Thread) (n k : ℕ)
    → IsReady dl i t n
    → IsSized dl
    → 0 < k
    → k ≤ n
    → (t.chunk * chunk_size + t.len + k ≡ dl.size) ⊎ (t.len + k ≡ chunk_size)
    → m ≡ record dl { have = add64 dl.have k; bitmap = bita_set dl.bitmap t.chunk; saving = true }
    → dl' ≡ put_thread m i t'
    → t' ≡ record t {
      chunk = add32 t.chunk 1;
      allocated = sub32 t.allocated 1;
      avail = sub32 t.avail 1;
      len = 0;
      hashed = t'.hashed;
    }
    → Took dl i n k dl' t'
Took-next dl m dl' i t t' n k r s pos le end em e e' = (
  IsReady-next dl dl' i t t' n k r s pos le end (rw (e, em) refl) e',
  rw (e, em) refl,
  rw (e, em) refl,
  rw (e, em) refl,
)
