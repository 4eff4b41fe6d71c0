-- ===== src/DlFile/Load/Threads.antt =====
-- src/dlfile.c: loading a partial download ends in a sound state.
use ncdc.Prelude.{
  ℕ, zero, suc, List, [], ◌∷◌, Bytes, Bool, true, false, not, some, ltb, leb, ◌&&◌, ◌||◌, ◌+◌, ◌-◌,
  ◌^◌, ◌<◌, ◌≤◌, ◌≡◌, refl, sym, ap, subst, ◌∙◌, ltb→lt, ltb-false→le, arith, Bool-cases, inl, inr,
  All, min, &&-left, if◌then◌else◌,
}
use mathlib.Core.Path.{subst₂}
use ncdc.Bitmap.{bita_get}
use ncdc.DlFile.{Thread, Dl, new_thread, dlfile_chunks, chunks_per_block, add32, add64}
use ncdc.DlFile.Cover.{
  count, Covers, IsBitmap, IsThread, IsWaiting, IsSound, IsSized, Covers-extend,
}
use ncdc.DlFile.Load.{
  bit, load_block, load_step, load_loop, load_threads, full_block, extend_head, reset_range,
  block_at,
}
use ncdc.DlFile.Load.Block.{Reads, reset_range-Reset, Loaded, load_chunks-Loaded}

full_block-marked :
    (bitmap : Bytes) (i k j : ℕ)
    → full_block bitmap i k ≡ true
    → i ≤ j
    → j < i + k
    → bita_get bitmap j ≡ 1
unfolding full_block
full_block-marked bitmap i zero j h low high = absurd (omega arith)
full_block-marked bitmap i (suc k) j h low high =
    ground (arith, full_block-marked bitmap (i + 1) k j)

-- The thread that was made last ends where the loop stands.
abbrev Ends : List Thread → ℕ → Type 0
Ends [] m = ⊥
Ends (x ∷ ts) m = (x.chunk + x.avail ≡ m) × (x.chunk ≤ m)

record LoadInv (n : ℕ) (t : Bool) (dl : Dl) (m : ℕ) : Type 0 where
  covers : Covers dl.threads dl.bitmap m
  bitmap : IsBitmap n dl.bitmap
  threads : All IsWaiting dl.threads
  current : t ≡ true → Ends dl.threads m

count-extend_head :
    (ts : List Thread) (m k : ℕ)
    → Ends ts m
    → m + k < 2 ^ 32
    → (j : ℕ)
    → count (extend_head ts k) j ≡ count ts j + (if leb m j && ltb j (m + k) then 1 else 0)
unfolding extend_head
count-extend_head [] m k h bound j = absurd h
count-extend_head (x ∷ ts) m k h bound j = ground arith

IsWaiting-extend_head :
    (ts : List Thread) (m k : ℕ)
    → Ends ts m
    → m + k < 2 ^ 32
    → All IsWaiting ts
    → All IsWaiting (extend_head ts k) × Ends (extend_head ts k) (m + k)
unfolding extend_head
IsWaiting-extend_head [] m k h bound a = absurd h
IsWaiting-extend_head (x ∷ ts) m k h bound a =
    let (ax, ats) = a in ((ground arith, ats), omega arith)

-- What one block makes of the state, before the marks are cleared.
record StepInv (n : ℕ) (dl : Dl) (m k : ℕ) (t' : Bool) (dl' : Dl) (reset : ℕ) : Type 0 where
  covers : Covers dl'.threads (reset_range dl'.bitmap (m + (k - reset)) reset).0 (m + k)
  bitmap : IsBitmap n (reset_range dl'.bitmap (m + (k - reset)) reset).0
  threads : All IsWaiting dl'.threads
  current : t' ≡ true → Ends dl'.threads (m + k)
  size : dl'.size ≡ dl.size
  block : dl'.hash_block ≡ dl.hash_block

module _ (pread : ℕ → ℕ → Bytes) (n : ℕ) (reads : Reads pread n) (t : Bool) (dl : Dl) (m k : ℕ)
    (v : LoadInv n t dl m) (some_chunks : 0 < k) (fits : m + k ≤ n) (small : n < 2 ^ 32) where
  -- The three ways in which a block is taken up.
  extend_step :
      t ≡ true → StepInv n dl m k true (record dl { threads = extend_head dl.threads k }) k
  extend_step e =
      let r = reset_range-Reset dl.bitmap (m + (k - k)) k (v.bitmap.0) (omega (arith, v.bitmap)) in
      let (sound, ends) =
        IsWaiting-extend_head dl.threads m k (v.current e) (omega arith) v.threads in
      record {
        covers =
            Covers-extend dl.threads (extend_head dl.threads k) dl.bitmap _ m k m v.covers
              (omega arith) (omega arith)
              (count-extend_head dl.threads m k (v.current e) (omega arith))
              (λ j. ground (arith, r.marks j)) (λ j low high. absurd (omega arith));
        bitmap = (r.bytes, omega (arith, r.room, v.bitmap));
        threads = sound;
        current = λ _. ends;
        size = refl;
        block = refl;
      }

  full_step :
      full_block dl.bitmap m k ≡ true
      → StepInv n dl m k false (record dl { have = add64 dl.have dl.hash_block }) 0
  full_step e =
      let r = reset_range-Reset dl.bitmap (m + (k - 0)) 0 (v.bitmap.0) (omega (arith, v.bitmap)) in
      record {
        covers =
            Covers-extend dl.threads dl.threads dl.bitmap _ m k (m + k) v.covers (omega arith)
              (omega arith) (λ j. ground arith) (λ j. ground (arith, r.marks j))
              (λ j low high. full_block-marked dl.bitmap m k j e low high);
        bitmap = (r.bytes, omega (arith, r.room, v.bitmap));
        threads = v.threads;
        current = λ h. cc;
        size = refl;
        block = refl;
      }

  load_step-new :
      (out : Thread) (have reset : ℕ)
      → Loaded dl.bitmap m k out reset
      → IsWaiting out
      → StepInv n dl m k true (record dl { threads = out ∷ dl.threads; have = have }) reset
  load_step-new out have reset l sound =
      let r =
        reset_range-Reset dl.bitmap (m + (k - reset)) reset (v.bitmap.0)
          (omega (arith, v.bitmap, l.end, l.start, l.same)) in
      record {
        covers =
            Covers-extend dl.threads (out ∷ dl.threads) dl.bitmap _ m k out.chunk v.covers l.start
              (omega (arith, l.end)) (λ j. ground (arith, l.end))
              (λ j. ground (arith, r.marks j, l.end, l.same, l.start))
              (λ j low high. l.marked j low high);
        bitmap = (r.bytes, omega (arith, r.room, v.bitmap));
        threads = (sound, v.threads);
        current = λ _. omega (arith, l.end, l.start);
        size = refl;
        block = refl;
      }

  -- One block is always taken up, and keeps the invariant.
  load_step-StepInv :
      (t' : Bool) × (dl' : Dl) × (reset : ℕ) × (load_step pread t dl m k ≡ some (t', dl', reset))
      × StepInv n dl m k t' dl' reset
  unfolding load_step
  load_step-StepInv = elim (Bool-cases (t && not (bit dl.bitmap m))) [
    | inl e ↦ (true, _, k, rw e, extend_step (&&-left t _ e))
    | inr e ↦ elim (Bool-cases (full_block dl.bitmap m k)) [
      | inl full ↦ (false, _, 0, rw (e, full), full_step full)
      | inr part ↦
          let (r, ran, l) =
            load_chunks-Loaded pread n reads dl.bitmap k (new_thread m k) dl.have refl refl refl
              fits small part in
          (
            true,
            record dl { threads = r.0 ∷ dl.threads; have = r.1 },
            r.2,
            rw (e, part, load_block, ran),
            load_step-new r.0 r.1 r.2 l (l.free, l.idle, l.some_left),
          )
    ]
  ]

-- What the loop leaves behind.
record LoopOut (size : ℕ) (out : Dl) : Type 0 where
  covers : Covers out.threads out.bitmap (dlfile_chunks size)
  bitmap : IsBitmap (dlfile_chunks size) out.bitmap
  threads : All IsWaiting out.threads
  same : out.size ≡ size

-- The block that the loop takes up at `i` has a chunk, ends within the file, and the next one
-- starts where it ends.
block_at_lem :
    (dl : Dl) (i : ℕ)
    → IsSized dl
    → i < dlfile_chunks dl.size
    → (0 < block_at dl i)
      × (i + block_at dl i ≤ dlfile_chunks dl.size)
      × (min (add32 i (chunks_per_block dl)) (dlfile_chunks dl.size) ≡ i + block_at dl i)
      × (i < add32 i (chunks_per_block dl))
block_at_lem dl i s h = omega (arith, s.file, s.block, s.block_max)

-- Two downloads of one size and one block size.
IsSized-same :
    (dl dl' : Dl) → dl'.size ≡ dl.size → dl'.hash_block ≡ dl.hash_block → IsSized dl → IsSized dl'
IsSized-same dl dl' e f s = omega (arith, s.file, s.block, s.block_max)

LoadInv-same :
    (dl dl' : Dl) (t : Bool) (i m : ℕ)
    → dl'.size ≡ dl.size
    → min i (dlfile_chunks dl.size) ≡ m
    → LoadInv (dlfile_chunks dl.size) t dl' m
    → LoadInv (dlfile_chunks dl'.size) t dl' (min i (dlfile_chunks dl'.size))
LoadInv-same dl dl' t i m e f v =
    subst₂ (λ n m'. LoadInv n t dl' m') (ap dlfile_chunks (sym e))
      (sym f ∙ ap (λ z. min i (dlfile_chunks z)) (sym e)) v

at_end : (i n : ℕ) → ltb i n ≡ false → min i n ≡ n
at_end i n h = omega (arith, ltb-false→le i n h)

Covers-nil : (ts : List Thread) (bitmap : Bytes) (n : ℕ) → ts ≡ [] → Covers ts bitmap (min 0 n)
Covers-nil ts bitmap n e = record { below = λ j h. absurd (omega arith); above = λ j h. rw e }

All-IsThread : (ts : List Thread) → All IsWaiting ts → All IsThread ts
All-IsThread [] h = tt
All-IsThread (t ∷ ts) ((free, idle, some_left), h) =
    ((omega arith, λ _. (some_left, idle)), All-IsThread ts h)

LoopOut-IsSound : (size : ℕ) (out : Dl) → LoopOut size out → IsSound out
LoopOut-IsSound size out o = record {
  covers = rw o.same o.covers;
  bitmap = rw o.same o.bitmap;
  threads = All-IsThread out.threads o.threads;
}

still_enough : (n n' i i' fuel : ℕ) → n' ≡ n → i < n → i < i' → n - i < suc fuel → n' - i' < fuel
still_enough n n' i i' fuel e low forth h = omega arith

module _ (pread : ℕ → ℕ → Bytes) where
  load_loop_next :
      (fuel i : ℕ) (t : Bool) (dl : Dl) (needsave : Bool) (t' : Bool) (dl' : Dl) (reset : ℕ)
      → ltb i (dlfile_chunks dl.size) ≡ true
      → load_step pread t dl i (block_at dl i) ≡ some (t', dl', reset)
      → let cleared = reset_range dl'.bitmap (i + (block_at dl i - reset)) reset in
        load_loop pread (suc fuel) i t dl needsave
        ≡ load_loop pread fuel
            (add32 i (chunks_per_block dl))
            t'
            (record dl' { bitmap = cleared.0 })
            (needsave || cleared.1)
  unfolding load_loop
  load_loop_next fuel i t dl needsave t' dl' reset more ran = rw (more, load_loop, ran) refl

  load_loop_sound :
      (fuel i : ℕ) (t : Bool) (dl : Dl) (needsave : Bool)
      → IsSized dl
      → Reads pread (dlfile_chunks dl.size)
      → LoadInv (dlfile_chunks dl.size) t dl (min i (dlfile_chunks dl.size))
      → dlfile_chunks dl.size - i < fuel
      → (r : Dl × Bool) × (load_loop pread fuel i t dl needsave ≡ some r) × LoopOut dl.size r.0
  unfolding load_loop
  load_loop_sound zero i t dl needsave s reads v h = absurd (omega arith)
  load_loop_sound (suc fuel) i t dl needsave s reads v h =
      elim (Bool-cases (ltb i (dlfile_chunks dl.size))) [
        | inr done ↦ (
          (dl, needsave),
          rw (done, load_loop),
          record {
            covers =
                subst (Covers dl.threads dl.bitmap) (at_end i (dlfile_chunks dl.size) done)
                  v.covers;
            bitmap = v.bitmap;
            threads = v.threads;
            same = refl;
          },
        )
        | inl more ↦
            let n = dlfile_chunks dl.size in
            let k = block_at dl i in
            let low : i < n = ltb→lt i n more in
            let here : min i n ≡ i = omega arith in
            let (some_chunks, fits, next, forth) = block_at_lem dl i s low in
            let small : n < 2 ^ 32 = omega (arith, s.file) in
            let (t', dl', reset, ran, st) =
              load_step-StepInv pread n reads t dl i k (subst (LoadInv n t dl) here v) some_chunks
                fits small in
            let cleared = reset_range dl'.bitmap (i + (k - reset)) reset in
            let dl'' : Dl = record dl' { bitmap = cleared.0 } in
            let inv : LoadInv n t' dl'' (i + k) = record {
              covers = st.covers;
              bitmap = st.bitmap;
              threads = st.threads;
              current = st.current;
            } in
            let (r, went, out) =
              load_loop_sound fuel (add32 i (chunks_per_block dl)) t' dl'' (needsave || cleared.1)
                (IsSized-same dl dl'' st.size st.block s)
                (subst (λ z. Reads pread (dlfile_chunks z)) (sym st.size) reads)
                (LoadInv-same dl dl'' t' (add32 i (chunks_per_block dl)) (i + k) st.size next inv)
                (still_enough n (dlfile_chunks dl'.size) i (add32 i (chunks_per_block dl)) fuel
                  (ap dlfile_chunks st.size) low forth h) in
            (
              r,
              load_loop_next fuel i t dl needsave t' dl' reset more ran ∙ went,
              subst (λ z. LoopOut z r.0) st.size out,
            )
      ]

  -- Loading the threads of a partial download comes to an end and leaves a sound state: every chunk
  -- is marked in the bitmap or in exactly one thread. Every thread is idle, with nothing allocated, and
  -- has a chunk to download. Each chunk in front of the last one can be read, the bitmap has room for
  -- the chunks of the file, the sizes are those for which no counter wraps, and no thread is there
  -- before.
  pub load_threads-IsSound :
      (dl : Dl)
      → IsSized dl
      → Reads pread (dlfile_chunks dl.size)
      → IsBitmap (dlfile_chunks dl.size) dl.bitmap
      → dl.threads ≡ []
      → (r : Dl × Bool) × (load_threads pread dl ≡ some r) × IsSound r.0 × All IsWaiting r.0.threads
  unfolding load_threads
  load_threads-IsSound dl s reads b none_yet =
      let start : LoadInv (dlfile_chunks dl.size) false dl (min 0 (dlfile_chunks dl.size)) =
        record {
          covers = Covers-nil dl.threads dl.bitmap (dlfile_chunks dl.size) none_yet;
          bitmap = b;
          threads = rw none_yet tt;
          current = λ h. cc;
        } in
      let (r, ran, out) =
        load_loop_sound (dlfile_chunks dl.size + 1) 0 false dl false s reads start (omega arith) in
      (r, ran, LoopOut-IsSound dl.size r.0 out, out.threads)
