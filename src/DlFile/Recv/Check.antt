-- ===== src/DlFile/Recv/Check.antt =====
-- src/dlfile.c: at the end of a block, the check of `dlfile_recv` accepts the data of the file.
use ncdc.Prelude.{
  ℕ, zero, suc, [], ◌∷◌, Bytes, Bool, true, false, not, Bool-cases, inl, inr, length, ltb, ltb→lt,
  ltb-false→le, ◌==◌, ==_iff, ==-self, ==_false, ◌&&◌, &&-right, ◌||◌, same_text, ◌+◌, ◌*◌, ◌/◌,
  ◌%◌, ◌^◌, ◌<◌, ◌≤◌, ◌≡◌, refl, sym, ap, subst, ◌∙◌, arith,
}
use ncdc.DlFile.{Thread, Dl, chunk_size, sub32}
use ncdc.DlFile.Recv.{chunk_end, recv_check}
use ncdc.DlFile.Recv.Blocks.{
  slice, slice-empty, block_data, block_data-full, block_data-last, block_data-first, next_in_block,
}

-- The hash of a thread was given the data of the block in which it stands, up to its place. Blocks have
-- `hb` bytes.
abbrev pub IsHashed : Bytes → ℕ → Thread → Type 0
IsHashed file hb t =
    t.hashed ≡ slice file (t.chunk / (hb / chunk_size) * hb) (t.chunk * chunk_size + t.len)

-- What is known of the hashes of a file of `size` bytes: its root, where it is smaller than a block, and
-- otherwise the hash of each of its blocks. Blocks are made of whole chunks.
pub record IsStored (tth : Bytes → Bytes) (root : Bytes) (db_check : ℕ → Bytes → Bool)
    (file : Bytes) (size hb : ℕ) : Type 0 where
  pub whole : length file ≡ size
  pub chunks : hb ≡ hb / chunk_size * chunk_size
  pub one : size < hb → root ≡ tth file
  pub blocks :
      (num : ℕ) → hb ≤ size → num * hb < size → db_check num (tth (block_data file hb num)) ≡ true

same_text_self : (a : Bytes) → same_text a a ≡ true
same_text_self [] = refl
same_text_self (c ∷ a) = rw (==-self c) (same_text_self a)

-- Blocks in terms of chunks.
scale : (d q hb : ℕ) → hb ≡ q * chunk_size → d * hb ≡ d * q * chunk_size
scale d q hb e = rw e (regroup d q)
  where
    regroup : (d q : ℕ) → d * (q * chunk_size) ≡ d * q * chunk_size
    regroup d q = grind arith

pub block_begun :
    (hb c : ℕ)
    → hb ≡ hb / chunk_size * chunk_size
    → 0 < hb / chunk_size
    → c / (hb / chunk_size) * hb ≤ c * chunk_size
block_begun hb c whole some_chunk =
    let q = hb / chunk_size in
    let low : c / q * q ≤ c = omega arith in omega (arith, scale (c / q) q hb whole, low)

first_block : (num hb size : ℕ) → num * hb < size → size < hb → num ≡ 0
first_block zero hb size h k = refl
first_block (suc num) hb size h k = absurd (omega (arith, more num hb))
  where
    more : (n b : ℕ) → suc n * b ≡ n * b + b
    more n b = grind arith

-- The data up to the end of the file, or of a block, is that of the block.
end_of_block :
    (file : Bytes) (hb c pos : ℕ) (islast : Bool)
    → hb ≡ hb / chunk_size * chunk_size
    → 0 < hb / chunk_size
    → pos ≤ (c + 1) * chunk_size
    → (islast ≡ true → pos ≡ length file)
    → (islast ≡ false → pos ≡ (c + 1) * chunk_size)
    → (islast || (c + 1) % (hb / chunk_size) == 0) ≡ true
    → slice file (c / (hb / chunk_size) * hb) pos ≡ block_data file hb (c / (hb / chunk_size))
end_of_block file hb c pos true whole some_chunk fits last full due =
    let q = hb / chunk_size in
    let d = c / q in
    let e = scale d q hb whole in
    let within : c + 1 ≤ d * q + q = omega arith in
    ap (slice file (d * hb)) (last refl)
    ∙ block_data-last file hb d (omega (arith, e, whole, last refl))
end_of_block file hb c pos false whole some_chunk fits last full due =
    let q = hb / chunk_size in
    let d = c / q in
    let e = scale d q hb whole in
    elim (next_in_block c q some_chunk) [
      | inl (z, next, _) ↦ block_data-full file hb d pos (omega (arith, e, whole, next, full refl))
      | inr (nonzero, _, _) ↦ absurd (nonzero ((==_iff _ _).0 due))
    ]

module _ (tth : Bytes → Bytes) (root : Bytes) (db_check : ℕ → Bytes → Bool) (file : Bytes) where
  recv_check-true :
      (dl : Dl) (i : ℕ) (t : Thread) (leaf : Bytes) (num : ℕ)
      → IsStored tth root db_check file dl.size dl.hash_block
      → sub32 t.chunk 1 / (dl.hash_block / chunk_size) ≡ num
      → num * dl.hash_block < dl.size
      → leaf ≡ tth (block_data file dl.hash_block num)
      → (recv_check tth root db_check dl i t leaf).0 ≡ true
  unfolding recv_check
  recv_check-true dl i t leaf num v here inside e = elim (Bool-cases (ltb dl.size dl.hash_block)) [
    | inl one ↦
        let first : num ≡ 0 =
          first_block num dl.hash_block dl.size inside (ltb→lt dl.size dl.hash_block one) in
        let all : block_data file dl.hash_block num ≡ file =
          ap (block_data file dl.hash_block) first
          ∙ block_data-first file dl.hash_block
              (omega (arith, v.whole, ltb→lt dl.size dl.hash_block one)) in
        let same : leaf ≡ root = e ∙ ap tth all ∙ sym (v.one (ltb→lt dl.size dl.hash_block one)) in
        rw (one, same, same_text_self root) refl
    | inr several ↦
        let ok = v.blocks num (ltb-false→le dl.size dl.hash_block several) inside in
        rw (several, here, e, ok) refl
  ]

  -- The data of a thread behind its chunk `c`, which ends the file or a block.
  pub chunk_end-true :
      (dl : Dl) (i : ℕ) (t : Thread) (islast : Bool) (c pos : ℕ)
      → IsStored tth root db_check file dl.size dl.hash_block
      → 0 < dl.hash_block / chunk_size
      → t.chunk ≡ c + 1
      → c + 1 < 2 ^ 32
      → c * chunk_size < dl.size
      → pos ≤ (c + 1) * chunk_size
      → (islast ≡ true → pos ≡ dl.size)
      → (islast ≡ false → pos ≡ (c + 1) * chunk_size)
      → t.hashed ≡ slice file (c / (dl.hash_block / chunk_size) * dl.hash_block) pos
      → (chunk_end tth root db_check dl i t islast).0 ≡ true
  unfolding chunk_end
  chunk_end-true dl i t islast c pos v some_chunk next small inside fits last full held =
      let q = dl.hash_block / chunk_size in
      let d = c / q in
      let e = scale d q dl.hash_block v.chunks in
      let begun : d * q ≤ c = omega arith in
      let before : sub32 t.chunk 1 ≡ c = omega arith in
      let num : sub32 t.chunk 1 / q ≡ d = ap (λ n. n / q) before in
      elim (Bool-cases (not dl.islist && (islast || t.chunk % q == 0))) [
        | inr skip ↦ rw skip refl
        | inl due ↦
            let block : t.hashed ≡ block_data file dl.hash_block d =
              held
              ∙ end_of_block file dl.hash_block c pos islast v.chunks some_chunk fits
                  (λ l. last l ∙ sym v.whole) full (rw next at (&&-right (not dl.islist) _ due)) in
            rw due (
              recv_check-true dl i (record t { hashed = [] }) (tth t.hashed) d v num
                (omega (arith, e)) (ap tth block))
      ]

  chunk_end-due :
      (dl : Dl) (i : ℕ) (t : Thread)
      → dl.islist ≡ false
      → (t.chunk % (dl.hash_block / chunk_size) == 0) ≡ true
      → (chunk_end tth root db_check dl i t false).2 ≡ record t { hashed = [] }
  unfolding chunk_end
  chunk_end-due dl i t is_file due = rw (is_file, due) refl

  chunk_end-within :
      (dl : Dl) (i : ℕ) (t : Thread)
      → (t.chunk % (dl.hash_block / chunk_size) == 0) ≡ false
      → (chunk_end tth root db_check dl i t false).2 ≡ t
  unfolding chunk_end
  chunk_end-within dl i t within = rw within (ground arith)

  -- A thread at the start of a chunk.
  hashed_at :
      (hb n len c : ℕ) (x : Bytes)
      → n ≡ c + 1
      → len ≡ 0
      → x ≡ slice file ((c + 1) / (hb / chunk_size) * hb) ((c + 1) * chunk_size)
      → x ≡ slice file (n / (hb / chunk_size) * hb) (n * chunk_size + len)
  hashed_at hb n len c x e f h =
      let plain : (c + 1) * chunk_size + 0 ≡ (c + 1) * chunk_size = omega arith in
      rw (e, f, plain) h

  -- Behind a chunk that does not end the file, the hash holds what it is to hold there.
  pub chunk_end-IsHashed :
      (dl : Dl) (i : ℕ) (t : Thread) (c : ℕ)
      → dl.islist ≡ false
      → dl.hash_block ≡ dl.hash_block / chunk_size * chunk_size
      → 0 < dl.hash_block / chunk_size
      → t.chunk ≡ c + 1
      → t.len ≡ 0
      → t.hashed
        ≡ slice file (c / (dl.hash_block / chunk_size) * dl.hash_block) ((c + 1) * chunk_size)
      → IsHashed file dl.hash_block (chunk_end tth root db_check dl i t false).2
  chunk_end-IsHashed dl i t c is_file whole some_chunk next start held =
      let hb = dl.hash_block in
      let q = hb / chunk_size in
      elim (next_in_block c q some_chunk) [
        | inl (z, end, d) ↦
            let here : (c + 1) / q * hb ≡ (c + 1) * chunk_size =
              ap (λ n. n * hb) d ∙ block_start (c / q) q hb c whole end in
            let due : (t.chunk % q == 0) ≡ true = (==_iff _ _).1 (ap (λ n. n % q) next ∙ z) in
            subst (IsHashed file hb) (sym (chunk_end-due dl i t is_file due)) (
              hashed_at hb t.chunk t.len c [] next start (
                sym (
                  ap (λ a. slice file a ((c + 1) * chunk_size)) here
                  ∙ slice-empty file ((c + 1) * chunk_size))))
        | inr (nonzero, _, d) ↦
            let within : (t.chunk % q == 0) ≡ false =
              ==_false _ _ (λ z. nonzero (ap (λ n. n % q) (sym next) ∙ z)) in
            subst (IsHashed file hb) (sym (chunk_end-within dl i t within)) (
              hashed_at hb t.chunk t.len c t.hashed next start
                (held ∙ ap (λ n. slice file (n * hb) ((c + 1) * chunk_size)) (sym d)))
      ]
    where
      block_start :
          (d q hb c : ℕ)
          → hb ≡ q * chunk_size
          → c + 1 ≡ d * q + q
          → (d + 1) * hb ≡ (c + 1) * chunk_size
      block_start d q hb c whole end =
          let more : (d + 1) * q ≡ d * q + q = grind arith in
          omega (arith, scale (d + 1) q hb whole, more, end)

  -- The place of the thread is not changed.
  pub chunk_end-place :
      (dl : Dl) (i : ℕ) (t : Thread) (islast : Bool)
      → let out = (chunk_end tth root db_check dl i t islast).2 in
        (out.chunk ≡ t.chunk) × (out.len ≡ t.len)
  unfolding chunk_end
  chunk_end-place dl i t islast = ground arith
