-- ===== src/DlFile.antt =====
-- src/dlfile.c: the threads of a segmented download. This file holds what the others share: the
-- fields of `dl_t` and `dlfile_thread_t` that dlfile.c reads and writes, and its helpers.
-- A guint32 or guint64 is a natural number, and its arithmetic wraps where it is written `% 2 ^ w`.
-- The list `threads` holds the threads themselves; a pointer to a thread is its place in that list.
pub mod Cover
pub mod Load
pub mod Segment
pub mod Recv
use ncdc.Prelude.{
  ℕ, List, [], ◌∷◌, Bytes, Bool, ltb, leb, ◌==◌, ◌&&◌, ◌||◌, ◌+◌, ◌-◌, ◌*◌, ◌/◌, ◌%◌, ◌^◌, min,
}

-- `DLFILE_CHUNKSIZE`
abbrev pub chunk_size : ℕ
chunk_size = 131072

abbrev pub add32 : ℕ → ℕ → ℕ
add32 a b = (a + b) % 2 ^ 32

abbrev pub sub32 : ℕ → ℕ → ℕ
sub32 a b = (a + 2 ^ 32 - b) % 2 ^ 32

abbrev pub add64 : ℕ → ℕ → ℕ
add64 a b = (a + b) % 2 ^ 64

-- `dlfile_thread_t`. The state of the hash is the data that it was given since `tth_init`; an error
-- is a flag, without its text.
pub record Thread : Type 0 where
  pub allocated : ℕ
  pub avail : ℕ
  pub chunk : ℕ
  pub len : ℕ
  pub busy : Bool
  pub uid : ℕ
  pub hashed : Bytes
  pub err : Bool
  pub uerr : Bool

-- `g_slice_new0` and `tth_init`
abbrev pub new_thread : ℕ → ℕ → Thread
new_thread chunk avail = record {
  allocated = 0;
  avail = avail;
  chunk = chunk;
  len = 0;
  busy = Bool.false;
  uid = 0;
  hashed = [];
  err = Bool.false;
  uerr = Bool.false;
}

-- `dl_t`; `saving` says that the timer `bitmap_src` runs.
pub record Dl : Type 0 where
  pub islist : Bool
  pub hassize : Bool
  pub allbusy : Bool
  pub active_threads : ℕ
  pub size : ℕ
  pub have : ℕ
  pub hash_block : ℕ
  pub threads : List Thread
  pub bitmap : Bytes
  pub saving : Bool

abbrev pub dlfile_chunks : ℕ → ℕ
dlfile_chunks size = (size + chunk_size - 1) % 2 ^ 64 / chunk_size % 2 ^ 32

abbrev pub chunks_per_block : Dl → ℕ
chunks_per_block dl = dl.hash_block / chunk_size % 2 ^ 32

-- `dlfile_hasfreeblock`, with `chunks` for the chunks of the file.
unfoldable pub has_free_block : ℕ → ℕ → Thread → Bool
has_free_block chunks cpb t =
    ltb cpb (sub32 t.avail t.allocated)
    || (add32 t.chunk t.avail == chunks
        && leb (add32 t.chunk t.allocated) (sub32 chunks 1 / cpb * cpb % 2 ^ 32))
