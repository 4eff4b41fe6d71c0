-- ===== src/DlFile/Load/Tests.antt =====
-- src/dlfile.c: a partial download at concrete values: four chunks, two to a block, of which the
-- first and the third are there.
use ncdc.Prelude.{
  ℕ, [], ◌∷◌, Bytes, Bool, true, false, some, ◌≡◌, refl, arith, replicate, length-replicate, All,
  min, suc, ◌-◌, ◌*◌, ◌<◌, ◌∙◌,
}
use ncdc.DlFile.{chunk_size, Dl}
use ncdc.DlFile.Cover.{IsWaiting, IsSound}
use ncdc.DlFile.Load.{load_threads}
use ncdc.DlFile.Load.Block.{Reads, read_chunk_lem}
use ncdc.DlFile.Load.Threads.{load_threads-IsSound}

-- What `pread` gives of a file of 524001 zeros, the last of which stands for the bitmap behind the data.
abbrev zeros : ℕ → ℕ → Bytes
zeros off n = replicate (min n (524001 - off)) 0

zeros-Reads : Reads zeros 4
zeros-Reads c h = (
  zeros (c * chunk_size) chunk_size,
  read_chunk_lem zeros c
      (length-replicate {A = ℕ} (min chunk_size (524001 - c * chunk_size)) 0 ∙ whole c h),
)
  where
    whole : (c : ℕ) → suc c < 4 → min chunk_size (524001 - c * chunk_size) ≡ chunk_size
    whole c h = omega arith

abbrev partial : Dl
partial = record {
  islist = false;
  hassize = true;
  allbusy = false;
  active_threads = 0;
  size = 524000;
  have = 0;
  hash_block = 262144;
  threads = [];
  bitmap = 5 ∷ [];
  saving = false;
}

load_threads-IsSound_example :
    (r : Dl × Bool) × (load_threads zeros partial ≡ some r)
    × IsSound r.0
    × All IsWaiting r.0.threads
load_threads-IsSound_example =
    load_threads-IsSound zeros partial (omega arith) zeros-Reads (omega arith) refl
