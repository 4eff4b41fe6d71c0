-- ===== src/DlFile/Segment/Tests.antt =====
-- src/dlfile.c: a download of four chunks that is opened, and its first segment.
use ncdc.Prelude.{ℕ, [], ◌∷◌, true, false, some, ◌≡◌, refl, arith, ◌<◌, ◌≤◌}
use ncdc.Bitmap.{bita_new}
use ncdc.DlFile.{Dl, Thread, new_thread}
use ncdc.DlFile.Cover.{IsSound}
use ncdc.DlFile.Segment.{dlfile_open, getchunk, any_free}
use ncdc.DlFile.Segment.Pick.{At}
use ncdc.DlFile.Segment.Sound.{dlfile_open-IsSound, getchunk-IsSound}

abbrev fresh : Dl
fresh = record {
  islist = false;
  hassize = true;
  allbusy = false;
  active_threads = 0;
  size = 524000;
  have = 0;
  hash_block = 262144;
  threads = [];
  bitmap = [];
  saving = false;
}

dlfile_open-IsSound_example :
    let dl' : Dl = record fresh { bitmap = bita_new 4; threads = new_thread 0 4 ∷ [] } in
    (dlfile_open fresh true true ≡ some dl') × IsSound dl'
dlfile_open-IsSound_example = dlfile_open-IsSound fresh (omega arith) (omega arith) refl refl refl

abbrev opened : Dl
opened = record fresh { bitmap = bita_new 4; threads = new_thread 0 4 ∷ [] }

opened-IsSound : IsSound opened
opened-IsSound = (dlfile_open-IsSound fresh (omega arith) (omega arith) refl refl refl).1

getchunk-IsSound_example :
    (dl' : Dl) × (i : ℕ) × (x : Thread) × (getchunk opened true true 0 7 100000 ≡ some (dl', i))
    × IsSound dl'
    × At dl'.threads i x
    × (x.busy ≡ true)
    × (x.uid ≡ 7)
    × (0 < x.allocated)
    × (x.allocated ≤ x.avail)
unfolding any_free
getchunk-IsSound_example =
    getchunk-IsSound opened true 0 7 100000 opened-IsSound (omega arith) refl (cc) refl
