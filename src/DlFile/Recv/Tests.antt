-- ===== src/DlFile/Recv/Tests.antt =====
-- src/dlfile.c: downloads of one and of two chunks that receive data.
use ncdc.Prelude.{ℕ, [], ◌∷◌, Bytes, Bool, true, false, ◌≡◌, refl, arith, ◌≤◌, ◌<◌}
use ncdc.Bitmap.{bita_get, bita_new, bita_set}
use ncdc.Bitmap.Laws.{bita_new_lem, bita_get-bita_set, bita_set-IsBytes, length-bita_set}
use ncdc.DlFile.{Dl, Thread, new_thread, add64}
use ncdc.DlFile.Cover.{count, IsSound, IsSized}
use ncdc.DlFile.Recv.{recv, recv_check, recv_done}
use ncdc.DlFile.Recv.Ready.{IsReady}
use ncdc.DlFile.Recv.Sound.{recv-IsSound}
use ncdc.DlFile.Recv.Check.{IsStored}
use ncdc.DlFile.Recv.Accept.{recv-true}
use ncdc.DlFile.Recv.Failure.{recv_check-fails}
use ncdc.DlFile.Recv.Done.{IsFreed, recv_done-IsSound, recv_done-finished}

-- Nothing is downloaded yet of a file of one chunk.
abbrev first_segment : Thread
first_segment = record (new_thread 0 1) { allocated = 1; busy = true }

abbrev started : Dl
started = record {
  islist = false;
  hassize = true;
  allbusy = true;
  active_threads = 1;
  size = 3;
  have = 0;
  hash_block = 131072;
  threads = first_segment ∷ [];
  bitmap = bita_new 1;
  saving = false;
}

abbrev accept : ℕ → Bytes → Bool
accept num leaf = true

abbrev reject : ℕ → Bytes → Bool
reject num leaf = false

not_idle : true ≡ false → ⊥
not_idle e = cc

started-IsSound : IsSound started
started-IsSound = record {
  covers = record {
    below = λ j h. ground (arith, (bita_new_lem 1 (omega arith)).2 j);
    above = λ j h. ground arith;
  };
  bitmap = ((bita_new_lem 1 (omega arith)).0, (bita_new_lem 1 (omega arith)).1);
  threads = ((omega arith, λ no. absurd (not_idle no)), tt);
}

started-IsReady : IsReady started 0 first_segment 3
started-IsReady = record {
  sound = started-IsSound;
  file = refl;
  here = refl;
  busy = refl;
  in_chunk = omega arith;
  in_file = λ more. omega arith;
  in_segment = omega arith;
}

started-IsSized : IsSized started
started-IsSized = record { file = omega arith; block = omega arith; block_max = omega arith }

recv-IsSound_example :
    let out =
      (recv
        (λ bytes. bytes)
        (7 ∷ 8 ∷ 9 ∷ [])
        accept
        started
        0
        first_segment
        (7 ∷ 8 ∷ 9 ∷ [])
        true).1 in
    IsSound out × (out.have ≡ add64 0 3)
unfolding recv
recv-IsSound_example =
    recv-IsSound (λ bytes. bytes) (7 ∷ 8 ∷ 9 ∷ []) accept started 0 first_segment (7 ∷ 8 ∷ 9 ∷ [])
      true started-IsReady started-IsSized (omega arith) refl

-- Its one chunk is downloaded.
abbrev last : Thread
last = record (new_thread 1 0) { busy = true }

abbrev complete : Dl
complete = record started { have = 3; threads = last ∷ []; bitmap = bita_set (bita_new 1) 0 }

complete-IsSound : IsSound complete
complete-IsSound =
    let (bytes, room, empty) = bita_new_lem 1 (omega arith) in
    record {
      covers = record {
        below = λ j h. ground (arith, bita_get-bita_set (bita_new 1) 0 bytes (omega arith) j);
        above = λ j h. ground arith;
      };
      bitmap = (
        bita_set-IsBytes (bita_new 1) 0 bytes,
        omega (arith, length-bita_set (bita_new 1) 0 bytes),
      );
      threads = ((omega arith, λ no. absurd (not_idle no)), tt);
    }

recv_done-IsSound_example :
    let out = (recv_done started 0 first_segment true).0 in
    IsSound out
    × (first_segment.avail ≡ 0 → out.threads ≡ [])
    × (0 < first_segment.avail
        → (out.allbusy ≡ false) × (u : Thread) × IsFreed first_segment u × (out.threads ≡ u ∷ []))
unfolding recv_done
recv_done-IsSound_example =
    recv_done-IsSound started 0 first_segment true started-IsSound refl refl refl

recv_done-finished_example : bita_get (recv_done complete 0 last true).0.bitmap 0 ≡ 1
unfolding recv_done
recv_done-finished_example =
    recv_done-finished complete 0 last true complete-IsSound refl refl refl 0 (omega arith)

recv_check-fails_example :
    let out = (recv_check (λ bytes. bytes) (1 ∷ []) reject complete 0 last []).1 in
    (bita_get out.bitmap 0 ≡ 1) × (1 ≤ count out.threads 0)
unfolding recv_check
recv_check-fails_example =
    recv_check-fails (λ bytes. bytes) (1 ∷ []) reject complete 0 last [] refl refl
      complete-IsSound.bitmap
      (record { file = omega arith; block = omega arith; block_max = omega arith }) (omega arith)
      (omega arith) 0 (omega arith) (omega arith)

-- A file of three bytes is checked by its root, here the file itself.
started-IsStored :
    IsStored
      (λ bytes. bytes)
      (7 ∷ 8 ∷ 9 ∷ [])
      reject
      (7 ∷ 8 ∷ 9 ∷ [])
      started.size
      started.hash_block
started-IsStored = record {
  whole = refl;
  chunks = omega arith;
  one = λ h. refl;
  blocks = λ num h. absurd (omega arith);
}

recv-true_example :
    (recv (λ bytes. bytes) (7 ∷ 8 ∷ 9 ∷ []) reject started 0 first_segment (7 ∷ 8 ∷ 9 ∷ []) true).0
    ≡ true
recv-true_example =
    recv-true (λ bytes. bytes) (7 ∷ 8 ∷ 9 ∷ []) reject (7 ∷ 8 ∷ 9 ∷ []) started 0 first_segment
      (7 ∷ 8 ∷ 9 ∷ []) started-IsReady started-IsSized started-IsStored refl refl
