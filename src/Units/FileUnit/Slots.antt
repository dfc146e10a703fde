-- ===== src/Units/FileUnit/Slots.antt =====
-- The pool slot of a file unit: after a write into one file, and after a read that fails.
use vision_flow.Base.{
  ℕ, ◌+◌, ◌%◌, ◌^◌, ◌<◌, ◌≡◌, ◌≢◌, refl, ap, ◌∙◌, true, false, some, List, arith, ◌==◌,
  if◌then◌else◌,
}
use vision_flow.Error.{VfErr, success, is_success}
use vision_flow.Framebuffer.Files.{Done, write_to_fptr, read_from_fptr}
use vision_flow.Sync.{Returned, Works}
use vision_flow.Sync.Wait.{Wake, returned}
use vision_flow.BuffPool.{Pool, release_at}
use vision_flow.BuffPool.Slots.{slot_at}
use vision_flow.BuffPool.Invariant.{IsValid, IsLent, marked, cleared}
use vision_flow.BuffPool.Lending.{acquire_success, release_lent, release_marked, slot_at-ne-zero}
use vision_flow.BuffPool.Blocking.{acquire_blocking-eq-acquire}
use vision_flow.BuffPool.Threads as PoolCalls
use vision_flow.BuffQueue.Threads as QueueCalls
use vision_flow.Units.{put_frame, Turn, ends}
use vision_flow.Units.FileUnit.{
  mode_in, mode_out, UnitData, ready, Library, World, put_stream, reopen, input_path,
}
use vision_flow.Units.FileUnit.Input.{acquired, loaded, get_in, read_frame}
use vision_flow.Units.FileUnit.Output.{saved, send_out, write_frame}
use vision_flow.Units.FileUnit.Operations.{get_as, get_by, get_data, send_as, send_by, send_data}

module _ {S : Type 0} (lib : Library S) where
  -- A unit that writes into one file, whose current frame is a lent slot of its valid pool, returns what the
  -- write returned. Whatever that is, the slot is free again, the unit holds no frame and has counted it,
  -- and the stream is as the write left it.
  pub send_out-frees :
      (rc rc_rel : Returned) (w : World S) (d : UnitData) (i : ℕ) (r : Done S)
      → w.internal ≡ ready d
      → d.mode ≡ mode_out
      → d.split_output ≡ 0
      → d.has_pool ≡ true
      → d.file.fp ≢ 0
      → IsValid w.pool
      → Works rc_rel
      → i < w.pool.capacity
      → IsLent w.pool i
      → d.current_fb ≡ slot_at w.pool.place i
      → write_to_fptr lib.io (w.frames d.current_fb) (w.streams d.file.fp) ≡ some r
      → send_data lib rc rc_rel w
        ≡ ends r.err (record w {
          streams = put_stream w.streams d.file.fp r.stream;
          pool = cleared w.pool i;
          internal = ready (record d { current_fb = 0; frame_idx = (d.frame_idx + 1) % 2 ^ 32 });
        })
  unfolding send_data send_out saved
  send_out-frees rc rc_rel w d i r at out one has opened v works h lent place wrote =
      let given : d.current_fb ≢ 0 = omega (arith, slot_at-ne-zero i v) in
      let not_null : (d.current_fb == 0) ≡ false = ground arith in
      let not_split : (d.split_output == 1) ≡ false = ground arith in
      let stream : (d.file.fp == 0) ≡ false = ground arith in
      let back : (release_at rc_rel w.pool d.current_fb).obj ≡ cleared w.pool i =
        ap (λ a. (release_at rc_rel w.pool a).obj) place
        ∙ ap (λ o. o.obj) (release_lent rc_rel w.pool i v works h lent) in
      let ended = λ (p : Pool). ends r.err (record w {
        streams = put_stream w.streams d.file.fp r.stream;
        pool = p;
        internal = ready (record d { current_fb = 0; frame_idx = (d.frame_idx + 1) % 2 ^ 32 });
      }) in
      let frame : write_frame lib w d ≡ some r = rw (not_null, stream) wrote in
      let asked : send_data lib rc rc_rel w ≡ saved lib rc_rel d w (write_frame lib w d) =
        ap (send_by lib rc rc_rel w) at
        ∙ rw not_null refl
        ∙ ap (send_as lib rc rc_rel d w) out
        ∙ rw not_split refl in
      asked
      ∙ ap (saved lib rc_rel d w) frame
      ∙ ap (λ b. ended (if b then (release_at rc_rel w.pool d.current_fb).obj else w.pool)) has
      ∙ ap ended back

  -- A unit that reads from files, with a slot of its valid pool available, whose read fails after the file
  -- was opened, returns the error of the read and gives the slot back: the pool is as it was, and the unit
  -- holds no frame.
  pub get_in_failed :
      (rc rc_rel : Returned) (wakes : List (Wake PoolCalls.Op))
      (pop_wakes : List (Wake QueueCalls.Op)) (w : World S) (d : UnitData) (path : List ℕ)
      (e : VfErr) (read : ℕ → Done S)
      → w.internal ≡ ready d
      → d.mode ≡ mode_in
      → input_path d d.frame_set ≡ some path
      → (reopen lib mode_in path d.file).0 ≡ success
      → (reopen lib mode_in path d.file).1.fp ≢ 0
      → IsValid w.pool
      → Works rc
      → Works rc_rel
      → w.pool.available ≢ 0
      → is_success e ≡ false
      → ((i : ℕ) → i < w.pool.capacity → (read i).err ≡ e)
      → ((i : ℕ)
          → i < w.pool.capacity
          → read_from_fptr lib.io (w.frames (slot_at w.pool.place i)) (lib.fopen mode_in path).1
            ≡ some (read i))
      → (w' : World S) × (get_data lib rc wakes rc_rel pop_wakes w ≡ ends e w')
        × (w'.pool ≡ w.pool)
        × (w'.in_queue ≡ w.in_queue)
        × (w'.internal
            ≡ ready (record d { file = (reopen lib mode_in path d.file).1; current_fb = 0 }))
  unfolding get_data get_in acquired loaded
  get_in_failed rc rc_rel wakes pop_wakes w d path e read at reads here opens stream v works works'
        free wrong same fails =
      let file = reopen lib mode_in path d.file in
      let d1 = record d { file = file.1 } in
      let a = acquire_success rc w.pool v works free in
      let slot = slot_at w.pool.place a.0 in
      let d2 = record d1 { current_fb = slot } in
      let streamed = record w {
        streams = put_stream w.streams file.1.fp (lib.fopen mode_in path).1;
      } in
      let w1 = record streamed { internal = ready d1 } in
      let w2 = record w1 { pool = marked w.pool a.0; internal = ready d2 } in
      let not_null : (slot == 0) ≡ false = ground (arith, a.3) in
      let no_stream : (file.1.fp == 0) ≡ false = ground arith in
      let found : (file.1.fp == file.1.fp) ≡ true = ground arith in
      let got = acquire_blocking-eq-acquire rc w.pool wakes v works free ∙ ap returned a.4 in
      let after_open : VfErr → Turn (World S) = λ x.
        let wx = if is_success x then streamed else w in
        let w' = record wx { internal = ready d1 } in
        if is_success x
        then acquired lib rc_rel w' d1 (PoolCalls.acquire_blocking_at rc w.pool wakes)
        else ends x w' in
      let frame : read_frame lib w2 d2 ≡ some (read a.0) =
        rw (not_null, no_stream, found) (fails a.0 a.1) in
      let back = release_marked rc_rel w.pool a.0 v works' free a.1 a.2 in
      let bad : is_success (read a.0).err ≡ false = ap is_success (same a.0 a.1) ∙ wrong in
      let after_read : VfErr → Pool → Turn (World S) = λ x p. ends x (record w2 {
        streams = put_stream w2.streams file.1.fp (read a.0).stream;
        frames = put_frame w.frames slot (read a.0).fb;
        pool = p;
        internal = ready (record d2 { current_fb = 0 });
      }) in
      (
        record w2 {
          streams = put_stream w2.streams file.1.fp (read a.0).stream;
          frames = put_frame w.frames slot (read a.0).fb;
          pool = w.pool;
          internal = ready (record d2 { current_fb = 0 });
        },
        ap (get_by lib rc wakes rc_rel pop_wakes w) at
            ∙ ap (get_as lib rc wakes rc_rel pop_wakes d w) reads
            ∙ ap (get_in lib rc wakes rc_rel d w) here
            ∙ ap after_open opens
            ∙ ap (acquired lib rc_rel w1 d1) got
            ∙ ap (loaded lib rc_rel w2 d2) frame
            ∙ rw bad refl
            ∙ ap (λ x. after_read x (release_at rc_rel w2.pool slot).obj) (same a.0 a.1)
            ∙ ap (after_read e) back,
        refl,
        refl,
        refl,
      )
