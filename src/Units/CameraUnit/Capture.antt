-- ===== src/Units/CameraUnit/Capture.antt =====
-- The turns of a camera unit.
use vision_flow.Base.{
  ℕ, ◌<◌, ◌≡◌, ◌≢◌, refl, ap, ◌∙◌, false, some, List, [], ◌∷◌, ◌++◌, arith, get_or, ◌==◌,
}
use vision_flow.Error.{VfErr, success, is_success}
use vision_flow.Framebuffer.{Framebuffer}
use vision_flow.Sync.{Returned, Works}
use vision_flow.Sync.Wait.{Wake, returned}
use vision_flow.BuffPool.{Pool}
use vision_flow.BuffPool.Slots.{slot_at}
use vision_flow.BuffPool.Invariant as PoolInvariant
use vision_flow.BuffPool.Invariant.{marked}
use vision_flow.BuffPool.Lending.{acquire_success, release_marked}
use vision_flow.BuffPool.Blocking.{acquire_blocking-eq-acquire}
use vision_flow.BuffPool.Threads.{Op}
use vision_flow.BuffQueue.{Queue, put}
use vision_flow.BuffQueue.Invariant as QueueInvariant
use vision_flow.BuffQueue.Contents.{contents, contents-put}
use vision_flow.BuffQueue.Refine.{push_success}
use vision_flow.Units.{put_frame, Turn, ends, if_successful}
use vision_flow.Units.Heap.{put_here}
use vision_flow.Units.CameraUnit.{
  Camera, UnitData, World, ready, captured, acquired, get_by, get_data, process_data, send_data,
  send_to,
}

module _ {K C : Type 0} (camera : Camera K C) where
  -- The world while the unit holds slot i.
  abbrev pub holding : World K C → UnitData C → ℕ → World K C
  holding w d i = record w {
    pool = marked w.pool i;
    internal = ready (record d { current_fb = slot_at w.pool.place i });
  }

  pub get_data_lem :
      (rc rc_rel : Returned) (wakes : List (Wake Op)) (w : World K C) (d : UnitData C)
      → w.internal ≡ ready d
      → PoolInvariant.IsValid w.pool
      → Works rc
      → w.pool.available ≢ 0
      → (i : ℕ) × (i < w.pool.capacity)
        × (get_or w.pool.in_use i 0 ≡ 0)
        × (slot_at w.pool.place i ≢ 0)
        × (get_data camera rc wakes rc_rel w
            ≡ captured camera rc_rel
                (holding w d i)
                (record d { current_fb = slot_at w.pool.place i })
                (camera.acquire_frame d.camera (w.frames (slot_at w.pool.place i))))
  unfolding get_data acquired
  get_data_lem rc rc_rel wakes w d at v works free =
      let a = acquire_success rc w.pool v works free in
      (
        a.0,
        a.1,
        a.2,
        a.3,
        ap (get_by camera rc wakes rc_rel w) at
            ∙ ap (acquired camera rc_rel w d)
                (acquire_blocking-eq-acquire rc w.pool wakes v works free ∙ ap returned a.4),
      )

  -- With a slot available in a valid pool, a capture that the camera refuses returns the camera's code and
  -- gives the slot back: the pool is as it was, and the unit holds no frame.
  pub get_data_failed :
      (rc rc_rel : Returned) (wakes : List (Wake Op)) (w : World K C) (d : UnitData C) (e : VfErr)
      (c : C) (given : Framebuffer → Framebuffer)
      → w.internal ≡ ready d
      → PoolInvariant.IsValid w.pool
      → Works rc
      → Works rc_rel
      → w.pool.available ≢ 0
      → is_success e ≡ false
      → ((fb : Framebuffer) → camera.acquire_frame d.camera fb ≡ (e, c, given fb))
      → (w' : World K C) × (get_data camera rc wakes rc_rel w ≡ ends e w')
        × (w'.pool ≡ w.pool)
        × (w'.out_queue ≡ w.out_queue)
        × (w'.internal ≡ ready (record d { camera = c; current_fb = 0 }))
  unfolding captured
  get_data_failed rc rc_rel wakes w d e c given at v works works' free wrong refuses =
      let g = get_data_lem rc rc_rel wakes w d at v works free in
      let slot = slot_at w.pool.place g.0 in
      let d' = record d { current_fb = slot } in
      let after = λ (p : Pool). record w {
        frames = put_frame w.frames slot (given (w.frames slot));
        pool = p;
        internal = ready (record d { camera = c; current_fb = 0 });
      } in
      (
        after w.pool,
        g.4
            ∙ ap (captured camera rc_rel (holding w d g.0) d') (refuses (w.frames slot))
            ∙ rw wrong refl
            ∙ ap (λ p. ends e (after p)) (release_marked rc_rel w.pool g.0 v works' free g.1 g.2),
        refl,
        refl,
        refl,
      )

  -- What a turn has delivered: the frame that the camera gave lies in a slot that was free, the only one
  -- that the pool has lent more; it is the last of the queue, it was announced, and the unit holds none.
  pub record Delivered (w w' : World K C) (d : UnitData C) (q : Queue) (c : C)
      (given : Framebuffer → Framebuffer) : Type 0 where
    pub slot : ℕ
    pub in_pool : slot < w.pool.capacity
    pub was_free : get_or w.pool.in_use slot 0 ≡ 0
    pub pool : w'.pool ≡ marked w.pool slot
    pub frame : w'.frames (slot_at w.pool.place slot) ≡ given (w.frames (slot_at w.pool.place slot))
    pub longer : Queue
    pub passed_on :
        (w'.out_queue ≡ some longer)
        × (contents longer ≡ contents q ++ (slot_at w.pool.place slot ∷ []))
    pub announced : w'.published ≡ w.published ++ (slot_at w.pool.place slot ∷ [])
    pub idle : w'.internal ≡ ready (record d { camera = c; current_fb = 0 })

  -- The three operations as vf_unit_run calls them.
  abbrev pub turn : Returned → List (Wake Op) → Returned → Returned → World K C → Turn (World K C)
  turn rc wakes rc_rel rc_push w =
      if_successful (if_successful (get_data camera rc wakes rc_rel w) process_data)
        (send_data rc_push rc_rel)

  -- A turn of a unit with a slot available in its valid pool and room in its valid queue, whose camera
  -- gives a frame and whose locks succeed, returns VF_SUCCESS and has delivered the frame.
  pub turn-Delivered :
      (rc rc_rel rc_push : Returned) (wakes : List (Wake Op)) (w : World K C) (d : UnitData C)
      (q : Queue) (c : C) (given : Framebuffer → Framebuffer)
      → w.internal ≡ ready d
      → PoolInvariant.IsValid w.pool
      → Works rc
      → w.pool.available ≢ 0
      → w.out_queue ≡ some q
      → QueueInvariant.IsValid q
      → Works rc_push
      → q.count < q.capacity
      → ((fb : Framebuffer) → camera.acquire_frame d.camera fb ≡ (success, c, given fb))
      → (w' : World K C) × (turn rc wakes rc_rel rc_push w ≡ ends success w')
        × Delivered w w' d q c given
  unfolding captured send_data send_to
  turn-Delivered rc rc_rel rc_push wakes w d q c given at v works free to qv qworks room gives =
      let g = get_data_lem rc rc_rel wakes w d at v works free in
      let slot = slot_at w.pool.place g.0 in
      let d' = record d { current_fb = slot } in
      let d2 = record d' { camera = c } in
      let w2 = record (holding w d g.0) {
        frames = put_frame w.frames slot (given (w.frames slot));
        internal = ready d2;
      } in
      let got = g.4 ∙ ap (captured camera rc_rel (holding w d g.0) d') (gives (w.frames slot)) in
      let not_null : (slot == 0) ≡ false = ground (arith, g.3) in
      (
        record w2 {
          out_queue = some (put q slot);
          published = w.published ++ (slot ∷ []);
          internal = ready (record d2 { current_fb = 0 });
        },
        ap (λ t. if_successful (if_successful t process_data) (send_data rc_push rc_rel)) got
            ∙ rw not_null refl
            ∙ ap (send_to rc_push rc_rel d2 w2) to
            ∙ rw (push_success rc_push slot qv qworks g.3 room) refl,
        record {
          slot = g.0;
          in_pool = g.1;
          was_free = g.2;
          pool = refl;
          frame = put_here w.frames slot (given (w.frames slot));
          longer = put q slot;
          passed_on = (refl, contents-put slot qv room);
          announced = refl;
          idle = refl;
        },
      )
