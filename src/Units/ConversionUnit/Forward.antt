-- ===== src/Units/ConversionUnit/Forward.antt =====
-- A whole turn of the unit: get, process and send.
use vision_flow.Base.{
  ℕ, ◌≤◌, ◌<◌, ◌≡◌, ◌≢◌, ◌∙◌, refl, ap, sym, subst, true, some, List, [], ◌∷◌, ◌++◌, get_or,
}
use vision_flow.Error.{success}
use vision_flow.Framebuffer.{Framebuffer}
use vision_flow.Sync.{Returned, Works}
use vision_flow.Sync.Wait.{Wake}
use vision_flow.BuffPool.Slots.{slot_at}
use vision_flow.BuffPool.Invariant as PoolInvariant
use vision_flow.BuffPool.Invariant.{IsLent, marked, cleared}
use vision_flow.BuffPool.Threads as PoolCalls
use vision_flow.BuffQueue.{Queue, front, drop_head}
use vision_flow.BuffQueue.Invariant as QueueInvariant
use vision_flow.BuffQueue.Contents.{contents, contents-drop_head}
use vision_flow.BuffQueue.Threads as QueueCalls
use vision_flow.Conversion.Pixels
use vision_flow.Units.{put_frame, Turn, ends, if_successful}
use vision_flow.Units.Heap.{put_here, put_elsewhere}
use vision_flow.Units.ConversionUnit.{UnitData, World, ready, get_data, process_data, send_data}
use vision_flow.Units.ConversionUnit.Cycle.{
  holding, get_data_lem, process_data_success, send_data_success,
}

-- What a turn takes: the thread calls of its four calls, and the wakes of the two that may wait.
pub record Calls : Type 0 where
  pub pops : Returned
  pub acquires : Returned
  pub releases : Returned
  pub pushes : Returned
  pub gives_back : Returned
  pub pop_wakes : List (Wake QueueCalls.Op)
  pub acquire_wakes : List (Wake PoolCalls.Op)

-- The three operations as vf_unit_run calls them.
abbrev pub turn : Calls → World → Turn World
turn c w =
    if_successful
      (if_successful (get_data c.pops c.pop_wakes w)
        (process_data c.acquires c.acquire_wakes c.releases))
      (send_data c.pushes c.releases c.gives_back)

-- The calls that a turn without an error makes succeed.
pub record AllWork (c : Calls) : Type 0 where
  pub pops : Works c.pops
  pub acquires : Works c.acquires
  pub pushes : Works c.pushes
  pub gives_back : Works c.gives_back

-- A unit between two queues, with a frame to take and room to pass one on. The oldest frame is a lent
-- slot i of the source pool, to which there is no other reference, and no slot of the unit's own pool.
pub record IsFed (w : World) (d : UnitData) (q r : Queue) (i : ℕ) : Type 0 where
  pub set_up : w.internal ≡ ready d
  pub from : w.in_queue ≡ some q
  pub from_valid : QueueInvariant.IsValid q
  pub held : q.count ≢ 0
  pub to : w.out_queue ≡ some r
  pub to_valid : QueueInvariant.IsValid r
  pub room : r.count < r.capacity
  pub pool_valid : PoolInvariant.IsValid w.pool
  pub free : w.pool.available ≢ 0
  pub has_src : d.has_src_pool ≡ true
  pub src_valid : PoolInvariant.IsValid w.src_pool
  pub in_src : i < w.src_pool.capacity
  pub lent : IsLent w.src_pool i
  pub place : front q ≡ slot_at w.src_pool.place i
  pub given : front q ≢ 0
  pub only : (w.frames (front q)).ref_count ≤ 1
  pub apart : (j : ℕ) → j < w.pool.capacity → front q ≢ slot_at w.pool.place j

-- What a turn has passed on: the oldest frame left the input queue, the frame that was made of it is
-- the last of the output queue, its slot is the only one that the pool has lent more, and the slot of
-- the input frame is free again.
pub record Forwarded (w w' : World) (d : UnitData) (q r : Queue) (i : ℕ) (made : ℕ → Framebuffer)
    : Type 0 where
  pub slot : ℕ
  pub in_pool : slot < w.pool.capacity
  pub was_free : get_or w.pool.in_use slot 0 ≡ 0
  pub rest : Queue
  pub taken : (w'.in_queue ≡ some rest) × (contents q ≡ front q ∷ contents rest)
  pub longer : Queue
  pub passed_on :
      (w'.out_queue ≡ some longer)
      × (contents longer ≡ contents r ++ (slot_at w.pool.place slot ∷ []))
  pub converted : w'.frames (slot_at w.pool.place slot) ≡ made slot
  pub pool : w'.pool ≡ marked w.pool slot
  pub src_pool : w'.src_pool ≡ cleared w.src_pool i
  pub idle : w'.internal ≡ ready (record d { in_fb = 0; out_fb = 0 })

-- A turn of a unit that is fed, whose calls work and whose conversion succeeds, returns VF_SUCCESS and has
-- forwarded the frame.
pub turn-Forwarded :
    (c : Calls) (w : World) (d : UnitData) (q r : Queue) (i : ℕ) (made : ℕ → Framebuffer)
    → AllWork c
    → IsFed w d q r i
    → ((j : ℕ)
        → j < w.pool.capacity
        → Pixels.process d.conv_ctx (w.frames (front q)) (w.frames (slot_at w.pool.place j))
          ≡ some (success, made j))
    → (w' : World) × (turn c w ≡ ends success w') × Forwarded w w' d q r i made
turn-Forwarded c w d q r i made works fed converts =
    let d1 = record d { in_fb = front q } in
    let w1 = record w { in_queue = some (drop_head q); internal = ready d1 } in
    let got =
      get_data_lem c.pops c.pop_wakes w d q fed.set_up fed.from fed.from_valid works.pops
        fed.held in
    let (j, hj, was_free, not_null, processed) =
      process_data_success c.acquires c.releases c.acquire_wakes w1 d1 made refl fed.given
        fed.pool_valid works.acquires fed.free converts in
    let slot = slot_at w.pool.place j in
    let d2 = record d1 { out_fb = slot } in
    let w2 = record (holding w1 d1 j) { frames = put_frame w.frames slot (made j) } in
    let kept = put_elsewhere w.frames slot (front q) (made j) (fed.apart j hj) in
    let (r', longer, sent) =
      send_data_success c.pushes c.releases c.gives_back w2 d2 r i refl not_null fed.to fed.to_valid
        works.pushes fed.room fed.has_src fed.src_valid works.gives_back fed.in_src fed.lent
        fed.place (subst (λ fb. fb.ref_count ≤ 1) (sym kept) fed.only) in
    (
      _,
      ap
            (λ t.
              if_successful (if_successful t (process_data c.acquires c.acquire_wakes c.releases))
                (send_data c.pushes c.releases c.gives_back))
            got
          ∙ ap (λ t. if_successful t (send_data c.pushes c.releases c.gives_back)) processed
          ∙ sent,
      record {
        slot = j;
        in_pool = hj;
        was_free = was_free;
        rest = drop_head q;
        taken = (refl, contents-drop_head fed.from_valid fed.held);
        longer = r';
        passed_on = (refl, longer);
        converted =
            put_elsewhere w2.frames (front q) slot _ (λ e. fed.apart j hj (sym e))
            ∙ put_here w.frames slot (made j);
        pool = refl;
        src_pool = refl;
        idle = refl;
      },
    )
