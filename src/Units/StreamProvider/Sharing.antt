-- ===== src/Units/StreamProvider/Sharing.antt =====
-- How the stream provider counts the references to a frame that it passes on.
use vision_flow.Base.{
  ℕ, suc, ◌-◌, ◌^◌, ◌≤◌, ◌<◌, ◌≡◌, ◌≢◌, refl, ap, ◌∙◌, true, false, some, List, [], ◌∷◌, ◌++◌,
  arith, replicate, ◌==◌,
}
use vision_flow.Error.{success, oom}
use vision_flow.Framebuffer.RefCount.{refs, unrefs, unrefs-refs, unref_only, unref_one}
use vision_flow.Sync.{Returned, Works}
use vision_flow.Sync.Wait.{Wake, returned}
use vision_flow.BuffPool.{release_at}
use vision_flow.BuffPool.Slots.{slot_at}
use vision_flow.BuffPool.Invariant as PoolInvariant
use vision_flow.BuffPool.Lending.{release_lent, slot_at-ne-zero}
use vision_flow.BuffQueue.{Queue, put, drop_head, front}
use vision_flow.BuffQueue.Invariant as QueueInvariant
use vision_flow.BuffQueue.Contents.{contents, contents-put, contents-drop_head}
use vision_flow.BuffQueue.Refine.{push_success, push_full, pop_success}
use vision_flow.BuffQueue.Threads.{Op}
use vision_flow.BuffQueue.Blocking.{pop_blocking-eq-pop}
use vision_flow.Units.{put_frame, Turn, ends, if_successful}
use vision_flow.Units.Heap.{put_here}
use vision_flow.Units.StreamProvider.{
  UnitData, World, ready, get_data, process_data, send_data, send_to, popped,
}

-- The three operations as vf_unit_run calls them.
abbrev pub turn : Returned → List (Wake Op) → Returned → Returned → World → Turn World
turn rc wakes rc_push rc_rel w =
    if_successful (if_successful (get_data rc wakes w) process_data) (send_data rc_push rc_rel)

-- The world after a get.
abbrev taken : World → UnitData → Queue → World
taken w d q = record w {
  frames = put_frame w.frames (front q) (refs d.consumer_count (w.frames (front q)));
  in_queue = some (drop_head q);
  internal = ready (record d { current_fb = front q });
}

get_data_lem :
    (rc : Returned) (wakes : List (Wake Op)) (w : World) (d : UnitData) (q : Queue)
    → w.internal ≡ ready d
    → w.in_queue ≡ some q
    → QueueInvariant.IsValid q
    → Works rc
    → q.count ≢ 0
    → front q ≢ 0
    → get_data rc wakes w ≡ ends success (taken w d q)
unfolding get_data popped
get_data_lem rc wakes w d q at queue v works ne given =
    let not_null : (front q == 0) ≡ false = ground arith in
    rw
      (
        at,
        queue,
        pop_blocking-eq-pop rc q wakes v works ne ∙ ap returned (pop_success rc v works ne),
        not_null,
      )
      refl

send_data_lem :
    (rc rc_rel : Returned) (w : World) (d : UnitData) (q : Queue)
    → w.internal ≡ ready d
    → d.current_fb ≢ 0
    → w.out_queue ≡ some q
    → QueueInvariant.IsValid q
    → Works rc
    → q.count < q.capacity
    → send_data rc rc_rel w
      ≡ ends success (record w {
        out_queue = some (put q d.current_fb);
        internal = ready (record d { current_fb = 0 });
      })
unfolding send_data send_to
send_data_lem rc rc_rel w d q at given queue v works room =
    let not_null : (d.current_fb == 0) ≡ false = ground arith in
    rw (at, not_null, queue, push_success rc d.current_fb v works given room) refl

-- What a turn has passed on: the oldest frame of the one queue is the last of the other, where it
-- stands once, and it carries a reference for each consumer: when all n + 1 consumers drop theirs, only
-- the last releases the frame, which is then as it was.
pub record Passed (w w' : World) (d : UnitData) (q r : Queue) (n : ℕ) : Type 0 where
  pub rest : Queue
  pub taken : (w'.in_queue ≡ some rest) × (contents q ≡ front q ∷ contents rest)
  pub longer : Queue
  pub passed_on : (w'.out_queue ≡ some longer) × (contents longer ≡ contents r ++ (front q ∷ []))
  pub references :
      unrefs (suc n) (w'.frames (front q)) ≡ (replicate n false ++ (true ∷ []), w.frames (front q))
  pub idle : w'.internal ≡ ready (record d { current_fb = 0 })

-- A turn of a unit with n + 1 consumers between two valid queues, the first with a frame without
-- references and the second with room, whose locks succeed, returns VF_SUCCESS and passes the frame on
-- with n + 1 references.
pub turn-Passed :
    (rc rc_push rc_rel : Returned) (wakes : List (Wake Op)) (w : World) (d : UnitData) (q r : Queue)
    (n : ℕ)
    → w.internal ≡ ready d
    → d.consumer_count ≡ suc n
    → suc n < 2 ^ 32
    → w.in_queue ≡ some q
    → QueueInvariant.IsValid q
    → Works rc
    → q.count ≢ 0
    → front q ≢ 0
    → (w.frames (front q)).ref_count ≡ 0
    → w.out_queue ≡ some r
    → QueueInvariant.IsValid r
    → Works rc_push
    → r.count < r.capacity
    → (w' : World) × (turn rc wakes rc_push rc_rel w ≡ ends success w') × Passed w w' d q r n
turn-Passed rc rc_push rc_rel wakes w d q r n at count small from v works ne given none to rv rworks
      room =
    let got = get_data_lem rc wakes w d q at from v works ne given in
    let sent =
      send_data_lem rc_push rc_rel (taken w d q) (record d { current_fb = front q }) r refl given to
        rv rworks room in
    let fb = w.frames (front q) in
    (
      _,
      ap (λ t. if_successful (if_successful t process_data) (send_data rc_push rc_rel)) got ∙ sent,
      record {
        rest = drop_head q;
        taken = (refl, contents-drop_head v ne);
        longer = put r (front q);
        passed_on = (refl, contents-put (front q) rv room);
        references =
            ap (unrefs (suc n)) (put_here w.frames (front q) _ ∙ ap (λ (k : ℕ). refs k fb) count)
            ∙ unrefs-refs n fb none small;
        idle = refl;
      },
    )

-- A send to a valid queue that is full, of a frame with more than one reference, returns VF_OOM and
-- drops one reference only: the frame is not released, the source pool is as it was, and the unit has
-- let go of the frame, which no consumer has been given.
pub failed_send-lost :
    (rc rc_rel : Returned) (w : World) (d : UnitData) (q : Queue)
    → w.internal ≡ ready d
    → d.current_fb ≢ 0
    → 1 < (w.frames d.current_fb).ref_count
    → (w.frames d.current_fb).ref_count < 2 ^ 32
    → w.out_queue ≡ some q
    → QueueInvariant.IsValid q
    → Works rc
    → q.count ≡ q.capacity
    → (w' : World) × (send_data rc rc_rel w ≡ ends oom w')
      × (w'.src_pool ≡ w.src_pool)
      × (w'.out_queue ≡ some q)
      × (w'.internal ≡ ready (record d { current_fb = 0 }))
      × ((w'.frames d.current_fb).ref_count ≡ (w.frames d.current_fb).ref_count - 1)
unfolding send_data send_to
failed_send-lost rc rc_rel w d q at given many small queue v works full =
    let not_null : (d.current_fb == 0) ≡ false = ground arith in
    let dropped = unref_one (w.frames d.current_fb) many small in
    (
      record w {
        frames =
            put_frame w.frames d.current_fb (record (w.frames d.current_fb) {
              ref_count = (w.frames d.current_fb).ref_count - 1;
            });
        internal = ready (record d { current_fb = 0 });
        out_queue = some q;
      },
      rw (at, not_null, queue, push_full rc d.current_fb v works given full, dropped) refl,
      refl,
      refl,
      refl,
      ap (λ fb. fb.ref_count) (put_here w.frames d.current_fb _),
    )

-- A send to a valid queue that is full, of a frame with no other reference that is a lent slot of a
-- valid source pool, returns VF_OOM and frees the slot.
pub failed_send-released :
    (rc rc_rel : Returned) (w : World) (d : UnitData) (q : Queue) (i : ℕ)
    → w.internal ≡ ready d
    → (w.frames d.current_fb).ref_count ≤ 1
    → w.out_queue ≡ some q
    → QueueInvariant.IsValid q
    → Works rc
    → q.count ≡ q.capacity
    → PoolInvariant.IsValid w.src_pool
    → Works rc_rel
    → i < w.src_pool.capacity
    → PoolInvariant.IsLent w.src_pool i
    → d.current_fb ≡ slot_at w.src_pool.place i
    → (w' : World) × (send_data rc rc_rel w ≡ ends oom w')
      × (w'.src_pool ≡ PoolInvariant.cleared w.src_pool i)
      × (w'.internal ≡ ready (record d { current_fb = 0 }))
unfolding send_data send_to
failed_send-released rc rc_rel w d q i at only queue v works full sv sworks h lent place =
    let given : d.current_fb ≢ 0 = omega (arith, slot_at-ne-zero i sv) in
    let not_null : (d.current_fb == 0) ≡ false = ground arith in
    let dropped = unref_only (w.frames d.current_fb) only in
    let back : (release_at rc_rel w.src_pool d.current_fb).obj
        ≡ PoolInvariant.cleared w.src_pool i =
      ap (λ a. (release_at rc_rel w.src_pool a).obj) place
      ∙ ap (λ o. o.obj) (release_lent rc_rel w.src_pool i sv sworks h lent) in
    (
      record w {
        frames = put_frame w.frames d.current_fb (record (w.frames d.current_fb) { ref_count = 0 });
        src_pool = PoolInvariant.cleared w.src_pool i;
        internal = ready (record d { current_fb = 0 });
        out_queue = some q;
      },
      rw (at, not_null, queue, push_full rc d.current_fb v works given full, dropped, back) refl,
      refl,
      refl,
    )
