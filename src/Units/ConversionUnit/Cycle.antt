-- ===== src/Units/ConversionUnit/Cycle.antt =====
-- One frame through the unit: what each operation does where the locks succeed.
use vision_flow.Base.{
  ℕ, ◌≤◌, ◌<◌, ◌≡◌, ◌≢◌, refl, ap, ◌∙◌, true, false, some, List, [], ◌∷◌, ◌++◌, arith, get_or, ◌==◌,
}
use vision_flow.Error.{VfErr, success, oom, is_success}
use vision_flow.Framebuffer.{Framebuffer}
use vision_flow.Framebuffer.RefCount.{unref_only}
use vision_flow.Sync.{Returned, Works}
use vision_flow.Sync.Wait.{Wake, returned}
use vision_flow.BuffPool.{release_at}
use vision_flow.BuffPool.Slots.{slot_at}
use vision_flow.BuffPool.Invariant as PoolInvariant
use vision_flow.BuffPool.Invariant.{IsLent, marked, cleared, marked-IsValid}
use vision_flow.BuffPool.Lending.{acquire_success, release_lent, release_marked, slot_at-ne-zero}
use vision_flow.BuffPool.Threads as PoolCalls
use vision_flow.BuffPool.Blocking.{acquire_blocking-eq-acquire}
use vision_flow.BuffQueue.{Queue, put, drop_head, front}
use vision_flow.BuffQueue.Invariant as QueueInvariant
use vision_flow.BuffQueue.Contents.{contents, contents-put}
use vision_flow.BuffQueue.Refine.{push_success, push_full, pop_success}
use vision_flow.BuffQueue.Threads as QueueCalls
use vision_flow.BuffQueue.Blocking.{pop_blocking-eq-pop}
use vision_flow.Conversion.Pixels
use vision_flow.Units.{put_frame, ends}
use vision_flow.Units.ConversionUnit.{
  UnitData, World, ready, conversion, converted, acquired, get_data, process_data, send_data,
  send_to, sent,
}

-- The world after an acquire of the slot at index i.
abbrev pub holding : World → UnitData → ℕ → World
holding w d i = record w {
  pool = marked w.pool i;
  internal = ready (record d { out_fb = slot_at w.pool.place i });
}

pub not_success : (e : VfErr) → e ≢ success → is_success e ≡ false
not_success e h = ground arith

-- With a slot available, the operation takes a free one and goes by the conversion into it.
pub process_data_lem :
    (rc rc_rel : Returned) (wakes : List (Wake PoolCalls.Op)) (w : World) (d : UnitData)
    → w.internal ≡ ready d
    → d.in_fb ≢ 0
    → PoolInvariant.IsValid w.pool
    → Works rc
    → w.pool.available ≢ 0
    → (i : ℕ) × (i < w.pool.capacity)
      × (get_or w.pool.in_use i 0 ≡ 0)
      × (slot_at w.pool.place i ≢ 0)
      × (process_data rc wakes rc_rel w
          ≡ converted rc_rel
              (holding w d i)
              (record d { out_fb = slot_at w.pool.place i })
              (Pixels.process d.conv_ctx (w.frames d.in_fb) (w.frames (slot_at w.pool.place i))))
unfolding process_data acquired conversion
process_data_lem rc rc_rel wakes w d at given v works ne =
    let a = acquire_success rc w.pool v works ne in
    let slot = slot_at w.pool.place a.0 in
    let not_given : (d.in_fb == 0) ≡ false = ground arith in
    let not_null : (slot == 0) ≡ false = ground (arith, a.3) in
    let r = acquire_blocking-eq-acquire rc w.pool wakes v works ne ∙ ap returned a.4 in
    (a.0, a.1, a.2, a.3, rw (at, not_given, r, not_null) refl)

-- With a slot available in a valid pool, an operation whose conversion succeeds returns VF_SUCCESS: the
-- unit then holds a slot that was free before and is marked now, and that slot's frame is what the
-- conversion made of it. Nothing else changes.
pub process_data_success :
    (rc rc_rel : Returned) (wakes : List (Wake PoolCalls.Op)) (w : World) (d : UnitData)
    (made : ℕ → Framebuffer)
    → w.internal ≡ ready d
    → d.in_fb ≢ 0
    → PoolInvariant.IsValid w.pool
    → Works rc
    → w.pool.available ≢ 0
    → ((i : ℕ)
        → i < w.pool.capacity
        → Pixels.process d.conv_ctx (w.frames d.in_fb) (w.frames (slot_at w.pool.place i))
          ≡ some (success, made i))
    → (i : ℕ) × (i < w.pool.capacity)
      × (get_or w.pool.in_use i 0 ≡ 0)
      × (slot_at w.pool.place i ≢ 0)
      × (process_data rc wakes rc_rel w
          ≡ ends success (record (holding w d i) {
            frames = put_frame w.frames (slot_at w.pool.place i) (made i);
          }))
unfolding converted
process_data_success rc rc_rel wakes w d made at given v works ne converts =
    let p = process_data_lem rc rc_rel wakes w d at given v works ne in
    (
      p.0,
      p.1,
      p.2,
      p.3,
      p.4
          ∙ ap (converted rc_rel (holding w d p.0) (record d { out_fb = slot_at w.pool.place p.0 }))
              (converts p.0 p.1),
    )

-- With a slot available in a valid pool, an operation whose conversion fails returns the conversion's
-- code and gives the slot back: the pool is as it was before, no matter which slot it was. The input
-- frame stays with the unit.
pub process_data_failed :
    (rc rc_rel : Returned) (wakes : List (Wake PoolCalls.Op)) (w : World) (d : UnitData) (e : VfErr)
    (made : ℕ → Framebuffer)
    → w.internal ≡ ready d
    → d.in_fb ≢ 0
    → PoolInvariant.IsValid w.pool
    → Works rc
    → Works rc_rel
    → w.pool.available ≢ 0
    → e ≢ success
    → ((i : ℕ)
        → i < w.pool.capacity
        → Pixels.process d.conv_ctx (w.frames d.in_fb) (w.frames (slot_at w.pool.place i))
          ≡ some (e, made i))
    → (i : ℕ) × (i < w.pool.capacity)
      × (process_data rc wakes rc_rel w
          ≡ ends e (record w {
            frames = put_frame w.frames (slot_at w.pool.place i) (made i);
            internal = ready (record d { out_fb = 0 });
          }))
unfolding converted
process_data_failed rc rc_rel wakes w d e made at given v works works' ne wrong fails =
    let p = process_data_lem rc rc_rel wakes w d at given v works ne in
    let slot = slot_at w.pool.place p.0 in
    let back = release_marked rc_rel w.pool p.0 v works' ne p.1 p.2 in
    (
      p.0,
      p.1,
      p.4
          ∙ ap (converted rc_rel (holding w d p.0) (record d { out_fb = slot })) (fails p.0 p.1)
          ∙ rw (not_success e wrong, back) refl,
    )

-- A send to a valid queue with room.
send_data_lem :
    (rc rc_rel rc_src : Returned) (w : World) (d : UnitData) (q : Queue)
    → w.internal ≡ ready d
    → d.out_fb ≢ 0
    → w.out_queue ≡ some q
    → QueueInvariant.IsValid q
    → Works rc
    → q.count < q.capacity
    → send_data rc rc_rel rc_src w
      ≡ ends success (sent rc_src d (record w { out_queue = some (put q d.out_fb) }))
unfolding send_data send_to
send_data_lem rc rc_rel rc_src w d q at given queue v works room =
    let not_null : (d.out_fb == 0) ≡ false = ground arith in
    rw (at, not_null, queue, push_success rc d.out_fb v works given room) refl

-- A send to a valid queue with room, of a unit whose input frame is a lent slot of a valid source pool
-- and has no other reference, succeeds: the output frame is the last of the queue, the slot of the input
-- frame is free again, and the unit holds neither.
pub send_data_success :
    (rc rc_rel rc_src : Returned) (w : World) (d : UnitData) (q : Queue) (i : ℕ)
    → w.internal ≡ ready d
    → d.out_fb ≢ 0
    → w.out_queue ≡ some q
    → QueueInvariant.IsValid q
    → Works rc
    → q.count < q.capacity
    → d.has_src_pool ≡ true
    → PoolInvariant.IsValid w.src_pool
    → Works rc_src
    → i < w.src_pool.capacity
    → IsLent w.src_pool i
    → d.in_fb ≡ slot_at w.src_pool.place i
    → (w.frames d.in_fb).ref_count ≤ 1
    → (q' : Queue) × (contents q' ≡ contents q ++ (d.out_fb ∷ []))
      × (send_data rc rc_rel rc_src w
          ≡ ends success (record w {
            out_queue = some q';
            src_pool = cleared w.src_pool i;
            frames = put_frame w.frames d.in_fb (record (w.frames d.in_fb) { ref_count = 0 });
            internal = ready (record d { in_fb = 0; out_fb = 0 });
          }))
unfolding sent
send_data_success rc rc_rel rc_src w d q i at given queue v works room has sv sworks h lent place
      only =
    let not_null : (d.in_fb == 0) ≡ false = ground (arith, slot_at-ne-zero i sv) in
    let back : (release_at rc_src w.src_pool d.in_fb).obj ≡ cleared w.src_pool i =
      ap (λ a. (release_at rc_src w.src_pool a).obj) place
      ∙ ap (λ o. o.obj) (release_lent rc_src w.src_pool i sv sworks h lent) in
    (
      put q d.out_fb,
      contents-put d.out_fb v room,
      send_data_lem rc rc_rel rc_src w d q at given queue v works room
          ∙ rw (not_null, has, unref_only (w.frames d.in_fb) only, back) refl,
    )

-- A send to a valid queue that is full returns VF_OOM and gives the output frame, a lent slot of the
-- unit's pool, back to it. The queue is as before, and the input frame stays with the unit.
pub send_data_full :
    (rc rc_rel rc_src : Returned) (w : World) (d : UnitData) (q : Queue) (i : ℕ)
    → w.internal ≡ ready d
    → w.out_queue ≡ some q
    → QueueInvariant.IsValid q
    → Works rc
    → q.count ≡ q.capacity
    → PoolInvariant.IsValid w.pool
    → Works rc_rel
    → i < w.pool.capacity
    → IsLent w.pool i
    → d.out_fb ≡ slot_at w.pool.place i
    → send_data rc rc_rel rc_src w
      ≡ ends oom (record w { pool = cleared w.pool i; internal = ready (record d { out_fb = 0 }) })
unfolding send_data send_to
send_data_full rc rc_rel rc_src w d q i at queue v works full pv pworks h lent place =
    let given : d.out_fb ≢ 0 = omega (arith, slot_at-ne-zero i pv) in
    let not_null : (d.out_fb == 0) ≡ false = ground arith in
    let back : (release_at rc_rel w.pool d.out_fb).obj ≡ cleared w.pool i =
      ap (λ a. (release_at rc_rel w.pool a).obj) place
      ∙ ap (λ o. o.obj) (release_lent rc_rel w.pool i pv pworks h lent) in
    rw (at, not_null, queue, push_full rc d.out_fb v works given full, back) refl

-- A get from a valid queue that holds a frame takes the oldest.
pub get_data_lem :
    (rc : Returned) (wakes : List (Wake QueueCalls.Op)) (w : World) (d : UnitData) (q : Queue)
    → w.internal ≡ ready d
    → w.in_queue ≡ some q
    → QueueInvariant.IsValid q
    → Works rc
    → q.count ≢ 0
    → get_data rc wakes w
      ≡ ends success (record w {
        in_queue = some (drop_head q);
        internal = ready (record d { in_fb = front q });
      })
unfolding get_data
get_data_lem rc wakes w d q at queue v works ne =
    rw
      (
        at,
        queue,
        pop_blocking-eq-pop rc q wakes v works ne ∙ ap returned (pop_success rc v works ne),
      )
      refl
