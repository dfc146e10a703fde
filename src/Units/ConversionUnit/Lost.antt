-- ===== src/Units/ConversionUnit/Lost.antt =====
-- What becomes of the input frame when a turn of the unit fails.
use vision_flow.Base.{ℕ, true, false, ◌==◌, ◌≡◌, ◌≢◌, ◌<◌, ◌∙◌, refl, ap, some, List, arith}
use vision_flow.Error.{VfErr, success}
use vision_flow.Framebuffer.{Framebuffer}
use vision_flow.Sync.{Returned, Works}
use vision_flow.Sync.Wait.{Wake}
use vision_flow.BuffPool.{release_at}
use vision_flow.BuffPool.Lending.{release_lent, slot_at-ne-zero}
use vision_flow.BuffPool.Slots.{slot_at}
use vision_flow.BuffPool.Invariant as PoolInvariant
use vision_flow.BuffPool.Threads as PoolCalls
use vision_flow.BuffQueue.{Queue, front}
use vision_flow.BuffQueue.Invariant as QueueInvariant
use vision_flow.BuffQueue.Threads as QueueCalls
use vision_flow.Conversion.Pixels
use vision_flow.Units.{put_frame, ends, and_then}
use vision_flow.Units.Heap.{put_elsewhere}
use vision_flow.Units.ConversionUnit.{
  UnitData, World, ready, absent, get_data, process_data, deinit,
}
use vision_flow.Units.ConversionUnit.Cycle.{get_data_lem, process_data_failed}

-- When the conversion fails and the next turn gets a frame, the unit has let go of the first one, which
-- is not in a slot of the unit's own pool, without dropping its reference: that frame is as it was, its
-- reference count included, and so are both pools, so that a slot that was lent for the frame stays
-- lent, while the unit holds the next frame only.
pub failed_input-lost :
    (rc rc_rel rc_get : Returned) (wakes : List (Wake PoolCalls.Op))
    (get_wakes : List (Wake QueueCalls.Op)) (w : World) (d : UnitData) (e : VfErr)
    (made : ℕ → Framebuffer) (q : Queue)
    → w.internal ≡ ready d
    → d.in_fb ≢ 0
    → ((i : ℕ) → i < w.pool.capacity → d.in_fb ≢ slot_at w.pool.place i)
    → PoolInvariant.IsValid w.pool
    → Works rc
    → Works rc_rel
    → w.pool.available ≢ 0
    → e ≢ success
    → ((i : ℕ)
        → i < w.pool.capacity
        → Pixels.process d.conv_ctx (w.frames d.in_fb) (w.frames (slot_at w.pool.place i))
          ≡ some (e, made i))
    → w.in_queue ≡ some q
    → QueueInvariant.IsValid q
    → Works rc_get
    → q.count ≢ 0
    → (w' : World) × (and_then (process_data rc wakes rc_rel w) (get_data rc_get get_wakes)
        ≡ ends success w')
      × (w'.frames d.in_fb ≡ w.frames d.in_fb)
      × (w'.src_pool ≡ w.src_pool)
      × (w'.pool ≡ w.pool)
      × (w'.internal ≡ ready (record d { in_fb = front q; out_fb = 0 }))
failed_input-lost rc rc_rel rc_get wakes get_wakes w d e made q at given apart v works works' ne
      wrong fails queue qv qworks held =
    let (i, inside, failed) =
      process_data_failed rc rc_rel wakes w d e made at given v works works' ne wrong fails in
    let w1 = record w {
      frames = put_frame w.frames (slot_at w.pool.place i) (made i);
      internal = ready (record d { out_fb = 0 });
    } in
    (
      _,
      ap (λ t. and_then t (get_data rc_get get_wakes)) failed
          ∙ get_data_lem rc_get get_wakes w1 (record d { out_fb = 0 }) q refl queue qv qworks held,
      put_elsewhere w.frames (slot_at w.pool.place i) d.in_fb (made i) (apart i inside),
      refl,
      refl,
      refl,
    )

-- A deinit of a unit that still holds an input frame, a lent slot of a valid source pool, frees the
-- slot without dropping a reference: the frame keeps whatever number of references it had.
pub deinit_ignores_references :
    (rc_src rc_pool : Returned) (w : World) (d : UnitData) (i : ℕ)
    → w.internal ≡ ready d
    → d.has_src_pool ≡ true
    → d.out_fb ≡ 0
    → PoolInvariant.IsValid w.src_pool
    → Works rc_src
    → i < w.src_pool.capacity
    → PoolInvariant.IsLent w.src_pool i
    → d.in_fb ≡ slot_at w.src_pool.place i
    → deinit rc_src rc_pool w
      ≡ ends success (record w { internal = absent; src_pool = PoolInvariant.cleared w.src_pool i })
unfolding deinit
deinit_ignores_references rc_src rc_pool w d i at has no_out v works h lent place =
    let not_null : (d.in_fb == 0) ≡ false = ground (arith, slot_at-ne-zero i v) in
    let back : (release_at rc_src w.src_pool d.in_fb).obj ≡ PoolInvariant.cleared w.src_pool i =
      ap (λ a. (release_at rc_src w.src_pool a).obj) place
      ∙ ap (λ o. o.obj) (release_lent rc_src w.src_pool i v works h lent) in
    let no_output : (d.out_fb == 0) ≡ true = ground arith in
    rw (at, not_null, has, back, no_output) refl
