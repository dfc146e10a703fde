-- ===== src/ProcessingUnit/Life.antt =====
-- Creating, starting, stopping and destroying a unit.
use vision_flow.Base.{
  ==_iff, ℕ, List, ◌≡◌, ◌≢◌, refl, ap, sym, subst, ◌∙◌, ◌⊎◌, true, false, Option, some, none, [],
  ◌∷◌, arith, if_elim, ◌==◌, if◌then◌else◌, inl, inr,
}
use vision_flow.Error.{VfErr, success, init_failed, sync_error, is_success}
use vision_flow.Sync.{Returned, mutex_init, Outcome}
use vision_flow.Notifier.{init_at, Notifier, bidirectional}
use vision_flow.Notifier.Invariant.{init-bidirectional, deinit_at-off}
use vision_flow.ProcessingUnit.{
  connect_output_at, connect_input_at, ProcessingUnit, OpFn, Ran, create_at, create_after_notifier,
  name_or_unknown, create_with, created, start_at, stop_at,
}

-- A thread that was started and then stopped: where the unit is initialized, was not running, and the
-- thread can be created and joined, both calls succeed, the unit is as before, and the queue it reads
-- from has been shut down, if it has one. A second stop changes nothing and shuts nothing down.
pub stop-start :
    {W : Type 0} (u : ProcessingUnit W)
    → u.initialized ≡ 1
    → u.running ≡ false
    → ((start_at 0 u).0 ≡ success)
      × (stop_at 0 (start_at 0 u).1 ≡ (success, u, if u.in_queue == 0 then [] else u.in_queue ∷ []))
      × (stop_at 0 u ≡ (success, u, []))
unfolding start_at stop_at
stop-start u i r =
    let back : record u { running = false } ≡ u = ap (λ b. record u { running = b }) (sym r) in
    let shut = if u.in_queue == 0 then [] else u.in_queue ∷ [] in
    let started : start_at 0 u ≡ (success, record u { running = true }) =
      if_elim (λ x. x ≡ (success, record u { running = true })) (u.initialized == 0)
        (λ e. ground arith) (λ _. refl) in
    (
      ap (λ x. x.0) started,
      ap (λ x. stop_at 0 x.1) started ∙ ap (λ v. (success, v, shut)) back,
      if_elim (λ x. x ≡ (success, u, [])) u.running (λ e. cc) (λ _. refl),
    )

-- What is known of the unit after a call of `vf_unit_create`.
abbrev Made : {W : Type 0} → ProcessingUnit W → Ran W → Type 0
Made u r =
    (r.ret ≡ success
      → (r.unit.initialized ≡ 1)
        × (r.unit.notifier.initialized ≡ 1)
        × (r.unit.notifier.mode ≡ bidirectional))
    × (r.ret ≢ success → (r.unit.initialized ≡ u.initialized) × (r.unit.notifier.initialized ≡ 0))

pub not_success : (e : VfErr) → is_success e ≡ false → e ≡ success → ⊥
not_success e f s = ground arith

created-Made :
    {W : Type 0} (rc : Returned) (u v : ProcessingUnit W) (a : VfErr × W)
    → v.notifier.initialized ≡ 1
    → v.notifier.mode ≡ bidirectional
    → v.initialized ≡ u.initialized
    → Made u (created rc v a)
unfolding created
created-Made rc u v (e, w) n m i =
    if_elim (Made u) (is_success e) (λ _. (λ _. (refl, n, m), λ ne. absurd (ne refl)))
      (λ f. (λ s. absurd (not_success e f s), λ _. (i, deinit_at-off rc v.notifier)))

create_with-Made :
    {W : Type 0} (rc : Returned) (u v : ProcessingUnit W) (f : OpFn W) (o : Option (OpFn W)) (w : W)
    → o ≡ some f
    → v.notifier.initialized ≡ 1
    → v.notifier.mode ≡ bidirectional
    → v.initialized ≡ u.initialized
    → Made u (create_with rc o v w)
unfolding create_with
create_with-Made rc u v f none w e n m i = cc
create_with-Made rc u v f (some g) w e n m i = created-Made rc u v (g w) n m i

create_after_notifier-Made :
    {W : Type 0} (rc : Returned) (n : Outcome VfErr Notifier) (u : ProcessingUnit W) (w : W)
    (f : OpFn W)
    → u.operations.init ≡ some f
    → ((n.ret ≡ success) × (n.obj.initialized ≡ 1) × (n.obj.mode ≡ bidirectional))
      ⊎ ((n.ret ≡ sync_error) × (n.obj.initialized ≡ 0))
    → Made u (create_after_notifier rc n u w)
unfolding create_after_notifier
create_after_notifier-Made rc n u w f e (inl (r, i, m)) =
    if_elim (Made u) (is_success n.ret)
      (λ _. create_with-Made rc u (record u { notifier = n.obj }) f u.operations.init w e i m refl)
      (λ ne. absurd (not_success n.ret ne r))
create_after_notifier-Made rc n u w f e (inr (r, i)) =
    if_elim (Made u) (is_success n.ret) (λ s. ground arith)
      (λ ne. (λ s. absurd (not_success n.ret ne s), λ _. (refl, i)))

create_at-Made :
    {W : Type 0} (rc : Returned) (u : ProcessingUnit W) (w : W) (f : OpFn W)
    → u.operations.init ≡ some f
    → Made u (create_at rc u w)
unfolding create_at
create_at-Made rc u w f e =
    create_after_notifier-Made rc _ u w f e
      (elim (init-bidirectional rc u.notifier (name_or_unknown u.name)) [
        | inl x ↦ inl x
        | inr x ↦ inr (x.0, x.1)
      ])

-- vf_unit_create that succeeds, at a unit with an init operation, leaves the unit initialized, and its
-- notifier initialized in both directions.
pub create_at_success :
    {W : Type 0} (rc : Returned) (u : ProcessingUnit W) (w : W) (f : OpFn W)
    → u.operations.init ≡ some f
    → (create_at rc u w).ret ≡ success
    → ((create_at rc u w).unit.initialized ≡ 1)
      × ((create_at rc u w).unit.notifier.initialized ≡ 1)
      × ((create_at rc u w).unit.notifier.mode ≡ bidirectional)
create_at_success rc u w f e = (create_at-Made rc u w f e).0

-- vf_unit_create that fails, at a unit with an init operation, leaves the unit as little initialized as
-- it was, and its notifier not initialized.
pub create_at_failed :
    {W : Type 0} (rc : Returned) (u : ProcessingUnit W) (w : W) (f : OpFn W)
    → u.operations.init ≡ some f
    → (create_at rc u w).ret ≢ success
    → ((create_at rc u w).unit.initialized ≡ u.initialized)
      × ((create_at rc u w).unit.notifier.initialized ≡ 0)
create_at_failed rc u w f e = (create_at-Made rc u w f e).1

without :
    {W : Type 0} (rc : Returned) (n : Outcome VfErr Notifier) (u : ProcessingUnit W) (w : W)
    → u.operations.init ≡ none
    → n.ret ≡ success
    → n.obj.initialized ≡ 1
    → ((create_after_notifier rc n u w).ret ≡ init_failed)
      × ((create_after_notifier rc n u w).unit.notifier.initialized ≡ 1)
unfolding create_after_notifier create_with
without {W} rc n u w e r i =
    if_elim Left (is_success n.ret)
      (λ _.
        subst (λ o. Left (create_with rc o (record u { notifier = n.obj }) w)) (sym e) (refl, i))
      (λ ne. absurd (not_success n.ret ne r))
  where
    Left : Ran W → Type 0
    Left x = (x.ret ≡ init_failed) × (x.unit.notifier.initialized ≡ 1)

-- vf_unit_create at a unit without an init operation, where the notifier's mutex can be set up, returns
-- VF_INIT_FAILED but leaves the notifier initialized.
pub create_without_init :
    {W : Type 0} (rc : Returned) (u : ProcessingUnit W) (w : W)
    → u.operations.init ≡ none
    → rc mutex_init ≡ 0
    → ((create_at rc u w).ret ≡ init_failed) × ((create_at rc u w).unit.notifier.initialized ≡ 1)
unfolding create_at
create_without_init rc u w e h = elim (init-bidirectional rc u.notifier (name_or_unknown u.name)) [
  | inl x ↦ without rc _ u w e x.0 x.1
  | inr x ↦ absurd (x.2 h)
]

-- What a start does to the running flag.
pub start_at_cases :
    {W : Type 0} (rc : ℕ) (u : ProcessingUnit W)
    → (((start_at rc u).0 ≡ success) × ((start_at rc u).1.running ≡ true))
      ⊎ ((is_success (start_at rc u).0 ≡ false)
          × ((start_at rc u).1.running ≡ true → u.running ≡ true))
unfolding start_at
start_at_cases {W} rc u =
    if_elim Starts (u.initialized == 0) (λ _. inr (refl, λ h. h))
      (λ _. if_elim Starts (rc == 0) (λ _. inl (refl, refl)) (λ _. inr (refl, λ h. cc)))
  where
    Starts : VfErr × ProcessingUnit W → Type 0
    Starts r =
        ((r.0 ≡ success) × (r.1.running ≡ true))
        ⊎ ((is_success r.0 ≡ false) × (r.1.running ≡ true → u.running ≡ true))

pub stop_at-off : {W : Type 0} (rc : ℕ) (u : ProcessingUnit W) → (stop_at rc u).1.running ≡ false
unfolding stop_at
stop_at-off {W} rc u =
    if_elim (λ (r : VfErr × ProcessingUnit W × List ℕ). r.1.running ≡ false) u.running (λ _. refl)
      (λ e. e)

pub stop_at-success : {W : Type 0} (u : ProcessingUnit W) → (stop_at 0 u).0 ≡ success
unfolding stop_at
stop_at-success {W} u =
    if_elim (λ (r : VfErr × ProcessingUnit W × List ℕ). r.0 ≡ success) u.running (λ _. refl)
      (λ _. refl)

-- A call of `vf_unit_create` leaves the queues of the unit, and initializes it if it succeeds.
abbrev pub KeepsQueues : {W : Type 0} → ProcessingUnit W → Ran W → Type 0
KeepsQueues u r =
    (r.unit.in_queue ≡ u.in_queue)
    × (r.unit.out_queue ≡ u.out_queue)
    × (r.ret ≡ success → r.unit.initialized ≡ 1)

created-KeepsQueues :
    {W : Type 0} (rc : Returned) (u : ProcessingUnit W) (a : VfErr × W)
    → KeepsQueues u (created rc u a)
unfolding created
created-KeepsQueues rc u (e, w) =
    if_elim (KeepsQueues u) (is_success e) (λ _. (refl, refl, λ _. refl))
      (λ f. (refl, refl, λ s. absurd (not_success e f s)))

create_with-KeepsQueues :
    {W : Type 0} (rc : Returned) (o : Option (OpFn W)) (u : ProcessingUnit W) (w : W)
    → KeepsQueues u (create_with rc o u w)
unfolding create_with
create_with-KeepsQueues rc none u w = (refl, refl, λ s. cc)
create_with-KeepsQueues rc (some f) u w = created-KeepsQueues rc u (f w)

pub create_at-KeepsQueues :
    {W : Type 0} (rc : Returned) (u : ProcessingUnit W) (w : W) → KeepsQueues u (create_at rc u w)
unfolding create_at create_after_notifier
create_at-KeepsQueues rc u w =
    let n = init_at rc u.notifier (name_or_unknown u.name) bidirectional in
    if_elim (KeepsQueues u) (is_success n.ret)
      (λ _. create_with-KeepsQueues rc u.operations.init (record u { notifier = n.obj }) w)
      (λ f. (refl, refl, λ s. absurd (not_success n.ret f s)))

-- Connecting a unit to a queue that is not NULL.
pub connect_at_lem :
    {W : Type 0} (u : ProcessingUnit W) (queue : ℕ)
    → queue ≢ 0
    → (connect_output_at u queue ≡ (success, record u { out_queue = queue }))
      × (connect_input_at u queue ≡ (success, record u { in_queue = queue }))
unfolding connect_output_at connect_input_at
connect_at_lem {W} u queue h = (
  if_elim (λ x. x ≡ (success, record u { out_queue = queue })) (queue == 0)
      (λ e. absurd (h ((==_iff _ _).0 e))) (λ _. refl),
  if_elim (λ x. x ≡ (success, record u { in_queue = queue })) (queue == 0)
      (λ e. absurd (h ((==_iff _ _).0 e))) (λ _. refl),
)
