-- ===== src/Pipeline/Starting.antt =====
-- vf_pipeline_start: which units run afterwards, and what is returned.
use vision_flow.Base.{
  ℕ, zero, suc, ◌+◌, ◌≤◌, ◌<◌, ◌≡◌, ◌≢◌, ◌⊎◌, inl, inr, refl, ap, sym, ◌∙◌, subst, Bool, true,
  false, arith, if_elim, ◌==◌, ==_iff, Bool-cases,
}
use vision_flow.Error.{VfErr, success, is_success}
use vision_flow.ProcessingUnit.{ProcessingUnit, start_at, stop_at}
use vision_flow.ProcessingUnit.Life.{start_at_cases, not_success, stop_at-success, stop_at-off}
use vision_flow.Pipeline.{
  Pipeline, QueueManager, System, Site, Answer, unit_at, store, start_unit, stop_unit, rollback,
  start_from, start,
}

-- Whether the unit at an address runs.
abbrev pub runs : {W : Type 0} → Site W → ℕ → Bool
runs s a = (s.heap a).running

-- A unit of the pipeline that runs is one of the first i.
abbrev pub OnlyFirst : {W : Type 0} → Pipeline → ℕ → Site W → Type 0
OnlyFirst p i s =
    (j : ℕ) → runs s (unit_at p j) ≡ true → (k : ℕ) × (k < i) × (unit_at p j ≡ unit_at p k)

abbrev pub AllRun : {W : Type 0} → Pipeline → ℕ → Site W → Type 0
AllRun p i s = (j : ℕ) → j < i → runs s (unit_at p j) ≡ true

abbrev pub NoneRuns : {W : Type 0} → Pipeline → Site W → Type 0
NoneRuns p s = (j : ℕ) → runs s (unit_at p j) ≡ false

pub runs-store :
    {W : Type 0} (s : Site W) (a b : ℕ) (u : ProcessingUnit W)
    → ((b ≡ a) × (runs (store s a u) b ≡ u.running)) ⊎ ((b ≢ a) × (runs (store s a u) b ≡ runs s b))
unfolding store
runs-store {W} s a b u =
    if_elim Left (b == a) (λ e. inl ((==_iff b a).0 e, refl)) (λ e. inr ((λ h. ground arith), refl))
  where
    Left : ProcessingUnit W → Type 0
    Left v = ((b ≡ a) × (v.running ≡ u.running)) ⊎ ((b ≢ a) × (v.running ≡ runs s b))

module _ {W : Type 0} (queues : QueueManager W) (queue_at : ℕ → ℕ) (sys : System) where
  -- Stopping one unit clears its flag and leaves the others.
  pub runs-stop_unit :
      (s : Site W) (a b : ℕ)
      → ((b ≡ a) × (runs (stop_unit queues queue_at sys s a).site b ≡ false))
        ⊎ ((b ≢ a) × (runs (stop_unit queues queue_at sys s a).site b ≡ runs s b))
  unfolding stop_unit
  runs-stop_unit s a b =
      let u = (stop_at (sys.join_rc a) (s.heap a)).1 in
      elim (runs-store s a b u) [
        | inl x ↦ inl (x.0, x.1 ∙ stop_at-off (sys.join_rc a) (s.heap a))
        | inr x ↦ inr x
      ]

  stop_unit-OnlyFirst :
      (p : Pipeline) (i : ℕ) (s : Site W)
      → OnlyFirst p (suc i) s
      → OnlyFirst p i (stop_unit queues queue_at sys s (unit_at p i)).site
  stop_unit-OnlyFirst p i s o j h = elim (runs-stop_unit s (unit_at p i) (unit_at p j)) [
    | inl x ↦ cc
    | inr x ↦
        let (k, lt, e) = o j (sym x.1 ∙ h) in
        (k, below k lt (λ same. x.0 (e ∙ ap (unit_at p) same)), e)
  ]
    where
      below : (k : ℕ) → k < suc i → k ≢ i → k < i
      below k lt ne = ground arith

  rollback-NoneRuns :
      (p : Pipeline) (i : ℕ) (err : VfErr) (s : Site W)
      → OnlyFirst p i s
      → NoneRuns p (rollback queues queue_at sys p i err s).site
  unfolding rollback
  rollback-NoneRuns p zero err s o j = elim (Bool-cases (runs s (unit_at p j))) [
    | inl e ↦ let (k, lt, _) = o j e in elim lt [ ]
    | inr e ↦ e
  ]
  rollback-NoneRuns p (suc i) err s o j = rollback-NoneRuns p i _ _ (stop_unit-OnlyFirst p i s o) j

  -- After a start of unit i that succeeds.
  start_unit-AllRun :
      (p : Pipeline) (i : ℕ) (s : Site W)
      → (start_unit queues queue_at sys s (unit_at p i)).ret ≡ success
      → AllRun p i s
      → AllRun p (suc i) (start_unit queues queue_at sys s (unit_at p i)).site
  unfolding start_unit
  start_unit-AllRun p i s e a j h =
      let a_i = unit_at p i in
      let u = s.heap a_i in
      elim (runs-store s a_i (unit_at p j) (start_at (sys.create_rc a_i) u).1) [
        | inl x ↦ x.1 ∙ started (start_at_cases (sys.create_rc a_i) u)
        | inr x ↦ x.1 ∙ a j (below (λ same. x.0 (ap (unit_at p) same)))
      ]
    where
      below : j ≢ i → j < i
      below ne = ground arith

      started :
          (((start_at (sys.create_rc (unit_at p i)) (s.heap (unit_at p i))).0 ≡ success)
              × ((start_at (sys.create_rc (unit_at p i)) (s.heap (unit_at p i))).1.running ≡ true))
            ⊎ ((is_success (start_at (sys.create_rc (unit_at p i)) (s.heap (unit_at p i))).0
                  ≡ false)
                × ((start_at (sys.create_rc (unit_at p i)) (s.heap (unit_at p i))).1.running ≡ true
                    → (s.heap (unit_at p i)).running ≡ true))
          → (start_at (sys.create_rc (unit_at p i)) (s.heap (unit_at p i))).1.running ≡ true
      started (inl y) = y.1
      started (inr y) = absurd (not_success _ y.0 e)

  start_unit-OnlyFirst :
      (p : Pipeline) (i : ℕ) (s : Site W)
      → OnlyFirst p i s
      → OnlyFirst p (suc i) (start_unit queues queue_at sys s (unit_at p i)).site
  unfolding start_unit
  start_unit-OnlyFirst p i s o j h =
      let a_i = unit_at p i in
      let u = (start_at (sys.create_rc a_i) (s.heap a_i)).1 in
      elim (runs-store s a_i (unit_at p j) u) [
        | inl x ↦ (i, omega arith, x.0)
        | inr x ↦ let (k, lt, e) = o j (sym x.1 ∙ h) in (k, omega arith, e)
      ]

  start_unit_failed :
      (p : Pipeline) (i : ℕ) (s : Site W)
      → is_success (start_unit queues queue_at sys s (unit_at p i)).ret ≡ false
      → OnlyFirst p i s
      → OnlyFirst p i (start_unit queues queue_at sys s (unit_at p i)).site
  unfolding start_unit
  start_unit_failed p i s f o j h =
      let a_i = unit_at p i in
      let u = s.heap a_i in
      elim (runs-store s a_i (unit_at p j) (start_at (sys.create_rc a_i) u).1) [
        | inl x ↦ let (k, lt, e) = o i (ran_before (sym x.1 ∙ h)) in (k, lt, x.0 ∙ e)
        | inr x ↦ o j (sym x.1 ∙ h)
      ]
    where
      ran_before :
          (start_at (sys.create_rc (unit_at p i)) (s.heap (unit_at p i))).1.running ≡ true
          → runs s (unit_at p i) ≡ true
      ran_before r = elim (start_at_cases (sys.create_rc (unit_at p i)) (s.heap (unit_at p i))) [
        | inl y ↦ absurd (not_success _ f y.0)
        | inr y ↦ y.1 r
      ]

  -- Every unit runs and the answer is VF_SUCCESS, or no unit runs.
  abbrev pub AllOrNone : Pipeline → Answer W → Type 0
  AllOrNone p r = ((r.ret ≡ success) × AllRun p p.unit_count r.site) ⊎ NoneRuns p r.site

  start_from-AllOrNone :
      (p : Pipeline) (left i : ℕ) (s : Site W)
      → i + left ≡ p.unit_count
      → AllRun p i s
      → OnlyFirst p i s
      → AllOrNone p (start_from queues queue_at sys p left i s)
  unfolding start_from
  start_from-AllOrNone p zero i s e a o = inl (refl, subst (λ n. AllRun p n s) (end i e) a)
    where
      end : (i : ℕ) → i + 0 ≡ p.unit_count → i ≡ p.unit_count
      end i e = omega arith
  start_from-AllOrNone p (suc left) i s e a o =
      let r = start_unit queues queue_at sys s (unit_at p i) in
      if_elim (AllOrNone p) (is_success r.ret)
        (λ ok.
          start_from-AllOrNone p left (suc i) r.site (omega arith)
            (start_unit-AllRun p i s (ground arith) a) (start_unit-OnlyFirst p i s o))
        (λ no. inr (rollback-NoneRuns p i r.ret r.site (start_unit_failed p i s no o)))

  -- vf_pipeline_start of a pipeline none of whose units runs is all or nothing, whatever
  -- pthread_create and pthread_join return: either it returns VF_SUCCESS and every unit of the pipeline
  -- runs, or no unit of it runs.
  pub start-AllOrNone :
      (p : Pipeline) (s : Site W) → NoneRuns p s → AllOrNone p (start queues queue_at sys p s)
  unfolding start
  start-AllOrNone p s none =
      if_elim (AllOrNone p) (p.initialized == 0) (λ _. inr none)
        (λ _.
          start_from-AllOrNone p p.unit_count 0 s (omega arith) (λ j h. elim h [ ])
            (λ j h. absurd (idle j h)))
    where
      idle : (j : ℕ) → runs s (unit_at p j) ≡ true → ⊥
      idle j h = let e = none j in cc

  rollback-success :
      (p : Pipeline) (i : ℕ) (err : VfErr) (s : Site W)
      → sys.join_rc (unit_at p 0) ≡ 0
      → (rollback queues queue_at sys p (suc i) err s).ret ≡ success
  unfolding rollback stop_unit
  rollback-success p zero err s join =
      subst (λ rc. (stop_at rc (s.heap (unit_at p 0))).0 ≡ success) (sym join)
        (stop_at-success (s.heap (unit_at p 0)))
  rollback-success p (suc i) err s join =
      let r = stop_unit queues queue_at sys s (unit_at p (suc i)) in
      rollback-success p i r.ret r.site join

  start_from-success :
      (p : Pipeline) (left i : ℕ) (s : Site W)
      → sys.join_rc (unit_at p 0) ≡ 0
      → (start_from queues queue_at sys p left (suc i) s).ret ≡ success
  unfolding start_from
  start_from-success p zero i s join = refl
  start_from-success p (suc left) i s join =
      let r = start_unit queues queue_at sys s (unit_at p (suc i)) in
      if_elim (λ (x : Answer W). x.ret ≡ success) (is_success r.ret)
        (λ _. start_from-success p left (suc i) r.site join)
        (λ _. rollback-success p i r.ret r.site join)

  start_from_first :
      (p : Pipeline) (count : ℕ) (s : Site W)
      → 1 ≤ count
      → (start_unit queues queue_at sys s (unit_at p 0)).ret ≡ success
      → sys.join_rc (unit_at p 0) ≡ 0
      → (start_from queues queue_at sys p count 0 s).ret ≡ success
  unfolding start_from
  start_from_first p zero s h ok join = elim h [ ]
  start_from_first p (suc left) s h ok join =
      let r = start_unit queues queue_at sys s (unit_at p 0) in
      if_elim (λ (x : Answer W). x.ret ≡ success) (is_success r.ret)
        (λ _. start_from-success p left 0 r.site join) (λ bad. absurd (not_success _ bad ok))

  -- vf_pipeline_start of an initialized pipeline whose first unit starts, and whose first unit's thread
  -- can be joined, returns VF_SUCCESS, whether or not the other units start.
  pub start_masks_failure :
      (p : Pipeline) (s : Site W)
      → p.initialized ≡ 1
      → 1 ≤ p.unit_count
      → (start_unit queues queue_at sys s (unit_at p 0)).ret ≡ success
      → sys.join_rc (unit_at p 0) ≡ 0
      → (start queues queue_at sys p s).ret ≡ success
  unfolding start
  start_masks_failure p s i n ok join =
      if_elim (λ (x : Answer W). x.ret ≡ success) (p.initialized == 0) (λ e. ground arith)
        (λ _. start_from_first p p.unit_count s n ok join)
