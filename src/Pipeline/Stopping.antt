-- ===== src/Pipeline/Stopping.antt =====
-- vf_pipeline_stop: which units run afterwards, and what is returned.
use mathlib.Core.Option
use vision_flow.Base.{
  Option, some, none, ℕ, zero, suc, ◌<◌, ◌≤◌, ◌⊎◌, true, Bool-cases, ◌≡◌, ◌≢◌, inl, inr, refl, ap,
  ◌∙◌, false, arith, if_elim, ◌==◌,
}
use vision_flow.Error.{success, is_success}
use vision_flow.ProcessingUnit.{stop_at}
use vision_flow.Pipeline.{
  Pipeline, QueueManager, System, Site, answer, unit_at, stop_unit, stop_down, stop,
}
use vision_flow.Pipeline.Starting.{runs, runs-stop_unit}

module _ {W : Type 0} (queues : QueueManager W) (queue_at : ℕ → ℕ) (sys : System) where
  -- The site after all the stops.
  stopped_down : Pipeline → ℕ → Site W → Site W
  stopped_down p zero s = s
  stopped_down p (suc i) s = stopped_down p i (stop_unit queues queue_at sys s (unit_at p i)).site

  -- A unit that does not run stays so.
  stopped_down-off :
      (p : Pipeline) (i : ℕ) (s : Site W) (a : ℕ)
      → runs s a ≡ false
      → runs (stopped_down p i s) a ≡ false
  unfolding stopped_down
  stopped_down-off p zero s a h = h
  stopped_down-off p (suc i) s a h =
      stopped_down-off p i _ a (elim (runs-stop_unit queues queue_at sys s (unit_at p i) a) [
        | inl x ↦ x.1
        | inr x ↦ x.1 ∙ h
      ])

  stopped_down-stops :
      (p : Pipeline) (i : ℕ) (s : Site W) (j : ℕ)
      → j < i
      → runs (stopped_down p i s) (unit_at p j) ≡ false
  unfolding stopped_down
  stopped_down-stops p zero s j h = elim h [ ]
  stopped_down-stops p (suc i) s j h =
      let s' = (stop_unit queues queue_at sys s (unit_at p i)).site in
      elim (runs-stop_unit queues queue_at sys s (unit_at p i) (unit_at p j)) [
        | inl x ↦ stopped_down-off p i s' (unit_at p j) x.1
        | inr x ↦ stopped_down-stops p i s' j (below (λ e. x.0 (ap (unit_at p) e)))
      ]
    where
      below : j ≢ i → j < i
      below ne = ground arith

  -- The unit at an address runs, and its thread cannot be joined.
  abbrev pub IsStuck : Site W → ℕ → Type 0
  IsStuck s a = (runs s a ≡ true) × (sys.join_rc a ≢ 0)

  abbrev pub IsLoose : Site W → ℕ → Type 0
  IsLoose s a = (runs s a ≡ false) ⊎ (sys.join_rc a ≡ 0)

  stop_unit-stuck :
      (s : Site W) (a : ℕ)
      → IsStuck s a
      → is_success (stop_unit queues queue_at sys s a).ret ≡ false
  unfolding stop_unit stop_at
  stop_unit-stuck s a h = ground arith

  stop_unit-loose :
      (s : Site W) (a : ℕ) → IsLoose s a → is_success (stop_unit queues queue_at sys s a).ret ≡ true
  unfolding stop_unit stop_at
  stop_unit-loose s a h = ground arith

  IsStuck-or_IsLoose : (s : Site W) (a : ℕ) → IsStuck s a ⊎ IsLoose s a
  IsStuck-or_IsLoose s a = elim (Bool-cases (runs s a)) [
    | inl on ↦ elim (Bool-cases (sys.join_rc a == 0)) [
      | inl z ↦ inr (inr (ground arith))
      | inr ne ↦ inl (on, ground arith)
    ]
    | inr off ↦ inr (inl off)
  ]

  -- Below the last unit the name that a message reads is that of a unit.
  stop_down_below :
      (p : Pipeline) (i : ℕ) (s : Site W)
      → ((j : ℕ) → j ≤ i → unit_at p j ≢ 0)
      → stop_down queues queue_at sys p i s ≡ some (stopped_down p i s)
  unfolding stop_down stopped_down
  stop_down_below p zero s given = refl
  stop_down_below p (suc i) s given =
      let r = stop_unit queues queue_at sys s (unit_at p i) in
      let rest = stop_down_below p i r.site (λ j h. given j (omega arith)) in
      let P = λ (x : Option (Site W)). x ≡ some (stopped_down p i r.site) in
      if_elim P (is_success r.ret) (λ _. rest)
        (λ _.
          if_elim P (unit_at p (suc i) == 0)
            (λ z. absurd (given (suc i) (omega arith) (ground arith))) (λ _. rest))

  -- What vf_pipeline_stop does to a pipeline whose last unit is the n-th.
  abbrev pub StopsOrCrashes : Pipeline → ℕ → Site W → Type 0
  StopsOrCrashes p n s =
      (IsStuck s (unit_at p n) × (stop queues queue_at sys p s ≡ none))
      ⊎ (IsLoose s (unit_at p n)
          × ((s' : Site W) × (stop queues queue_at sys p s ≡ some (answer success s'))
              × ((j : ℕ) → j < p.unit_count → runs s' (unit_at p j) ≡ false)))

  -- vf_pipeline_stop of an initialized pipeline of some units, none of them NULL, with no unit behind the
  -- last: when the last unit runs and its thread cannot be joined, the message about it reads the name of
  -- a unit through NULL or from past the array; otherwise VF_SUCCESS is returned, whether the threads of
  -- the other units can be joined or not, and none of the units is marked as running.
  pub stop-StopsOrCrashes :
      (p : Pipeline) (n : ℕ) (s : Site W)
      → p.initialized ≡ 1
      → p.unit_count ≡ suc n
      → ((j : ℕ) → j ≤ n → unit_at p j ≢ 0)
      → unit_at p (suc n) ≡ 0
      → StopsOrCrashes p n s
  unfolding stop stop_down stop_unit stopped_down
  stop-StopsOrCrashes p n s ready size given behind =
      let r = stop_unit queues queue_at sys s (unit_at p n) in
      let set_up : (p.initialized == 0) ≡ false = ground arith in
      let end : (unit_at p (suc n) == 0) ≡ true = ground arith in
      elim (IsStuck-or_IsLoose s (unit_at p n)) [
        | inl h ↦ inl (h, rw (set_up, size, stop_unit-stuck s (unit_at p n) h, end) refl)
        | inr h ↦ inr (
          h,
          (
            stopped_down p (suc n) s,
            rw (set_up, size, stop_unit-loose s (unit_at p n) h)
                (ap (Option.map (answer success)) (stop_down_below p n r.site given)),
            λ j k. stopped_down-stops p (suc n) s j (omega arith),
          ),
        )
      ]
