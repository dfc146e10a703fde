-- ===== src/Pipeline/Wiring.antt =====
-- vf_pipeline_create: which queue each unit of a created pipeline reads from and writes to.
use vision_flow.Base.{
  ℕ, zero, suc, ◌+◌, ◌-◌, ◌<◌, ◌≡◌, ◌≢◌, ◌⊎◌, inl, inr, refl, ap, sym, ◌∙◌, subst, true, false,
  arith, if_elim, ◌==◌, ==_iff, if◌then◌else◌, Bool-cases, ltb,
}
use vision_flow.Error.{VfErr, success, is_success}
use vision_flow.ProcessingUnit.{ProcessingUnit, create_at, connect_input_at}
use vision_flow.ProcessingUnit.Life.{connect_at_lem, create_at-KeepsQueues, not_success}
use vision_flow.Pipeline.{
  Pipeline, QueueManager, System, Site, Answer, answer, unit_at, store, connect, wire_from,
  create_from, create,
}

-- No unit stands twice in the pipeline.
abbrev pub IsDistinct : Pipeline → Type 0
IsDistinct p = (i j : ℕ) → i < p.unit_count → j < p.unit_count → unit_at p i ≡ unit_at p j → i ≡ j

-- The first k queues: unit i writes to queue i and unit i + 1 reads from it.
abbrev pub WiredTo : {W : Type 0} → (ℕ → ℕ) → Pipeline → ℕ → (ℕ → ProcessingUnit W) → Type 0
WiredTo queue_at p k heap =
    (i : ℕ)
    → i < k
    → ((heap (unit_at p i)).out_queue ≡ queue_at i)
      × ((heap (unit_at p (suc i))).in_queue ≡ queue_at i)

abbrev pub Created : {W : Type 0} → Pipeline → ℕ → (ℕ → ProcessingUnit W) → Type 0
Created p k heap = (i : ℕ) → i < k → (heap (unit_at p i)).initialized ≡ 1

store-same : {W : Type 0} (s : Site W) (a : ℕ) (u : ProcessingUnit W) → (store s a u).heap a ≡ u
unfolding store
store-same s a u = if_elim (λ v. v ≡ u) (a == a) (λ _. refl) (λ e. absurd (different e))
  where
    different : (a == a) ≡ false → ⊥
    different e = ground arith

store-other :
    {W : Type 0} (s : Site W) (a b : ℕ) (u : ProcessingUnit W)
    → b ≢ a
    → (store s a u).heap b ≡ s.heap b
unfolding store
store-other s a b u h =
    if_elim (λ v. v ≡ s.heap b) (b == a) (λ e. absurd (h ((==_iff _ _).0 e))) (λ _. refl)

-- A change of one unit that keeps a field keeps it at every address.
store-field :
    {W : Type 0} (field : ProcessingUnit W → ℕ) (s : Site W) (a b : ℕ) (u : ProcessingUnit W)
    → field u ≡ field (s.heap a)
    → field ((store s a u).heap b) ≡ field (s.heap b)
unfolding store
store-field field s a b u h =
    if_elim (λ v. field v ≡ field (s.heap b)) (b == a)
      (λ e. h ∙ ap (λ c. field (s.heap c)) (sym ((==_iff _ _).0 e))) (λ _. refl)

is_success_lem : (e : VfErr) → is_success e ≡ true → e ≡ success
is_success_lem e h = ground arith

lt_suc_cases : (i k : ℕ) → i < suc k → (i < k) ⊎ (i ≡ k)
lt_suc_cases i k h = elim (Bool-cases (i == k)) [
  | inl e ↦ inr ((==_iff i k).0 e)
  | inr e ↦ inl (ground arith)
]

module _ {W : Type 0} (queues : QueueManager W) (queue_at : ℕ → ℕ) (sys : System) where
  -- The site after unit i and unit i + 1 are connected.
  abbrev connected : Pipeline → ℕ → Site W → Site W
  connected p i s =
      let u = s.heap (unit_at p i) in
      let s' = store s (unit_at p i) (record u { out_queue = queue_at i }) in
      let v = s'.heap (unit_at p (suc i)) in
      store s' (unit_at p (suc i)) (record v { in_queue = queue_at i })

  connect_lem :
      (p : Pipeline) (i : ℕ) (s : Site W)
      → queue_at i ≢ 0
      → connect queues queue_at sys p i s ≡ answer success (connected p i s)
  unfolding connect
  connect_lem p i s h =
      let a = unit_at p i in
      let b = unit_at p (suc i) in
      let u = s.heap a in
      let s' = store s a (record u { out_queue = queue_at i }) in
      ap (finish a b) (connect_at_lem u (queue_at i) h).0
      ∙ ap (λ n. answer n.0 (store s' b n.1)) (connect_at_lem (s'.heap b) (queue_at i) h).1
    where
      finish : ℕ → ℕ → VfErr × ProcessingUnit W → Answer W
      finish a b o =
          let s' = store s a o.1 in
          let n = connect_input_at (s'.heap b) (queue_at i) in
          if is_success o.0 then answer n.0 (store s' b n.1) else answer o.0 s'

  connected-WiredTo :
      (p : Pipeline) (k : ℕ) (s : Site W)
      → IsDistinct p
      → suc k < p.unit_count
      → WiredTo queue_at p k s.heap
      → WiredTo queue_at p (suc k) (connected p k s).heap
  connected-WiredTo p k s d b w i h =
      let a = unit_at p k in
      let b_ = unit_at p (suc k) in
      let u = s.heap a in
      let u' = record u { out_queue = queue_at k } in
      let s' = store s a u' in
      let v = s'.heap b_ in
      let v' = record v { in_queue = queue_at k } in
      elim (lt_suc_cases i k h) [
        | inl lt ↦ (
          store-field (λ x. x.out_queue) s' b_ (unit_at p i) v' refl
              ∙ ap (λ x. x.out_queue)
                  (store-other s a (unit_at p i) u'
                    (apart i k (omega arith) (omega arith) (omega arith)))
              ∙ (w i lt).0,
          ap (λ x. x.in_queue)
                (store-other s' b_ (unit_at p (suc i)) v'
                  (apart (suc i) (suc k) (omega arith) (omega arith) (omega arith)))
              ∙ store-field (λ x. x.in_queue) s a (unit_at p (suc i)) u' refl
              ∙ (w i lt).1,
        )
        | inr e ↦ subst Joined (sym e) (
          store-field (λ x. x.out_queue) s' b_ a v' refl
              ∙ ap (λ x. x.out_queue) (store-same s a u'),
          ap (λ x. x.in_queue) (store-same s' b_ v'),
        )
      ]
    where
      apart : (x y : ℕ) → x < p.unit_count → y < p.unit_count → x < y → unit_at p x ≢ unit_at p y
      apart x y hx hy lt e = let same = d x y hx hy e in omega (arith, same)

      Joined : ℕ → Type 0
      Joined n =
          (((connected p k s).heap (unit_at p n)).out_queue ≡ queue_at n)
          × (((connected p k s).heap (unit_at p (suc n))).in_queue ≡ queue_at n)

  wire_from-WiredTo :
      (p : Pipeline) (left i : ℕ) (s : Site W)
      → IsDistinct p
      → ((k : ℕ) → queue_at k ≢ 0)
      → i + left < p.unit_count
      → WiredTo queue_at p i s.heap
      → (wire_from queues queue_at sys p left i s).ret ≡ success
      → WiredTo queue_at p (i + left) (wire_from queues queue_at sys p left i s).site.heap
  unfolding wire_from
  wire_from-WiredTo p zero i s d n b w ok = subst (λ k. WiredTo queue_at p k s.heap) (plus_zero i) w
    where
      plus_zero : (i : ℕ) → i ≡ i + 0
      plus_zero i = omega arith
  wire_from-WiredTo p (suc left) i s d n b w ok =
      let q = queues.init (queue_at i) 16 s.world in
      let s' = record s { world = q.1 } in
      let c = connect queues queue_at sys p i s' in
      let site' = ap (λ x. x.site) (connect_lem p i s' (n i)) in
      let wired : WiredTo queue_at p (suc i) c.site.heap =
        subst (λ x. WiredTo queue_at p (suc i) x.heap) (sym site')
          (connected-WiredTo p i s' d (omega arith) w) in
      if_elim Then (is_success q.0)
        (λ _.
          if_elim Then (is_success c.ret)
            (λ _ o.
              subst
                (λ k.
                  WiredTo queue_at p k
                    (wire_from queues queue_at sys p left (suc i) c.site).site.heap)
                (shift i left) (wire_from-WiredTo p left (suc i) c.site d n (omega arith) wired o))
            (λ f o. absurd (not_success c.ret f o)))
        (λ f o. absurd (not_success q.0 f o)) ok
    where
      shift : (i left : ℕ) → suc i + left ≡ i + suc left
      shift i left = omega arith

      Then : Answer W → Type 0
      Then x = x.ret ≡ success → WiredTo queue_at p (i + suc left) x.site.heap

  -- What the creation of the units keeps, and what it has done when it succeeds.
  abbrev Made : Pipeline → ℕ → ℕ → Answer W → Type 0
  Made p k n x = x.ret ≡ success → WiredTo queue_at p k x.site.heap × Created p n x.site.heap

  one_more :
      (p : Pipeline) (i k : ℕ) (s : Site W) (u : ProcessingUnit W)
      → u.in_queue ≡ (s.heap (unit_at p i)).in_queue
      → u.out_queue ≡ (s.heap (unit_at p i)).out_queue
      → u.initialized ≡ 1
      → WiredTo queue_at p k s.heap
      → Created p i s.heap
      → WiredTo queue_at p k (store s (unit_at p i) u).heap
        × Created p (suc i) (store s (unit_at p i) u).heap
  unfolding store
  one_more p i k s u hi ho hn w c = (
    λ j h. (
      store-field (λ x. x.out_queue) s (unit_at p i) (unit_at p j) u ho ∙ (w j h).0,
      store-field (λ x. x.in_queue) s (unit_at p i) (unit_at p (suc j)) u hi ∙ (w j h).1,
    ),
    λ j h.
        if_elim (λ (v : ProcessingUnit W). v.initialized ≡ 1) (unit_at p j == unit_at p i) (λ _. hn)
          (λ e. c j (below j h (λ same. differ j e (ap (unit_at p) same)))),
  )
    where
      differ : (j : ℕ) → (unit_at p j == unit_at p i) ≡ false → unit_at p j ≡ unit_at p i → ⊥
      differ j e f = ground arith

      below : (j : ℕ) → j < suc i → j ≢ i → j < i
      below j h ne = ground arith

  create_from-Made :
      (p : Pipeline) (left i k : ℕ) (s : Site W)
      → WiredTo queue_at p k s.heap
      → Created p i s.heap
      → Made p k (i + left) (create_from queues queue_at sys p left i s)
  unfolding create_from
  create_from-Made p zero i k s w c = λ _. (w, subst (λ n. Created p n s.heap) (plus_zero i) c)
    where
      plus_zero : (i : ℕ) → i ≡ i + 0
      plus_zero i = omega arith
  create_from-Made p (suc left) i k s w c =
      let a = unit_at p i in
      let r = create_at sys.sync (s.heap a) s.world in
      let s' = record (store s a r.unit) { world = r.world } in
      let keeps = create_at-KeepsQueues sys.sync (s.heap a) s.world in
      if_elim (Made p k (i + suc left)) (is_success r.ret)
        (λ ok.
          let one = one_more p i k s r.unit keeps.0 keeps.1 (keeps.2 (ground arith)) w c in
          subst (λ n. Made p k n (create_from queues queue_at sys p left (suc i) s')) (shift i left)
            (create_from-Made p left (suc i) k s' one.0 one.1))
        (λ f o. absurd (not_success r.ret f o))
    where
      shift : (i left : ℕ) → suc i + left ≡ i + suc left
      shift i left = omega arith

  abbrev Built : Pipeline → Pipeline × Answer W → Type 0
  Built p x =
      x.1.ret ≡ success
      → (x.0.initialized ≡ 1)
        × (x.0.unit_count ≡ p.unit_count)
        × (x.0.units ≡ p.units)
        × WiredTo queue_at p (p.unit_count - 1) x.1.site.heap
        × Created p p.unit_count x.1.site.heap

  create-Built :
      (p : Pipeline) (s : Site W)
      → IsDistinct p
      → ((k : ℕ) → queue_at k ≢ 0)
      → Built p (create queues queue_at sys p s)
  unfolding create
  create-Built p s d n =
      let q_count = p.unit_count - 1 in
      let w = wire_from queues queue_at sys p q_count 0 s in
      let c = create_from queues queue_at sys p p.unit_count 0 w.site in
      if_elim (Built p) (ltb p.unit_count 2) (λ _ o. cc)
        (λ enough.
          if_elim (Built p) (is_success w.ret)
            (λ ok.
              if_elim (Built p) (is_success c.ret)
                (λ ok' _.
                  let wired =
                    wire_from-WiredTo p q_count 0 s d n (room enough) (λ j h. elim h [ ])
                      (is_success_lem w.ret ok) in
                  let made =
                    create_from-Made p p.unit_count 0 q_count w.site
                      (subst (λ k. WiredTo queue_at p k w.site.heap) (zero_plus q_count) wired)
                      (λ j h. elim h [ ]) (is_success_lem c.ret ok') in
                  (
                    refl,
                    refl,
                    refl,
                    made.0,
                    subst (λ k. Created p k c.site.heap) (zero_plus p.unit_count) made.1,
                  ))
                (λ f o. absurd (not_success c.ret f o)))
            (λ f o. absurd (not_success w.ret f o)))
    where
      room : ltb p.unit_count 2 ≡ false → 0 + (p.unit_count - 1) < p.unit_count
      room e = ground arith

      zero_plus : (k : ℕ) → 0 + k ≡ k
      zero_plus k = omega arith

  -- A vf_pipeline_create that succeeds, of a pipeline in which no unit stands twice and whose queues are
  -- not at NULL, has wired unit i to write to queue i and unit i + 1 to read from it, for every i below
  -- the number of units less one, and has initialized every unit and the pipeline, whose units stay the
  -- same.
  pub create-WiredTo :
      (p : Pipeline) (s : Site W)
      → IsDistinct p
      → ((k : ℕ) → queue_at k ≢ 0)
      → (create queues queue_at sys p s).1.ret ≡ success
      → ((create queues queue_at sys p s).0.initialized ≡ 1)
        × ((create queues queue_at sys p s).0.unit_count ≡ p.unit_count)
        × ((create queues queue_at sys p s).0.units ≡ p.units)
        × WiredTo queue_at p (p.unit_count - 1) (create queues queue_at sys p s).1.site.heap
        × Created p p.unit_count (create queues queue_at sys p s).1.site.heap
  create-WiredTo p s d n ok = create-Built p s d n ok
