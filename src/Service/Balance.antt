-- ===== src/Service/Balance.antt =====
-- What the service has set up, on every path.
use vision_flow.Base.{
  ℕ, suc, ◌≡◌, ◌≢◌, refl, ap, ◌∙◌, ◌⊎◌, inl, inr, Bool, true, false, List, [], ◌∷◌, Bool-cases,
  if_elim, arith,
}
use vision_flow.Error.{VfErr, success, is_success}
use vision_flow.Service.Calls.{
  pool_in, pool_out, Call, pool_init, pool_deinit, pipeline_create, Run, Returns, count, call,
  void_call, run_calls, void_calls,
}
use vision_flow.Service.{
  params_in, params_out, ServiceCfg, Service, unit_calls, cleanup_pools, created, configured,
  pool_out_set_up, init,
}

-- The pools and the pipeline are set up so many times each.
pub record Live (i o p : ℕ) (r : Run) : Type 0 where
  pub live_in : r.live_in ≡ i
  pub live_out : r.live_out ≡ o
  pub live_pipeline : r.live_pipeline ≡ p

-- A call that sets nothing up and gives nothing back.
abbrev pub Plain : Call → Type 0
Plain c = (ok : Bool) (r : Run) → count c ok r ≡ r

pub data AllPlain : List Call → Type 0 where
  none_left : AllPlain []
  plain : (c : Call) (cs : List Call) → Plain c → AllPlain cs → AllPlain (c ∷ cs)

pub Live-Plain :
    {i o p : ℕ} {r : Run} (rc : Returns) (c : Call)
    → Plain c
    → Live i o p r
    → Live i o p (void_call rc c r)
Live-Plain {r = r} rc c same h =
    let e = same (is_success (rc r.calls c)) r in
    record {
      live_in = ap (λ q. q.live_in) e ∙ h.live_in;
      live_out = ap (λ q. q.live_out) e ∙ h.live_out;
      live_pipeline = ap (λ q. q.live_pipeline) e ∙ h.live_pipeline;
    }

pub run_calls-Live :
    {i o p : ℕ} (rc : Returns) (cs : List Call) (r : Run)
    → AllPlain cs
    → Live i o p r
    → Live i o p (run_calls rc cs r).1
unfolding run_calls
run_calls-Live rc [] r none_left h = h
run_calls-Live {i} {o} {p} rc (c ∷ cs) r (plain _ _ same rest) h =
    let k = Live-Plain rc c same h in
    if_elim (λ (q : VfErr × Run). Live i o p q.1) (is_success (rc r.calls c))
      (λ e. run_calls-Live rc cs (void_call rc c r) rest k) (λ e. k)

unit_calls-AllPlain : (cfg : ServiceCfg) → AllPlain (unit_calls cfg)
unit_calls-AllPlain cfg =
    plain _ _ (λ ok r. refl)
      (plain _ _ (λ ok r. refl)
        (plain _ _ (λ ok r. refl)
          (plain _ _ (λ ok r. refl)
            (plain _ _ (λ ok r. refl)
              (plain _ _ (λ ok r. refl)
                (plain _ _ (λ ok r. refl)
                  (plain _ _ (λ ok r. refl) (plain _ _ (λ ok r. refl) none_left))))))))

-- What init leaves: a service that is initialized, with each pool and the pipeline set up once more; or an
-- error, with as much set up as before.
abbrev pub SetUp : ℕ → ℕ → ℕ → VfErr × Service → Type 0
SetUp i o p r =
    ((r.0 ≡ success) × (r.1.initialized ≡ true) × Live (suc i) (suc o) (suc p) r.1.run)
    ⊎ ((r.0 ≢ success) × (r.1.initialized ≡ false) × Live i o p r.1.run)

module _ (rc : Returns) where
  pub cleanup-Live :
      {i o p : ℕ} {r : Run}
      → Live (suc i) (suc o) p r
      → Live i o p (void_calls rc (pool_deinit pool_out ∷ pool_deinit pool_in ∷ []) r)
  unfolding void_calls
  cleanup-Live h = record {
    live_in = omega (arith, h.live_in);
    live_out = omega (arith, h.live_out);
    live_pipeline = h.live_pipeline;
  }

  cleanup_pools-SetUp :
      {i o p : ℕ} {r : Run} (e : VfErr)
      → e ≢ success
      → Live (suc i) (suc o) p r
      → SetUp i o p (cleanup_pools rc e r)
  cleanup_pools-SetUp e ne h = inr (ne, refl, cleanup-Live h)

  created-SetUp :
      {i o p : ℕ} {r : Run}
      → Live (suc i) (suc o) p r
      → SetUp i o p (created rc (call rc pipeline_create r))
  created-SetUp {r = r} h = elim (Bool-cases (is_success (rc r.calls pipeline_create))) [
    | inl ok ↦ rw ok (
        inl (
          refl,
          refl,
          record {
            live_in = h.live_in;
            live_out = h.live_out;
            live_pipeline = omega (arith, h.live_pipeline);
          },
        ))
    | inr bad ↦ rw bad (
        cleanup_pools-SetUp (rc r.calls pipeline_create) (λ q. cc)
          (record { live_in = h.live_in; live_out = h.live_out; live_pipeline = h.live_pipeline }))
  ]

  configured-SetUp :
      {i o p : ℕ} (q : VfErr × Run) → Live (suc i) (suc o) p q.1 → SetUp i o p (configured rc q)
  configured-SetUp (e, r) h = elim (Bool-cases (is_success e)) [
    | inl ok ↦ rw ok (created-SetUp h)
    | inr bad ↦ rw bad (cleanup_pools-SetUp e (λ q. cc) h)
  ]

  pool_out-SetUp :
      {i o p : ℕ} {r : Run} (cfg : ServiceCfg)
      → Live (suc i) o p r
      → SetUp i o p (
          pool_out_set_up rc cfg
            (call rc (pool_init pool_out (params_out cfg) cfg.pool_slot_count) r))
  pool_out-SetUp {r = r} cfg h =
      let c = pool_init pool_out (params_out cfg) cfg.pool_slot_count in
      elim (Bool-cases (is_success (rc r.calls c))) [
        | inl ok ↦ rw ok (
            configured-SetUp _ (
              run_calls-Live rc (unit_calls cfg) _ (unit_calls-AllPlain cfg) (record {
                live_in = h.live_in;
                live_out = omega (arith, h.live_out);
                live_pipeline = h.live_pipeline;
              })))
        | inr bad ↦ rw bad (
            inr (
              (λ q. cc),
              refl,
              record {
                live_in = omega (arith, h.live_in);
                live_out = h.live_out;
                live_pipeline = h.live_pipeline;
              },
            ))
      ]

  -- Whatever the calls return, vf_service_init either succeeds, and then each pool and the pipeline is set up
  -- once more and the service is initialized; or it fails, and then everything that it set up is given back.
  pub init-SetUp :
      {i o p : ℕ} (cfg : ServiceCfg) (s : Service) → Live i o p s.run → SetUp i o p (init rc cfg s)
  unfolding init
  init-SetUp cfg s h =
      let c = pool_init pool_in (params_in cfg) cfg.pool_slot_count in
      elim (Bool-cases (is_success (rc s.run.calls c))) [
        | inl ok ↦ rw ok (
            pool_out-SetUp cfg (record {
              live_in = omega (arith, h.live_in);
              live_out = h.live_out;
              live_pipeline = h.live_pipeline;
            }))
        | inr bad ↦ rw bad (
            inr (
              (λ q. cc),
              refl,
              record {
                live_in = h.live_in;
                live_out = h.live_out;
                live_pipeline = h.live_pipeline;
              },
            ))
      ]
