-- ===== src/Service/Lifetime.antt =====
-- The service from init, over any calls, to deinit.
use vision_flow.Base.{ℕ, suc, ◌≡◌, refl, inl, inr, true, false, not, List, [], ◌∷◌, if_elim, arith}
use vision_flow.Error.{VfErr, success}
use vision_flow.Service.Calls.{
  pool_in, pool_out, Call, pool_reset, pool_shutdown, queue_reset, pipeline_start, pipeline_stop,
  Run, Returns, void_call, void_calls,
}
use vision_flow.Service.{ServiceCfg, Service, init, start, stop, deinit}
use vision_flow.Service.Balance.{Live, Live-Plain, AllPlain, plain, none_left, init-SetUp}

pub void_calls-Live :
    {i o p : ℕ} (rc : Returns) (cs : List Call) (r : Run)
    → AllPlain cs
    → Live i o p r
    → Live i o p (void_calls rc cs r)
unfolding void_calls
void_calls-Live rc [] r none_left h = h
void_calls-Live rc (c ∷ cs) r (plain _ _ same rest) h =
    void_calls-Live rc cs (void_call rc c r) rest (Live-Plain rc c same h)

-- An initialized service with so much set up.
abbrev pub Ready : ℕ → ℕ → ℕ → Service → Type 0
Ready i o p s = (s.initialized ≡ true) × Live i o p s.run

module _ (rc : Returns) where
  pub start-Ready : {i o p : ℕ} (s : Service) → Ready i o p s → Ready i o p (start rc s).1
  unfolding start
  start-Ready {i = i} {o = o} {p = p} s h =
      if_elim (λ (r : VfErr × Service). Ready i o p r.1) (not s.initialized) (λ e. h)
        (λ e. (
          h.0,
          Live-Plain rc pipeline_start (λ ok r. refl)
              (void_calls-Live rc
                (pool_reset pool_in
                  ∷ pool_reset pool_out
                  ∷ queue_reset 0
                  ∷ queue_reset 1
                  ∷ queue_reset 2
                  ∷ [])
                s.run
                (plain _ _ (λ ok r. refl)
                  (plain _ _ (λ ok r. refl)
                    (plain _ _ (λ ok r. refl)
                      (plain _ _ (λ ok r. refl) (plain _ _ (λ ok r. refl) none_left)))))
                h.1),
        ))

  pub stop-Ready : {i o p : ℕ} (s : Service) → Ready i o p s → Ready i o p (stop rc s).1
  unfolding stop
  stop-Ready {i = i} {o = o} {p = p} s h =
      if_elim (λ (r : VfErr × Service). Ready i o p r.1) (not s.initialized) (λ e. h)
        (λ e. (
          h.0,
          Live-Plain rc pipeline_stop (λ ok r. refl)
              (void_calls-Live rc (pool_shutdown pool_in ∷ pool_shutdown pool_out ∷ []) s.run
                (plain _ _ (λ ok r. refl) (plain _ _ (λ ok r. refl) none_left)) h.1),
        ))

  -- The starts and stops between init and deinit, in any order and whatever they return.
  pub data Used : Service → Service → Type 0 where
    unused : (s : Service) → Used s s
    started : (s t : Service) → Used s t → Used s (start rc t).1
    stopped_again : (s t : Service) → Used s t → Used s (stop rc t).1

  pub Used-Ready : {i o p : ℕ} {s t : Service} → Used s t → Ready i o p s → Ready i o p t
  Used-Ready (unused s) h = h
  Used-Ready (started s t u) h = start-Ready t (Used-Ready u h)
  Used-Ready (stopped_again s t u) h = stop-Ready t (Used-Ready u h)

  -- Starts and stops leave a service initialized.
  pub init_used-initialized :
      (cfg : ServiceCfg) (s t : Service)
      → (init rc cfg s).0 ≡ success
      → Used (init rc cfg s).1 t
      → t.initialized ≡ true
  init_used-initialized cfg s t ok u =
      elim (init-SetUp rc cfg s
        (record { live_in = refl; live_out = refl; live_pipeline = refl })) [
          | inl (e, flag, ready) ↦ (Used-Ready u (flag, ready)).0
          | inr (bad, flag, rest) ↦ absurd (bad ok)
        ]

  pub deinit-Live :
      {i o p : ℕ} (s : Service)
      → Ready (suc i) (suc o) (suc p) s
      → ((deinit rc s).initialized ≡ false) × Live i o p (deinit rc s).run
  unfolding deinit void_calls
  deinit-Live s h = rw h.0 (
    refl,
    record {
      live_in = omega (arith, h.1.live_in);
      live_out = omega (arith, h.1.live_out);
      live_pipeline = omega (arith, h.1.live_pipeline);
    },
  )

  -- After a successful vf_service_init, whatever starts and stops follow, in any order and whatever the calls
  -- on the pools and the pipeline return, vf_service_deinit gives back all that init set up, and leaves a
  -- service that is not initialized.
  pub lifetime-Live :
      {i o p : ℕ} (cfg : ServiceCfg) (s t : Service)
      → Live i o p s.run
      → (init rc cfg s).0 ≡ success
      → Used (init rc cfg s).1 t
      → ((deinit rc t).initialized ≡ false) × Live i o p (deinit rc t).run
  lifetime-Live cfg s t h ok u = elim (init-SetUp rc cfg s h) [
    | inl (e, flag, ready) ↦ deinit-Live t (Used-Ready u (flag, ready))
    | inr (bad, flag, rest) ↦ absurd (bad ok)
  ]
