-- ===== src/Core/Balance.antt =====
-- What the scenarios over files have set up, on every path.
use vision_flow.Base.{
  inl, inr, ℕ, zero, suc, refl, true, Option, none, some, List, [], ◌∷◌, if◌then◌else◌, Bool-cases,
  if_elim, replicate, arith,
}
use vision_flow.Error.{VfErr, is_success}
use vision_flow.Parser.{FrameSet}
use vision_flow.Parser.Strings.{codes}
use vision_flow.Parser.Load.{Loaded}
use vision_flow.Service.Calls.{
  count, noted, pool_in, pool_out, pool_init, pipeline_create, subscribe, run_once, Run, Returns,
  call, void_call, run_calls,
}
use vision_flow.Service.Balance.{
  Live, AllPlain, none_left, plain, Live-Plain, run_calls-Live, cleanup-Live,
}
use vision_flow.Service.Lifetime.{void_calls-Live}
use vision_flow.Core.{
  Scenario, scenarios, find_frame_set, params_as, pool_slot_count, operations_calls, pipeline_calls,
  ran_frames, created, built, pool_out_set_up, run_found, run_scenario, run_each, run_loaded,
  run_all,
}

operations-AllPlain : (c : Scenario) (s : FrameSet) → AllPlain (operations_calls c s)
operations-AllPlain c s =
    plain _ _ (λ ok r. refl) (plain _ _ (λ ok r. refl) (plain _ _ (λ ok r. refl) none_left))

pipeline-AllPlain : (c : Scenario) (s : FrameSet) → AllPlain (pipeline_calls c s)
pipeline-AllPlain c s =
    plain _ _ (λ ok r. refl)
      (plain _ _ (λ ok r. refl) (plain _ _ (λ ok r. refl) (plain _ _ (λ ok r. refl) none_left)))

runs-AllPlain : (n : ℕ) → AllPlain (replicate n run_once)
runs-AllPlain zero = none_left
runs-AllPlain (suc n) = plain run_once (replicate n run_once) (λ ok r. refl) (runs-AllPlain n)

module _ (rc : Returns) where
  ran_frames-Live :
      {i o p : ℕ} (q : VfErr × Run)
      → Live (suc i) (suc o) (suc p) q.1
      → Live i o p (ran_frames rc q).1
  ran_frames-Live (e, r) h = cleanup-Live rc (record {
    live_in = h.live_in;
    live_out = h.live_out;
    live_pipeline = omega (arith, h.live_pipeline);
  })

  created-Live :
      {i o p : ℕ} {r : Run} (s : FrameSet)
      → Live (suc i) (suc o) p r
      → Live i o p (created rc s (call rc pipeline_create r)).1
  created-Live {r = r} s h =
      let made = noted pipeline_create (count pipeline_create true r) in
      let told = void_call rc subscribe made in
      let frames = replicate s.frame_count run_once in
      elim (Bool-cases (is_success (rc r.calls pipeline_create))) [
        | inl ok ↦ rw ok (
            ran_frames-Live (run_calls rc frames told) (
              run_calls-Live rc frames told (runs-AllPlain s.frame_count) (
                Live-Plain {r = made} rc subscribe (λ b q. refl)
                  (record {
                    live_in = h.live_in;
                    live_out = h.live_out;
                    live_pipeline = omega (arith, h.live_pipeline);
                  }))))
        | inr bad ↦ rw bad (
            cleanup-Live rc (record {
              live_in = h.live_in;
              live_out = h.live_out;
              live_pipeline = h.live_pipeline;
            }))
      ]

  built-Live :
      {i o p : ℕ} (s : FrameSet) (q : VfErr × Run)
      → Live (suc i) (suc o) p q.1
      → Live i o p (built rc s q).1
  built-Live s (e, r) h = elim (Bool-cases (is_success e)) [
    | inl ok ↦ rw ok (created-Live s h)
    | inr bad ↦ rw bad (cleanup-Live rc h)
  ]

  pool_out-Live :
      {i o p : ℕ} {r : Run} (c : Scenario) (s : FrameSet)
      → Live (suc i) o p r
      → Live i o p
          (pool_out_set_up rc c s
            (call rc (pool_init pool_out (params_as c.dst_fmt s) pool_slot_count) r)).1
  pool_out-Live {r = r} c s h =
      let k = pool_init pool_out (params_as c.dst_fmt s) pool_slot_count in
      elim (Bool-cases (is_success (rc r.calls k))) [
        | inl ok ↦ rw ok (
            built-Live s _ (
              run_calls-Live rc (pipeline_calls c s) _ (pipeline-AllPlain c s) (
                void_calls-Live rc (operations_calls c s) _ (operations-AllPlain c s) (record {
                  live_in = h.live_in;
                  live_out = omega (arith, h.live_out);
                  live_pipeline = h.live_pipeline;
                }))))
        | inr bad ↦ rw bad (record {
          live_in = omega (arith, h.live_in);
          live_out = h.live_out;
          live_pipeline = h.live_pipeline;
        })
      ]

  -- Whatever the calls on the pools and the pipeline return, a scenario gives back all that it set up.
  pub run_found-Live :
      {i o p : ℕ} {r : Run} (c : Scenario) (s : Option FrameSet)
      → Live i o p r
      → Live i o p (run_found rc c s r).1
  unfolding run_found
  run_found-Live c none h = h
  run_found-Live {r = r} c (some s) h =
      let k = pool_init pool_in (params_as c.src_fmt s) pool_slot_count in
      elim (Bool-cases (is_success (rc r.calls k))) [
        | inl ok ↦ rw ok (
            pool_out-Live c s (record {
              live_in = omega (arith, h.live_in);
              live_out = h.live_out;
              live_pipeline = h.live_pipeline;
            }))
        | inr bad ↦
            rw bad (record {
              live_in = h.live_in;
              live_out = h.live_out;
              live_pipeline = h.live_pipeline;
            })
      ]

  run_each-Live :
      {i o p : ℕ} (sets : List FrameSet) (cs : List Scenario) (n : ℕ) (r : Run)
      → Live i o p r
      → Live i o p (run_each rc sets cs n r).1
  unfolding run_each
  run_each-Live sets [] n r h = h
  run_each-Live sets (c ∷ cs) n r h =
      let q = run_scenario rc sets c r in
      run_each-Live sets cs (if is_success q.0 then n else suc n) q.1
        (run_found-Live c (find_frame_set sets (codes c.input_set)) h)

  run_loaded-Live :
      {i o p : ℕ} {r : Run} (e : VfErr) (o' : Option (List FrameSet))
      → Live i o p r
      → Live i o p (run_loaded rc e o' r).1
  run_loaded-Live e none h = h
  run_loaded-Live {i = i} {o = o} {p = p} {r = r} e (some sets) h =
      if_elim (λ (q : VfErr × Run). Live i o p q.1) (is_success e)
        (λ ok. run_each-Live sets scenarios 0 r h) (λ bad. h)

  -- Whatever the parser loads and whatever the calls on the pools and the pipeline return, vf_core_run_all has
  -- given back every pool and every pipeline that its scenarios set up.
  pub run_all-Live :
      {i o p : ℕ} {r : Run} (l : Loaded) → Live i o p r → Live i o p (run_all rc l r).1
  unfolding run_all
  run_all-Live l h = run_loaded-Live l.err l.out_cfg h
