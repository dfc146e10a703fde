-- ===== src/Control/Replies.antt =====
-- What a client is told.
use vision_flow.Base.{
  take-all, ℕ, ◌-◌, ◌≤◌, ◌≡◌, refl, ap, ◌∙◌, true, some, List, [], ◌∷◌, ◌++◌, take, length,
  length-take, length-append, arith,
}
use vision_flow.Parser.Strings.{Text, codes, c_string}
use vision_flow.Error.{success}
use vision_flow.Service.Calls.{Returns}
use vision_flow.Service
use vision_flow.Service.{ServiceCfg}
use vision_flow.Service.Lifetime.{unused, stopped_again, init_used-initialized}
use vision_flow.Control.OverService.{UnitViews, Client, camera_service, handled, serve, serve-Used}
use vision_flow.Control.{
  has, UnitView, printed, appended, units_json_size, response_max_len, unit_text, unit_buf,
  add_units, get_stats, get_status, dispatch, handle_request,
}

module _ (decimal : ℕ → Text) where
  unit_buf_short : (i : ℕ) (u : UnitView) → length (unit_buf decimal i u) ≤ 127
  unit_buf_short i u = omega (arith, length-take 127 (unit_text decimal i u))

  appended-whole :
      (json : Text) (i : ℕ) (u : UnitView)
      → length json ≤ 640
      → appended units_json_size json (unit_buf decimal i u) ≡ json ++ unit_buf decimal i u
  appended-whole json i u h =
      ap (λ t. json ++ t)
        (take-all (768 - length json - 1) (unit_buf decimal i u)
          (omega (arith, unit_buf_short i u)))

  -- The units one after the other.
  abbrev pub joined_units : UnitView → UnitView → UnitView → UnitView → Text
  joined_units a b c d =
      ((unit_buf decimal 0 a ++ unit_buf decimal 1 b) ++ unit_buf decimal 2 c)
      ++ unit_buf decimal 3 d

  joined_units_short : (a b c d : UnitView) → length (joined_units a b c d) ≤ 508
  joined_units_short a b c d =
      let p = unit_buf decimal 0 a in
      let q = unit_buf decimal 1 b in
      let r = unit_buf decimal 2 c in
      let t = unit_buf decimal 3 d in
      omega (
        arith,
        length-append ((p ++ q) ++ r) t,
        length-append (p ++ q) r,
        length-append p q,
        unit_buf_short 0 a,
        unit_buf_short 1 b,
        unit_buf_short 2 c,
        unit_buf_short 3 d,
      )

  add_units-joined :
      (a b c d : UnitView) → add_units decimal 0 (a ∷ b ∷ c ∷ d ∷ []) [] ≡ joined_units a b c d
  unfolding add_units
  add_units-joined a b c d =
      let p = unit_buf decimal 0 a in
      let q = unit_buf decimal 1 b in
      let r = unit_buf decimal 2 c in
      let short2 : length (p ++ q) ≤ 640 =
        omega (arith, length-append p q, unit_buf_short 0 a, unit_buf_short 1 b) in
      let short3 : length ((p ++ q) ++ r) ≤ 640 = omega (
        arith,
        length-append (p ++ q) r,
        length-append p q,
        unit_buf_short 0 a,
        unit_buf_short 1 b,
        unit_buf_short 2 c,
      ) in
      ap (λ j. add_units decimal 1 (b ∷ c ∷ d ∷ []) j) (appended-whole [] 0 a (omega arith))
      ∙ ap (λ j. add_units decimal 2 (c ∷ d ∷ []) j)
          (appended-whole p 1 b (omega (arith, unit_buf_short 0 a)))
      ∙ ap (λ j. add_units decimal 3 (d ∷ []) j) (appended-whole (p ++ q) 2 c short2)
      ∙ appended-whole ((p ++ q) ++ r) 3 d short3

  -- Whatever the names and the statistics of the four units, the response to get_stats is whole: the texts of
  -- the units, each of at most 127 bytes of what is printed for it, stand one after the other between the head
  -- and the tail, and neither strncat nor the last snprintf cuts any of it off.
  pub get_stats-whole :
      (a b c d : UnitView)
      → get_stats decimal (a ∷ b ∷ c ∷ d ∷ [])
        ≡ codes "{\"status\":\"ok\",\"data\":{\"units\":["
          ++ (joined_units a b c d ++ codes "]}}\n")
  unfolding get_stats
  get_stats-whole a b c d =
      let body = joined_units a b c d in
      let head = codes "{\"status\":\"ok\",\"data\":{\"units\":[" in
      ap (λ j. printed response_max_len (head ++ (j ++ codes "]}}\n"))) (add_units-joined a b c d)
      ∙ take-all 1023 (head ++ (body ++ codes "]}}\n")) (
          omega (
            arith,
            length-append head (body ++ codes "]}}\n"),
            length-append body (codes "]}}\n"),
            joined_units_short a b c d,
          ))

-- After a successful vf_service_init, whatever requests clients make and then a vf_service_stop, whatever the
-- calls on the pools and the pipeline return, a client that asks for the status is told that the service is
-- running.
pub stopped_reported_running :
    (decimal : ℕ → Text) (rc : Returns) (views : UnitViews) (cfg : ServiceCfg) (s : Service.Service)
    (clients : List Client) (fd c : ℕ) (bytes : Text)
    → (Service.init rc cfg s).0 ≡ success
    → has decimal
        (camera_service decimal rc views)
        (c_string (take 1023 (c ∷ bytes)))
        (codes "\"cmd\":\"get_status\"")
      ≡ true
    → (handled decimal rc views
        (fd, some (c ∷ bytes))
        (Service.stop rc (serve decimal rc views clients (Service.init rc cfg s).1)).1).response
      ≡ some (codes "{\"status\":\"ok\",\"data\":{\"service\":\"running\"}}\n")
unfolding handle_request dispatch get_status
stopped_reported_running decimal rc views cfg s clients fd c bytes ok asks =
    let used = serve-Used decimal rc views clients (unused (Service.init rc cfg s).1) in
    let on = init_used-initialized rc cfg s _ ok (stopped_again _ _ used) in rw (asks, on) refl
