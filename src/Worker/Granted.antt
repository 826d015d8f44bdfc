-- ===== src/Worker/Granted.antt =====
-- What the requests of one address can get from the faucet in an hour, whatever else they ask for.
use text.Mathlib.Text.{◌==◌ as str_eq, starts_with}
use native.Mathlib.Nat.{le_trans}
use hubconnect.Base.{
  ℕ, ◌+◌, ◌*◌, ◌≤◌, ◌≡◌, inl, inr, refl, sym, ap, subst, ◌∙◌, Bool, ◌&&◌, Option, none, some, List,
  [], ◌∷◌, String, length, leb, arith, Bool-cases, pick, if◌then◌else◌,
}
use hubconnect.Faucet.Config.{ip_limit_per_hour}
use hubconnect.Faucet.Host as F
use hubconnect.Faucet.Store as FS
use hubconnect.Faucet.IpLimit.{
  hour_of, Counted, put-Counted, count_of, counted_request, count_request, check_ip_limit,
}
use hubconnect.Faucet.Handlers.{
  World, handle_drip, handle_sol_drip, handle_mint_desk, handle_status,
}
use hubconnect.Faucet.Counts.{
  IsGentle, handle_drip-IsGentle, handle_sol_drip-IsGentle, handle_mint_desk-IsGentle,
}
use hubconnect.Curve.Kv as CK
use hubconnect.Curve.Worker.Host as C
use hubconnect.Curve.Worker.Monad.{Handler}
use hubconnect.Curve.Worker.Handlers.{route_curve_request}
use hubconnect.Worker.Cors.{Text}
use hubconnect.Worker.Fetch.{
  Request, Both, FaucetHandler, limited, by_curve, route_api, fetch, fetch_all,
}

module _ (kv : FS.Kv) (ip : String) (hour : ℕ) (u n : ℕ) (w : World kv.Store) where
  -- The count grew, and with it the ledger by at most two grants a step.
  abbrev Spends : World kv.Store → Type 0
  Spends v =
      (m : ℕ) × (m ≤ ip_limit_per_hour)
      × Counted kv ip hour u m v.store
      × (length v.ledger + 2 * n ≤ length w.ledger + 2 * m)

  module _ (counted : Counted kv ip hour u n w.store) (le : n ≤ ip_limit_per_hour) where
    unchanged-Spends : Spends w
    unchanged-Spends = (n, le, counted, omega arith)

    status-Spends :
        (h : F.Host) (cfg : Option F.FaucetConfig) (pot : Option (Option F.HubPot)) (b : Option ℕ)
        → Spends (handle_status kv h cfg pot b w).1
    unfolding handle_status
    status-Spends h (some cfg) (some pot) (some b) = unchanged-Spends
    status-Spends h (some cfg) (some pot) none = unchanged-Spends
    status-Spends h (some cfg) none b = unchanged-Spends
    status-Spends h none pot b = unchanged-Spends

    module _ (handle : FaucetHandler kv) (h : F.Host) (body : F.Body)
        (gentle : (v : World kv.Store) → IsGentle kv hour ip v 2 (handle h body v).1)
        (hu : hour_of u ≡ hour) where
      abbrev after_limit : Bool × kv.Store → World kv.Store
      after_limit r =
          (if r.0
            then handle h body (record w { store = r.1 })
            else (F.error 429 F.too_many, record w { store = r.1 })).1

      counted_on : Spends (after_limit (count_request kv u ip n w.store))
      unfolding count_request
      counted_on = elim (Bool-cases (leb ip_limit_per_hour n)) [
        | inl e ↦ rw e unchanged-Spends
        | inr e ↦ rw e (one_more (ground arith) (gentle _))
      ]
        where
          s1 : World kv.Store
          s1 = record w { store = kv.put w.store u (FS.ip_key (hour_of u) ip) (n + 1) 3600 }

          one_more :
              n + 1 ≤ ip_limit_per_hour
              → IsGentle kv hour ip s1 2 (handle h body s1).1
              → Spends (handle h body s1).1
          one_more lt (c, l) = (
            n + 1,
            lt,
            λ v uv hv. ap count_of (c v) ∙ put-Counted kv ip hour u n w.store hu v uv hv,
            omega (arith, l),
          )

      limited-Spends : h.now ≡ u → h.ip ≡ ip → Spends (limited kv handle h body w).1
      unfolding limited check_ip_limit
      limited-Spends en ei =
          subst (λ r. Spends (after_limit r))
            (sym (
              ap (λ a. check_ip_limit kv a h.ip w.store) en
              ∙ ap (λ a. check_ip_limit kv u a w.store) ei
              ∙ counted_request kv ip hour u n w.store hu (counted u (omega arith) hu)))
            counted_on

module _ (fkv : FS.Kv) (ckv : CK.Kv) (ip : String) (hour : ℕ) where
  -- Requests of one address, in order, within one hour.
  abbrev pub FromAddress : ℕ → List Request → Type 0
  FromAddress t [] = Unit
  FromAddress t (q ∷ qs) =
      (t ≤ q.faucet_host.now)
      × (hour_of q.faucet_host.now ≡ hour)
      × (q.faucet_host.ip ≡ ip)
      × FromAddress q.faucet_host.now qs

  module _ (var : Option Text) (q : Request) (n : ℕ) (w : Both fkv ckv)
      (hu : hour_of q.faucet_host.now ≡ hour) (ei : q.faucet_host.ip ≡ ip)
      (counted : Counted fkv ip hour q.faucet_host.now n w.faucet.store)
      (le : n ≤ ip_limit_per_hour) where
    abbrev After : Both fkv ckv → Type 0
    After v = Spends fkv ip hour q.faucet_host.now n w.faucet v.faucet

    unchanged-After : After w
    unchanged-After = unchanged-Spends fkv ip hour q.faucet_host.now n w.faucet counted le

    post-After :
        (handle : FaucetHandler fkv)
        → ((v : World fkv.Store)
            → IsGentle fkv hour ip v 2 (handle q.faucet_host q.faucet_body v).1)
        → Spends fkv ip hour q.faucet_host.now n w.faucet
            (limited fkv handle q.faucet_host q.faucet_body w.faucet).1
    post-After handle gentle =
        limited-Spends fkv ip hour q.faucet_host.now n w.faucet counted le handle q.faucet_host
          q.faucet_body gentle hu refl ei

    curve-After : (m : Option (Handler ckv.Store C.Response)) → After (by_curve fkv ckv m w).1
    unfolding by_curve
    curve-After none = unchanged-After
    curve-After (some m) = unchanged-After

    abbrev AfterReply : {A : Type 0} → A × Both fkv ckv → Type 0
    AfterReply r = After r.1

    route_api-After : AfterReply (route_api fkv ckv q w)
    unfolding route_api
    route_api-After =
        pick AfterReply (str_eq q.path "/api/faucet/status" && str_eq q.method "GET")
          (λ _.
            status-Spends fkv ip hour q.faucet_host.now n w.faucet counted le q.faucet_host
              q.faucet_host.config q.faucet_host.hub_pot q.faucet_host.balance)
          (λ _.
            pick AfterReply (str_eq q.path "/api/faucet/drip" && str_eq q.method "POST")
              (λ _.
                post-After (handle_drip fkv)
                  (λ v. handle_drip-IsGentle fkv hour ip v q.faucet_host q.faucet_body))
              (λ _.
                pick AfterReply (str_eq q.path "/api/faucet/sol" && str_eq q.method "POST")
                  (λ _.
                    post-After (handle_sol_drip fkv)
                      (λ v. handle_sol_drip-IsGentle fkv hour ip v q.faucet_host q.faucet_body))
                  (λ _.
                    pick AfterReply
                      (str_eq q.path "/api/faucet/mint-desk" && str_eq q.method "POST")
                      (λ _.
                        post-After (handle_mint_desk fkv) (λ v.
                          handle_mint_desk-IsGentle fkv hour ip v q.faucet_host q.faucet_body))
                      (λ _.
                        pick AfterReply (starts_with q.path "/api/curve/")
                          (λ _.
                            curve-After
                              (route_curve_request ckv q.path q.method q.curve_host q.curve_body))
                          (λ _. unchanged-After)))))

    fetch-After : AfterReply (fetch fkv ckv var q w)
    unfolding fetch
    fetch-After =
        pick AfterReply (starts_with q.path "/api/")
          (λ _.
            pick AfterReply (str_eq q.method "OPTIONS") (λ _. unchanged-After)
              (λ _. route_api-After))
          (λ _. unchanged-After)

  -- When `n` requests of an address are counted in this hour, within the limit, its further requests
  -- of the hour get at most two grants for each request that the limit leaves, on whatever paths, by
  -- whatever methods and for whatever wallets they ask.
  pub grants_bounded :
      (var : Option Text) (qs : List Request) (t n : ℕ) (w : Both fkv ckv)
      → FromAddress t qs
      → Counted fkv ip hour t n w.faucet.store
      → n ≤ ip_limit_per_hour
      → length (fetch_all fkv ckv var qs w).faucet.ledger + 2 * n
        ≤ length w.faucet.ledger + 2 * ip_limit_per_hour
  unfolding fetch_all
  grants_bounded var [] t n w f c le = omega arith
  grants_bounded var (q ∷ qs) t n w (tu, hu, ei, f) c le =
      let (m, lm, cm, l) = fetch-After var q n w hu ei (λ v uv. c v (le_trans tu uv)) le in
      let rest = grants_bounded var qs q.faucet_host.now m (fetch fkv ckv var q w).1 f cm lm in
      omega (arith, l, rest)
