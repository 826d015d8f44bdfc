-- ===== src/Worker/Fetch.antt =====
-- web/workers/faucet.ts: the worker's `fetch`, which dispatches a request to the assets, the
-- faucet's handlers or the curve's, and what a row of requests leaves.
use text.Mathlib.Text.{◌==◌ as str_eq, starts_with}
use hubconnect.Base.{
  ℕ, Bool, true, false, ◌&&◌, ◌||◌, Option, none, some, List, [], ◌∷◌, String, ◌==◌, drop,
  if◌then◌else◌,
}
use hubconnect.Swap.Amount.{codes}
use hubconnect.Worker.Cors.{
  Text, text_eq, Headers, no_headers, resolve_allowed_origin, preflight_response, with_cors,
}
use hubconnect.Faucet.Host as F
use hubconnect.Faucet.Store as FS
use hubconnect.Faucet.IpLimit.{check_ip_limit}
use hubconnect.Faucet.Handlers.{
  World as FaucetWorld, handle_drip, handle_sol_drip, handle_mint_desk, handle_status,
}
use hubconnect.Curve.Kv as CK
use hubconnect.Curve.Worker.Host as C
use hubconnect.Curve.Worker.Monad.{World as CurveWorld, Handler}
use hubconnect.Curve.Worker.Serve.{answer_of}
use hubconnect.Curve.Worker.Handlers.{route_curve_request}

abbrev is_prefix : Text → Text → Bool
is_prefix [] t = true
is_prefix (p ∷ ps) [] = false
is_prefix (p ∷ ps) (c ∷ cs) = (p == c) && is_prefix ps cs

abbrev or_root : Text → Text
or_root [] = codes "/"
or_root (c ∷ cs) = c ∷ cs

-- The path of the asset that is asked for, without the mount `/devnet`.
unfoldable pub strip_devnet_prefix : Text → Text
strip_devnet_prefix path =
    if text_eq path (codes "/devnet") || is_prefix (codes "/devnet/") path
    then or_root (drop 7 path)
    else path

-- What is in the body of an answer: an asset by its path, nothing, or a handler's answer.
pub data Reply : Type 0 where
  asset : Text → Reply
  no_body : ℕ → Reply
  from_faucet : F.Response → Reply
  from_curve : C.Response → Reply

-- The two readings of the body are of the same JSON.
pub record Request : Type 0 where
  pub path : String
  pub method : String
  pub origin : Option Text
  pub faucet_host : F.Host
  pub faucet_body : F.Body
  pub curve_host : C.Host
  pub curve_body : C.Body

-- The faucet's store and grants, and the curve's.
pub record Worlds (A B : Type 0) : Type 0 where
  pub faucet : FaucetWorld A
  pub curve : CurveWorld B

module _ (kv : FS.Kv) where
  abbrev pub FaucetHandler : Type 0
  FaucetHandler = F.Host → F.Body → FaucetWorld kv.Store → F.Response × FaucetWorld kv.Store

  -- A POST of the faucet: first the limit of its address.
  unfoldable pub limited :
      FaucetHandler → F.Host → F.Body → FaucetWorld kv.Store → F.Response × FaucetWorld kv.Store
  limited handle h body w =
      let (free, store) = check_ip_limit kv h.now h.ip w.store in
      if free
      then handle h body (record w { store = store })
      else (F.error 429 F.too_many, record w { store = store })

module _ (fkv : FS.Kv) (ckv : CK.Kv) where
  abbrev pub Both : Type 0
  Both = Worlds fkv.Store ckv.Store

  abbrev pub by_faucet : F.Response × FaucetWorld fkv.Store → Both → Reply × Both
  by_faucet r w = (from_faucet r.0, record w { faucet = r.1 })

  unfoldable pub by_curve : Option (Handler ckv.Store C.Response) → Both → Reply × Both
  by_curve none w = (from_faucet (F.error 404 F.not_found), w)
  by_curve (some m) w = let (r, v) = m w.curve in (from_curve (answer_of r), record w { curve = v })

  -- The routes below `/api/`.
  unfoldable pub route_api : Request → Both → Reply × Both
  unfolding by_curve
  route_api q w =
      let h = q.faucet_host in
      if str_eq q.path "/api/faucet/status" && str_eq q.method "GET"
      then by_faucet (handle_status fkv h h.config h.hub_pot h.balance w.faucet) w
      else if str_eq q.path "/api/faucet/drip" && str_eq q.method "POST"
      then by_faucet (limited fkv (handle_drip fkv) h q.faucet_body w.faucet) w
      else if str_eq q.path "/api/faucet/sol" && str_eq q.method "POST"
      then by_faucet (limited fkv (handle_sol_drip fkv) h q.faucet_body w.faucet) w
      else if str_eq q.path "/api/faucet/mint-desk" && str_eq q.method "POST"
      then by_faucet (limited fkv (handle_mint_desk fkv) h q.faucet_body w.faucet) w
      else if starts_with q.path "/api/curve/"
      then by_curve (route_curve_request ckv q.path q.method q.curve_host q.curve_body) w
      else (from_faucet (F.error 404 F.not_found), w)

  -- `var` is the variable `ALLOWED_ORIGINS`.
  unfoldable pub fetch : Option Text → Request → Both → (Reply × Headers) × Both
  unfolding route_api
  fetch var q w =
      let origin = resolve_allowed_origin q.origin var in
      if starts_with q.path "/api/"
      then (if str_eq q.method "OPTIONS"
          then ((no_body (preflight_response origin).0, (preflight_response origin).1), w)
          else (let (reply, v) = route_api q w in ((reply, with_cors no_headers origin), v)))
      else ((asset (strip_devnet_prefix (codes q.path)), no_headers), w)

  unfoldable pub fetch_all : Option Text → List Request → Both → Both
  unfolding fetch
  fetch_all var [] w = w
  fetch_all var (q ∷ qs) w = fetch_all var qs (fetch var q w).1
