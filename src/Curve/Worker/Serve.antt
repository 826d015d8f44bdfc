-- ===== src/Curve/Worker/Serve.antt =====
-- Requests one after another: each is answered by `routeCurveRequest`, and what it leaves in the
-- store and on chain is there for the next one.
use hubconnect.Base.{Option, none, some, List, [], ◌∷◌, String}
use hubconnect.Curve.Kv.{Kv}
use hubconnect.Curve.Worker.Host.{Host, Body, Response}
use hubconnect.Curve.Worker.Monad.{World, Result, ok, exit, Handler}
use hubconnect.Curve.Worker.Handlers.{route_curve_request}

pub record Request : Type 0 where
  pub path : String
  pub method : String
  pub body : Body
  pub host : Host

abbrev pub answer_of : Result Response → Response
answer_of (ok r) = r
answer_of (exit r) = r

module _ (kv : Kv) where
  open kv use {Store}

  abbrev pub after : Option (Handler Store Response) → World Store → World Store
  after none w = w
  after (some m) w = (m w).1

  unfoldable pub serve : Request → World Store → World Store
  serve r w = after (route_curve_request kv r.path r.method r.host r.body) w

  unfoldable pub serve_all : List Request → World Store → World Store
  unfolding serve
  serve_all [] w = w
  serve_all (r ∷ rs) w = serve_all rs (serve r w)
