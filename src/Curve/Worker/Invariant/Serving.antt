-- ===== src/Curve/Worker/Invariant/Serving.antt =====
-- Invariants of the store over a sequence of requests in order of time.
use native.Mathlib.Nat.{le_refl, le_trans}
use hubconnect.Base.{
  ℕ, ◌≤◌, Bool, true, false, Option, none, some, List, [], ◌∷◌, All, if◌then◌else◌,
}
use hubconnect.Curve.Kv.{Kv}
use hubconnect.Curve.Worker.Host.{Response, Payment}
use hubconnect.Curve.Worker.Monad.{World, Handler, Result, ok, exit}
use hubconnect.Curve.Worker.Triple.{Triple, Ensures, Any, answer_rule}
use hubconnect.Curve.Worker.Handlers.{route_curve_request}
use hubconnect.Curve.Worker.Serve.{Request, after, serve, serve_all}
use hubconnect.Curve.Worker.Invariant.Laws.{Invariant}
use hubconnect.Curve.Worker.Invariant.Actions.{Held, Grows}
use hubconnect.Curve.Worker.Invariant.Requests.{
  handle_buy_rule, handle_sell_rule, handle_quote_rule, handle_state_rule, handle_trades_rule,
}

module _ (kv : Kv) (P : World kv.Store → Type 0) where
  -- A handler that is chosen keeps the invariant.
  data Kept : Option (Handler kv.Store Response) → Type 0 where
    unchosen : Kept none
    chosen : (m : Handler kv.Store Response) → Triple P m Any → Kept (some m)

  Kept-if :
      (b : Bool) {x y : Option (Handler kv.Store Response)}
      → Kept x
      → Kept y
      → Kept (if b then x else y)
  Kept-if true kx ky = kx
  Kept-if false kx ky = ky

  ended : {A : Type 0} (x : Result A × World kv.Store) → Ensures P Any x → P x.1
  ended (ok a, w) e = e.0
  ended (exit r, w) e = e

  after-kept :
      (o : Option (Handler kv.Store Response)) (w : World kv.Store)
      → Kept o
      → P w
      → P (after kv o w)
  after-kept none w unchosen p = p
  after-kept (some m) w (chosen _ k) p = ended (m w) (k.run w p)

module _ {kv : Kv} (Paid : List Payment → Type 0) (grow : Grows Paid) where
  route-Kept :
      (r : Request) (inv : Invariant kv r.host)
      → Kept kv (Held inv Paid) (route_curve_request kv r.path r.method r.host r.body)
  unfolding route_curve_request
  route-Kept r inv = Kept-if kv (Held inv Paid) _ (chosen _ (handle_state_rule inv Paid grow)) (
      Kept-if kv (Held inv Paid) _ (chosen _ (handle_trades_rule inv Paid)) (
        Kept-if kv (Held inv Paid) _ (chosen _ (handle_quote_rule inv Paid r.body)) (
          Kept-if kv (Held inv Paid) _ (chosen _ (handle_buy_rule inv Paid grow r.body)) (
            Kept-if kv (Held inv Paid) _ (chosen _ (handle_sell_rule inv Paid grow r.body))
              (Kept-if kv (Held inv Paid) _ (chosen _ (answer_rule _)) unchosen)))))

  -- One request keeps an invariant of the store, and a property of the ledger that payments keep.
  pub serve_rule :
      (r : Request) (inv : Invariant kv r.host) (w : World kv.Store)
      → Held inv Paid w
      → Held inv Paid (serve kv r w)
  unfolding serve
  serve_rule r inv w p = after-kept kv (Held inv Paid) _ w (route-Kept r inv) p

abbrev pub InOrder : ℕ → List Request → Type 0
InOrder t [] = Unit
InOrder t (r ∷ rs) = (t ≤ r.host.now) × InOrder r.host.now rs

abbrev pub end_time : ℕ → List Request → ℕ
end_time t [] = t
end_time t (r ∷ rs) = end_time r.host.now rs

pub end_time-le : (t : ℕ) (rs : List Request) → InOrder t rs → t ≤ end_time t rs
end_time-le t [] o = le_refl t
end_time-le t (r ∷ rs) (le, o) = le_trans le (end_time-le r.host.now rs o)

pub serve_all_rule :
    (kv : Kv) (Keep : ℕ → World kv.Store → Type 0) (Fits : Request → Type 0)
    → ((t u : ℕ) (w : World kv.Store) → t ≤ u → Keep t w → Keep u w)
    → ((r : Request) (w : World kv.Store)
        → Fits r
        → Keep r.host.now w
        → Keep r.host.now (serve kv r w))
    → (t : ℕ) (rs : List Request) (w : World kv.Store) → InOrder t rs
    → All Fits rs
    → Keep t w
    → Keep (end_time t rs) (serve_all kv rs w)
unfolding serve_all
serve_all_rule kv Keep Fits later one t [] w o f k = k
serve_all_rule kv Keep Fits later one t (r ∷ rs) w (le, o) (f, fs) k =
    serve_all_rule kv Keep Fits later one r.host.now rs (serve kv r w) o fs
      (one r w f (later t r.host.now w le k))
