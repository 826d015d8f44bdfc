-- ===== src/Curve/Worker/Accounting.antt =====
-- The running totals and the virtual reserves over a sequence of requests.
use native.Mathlib.Nat.{le_refl, le_trans}
use hubconnect.Base.{
  ℕ, ◌*◌, ◌+◌, ◌≤◌, ◌<◌, ◌≡◌, ◌≢◌, refl, sym, ◌∙◌, subst, String, some, none, List, All, arith,
}
use mathlib.Core.Option.{some-injective}
use hubconnect.Base.Int.{pos, sub_ℕ, ◌+ℤ◌, ◌-ℤ◌}
use hubconnect.Curve.Config.{tx_replay_ttl_seconds, virtual_sol_lamports}
use hubconnect.Curve.Kv.{Kv, state_key, trades_key, tx_key}
use hubconnect.Curve.Reserves.{CurveState, compute_buy, compute_sell}
use hubconnect.Curve.Reserves.Product.{buy_product, sell_product}
use hubconnect.Curve.Worker.Host.{Host}
use hubconnect.Curve.Worker.Handlers.{Order, after_buy, after_sell}
use hubconnect.Curve.Worker.Monad.{World}
use hubconnect.Curve.Worker.Serve.{Request, serve_all}
use hubconnect.Curve.Worker.Invariant.Laws.{Invariant}
use hubconnect.Curve.Worker.Invariant.Serving.{InOrder, end_time, serve_rule, serve_all_rule}

-- The SOL raised is what the virtual SOL reserve gained, the $HUB sold is what the virtual $HUB
-- reserve lost from the float, and the product of the reserves is at most that of the start.
pub record IsBalanced (curve_float : ℕ) (c : CurveState) : Type 0 where
  pub sol : c.real_sol_raised ≡ sub_ℕ c.virtual_sol virtual_sol_lamports
  pub hub : c.real_hub_sold ≡ sub_ℕ curve_float c.virtual_hub
  pub product : c.virtual_sol * c.virtual_hub ≤ virtual_sol_lamports * curve_float

-- Totals after a trade, on the numbers alone.
moved_up : (v v' a f : ℕ) → v' ≡ v + a → sub_ℕ v f +ℤ pos a ≡ sub_ℕ v' f
unfolding ◌+ℤ◌
moved_up v v' a f e = ground arith

moved_down : (v v' a f : ℕ) → v' + a ≡ v → sub_ℕ v f -ℤ pos a ≡ sub_ℕ v' f
unfolding ◌-ℤ◌
moved_down v v' a f e = ground arith

sold_up : (v v' a f : ℕ) → v' + a ≡ v → sub_ℕ f v +ℤ pos a ≡ sub_ℕ f v'
unfolding ◌+ℤ◌
sold_up v v' a f e = ground arith

sold_down : (v v' a f : ℕ) → v' ≡ v + a → sub_ℕ f v -ℤ pos a ≡ sub_ℕ f v'
unfolding ◌-ℤ◌
sold_down v v' a f e = ground arith

bought-IsBalanced :
    (n : ℕ) (h : Host) (o : Order)
    → IsBalanced n o.state
    → 0 < o.amount
    → o.fill ≡ compute_buy o.state o.amount
    → IsBalanced n (after_buy h o)
unfolding after_buy
bought-IsBalanced n h o b p e =
    let (s, v, l, _) = buy_product o.state o.amount (omega arith) in
    record {
      sol = rw (b.sol, e) (moved_up o.state.virtual_sol _ o.amount virtual_sol_lamports s);
      hub = rw (b.hub, e) (sold_up o.state.virtual_hub _ _ n v);
      product = rw e (le_trans l b.product);
    }

sold-IsBalanced :
    (n : ℕ) (o : Order)
    → IsBalanced n o.state
    → 0 < o.amount
    → o.fill ≡ compute_sell o.state o.amount
    → IsBalanced n (after_sell o)
unfolding after_sell
sold-IsBalanced n o b p e =
    let (v, s, l, _) = sell_product o.state o.amount (omega arith) in
    record {
      sol = rw (b.sol, e) (moved_down o.state.virtual_sol _ _ virtual_sol_lamports s);
      hub = rw (b.hub, e) (sold_down o.state.virtual_hub _ o.amount n v);
      product = rw e (le_trans l b.product);
    }

-- From `t` on, whatever state is read is balanced.
abbrev pub Accounts : (kv : Kv) → ℕ → ℕ → kv.Store → Type 0
Accounts kv n t s =
    (u : ℕ) → t ≤ u → (c : CurveState) → kv.get s u state_key ≡ some c → IsBalanced n c

-- The curve wallet's balance, where a request reads it, is the float.
abbrev pub ReadsFloat : ℕ → Request → Type 0
ReadsFloat n r = (m : ℕ) → r.host.genesis_float ≡ some m → m ≡ n

state_ne_trades : trades_key ≢ state_key
state_ne_trades = ground arith

state_ne_tx : (s : String) → tx_key s ≢ state_key
state_ne_tx s = ground arith

accounts :
    (kv : Kv) (h : Host) (n : ℕ) → ((m : ℕ) → h.genesis_float ≡ some m → m ≡ n) → Invariant kv h
accounts kv h n start = record {
  Keeps = Accounts kv n h.now;
  Good = IsBalanced n;
  load = λ s c k e. k h.now (le_refl h.now) c e;
  start = λ m e. rw (start m e) (record { sol = refl; hub = ground arith; product = le_refl _ });
  save = λ s c g k u le d e.
      subst (IsBalanced n) (some-injective _ _ (sym (kv.get-put_kept s h.now u state_key c le) ∙ e))
        g;
  log = λ s ts k u le c e.
      k u le c (sym (kv.get-put_ne s h.now u trades_key state_key ts none state_ne_trades) ∙ e);
  mark = λ s x k u le c e. k u le c (
      sym (
        kv.get-put_ne s h.now u (tx_key x) state_key tt (some tx_replay_ttl_seconds)
          (state_ne_tx x))
      ∙ e);
  pooled = λ c p g. record { sol = g.sol; hub = g.hub; product = g.product };
  bought = λ o g _ p e. bought-IsBalanced n h o g p e;
  sold = λ o g _ p e. sold-IsBalanced n o g p e;
}

-- Requests in order of time, the first of which may find the store empty: if every reading of the
-- curve wallet's first balance is `n`, then every state read from the store afterwards is balanced.
pub serve_all-IsBalanced :
    (kv : Kv) (n t : ℕ) (rs : List Request) (w : World kv.Store)
    → InOrder t rs
    → All (ReadsFloat n) rs
    → Accounts kv n t w.store
    → Accounts kv n (end_time t rs) (serve_all kv rs w).store
unfolding accounts
serve_all-IsBalanced kv n =
    serve_all_rule kv (λ t w. Accounts kv n t w.store) (ReadsFloat n)
      (λ t u w le k v lv. k v (le_trans le lv))
      (λ r w f k. (serve_rule (λ _. Unit) (λ _ _ _. tt) r (accounts kv r.host n f) w (k, tt)).0)
