-- ===== src/Curve/Worker/Records.antt =====
-- What the worker keeps: the curve's state, the trade log and the redeemed signatures.
use hubconnect.Base.{ℕ, Bool, true, false, Option, none, some, List, [], ◌∷◌, String, take}
use hubconnect.Base.Int.{pos}
use hubconnect.Curve.Config.{virtual_sol_lamports, trade_log_limit, tx_replay_ttl_seconds}
use hubconnect.Curve.Kv.{Kv, Trade, state_key, trades_key, tx_key}
use hubconnect.Curve.Reserves.{CurveState}
use hubconnect.Curve.Worker.Host.{Host}
use hubconnect.Curve.Worker.Monad.{Handler, ◌>>=◌, ◌>>◌, pure, or_throw, gets, modify}

abbrev pub genesis : ℕ → ℕ → CurveState
genesis curve_float now = record {
  virtual_sol = virtual_sol_lamports;
  virtual_hub = curve_float;
  real_sol_raised = pos 0;
  real_hub_sold = pos 0;
  graduated = false;
  pool_address = none;
  graduated_at = none;
  created_at = now;
}

abbrev pub or_empty : Option (List Trade) → List Trade
or_empty none = []
or_empty (some ts) = ts

abbrev pub is_some : {A : Type 0} → Option A → Bool
is_some none = false
is_some (some a) = true

module _ (kv : Kv) where
  open kv use {Store, get, put}

  unfoldable pub save_state : Host → CurveState → Handler Store (Unit {0})
  save_state h state = modify (λ s. put s h.now state_key state none)

  -- The stored state, or the first state: the float is the curve wallet's $HUB balance.
  unfoldable pub init_state : Host → Option CurveState → Handler Store CurveState
  unfolding save_state
  init_state h (some state) = pure state
  init_state h none = do
    mint ← or_throw h.hub_mint
    curve_float ← or_throw h.genesis_float
    save_state h (genesis curve_float h.now)
    pure (genesis curve_float h.now)

  unfoldable pub load_state : Host → Handler Store CurveState
  unfolding init_state
  load_state h = do init_state h (← gets (λ s. get s h.now state_key))

  unfoldable pub load_trades : Host → Handler Store (List Trade)
  load_trades h = do pure (or_empty (← gets (λ s. get s h.now trades_key)))

  -- The newest trade first, and at most `trade_log_limit` of them.
  unfoldable pub push_trade : Host → Trade → Handler Store (Unit {0})
  unfolding load_trades
  push_trade h trade = do
    trades ← load_trades h
    modify (λ s. put s h.now trades_key (take trade_log_limit (trade ∷ trades)) none)

  unfoldable pub already_consumed : Host → String → Handler Store Bool
  already_consumed h signature = gets (λ s. is_some (get s h.now (tx_key signature)))

  unfoldable pub mark_consumed : Host → String → Handler Store (Unit {0})
  mark_consumed h signature =
      modify (λ s. put s h.now (tx_key signature) tt (some tx_replay_ttl_seconds))
