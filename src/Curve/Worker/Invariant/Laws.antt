-- ===== src/Curve/Worker/Invariant/Laws.antt =====
-- What an invariant of the store must satisfy at one request.
use hubconnect.Base.{ℕ, ◌≡◌, none, some, List, String, ◌<◌, false}
use hubconnect.Curve.Config.{tx_replay_ttl_seconds}
use hubconnect.Curve.Kv.{Kv, Trade, state_key, trades_key, tx_key}
use hubconnect.Curve.Reserves.{CurveState, compute_buy, compute_sell}
use hubconnect.Curve.Worker.Host.{Host}
use hubconnect.Curve.Worker.Records.{genesis}
use hubconnect.Curve.Worker.Handlers.{Order, after_buy, after_sell}

-- `Keeps` of the store and `Good` of the state that it holds.
pub record Invariant (kv : Kv) (h : Host) : Type 1 where
  pub Keeps : kv.Store → Type 0
  pub Good : CurveState → Type 0
  pub load : (s : kv.Store) (c : CurveState) → Keeps s → kv.get s h.now state_key ≡ some c → Good c
  pub start : (n : ℕ) → h.genesis_float ≡ some n → Good (genesis n h.now)
  pub save :
      (s : kv.Store) (c : CurveState) → Good c → Keeps s → Keeps (kv.put s h.now state_key c none)
  pub log : (s : kv.Store) (ts : List Trade) → Keeps s → Keeps (kv.put s h.now trades_key ts none)
  pub mark :
      (s : kv.Store) (signature : String)
      → Keeps s
      → Keeps (kv.put s h.now (tx_key signature) tt (some tx_replay_ttl_seconds))
  pub pooled : (c : CurveState) (p : String) → Good c → Good (record c { pool_address = some p })
  pub bought :
      (o : Order)
      → Good o.state
      → o.state.graduated ≡ false
      → 0 < o.amount
      → o.fill ≡ compute_buy o.state o.amount
      → Good (after_buy h o)
  pub sold :
      (o : Order)
      → Good o.state
      → o.state.graduated ≡ false
      → 0 < o.amount
      → o.fill ≡ compute_sell o.state o.amount
      → Good (after_sell o)
