-- ===== src/Curve/Kv.antt =====
-- The key-value store that the worker is given (`interface CurveKV`), and what is kept in it. The
-- store itself is not part of the repository: it is a record of two operations with the laws that
-- the worker relies on. A value is the record that the worker stringifies and parses back. Times
-- are milliseconds; `expirationTtl` is in seconds, as the worker passes it.
use hubconnect.Base.{ℕ, ◌+◌, ◌*◌, ◌≤◌, ◌<◌, ◌≡◌, ◌≢◌, Option, none, some, List, String}
use hubconnect.Curve.Reserves.{CurveState}

pub data Side : Type 0 where
  buy sell : Side

pub record Trade : Type 0 where
  pub ts : ℕ
  pub side : Side
  pub wallet : String
  pub sol_lamports : ℕ
  pub hub_units : ℕ
  pub signature : String
  pub payout_signature : String

-- `curve:state`, `curve:trades` and `curve:tx:<signature>`.
pub data Key : Type 0 where
  state_key trades_key : Key
  tx_key : String → Key

abbrev pub Value : Key → Type 0
Value state_key = CurveState
Value trades_key = List Trade
Value (tx_key signature) = Unit

pub record Kv : Type 1 where
  pub Store : Type 0
  pub get : Store → ℕ → (k : Key) → Option (Value k)
  pub put : Store → ℕ → (k : Key) → Value k → Option ℕ → Store
  pub get-put_kept :
      (s : Store) (t u : ℕ) (k : Key) (v : Value k) → t ≤ u → get (put s t k v none) u k ≡ some v
  pub get-put_live :
      (s : Store) (t u : ℕ) (k : Key) (v : Value k) (ttl : ℕ)
      → t ≤ u
      → u < t + ttl * 1000
      → get (put s t k v (some ttl)) u k ≡ some v
  pub get-put_ne :
      (s : Store) (t u : ℕ) (k j : Key) (v : Value k) (ttl : Option ℕ)
      → k ≢ j
      → get (put s t k v ttl) u j ≡ get s u j
