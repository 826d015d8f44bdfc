-- ===== src/Curve/Worker/Host.antt =====
-- What the worker is told by what surrounds it, for one request: the RPC node, the clock, the
-- address derivations and the parsers of web3.js. `none` is a call that throws.
use hubconnect.Base.{ℕ, Bool, Option, List, String}
use hubconnect.Base.Int.{ℤ}
use hubconnect.Curve.Kv.{Trade}
use hubconnect.Curve.Reserves.{CurveState}

pub record TokenBalance : Type 0 where
  pub account_index : ℕ
  pub mint : String
  pub amount : ℕ

pub record Meta : Type 0 where
  pub err : Bool
  pub pre_balances : List ℕ
  pub post_balances : List ℕ
  pub pre_token_balances : List TokenBalance
  pub post_token_balances : List TokenBalance

-- A confirmed transaction: its account keys, looked-up addresses included.
pub record Tx : Type 0 where
  pub keys : List String
  pub info : Option Meta
  pub block_time : Option ℕ

-- A transaction that the curve wallet signs.
pub data Payment : Type 0 where
  hub_paid : String → ℕ → Payment
  sol_paid : String → ℕ → Payment
  pool_seeded : ℕ → ℕ → Payment

-- How sending and confirming one ended; `failed true` is a call that threw although the
-- transaction landed.
pub data Delivery : Type 0 where
  confirmed : String → Delivery
  failed : Bool → Delivery

pub record Host : Type 0 where
  pub now : ℕ
  pub curve_key : String
  pub parse_pubkey : String → Option String
  pub big_int : String → Option ℤ
  pub ata : String → String → String
  pub transaction : String → Option Tx
  pub hub_mint : Option String
  pub genesis_float : Option ℕ
  pub balance : Option ℕ
  pub pool_hub_balance : Option ℕ
  pub pool_sol_balance : Option ℕ
  pub rent_exempt : Option ℕ
  pub pool_key : String
  pub deliver : Payment → Delivery

-- The fields of a JSON body that are strings; an unreadable body has none.
pub record Body : Type 0 where
  pub wallet : Option String
  pub signature : Option String
  pub min_out : Option String
  pub side : Option String
  pub amount : Option String

pub data Reason : Type 0 where
  bad_body already_redeemed curve_graduated no_deposit slippage no_liquidity not_found crashed :
      Reason

pub record StatePayload : Type 0 where
  pub state : CurveState
  pub progress : ℤ
  pub target : ℕ
  pub curve_wallet : String
  pub curve_hub_ata : String
  pub hub_mint : String
  pub spot_price_lamports_per_hub : ℕ

pub record Receipt : Type 0 where
  pub sol : ℕ
  pub hub : ℕ
  pub signature : String
  pub graduated : Bool
  pub progress : ℤ

pub data Response : Type 0 where
  error : ℕ → Reason → Response
  state_payload : StatePayload → Response
  trades_payload : List Trade → Response
  quoted_buy quoted_sell : ℕ → ℕ → Response
  bought sold : Receipt → Response
