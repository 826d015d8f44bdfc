-- ===== src/Faucet/Host.antt =====
-- What one request to the faucet is told by what surrounds it: its address, the challenge service,
-- the RPC node and the parsers of web3.js. A call that throws is `none` or `threw`.
use hubconnect.Base.{ℕ, Bool, Option, List, String}

-- A transaction that the faucet signs: the starter kit, a desk, or SOL.
pub data Grant : Type 0 where
  kit : String → Grant
  desk : String → ℕ → Grant
  sol : String → ℕ → Grant

-- How sending one and `awaitSignature` ended; `failed true` threw although the transaction landed.
pub data Delivery : Type 0 where
  confirmed : String → Delivery
  failed : Bool → Delivery

-- The answer of the challenge service: the call threw, or `success` as far as it was read.
pub data SiteVerify : Type 0 where
  verify_threw : SiteVerify
  verify_said : Bool → SiteVerify

-- An account of a mint: not there, no mint, or a mint with its authority.
pub data MintInfo : Type 0 where
  missing unreadable : MintInfo
  authority : Option String → MintInfo

pub record FaucetConfig : Type 0 where
  pub hub_mint : String
  pub otc_mint : String
  pub desk_collection : String

pub record HubPot : Type 0 where
  pub crclx_mint : String
  pub nvdax_mint : String
  pub spcxx_mint : String

pub record Host : Type 0 where
  pub now : ℕ
  pub ip : String
  pub payer : String
  pub parse_pubkey : String → Option String
  pub has_secret : Bool
  pub site_verify : String → SiteVerify
  pub default_key : String
  pub config : Option FaucetConfig
  pub hub_pot : Option (Option HubPot)
  pub mint_infos : List String → Option (List MintInfo)
  pub counts : Option (Option ℕ)
  pub balance : Option ℕ
  pub deliver : Grant → Delivery

pub record Body : Type 0 where
  pub wallet : Option String
  pub turnstile_token : Option String

pub data Reason : Type 0 where
  bad_wallet challenge_required challenge_failed cooling_down no_hub_pot no_collection mint_missing
        not_mint_authority low_on_sol too_many not_found crashed :
      Reason

pub record DeskReceipt : Type 0 where
  pub desk_number : ℕ
  pub desk_signature : String

pub data Response : Type 0 where
  error : ℕ → Reason → Response
  kit_sent : String → String → DeskReceipt → Response
  sol_sent : String → String → ℕ → Response
  desk_sent : DeskReceipt → Response
  status : String → ℕ → FaucetConfig → Option HubPot → Response
