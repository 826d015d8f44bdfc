-- ===== src/Keeper/Epoch/Jupiter.antt =====
-- keeper/keeper/src/jupiter.ts: the first hop of the buyback, WSOL to USDC, and the whole route. The
-- address of the API and its key, which decide only where a request goes, are left out.
use text.Mathlib.Text.{◌==◌ as str_eq}
use hubconnect.Base.{
  ℕ, Bool, true, not, ◌&&◌, ◌==◌, if◌then◌else◌, Option, none, some, List, [], ◌∷◌, ◌++◌, String,
  map,
}
use hubconnect.Keeper.Epoch.Raydium.{AccountMeta, RaydiumHop2Route, fetch_hop2_route, usdc_mint}

abbrev pub default_slippage_bps : ℕ
default_slippage_bps = 100

abbrev pub default_max_accounts : ℕ
default_max_accounts = 16

abbrev pub jupiter_program_id : String
jupiter_program_id = "JUP6LkbZbjS1jKKwapdHNy74zcZ3tLUZoi5QNyVTaV4"

abbrev pub wsol_mint : String
wsol_mint = "So11111111111111111111111111111111111111112"

pub record BuildConfig : Type 0 where
  pub slippage_bps : Option ℕ
  pub max_accounts : Option ℕ

pub record BuildRequest : Type 0 where
  pub input_mint : String
  pub output_mint : String
  pub amount : ℕ
  pub taker : String
  pub slippage : ℕ
  pub account_limit : ℕ
  pub destination : String

pub record ApiInstruction : Type 0 where
  pub program_id : String
  pub accounts : List AccountMeta
  pub bytes : List ℕ

-- `none` for an amount that is no number, and for a label that is not there.
pub record BuildResponse : Type 0 where
  pub out_amount : Option ℕ
  pub other_amount_threshold : Option ℕ
  pub route_plan : Option (List (Option String))
  pub swap_instruction : Option ApiInstruction

-- The first is a fetch that throws, or an answer that cannot be read.
pub data BuildReply : Type 0 where
  no_reply not_ok : BuildReply
  replied : BuildResponse → BuildReply

-- The outside of a route: Jupiter's API, the texts that are keys, and the balances of the pool's
-- vaults, `none` for a read that throws.
pub record Market : Type 0 where
  pub build : BuildRequest → BuildReply
  pub is_key : String → Bool
  pub usdc_reserve : Option ℕ
  pub hub_reserve : Option ℕ

pub record JupiterHopRoute : Type 0 where
  pub hop1_min_out : ℕ
  pub hop1_data : List ℕ
  pub hop1_accounts : List AccountMeta
  pub hop1_out_amount : ℕ
  pub hop1_labels : List String

pub record WsolToHubRoute : Type 0 where
  pub hop1 : JupiterHopRoute
  pub hop2 : RaydiumHop2Route

abbrev pub or_default : Option ℕ → ℕ → ℕ
or_default none d = d
or_default (some v) d = v

-- The labels that are there and not empty.
abbrev pub labels : List (Option String) → List String
labels [] = []
labels (none ∷ ls) = labels ls
labels (some l ∷ ls) = if str_eq l "" then labels ls else l ∷ labels ls

abbrev pub plan_labels : Option (List (Option String)) → List String
plan_labels none = []
plan_labels (some ls) = labels ls

-- Every account asks for the signatures that the API names, but for the taker's.
unfoldable pub unsigned_by : String → AccountMeta → AccountMeta
unsigned_by taker a = record a { is_signer = a.is_signer && not (str_eq a.pubkey taker) }

abbrev pub all_keys : Market → List AccountMeta → Bool
all_keys m [] = true
all_keys m (a ∷ as_) = m.is_key a.pubkey && all_keys m as_

abbrev pub parsed :
    Option ℕ → Option ℕ → List ℕ → List AccountMeta → List String → Option JupiterHopRoute
parsed (some least) (some out) bytes accounts ls = some (record {
  hop1_min_out = least;
  hop1_data = bytes;
  hop1_accounts = accounts;
  hop1_out_amount = out;
  hop1_labels = ls;
})
parsed (some least) none bytes accounts ls = none
parsed none out bytes accounts ls = none

abbrev pub from_instruction :
    Market → String → BuildResponse → Option ApiInstruction → Option JupiterHopRoute
from_instruction m taker r none = none
from_instruction m taker r (some ix) =
    if str_eq ix.program_id jupiter_program_id && all_keys m ix.accounts
    then parsed r.other_amount_threshold r.out_amount ix.bytes (map (unsigned_by taker) ix.accounts)
        (plan_labels r.route_plan)
    else none

abbrev pub from_reply : Market → String → BuildReply → Option JupiterHopRoute
from_reply m taker no_reply = none
from_reply m taker not_ok = none
from_reply m taker (replied r) = from_instruction m taker r r.swap_instruction

abbrev pub request_of : String → String → String → String → ℕ → BuildConfig → BuildRequest
request_of input_mint output_mint taker destination amount cfg = record {
  input_mint = input_mint;
  output_mint = output_mint;
  amount = amount;
  taker = taker;
  slippage = or_default cfg.slippage_bps default_slippage_bps;
  account_limit = or_default cfg.max_accounts default_max_accounts;
  destination = destination;
}

-- `none` where `fetchHopRoute` throws.
unfoldable pub fetch_hop_route :
    Market → String → String → String → String → ℕ → BuildConfig → Option JupiterHopRoute
fetch_hop_route m taker input_mint output_mint destination amount cfg =
    if amount == 0
    then none
    else from_reply m taker
        (m.build (request_of input_mint output_mint taker destination amount cfg))

abbrev pub both_hops : JupiterHopRoute → Option RaydiumHop2Route → Option WsolToHubRoute
both_hops h none = none
both_hops h (some r) = some (record { hop1 = h; hop2 = r })

abbrev pub second_hop :
    Market
    → String
    → String
    → String
    → String
    → BuildConfig
    → Option JupiterHopRoute
    → Option WsolToHubRoute
second_hop m taker hub_mint vault_usdc vault_hub cfg none = none
second_hop m taker hub_mint vault_usdc vault_hub cfg (some h) = both_hops h (
    fetch_hop2_route m.usdc_reserve m.hub_reserve taker vault_usdc vault_hub hub_mint
      h.hop1_out_amount (or_default cfg.slippage_bps default_slippage_bps))

unfoldable pub fetch_wsol_to_hub_route :
    Market → String → String → String → String → ℕ → BuildConfig → Option WsolToHubRoute
fetch_wsol_to_hub_route m taker hub_mint vault_usdc vault_hub amount cfg =
    second_hop m taker hub_mint vault_usdc vault_hub cfg
      (fetch_hop_route m taker wsol_mint usdc_mint vault_usdc amount cfg)

abbrev pub route_accounts : WsolToHubRoute → List AccountMeta
route_accounts r = r.hop1.hop1_accounts ++ r.hop2.hop2_accounts
