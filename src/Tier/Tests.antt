-- ===== src/Tier/Tests.antt =====
-- A desk's move to a higher tier.
use text.Mathlib.Text.{◌==◌ as str_eq}
use hubconnect.Base.{
  ℕ, ◌*◌, ◌/◌, ◌≤◌, ◌<◌, ◌≡◌, refl, true, false, Option, none, some, List, [], ◌∷◌, String, ◌==◌,
  arith, if◌then◌else◌,
}
use hubconnect.Base.Int.{ℤ, pos}
use hubconnect.Swap.Execute.{confirmed}
use hubconnect.Sdk.Samples.{config}
use hubconnect.Sdk.Views.{live_hub_cost_units, live_hub_cost_delta_units, price_stale}
use hubconnect.Claim.Samples.{pda, pot}
use hubconnect.Claim.Accounts.{
  create_ata_idempotent_ix, build_claim_yield_ix, token_program, token_2022_program,
}
use hubconnect.Keeper.Epoch.Jupiter.{jupiter_program_id}
use hubconnect.Tier.Route.{
  Api, OtcSwapRoute, size_input, next_input, probe_from, after_probe, fetch_otc_to_hub_route,
  exact_in_quote, read_build, build_query,
}
use hubconnect.Tier.Sized.{size_input-clears}
use hubconnect.Tier.Cleared.{Clears, fetch_otc_to_hub_route-Clears}
use hubconnect.Tier.Quote.{
  quote_tier_change, assert_tier_range, otc_unavailable_reason, otc_payable, TierQuote, max_tier,
  devnet, needs_mainnet,
}
use hubconnect.Tier.Change.{
  ChangeInputs, ChangeNode, by_sol, TierIx, create_ata, claim_yield, upgrade_tier, common_accounts,
  build_tier_change_ixs, settle_ixs, tier_ix, execute_tier_change,
}
use hubconnect.Tier.Moves.{IsMove, build_tier_change_ixs-IsMove}
use hubconnect.Tier.Sound.{IsSound, execute_tier_change-IsSound}

-- Three units of $HUB for two of $OTC.
abbrev linear : ℕ → ℕ → Option ℤ
linear call x = some (pos (x * 3 / 2))

sized : size_input linear 30_000 ≡ some 20_401
unfolding size_input probe_from after_probe next_input
sized = refl

size_input-clears_example :
    (amount : ℕ) × (size_input linear 30_000 ≡ some amount) × (30_000 ≤ amount * 3 / 2)
size_input-clears_example =
    size_input-clears linear 30_000 3 2 (omega arith) (omega arith) (omega arith)
      (λ call x lt. refl)

abbrev amounts : String → Option ℤ
amounts s = if str_eq s "30100" then some (pos 30_100) else some (pos 1_500)

-- The seed is quoted at 1500, all else at 30100.
abbrev api : Api
api = record {
  quote = λ call q. some (record {
    is_ok = true;
    in_amount = none;
    out_amount = if q.amount == 1_000 then some "1500" else some "30100";
  });
  build = λ q. some (record {
    is_ok = true;
    out_amount = some "30100";
    other_amount_threshold = some "30100";
    route_plan = some (some "Meteora" ∷ none ∷ []);
    swap_instruction =
        some (record { program_id = jupiter_program_id; accounts = []; bytes = 7 ∷ [] });
  });
  big_int = amounts;
  is_key = λ k. true;
}

abbrev route : OtcSwapRoute
route = record {
  otc_swap_amount = 20_401;
  jupiter_data = 7 ∷ [];
  remaining_accounts = [];
  out_amount = pos 30_100;
  route_labels = "Meteora" ∷ [];
}

routed : fetch_otc_to_hub_route api "me" "otc" "hub" "ata" (pos 30_000) ≡ some route
unfolding fetch_otc_to_hub_route size_input probe_from after_probe next_input exact_in_quote
    read_build build_query
routed = refl

fetch_otc_to_hub_route-Clears_example :
    (m : ℕ) × (pos 30_000 ≡ pos m) × (0 < m) × Clears api "me" "otc" "hub" "ata" m route
fetch_otc_to_hub_route-Clears_example =
    fetch_otc_to_hub_route-Clears api "me" "otc" "hub" "ata" (pos 30_000) route routed

-- Nothing comes out of a token that is not traded, and a least output of 0 is refused.
not_tradable : size_input (λ call x. some (pos 0)) 10 ≡ none
unfolding size_input probe_from after_probe
not_tradable = refl

no_output : fetch_otc_to_hub_route api "me" "otc" "hub" "ata" (pos 0) ≡ none
unfolding fetch_otc_to_hub_route
no_output = refl

abbrev quoted : TierQuote
quoted = record {
  steps = 3;
  sol_lamports = some 500_000_000;
  otc_available = false;
  otc_unavailable_reason = some needs_mainnet;
  hub_burn_units = pos 1_100_000_000_000;
}

quoted_on_devnet : quote_tier_change 1_000_060 config none none (some devnet) 1 4 ≡ some quoted
unfolding quote_tier_change assert_tier_range otc_unavailable_reason otc_payable
    live_hub_cost_delta_units live_hub_cost_units price_stale
quoted_on_devnet = refl

not_above : quote_tier_change 0 config none none none 3 3 ≡ none
unfolding quote_tier_change assert_tier_range
not_above = refl

abbrev inputs : ChangeInputs
inputs = record {
  pda = pda;
  payer = "me";
  desk_asset = "desk";
  from_tier = 1;
  to_tier = 4;
  method = by_sol;
  config = config;
  otc_pay = none;
  otc_pot = some pot;
  tokenomics = some "lock";
  pending_lamports = 5;
  otc_route = none;
}

abbrev built : List TierIx
built =
    create_ata (create_ata_idempotent_ix pda "me" "me" "OTC" token_2022_program)
    ∷ claim_yield (build_claim_yield_ix pda "me" "desk" config pot)
    ∷ upgrade_tier 4 (common_accounts inputs "lock") token_program
    ∷ []

builds : build_tier_change_ixs inputs ≡ some built
unfolding build_tier_change_ixs assert_tier_range settle_ixs tier_ix
builds = refl

build_tier_change_ixs-IsMove_example : (1 ≤ 4) × (4 ≤ max_tier) × (1 < 4) × IsMove inputs built
build_tier_change_ixs-IsMove_example = build_tier_change_ixs-IsMove inputs built builds

abbrev node : ChangeNode
node = record {
  has_blockhash = true;
  simulate = λ ixs. some true;
  sign = λ ixs. some "signed";
  send = λ bytes. some "sig";
  confirm = λ x. confirmed;
}

execute_tier_change-IsSound_example : IsSound node inputs (execute_tier_change node inputs)
execute_tier_change-IsSound_example = execute_tier_change-IsSound node inputs
