-- ===== src/Sdk/Tests.antt =====
-- The SDK on a launch, a climb through the tiers, rounds and shares.
use hubconnect.Base.{ℕ, ◌+◌, ◌≤◌, ◌≡◌, refl, true, false, some, List, [], ◌∷◌, arith}
use hubconnect.Base.Int.{pos}
use hubconnect.Sdk.Samples.{config}
use hubconnect.Sdk.Tiers.{weight_bp}
use hubconnect.Sdk.Supply.{HubTokenState}
use hubconnect.Sdk.Plan.{
  TokenomicsPlan, tokenomics_plan, plan_with, plan_of, round_div, launch, Allots,
  tokenomics_plan-Allots,
}
use hubconnect.Sdk.Fees.{step_fee_lamports, cumulative_fee_lamports, split_fee}
use hubconnect.Sdk.Views.{EpochView, DeskTierView, HubPotRoundView}
use hubconnect.Sdk.Claims.{pending_yield_lamports, owed_for_epochs, rounds_add_up}

-- $HUB at launch: half of the 2,500 desks of the cap.
launch_public : (plan_with (pos 1_250) launch).public_units ≡ 962_500_000_000_000
unfolding plan_with plan_of round_div
launch_public = refl

first_step : step_fee_lamports 1 2 ≡ pos 100_000_000
unfolding step_fee_lamports cumulative_fee_lamports
first_step = refl

fee_split : (split_fee 200_000_000).to_ops ≡ 20_000_000
unfolding split_fee
fee_split = refl

tokenomics_plan-Allots_example :
    (p : TokenomicsPlan) × (tokenomics_plan (pos 1_250) launch ≡ some p) × Allots p
tokenomics_plan-Allots_example = tokenomics_plan-Allots (pos 1_250) launch (omega arith)

abbrev token : HubTokenState
token = record {
  mint = some (record { supply_units = 990_000_000_000_000; decimals = 6 });
  locked_units = 40_000_000_000_000;
}

-- A closed round that gave so much for each basis point of weight.
abbrev closed : ℕ → ℕ → EpochView
closed per after = record {
  index = 0;
  start_ts = 0;
  finalized_ts = 1;
  inflow_lamports = 0;
  distributed_lamports = 0;
  burn_pending_lamports = 0;
  lp_pending_lamports = 0;
  rolled_forward_lamports = 0;
  total_weight_bp = 30_000;
  per_weight_scaled = per;
  acc_per_weight_after = after;
  finalized = true;
}

abbrev rounds : List EpochView
rounds =
    closed 666_666_666_666_666 666_666_666_666_666
    ∷ closed 666_666_666_666_667 1_333_333_333_333_333
    ∷ []

abbrev desk : DeskTierView
desk = record {
  asset_id = "X";
  owner_at_activation = "W";
  tier = 3;
  activated_epoch = 0;
  stamp_acc_per_weight = 0;
  total_claimed_lamports = 0;
  voided = false;
}

rounds_add_up_example :
    (owed_for_epochs rounds 3 ≤ pending_yield_lamports desk config)
    × (pending_yield_lamports desk config ≤ owed_for_epochs rounds 3 + 2)
rounds_add_up_example = rounds_add_up desk config rounds refl (refl, refl, (refl, refl, refl))

abbrev basket : HubPotRoundView
basket = record {
  index = 0;
  otc_units = 1_000_001;
  crclx_units = 17;
  nvdax_units = 0;
  spcxx_units = 5_000;
  total_weight_bp = 38_500;
  otc_distributed_units = 0;
  crclx_distributed_units = 0;
  nvdax_distributed_units = 0;
  spcxx_distributed_units = 0;
  claims = 0;
  opened_ts = 0;
}

abbrev tiers : List ℕ
tiers = 1 ∷ 2 ∷ 3 ∷ []

tiers_weigh : weight_bp 1 + (weight_bp 2 + (weight_bp 3 + 0)) ≡ 38_500
unfolding weight_bp
tiers_weigh = refl
