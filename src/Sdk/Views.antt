-- ===== src/Sdk/Views.antt =====
-- sdk/src/reader.ts: the accounts of the program as the SDK shows them, and the live cost of a tier.
-- Keys are their base-58 text.
use hubconnect.Base.{
  ℕ, ◌-◌, ◌≡◌, Bool, ◌||◌, ltb, ◌==◌, if◌then◌else◌, Option, none, some, List, String, arith, zero,
  suc,
}
use hubconnect.Base.Int.{ℤ, pos, sub_ℕ}
use hubconnect.Sdk.Constants.{tier_hub_cost_units, price_staleness_secs}
use hubconnect.Sdk.Tiers.{tier_entry}
use hubconnect.Sdk.Fees.{
  cumulative_fee_lamports, step_fee_lamports, cumulative_hub_cost_units, hub_cost_delta_units,
  step_fee-diff, hub_cost_delta-diff, path_sum, last_tier, path_sum-telescopes,
}

pub record ConfigView : Type 0 where
  pub authority : String
  pub pot : String
  pub ops_wallet : String
  pub treasury : String
  pub otc_program : String
  pub otc_desk_pot : String
  pub desk_collection : String
  pub hub_mint : String
  pub otc_mint : String
  pub usdc_mint : String
  pub tier_weights : List ℕ
  pub step_fee : ℕ
  pub tier_usd_cost_micros : List ℕ
  pub tier_hub_cost_units_cached : List ℕ
  pub last_price_update_ts : ℕ
  pub tier_cost_burn_bp : ℕ
  pub min_pot_threshold_lamports : ℕ
  pub burn_pct_bp : ℕ
  pub lp_pct_bp : ℕ
  pub treasury_float_pct_bp : ℕ
  pub ops_bp : ℕ
  pub protocol_fee_bp : ℕ
  pub lp_enabled : Bool
  pub lp_target_sol_lamports : ℕ
  pub lp_phase2_open_ts : ℕ
  pub paused : Bool
  pub current_epoch : ℕ
  pub genesis_ts : ℕ
  pub total_weight_bp : ℕ
  pub pot_liability_lamports : ℕ
  pub acc_per_weight : ℕ
  pub dust_scaled : ℕ

pub record EpochView : Type 0 where
  pub index : ℕ
  pub start_ts : ℕ
  pub finalized_ts : ℕ
  pub inflow_lamports : ℕ
  pub distributed_lamports : ℕ
  pub burn_pending_lamports : ℕ
  pub lp_pending_lamports : ℕ
  pub rolled_forward_lamports : ℕ
  pub total_weight_bp : ℕ
  pub per_weight_scaled : ℕ
  pub acc_per_weight_after : ℕ
  pub finalized : Bool

pub record DeskTierView : Type 0 where
  pub asset_id : String
  pub owner_at_activation : String
  pub tier : ℕ
  pub activated_epoch : ℕ
  pub stamp_acc_per_weight : ℕ
  pub total_claimed_lamports : ℕ
  pub voided : Bool

pub record OtcPotView : Type 0 where
  pub authority : String
  pub otc_vault : String
  pub otc_pending_lamports : ℕ
  pub total_lamports_spent : ℕ
  pub total_otc_bought_units : ℕ

pub record RewardRoundView : Type 0 where
  pub index : ℕ
  pub amount_units : ℕ
  pub total_weight_bp : ℕ
  pub distributed_units : ℕ
  pub claims : ℕ
  pub opened_ts : ℕ

pub record HubPotRoundView : Type 0 where
  pub index : ℕ
  pub otc_units : ℕ
  pub crclx_units : ℕ
  pub nvdax_units : ℕ
  pub spcxx_units : ℕ
  pub total_weight_bp : ℕ
  pub otc_distributed_units : ℕ
  pub crclx_distributed_units : ℕ
  pub nvdax_distributed_units : ℕ
  pub spcxx_distributed_units : ℕ
  pub claims : ℕ
  pub opened_ts : ℕ

-- No price yet, or one older than a day; a clock behind the price makes it no older.
unfoldable pub price_stale : ℕ → ConfigView → Bool
price_stale now c =
    c.last_price_update_ts == 0 || ltb price_staleness_secs (now - c.last_price_update_ts)

abbrev pub or_else : Option ℕ → ℕ → ℕ
or_else none d = d
or_else (some v) d = v

abbrev live_from : Option ℕ → Bool → Option ℕ → ℕ
live_from none stale cached = 0
live_from (some ceiling) stale cached = if stale then ceiling else or_else cached ceiling

unfoldable pub live_hub_cost_units : ℕ → ℕ → ConfigView → ℕ
live_hub_cost_units tier now c =
    live_from (tier_entry tier_hub_cost_units tier) (price_stale now c)
      (tier_entry c.tier_hub_cost_units_cached tier)

unfoldable pub live_hub_cost_delta_units : ℕ → ℕ → ℕ → ConfigView → ℤ
live_hub_cost_delta_units from to now c =
    if from == 0
    then pos (live_hub_cost_units to now c)
    else sub_ℕ (live_hub_cost_units to now c) (live_hub_cost_units from now c)

live_delta-diff :
    (now : ℕ) (c : ConfigView) (from to : ℕ)
    → live_hub_cost_delta_units from to now c
      ≡ sub_ℕ (live_hub_cost_units to now c) (live_hub_cost_units from now c)
unfolding live_hub_cost_delta_units live_hub_cost_units
live_delta-diff now c zero to = ground arith
live_delta-diff now c (suc from) to = ground arith

-- Whatever tiers a desk passes through, its fees, its $HUB costs by the genesis table and its live
-- costs at one time and configuration each add up to those of one step from where it started to
-- where it ended.
climb_telescopes :
    (now : ℕ) (c : ConfigView) (from : ℕ) (path : List ℕ)
    → let end = last_tier from path in
      let live = λ (a b : ℕ). live_hub_cost_delta_units a b now c in
      (path_sum step_fee_lamports from path ≡ step_fee_lamports from end)
      × (path_sum hub_cost_delta_units from path ≡ hub_cost_delta_units from end)
      × (path_sum live from path ≡ live_hub_cost_delta_units from end now c)
climb_telescopes now c from path = (
  path_sum-telescopes cumulative_fee_lamports step_fee_lamports step_fee-diff from path,
  path_sum-telescopes cumulative_hub_cost_units hub_cost_delta_units hub_cost_delta-diff from path,
  path_sum-telescopes (λ tier. live_hub_cost_units tier now c)
      (λ a b. live_hub_cost_delta_units a b now c) (live_delta-diff now c) from path,
)
