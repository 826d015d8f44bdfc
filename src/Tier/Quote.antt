-- ===== src/Tier/Quote.antt =====
-- `quoteTierChange`: what a move to a higher tier costs.
use hubconnect.Base.{
  ℕ, ◌-◌, Bool, true, false, ◌&&◌, Option, none, some, List, String, ltb, leb, if◌then◌else◌,
}
use hubconnect.Base.Int.{ℤ}
use hubconnect.Sdk.Constants.{tier_step_fee_lamports}
use hubconnect.Sdk.Tiers.{tier_entry}
use hubconnect.Sdk.Views.{ConfigView, live_hub_cost_delta_units}

abbrev pub max_tier : ℕ
max_tier = 4

pub data HubCluster : Type 0 where
  mainnet_beta devnet localnet : HubCluster

pub record OtcPayView : Type 0 where
  pub enabled : Bool
  pub pol_account : String
  pub total_otc_collected_units : ℕ

pub record TierFeeView : Type 0 where
  pub tier_step_fee_lamports : List ℕ

pub data Unavailable : Type 0 where
  needs_mainnet not_initialized disabled : Unavailable

-- `sol_lamports` is undefined where neither table has the tier.
pub record TierQuote : Type 0 where
  pub steps : ℕ
  pub sol_lamports : Option ℕ
  pub otc_available : Bool
  pub otc_unavailable_reason : Option Unavailable
  pub hub_burn_units : ℤ

-- Tiers are whole numbers; the test passes for a target of 1 to 4 that is above the current tier.
unfoldable pub assert_tier_range : ℕ → ℕ → Bool
assert_tier_range from to = leb 1 to && leb to max_tier && ltb from to

abbrev off_mainnet : Option HubCluster → Bool
off_mainnet none = false
off_mainnet (some mainnet_beta) = false
off_mainnet (some devnet) = true
off_mainnet (some localnet) = true

abbrev pay_reason : Option OtcPayView → Option Unavailable
pay_reason none = some not_initialized
pay_reason (some p) = if p.enabled then none else some disabled

unfoldable pub otc_unavailable_reason : Option OtcPayView → Option HubCluster → Option Unavailable
otc_unavailable_reason p cluster = if off_mainnet cluster then some needs_mainnet else pay_reason p

unfoldable pub otc_payable : Option OtcPayView → Bool
otc_payable none = false
otc_payable (some p) = p.enabled

abbrev pub is_none : Option Unavailable → Bool
is_none none = true
is_none (some r) = false

abbrev fee_entry : Option TierFeeView → ℕ → Option ℕ
fee_entry none to = none
fee_entry (some f) to = tier_entry f.tier_step_fee_lamports to

abbrev or_table : Option ℕ → Option ℕ → Option ℕ
or_table none d = d
or_table (some v) d = some v

-- `none` is the error of a tier out of range.
unfoldable pub quote_tier_change :
    ℕ
    → ConfigView
    → Option OtcPayView
    → Option TierFeeView
    → Option HubCluster
    → ℕ
    → ℕ
    → Option TierQuote
unfolding assert_tier_range otc_unavailable_reason otc_payable
quote_tier_change now config otc_pay tier_fee cluster from to =
    let reason = otc_unavailable_reason otc_pay cluster in
    if assert_tier_range from to
    then some (record {
      steps = to - from;
      sol_lamports = or_table (fee_entry tier_fee to) (tier_entry tier_step_fee_lamports to);
      otc_available = is_none reason && otc_payable otc_pay;
      otc_unavailable_reason = reason;
      hub_burn_units = live_hub_cost_delta_units from to now config;
    })
    else none
