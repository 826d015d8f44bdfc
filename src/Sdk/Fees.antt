-- ===== src/Sdk/Fees.antt =====
-- sdk/src/constants.ts: the fees and costs of the tiers by the genesis tables, the split of a fee
-- and the $OTC leg.
use hubconnect.Base.{
  ℕ, zero, suc, ◌+◌, ◌-◌, ◌*◌, ◌/◌, ◌≤◌, ◌<◌, ◌≡◌, refl, ap, ltb, ◌==◌, if◌then◌else◌, List, [],
  ◌∷◌, arith,
}
use hubconnect.Base.Int.{
  ℤ, pos, pos_part, neg_part, sub_ℕ, ◌+ℤ◌, +ℤ_parts, eq_of_parts, sub_ℕ_parts,
}
use hubconnect.Sdk.Constants.{
  bps, tier_step_fee_lamports, tier_hub_cost_units, ops_pct_bp, otc_pay_swap_burn_pct_bp,
}
use hubconnect.Sdk.Tiers.{tier_entry, or_zero}

unfoldable pub cumulative_fee_lamports : ℕ → ℕ
cumulative_fee_lamports tier = or_zero (tier_entry tier_step_fee_lamports tier)

-- The difference is negative where `to` is the cheaper tier.
unfoldable pub step_fee_lamports : ℕ → ℕ → ℤ
step_fee_lamports from to =
    sub_ℕ (cumulative_fee_lamports to) (if ltb 0 from then cumulative_fee_lamports from else 0)

unfoldable pub cumulative_hub_cost_units : ℕ → ℕ
cumulative_hub_cost_units tier = or_zero (tier_entry tier_hub_cost_units tier)

unfoldable pub hub_cost_delta_units : ℕ → ℕ → ℤ
hub_cost_delta_units from to =
    if from == 0
    then pos (cumulative_hub_cost_units to)
    else sub_ℕ (cumulative_hub_cost_units to) (cumulative_hub_cost_units from)

pub record SplitFee : Type 0 where
  pub to_ops : ℕ
  pub to_pot : ℕ

unfoldable pub split_fee : ℕ → SplitFee
split_fee fee = let ops = fee * ops_pct_bp / bps in record { to_ops = ops; to_pot = fee - ops }

pub record OtcPotLeg : Type 0 where
  pub otc_paid_total : ℕ
  pub to_otc_pot : ℕ

unfoldable pub otc_pot_leg : ℕ → OtcPotLeg
otc_pot_leg otc_swap_amount =
    let total = otc_swap_amount * bps / otc_pay_swap_burn_pct_bp in
    record { otc_paid_total = total; to_otc_pot = total - otc_swap_amount }

-- What a desk pays that climbs through the tiers of a list.
abbrev pub path_sum : (ℕ → ℕ → ℤ) → ℕ → List ℕ → ℤ
path_sum step from [] = pos 0
path_sum step from (to ∷ path) = step from to +ℤ path_sum step to path

abbrev pub last_tier : ℕ → List ℕ → ℕ
last_tier from [] = from
last_tier from (to ∷ path) = last_tier to path

-- A step that is the difference of a table's entries telescopes along a path.
module _ (table : ℕ → ℕ) (step : ℕ → ℕ → ℤ)
    (diff : (from to : ℕ) → step from to ≡ sub_ℕ (table to) (table from)) where
  step_parts :
      (from to : ℕ) → pos_part (step from to) + table from ≡ neg_part (step from to) + table to
  step_parts from to = rw (diff from to) (sub_ℕ_parts (table to) (table from))

  pub path_sum-telescopes :
      (from : ℕ) (path : List ℕ) → path_sum step from path ≡ step from (last_tier from path)
  path_sum-telescopes from [] = eq_of_parts _ _ (omega (arith, step_parts from from))
  path_sum-telescopes from (to ∷ path) =
      let end = last_tier to path in
      let ih = path_sum-telescopes to path in
      let ihp = ap pos_part ih in
      let ihn = ap neg_part ih in
      eq_of_parts _ _ (
        omega (
          arith,
          +ℤ_parts (step from to) (path_sum step to path),
          step_parts from to,
          step_parts to end,
          step_parts from end,
        ))

pub step_fee-diff :
    (from to : ℕ)
    → step_fee_lamports from to ≡ sub_ℕ (cumulative_fee_lamports to) (cumulative_fee_lamports from)
unfolding step_fee_lamports cumulative_fee_lamports
step_fee-diff zero to = refl
step_fee-diff (suc from) to = ground arith

pub hub_cost_delta-diff :
    (from to : ℕ)
    → hub_cost_delta_units from to
      ≡ sub_ℕ (cumulative_hub_cost_units to) (cumulative_hub_cost_units from)
unfolding hub_cost_delta_units cumulative_hub_cost_units
hub_cost_delta-diff zero to = ground arith
hub_cost_delta-diff (suc from) to = ground arith

-- The two parts of a fee make the fee and a tenth of it, rounded down, is the operations' part; the
-- $OTC charged is twice the amount swapped, half of it for the pot.
pub fee_parts :
    (fee amount : ℕ)
    → let s = split_fee fee in
      let leg = otc_pot_leg amount in
      (s.to_ops + s.to_pot ≡ fee)
      × (s.to_ops * 10 ≤ fee)
      × (fee < s.to_ops * 10 + 10)
      × (leg.otc_paid_total ≡ 2 * amount)
      × (leg.to_otc_pot ≡ amount)
unfolding split_fee otc_pot_leg
fee_parts fee amount = (omega arith, omega arith, omega arith, omega arith, omega arith)
