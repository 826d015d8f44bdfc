-- ===== src/Keeper/Epoch/Conserve.antt =====
-- What a round swaps together with what web/src/hub/lib/yield.ts estimates that the desks get of it.
use native.Mathlib.Nat.{mul-le-mul_left}
use hubconnect.Base.{ℕ, ◌+◌, ◌-◌, ◌*◌, ◌≤◌, ◌<◌, ◌≡◌, List, length, arith}
use hubconnect.Base.Int.{pos}
use hubconnect.Base.Division.{sum, shares, shares_bounds}
use hubconnect.Sdk.Constants.{bps}
use hubconnect.Sdk.Rounds.{bp_of}
use hubconnect.Sdk.Shares.{
  RoundInputs, distributable_lamports, tier_payout_lamports, weights, sum_ℤ, payouts-shares,
  length-weights,
}
use hubconnect.Keeper.Epoch.Cycle.{swap_total}

swap_total-le :
    (inflow burn lp float : ℕ) → burn + lp + float ≤ bps → swap_total inflow burn lp float ≤ inflow
unfolding swap_total bp_of
swap_total-le inflow burn lp float h =
    let whole : inflow * (burn + lp + float) ≡ inflow * burn + inflow * lp + inflow * float =
      grind arith in
    let all = mul-le-mul_left inflow h in omega arith

distributable-eq :
    (inflow burn lp float : ℕ)
    → swap_total inflow burn lp float ≤ inflow
    → distributable_lamports inflow burn lp float ≡ pos (inflow - swap_total inflow burn lp float)
unfolding distributable_lamports swap_total
distributable-eq inflow burn lp float h = ground arith

-- With the basis points of the three legs within 100%, and the weights of the desks adding up to the
-- round's, which is positive: what the keeper quotes its swap for, of the inflow that the SDK projects, is
-- no more than that inflow; with the payouts that the web client estimates for all desks it never comes to
-- more than the inflow, and misses it by at most one lamport for each desk.
pub round_conserves :
    (i : RoundInputs) (tiers : List ℕ)
    → i.burn_bp + i.lp_bp + i.float_bp ≤ bps
    → 0 < i.weight_total_bp
    → sum (weights tiers) ≡ i.weight_total_bp
    → let inflow = i.round_inflow_lamports in
      let swapped = swap_total inflow i.burn_bp i.lp_bp i.float_bp in
      (estimated : ℕ) × (sum_ℤ (λ t. tier_payout_lamports t i) tiers ≡ pos estimated)
      × (swapped ≤ inflow)
      × (swapped + estimated ≤ inflow)
      × (inflow ≤ swapped + estimated + length tiers)
round_conserves i tiers h pos_total e =
    let inflow = i.round_inflow_lamports in
    let swapped = swap_total inflow i.burn_bp i.lp_bp i.float_bp in
    let fits = swap_total-le inflow i.burn_bp i.lp_bp i.float_bp h in
    let d = inflow - swapped in
    let dist : distributable_lamports inflow i.burn_bp i.lp_bp i.float_bp ≡ pos d =
      distributable-eq inflow i.burn_bp i.lp_bp i.float_bp fits in
    let b = shares_bounds d i.weight_total_bp (weights tiers) pos_total e in
    (
      sum (shares d i.weight_total_bp (weights tiers)),
      payouts-shares i d tiers dist pos_total,
      fits,
      omega arith,
      omega (arith, length-weights tiers),
    )
