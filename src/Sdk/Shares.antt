-- ===== src/Sdk/Shares.antt =====
-- sdk/src/reader.ts and web/src/hub/lib/yield.ts: how a round, a reward round and the basket of the
-- HUB Pot are shared among the active desks by the weights of their tiers.
use hubconnect.Base.{
  ℕ, suc, ◌+◌, ◌*◌, ◌/◌, ◌≤◌, ◌<◌, ◌≡◌, refl, ap, ◌||◌, ltb, ◌==◌, if◌then◌else◌, List, [], ◌∷◌,
  map, length, arith, Bool-cases, inl, inr,
}
use hubconnect.Base.Int.{ℤ, pos, sub_ℕ, ◌+ℤ◌}
use hubconnect.Base.Division.{sum, shares, shares_bounds, div_bounds}
use hubconnect.Sdk.Tiers.{weight_bp}
use hubconnect.Sdk.Views.{ConfigView, EpochView, RewardRoundView, HubPotRoundView}
use hubconnect.Sdk.Rounds.{bp_of, floor_share, effective_inflow_lamports}

unfoldable pub reward_share_units : RewardRoundView → ℕ → ℕ
reward_share_units r tier =
    if weight_bp tier == 0 || r.total_weight_bp == 0
    then 0
    else r.amount_units * weight_bp tier / r.total_weight_bp

pub record BasketShare : Type 0 where
  pub otc : ℕ
  pub crclx : ℕ
  pub nvdax : ℕ
  pub spcxx : ℕ

unfoldable pub hub_pot_share_units : HubPotRoundView → ℕ → BasketShare
hub_pot_share_units r tier =
    let w = weight_bp tier in
    if w == 0 || r.total_weight_bp == 0
    then record { otc = 0; crclx = 0; nvdax = 0; spcxx = 0 }
    else record {
      otc = r.otc_units * w / r.total_weight_bp;
      crclx = r.crclx_units * w / r.total_weight_bp;
      nvdax = r.nvdax_units * w / r.total_weight_bp;
      spcxx = r.spcxx_units * w / r.total_weight_bp;
    }

pub record RoundInputs : Type 0 where
  pub round_inflow_lamports : ℕ
  pub weight_total_bp : ℕ
  pub burn_bp : ℕ
  pub lp_bp : ℕ
  pub float_bp : ℕ

unfoldable pub distributable_lamports : ℕ → ℕ → ℕ → ℕ → ℤ
distributable_lamports inflow burn lp float =
    sub_ℕ inflow (bp_of inflow burn + bp_of inflow lp + bp_of inflow float)

unfoldable pub tier_payout_lamports : ℕ → RoundInputs → ℤ
tier_payout_lamports tier i =
    if weight_bp tier == 0 || i.weight_total_bp == 0
    then pos 0
    else floor_share (distributable_lamports i.round_inflow_lamports i.burn_bp i.lp_bp i.float_bp)
        (weight_bp tier) i.weight_total_bp

abbrev max_of : ℕ → ℕ → ℕ
max_of a b = if ltb a b then b else a

unfoldable pub base_inputs : EpochView → ConfigView → RoundInputs
base_inputs e c = record {
  round_inflow_lamports = max_of c.min_pot_threshold_lamports (effective_inflow_lamports e c);
  weight_total_bp = c.total_weight_bp;
  burn_bp = c.burn_pct_bp;
  lp_bp = c.lp_pct_bp;
  float_bp = c.treasury_float_pct_bp;
}

abbrev pub weights : List ℕ → List ℕ
weights tiers = map weight_bp tiers

guarded_share :
    (w total n : ℕ)
    → 0 < total
    → (if w == 0 || total == 0 then 0 else n * w / total) ≡ n * w / total
guarded_share w total n h = elim (Bool-cases (w == 0)) [
  | inl e ↦ grind (arith, div_bounds (n * w) total h)
  | inr e ↦ ground arith
]

-- What the desks of a list of tiers get, each by its own share.
abbrev pub total_of : (ℕ → ℕ) → List ℕ → ℕ
total_of share [] = 0
total_of share (t ∷ ts) = share t + total_of share ts

total_of-shares :
    (share : ℕ → ℕ) (n total : ℕ)
    → ((t : ℕ) → share t ≡ n * weight_bp t / total)
    → (tiers : List ℕ) → total_of share tiers ≡ sum (shares n total (weights tiers))
total_of-shares share n total each [] = refl
total_of-shares share n total each (t ∷ ts) =
    omega (arith, each t, total_of-shares share n total each ts)

abbrev pub SharesOut : (ℕ → ℕ) → ℕ → List ℕ → Type 0
SharesOut share amount tiers =
    (total_of share tiers ≤ amount) × (amount ≤ total_of share tiers + length tiers)

pub length-weights : (tiers : List ℕ) → length (weights tiers) ≡ length tiers
length-weights [] = refl
length-weights (t ∷ ts) = ap suc (length-weights ts)

total_of-SharesOut :
    (share : ℕ → ℕ) (n total : ℕ) (tiers : List ℕ)
    → ((t : ℕ) → share t ≡ n * weight_bp t / total)
    → 0 < total
    → sum (weights tiers) ≡ total
    → SharesOut share n tiers
total_of-SharesOut share n total tiers each h e =
    let b = shares_bounds n total (weights tiers) h e in
    let s = total_of-shares share n total each tiers in
    (omega arith, omega (arith, length-weights tiers))

bucket_shares :
    (r : HubPotRoundView)
    → 0 < r.total_weight_bp
    → (t : ℕ)
    → let s = hub_pot_share_units r t in
      (s.otc ≡ r.otc_units * weight_bp t / r.total_weight_bp)
      × (s.crclx ≡ r.crclx_units * weight_bp t / r.total_weight_bp)
      × (s.nvdax ≡ r.nvdax_units * weight_bp t / r.total_weight_bp)
      × (s.spcxx ≡ r.spcxx_units * weight_bp t / r.total_weight_bp)
unfolding hub_pot_share_units
bucket_shares r h t =
    let share = λ (n : ℕ). guarded_share (weight_bp t) r.total_weight_bp n h in
    ground (arith, share r.otc_units, share r.crclx_units, share r.nvdax_units, share r.spcxx_units)

-- With the weights of the desks adding up to the round's, the shares of all desks in each of the
-- four buckets stay within the bucket and leave at most one unit for each desk.
basket-SharesOut :
    (r : HubPotRoundView) (tiers : List ℕ)
    → 0 < r.total_weight_bp
    → sum (weights tiers) ≡ r.total_weight_bp
    → SharesOut (λ t. (hub_pot_share_units r t).otc) r.otc_units tiers
      × SharesOut (λ t. (hub_pot_share_units r t).crclx) r.crclx_units tiers
      × SharesOut (λ t. (hub_pot_share_units r t).nvdax) r.nvdax_units tiers
      × SharesOut (λ t. (hub_pot_share_units r t).spcxx) r.spcxx_units tiers
basket-SharesOut r tiers h e =
    let each = bucket_shares r h in
    (
      total_of-SharesOut _ r.otc_units r.total_weight_bp tiers (λ t. (each t).0) h e,
      total_of-SharesOut _ r.crclx_units r.total_weight_bp tiers (λ t. (each t).1) h e,
      total_of-SharesOut _ r.nvdax_units r.total_weight_bp tiers (λ t. (each t).2) h e,
      total_of-SharesOut _ r.spcxx_units r.total_weight_bp tiers (λ t. (each t).3) h e,
    )

-- The same of a reward round.
pub reward-SharesOut :
    (r : RewardRoundView) (tiers : List ℕ)
    → 0 < r.total_weight_bp
    → sum (weights tiers) ≡ r.total_weight_bp
    → SharesOut (reward_share_units r) r.amount_units tiers
unfolding reward_share_units
reward-SharesOut r tiers h e =
    total_of-SharesOut _ r.amount_units r.total_weight_bp tiers
      (λ t. guarded_share (weight_bp t) r.total_weight_bp r.amount_units h) h e

abbrev pub sum_ℤ : (ℕ → ℤ) → List ℕ → ℤ
sum_ℤ f [] = pos 0
sum_ℤ f (t ∷ ts) = f t +ℤ sum_ℤ f ts

payout-share :
    (i : RoundInputs) (d t : ℕ)
    → distributable_lamports i.round_inflow_lamports i.burn_bp i.lp_bp i.float_bp ≡ pos d
    → 0 < i.weight_total_bp
    → tier_payout_lamports t i ≡ pos (d * weight_bp t / i.weight_total_bp)
unfolding tier_payout_lamports
payout-share i d t e h = rw e (ground (arith, guarded_share (weight_bp t) i.weight_total_bp d h))

-- Where what is distributed is no debt, all the payouts add up to the shares of it.
pub payouts-shares :
    (i : RoundInputs) (d : ℕ) (tiers : List ℕ)
    → distributable_lamports i.round_inflow_lamports i.burn_bp i.lp_bp i.float_bp ≡ pos d
    → 0 < i.weight_total_bp
    → sum_ℤ (λ t. tier_payout_lamports t i) tiers
      ≡ pos (sum (shares d i.weight_total_bp (weights tiers)))
unfolding ◌+ℤ◌
payouts-shares i d [] e h = refl
payouts-shares i d (t ∷ ts) e h =
    rw (payout-share i d t e h, payouts-shares i d ts e h) (ground arith)
