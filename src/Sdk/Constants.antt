-- ===== src/Sdk/Constants.antt =====
-- sdk/src/constants.ts: the constants that the functions of the SDK read.
use hubconnect.Base.{ℕ, ◌+◌, List, [], ◌∷◌}

abbrev pub bps : ℕ
bps = 10_000

abbrev pub tier_weights_bp : List ℕ
tier_weights_bp = 10_000 ∷ 12_500 ∷ 16_000 ∷ 20_000 ∷ []

abbrev pub tier_step_fee_lamports : List ℕ
tier_step_fee_lamports = 200_000_000 ∷ 300_000_000 ∷ 400_000_000 ∷ 500_000_000 ∷ []

abbrev pub ops_pct_bp : ℕ
ops_pct_bp = 1_000

abbrev pub tier_hub_cost_units : List ℕ
tier_hub_cost_units =
    1_000_000_000_000 ∷ 1_250_000_000_000 ∷ 1_500_000_000_000 ∷ 2_000_000_000_000 ∷ []

abbrev pub price_staleness_secs : ℕ
price_staleness_secs = 86_400

abbrev pub acc_scale : ℕ
acc_scale = 1_000_000_000_000

abbrev pub otc_pay_swap_burn_pct_bp : ℕ
otc_pay_swap_burn_pct_bp = 5_000

abbrev pub hub_max_supply_units : ℕ
hub_max_supply_units = 1_000_000_000_000_000

abbrev pub airdrop_per_desk_units : ℕ
airdrop_per_desk_units = 10_000_000_000

abbrev pub airdrop_desk_cap : ℕ
airdrop_desk_cap = 2_500

abbrev pub yield_reserve_bp : ℕ
yield_reserve_bp = 200

abbrev pub lp_reserve_bp : ℕ
lp_reserve_bp = 50

abbrev pub treasury_lock_bp : ℕ
treasury_lock_bp = yield_reserve_bp + lp_reserve_bp

abbrev pub team_allocation_bp : ℕ
team_allocation_bp = 0
