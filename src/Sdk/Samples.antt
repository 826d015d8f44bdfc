-- ===== src/Sdk/Samples.antt =====
-- A configuration for tests.
use hubconnect.Base.{[], ◌∷◌, false}
use hubconnect.Sdk.Views.{ConfigView}

abbrev pub config : ConfigView
config = record {
  authority = "A";
  pot = "P";
  ops_wallet = "O";
  treasury = "T";
  otc_program = "G";
  otc_desk_pot = "D";
  desk_collection = "C";
  hub_mint = "HUB";
  otc_mint = "OTC";
  usdc_mint = "USDC";
  tier_weights = [];
  step_fee = 0;
  tier_usd_cost_micros = [];
  tier_hub_cost_units_cached = 900_000_000_000 ∷ 1_000_000_000_000 ∷ 1_200_000_000_000 ∷ [];
  last_price_update_ts = 1_000_000;
  tier_cost_burn_bp = 5_000;
  min_pot_threshold_lamports = 100_000_000;
  burn_pct_bp = 500;
  lp_pct_bp = 250;
  treasury_float_pct_bp = 250;
  ops_bp = 1_000;
  protocol_fee_bp = 0;
  lp_enabled = false;
  lp_target_sol_lamports = 0;
  lp_phase2_open_ts = 0;
  paused = false;
  current_epoch = 2;
  genesis_ts = 0;
  total_weight_bp = 30_000;
  pot_liability_lamports = 0;
  acc_per_weight = 1_333_333_333_333_333;
  dust_scaled = 0;
}
