-- ===== src/Curve/Config.antt =====
-- web/workers/curve-config.ts, and the pool fee of web/workers/raydium-cpswap.ts.
use hubconnect.Base.{ℕ, ◌*◌}

abbrev pub virtual_sol_lamports : ℕ
virtual_sol_lamports = 30_000_000_000

abbrev pub graduation_target_lamports : ℕ
graduation_target_lamports = 10_000_000_000

abbrev pub hub_decimals : ℕ
hub_decimals = 6

abbrev pub deposit_max_age_seconds : ℕ
deposit_max_age_seconds = 10 * 60

abbrev pub tx_replay_ttl_seconds : ℕ
tx_replay_ttl_seconds = 24 * 3600

abbrev pub trade_log_limit : ℕ
trade_log_limit = 50

abbrev pub curve_wallet_min_lamports : ℕ
curve_wallet_min_lamports = 5_000_000

abbrev pub graduation_rent_buffer_lamports : ℕ
graduation_rent_buffer_lamports = 50_000_000

abbrev pub cpmm_create_pool_fee_lamports : ℕ
cpmm_create_pool_fee_lamports = 150_000_000
