-- ===== src/Faucet/Config.antt =====
-- web/workers/faucet-config.ts.
use hubconnect.Base.{ℕ, ◌*◌}

abbrev pub drip_cooldown_seconds : ℕ
drip_cooldown_seconds = 8 * 3600

abbrev pub desk_cooldown_seconds : ℕ
desk_cooldown_seconds = 8 * 3600

abbrev pub sol_cooldown_seconds : ℕ
sol_cooldown_seconds = drip_cooldown_seconds

abbrev pub ip_limit_per_hour : ℕ
ip_limit_per_hour = 10

abbrev pub sol_drip_lamports : ℕ
sol_drip_lamports = 5_000_000

abbrev pub sol_faucet_reserve_lamports : ℕ
sol_faucet_reserve_lamports = 50_000_000

pub record DripUnits : Type 0 where
  pub hub : ℕ
  pub otc : ℕ
  pub crclx : ℕ
  pub nvdax : ℕ
  pub spcxx : ℕ

abbrev pub drip_units : DripUnits
drip_units = record {
  hub = 1_000_000 * 1_000_000;
  otc = 100_000 * 1_000_000;
  crclx = 10 * 1_000_000;
  nvdax = 10 * 1_000_000;
  spcxx = 10 * 1_000_000;
}
