-- ===== src/Faucet.antt =====
-- web/workers/faucet.ts, faucet-config.ts: the devnet faucet.
pub mod Config
pub mod Store
pub mod IpLimit
pub mod Host
pub mod Await
pub mod Handlers
pub mod Guard
pub mod Cooldown
pub mod Grants
pub mod Kits
pub mod Writes
pub mod Once
pub mod Counts
pub mod Memory
mod Tests
