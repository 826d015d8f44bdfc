-- ===== src/Curve.antt =====
-- web/workers/bonding-curve.ts and web/workers/curve-config.ts: the devnet bonding curve.
pub mod Config
pub mod Reserves
pub mod Kv
pub mod Worker
pub mod Memory
mod Tests
