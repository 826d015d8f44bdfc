-- ===== src/Keeper/Epoch.antt =====
-- The epoch keeper, keeper/keeper/src.
pub mod Raydium
pub mod Jupiter
pub mod Journal
pub mod Cycle
pub mod Run
pub mod Refines
pub mod Once
pub mod Conserve
mod Tests
