-- ===== src/Sdk.antt =====
-- The SDK under sdk/src: the supply plan, the fees, the rounds and what a desk is owed.
pub mod Constants
pub mod Tiers
pub mod Supply
pub mod Plan
pub mod Views
pub mod Rounds
pub mod Shares
pub mod Claims
pub mod Fees
pub mod Samples
mod Tests
