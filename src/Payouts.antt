-- ===== src/Payouts.antt =====
-- scripts/mainnet-distribute.ts: paying the airdrop, and the rounds of the treasury's rewards.
pub mod Pay
pub mod Airdrop
pub mod Counts
pub mod Pays
pub mod Ends
pub mod Rightly
pub mod Complete
pub mod Guards
pub mod Reward
pub mod Rewards
pub mod Entered
pub mod RewardGuards
mod RewardTests
mod Tests
