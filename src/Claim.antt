-- ===== src/Claim.antt =====
-- web/src/hub/lib/claim.ts and hubPotClaim.ts: claiming what the desks of a wallet have earned.
pub mod Accounts
pub mod Batches
pub mod Send
pub mod Yield
pub mod HubPot
pub mod Results
pub mod Complete
pub mod Passing
pub mod Earned
pub mod Samples
mod Tests
