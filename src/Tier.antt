-- ===== src/Tier.antt =====
-- web/src/hub/lib/activate.ts: moving a desk to a higher tier, paid in SOL or in $OTC.
pub mod Route
pub mod Sized
pub mod Cleared
pub mod Quote
pub mod Change
pub mod Moves
pub mod Sound
mod Tests
