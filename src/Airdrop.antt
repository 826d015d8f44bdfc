-- ===== src/Airdrop.antt =====
-- sdk/src/airdrop.ts: the Merkle tree of the snapshot airdrop and its proofs.
pub mod Tree
pub mod Build
mod Tests
