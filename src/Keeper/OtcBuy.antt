-- ===== src/Keeper/OtcBuy.antt =====
-- keeper/otc-buy: the keeper that fronts SOL for $OTC and has the purchase recorded on chain.
pub mod Record
pub mod Cycle
pub mod Resume
pub mod Recovery
