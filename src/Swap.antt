-- ===== src/Swap.antt =====
-- web/src/hub/lib/swap.ts: quoting and executing a swap over Jupiter.
pub mod Amount
pub mod Decimal
pub mod Digits
pub mod RoundTrip
pub mod Quote
pub mod Execute
pub mod Sent
mod Tests
