-- ===== src/Curve/Worker.antt =====
-- The worker's request handlers (web/workers/bonding-curve.ts). A handler is a state monad with
-- early answers: the state is the store and the ledger of payments that landed on chain.
pub mod Host
pub mod Monad
pub mod Deposit
pub mod Records
pub mod Graduation
pub mod Handlers
pub mod Triple
pub mod Invariant
pub mod Serve
pub mod Accounting
pub mod Inversion
pub mod Marks
pub mod Replay
pub mod Stored
pub mod Payout
