-- ===== src/Curve/Worker/Invariant.antt =====
-- Handlers and an invariant of the store that their writes keep. The writes are few: the
-- state, the trade log and a replay mark.
pub mod Laws
pub mod Actions
pub mod Requests
pub mod Serving
