-- ===== src/Web.antt =====
-- The libraries of the web client, web/src/hub/lib.
pub mod Candles
pub mod CpSwap
mod Tests
