-- ===== src/Worker.antt =====
-- web/workers/faucet.ts, cors.ts: the worker that serves the faucet, the curve and the assets.
pub mod Cors
pub mod Fetch
pub mod Granted
pub mod Origins
mod Tests
