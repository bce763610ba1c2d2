-- ===== src/Eth.antt =====
-- The router that sends signed transactions (app/api/routers/eth.py).
pub mod NoWait
mod Tests
