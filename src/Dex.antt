-- ===== src/Dex.antt =====
-- The batch that indexes the events of the exchange (batch/indexer_DEX.py), with the tables `order`
-- (app/model/db/idx_order.py) and `agreement` (app/model/db/idx_agreement.py).
pub mod Table
pub mod Sink
pub mod Sync
mod Tests
