-- ===== src/Position.antt =====
-- The batches that index positions of bonds and shares (batch/indexer_Position_Bond.py), with the
-- tables of app/model/db/idx_position.py and app/model/db/idx_lock_unlock.py.
pub mod Table
pub mod Session
pub mod Accounts
pub mod Node
pub mod Sync
pub mod Exchange
pub mod Run
mod Tests
