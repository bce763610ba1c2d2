-- ===== src/Blocks.antt =====
-- The batch that copies blocks and transactions to the database (batch/indexer_Block_Tx_Data.py),
-- with the tables of app/model/db/idx_block_data.py and app/model/db/idx_tx_data.py.
pub mod Table
pub mod Process
mod Tests
