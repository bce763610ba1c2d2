-- ===== src/Holders.antt =====
-- The batch that collects the holders of a token at a block (batch/indexer_Token_Holders.py), with
-- the tables of app/model/db/tokenholders.py.
pub mod Book
pub mod Events
pub mod Process
pub mod Table
pub mod Collect
mod Tests
