-- ===== src/Approval.antt =====
-- The batch that indexes applications for transfers (batch/indexer_TransferApproval.py), with the
-- tables of app/model/db/idx_transfer_approval.py.
pub mod Table
pub mod Sink
pub mod Targets
pub mod Sync
pub mod Listing
mod Tests
