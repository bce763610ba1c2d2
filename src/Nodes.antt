-- ===== src/Nodes.antt =====
-- The nodes of the blockchain: the monitor that records which of them are synchronized
-- (batch/processor_Block_Sync_Status.py) in the table `node` (app/model/db/node.py), and the HTTP
-- provider that chooses one for each request (app/utils/web3_utils.py).
pub mod Table
pub mod Failover
pub mod Ring
pub mod Status
mod Tests
