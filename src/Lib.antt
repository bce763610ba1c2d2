-- ===== src/Lib.antt =====
-- A verification library for the ibet-Wallet-API: the batch processors that copy a blockchain to a
-- database, the monitor of the blockchain's nodes, and the provider that chooses a node.
--
-- The program has two halves. The batch processors (batch/) read events, blocks and contract states
-- through web3 and write tables; the API (app/api/) answers requests from these tables. Both reach
-- the blockchain through the HTTP provider of app/utils/web3_utils.py, which chooses a node by the
-- table that the monitor writes; the monitor itself asks each node.
--
-- Base: names of the libraries, Boolean tests on numbers, signed integers, lists, and `Run`, the
--   outcome of code that may raise: a value, an exception, or that the fuel of a loop was spent.
-- Chain: event logs, what `get_logs` may do, ranges of blocks, and Python's stable `sorted`.
-- Holders: batch/indexer_Token_Holders.py. Holders.Book is `BalanceBook`, Holders.Events the calls
--   of the node and the arguments of events, Holders.Process the methods `__process_…`,
--   Holders.Table the tables `token_holders_list` and `token_holder` with `__load_target`,
--   `__load_checkpoint` and `__save_holders`, Holders.Collect the method `collect`. The modules below
--   them are for proofs: Process.Moves, Process.Effect and Process.Net read each event as moves in a
--   ledger, Table.Rows, Table.Saved and Table.Deleted follow the rows, Collect.Tracks, Collect.Exact
--   and Collect.Outcomes put them together.
-- Dex: batch/indexer_DEX.py. Dex.Table has the tables `order` and `agreement`
--   (app/model/db/idx_order.py, app/model/db/idx_agreement.py), Dex.Sink the methods `__sink_on_…`,
--   Dex.Sync the methods `__sync_…`, `initial_sync` and `sync_new_logs`. Dex.Sync.Batch and
--   Dex.Sync.Fetch split a sync into what it reads and what it writes, Dex.Sync.Tables takes the two
--   tables apart, Dex.Sync.Covered and Dex.Sync.Indexed follow the orders of a range of blocks,
--   where the table `listing`, which other code writes, may be another one in each run.
-- Approval: batch/indexer_TransferApproval.py. Approval.Table has the tables of
--   app/model/db/idx_transfer_approval.py, Approval.Sink the method `__sink_on_transfer_approval`,
--   Approval.Targets the lists of tokens and exchanges with their cursors, Approval.Sync the methods
--   `__sync_…` and the block numbers, Approval.Listing `__get_contract_list` and the runs.
--   Sink.Machine reads the sink as a machine for each application, Sync.Recorded, Sync.Said,
--   Sync.Stages and Sync.Chunks follow the events of a token into the table.
-- Position: batch/indexer_Position_Bond.py. Position.Table has the tables of
--   app/model/db/idx_position.py and app/model/db/idx_lock_unlock.py with the methods
--   `__sink_on_…`, Position.Session database sessions with commits in the middle of a run,
--   Position.Accounts the lists of accounts, Position.Node the calls of contracts and of the node,
--   Position.Sync the loops over tokens and Position.Sync.Locks those with locks,
--   Position.Exchange those over exchanges, Position.Run `__sync_all`, `__get_contract_list` and
--   the runs. Sync.Closed, Exchange.Closed and Run.Closed carry what all writes keep through the
--   code, Sync.Fresh, Sync.Synced, Run.Sources and Run.Synced follow the accounts that
--   the code reads from token events to their positions.
-- Blocks: batch/indexer_Block_Tx_Data.py, with app/model/db/idx_block_data.py and
--   app/model/db/idx_tx_data.py. The primary keys of the tables are checked where rows are added.
-- Nodes: Nodes.Table is app/model/db/node.py, Nodes.Failover `make_request` of the two providers of
--   app/utils/web3_utils.py, Nodes.Ring and Nodes.Status batch/processor_Block_Sync_Status.py.
--   Status.Rows follows the row of a node, Status.Turn what the calls of one node show.
-- Eth: Eth.NoWait is `send_raw_transaction_no_wait` of app/api/routers/eth.py.
--
-- State and errors. A record holds the attributes of a processor, another one the tables that it
-- uses. A database session is a value that is kept at its commit and dropped at a rollback; in
-- Position, whose code commits on its way and passes over exceptions, it is a pair of what it sees
-- and what was committed. The answers of the node are functions: web3, the contracts and the
-- database engine are not part of the repository. Addresses, hashes and texts that are only copied
-- and compared are numbers.
--
-- Bounds. Balances are signed integers, as in Python; all other numbers of the models are natural
-- numbers, and where the code subtracts, the text at the definition says what happens below zero.
-- The loops over chunks of a million blocks run on fuel, the number of the latest block and one:
-- each round passes a million blocks. All other loops are over lists, or over a count of blocks or
-- of attempts.
--
-- Not modelled: the endless loops around the processors (sleep, logging, memory), the floating
-- point product in the node monitor (its ceiling is a parameter), exceptions of the database, the
-- indexers of coupons, memberships, transfers and consumptions, the methods of the indexer of
-- shares, which have the text of those of bonds, the notification processors, and the other routers
-- of the API.
pub mod Base
pub mod Chain
pub mod Holders
pub mod Dex
pub mod Blocks
pub mod Nodes
pub mod Eth
pub mod Approval
pub mod Position
