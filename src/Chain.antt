-- ===== src/Chain.antt =====
-- What the batch processors see of the blockchain through web3: event logs that `get_logs` returns
-- for an inclusive range of blocks. The node is not part of the repository, so its answers are
-- parameters, and `Serves` states what the JSON-RPC method documents: the logs of the range.
mod Range
mod Sorted
pub use Range.*
unfoldable pub use Range.{events_of}
unfoldable pub use Sorted.{sorted}
pub use Sorted.{total-sorted}
