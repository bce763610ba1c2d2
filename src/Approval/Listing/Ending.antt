-- ===== src/Approval/Listing/Ending.antt =====
-- Every run of batch/indexer_TransferApproval.py ends, by a value or by an exception.
use ibet_wallet_api.Base.{
  ℕ, suc, ◌+◌, Option, none, some, Ends, Ends-returned, Ends-raised, Ends-bind, arith,
}
use ibet_wallet_api.Approval.Table.{Db}
use ibet_wallet_api.Approval.Sink.{Library}
use ibet_wallet_api.Approval.Targets.{get_oldest_cursor}
use ibet_wallet_api.Approval.Sync.{Node, Targets, sync_chunks}
use ibet_wallet_api.Approval.Sync.Ending.{sync_chunks_end}
use ibet_wallet_api.Approval.Listing.{sync_to}

-- The loop over ranges of a million blocks ends on the fuel that a run gives it, whatever the node
-- answers, wherever the tokens start and however many blocks there are: the run returns tables or
-- raises.
pub Ends-sync_to :
    (lib : Library) (n : Node) (s : Targets) (db : Db) (answer : Option ℕ)
    → Ends (sync_to lib n s db answer)
Ends-sync_to lib n s db none = Ends-raised
Ends-sync_to lib n s db (some latest) =
    Ends-bind
      (sync_chunks lib n (suc latest) latest (999999 + get_oldest_cursor s.token_list latest) s db)
      _
      (sync_chunks_end lib n (suc latest) latest (999999 + get_oldest_cursor s.token_list latest) s
        db (omega arith) (omega arith))
      (λ d. Ends-returned)
