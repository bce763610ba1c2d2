-- ===== src/Position/Tests.antt =====
-- The position indexer on a small chain: runs of the batch, and instances of the theorems.
use ibet_wallet_api.Base.{
  returned, ℕ, ◌<◌, ◌≤◌, length, All, ◌≡◌, refl, true, false, List, [], ◌∷◌, ◌==◌, none, some,
  if◌then◌else◌, first_where, update_first,
}
use ibet_wallet_api.Chain.{Address, Log, Answer, found, unavailable, events_of, in_range}
use ibet_wallet_api.Approval.Targets.{append_token, append_exchange, get_oldest_cursor}
use ibet_wallet_api.Approval.Sync.{Targets}
use ibet_wallet_api.Position.Table.{Position, Lock, Db, sink_on_position, sink_on_locked_position}
use ibet_wallet_api.Position.Table.Stored.{IsPut, sink_on_position-IsPut}
use ibet_wallet_api.Position.Session.{Session, ended}
use ibet_wallet_api.Position.Accounts.{Holder, remove_duplicates, chunked, unique_holders}
use ibet_wallet_api.Position.Node.{TransferArgs, Node, Messages}
use ibet_wallet_api.Position.Sync.{
  transfer_keys, get_account_balance_for_transfer, get_account_balance_token, sync_accounts,
  sync_chunk, transfer_accounts, sync_transfer, sync_issue, sync_redeem, sync_apply_for_transfer,
  sync_cancel_transfer, sync_approve_transfer,
}
use ibet_wallet_api.Position.Sync.Locks.{
  update_locked, index_locks, sync_lock, sync_force_lock, sync_unlock, sync_force_unlock,
  sync_force_change_locked_account,
}
use ibet_wallet_api.Position.Exchange.{
  get_cursor, get_account_balance_exchange, sync_holders, exchange_holders, sync_exchange,
  escrow_holders, sync_escrow, dvp_holders, sync_dvp,
}
use ibet_wallet_api.Position.Run.{
  no_targets, Caches, sync_all, sync_chunks, set_block_numbers, next_block, own_type, Contracts,
  add_target, add_tokens, get_contract_list, Processor, failed, sync_to, sync_new_logs,
  initial_sync,
}
use ibet_wallet_api.Position.Accounts.Exact.{Distinct, EventsSatisfy, remove_duplicates-IsExact}
use ibet_wallet_api.Position.Accounts.Chunks.{concat, chunked-IsSplit}
use ibet_wallet_api.Position.Accounts.Unique.{Rises, unique_holders-IsExact}
use ibet_wallet_api.Position.Run.Starts.{StartsBy, add_tokens-StartsBy}
use ibet_wallet_api.Position.Run.Synced.{PassSaid, sync_all-PassSaid}
use ibet_wallet_api.Position.Run.Durable.{sync_new_logs-block_number}

abbrev json : Messages
json = record { lock_data = λ text. none; unlock_data = λ text. none }

abbrev log : {A : Type 0} → ℕ → A → Log A
log block args = record { block_number = block; log_index = 0; args = args }

abbrev nothing : {A : Type 0} → Address → ℕ → ℕ → Answer A
nothing x a b = found []

-- In block 3, account 7 sends token 500 to account 8; in block 5, it locks 4 at address 9. In block
-- 1000004 it sends again to account 8. An order of account 7 at exchange 600 stands in block 4.
abbrev node : Node
node = record {
  transfer = λ t a b. found (
      in_range a b
        (log 3 (record { from = 7; to = 8 }) ∷ log 1000004 (record { from = 7; to = 8 }) ∷ []));
  lock = λ t a b. found (
      in_range a b (
        log 5 (record {
          transaction_hash = 51;
          account_address = 7;
          lock_address = 9;
          value = 4;
          data_ = 0;
        })
        ∷ []));
  force_lock = nothing;
  unlock = nothing;
  force_unlock = nothing;
  force_change_locked_account = nothing;
  issue = nothing;
  redeem = nothing;
  apply_for_transfer = nothing;
  cancel_transfer = nothing;
  approve_transfer = nothing;
  new_order = λ x a b. found (in_range a b (log 4 (record { token = 500; account = 7 }) ∷ []));
  cancel_order = nothing;
  force_cancel_order = nothing;
  agree = nothing;
  settlement_ok = nothing;
  settlement_ng = nothing;
  escrow_created = nothing;
  escrow_canceled = nothing;
  escrow_holder_changed = nothing;
  delivery_created = nothing;
  delivery_canceled = nothing;
  delivery_aborted = nothing;
  dvp_holder_changed = nothing;
  timestamp = λ block. some block;
  sender = λ hash. some (some 7);
  balance_of = λ t a. if a == 7 then some 90 else some 10;
  pending_transfer = λ t a. some 0;
  locked_of = λ t l a. some 4;
  exchange_balance_of = λ x a t. some 5;
  commitment_of = λ x a t. some 5;
}

abbrev position : Address → ℕ → ℕ → ℕ → Position
position account balance on_exchange commitment = record {
  token_address = 500;
  account_address = account;
  balance = some balance;
  exchange_balance = some on_exchange;
  exchange_commitment = some commitment;
  pending_transfer = some 0;
}

abbrev lock_7 : Lock
lock_7 = record {
  transaction_hash = 51;
  msg_sender = 7;
  block_number = 5;
  token_address = 500;
  lock_address = 9;
  account_address = 7;
  value = 4;
  data_ = none;
  block_timestamp = 5;
  is_forced = false;
}

abbrev empty_db : Db
empty_db = record { position = []; locked_position = []; lock = []; unlock = []; block_number = [] }

abbrev empty : Processor
empty = record {
  caches = record { token_type = λ t. none; tradable_exchange = λ t. none };
  db = empty_db;
}

abbrev contracts : Contracts
contracts = record {
  get_token_by_address = λ t. some own_type;
  tradable_exchange = λ t. some 600;
  block_number = some 10;
}

abbrev indexed : Db
indexed = record {
  position = position 8 10 5 0 ∷ position 7 90 5 5 ∷ [];
  locked_position =
      record { token_address = 500; lock_address = 9; account_address = 7; value = 4 } ∷ [];
  lock = lock_7 ∷ [];
  unlock = [];
  block_number =
      record { token_address = 500; exchange_address = 600; latest_block_number = 10 } ∷ [];
}

run : (initial_sync node json true true contracts (500 ∷ []) empty).0.db ≡ indexed
unfolding initial_sync sync_new_logs get_contract_list add_tokens add_target append_token
    append_exchange next_block get_oldest_cursor sync_to sync_chunks sync_all sync_transfer
    sync_lock sync_force_lock sync_unlock sync_force_unlock sync_force_change_locked_account
    sync_issue sync_redeem sync_apply_for_transfer sync_cancel_transfer sync_approve_transfer
    sync_exchange sync_escrow sync_dvp exchange_holders escrow_holders dvp_holders sync_holders
    get_cursor get_account_balance_exchange get_account_balance_for_transfer
    get_account_balance_token sync_accounts sync_chunk transfer_accounts update_locked index_locks
    remove_duplicates chunked unique_holders sink_on_position sink_on_locked_position
    set_block_numbers first_where update_first events_of
run = refl

-- Two ranges of blocks, at the second of which the node fails after the transfers were committed.
abbrev far : Contracts
far = record contracts { block_number = some 2000000 }

abbrev breaking : Node
breaking = record node {
  dvp_holder_changed = λ x a b. if b == 2000000 then unavailable else found [];
}

breaks :
    ((initial_sync breaking json true true far (500 ∷ []) empty).1 ≡ failed)
    × ((initial_sync breaking json true true far (500 ∷ []) empty).0.db.lock ≡ lock_7 ∷ [])
    × ((initial_sync breaking json true true far (500 ∷ []) empty).0.db.block_number ≡ [])
unfolding initial_sync sync_new_logs get_contract_list add_tokens add_target append_token
    append_exchange next_block get_oldest_cursor sync_to sync_chunks sync_all sync_transfer
    sync_lock sync_force_lock sync_unlock sync_force_unlock sync_force_change_locked_account
    sync_issue sync_redeem sync_apply_for_transfer sync_cancel_transfer sync_approve_transfer
    sync_exchange sync_escrow sync_dvp exchange_holders escrow_holders dvp_holders sync_holders
    get_cursor get_account_balance_exchange get_account_balance_for_transfer
    get_account_balance_token sync_accounts sync_chunk transfer_accounts update_locked index_locks
    remove_duplicates chunked unique_holders sink_on_position sink_on_locked_position
    set_block_numbers first_where update_first events_of
breaks = (refl, refl, refl)

-- The next run reads the same blocks, and the row of the lock is there twice.
doubled :
    (initial_sync node json true true far
      (500 ∷ [])
      (initial_sync breaking json true true far (500 ∷ []) empty).0).0.db.lock
    ≡ lock_7 ∷ lock_7 ∷ []
unfolding initial_sync sync_new_logs get_contract_list add_tokens add_target append_token
    append_exchange next_block get_oldest_cursor sync_to sync_chunks sync_all sync_transfer
    sync_lock sync_force_lock sync_unlock sync_force_unlock sync_force_change_locked_account
    sync_issue sync_redeem sync_apply_for_transfer sync_cancel_transfer sync_approve_transfer
    sync_exchange sync_escrow sync_dvp exchange_holders escrow_holders dvp_holders sync_holders
    get_cursor get_account_balance_exchange get_account_balance_for_transfer
    get_account_balance_token sync_accounts sync_chunk transfer_accounts update_locked index_locks
    remove_duplicates chunked unique_holders sink_on_position sink_on_locked_position
    set_block_numbers first_where update_first events_of
doubled = refl

breaking_failed : (sync_new_logs breaking json true true far (500 ∷ []) empty).1 ≡ failed
unfolding sync_new_logs get_contract_list add_tokens add_target append_token append_exchange
    next_block get_oldest_cursor sync_to sync_chunks sync_all sync_transfer sync_lock
    sync_force_lock sync_unlock sync_force_unlock sync_force_change_locked_account sync_issue
    sync_redeem sync_apply_for_transfer sync_cancel_transfer sync_approve_transfer sync_exchange
    sync_escrow sync_dvp exchange_holders escrow_holders dvp_holders sync_holders get_cursor
    get_account_balance_exchange get_account_balance_for_transfer get_account_balance_token
    sync_accounts sync_chunk transfer_accounts update_locked index_locks remove_duplicates chunked
    unique_holders sink_on_position sink_on_locked_position set_block_numbers first_where
    update_first events_of
breaking_failed = refl

sync_new_logs-block_number_example :
    (sync_new_logs breaking json true true far (500 ∷ []) empty).0.db.block_number ≡ []
sync_new_logs-block_number_example =
    sync_new_logs-block_number breaking json true true far (500 ∷ []) empty breaking_failed

sink_on_position-IsPut_example :
    IsPut 500 7
      (record {
        balance = some 80;
        pending_transfer = some 1;
        exchange_balance = none;
        exchange_commitment = none;
      })
      indexed
      (sink_on_position 500 7
        (record {
          balance = some 80;
          pending_transfer = some 1;
          exchange_balance = none;
          exchange_commitment = none;
        })
        indexed)
sink_on_position-IsPut_example =
    sink_on_position-IsPut 500 7
      (record {
        balance = some 80;
        pending_transfer = some 1;
        exchange_balance = none;
        exchange_commitment = none;
      })
      indexed

abbrev targets : Targets
targets = record {
  token_list =
      record { token_address = 500; exchange_address = 600; start_block_number = 0; cursor = 0 }
      ∷ [];
  exchange_list = record { exchange_address = 600; start_block_number = 0; cursor = 0 } ∷ [];
}

abbrev before : Session
before = record { db = empty_db; committed = empty_db }

abbrev after_pass : Session
after_pass = record {
  db = record indexed { block_number = [] };
  committed = record empty_db { position = position 8 10 5 0 ∷ position 7 90 5 0 ∷ [] };
}

pass : sync_all node json targets 10 before ≡ ended after_pass
unfolding sync_all sync_transfer sync_lock sync_force_lock sync_unlock sync_force_unlock
    sync_force_change_locked_account sync_issue sync_redeem sync_apply_for_transfer
    sync_cancel_transfer sync_approve_transfer sync_exchange sync_escrow sync_dvp exchange_holders
    escrow_holders dvp_holders sync_holders get_cursor get_account_balance_exchange
    get_account_balance_for_transfer get_account_balance_token sync_accounts sync_chunk
    transfer_accounts update_locked index_locks remove_duplicates chunked unique_holders
    sink_on_position sink_on_locked_position first_where update_first events_of
pass = refl

sync_all-PassSaid_example : PassSaid node json targets 10 after_pass
sync_all-PassSaid_example = sync_all-PassSaid node json targets 10 before after_pass pass

abbrev transfers : List (Log TransferArgs)
transfers = log 3 (record { from = 7; to = 8 }) ∷ log 4 (record { from = 8; to = 0 }) ∷ []

remove_duplicates-IsExact_example :
    Distinct (remove_duplicates transfer_keys transfers)
    × ((Q : Address → Type 0)
        → (All Q (remove_duplicates transfer_keys transfers)
            → EventsSatisfy Q transfer_keys transfers)
          × (EventsSatisfy Q transfer_keys transfers
              → All Q (remove_duplicates transfer_keys transfers)))
remove_duplicates-IsExact_example = remove_duplicates-IsExact transfer_keys transfers

abbrev three_accounts : List Address
three_accounts = 7 ∷ 8 ∷ 9 ∷ []

chunked-IsSplit_example :
    (concat (chunked 2 three_accounts) ≡ three_accounts)
    × All (λ c. (0 < length c) × (length c ≤ 2)) (chunked 2 three_accounts)
chunked-IsSplit_example = chunked-IsSplit 1 three_accounts

-- Token 501 is recorded up to block 10, token 502 is new: the exchange of both starts at block 0.
abbrev known : Caches
known = record { token_type = λ t. some own_type; tradable_exchange = λ t. some 600 }

abbrev both_targets : Targets
both_targets = record {
  token_list =
      record { token_address = 501; exchange_address = 600; start_block_number = 11; cursor = 11 }
      ∷ record { token_address = 502; exchange_address = 600; start_block_number = 0; cursor = 0 }
      ∷ [];
  exchange_list = record { exchange_address = 600; start_block_number = 0; cursor = 0 } ∷ [];
}

early_start :
    add_tokens true contracts empty_db (502 ∷ []) known (add_target 501 600 11 no_targets)
    ≡ (known, returned both_targets)
unfolding add_tokens add_target append_token append_exchange next_block first_where
early_start = refl

add_tokens-StartsBy_example : StartsBy 600 11 both_targets.exchange_list
add_tokens-StartsBy_example =
    add_tokens-StartsBy 600 11 true contracts empty_db 501 (502 ∷ []) known known no_targets
      both_targets refl early_start

abbrev holders : List Holder
holders =
    record { token_address = 501; account_address = 7 }
    ∷ record { token_address = 500; account_address = 8 }
    ∷ record { token_address = 501; account_address = 7 }
    ∷ []

unique_holders-IsExact_example :
    Rises (unique_holders holders)
    × ((Q : Holder → Type 0)
        → (All Q (unique_holders holders) → All Q holders)
          × (All Q holders → All Q (unique_holders holders)))
unique_holders-IsExact_example = unique_holders-IsExact holders
