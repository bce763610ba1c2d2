-- ===== src/Approval/Sync.antt =====
-- The `__sync_…` methods of batch/indexer_TransferApproval.py, `initial_sync` and `sync_new_logs`.
pub mod Ending
pub mod Passes
pub mod Numbers
pub mod Chunks
pub mod Stages
pub mod Said
pub mod Loops
pub mod Recorded
use ibet_wallet_api.Base.{
  ℕ, zero, suc, ◌+◌, Bool, true, false, List, [], ◌∷◌, ◌++◌, map, Option, none, some, or_else,
  if◌then◌else◌, ltb, select, each, Run, returned, raised, out_of_fuel, ask, ◌>>=◌, for_each,
  first_where, update_first,
}
use ibet_wallet_api.Chain.{Address, zero_address, max_size, Log, Answer, events_of}
use ibet_wallet_api.Approval.Table.{BlockNumber, Db, is_target}
use ibet_wallet_api.Approval.Sink.{
  Library, apply_for, cancel, escrow_finish, approve, Event, sink_on_transfer_approval,
}
use ibet_wallet_api.Approval.Targets.{
  TargetToken, TargetExchange, has_token, move_token, move_exchange, get_oldest_cursor,
}

-- The arguments of the events of a token, `none` where a key is absent. Those of a cancellation that
-- the sink does not use are left out.
pub record ApplyArgs : Type 0 where
  pub index : Option ℕ
  pub from : Option Address
  pub to : Option Address
  pub value : Option ℕ
  pub data_ : Option ℕ

pub record CancelArgs : Type 0 where
  pub index : Option ℕ

pub record ApproveArgs : Type 0 where
  pub index : Option ℕ
  pub data_ : Option ℕ

-- The arguments of the events of an exchange; `index` is `escrowId`.
pub record ForToken (A : Type 0) : Type 0 where
  pub token : Option Address
  pub args : A

-- The calls of the node. `timestamp` is that of a block.
pub record Node : Type 0 where
  pub token_apply : Address → ℕ → ℕ → Answer ApplyArgs
  pub token_cancel : Address → ℕ → ℕ → Answer CancelArgs
  pub token_approve : Address → ℕ → ℕ → Answer ApproveArgs
  pub exchange_apply : Address → ℕ → ℕ → Answer (ForToken ApplyArgs)
  pub exchange_cancel : Address → ℕ → ℕ → Answer (ForToken CancelArgs)
  pub escrow_finished : Address → ℕ → ℕ → Answer (ForToken CancelArgs)
  pub exchange_approve : Address → ℕ → ℕ → Answer (ForToken ApproveArgs)
  pub timestamp : ℕ → Option ℕ

-- `token_list` and `exchange_list`
pub record Targets : Type 0 where
  pub token_list : List TargetToken
  pub exchange_list : List TargetExchange

-- `args.get("token", ZERO_ADDRESS) in token_address_list`
abbrev pub is_for_listed : {A : Type 0} → List TargetToken → Log (ForToken A) → Bool
is_for_listed ts e = has_token (or_else e.args.token zero_address) ts

module _ (lib : Library) where
  -- An event that is passed over, or a call of the sink.
  abbrev pub sink_optional : Option Event → Db → Run Db
  sink_optional none db = returned db
  sink_optional (some e) db = sink_on_transfer_approval lib e db

  -- The rest of the body of a loop over targets: `if block_from > block_to: continue`, and the loop
  -- over the events.
  unfoldable pub sync_source :
      {A : Type 0} → ℕ → ℕ → Run (List (Log A)) → (Log A → Run (Option Event)) → Db → Run Db
  sync_source block_to cursor logs event db =
      if ltb block_to cursor
      then returned db
      else (logs >>= λ es. for_each (λ e db. event e >>= λ o. sink_optional o db) es db)

  abbrev pub sync_tokens :
      {A : Type 0}
      → (Address → ℕ → ℕ → Answer A)
      → (Address → Log A → Run (Option Event))
      → List TargetToken
      → ℕ
      → Db
      → Run Db
  sync_tokens get_logs event ts block_to =
      for_each
        (λ t.
          sync_source block_to t.cursor (events_of (get_logs t.token_address t.cursor block_to))
            (event t.token_address))
        ts

  abbrev pub sync_exchanges :
      {A : Type 0}
      → (Address → ℕ → ℕ → Answer (ForToken A))
      → (Address → Log (ForToken A) → Run (Option Event))
      → Targets
      → ℕ
      → Db
      → Run Db
  sync_exchanges get_logs event targets block_to =
      for_each
        (λ x.
          sync_source block_to x.cursor
            (events_of (get_logs x.exchange_address x.cursor block_to) >>= λ es.
              returned (select (is_for_listed targets.token_list) es))
            (event x.exchange_address))
        targets.exchange_list

module _ (n : Node) where
  -- The bodies of the loops over events, up to the call of the sink.
  unfoldable pub token_apply_event : Address → Log ApplyArgs → Run (Option Event)
  token_apply_event token e =
      if ltb max_size (or_else e.args.value 0)
      then returned none
      else (ask (n.timestamp e.block_number) >>= λ timestamp. returned (
          some (record {
            key = record { token = token; exchange = none; application = e.args.index };
            change =
                apply_for (some (or_else e.args.from zero_address))
                  (some (or_else e.args.to zero_address)) (some (or_else e.args.value 0))
                  e.args.data_ (some timestamp);
          })))

  unfoldable pub token_cancel_event : Address → Log CancelArgs → Run (Option Event)
  token_cancel_event token e = returned (
      some (record {
        key = record { token = token; exchange = none; application = e.args.index };
        change = cancel;
      }))

  unfoldable pub token_approve_event : Address → Log ApproveArgs → Run (Option Event)
  token_approve_event token e = ask (n.timestamp e.block_number) >>= λ timestamp. returned (
      some (record {
        key = record { token = token; exchange = none; application = e.args.index };
        change = approve e.args.data_ (some timestamp);
      }))

  unfoldable pub exchange_apply_event : Address → Log (ForToken ApplyArgs) → Run (Option Event)
  exchange_apply_event exchange e =
      if ltb max_size (or_else e.args.args.value 0)
      then returned none
      else (ask (n.timestamp e.block_number) >>= λ timestamp. returned (
          some (record {
            key = record {
              token = or_else e.args.token zero_address;
              exchange = some exchange;
              application = e.args.args.index;
            };
            change =
                apply_for (some (or_else e.args.args.from zero_address))
                  (some (or_else e.args.args.to zero_address)) e.args.args.value e.args.args.data_
                  (some timestamp);
          })))

  unfoldable pub exchange_cancel_event : Address → Log (ForToken CancelArgs) → Run (Option Event)
  exchange_cancel_event exchange e = returned (
      some (record {
        key = record {
          token = or_else e.args.token zero_address;
          exchange = some exchange;
          application = e.args.args.index;
        };
        change = cancel;
      }))

  unfoldable pub escrow_finished_event : Address → Log (ForToken CancelArgs) → Run (Option Event)
  escrow_finished_event exchange e = returned (
      some (record {
        key = record {
          token = or_else e.args.token zero_address;
          exchange = some exchange;
          application = e.args.args.index;
        };
        change = escrow_finish;
      }))

  unfoldable pub exchange_approve_event : Address → Log (ForToken ApproveArgs) → Run (Option Event)
  exchange_approve_event exchange e = ask (n.timestamp e.block_number) >>= λ timestamp. returned (
      some (record {
        key = record {
          token = or_else e.args.token zero_address;
          exchange = some exchange;
          application = e.args.args.index;
        };
        change = approve e.args.args.data_ (some timestamp);
      }))

  -- The seven calls of `__sync_all`; its last line is `update_cursor`.
  unfoldable pub sync_events : Library → Targets → ℕ → Db → Run Db
  sync_events lib s block_to db = do
    db ← sync_tokens lib n.token_apply token_apply_event s.token_list block_to db
    db ← sync_tokens lib n.token_cancel token_cancel_event s.token_list block_to db
    db ← sync_tokens lib n.token_approve token_approve_event s.token_list block_to db
    db ← sync_exchanges lib n.exchange_apply exchange_apply_event s block_to db
    db ← sync_exchanges lib n.exchange_cancel exchange_cancel_event s block_to db
    db ← sync_exchanges lib n.escrow_finished escrow_finished_event s block_to db
    sync_exchanges lib n.exchange_approve exchange_approve_event s block_to db

-- `__update_cursor`
abbrev pub update_cursor : ℕ → Targets → Targets
update_cursor block_number s = record {
  token_list = map (move_token block_number) s.token_list;
  exchange_list = map (move_exchange block_number) s.exchange_list;
}

-- `while _to_block < latest_block: …` and the call after the loop.
unfoldable pub sync_chunks : Library → Node → ℕ → ℕ → ℕ → Targets → Db → Run Db
sync_chunks lib n zero latest_block to_block s db = out_of_fuel
sync_chunks lib n (suc fuel) latest_block to_block s db = elim (ltb to_block latest_block) [
  | true ↦ sync_events n lib s to_block db >>= λ db'.
      sync_chunks lib n fuel latest_block (to_block + 1000000) (update_cursor (to_block + 1) s) db'
  | false ↦ sync_events n lib s latest_block db
]

abbrev pub set_found : TargetToken → ℕ → Db → Option BlockNumber → Db
set_found t block_number db none = record db {
  block_number =
      db.block_number
      ++ (record {
        token_address = t.token_address;
        exchange_address = t.exchange_address;
        latest_block_number = block_number;
      }
          ∷ []);
}
set_found t block_number db (some _) = record db {
  block_number =
      update_first (is_target t.token_address t.exchange_address)
        (λ r. record r { latest_block_number = block_number }) db.block_number;
}

-- `__set_idx_transfer_approval_block_number`
unfoldable pub set_block_numbers : List TargetToken → ℕ → Db → Db
set_block_numbers ts block_number =
    each
      (λ t db.
        set_found t block_number db
          (first_where (is_target t.token_address t.exchange_address) db.block_number))
      ts

abbrev pub next_after : Option BlockNumber → ℕ
next_after none = 0
next_after (some r) = r.latest_block_number + 1

-- `__get_idx_transfer_approval_block_number(…) + 1`; the code's -1 for a missing row gives 0.
unfoldable pub next_block : Address → Address → Db → ℕ
next_block token exchange db = next_after (first_where (is_target token exchange) db.block_number)
