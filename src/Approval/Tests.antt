-- ===== src/Approval/Tests.antt =====
-- The transfer approval indexer on a small chain: a run of the batch, and instances of the theorems.
use ibet_wallet_api.Base.{
  ℕ, arith, ◌≡◌, refl, sym, true, false, List, [], ◌∷◌, ◌==◌, none, some, if◌then◌else◌, returned,
  raised, returned_inj, first_where, update_first, Ends,
}
use ibet_wallet_api.Chain.{
  Address, Log, found, abi_event_not_found, unavailable, events_of, in_range,
}
use ibet_wallet_api.Approval.Table.{TransferApproval, Db}
use ibet_wallet_api.Approval.Sink.{
  datetime, value_error, other_error, Library, apply_for, approve, Event, sink_on_transfer_approval,
}
use ibet_wallet_api.Approval.Sink.Machine.{AreRun, row_of}
use ibet_wallet_api.Approval.Sink.Refused.{refuses, sink_on_transfer_approval-refuses}
use ibet_wallet_api.Approval.Targets.{append_token, append_exchange, get_oldest_cursor}
use ibet_wallet_api.Approval.Sync.{
  Node, Targets, sync_source, token_apply_event, token_cancel_event, token_approve_event,
  exchange_apply_event, exchange_cancel_event, escrow_finished_event, exchange_approve_event,
  sync_events, sync_chunks, set_block_numbers, next_block,
}
use ibet_wallet_api.Approval.Sync.Said.{TokenHistory, IsTruthful}
use ibet_wallet_api.Approval.Sync.Stages.{TokenSaid}
use ibet_wallet_api.Approval.Sync.Passes.{read_all, sync_events-AreRun}
use ibet_wallet_api.Approval.Listing.Ending.{Ends-sync_to}
use ibet_wallet_api.Approval.Listing.{
  sync_to, ibet_share, ibet_coupon, Contracts, add_token, add_tokens, get_contract_list, Processor,
  failed, sync_new_logs, initial_sync,
}
use ibet_wallet_api.Approval.Listing.Indexed.{start, first, later, Reached-TokenSaid}
use ibet_wallet_api.Approval.Listing.Failing.{sync_new_logs-failed}
use ibet_wallet_api.Approval.Listing.Exchanges.{IsLonger, add_tokens-IsLonger}

-- The text 0 is no number, the text 1 an infinite one.
abbrev lib : Library
lib = record {
  from_timestamp =
      λ text. if text == 0 then value_error else if text == 1 then other_error else datetime text;
  merges_none = false;
}

abbrev log : {A : Type 0} → ℕ → A → Log A
log block args = record { block_number = block; log_index = 0; args = args }

abbrev history : Address → TokenHistory
history token = record {
  apply =
      log 3
        (record { index = some 1; from = some 7; to = some 8; value = some 10; data_ = some 50 })
      ∷ log 4
          (record { index = some 2; from = some 7; to = some 8; value = some 20; data_ = some 0 })
      ∷ [];
  cancel = log 6 (record { index = some 2 }) ∷ [];
  approve = log 5 (record { index = some 1; data_ = some 60 }) ∷ [];
}

-- Application 1 is approved, application 2 is cancelled. Application 3 of exchange 600 is for token
-- 501, which is not listed.
abbrev node : Node
node = record {
  token_apply = λ t a b. found (in_range a b (history t).apply);
  token_cancel = λ t a b. found (in_range a b (history t).cancel);
  token_approve = λ t a b. found (in_range a b (history t).approve);
  exchange_apply = λ x a b. found (
      in_range a b (
        log 4 (record {
          token = some 501;
          args = record {
            index = some 3;
            from = some 7;
            to = some 8;
            value = some 5;
            data_ = none;
          };
        })
        ∷ []));
  exchange_cancel = λ x a b. abi_event_not_found;
  escrow_finished = λ x a b. found [];
  exchange_approve = λ x a b. found [];
  timestamp = λ block. some block;
}

abbrev failing : Node
failing = record node { escrow_finished = λ x a b. unavailable }

-- Token 400 is unknown to the list, token 502 is a coupon.
abbrev contracts : Contracts
contracts = record {
  get_token_by_address = λ t.
      if t == 400
      then some none
      else if t == 502
      then some (some ibet_coupon)
      else some (some ibet_share);
  tradable_exchange = λ t. some 600;
  block_number = some 10;
}

abbrev empty : Processor
empty = record {
  caches = record { token_type = λ t. none; tradable_exchange = λ t. none };
  db = record { transfer_approval = []; block_number = [] };
}

abbrev approved_row : TransferApproval
approved_row = record {
  token_address = 500;
  exchange_address = none;
  application_id = some 1;
  from_address = some 7;
  to_address = some 8;
  value = some 10;
  application_datetime = some 50;
  application_blocktimestamp = some 3;
  approval_datetime = some 60;
  approval_blocktimestamp = some 5;
  cancelled = none;
  escrow_finished = none;
  transfer_approved = some true;
}

abbrev cancelled_row : TransferApproval
cancelled_row = record {
  token_address = 500;
  exchange_address = none;
  application_id = some 2;
  from_address = some 7;
  to_address = some 8;
  value = some 20;
  application_datetime = none;
  application_blocktimestamp = some 4;
  approval_datetime = none;
  approval_blocktimestamp = none;
  cancelled = some true;
  escrow_finished = none;
  transfer_approved = none;
}

abbrev indexed : Db
indexed = record {
  transfer_approval = approved_row ∷ cancelled_row ∷ [];
  block_number =
      record { token_address = 500; exchange_address = 600; latest_block_number = 10 } ∷ [];
}

abbrev targets : Targets
targets = record {
  token_list =
      record { token_address = 500; exchange_address = 600; start_block_number = 0; cursor = 0 }
      ∷ [];
  exchange_list = record { exchange_address = 600; start_block_number = 0; cursor = 0 } ∷ [];
}

pass : sync_events node lib targets 10 empty.db ≡ returned (record indexed { block_number = [] })
unfolding sync_events sync_source token_apply_event token_cancel_event token_approve_event
    exchange_apply_event exchange_cancel_event escrow_finished_event exchange_approve_event
    sink_on_transfer_approval first_where update_first events_of
pass = refl

-- The first run, and a second one at which the node fails.
runs :
    (sync_new_logs lib failing true contracts
      (502 ∷ 500 ∷ [])
      (initial_sync lib node true contracts (502 ∷ 500 ∷ []) empty).0).0.db
    ≡ indexed
unfolding initial_sync sync_new_logs get_contract_list add_tokens add_token append_token
    append_exchange get_oldest_cursor next_block set_block_numbers sync_chunks sync_events
    sync_source token_apply_event token_cancel_event token_approve_event exchange_apply_event
    exchange_cancel_event escrow_finished_event exchange_approve_event sink_on_transfer_approval
    first_where update_first events_of
runs = refl

abbrev after_two : Processor
after_two =
    (sync_new_logs lib failing true contracts (502 ∷ 500 ∷ [])
      (initial_sync lib node true contracts (502 ∷ 500 ∷ []) empty).0).0

answered :
    {A : Type 0} (a b : ℕ) (all es : List (Log A))
    → events_of (found (in_range a b all)) ≡ returned es
    → es ≡ in_range a b all
unfolding events_of
answered a b all es h = sym (returned_inj h)

node-IsTruthful : IsTruthful history node
node-IsTruthful = record {
  apply = λ t a b es h. answered a b (history t).apply es h;
  cancel = λ t a b es h. answered a b (history t).cancel es h;
  approve = λ t a b es h. answered a b (history t).approve es h;
}

failing-IsTruthful : IsTruthful history failing
failing-IsTruthful = record {
  apply = λ t a b es h. answered a b (history t).apply es h;
  cancel = λ t a b es h. answered a b (history t).cancel es h;
  approve = λ t a b es h. answered a b (history t).approve es h;
}

up_to_ten : next_block 500 600 after_two.db ≡ 11
unfolding next_block initial_sync sync_new_logs get_contract_list add_tokens add_token append_token
    append_exchange get_oldest_cursor set_block_numbers sync_chunks sync_events sync_source
    token_apply_event token_cancel_event token_approve_event exchange_apply_event
    exchange_cancel_event escrow_finished_event exchange_approve_event sink_on_transfer_approval
    first_where update_first events_of
up_to_ten = refl

Reached-TokenSaid_example : TokenSaid history 500 0 10 after_two.db
Reached-TokenSaid_example =
    Reached-TokenSaid history lib after_two 500 600 10 refl
      (later failing true contracts (502 ∷ 500 ∷ [])
        (initial_sync lib node true contracts (502 ∷ 500 ∷ []) empty).0 failing-IsTruthful
        (first node true contracts (502 ∷ 500 ∷ []) empty node-IsTruthful (start empty refl)))
      (rw up_to_ten (omega arith))

sync_events-AreRun_example :
    (es : List Event) × (read_all node targets 10 ≡ returned es)
    × AreRun lib es empty.db (record indexed { block_number = [] })
sync_events-AreRun_example =
    sync_events-AreRun lib node targets 10 empty.db (record indexed { block_number = [] }) pass

Ends-sync_to_example : Ends (sync_to lib failing targets indexed (some 3000000))
Ends-sync_to_example = Ends-sync_to lib failing targets indexed (some 3000000)

-- An approval of an application that has no row, and one whose time is an infinite number.
abbrev unknown_approval : Event
unknown_approval = record {
  key = record { token = 500; exchange = none; application = some 9 };
  change = approve (some 60) (some 7);
}

unknown_approval_raises : sink_on_transfer_approval lib unknown_approval indexed ≡ raised
unfolding sink_on_transfer_approval first_where
unknown_approval_raises = refl

infinite_time_raises :
    sink_on_transfer_approval lib
      (record {
        key = record { token = 500; exchange = none; application = some 9 };
        change = apply_for (some 7) (some 8) (some 5) (some 1) (some 7);
      })
      indexed
    ≡ raised
unfolding sink_on_transfer_approval first_where
infinite_time_raises = refl

sink_on_transfer_approval-refuses_example :
    (refuses lib unknown_approval.change (row_of unknown_approval.key indexed) ≡ true
      → sink_on_transfer_approval lib unknown_approval indexed ≡ raised)
    × (refuses lib unknown_approval.change (row_of unknown_approval.key indexed) ≡ false
        → (db : Db) × (sink_on_transfer_approval lib unknown_approval indexed ≡ returned db))
sink_on_transfer_approval-refuses_example =
    sink_on_transfer_approval-refuses lib unknown_approval indexed

sync_new_logs-failed_example :
    ((sync_new_logs lib node true contracts (502 ∷ 400 ∷ 500 ∷ []) empty).1 ≡ failed)
    × ((sync_new_logs lib node true contracts (502 ∷ 400 ∷ 500 ∷ []) empty).0.db ≡ empty.db)
    × ((sync_new_logs lib node true contracts (502 ∷ 400 ∷ 500 ∷ []) empty).0.caches.token_type 400
        ≡ none)
sync_new_logs-failed_example =
    sync_new_logs-failed lib node contracts 400 (502 ∷ []) (500 ∷ []) empty refl refl

-- Token 500 is recorded up to block 10, token 501 is new: the exchange of both starts at block 11.
late_start :
    (add_tokens contracts indexed
      (500 ∷ 501 ∷ [])
      empty.caches
      (record { token_list = []; exchange_list = [] })).1
    ≡ returned (record {
      token_list =
          record {
            token_address = 500;
            exchange_address = 600;
            start_block_number = 11;
            cursor = 11;
          }
          ∷ record {
            token_address = 501;
            exchange_address = 600;
            start_block_number = 0;
            cursor = 0;
          }
          ∷ [];
      exchange_list = record { exchange_address = 600; start_block_number = 11; cursor = 11 } ∷ [];
    })
unfolding add_tokens add_token append_token append_exchange next_block first_where
late_start = refl

add_tokens-IsLonger_example :
    IsLonger targets.exchange_list (add_tokens contracts indexed (501 ∷ []) empty.caches targets)
add_tokens-IsLonger_example = add_tokens-IsLonger contracts indexed (501 ∷ []) empty.caches targets
