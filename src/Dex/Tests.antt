-- ===== src/Dex/Tests.antt =====
-- The exchange indexer on a small chain: a run of the batch, and instances of the theorems.
use ibet_wallet_api.Base.{
  ℕ, ◌≡◌, Bool, ◌&&◌, ◌||◌, leb, arith, refl, true, false, [], ◌∷◌, ◌==◌, some, returned,
  returned_inj, sym, suc, List,
}
use ibet_wallet_api.Chain.{
  Address, Log, found, abi_event_not_found, unavailable, events_of, in_range,
}
use ibet_wallet_api.Dex.Table.{Order, Agreement, Db, done}
use ibet_wallet_api.Base.{update_first, first_where}
use ibet_wallet_api.Dex.Sink.{
  sink_on_new_order, sink_on_cancel_order, sink_on_agree, sink_on_settlement,
}
use ibet_wallet_api.Dex.Sync.{
  NewOrderArgs, Processor, Node, new_order_step, cancel_step, agree_step, settlement_ok_step,
  settlement_ng_step, sync_events, sync_all, sync_chunks, initial_sync, sync_new_logs,
}
use ibet_wallet_api.Dex.Sync.Covered.{IsTruthful, HasListing, IsIndexed}
use ibet_wallet_api.Dex.Sync.Ending.{Ends-sync_chunks}
use ibet_wallet_api.Base.{Ends}
use ibet_wallet_api.Dex.Sync.Reached.{initial, new_logs, Reached-IsIndexed}
use ibet_wallet_api.Dex.Sync.Twice.{sync_all_twice}

abbrev exchange : Address
exchange = 600

abbrev log : {A : Type 0} → ℕ → A → Log A
log block args = record { block_number = block; log_index = 0; args = args }

abbrev new_orders : List (Log NewOrderArgs)
new_orders =
    log 3 (record {
      transaction_hash = 31;
      token_address = 500;
      order_id = 1;
      account_address = 7;
      is_buy = false;
      price = 100;
      amount = 10;
      agent_address = 9;
    })
    ∷ log 3 (record {
      transaction_hash = 32;
      token_address = 501;
      order_id = 2;
      account_address = 7;
      is_buy = false;
      price = 100;
      amount = 10;
      agent_address = 9;
    })
    ∷ []

-- In block 3 account 7 offers 10 of token 500 and then, with order 2, token 501, which is not
-- listed. In block 4 account 8 agrees to buy 4, in block 5 this is settled, in block 6 the rest is
-- cancelled.
abbrev node : Node
node = record {
  new_order = λ e a b. found (in_range a b new_orders);
  cancel_order = λ e a b. found (in_range a b (log 6 (record { order_id = 1 }) ∷ []));
  force_cancel_order = λ e a b. abi_event_not_found;
  agree = λ e a b. found (
      in_range a b (
        log 4 (record {
          transaction_hash = 41;
          order_id = 1;
          agreement_id = 1;
          buy_address = 8;
          sell_address = 7;
          amount = 4;
        })
        ∷ []));
  settlement_ok =
      λ e a b. found (in_range a b (log 5 (record { order_id = 1; agreement_id = 1 }) ∷ []));
  settlement_ng = λ e a b. found [];
  timestamp = λ block. some block;
  order_is_buy = λ e id. some (some false);
  is_listed = λ token. token == 500;
}

abbrev empty : Db
empty = record { order = []; agreement = [] }

abbrev order : Order
order = record {
  transaction_hash = 31;
  token_address = 500;
  exchange_address = exchange;
  order_id = 1;
  account_address = 7;
  is_buy = false;
  price = 100;
  amount = 10;
  agent_address = 9;
  is_cancelled = true;
  order_timestamp = 3;
}

abbrev agreement : Agreement
agreement = record {
  transaction_hash = 41;
  exchange_address = exchange;
  order_id = 1;
  agreement_id = 1;
  buyer_address = 8;
  seller_address = 7;
  counterpart_address = 8;
  amount = 4;
  status = done;
  agreement_timestamp = 4;
  settlement_timestamp = some 5;
}

abbrev indexed : Db
indexed = record { order = order ∷ []; agreement = agreement ∷ [] }

sync_run : sync_all node (exchange ∷ []) 0 10 empty ≡ returned indexed
unfolding sync_all sync_events new_order_step cancel_step agree_step settlement_ok_step
    settlement_ng_step sink_on_new_order sink_on_cancel_order sink_on_agree sink_on_settlement
    update_first first_where events_of
sync_run = refl

-- The first sync, and a second one to a later block at which the node fails.
runs :
    sync_new_logs
      (record node { agree = λ e a b. unavailable })
      (exchange ∷ [])
      (some 20)
      (initial_sync node (exchange ∷ []) (some 10) (record { latest_block = 0; db = empty }))
    ≡ record { latest_block = 10; db = indexed }
unfolding sync_new_logs initial_sync sync_chunks sync_all sync_events new_order_step cancel_step
    agree_step settlement_ok_step settlement_ng_step sink_on_new_order sink_on_cancel_order
    sink_on_agree sink_on_settlement update_first first_where events_of
runs = refl

sync_all_twice_example : sync_all node (exchange ∷ []) 0 10 indexed ≡ returned indexed
sync_all_twice_example = sync_all_twice node (exchange ∷ []) 0 10 empty indexed sync_run

abbrev failing : Node
failing = record node { agree = λ e a b. unavailable }

-- Both nodes answer with `new_orders` for every exchange.
new_orders-truthful :
    (a b : ℕ) (es : List (Log NewOrderArgs))
    → events_of (found (in_range a b new_orders)) ≡ returned es
    → es ≡ in_range a b new_orders
unfolding events_of
new_orders-truthful a b es h = sym (returned_inj h)

-- Token 500 is listed from the first sync on, token 501 only in the second run.
abbrev listed_at : ℕ → Address → Bool
listed_at block token = token == 500 || (leb 11 block && token == 501)

node-IsTruthful : IsTruthful (exchange ∷ []) listed_at (λ e. new_orders) node
node-IsTruthful = record { new_order = λ e a b. new_orders-truthful a b }

node-HasListing : HasListing (exchange ∷ []) listed_at (λ e. new_orders) node 0 10
node-HasListing block token low high listed = ground (arith, high, listed)

abbrev start : Processor
start = record { latest_block = 0; db = empty }

-- The node of the second run answers everything, and token 501 is listed.
abbrev wider : Node
wider = record node { is_listed = λ token. token == 500 || token == 501 }

wider-IsTruthful : IsTruthful (exchange ∷ []) listed_at (λ e. new_orders) wider
wider-IsTruthful = record { new_order = λ e a b. new_orders-truthful a b }

wider-HasListing : (b : ℕ) → HasListing (exchange ∷ []) listed_at (λ e. new_orders) wider 11 b
wider-HasListing b block token low high listed = ground (arith, low, listed)

abbrev after_two : Processor
after_two =
    sync_new_logs wider (exchange ∷ []) (some 20)
      (initial_sync node (exchange ∷ []) (some 10) start)

chunks_run : sync_chunks node 11 (exchange ∷ []) 10 0 999999 empty ≡ returned indexed
unfolding sync_chunks sync_all sync_events new_order_step cancel_step agree_step settlement_ok_step
    settlement_ng_step sink_on_new_order sink_on_cancel_order sink_on_agree sink_on_settlement
    update_first first_where events_of
chunks_run = refl

Reached-IsIndexed_example :
    IsIndexed (exchange ∷ []) listed_at (λ e. new_orders) (suc after_two.latest_block) after_two.db
unfolding sync_new_logs initial_sync sync_chunks sync_all sync_events new_order_step cancel_step
    agree_step settlement_ok_step settlement_ng_step sink_on_new_order sink_on_cancel_order
    sink_on_agree sink_on_settlement update_first first_where events_of
Reached-IsIndexed_example =
    Reached-IsIndexed (exchange ∷ []) listed_at (λ e. new_orders) after_two
      (new_logs wider (some 20) (initial_sync node (exchange ∷ []) (some 10) start) wider-IsTruthful
        (wider-HasListing _)
        (initial node 10 start indexed node-IsTruthful node-HasListing chunks_run))

Ends-sync_chunks_example : Ends (sync_chunks failing 3000001 (exchange ∷ []) 3000000 0 999999 empty)
Ends-sync_chunks_example = Ends-sync_chunks failing (exchange ∷ []) 3000000 empty
