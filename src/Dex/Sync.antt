-- ===== src/Dex/Sync.antt =====
-- The `__sync_…` methods of batch/indexer_DEX.py, `initial_sync` and `sync_new_logs`. A session
-- commits at its end only: an exception rolls back what it wrote and restores `latest_block`.
pub mod Batch
pub mod Fetch
pub mod Tables
pub mod Twice
pub mod Covered
pub mod Indexed
pub mod Ending
pub mod Reached
use ibet_wallet_api.Base.{
  ℕ, zero, suc, ◌+◌, Bool, true, false, ◌||◌, List, Option, none, some, if◌then◌else◌, ltb, ◌==◌,
  Run, returned, raised, out_of_fuel, ask, ◌>>=◌, for_each,
}
use ibet_wallet_api.Chain.{Address, max_size, Log, Answer, events_of}
use ibet_wallet_api.Dex.Table.{Order, Agreement, pending, Db}
use ibet_wallet_api.Dex.Sink.{
  sink_on_new_order, sink_on_cancel_order, sink_on_agree, Settlement, settlement_ok, settlement_ng,
  sink_on_settlement,
}

-- The arguments of the events, with the hash of the transaction where it is stored.
pub record NewOrderArgs : Type 0 where
  pub transaction_hash : ℕ
  pub token_address : Address
  pub order_id : ℕ
  pub account_address : Address
  pub is_buy : Bool
  pub price : ℕ
  pub amount : ℕ
  pub agent_address : Address

-- `CancelOrder` and `ForceCancelOrder`
pub record CancelArgs : Type 0 where
  pub order_id : ℕ

pub record AgreeArgs : Type 0 where
  pub transaction_hash : ℕ
  pub order_id : ℕ
  pub agreement_id : ℕ
  pub buy_address : Address
  pub sell_address : Address
  pub amount : ℕ

-- `SettlementOK` and `SettlementNG`
pub record SettlementArgs : Type 0 where
  pub order_id : ℕ
  pub agreement_id : ℕ

-- The calls of the node, and the table `listing`. `timestamp` is that of a block. `order_is_buy` is
-- field 4 of the contract's `getOrder`; the inner `none` is the answer `None`.
pub record Node : Type 0 where
  pub new_order : Address → ℕ → ℕ → Answer NewOrderArgs
  pub cancel_order : Address → ℕ → ℕ → Answer CancelArgs
  pub force_cancel_order : Address → ℕ → ℕ → Answer CancelArgs
  pub agree : Address → ℕ → ℕ → Answer AgreeArgs
  pub settlement_ok : Address → ℕ → ℕ → Answer SettlementArgs
  pub settlement_ng : Address → ℕ → ℕ → Answer SettlementArgs
  pub timestamp : ℕ → Option ℕ
  pub order_is_buy : Address → ℕ → Option (Option Bool)
  pub is_listed : Address → Bool

abbrev pub is_oversized : NewOrderArgs → Bool
is_oversized args = ltb max_size args.price || ltb max_size args.amount

-- The order that `__sink_on_new_order` builds.
abbrev pub order_of : Address → NewOrderArgs → ℕ → Order
order_of exchange args timestamp = record {
  transaction_hash = args.transaction_hash;
  token_address = args.token_address;
  exchange_address = exchange;
  order_id = args.order_id;
  account_address = args.account_address;
  is_buy = args.is_buy;
  price = args.price;
  amount = args.amount;
  agent_address = args.agent_address;
  is_cancelled = false;
  order_timestamp = timestamp;
}

abbrev pub agreement_of : Address → AgreeArgs → Bool → ℕ → Agreement
agreement_of exchange args is_buy timestamp = record {
  transaction_hash = args.transaction_hash;
  exchange_address = exchange;
  order_id = args.order_id;
  agreement_id = args.agreement_id;
  buyer_address = args.buy_address;
  seller_address = args.sell_address;
  counterpart_address = if is_buy then args.sell_address else args.buy_address;
  amount = args.amount;
  status = pending;
  agreement_timestamp = timestamp;
  settlement_timestamp = none;
}

module _ (n : Node) where
  -- The body of the loop of `__sync_new_order`: the block is read before the listing is tested.
  unfoldable pub new_order_step : Address → Log NewOrderArgs → Db → Run Db
  new_order_step exchange e db =
      if is_oversized e.args
      then returned db
      else (ask (n.timestamp e.block_number) >>= λ timestamp. returned (
          if n.is_listed e.args.token_address
          then sink_on_new_order (order_of exchange e.args timestamp) db
          else db))

  unfoldable pub cancel_step : Address → Log CancelArgs → Db → Run Db
  cancel_step exchange e db = returned (sink_on_cancel_order (exchange, e.args.order_id) db)

  abbrev pub agree_with : Address → Log AgreeArgs → Db → Option Bool → Run Db
  agree_with exchange e db none = returned db
  agree_with exchange e db (some is_buy) = ask (n.timestamp e.block_number) >>= λ timestamp.
      returned (sink_on_agree (agreement_of exchange e.args is_buy timestamp) db)

  -- The body of the loop of `__sync_agree`.
  unfoldable pub agree_step : Address → Log AgreeArgs → Db → Run Db
  agree_step exchange e db =
      if ltb max_size e.args.amount
      then returned db
      else (ask (n.order_is_buy exchange e.args.order_id) >>= agree_with exchange e db)

  unfoldable pub settlement_ok_step : Address → Log SettlementArgs → Db → Run Db
  settlement_ok_step exchange e db = ask (n.timestamp e.block_number) >>= λ timestamp. returned (
      sink_on_settlement
        (Settlement.settlement_ok exchange e.args.order_id e.args.agreement_id timestamp) db)

  unfoldable pub settlement_ng_step : Address → Log SettlementArgs → Db → Run Db
  settlement_ng_step exchange e db = returned (
      sink_on_settlement (Settlement.settlement_ng exchange e.args.order_id e.args.agreement_id) db)

  -- `for exchange_contract in self.exchange_list: events = get_logs(…); for event in events: …`
  unfoldable pub sync_events :
      {A : Type 0}
      → (Address → ℕ → ℕ → Answer A)
      → (Address → Log A → Db → Run Db)
      → List Address
      → ℕ
      → ℕ
      → Db
      → Run Db
  sync_events get_logs step exchange_list block_from block_to =
      for_each
        (λ exchange db. events_of (get_logs exchange block_from block_to) >>= λ events.
          for_each (step exchange) events db)
        exchange_list

  -- `__sync_all`
  unfoldable pub sync_all : List Address → ℕ → ℕ → Db → Run Db
  sync_all exchange_list block_from block_to db = do
    db ← sync_events n.new_order new_order_step exchange_list block_from block_to db
    db ← sync_events n.cancel_order cancel_step exchange_list block_from block_to db
    db ← sync_events n.force_cancel_order cancel_step exchange_list block_from block_to db
    db ← sync_events n.agree agree_step exchange_list block_from block_to db
    db ← sync_events n.settlement_ok settlement_ok_step exchange_list block_from block_to db
    sync_events n.settlement_ng settlement_ng_step exchange_list block_from block_to db

  -- `while _to_block < self.latest_block: …` and the call after the loop.
  unfoldable pub sync_chunks : ℕ → List Address → ℕ → ℕ → ℕ → Db → Run Db
  sync_chunks zero exchange_list latest_block from_block to_block db = out_of_fuel
  sync_chunks (suc fuel) exchange_list latest_block from_block to_block db =
      elim (ltb to_block latest_block) [
        | true ↦ sync_all exchange_list from_block to_block db >>= λ db'.
            sync_chunks fuel exchange_list latest_block (from_block + 1000000) (to_block + 1000000)
              db'
        | false ↦ sync_all exchange_list from_block latest_block db
      ]

-- `Processor`, with the tables that its sessions commit to.
pub record Processor : Type 0 where
  pub latest_block : ℕ
  pub db : Db

-- After an exception the session is rolled back, and `latest_block` is what it was.
abbrev pub commit : Processor → ℕ → Run Db → Processor
commit p latest_block (returned db) = record { latest_block = latest_block; db = db }
commit p latest_block raised = p
commit p latest_block out_of_fuel = p

-- `initial_sync`; the argument is the answer to `eth.block_number`. The test before the loop is the
-- test of the loop.
abbrev pub initial_sync_to : Node → List Address → Processor → Option ℕ → Processor
initial_sync_to n exchange_list p none = p
initial_sync_to n exchange_list p (some latest) =
    commit p latest (sync_chunks n (suc latest) exchange_list latest 0 999999 p.db)

unfoldable pub initial_sync : Node → List Address → Option ℕ → Processor → Processor
initial_sync n exchange_list answer p = initial_sync_to n exchange_list p answer

abbrev pub sync_new_logs_to : Node → List Address → Processor → Option ℕ → Processor
sync_new_logs_to n exchange_list p none = p
sync_new_logs_to n exchange_list p (some block_to) =
    if block_to == p.latest_block
    then p
    else commit p block_to (sync_all n exchange_list (p.latest_block + 1) block_to p.db)

-- `sync_new_logs`
unfoldable pub sync_new_logs : Node → List Address → Option ℕ → Processor → Processor
sync_new_logs n exchange_list answer p = sync_new_logs_to n exchange_list p answer
