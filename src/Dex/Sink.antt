-- ===== src/Dex/Sink.antt =====
-- The `__sink_on_…` methods of batch/indexer_DEX.py: one event applied to the tables.
use ibet_wallet_api.Base.{ℕ, true, [], ◌∷◌, ◌++◌, Option, none, some}
use ibet_wallet_api.Chain.{Address}
use ibet_wallet_api.Dex.Table.{
  Order, Agreement, done, canceled, Db, is_order, is_agreement, get_order, get_agreement,
}
use ibet_wallet_api.Base.{update_first}

abbrev pub add_order : Option Order → Order → Db → Db
add_order none order db = record db { order = db.order ++ (order ∷ []) }
add_order (some _) order db = db

-- `__sink_on_new_order`: the order is added unless there is one of this exchange and id.
unfoldable pub sink_on_new_order : Order → Db → Db
sink_on_new_order order db = add_order (get_order order.exchange_address order.order_id db) order db

abbrev pub cancelled : Order → Order
cancelled o = record o { is_cancelled = true }

-- `__sink_on_cancel_order` and `__sink_on_force_cancel_order`
unfoldable pub sink_on_cancel_order : Address × ℕ → Db → Db
sink_on_cancel_order (exchange, order_id) db = record db {
  order = update_first (is_order exchange order_id) cancelled db.order;
}

abbrev pub add_agreement : Option Agreement → Agreement → Db → Db
add_agreement none agreement db = record db { agreement = db.agreement ++ (agreement ∷ []) }
add_agreement (some _) agreement db = db

-- `__sink_on_agree`
unfoldable pub sink_on_agree : Agreement → Db → Db
sink_on_agree agreement db =
    add_agreement
      (get_agreement agreement.exchange_address agreement.order_id agreement.agreement_id db)
      agreement db

-- A settlement event: the keys of its agreement, and the time of a SettlementOK.
pub data Settlement : Type 0 where
  settlement_ok : Address → ℕ → ℕ → ℕ → Settlement
  settlement_ng : Address → ℕ → ℕ → Settlement

abbrev pub settled : Settlement → Agreement → Agreement
settled (settlement_ok exchange order_id agreement_id timestamp) a = record a {
  status = done;
  settlement_timestamp = some timestamp;
}
settled (settlement_ng exchange order_id agreement_id) a = record a { status = canceled }

-- `__sink_on_settlement_ok` and `__sink_on_settlement_ng`
unfoldable pub sink_on_settlement : Settlement → Db → Db
sink_on_settlement (settlement_ok exchange order_id agreement_id timestamp) db = record db {
  agreement =
      update_first (is_agreement exchange order_id agreement_id)
        (settled (settlement_ok exchange order_id agreement_id timestamp)) db.agreement;
}
sink_on_settlement (settlement_ng exchange order_id agreement_id) db = record db {
  agreement =
      update_first (is_agreement exchange order_id agreement_id)
        (settled (settlement_ng exchange order_id agreement_id)) db.agreement;
}
