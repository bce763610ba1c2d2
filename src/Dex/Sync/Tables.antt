-- ===== src/Dex/Sync/Tables.antt =====
-- A batch of operations on the tables of batch/indexer_DEX.py, each table on its own.
use ibet_wallet_api.Base.{ℕ, ◌≡◌, refl, ap, ◌∙◌, Bool, List, [], ◌∷◌, Option, none, some, each}
use ibet_wallet_api.Chain.{Address}
use ibet_wallet_api.Dex.Table.{Order, Agreement, Db, is_order, is_agreement}
use ibet_wallet_api.Base.{update_first, first_where}
use ibet_wallet_api.Dex.Table.Rows.{add_row, add_found, updates}
use ibet_wallet_api.Dex.Sink.{
  add_order, add_agreement, sink_on_new_order, sink_on_cancel_order, sink_on_agree, Settlement,
  settlement_ok, settlement_ng, settled, sink_on_settlement, cancelled,
}
use ibet_wallet_api.Dex.Sync.Fetch.{Batch, apply_batch}

abbrev pub same_order : Order → Order → Bool
same_order o = is_order o.exchange_address o.order_id

abbrev pub same_agreement : Agreement → Agreement → Bool
same_agreement a = is_agreement a.exchange_address a.order_id a.agreement_id

abbrev pub cancel_key : Address × ℕ → Order → Bool
cancel_key (exchange, order_id) = is_order exchange order_id

abbrev pub cancel_set : Address × ℕ → Order → Order
cancel_set c = cancelled

abbrev pub settlement_key : Settlement → Agreement → Bool
settlement_key (settlement_ok exchange order_id agreement_id timestamp) =
    is_agreement exchange order_id agreement_id
settlement_key (settlement_ng exchange order_id agreement_id) =
    is_agreement exchange order_id agreement_id

pub cancel_keeps :
    (o o' : Address × ℕ) (x : Order) → cancel_key o (cancel_set o' x) ≡ cancel_key o x
cancel_keeps (e, i) o' x = refl

pub settlement_keeps :
    (o o' : Settlement) (x : Agreement) → settlement_key o (settled o' x) ≡ settlement_key o x
settlement_keeps (settlement_ok e i a t) (settlement_ok e' i' a' t') x = refl
settlement_keeps (settlement_ok e i a t) (settlement_ng e' i' a') x = refl
settlement_keeps (settlement_ng e i a) (settlement_ok e' i' a' t') x = refl
settlement_keeps (settlement_ng e i a) (settlement_ng e' i' a') x = refl

-- The tables after a batch, each on its own.
abbrev pub orders_after : Batch → List Order → List Order
orders_after x os =
    updates cancel_key cancel_set cancel_keeps x.cancels (each (add_row same_order) x.new_orders os)

abbrev pub agreements_after : Batch → List Agreement → List Agreement
agreements_after x gs =
    updates settlement_key settled settlement_keeps x.settlements
      (each (add_row same_agreement) x.agreements gs)

add_order_lem :
    (r : Option Order) (o : Order) (db : Db)
    → add_order r o db ≡ record db { order = add_found same_order r o db.order }
add_order_lem none o db = refl
add_order_lem (some _) o db = refl

new_orders_lem :
    (os : List Order) (db : Db)
    → each sink_on_new_order os db ≡ record db { order = each (add_row same_order) os db.order }
unfolding sink_on_new_order
new_orders_lem [] db = refl
new_orders_lem (o ∷ os) db =
    ap (each sink_on_new_order os) (add_order_lem (first_where (same_order o) db.order) o db)
    ∙ new_orders_lem os (record db { order = add_row same_order o db.order })

cancels_lem :
    (cs : List (Address × ℕ)) (db : Db)
    → each sink_on_cancel_order cs db
      ≡ record db { order = updates cancel_key cancel_set cancel_keeps cs db.order }
unfolding sink_on_cancel_order
cancels_lem [] db = refl
cancels_lem ((e, i) ∷ cs) db =
    cancels_lem cs (record db { order = update_first (is_order e i) cancelled db.order })

add_agreement_lem :
    (r : Option Agreement) (o : Agreement) (db : Db)
    → add_agreement r o db ≡ record db { agreement = add_found same_agreement r o db.agreement }
add_agreement_lem none o db = refl
add_agreement_lem (some _) o db = refl

agreements_lem :
    (os : List Agreement) (db : Db)
    → each sink_on_agree os db
      ≡ record db { agreement = each (add_row same_agreement) os db.agreement }
unfolding sink_on_agree
agreements_lem [] db = refl
agreements_lem (o ∷ os) db =
    ap (each sink_on_agree os)
      (add_agreement_lem (first_where (same_agreement o) db.agreement) o db)
    ∙ agreements_lem os (record db { agreement = add_row same_agreement o db.agreement })

settlements_lem :
    (ss : List Settlement) (db : Db)
    → each sink_on_settlement ss db
      ≡ record db { agreement = updates settlement_key settled settlement_keeps ss db.agreement }
unfolding sink_on_settlement
settlements_lem [] db = refl
settlements_lem (settlement_ok e i a t ∷ ss) db = settlements_lem ss (record db {
  agreement = update_first (is_agreement e i a) (settled (settlement_ok e i a t)) db.agreement;
})
settlements_lem (settlement_ng e i a ∷ ss) db = settlements_lem ss (record db {
  agreement = update_first (is_agreement e i a) (settled (settlement_ng e i a)) db.agreement;
})

pub apply_batch_lem :
    (x : Batch) (db : Db)
    → apply_batch x db
      ≡ record { order = orders_after x db.order; agreement = agreements_after x db.agreement }
apply_batch_lem x db = rw (
  new_orders_lem x.new_orders db,
  cancels_lem x.cancels _,
  agreements_lem x.agreements _,
  settlements_lem x.settlements _,
)
