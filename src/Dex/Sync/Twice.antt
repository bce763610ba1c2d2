-- ===== src/Dex/Sync/Twice.antt =====
-- Reading a range of blocks twice, as every restart of batch/indexer_DEX.py does with all blocks.
use ibet_wallet_api.Base.{
  ℕ, ◌≡◌, refl, sym, ap, ◌∙◌, Bool, true, List, [], ◌∷◌, Option, some, Run, returned, raised,
  out_of_fuel, ◌>>=◌, each, All, arith, returned_inj,
}
use mathlib.Core.Path.{subst}
use ibet_wallet_api.Chain.{Address}
use ibet_wallet_api.Dex.Table.{Order, Agreement, AgreementStatus, done, canceled, Db}
use ibet_wallet_api.Dex.Table.Rows.{
  add_row, exists_where, All-each, each-add_row, updates, updates_twice, exists_where-updates,
}
use ibet_wallet_api.Dex.Sink.{Settlement, settlement_ok, settlement_ng, settled, cancelled}
use ibet_wallet_api.Dex.Sync.{Node, sync_all}
use ibet_wallet_api.Dex.Sync.Fetch.{Batch, apply_batch, fetch, sync_all-fetch}
use ibet_wallet_api.Dex.Sync.Tables.{
  same_order, same_agreement, cancel_key, cancel_set, settlement_key, cancel_keeps,
  settlement_keeps, orders_after, agreements_after, apply_batch_lem,
}

cancel_stays :
    (ms : List (Address × ℕ)) (x : Order) → each cancel_set ms (cancelled x) ≡ cancelled x
cancel_stays [] x = refl
cancel_stays (m ∷ ms) x = cancel_stays ms x

cancel_once :
    (ms : List (Address × ℕ)) (x : Order)
    → each cancel_set ms (each cancel_set ms x) ≡ each cancel_set ms x
cancel_once [] x = refl
cancel_once (m ∷ ms) x = rw (cancel_stays ms x) (cancel_stays ms x)

-- The status and the settlement time that a list of settlements leaves.
last_status : List Settlement → AgreementStatus → AgreementStatus
last_status [] s = s
last_status (settlement_ok e i a t ∷ ss) s = last_status ss done
last_status (settlement_ng e i a ∷ ss) s = last_status ss canceled

last_time : List Settlement → Option ℕ → Option ℕ
last_time [] s = s
last_time (settlement_ok e i a t ∷ ss) s = last_time ss (some t)
last_time (settlement_ng e i a ∷ ss) s = last_time ss s

settle_lem :
    (ss : List Settlement) (x : Agreement)
    → each settled ss x ≡ record x {
      status = last_status ss x.status;
      settlement_timestamp = last_time ss x.settlement_timestamp;
    }
unfolding last_status last_time
settle_lem [] x = refl
settle_lem (settlement_ok e i a t ∷ ss) x = settle_lem ss (settled (settlement_ok e i a t) x)
settle_lem (settlement_ng e i a ∷ ss) x = settle_lem ss (settled (settlement_ng e i a) x)

last_status_twice :
    (ss : List Settlement) (s : AgreementStatus)
    → last_status ss (last_status ss s) ≡ last_status ss s
unfolding last_status
last_status_twice [] s = refl
last_status_twice (settlement_ok e i a t ∷ ss) s = refl
last_status_twice (settlement_ng e i a ∷ ss) s = refl

last_time_twice :
    (ss : List Settlement) (s : Option ℕ) → last_time ss (last_time ss s) ≡ last_time ss s
unfolding last_time
last_time_twice [] s = refl
last_time_twice (settlement_ok e i a t ∷ ss) s = refl
last_time_twice (settlement_ng e i a ∷ ss) s = last_time_twice ss s

settle_once :
    (ss : List Settlement) (x : Agreement) → each settled ss (each settled ss x) ≡ each settled ss x
settle_once ss x = rw (settle_lem ss x) (
    settle_lem ss (record x {
      status = last_status ss x.status;
      settlement_timestamp = last_time ss x.settlement_timestamp;
    })
    ∙ rw (last_status_twice ss x.status, last_time_twice ss x.settlement_timestamp))

pub self_order : (o : Order) → same_order o o ≡ true
self_order o = ground arith

self_agreement : (a : Agreement) → same_agreement a a ≡ true
self_agreement a = ground arith

All-rw :
    {A : Type 0} (same : A → A → Bool) (xs ys : List A)
    → ((p : A) → exists_where (same p) ys ≡ exists_where (same p) xs)
    → (os : List A) → All (λ o. exists_where (same o) xs ≡ true) os
    → All (λ o. exists_where (same o) ys ≡ true) os
All-rw same xs ys e [] h = tt
All-rw same xs ys e (o ∷ os) (h, hs) = (e o ∙ h, All-rw same xs ys e os hs)

cancel_same :
    (p : Order) (o : Address × ℕ) (x : Order) → same_order p (cancel_set o x) ≡ same_order p x
cancel_same p o x = refl

settle_same :
    (p : Agreement) (o : Settlement) (x : Agreement)
    → same_agreement p (settled o x) ≡ same_agreement p x
settle_same p (settlement_ok e i a t) x = refl
settle_same p (settlement_ng e i a) x = refl

orders_twice :
    (x : Batch) (os : List Order) → orders_after x (orders_after x os) ≡ orders_after x os
orders_twice x os =
    let added = each (add_row same_order) x.new_orders os in
    let after = updates cancel_key cancel_set cancel_keeps x.cancels added in
    ap (updates cancel_key cancel_set cancel_keeps x.cancels) (
      each-add_row same_order x.new_orders after (
        All-rw same_order added after
          (λ p.
            exists_where-updates cancel_key cancel_set cancel_keeps (same_order p) (cancel_same p)
              x.cancels added)
          x.new_orders (All-each same_order self_order x.new_orders os)))
    ∙ updates_twice cancel_key cancel_set cancel_keeps cancel_once added x.cancels

agreements_twice :
    (x : Batch) (gs : List Agreement)
    → agreements_after x (agreements_after x gs) ≡ agreements_after x gs
agreements_twice x gs =
    let added = each (add_row same_agreement) x.agreements gs in
    let after = updates settlement_key settled settlement_keeps x.settlements added in
    ap (updates settlement_key settled settlement_keeps x.settlements) (
      each-add_row same_agreement x.agreements after (
        All-rw same_agreement added after
          (λ p.
            exists_where-updates settlement_key settled settlement_keeps (same_agreement p)
              (settle_same p) x.settlements added)
          x.agreements (All-each same_agreement self_agreement x.agreements gs)))
    ∙ updates_twice settlement_key settled settlement_keeps settle_once added x.settlements

pub apply_batch_twice : (x : Batch) (db : Db) → apply_batch x (apply_batch x db) ≡ apply_batch x db
apply_batch_twice x db =
    apply_batch_lem x (apply_batch x db)
    ∙ rw (apply_batch_lem x db, orders_twice x db.order, agreements_twice x db.agreement)

-- Syncing a range of blocks a second time, with the same answers of the node, returns and leaves
-- both tables as the first time left them, row for row.
pub sync_all_twice :
    (n : Node) (exchange_list : List Address) (a b : ℕ) (db db' : Db)
    → sync_all n exchange_list a b db ≡ returned db'
    → sync_all n exchange_list a b db' ≡ returned db'
sync_all_twice n exchange_list a b db db' h =
    sync_all-fetch n exchange_list a b db'
    ∙ again (fetch n exchange_list a b) (sym (sync_all-fetch n exchange_list a b db) ∙ h)
  where
    again :
        (r : Run Batch)
        → (r >>= λ x. returned (apply_batch x db)) ≡ returned db'
        → (r >>= λ x. returned (apply_batch x db')) ≡ returned db'
    again (returned x) e =
        subst (λ d. returned (apply_batch x d) ≡ returned d) (returned_inj e)
          (ap returned (apply_batch_twice x db))
    again raised e = cc
    again out_of_fuel e = cc
