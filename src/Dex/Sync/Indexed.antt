-- ===== src/Dex/Sync/Indexed.antt =====
-- What `__sync_all` of batch/indexer_DEX.py reads has every stored order of its range of blocks.
use ibet_wallet_api.Base.{
  ℕ, suc, ◌<◌, ◌≡◌, sym, ap, ◌∙◌, Bool, true, List, [], ◌∷◌, ◌++◌, Option, none, some,
  if◌then◌else◌, ltb, Run, returned, raised, out_of_fuel, ask, ◌>>=◌, All, All-select, All-imp,
  Bool-cases, inl, inr, arith, returned_inj, >>=-eq-returned,
}
use mathlib.Core.Path.{subst}
use ibet_wallet_api.Chain.{Address, Log, events_of, in_range, within}
use ibet_wallet_api.Dex.Table.{Order, Agreement, Db, is_order}
use ibet_wallet_api.Dex.Sink.{Settlement}
use ibet_wallet_api.Dex.Table.Rows.{exists_where}
use ibet_wallet_api.Dex.Sync.{NewOrderArgs, Node, is_oversized, order_of, sync_all}
use ibet_wallet_api.Dex.Sync.Batch.{
  gather, read_events, read_new_order, read_cancel, read_agree, read_ok, read_ng,
}
use ibet_wallet_api.Dex.Sync.Fetch.{Batch, apply_batch, fetch, sync_all-fetch}
use ibet_wallet_api.Dex.Sync.Covered.{
  exists_where-append-left, exists_where-append-right, has_order-apply_batch, has_order-new_orders,
  is_stored, IsTruthful, HasListing, IsIndexed,
}

-- What each call finds stays found among the results of all calls.
module _ {A B : Type 0} (f : A → Run (List B)) (Found : A → List B → Type 0)
    (found : (x : A) (os : List B) → f x ≡ returned os → Found x os)
    (left : (x : A) (ps qs : List B) → Found x ps → Found x (ps ++ qs))
    (right : (x : A) (ps qs : List B) → Found x qs → Found x (ps ++ qs)) where
  gather-All : (xs : List A) (os : List B) → gather f xs ≡ returned os → All (λ x. Found x os) xs
  gather-All [] os h = tt
  gather-All (x ∷ xs) os h =
      let first = >>=-eq-returned (f x) (λ ps. gather f xs >>= λ qs. returned (ps ++ qs)) h in
      let rest = >>=-eq-returned (gather f xs) (λ qs. returned (first.0 ++ qs)) first.2 in
      subst (λ l. All (λ y. Found y l) (x ∷ xs)) (returned_inj rest.2)
        (
          left x first.0 rest.0 (found x first.0 first.1),
          All-imp (λ y. right y first.0 rest.0) xs (gather-All xs rest.0 rest.1),
        )

module _ (exchange_list : List Address) (listed_at : ℕ → Address → Bool)
    (history : Address → List (Log NewOrderArgs)) (n : Node)
    (truthful : IsTruthful exchange_list listed_at history n) where
  fetch-new_orders :
      (a b : ℕ) (x : Batch)
      → fetch n exchange_list a b ≡ returned x
      → read_events n.new_order (read_new_order n) exchange_list a b ≡ returned x.new_orders
  unfolding fetch
  fetch-new_orders a b x h =
      parts (read_events n.new_order (read_new_order n) exchange_list a b)
        (read_events n.cancel_order (read_cancel n) exchange_list a b)
        (read_events n.force_cancel_order (read_cancel n) exchange_list a b)
        (read_events n.agree (read_agree n) exchange_list a b)
        (read_events n.settlement_ok (read_ok n) exchange_list a b)
        (read_events n.settlement_ng (read_ng n) exchange_list a b) h
    where
      parts :
          (os : Run (List Order)) (cs fs : Run (List (Address × ℕ))) (gs : Run (List Agreement))
          (oks ngs : Run (List Settlement))
          → (os >>= λ orders. cs >>= λ cancels. fs >>= λ forced. gs >>= λ agreements.
              oks >>= λ settled. ngs >>= λ failed. returned (record {
                new_orders = orders;
                cancels = cancels ++ forced;
                agreements = agreements;
                settlements = settled ++ failed;
              }))
            ≡ returned x
          → os ≡ returned x.new_orders
      parts (returned os) (returned cs) (returned fs) (returned gs) (returned oks) (returned ngs)
            k =
          ap (λ (y : Batch). returned y.new_orders) (returned_inj k)
      parts raised cs fs gs oks ngs k = cc
      parts out_of_fuel cs fs gs oks ngs k = cc
      parts (returned os) raised fs gs oks ngs k = cc
      parts (returned os) out_of_fuel fs gs oks ngs k = cc
      parts (returned os) (returned cs) raised gs oks ngs k = cc
      parts (returned os) (returned cs) out_of_fuel gs oks ngs k = cc
      parts (returned os) (returned cs) (returned fs) raised oks ngs k = cc
      parts (returned os) (returned cs) (returned fs) out_of_fuel oks ngs k = cc
      parts (returned os) (returned cs) (returned fs) (returned gs) raised ngs k = cc
      parts (returned os) (returned cs) (returned fs) (returned gs) out_of_fuel ngs k = cc
      parts (returned os) (returned cs) (returned fs) (returned gs) (returned oks) raised k = cc
      parts (returned os) (returned cs) (returned fs) (returned gs) (returned oks) out_of_fuel k =
          cc

  module _ (a b : ℕ) (listing : HasListing exchange_list listed_at history n a b) where
    -- The order of an event of the range is among these, if it is stored at all.
    abbrev InOrders : Address → Log NewOrderArgs → List Order → Type 0
    InOrders exchange e os =
        within a b e ≡ true
        → is_stored exchange_list listed_at history e ≡ true
        → exists_where (is_order exchange e.args.order_id) os ≡ true

    read_new_order-InOrders :
        (exchange : Address) (e : Log NewOrderArgs) (os : List Order)
        → read_new_order n exchange e ≡ returned os
        → InOrders exchange e os
    read_new_order-InOrders exchange e os h inside stored =
        elim (Bool-cases (is_oversized e.args)) [
          | inl large ↦ cc (rw large at stored)
          | inr small ↦ timed (n.timestamp e.block_number) (rw small at h) (rw small at stored)
        ]
      where
        timed :
            (o : Option ℕ)
            → (ask o >>= λ timestamp. returned (
                if n.is_listed e.args.token_address
                then order_of exchange e.args timestamp ∷ []
                else []))
              ≡ returned os
            → listed_at e.block_number e.args.token_address ≡ true
            → exists_where (is_order exchange e.args.order_id) os ≡ true
        timed none k listed = cc
        timed (some timestamp) k listed =
            let found : n.is_listed e.args.token_address ≡ true =
              listing e.block_number e.args.token_address (ground (arith, inside))
                (ground (arith, inside)) listed in
            subst (λ l. exists_where (is_order exchange e.args.order_id) l ≡ true) (returned_inj k)
              (rw found (ground arith))

    -- The orders of the events of the range.
    abbrev InRange : Address → List Order → Type 0
    InRange exchange os = All (λ e. InOrders exchange e os) (in_range a b (history exchange))

    read_exchange-InRange :
        (exchange : Address) (os : List Order)
        → (events_of (n.new_order exchange a b) >>= gather (read_new_order n exchange))
          ≡ returned os
        → InRange exchange os
    read_exchange-InRange exchange os h =
        let events =
          >>=-eq-returned (events_of (n.new_order exchange a b))
            (gather (read_new_order n exchange)) h in
        subst (λ es. All (λ e. InOrders exchange e os) es)
          (truthful.new_order exchange a b events.0 events.1)
          (gather-All (read_new_order n exchange) (InOrders exchange)
            (read_new_order-InOrders exchange)
            (λ e ps qs k i s. exists_where-append-left _ ps qs (k i s))
            (λ e ps qs k i s. exists_where-append-right _ ps qs (k i s)) events.0 os events.2)

    read_events-InRange :
        (os : List Order)
        → read_events n.new_order (read_new_order n) exchange_list a b ≡ returned os
        → All (λ exchange. InRange exchange os) exchange_list
    read_events-InRange os h =
        gather-All
          (λ exchange. events_of (n.new_order exchange a b) >>= gather (read_new_order n exchange))
          InRange read_exchange-InRange
          (λ x ps qs. All-imp (λ e k i s. exists_where-append-left _ ps qs (k i s)) _)
          (λ x ps qs. All-imp (λ e k i s. exists_where-append-right _ ps qs (k i s)) _)
          exchange_list os h

    -- A sync from the block up to which all orders are there leaves all up to its last block there.
    pub sync_all-IsIndexed :
        (db db' : Db)
        → IsIndexed exchange_list listed_at history a db
        → sync_all n exchange_list a b db ≡ returned db'
        → IsIndexed exchange_list listed_at history (suc b) db'
    sync_all-IsIndexed db db' old h =
        let x =
          >>=-eq-returned (fetch n exchange_list a b) (λ y. returned (apply_batch y db))
            (sym (sync_all-fetch n exchange_list a b db) ∙ h) in
        subst (IsIndexed exchange_list listed_at history (suc b)) (returned_inj x.2) (
          both x.0 exchange_list old
            (read_events-InRange x.0.new_orders (fetch-new_orders a b x.0 x.1)))
      where
        merged :
            (x : Batch) (exchange : Address) (es : List (Log NewOrderArgs))
            → All
                (λ e.
                  e.block_number < a
                  → is_stored exchange_list listed_at history e ≡ true
                  → exists_where (is_order exchange e.args.order_id) db.order ≡ true)
                es
            → All (λ e. within a b e ≡ true → InOrders exchange e x.new_orders) es
            → All
                (λ e.
                  e.block_number < suc b
                  → is_stored exchange_list listed_at history e ≡ true
                  → exists_where (is_order exchange e.args.order_id) (apply_batch x db).order
                    ≡ true)
                es
        merged x exchange [] p q = tt
        merged x exchange (e ∷ es) (p, ps) (q, qs) = (
          λ below stored. elim (Bool-cases (ltb e.block_number a)) [
            | inl before ↦
                has_order-apply_batch exchange e.args.order_id x db
                  (p (ground (arith, before)) stored)
            | inr after ↦
                has_order-new_orders exchange e.args.order_id x db
                  (q (ground (arith, after, below)) (ground (arith, after, below)) stored)
          ],
          merged x exchange es ps qs,
        )

        both :
            (x : Batch) (l : List Address)
            → All
                (λ exchange.
                  All
                    (λ e.
                      e.block_number < a
                      → is_stored exchange_list listed_at history e ≡ true
                      → exists_where (is_order exchange e.args.order_id) db.order ≡ true)
                    (history exchange))
                l
            → All (λ exchange. InRange exchange x.new_orders) l
            → All
                (λ exchange.
                  All
                    (λ e.
                      e.block_number < suc b
                      → is_stored exchange_list listed_at history e ≡ true
                      → exists_where (is_order exchange e.args.order_id) (apply_batch x db).order
                        ≡ true)
                    (history exchange))
                l
        both x [] p q = tt
        both x (exchange ∷ l) (p, ps) (q, qs) = (
          merged x exchange (history exchange) p (
              All-select (λ e. InOrders exchange e x.new_orders) (within a b) (history exchange) q),
          both x l ps qs,
        )
