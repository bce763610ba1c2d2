-- ===== src/Dex/Sync/Batch.antt =====
-- `__sync_all` of batch/indexer_DEX.py in two parts: what it reads from the node, which does not
-- depend on the tables, and what it then writes.
use ibet_wallet_api.Base.{
  ℕ, ◌≡◌, refl, sym, ap, Bool, List, [], ◌∷◌, ◌++◌, Option, none, some, if◌then◌else◌, ltb, Run,
  returned, raised, out_of_fuel, ask, ◌>>=◌, for_each, each, Bool-cases, inl, inr,
}
use ibet_wallet_api.Chain.{Address, max_size, Log, Answer, events_of}
use ibet_wallet_api.Dex.Table.{Order, Agreement, Db}
use ibet_wallet_api.Dex.Sink.{
  sink_on_new_order, sink_on_cancel_order, sink_on_agree, Settlement, sink_on_settlement,
}
use ibet_wallet_api.Dex.Sync.{
  NewOrderArgs, CancelArgs, AgreeArgs, SettlementArgs, Node, is_oversized, order_of, agreement_of,
  new_order_step, cancel_step, agree_with, agree_step, settlement_ok_step, settlement_ng_step,
  sync_events,
}

-- All the results of a list of calls, or an exception.
abbrev pub gather {ℓ κ} : {A : Type ℓ} {B : Type κ} → (A → Run (List B)) → List A → Run (List B)
gather f [] = returned []
gather f (x ∷ xs) = f x >>= λ os. (gather f xs >>= λ ps. returned (os ++ ps))

pub each-append {ℓ κ} :
    {A : Type ℓ} {S : Type κ} (f : A → S → S) (xs ys : List A) (s : S)
    → each f (xs ++ ys) s ≡ each f ys (each f xs s)
each-append f [] ys s = refl
each-append f (x ∷ xs) ys s = each-append f xs ys (f x s)

-- The code reads some operations, and applies them to the tables.
pub record Does {B : Type 0} (sink : B → Db → Db) (code : Db → Run Db) (reads : Run (List B))
    : Type 0 where
  pub does : (db : Db) → code db ≡ (reads >>= λ os. returned (each sink os db))

module _ {B : Type 0} (sink : B → Db → Db) where
  Does-then :
      (m k : Db → Run Db) (f g : Run (List B))
      → Does sink m f
      → Does sink k g
      → Does sink (λ db. m db >>= k) (f >>= λ os. (g >>= λ ps. returned (os ++ ps)))
  Does-then m k (returned os) (returned ps) h h' = record {
    does = λ db.
        rw (h.does db, h'.does (each sink os db)) (ap returned (sym (each-append sink os ps db)));
  }
  Does-then m k (returned os) raised h h' = record {
    does = λ db. rw (h.does db) (h'.does (each sink os db));
  }
  Does-then m k (returned os) out_of_fuel h h' = record {
    does = λ db. rw (h.does db) (h'.does (each sink os db));
  }
  Does-then m k raised g h h' = record { does = λ db. rw (h.does db) }
  Does-then m k out_of_fuel g h h' = record { does = λ db. rw (h.does db) }

  Does-for_each :
      {A : Type 0} (step : A → Db → Run Db) (f : A → Run (List B))
      → ((x : A) → Does sink (step x) (f x))
      → (xs : List A) → Does sink (for_each step xs) (gather f xs)
  Does-for_each step f h [] = record { does = λ db. refl }
  Does-for_each step f h (x ∷ xs) =
      Does-then (step x) (for_each step xs) (f x) (gather f xs) (h x) (Does-for_each step f h xs)

-- What `sync_events` reads, given what one event stands for.
abbrev pub read_events :
    {A B : Type 0}
    → (Address → ℕ → ℕ → Answer A)
    → (Address → Log A → Run (List B))
    → List Address
    → ℕ
    → ℕ
    → Run (List B)
read_events get_logs f exchange_list a b =
    gather (λ exchange. events_of (get_logs exchange a b) >>= gather (f exchange)) exchange_list

pub Does-sync_events :
    {A B : Type 0} (n : Node) (sink : B → Db → Db) (get_logs : Address → ℕ → ℕ → Answer A)
    (step : Address → Log A → Db → Run Db) (f : Address → Log A → Run (List B))
    → ((exchange : Address) (e : Log A) → Does sink (step exchange e) (f exchange e))
    → (exchange_list : List Address) (a b : ℕ)
    → Does sink
        (sync_events n get_logs step exchange_list a b)
        (read_events get_logs f exchange_list a b)
unfolding sync_events
Does-sync_events n sink get_logs step f h exchange_list a b =
    Does-for_each sink
      (λ exchange db. events_of (get_logs exchange a b) >>= λ es. for_each (step exchange) es db)
      (λ exchange. events_of (get_logs exchange a b) >>= gather (f exchange))
      (λ exchange. after_logs exchange (events_of (get_logs exchange a b))) exchange_list
  where
    after_logs :
        (exchange : Address) (r : Run (List (Log _)))
        → Does sink (λ db. r >>= λ es. for_each (step exchange) es db) (r >>= gather (f exchange))
    after_logs exchange (returned es) =
        Does-for_each sink (step exchange) (f exchange) (h exchange) es
    after_logs exchange raised = record { does = λ db. refl }
    after_logs exchange out_of_fuel = record { does = λ db. refl }

module _ (n : Node) where
  -- The order that a NewOrder event stands for, if it is small enough and its token is listed.
  abbrev pub read_new_order : Address → Log NewOrderArgs → Run (List Order)
  read_new_order exchange e =
      if is_oversized e.args
      then returned []
      else (ask (n.timestamp e.block_number) >>= λ timestamp. returned (
          if n.is_listed e.args.token_address then order_of exchange e.args timestamp ∷ [] else []))

  abbrev pub read_cancel : Address → Log CancelArgs → Run (List (Address × ℕ))
  read_cancel exchange e = returned ((exchange, e.args.order_id) ∷ [])

  abbrev read_agree_with : Address → Log AgreeArgs → Option Bool → Run (List Agreement)
  read_agree_with exchange e none = returned []
  read_agree_with exchange e (some is_buy) = ask (n.timestamp e.block_number) >>= λ timestamp.
      returned (agreement_of exchange e.args is_buy timestamp ∷ [])

  abbrev pub read_agree : Address → Log AgreeArgs → Run (List Agreement)
  read_agree exchange e =
      if ltb max_size e.args.amount
      then returned []
      else (ask (n.order_is_buy exchange e.args.order_id) >>= read_agree_with exchange e)

  abbrev pub read_ok : Address → Log SettlementArgs → Run (List Settlement)
  read_ok exchange e = ask (n.timestamp e.block_number) >>= λ timestamp.
      returned
        (Settlement.settlement_ok exchange e.args.order_id e.args.agreement_id timestamp ∷ [])

  abbrev pub read_ng : Address → Log SettlementArgs → Run (List Settlement)
  read_ng exchange e =
      returned (Settlement.settlement_ng exchange e.args.order_id e.args.agreement_id ∷ [])

  pub Does-new_order_step :
      (exchange : Address) (e : Log NewOrderArgs)
      → Does sink_on_new_order (new_order_step n exchange e) (read_new_order exchange e)
  unfolding new_order_step
  Does-new_order_step exchange e = record {
    does = λ db. elim (Bool-cases (is_oversized e.args)) [
      | inl large ↦ rw large
      | inr small ↦ rw small (timed db (n.timestamp e.block_number))
    ];
  }
    where
      timed :
          (db : Db) (o : Option ℕ)
          → (ask o >>= λ timestamp. returned (
              if n.is_listed e.args.token_address
              then sink_on_new_order (order_of exchange e.args timestamp) db
              else db))
            ≡ ((ask o >>= λ timestamp. returned (
                  if n.is_listed e.args.token_address
                  then order_of exchange e.args timestamp ∷ []
                  else []))
                >>= λ os. returned (each sink_on_new_order os db))
      timed db none = refl
      timed db (some timestamp) = elim (Bool-cases (n.is_listed e.args.token_address)) [
        | inl yes_ ↦ rw yes_
        | inr no_ ↦ rw no_
      ]

  pub Does-cancel_step :
      (exchange : Address) (e : Log CancelArgs)
      → Does sink_on_cancel_order (cancel_step n exchange e) (read_cancel exchange e)
  unfolding cancel_step
  Does-cancel_step exchange e = record { does = λ db. refl }

  pub Does-settlement_ng_step :
      (exchange : Address) (e : Log SettlementArgs)
      → Does sink_on_settlement (settlement_ng_step n exchange e) (read_ng exchange e)
  unfolding settlement_ng_step
  Does-settlement_ng_step exchange e = record { does = λ db. refl }

  pub Does-agree_step :
      (exchange : Address) (e : Log AgreeArgs)
      → Does sink_on_agree (agree_step n exchange e) (read_agree exchange e)
  unfolding agree_step
  Does-agree_step exchange e = record {
    does = λ db. elim (Bool-cases (ltb max_size e.args.amount)) [
      | inl large ↦ rw large
      | inr small ↦ rw small (asked db (n.order_is_buy exchange e.args.order_id))
    ];
  }
    where
      timed :
          (db : Db) (is_buy : Bool) (o : Option ℕ)
          → (ask o >>= λ timestamp.
              returned (sink_on_agree (agreement_of exchange e.args is_buy timestamp) db))
            ≡ ((ask o >>= λ timestamp.
                  returned (agreement_of exchange e.args is_buy timestamp ∷ []))
                >>= λ os. returned (each sink_on_agree os db))
      timed db is_buy none = refl
      timed db is_buy (some timestamp) = refl

      asked :
          (db : Db) (o : Option (Option Bool))
          → (ask o >>= agree_with n exchange e db)
            ≡ ((ask o >>= read_agree_with exchange e) >>= λ os. returned (each sink_on_agree os db))
      asked db none = refl
      asked db (some none) = refl
      asked db (some (some is_buy)) = timed db is_buy (n.timestamp e.block_number)

  pub Does-settlement_ok_step :
      (exchange : Address) (e : Log SettlementArgs)
      → Does sink_on_settlement (settlement_ok_step n exchange e) (read_ok exchange e)
  unfolding settlement_ok_step
  Does-settlement_ok_step exchange e = record { does = λ db. timed db (n.timestamp e.block_number) }
    where
      timed :
          (db : Db) (o : Option ℕ)
          → (ask o >>= λ timestamp. returned (
              sink_on_settlement
                (Settlement.settlement_ok exchange e.args.order_id e.args.agreement_id timestamp)
                db))
            ≡ ((ask o >>= λ timestamp. returned (
                  Settlement.settlement_ok exchange e.args.order_id e.args.agreement_id timestamp
                  ∷ []))
                >>= λ os. returned (each sink_on_settlement os db))
      timed db none = refl
      timed db (some timestamp) = refl
