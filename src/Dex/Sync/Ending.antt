-- ===== src/Dex/Sync/Ending.antt =====
-- Every sync of batch/indexer_DEX.py ends, by a value or by an exception.
use ibet_wallet_api.Base.{
  ℕ, zero, suc, ◌+◌, ◌<◌, Bool, List, Option, none, some, ltb, Run, ask, Ends, Ends-returned,
  Ends-ask, Ends-bind, Ends-for_each, Ends-if, Bool-cases, inl, inr, arith, for_each,
}
use ibet_wallet_api.Chain.{Address, max_size, Log, Answer, events_of, Ends-events_of}
use ibet_wallet_api.Dex.Table.{Db}
use ibet_wallet_api.Dex.Sync.{
  NewOrderArgs, AgreeArgs, CancelArgs, SettlementArgs, Node, is_oversized, agree_with,
  new_order_step, cancel_step, agree_step, settlement_ok_step, settlement_ng_step, sync_events,
  sync_all, sync_chunks,
}

module _ (n : Node) where
  Ends-sync_events :
      {A : Type 0} (get_logs : Address → ℕ → ℕ → Answer A) (step : Address → Log A → Db → Run Db)
      → ((exchange : Address) (e : Log A) (db : Db) → Ends (step exchange e db))
      → (exchange_list : List Address) (a b : ℕ) (db : Db)
      → Ends (sync_events n get_logs step exchange_list a b db)
  unfolding sync_events
  Ends-sync_events get_logs step h exchange_list a b db =
      Ends-for_each _
        (λ exchange db.
          Ends-bind (events_of (get_logs exchange a b)) (λ es. for_each (step exchange) es db)
            (Ends-events_of (get_logs exchange a b))
            (λ es. Ends-for_each (step exchange) (h exchange) es db))
        exchange_list db

  Ends-new_order_step :
      (exchange : Address) (e : Log NewOrderArgs) (db : Db) → Ends (new_order_step n exchange e db)
  unfolding new_order_step
  Ends-new_order_step exchange e db = Ends-if (is_oversized e.args) _ _ Ends-returned (
      Ends-bind (ask (n.timestamp e.block_number)) _ (Ends-ask (n.timestamp e.block_number))
        (λ t. Ends-returned))

  Ends-agree_with :
      (exchange : Address) (e : Log AgreeArgs) (db : Db) (o : Option Bool)
      → Ends (agree_with n exchange e db o)
  Ends-agree_with exchange e db none = Ends-returned
  Ends-agree_with exchange e db (some is_buy) =
      Ends-bind (ask (n.timestamp e.block_number)) _ (Ends-ask (n.timestamp e.block_number))
        (λ t. Ends-returned)

  Ends-agree_step :
      (exchange : Address) (e : Log AgreeArgs) (db : Db) → Ends (agree_step n exchange e db)
  unfolding agree_step
  Ends-agree_step exchange e db = Ends-if (ltb max_size e.args.amount) _ _ Ends-returned (
      Ends-bind (ask (n.order_is_buy exchange e.args.order_id)) (agree_with n exchange e db)
        (Ends-ask (n.order_is_buy exchange e.args.order_id)) (Ends-agree_with exchange e db))

  Ends-cancel_step :
      (exchange : Address) (e : Log CancelArgs) (db : Db) → Ends (cancel_step n exchange e db)
  unfolding cancel_step
  Ends-cancel_step exchange e db = Ends-returned

  Ends-settlement_ok_step :
      (exchange : Address) (e : Log SettlementArgs) (db : Db)
      → Ends (settlement_ok_step n exchange e db)
  unfolding settlement_ok_step
  Ends-settlement_ok_step exchange e db =
      Ends-bind (ask (n.timestamp e.block_number)) _ (Ends-ask (n.timestamp e.block_number))
        (λ t. Ends-returned)

  Ends-settlement_ng_step :
      (exchange : Address) (e : Log SettlementArgs) (db : Db)
      → Ends (settlement_ng_step n exchange e db)
  unfolding settlement_ng_step
  Ends-settlement_ng_step exchange e db = Ends-returned

  Ends-sync_all :
      (exchange_list : List Address) (a b : ℕ) (db : Db) → Ends (sync_all n exchange_list a b db)
  unfolding sync_all
  Ends-sync_all exchange_list a b db =
      Ends-bind _ _
        (Ends-sync_events n.new_order (new_order_step n) Ends-new_order_step exchange_list a b db)
        λ d.
          Ends-bind _ _
            (Ends-sync_events n.cancel_order (cancel_step n) Ends-cancel_step exchange_list a b d)
            λ d.
              Ends-bind _ _
                (Ends-sync_events n.force_cancel_order (cancel_step n) Ends-cancel_step
                  exchange_list a b d)
                λ d.
                  Ends-bind _ _
                    (Ends-sync_events n.agree (agree_step n) Ends-agree_step exchange_list a b d)
                    λ d.
                      Ends-bind _ _
                        (Ends-sync_events n.settlement_ok (settlement_ok_step n)
                          Ends-settlement_ok_step exchange_list a b d)
                        λ d.
                          Ends-sync_events n.settlement_ng (settlement_ng_step n)
                            Ends-settlement_ng_step exchange_list a b d

  sync_chunks_end :
      (fuel : ℕ) (exchange_list : List Address) (latest a b : ℕ) (db : Db)
      → 0 < fuel
      → latest < b + fuel
      → Ends (sync_chunks n fuel exchange_list latest a b db)
  unfolding sync_chunks
  sync_chunks_end zero exchange_list latest a b db h k = absurd (omega (arith, h))
  sync_chunks_end (suc fuel) exchange_list latest a b db h k = elim (Bool-cases (ltb b latest)) [
    | inl more ↦
        rw (more, sync_chunks)
          (Ends-bind (sync_all n exchange_list a b db) _ (Ends-sync_all exchange_list a b db) (λ d.
            sync_chunks_end fuel exchange_list latest (a + 1000000) (b + 1000000) d
              (ground (arith, more, k)) (ground (arith, k))))
    | inr last ↦ rw (last, sync_chunks) (Ends-sync_all exchange_list a latest db)
  ]

  -- The loop of the first sync ends on the fuel that it is given, whatever the node answers and
  -- however many blocks there are: it returns tables or raises.
  pub Ends-sync_chunks :
      (exchange_list : List Address) (latest : ℕ) (db : Db)
      → Ends (sync_chunks n (suc latest) exchange_list latest 0 999999 db)
  Ends-sync_chunks exchange_list latest db =
      sync_chunks_end (suc latest) exchange_list latest 0 999999 db (omega arith) (omega arith)
