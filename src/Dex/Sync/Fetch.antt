-- ===== src/Dex/Sync/Fetch.antt =====
-- `__sync_all` of batch/indexer_DEX.py reads a batch of operations and applies it.
use ibet_wallet_api.Base.{
  ℕ, ◌≡◌, ap, ◌∙◌, List, ◌++◌, Run, returned, raised, out_of_fuel, ◌>>=◌, each,
}
use ibet_wallet_api.Chain.{Address}
use ibet_wallet_api.Dex.Table.{Order, Agreement, Db}
use ibet_wallet_api.Dex.Sink.{
  sink_on_new_order, sink_on_cancel_order, sink_on_agree, Settlement, sink_on_settlement,
}
use ibet_wallet_api.Dex.Sync.{
  Node, new_order_step, cancel_step, agree_step, settlement_ok_step, settlement_ng_step, sync_all,
}
use ibet_wallet_api.Dex.Sync.Batch.{
  Does, Does-sync_events, Does-new_order_step, Does-cancel_step, Does-agree_step,
  Does-settlement_ok_step, Does-settlement_ng_step, each-append, read_events, read_new_order,
  read_cancel, read_agree, read_ok, read_ng,
}

-- The operations of a range of blocks.
pub record Batch : Type 0 where
  pub new_orders : List Order
  pub cancels : List (Address × ℕ)
  pub agreements : List Agreement
  pub settlements : List Settlement

-- Both tables after the operations.
abbrev pub apply_batch : Batch → Db → Db
apply_batch x db = each sink_on_settlement x.settlements (
    each sink_on_agree x.agreements
      (each sink_on_cancel_order x.cancels (each sink_on_new_order x.new_orders db)))

-- What the node says about a range of blocks.
unfoldable pub fetch : Node → List Address → ℕ → ℕ → Run Batch
fetch n exchange_list a b = do
  orders ← read_events n.new_order (read_new_order n) exchange_list a b
  cancels ← read_events n.cancel_order (read_cancel n) exchange_list a b
  forced ← read_events n.force_cancel_order (read_cancel n) exchange_list a b
  agreements ← read_events n.agree (read_agree n) exchange_list a b
  oks ← read_events n.settlement_ok (read_ok n) exchange_list a b
  ngs ← read_events n.settlement_ng (read_ng n) exchange_list a b
  returned (record {
    new_orders = orders;
    cancels = cancels ++ forced;
    agreements = agreements;
    settlements = oks ++ ngs;
  })

Does-bind :
    {B C : Type 0} {sink : B → Db → Db} {m : Db → Run Db} {f : Run (List B)}
    → Does sink m f
    → (db : Db) (k : Db → Run Db) (g : List B → Run C) (finish : C → Db)
    → ((os : List B) → k (each sink os db) ≡ (g os >>= λ c. returned (finish c)))
    → (m db >>= k) ≡ ((f >>= g) >>= λ c. returned (finish c))
Does-bind {f = returned os} h db k g finish then_ = rw (h.does db) (then_ os)
Does-bind {f = raised} h db k g finish then_ = rw (h.does db)
Does-bind {f = out_of_fuel} h db k g finish then_ = rw (h.does db)

Does-last :
    {B C : Type 0} {sink : B → Db → Db} {m : Db → Run Db} {f : Run (List B)}
    → Does sink m f
    → (db : Db) (g : List B → C) (finish : C → Db)
    → ((os : List B) → each sink os db ≡ finish (g os))
    → m db ≡ ((f >>= λ os. returned (g os)) >>= λ c. returned (finish c))
Does-last {f = returned os} h db g finish same = h.does db ∙ ap returned (same os)
Does-last {f = raised} h db g finish same = h.does db
Does-last {f = out_of_fuel} h db g finish same = h.does db

-- `__sync_all` is `fetch`, then `apply_batch`.
pub sync_all-fetch :
    (n : Node) (exchange_list : List Address) (a b : ℕ) (db : Db)
    → sync_all n exchange_list a b db
      ≡ (fetch n exchange_list a b >>= λ x. returned (apply_batch x db))
unfolding sync_all fetch
sync_all-fetch n exchange_list a b db =
    let finish = λ (x : Batch). apply_batch x db in
    Does-bind
      (Does-sync_events n sink_on_new_order n.new_order (new_order_step n) (read_new_order n)
        (Does-new_order_step n) exchange_list a b)
      db _ _ finish
      λ os.
        Does-bind
          (Does-sync_events n sink_on_cancel_order n.cancel_order (cancel_step n) (read_cancel n)
            (Does-cancel_step n) exchange_list a b)
          (each sink_on_new_order os db) _ _ finish
          λ cs.
            Does-bind
              (Does-sync_events n sink_on_cancel_order n.force_cancel_order (cancel_step n)
                (read_cancel n) (Does-cancel_step n) exchange_list a b)
              _ _ _ finish
              λ fs.
                Does-bind
                  (Does-sync_events n sink_on_agree n.agree (agree_step n) (read_agree n)
                    (Does-agree_step n) exchange_list a b)
                  _ _ _ finish
                  λ gs.
                    Does-bind
                      (Does-sync_events n sink_on_settlement n.settlement_ok (settlement_ok_step n)
                        (read_ok n) (Does-settlement_ok_step n) exchange_list a b)
                      _ _ _ finish
                      λ oks.
                        Does-last
                          (Does-sync_events n sink_on_settlement n.settlement_ng
                            (settlement_ng_step n) (read_ng n) (Does-settlement_ng_step n)
                            exchange_list a b)
                          _ _ finish λ ngs. same os cs fs gs oks ngs
  where
    same :
        (os : List Order) (cs fs : List (Address × ℕ)) (gs : List Agreement)
        (oks ngs : List Settlement)
        → each sink_on_settlement ngs (
            each sink_on_settlement oks (
              each sink_on_agree gs (
                each sink_on_cancel_order fs
                  (each sink_on_cancel_order cs (each sink_on_new_order os db)))))
          ≡ apply_batch
              (record {
                new_orders = os;
                cancels = cs ++ fs;
                agreements = gs;
                settlements = oks ++ ngs;
              })
              db
    same os cs fs gs oks ngs = simp (each-append)
