-- ===== src/Dex/Sync/Reached.antt =====
-- No block is skipped: the runs of batch/indexer_DEX.py, however many and however they fail.
use ibet_wallet_api.Base.{
  ℕ, zero, suc, ◌+◌, ◌≡◌, refl, Bool, List, Option, none, some, ltb, ◌==◌, Run, returned, raised,
  out_of_fuel, All_intro, Bool-cases, inl, inr, arith, >>=-eq-returned,
}
use mathlib.Core.Path.{subst}
use ibet_wallet_api.Chain.{Address, Log}
use ibet_wallet_api.Dex.Table.{Db}
use ibet_wallet_api.Dex.Sync.{
  NewOrderArgs, Node, sync_all, sync_chunks, Processor, commit, initial_sync, sync_new_logs,
  sync_new_logs_to,
}
use ibet_wallet_api.Dex.Sync.Covered.{IsTruthful, HasListing, IsIndexed}
use ibet_wallet_api.Dex.Sync.Indexed.{sync_all-IsIndexed}

module _ (exchange_list : List Address) (listed_at : ℕ → Address → Bool)
    (history : Address → List (Log NewOrderArgs)) where
  -- The processors that `main` may reach once the first sync is through: `initial_sync` that returns,
  -- on any tables, and then runs of `sync_new_logs`, each with a node of its own that may fail
  -- anywhere, and with any number of the latest block, also a smaller one. A run has one table
  -- `listing`; it has the tokens that are listed at the blocks that the run adds to those that are
  -- synced, none if it fails.
  pub data Reached : Processor → Type 0 where
    initial :
        (n : Node) (latest : ℕ) (p : Processor) (db' : Db)
        → IsTruthful exchange_list listed_at history n
        → HasListing exchange_list listed_at history n 0 latest
        → sync_chunks n (suc latest) exchange_list latest 0 999999 p.db ≡ returned db'
        → Reached (initial_sync n exchange_list (some latest) p)
    new_logs :
        (n : Node) (answer : Option ℕ) (p : Processor)
        → IsTruthful exchange_list listed_at history n
        → HasListing exchange_list listed_at history n
            (suc p.latest_block)
            (sync_new_logs n exchange_list answer p).latest_block
        → Reached p
        → Reached (sync_new_logs n exchange_list answer p)

  Indexed : ℕ → Db → Type 0
  Indexed = IsIndexed exchange_list listed_at history

  none_below : (db : Db) → Indexed 0 db
  unfolding Indexed
  none_below db =
      All_intro (λ exchange. All_intro (λ e h. absurd (omega (arith, h))) (history exchange))
        exchange_list

  module _ (n : Node) (truthful : IsTruthful exchange_list listed_at history n) where
    sync_chunks-IsIndexed :
        (fuel latest a b : ℕ) (db db' : Db)
        → HasListing exchange_list listed_at history n 0 latest
        → b + 1 ≡ a + 1000000
        → Indexed a db
        → sync_chunks n fuel exchange_list latest a b db ≡ returned db'
        → Indexed (suc latest) db'
    unfolding sync_chunks Indexed
    sync_chunks-IsIndexed zero latest a b db db' listing e old h = cc
    sync_chunks-IsIndexed (suc fuel) latest a b db db' listing e old h =
        elim (Bool-cases (ltb b latest)) [
          | inl more ↦
              let first =
                >>=-eq-returned (sync_all n exchange_list a b db)
                  (sync_chunks n fuel exchange_list latest (a + 1000000) (b + 1000000))
                  (rw (more, sync_chunks) at h) in
              sync_chunks-IsIndexed fuel latest (a + 1000000) (b + 1000000) first.0 db' listing
                (omega (arith, e))
                (subst (λ k. Indexed k first.0) (omega (arith, e))
                  (sync_all-IsIndexed exchange_list listed_at history n truthful a b
                    (λ block token low high.
                      listing block token (omega arith) (ground (arith, more, high)))
                    db first.0 old first.1))
                first.2
          | inr last ↦
              sync_all-IsIndexed exchange_list listed_at history n truthful a latest
                (λ block token low high. listing block token (omega arith) high) db db' old
                (rw (last, sync_chunks) at h)
        ]

    commit-IsIndexed :
        (p : Processor) (latest : ℕ) (r : Run Db)
        → Indexed (suc p.latest_block) p.db
        → ((db' : Db) → r ≡ returned db' → Indexed (suc latest) db')
        → Indexed (suc (commit p latest r).latest_block) (commit p latest r).db
    commit-IsIndexed p latest (returned db') old k = k db' refl
    commit-IsIndexed p latest raised old k = old
    commit-IsIndexed p latest out_of_fuel old k = old

    read_listing :
        (p : Processor) (block_to : ℕ) (m : Run Db) (db' : Db)
        → m ≡ returned db'
        → HasListing exchange_list listed_at history n
            (suc p.latest_block)
            (commit p block_to m).latest_block
        → HasListing exchange_list listed_at history n (p.latest_block + 1) block_to
    read_listing p block_to m db' e listing block token low high =
        subst
          (λ r.
            HasListing exchange_list listed_at history n (suc p.latest_block)
              (commit p block_to r).latest_block)
          e listing block token (omega (arith, low)) high

    sync_new_logs-IsIndexed :
        (p : Processor) (answer : Option ℕ)
        → HasListing exchange_list listed_at history n
            (suc p.latest_block)
            (sync_new_logs_to n exchange_list p answer).latest_block
        → Indexed (suc p.latest_block) p.db
        → Indexed
            (suc (sync_new_logs_to n exchange_list p answer).latest_block)
            (sync_new_logs_to n exchange_list p answer).db
    unfolding Indexed
    sync_new_logs-IsIndexed p none listing old = old
    sync_new_logs-IsIndexed p (some block_to) listing old =
        elim (Bool-cases (block_to == p.latest_block)) [
          | inl same ↦ rw same old
          | inr other ↦ rw other (
              commit-IsIndexed p block_to _ old (λ db' e.
                sync_all-IsIndexed exchange_list listed_at history n truthful (p.latest_block + 1)
                  block_to
                  (read_listing p block_to
                    (sync_all n exchange_list (p.latest_block + 1) block_to p.db) db' e
                    (rw other at listing))
                  p.db db' (subst (λ k. Indexed k p.db) (omega arith) old) e))
        ]

  -- Whenever the node answers, it answers a range with the events of one history; it may fail
  -- anywhere, and give any number of the latest block. The table listing may change from run to run,
  -- not during a run. After a first sync that returned and any number of later runs, the table has
  -- the order of every event up to latest_block that is small enough to be stored and whose token was
  -- listed in each run that returned and read the event's block.
  pub Reached-IsIndexed :
      (p : Processor)
      → Reached p
      → IsIndexed exchange_list listed_at history (suc p.latest_block) p.db
  unfolding initial_sync sync_new_logs Indexed
  Reached-IsIndexed p (initial n latest q db' truthful listing h) = rw h (
      sync_chunks-IsIndexed n truthful (suc latest) latest 0 999999 q.db db' listing (omega arith)
        (none_below q.db) h)
  Reached-IsIndexed p (new_logs n answer q truthful listing old) =
      sync_new_logs-IsIndexed n truthful q answer listing (Reached-IsIndexed q old)
