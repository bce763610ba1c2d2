-- ===== src/Approval/Sync/Loops.antt =====
-- The loops over targets of batch/indexer_TransferApproval.py.
use ibet_wallet_api.Base.{
  ℕ, ◌≡◌, false, List, [], ◌∷◌, Option, Run, returned, for_each, All, All-imp, >>=-eq-returned,
  returned_inj,
}
use mathlib.Core.Path.{subst}
use ibet_wallet_api.Chain.{Log}
use ibet_wallet_api.Approval.Table.{Db}
use ibet_wallet_api.Approval.Sink.{Library, Event}
use ibet_wallet_api.Approval.Sync.{sync_source}
use ibet_wallet_api.Approval.Sync.Recorded.{
  Keeps, Keeps-refl, Keeps-trans, SourceIsSunk, SourceIsSunk-Keeps, sync_source-IsSunk,
  sync_source-Keeps,
}

module _ (lib : Library) {A T : Type 0} (event : T → Log A → Run (Option Event)) (cursor : T → ℕ)
    (logs : T → Run (List (Log A))) (block_to : ℕ) where
  abbrev loop : List T → Db → Run Db
  loop = for_each (λ t. sync_source lib block_to (cursor t) (logs t) (event t))

  abbrev pub AreSunk : List T → Db → Type 0
  AreSunk ts db = All (λ t. SourceIsSunk lib (event t) block_to (cursor t) (logs t) db) ts

  pub loop-Keeps : (ts : List T) (db db' : Db) → loop ts db ≡ returned db' → Keeps db db'
  loop-Keeps [] db db' h = subst (Keeps db) (returned_inj h) (Keeps-refl db)
  loop-Keeps (t ∷ ts) db db' h =
      let first =
        >>=-eq-returned (sync_source lib block_to (cursor t) (logs t) (event t) db) (loop ts) h in
      Keeps-trans (sync_source-Keeps lib (event t) block_to (cursor t) (logs t) db first.0 first.1)
        (loop-Keeps ts first.0 db' first.2)

  pub AreSunk-Keeps : (ts : List T) (db db' : Db) → Keeps db db' → AreSunk ts db → AreSunk ts db'
  AreSunk-Keeps ts db db' keeps =
      All-imp (λ t. SourceIsSunk-Keeps lib (event t) block_to (cursor t) (logs t) db db' keeps) ts

  pub loop-AreSunk :
      lib.merges_none ≡ false
      → (ts : List T) (db db' : Db) → loop ts db ≡ returned db'
      → AreSunk ts db'
  loop-AreSunk strict [] db db' h = tt
  loop-AreSunk strict (t ∷ ts) db db' h =
      let first =
        >>=-eq-returned (sync_source lib block_to (cursor t) (logs t) (event t) db) (loop ts) h in
      (
        SourceIsSunk-Keeps lib (event t) block_to (cursor t) (logs t) first.0 db'
            (loop-Keeps ts first.0 db' first.2)
            (sync_source-IsSunk lib (event t) strict block_to (cursor t) (logs t) db first.0
              first.1),
        loop-AreSunk strict ts first.0 db' first.2,
      )
