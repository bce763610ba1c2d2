-- ===== src/Blocks/Process/Complete.antt =====
-- A run of batch/indexer_Block_Tx_Data.py against a node that answers reaches the latest block.
use ibet_wallet_api.Base.{
  ℕ, zero, suc, ◌+◌, ◌-◌, ◌≤◌, ◌≡◌, refl, ap, ◌∙◌, ◌||◌, Bool, true, false, List, [], ◌∷◌, ◌++◌,
  map, some, if◌then◌else◌, ltb, ◌==◌, returned, raised, Bool-cases, inl, inr, arith, ◌⊎◌,
}
use mathlib.Core.Path.{subst}
use ibet_wallet_api.Blocks.Table.{BlockData, IdxBlockData, Db, has_number, clashes}
use ibet_wallet_api.Blocks.Process.{
  Node, completed, skipped, tx_model, block_model, commit_block, sync_blocks, process_from, process,
}
use ibet_wallet_api.Blocks.Process.Synced.{
  IsSynced, blocks_upto, txs_upto, committed, committed-IsSynced,
}

-- Blocks are numbered by their place, and no transaction is twice in the chain.
pub record IsChain (chain : ℕ → BlockData) : Type 0 where
  pub number : (k : ℕ) → (chain k).number ≡ k
  pub unique : (k : ℕ) → clashes (map tx_model (chain k).transactions) (txs_upto chain k) ≡ false

has_number-append :
    (k : ℕ) (bs : List IdxBlockData) (b : IdxBlockData)
    → has_number k (bs ++ (b ∷ [])) ≡ (has_number k bs || (b.number == k))
has_number-append k [] b = ground arith
has_number-append k (c ∷ cs) b = ground (arith, has_number-append k cs b)

module _ (chain_id : ℕ) (chain : ℕ → BlockData) (valid : IsChain chain) where
  has_number-blocks_upto : (c k : ℕ) → c ≤ k → has_number k (blocks_upto chain c) ≡ false
  has_number-blocks_upto zero k h = refl
  has_number-blocks_upto (suc c) k h =
      has_number-append k (blocks_upto chain c) (block_model (chain c))
      ∙ ground (arith, has_number-blocks_upto c k (omega (arith, h)), valid.number c)

  commit_block-committed :
      (c : ℕ) (db : Db)
      → IsSynced chain_id chain c db
      → commit_block chain_id c (chain c) db ≡ returned (committed chain_id chain c db)
  unfolding commit_block
  commit_block-committed c db h =
      ap (λ (b : Bool). if b then raised else returned (committed chain_id chain c db))
        (no_clash db h)
    where
      no_clash :
          (db : Db)
          → IsSynced chain_id chain c db
          → (has_number (chain c).number db.block_data
              || clashes (map tx_model (chain c).transactions) db.tx_data)
            ≡ false
      no_clash db h = rw (
        h.block_data,
        h.tx_data,
        valid.number c,
        has_number-blocks_upto c c (omega arith),
        valid.unique c,
      )

  module _ (n : Node) (latest : ℕ)
      (serves : (k : ℕ) → k ≤ latest → n.get_block k ≡ some (chain k)) where
    sync_blocks-completed :
        (count c : ℕ) (db : Db)
        → IsSynced chain_id chain c db
        → c + count ≤ latest + 1
        → IsSynced chain_id chain (c + count) (sync_blocks chain_id n count c db).0
          × ((sync_blocks chain_id n count c db).1 ≡ completed)
    unfolding sync_blocks
    sync_blocks-completed zero c db h k =
        (subst (λ x. IsSynced chain_id chain x db) (omega arith) h, refl)
    sync_blocks-completed (suc count) c db h k =
        rw (serves c (omega (arith, k)), commit_block-committed c db h)
          (subst
            (λ x.
              let r = sync_blocks chain_id n count (suc c) (committed chain_id chain c db) in
              IsSynced chain_id chain x r.0 × (r.1 ≡ completed))
            (omega arith)
            (sync_blocks-completed count (suc c) (committed chain_id chain c db)
              (committed-IsSynced chain_id chain c db h) (omega (arith, k))))

    -- If the tables hold exactly the first `c` blocks of a chain whose blocks are numbered by their
    -- place and whose transactions are all different, `c` is at most the number of the latest block
    -- and one, and the node answers for each block up to the latest, then a run does not fail and
    -- the tables then hold exactly the blocks up to the latest.
    pub process-IsComplete :
        (c : ℕ) (db : Db)
        → IsSynced chain_id chain c db
        → n.block_number ≡ some latest
        → c ≤ latest + 1
        → IsSynced chain_id chain (latest + 1) (process chain_id n db).0
          × ((process chain_id n db).1 ≡ (if ltb latest c then skipped else completed))
    unfolding process sync_blocks
    process-IsComplete c db h found k = rw (found, h.next) (started (Bool-cases (ltb latest c)))
      where
        started :
            (ltb latest c ≡ true) ⊎ (ltb latest c ≡ false)
            → IsSynced chain_id chain
                (latest + 1)
                (process_from chain_id n latest (returned c) db).0
              × ((process_from chain_id n latest (returned c) db).1
                  ≡ (if ltb latest c then skipped else completed))
        started (inl skip) =
            rw skip (subst (λ x. IsSynced chain_id chain x db) (ground (arith, skip, k)) h, refl)
        started (inr run) = rw run (
            subst
              (λ x.
                IsSynced chain_id chain x (sync_blocks chain_id n (latest + 1 - c) c db).0
                × ((sync_blocks chain_id n (latest + 1 - c) c db).1 ≡ completed))
              (omega (arith, k)) (sync_blocks-completed (latest + 1 - c) c db h (omega (arith, k))))
