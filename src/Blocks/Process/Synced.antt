-- ===== src/Blocks/Process/Synced.antt =====
-- Whatever fails, batch/indexer_Block_Tx_Data.py leaves the first blocks of the chain in the tables.
use ibet_wallet_api.Base.{
  ℕ, zero, suc, ◌+◌, ◌-◌, ◌≤◌, ◌≡◌, refl, ap, ◌||◌, List, [], ◌∷◌, ◌++◌, map, Option, none, some,
  ltb, ◌==◌, ==_refl, first_where, Run, returned, raised, out_of_fuel, returned_inj, Bool-cases,
  Option-cases, inl, inr, arith,
}
use mathlib.Core.Path.{subst}
use ibet_wallet_api.Blocks.Table.{
  IdxTxData, BlockData, IdxBlockData, BlockNumber, Db, has_number, clashes, merge_number,
}
use ibet_wallet_api.Blocks.Process.{
  Node, tx_model, block_model, commit_block, next_of, next_block, sync_block, sync_blocks,
  process_from, process, or_failed,
}

-- The rows of the first blocks of a chain.
abbrev pub blocks_upto : (ℕ → BlockData) → ℕ → List IdxBlockData
blocks_upto chain zero = []
blocks_upto chain (suc c) = blocks_upto chain c ++ (block_model (chain c) ∷ [])

-- The rows of their transactions.
abbrev pub txs_upto : (ℕ → BlockData) → ℕ → List IdxTxData
txs_upto chain zero = []
txs_upto chain (suc c) = txs_upto chain c ++ map tx_model (chain c).transactions

-- The tables hold exactly the first `c` blocks of the chain, and the next run starts at block `c`.
pub record IsSynced (chain_id : ℕ) (chain : ℕ → BlockData) (c : ℕ) (db : Db) : Type 0 where
  pub block_data : db.block_data ≡ blocks_upto chain c
  pub tx_data : db.tx_data ≡ txs_upto chain c
  pub next : next_block chain_id db ≡ returned c

-- What the node answers is a block of the chain; it may fail to answer.
abbrev pub IsTruthful : (ℕ → BlockData) → Node → Type 0
IsTruthful chain n = (k : ℕ) (b : BlockData) → n.get_block k ≡ some b → b ≡ chain k

first_where-merge_number :
    (n : BlockNumber) (ms : List BlockNumber)
    → first_where (λ r. r.chain_id == n.chain_id) (merge_number n ms) ≡ some n
unfolding first_where merge_number
first_where-merge_number n [] = rw (==_refl n.chain_id)
first_where-merge_number n (m ∷ ms) = elim (Bool-cases (m.chain_id == n.chain_id)) [
  | inl same ↦ rw (same, ==_refl n.chain_id)
  | inr other ↦ rw other (rw other (first_where-merge_number n ms))
]

module _ (chain_id : ℕ) (chain : ℕ → BlockData) where
  abbrev pub committed : ℕ → Db → Db
  committed c db = record {
    block_data = db.block_data ++ (block_model (chain c) ∷ []);
    tx_data = db.tx_data ++ map tx_model (chain c).transactions;
    block_number =
        merge_number (record { chain_id = chain_id; latest_block_number = some c }) db.block_number;
  }

  pub committed-IsSynced :
      (c : ℕ) (db : Db)
      → IsSynced chain_id chain c db
      → IsSynced chain_id chain (suc c) (committed c db)
  unfolding next_block
  committed-IsSynced c db h = record {
    block_data = ap (λ bs. bs ++ (block_model (chain c) ∷ [])) h.block_data;
    tx_data = ap (λ ts. ts ++ map tx_model (chain c).transactions) h.tx_data;
    next = ap next_of (
        first_where-merge_number (record { chain_id = chain_id; latest_block_number = some c })
          db.block_number);
  }

  commit_block-eq :
      (c : ℕ) (db db' : Db)
      → commit_block chain_id c (chain c) db ≡ returned db'
      → committed c db ≡ db'
  unfolding commit_block
  commit_block-eq c db db' e =
      elim (Bool-cases (
        has_number (chain c).number db.block_data
        || clashes (map tx_model (chain c).transactions) db.tx_data)) [
          | inl bad ↦ cc (rw bad at e)
          | inr good ↦ returned_inj (rw good at e)
        ]

  -- Some number of blocks, at least `c`, of which the tables hold all.
  abbrev pub Extends : ℕ → Db → Type 0
  Extends c db = (c' : ℕ) × (c ≤ c') × IsSynced chain_id chain c' db

  module _ (n : Node) (truthful : IsTruthful chain n) where
    sync_block-IsSynced :
        (c : ℕ) (db db' : Db)
        → IsSynced chain_id chain c db
        → sync_block chain_id n c (n.get_block c) db ≡ returned db'
        → IsSynced chain_id chain (suc c) db'
    sync_block-IsSynced c db db' h e = by_answer (n.get_block c) refl e
      where
        by_answer :
            (o : Option BlockData)
            → n.get_block c ≡ o
            → sync_block chain_id n c o db ≡ returned db'
            → IsSynced chain_id chain (suc c) db'
        by_answer none a e = cc
        by_answer (some b) a e =
            subst (IsSynced chain_id chain (suc c))
              (commit_block-eq c db db' (rw (truthful c b a) at e)) (committed-IsSynced c db h)

    sync_blocks-Extends :
        (count c : ℕ) (db : Db)
        → IsSynced chain_id chain c db
        → Extends c (sync_blocks chain_id n count c db).0
    unfolding sync_blocks
    sync_blocks-Extends zero c db h = (c, omega arith, h)
    sync_blocks-Extends (suc count) c db h =
        by_result (sync_blocks-Extends count (suc c)) (sync_block chain_id n c (n.get_block c) db)
          refl
      where
        by_result :
            ((d : Db)
              → IsSynced chain_id chain (suc c) d
              → Extends (suc c) (sync_blocks chain_id n count (suc c) d).0)
            → (r : Run Db) → sync_block chain_id n c (n.get_block c) db ≡ r
            → Extends c (or_failed (sync_blocks chain_id n count (suc c)) db r).0
        by_result later (returned db') e =
            let rest = later db' (sync_block-IsSynced c db db' h e) in
            (rest.0, omega (arith, rest.1), rest.2)
        by_result later raised e = (c, omega arith, h)
        by_result later out_of_fuel e = (c, omega arith, h)

    -- If the tables hold exactly the first `c` blocks of a chain and whatever the node answers is of
    -- that chain, then after a run, wherever it fails, they hold exactly the first `c'` blocks, their
    -- transactions and the number of the last one, and `c'` is not below `c`.
    pub process-IsSynced :
        (c : ℕ) (db : Db) → IsSynced chain_id chain c db → Extends c (process chain_id n db).0
    unfolding process sync_blocks
    process-IsSynced c db h = elim (Option-cases n.block_number) [
      | inl absent ↦ rw absent (c, omega arith, h)
      | inr (latest, found) ↦ rw (found, h.next) (started latest)
    ]
      where
        started : (latest : ℕ) → Extends c (process_from chain_id n latest (returned c) db).0
        started latest = elim (Bool-cases (ltb latest c)) [
          | inl skip ↦ rw skip (c, omega arith, h)
          | inr run ↦ rw run (sync_blocks-Extends (latest + 1 - c) c db h)
        ]
