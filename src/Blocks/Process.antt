-- ===== src/Blocks/Process.antt =====
-- `Processor.process` of batch/indexer_Block_Tx_Data.py.
pub mod Synced
pub mod Complete
use ibet_wallet_api.Base.{
  ℕ, zero, suc, ◌+◌, ◌-◌, Bool, ◌||◌, List, [], ◌∷◌, ◌++◌, map, Option, none, some, if◌then◌else◌,
  ltb, ◌==◌, first_where, Run, returned, raised,
}
use ibet_wallet_api.Blocks.Table.{
  TxData, IdxTxData, BlockData, IdxBlockData, BlockNumber, Db, has_number, clashes, merge_number,
}

-- The node's answers; `none` where the call raises, or where an asserted field is missing.
pub record Node : Type 0 where
  pub block_number : Option ℕ
  pub get_block : ℕ → Option BlockData

-- `to_checksum_address(transaction["to"]) if "to" in transaction and … is not None else None`
abbrev pub to_address_of : Option (Option ℕ) → Option ℕ
to_address_of none = none
to_address_of (some to) = to

abbrev pub tx_model : TxData → IdxTxData
tx_model t = record {
  hash = t.hash;
  block_hash = t.block_hash;
  block_number = t.block_number;
  transaction_index = t.transaction_index;
  from_address = t.from;
  to_address = to_address_of t.to;
  input = t.input;
  gas = t.gas;
  gas_price = t.gas_price;
  value = t.value;
  nonce = t.nonce;
}

abbrev pub block_model : BlockData → IdxBlockData
block_model b = record {
  number = b.number;
  parent_hash = b.parent_hash;
  timestamp = b.timestamp;
  hash = b.hash;
  header = b.header;
  transactions = map (λ t. t.hash) b.transactions;
}

-- `commit`, with the two `add`s and the `merge` before it: a row of a key that is there raises.
unfoldable pub commit_block : ℕ → ℕ → BlockData → Db → Run Db
commit_block chain_id block_number b db =
    if has_number b.number db.block_data || clashes (map tx_model b.transactions) db.tx_data
    then raised
    else returned (record {
      block_data = db.block_data ++ (block_model b ∷ []);
      tx_data = db.tx_data ++ map tx_model b.transactions;
      block_number =
          merge_number (record { chain_id = chain_id; latest_block_number = some block_number })
            db.block_number;
    })

pub data Outcome : Type 0 where
  skipped completed failed : Outcome

-- The rest of the loop, unless the block raised.
abbrev pub or_failed : (Db → Db × Outcome) → Db → Run Db → Db × Outcome
or_failed rest db (returned db') = rest db'
or_failed rest db _ = (db, failed)

abbrev next_of : Option BlockNumber → Run ℕ
next_of none = returned 0
next_of (some r) = elim r.latest_block_number [ none ↦ raised | some n ↦ returned (suc n) ]

-- `__get_indexed_block_number(…) + 1`; the code's -1 for a missing row gives 0.
unfoldable pub next_block : ℕ → Db → Run ℕ
next_block chain_id db = next_of (first_where (λ r. r.chain_id == chain_id) db.block_number)

module _ (chain_id : ℕ) (n : Node) where
  abbrev pub sync_block : ℕ → Option BlockData → Db → Run Db
  sync_block block_number none db = raised
  sync_block block_number (some b) db = commit_block chain_id block_number b db

  -- The `for` loop over `count` blocks. What was committed stays when a later block raises.
  unfoldable pub sync_blocks : ℕ → ℕ → Db → Db × Outcome
  sync_blocks zero block_number db = (db, completed)
  sync_blocks (suc count) block_number db =
      or_failed (sync_blocks count (suc block_number)) db
        (sync_block block_number (n.get_block block_number) db)

  abbrev pub process_from : ℕ → Run ℕ → Db → Db × Outcome
  process_from latest (returned from_block) db =
      if ltb latest from_block
      then (db, skipped)
      else sync_blocks (latest + 1 - from_block) from_block db
  process_from latest _ db = (db, failed)

  abbrev process_to : Option ℕ → Db → Db × Outcome
  process_to none db = (db, failed)
  process_to (some latest) db = process_from latest (next_block chain_id db) db

  -- `process`
  unfoldable pub process : Db → Db × Outcome
  process db = process_to n.block_number db
