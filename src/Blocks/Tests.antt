-- ===== src/Blocks/Tests.antt =====
-- Copying a small chain, with a node that fails at a block.
use ibet_wallet_api.Base.{
  ℕ, zero, suc, ◌≡◌, refl, false, [], ◌∷◌, List, none, some, if◌then◌else◌, ltb, first_where, arith,
  Bool-cases, inl, inr, map,
}
use ibet_wallet_api.Blocks.Table.{TxData, Header, BlockData, Db, clashes, merge_number}
use ibet_wallet_api.Blocks.Process.{
  Node, completed, failed, skipped, tx_model, next_block, commit_block, sync_blocks, process,
}
use ibet_wallet_api.Blocks.Process.Synced.{
  IsSynced, IsTruthful, Extends, blocks_upto, txs_upto, process-IsSynced,
}
use ibet_wallet_api.Blocks.Process.Complete.{IsChain, process-IsComplete}

abbrev header : Header
header = record {
  sha3_uncles = none;
  miner = some 5;
  state_root = none;
  transactions_root = none;
  receipts_root = none;
  logs_bloom = none;
  difficulty = none;
  gas_limit = some 30;
  gas_used = some 7;
  proof_of_authority_data = none;
  mix_hash = none;
  nonce = none;
  size = some 9;
}

-- The creation of a contract: `to` is there and is `None`.
abbrev creation : TxData
creation = record {
  hash = 71;
  block_hash = some 11;
  block_number = some 1;
  transaction_index = some 0;
  from = some 7;
  to = some none;
  input = some 3;
  gas = some 4;
  gas_price = some 0;
  value = some 0;
  nonce = some 0;
}

-- Block 1 has a transaction, all others have none.
abbrev transactions_of : ℕ → List TxData
transactions_of zero = []
transactions_of (suc zero) = creation ∷ []
transactions_of (suc (suc k)) = []

abbrev chain : ℕ → BlockData
chain k = record {
  number = k;
  parent_hash = k;
  timestamp = k;
  hash = suc k;
  header = header;
  transactions = transactions_of k;
}

abbrev node : Node
node = record { block_number = some 2; get_block = λ k. some (chain k) }

-- Block 2 cannot be read.
abbrev failing : Node
failing = record {
  block_number = some 3;
  get_block = λ k. if ltb k 2 then some (chain k) else none;
}

abbrev empty : Db
empty = record { block_data = []; tx_data = []; block_number = [] }

empty-IsSynced : IsSynced 1 chain 0 empty
unfolding next_block first_where
empty-IsSynced = record { block_data = refl; tx_data = refl; next = refl }

chain-IsChain : IsChain chain
chain-IsChain = record { number = λ k. refl; unique = λ k. unique k }
  where
    unique : (k : ℕ) → clashes (map tx_model (chain k).transactions) (txs_upto chain k) ≡ false
    unique zero = refl
    unique (suc zero) = refl
    unique (suc (suc k)) = refl

failing_run : process 1 failing empty ≡ (
  record {
    block_data = blocks_upto chain 2;
    tx_data = txs_upto chain 2;
    block_number = record { chain_id = 1; latest_block_number = some 1 } ∷ [];
  },
  failed,
)
unfolding process next_block first_where sync_blocks commit_block merge_number
failing_run = refl

process-IsSynced_example : Extends 1 chain 0 (process 1 failing empty).0
process-IsSynced_example = process-IsSynced 1 chain failing truthful 0 empty empty-IsSynced
  where
    truthful : IsTruthful chain failing
    truthful k b h = elim (Bool-cases (ltb k 2)) [
      | inl early ↦ cc (rw early at h)
      | inr late ↦ cc (rw late at h)
    ]

process-IsComplete_example :
    IsSynced 1 chain 3 (process 1 node empty).0
    × ((process 1 node empty).1 ≡ (if ltb 2 0 then skipped else completed))
process-IsComplete_example =
    process-IsComplete 1 chain chain-IsChain node 2 (λ k h. refl) 0 empty empty-IsSynced refl
      (omega arith)
