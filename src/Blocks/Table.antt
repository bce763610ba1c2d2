-- ===== src/Blocks/Table.antt =====
-- The tables `block_data`, `tx_data` and `idx_block_data_block_number`, and what the node returns.
-- Hashes, addresses and texts are numbers that are only copied and compared; the hexadecimal and
-- the checksum form of one are its spellings.
use ibet_wallet_api.Base.{ℕ, Bool, ◌||◌, false, List, [], ◌∷◌, Option, if◌then◌else◌, ◌==◌}

-- `TxData`, the keys that may be absent being `none`. The inner `none` of `to` is the value `None`.
pub record TxData : Type 0 where
  pub hash : ℕ
  pub block_hash : Option ℕ
  pub block_number : Option ℕ
  pub transaction_index : Option ℕ
  pub from : Option ℕ
  pub to : Option (Option ℕ)
  pub input : Option ℕ
  pub gas : Option ℕ
  pub gas_price : Option ℕ
  pub value : Option ℕ
  pub nonce : Option ℕ

-- `IDXTxData`
pub record IdxTxData : Type 0 where
  pub hash : ℕ
  pub block_hash : Option ℕ
  pub block_number : Option ℕ
  pub transaction_index : Option ℕ
  pub from_address : Option ℕ
  pub to_address : Option ℕ
  pub input : Option ℕ
  pub gas : Option ℕ
  pub gas_price : Option ℕ
  pub value : Option ℕ
  pub nonce : Option ℕ

-- The fields of a block's header that are copied as they are.
pub record Header : Type 0 where
  pub sha3_uncles : Option ℕ
  pub miner : Option ℕ
  pub state_root : Option ℕ
  pub transactions_root : Option ℕ
  pub receipts_root : Option ℕ
  pub logs_bloom : Option ℕ
  pub difficulty : Option ℕ
  pub gas_limit : Option ℕ
  pub gas_used : Option ℕ
  pub proof_of_authority_data : Option ℕ
  pub mix_hash : Option ℕ
  pub nonce : Option ℕ
  pub size : Option ℕ

-- `BlockData`. A block without one of the four fields that are asserted raises: see `get_block`.
pub record BlockData : Type 0 where
  pub number : ℕ
  pub parent_hash : ℕ
  pub timestamp : ℕ
  pub hash : ℕ
  pub header : Header
  pub transactions : List TxData

-- `IDXBlockData`
pub record IdxBlockData : Type 0 where
  pub number : ℕ
  pub parent_hash : ℕ
  pub timestamp : ℕ
  pub hash : ℕ
  pub header : Header
  pub transactions : List ℕ

-- `IDXBlockDataBlockNumber`
pub record BlockNumber : Type 0 where
  pub chain_id : ℕ
  pub latest_block_number : Option ℕ

pub record Db : Type 0 where
  pub block_data : List IdxBlockData
  pub tx_data : List IdxTxData
  pub block_number : List BlockNumber

-- `number` is the primary key of `block_data`.
abbrev pub has_number : ℕ → List IdxBlockData → Bool
has_number n [] = false
has_number n (b ∷ bs) = b.number == n || has_number n bs

-- `hash` is the primary key of `tx_data`.
abbrev pub has_hash : ℕ → List IdxTxData → Bool
has_hash h [] = false
has_hash h (t ∷ ts) = t.hash == h || has_hash h ts

-- New rows of which one has the key of another, or of a row that is there.
abbrev pub clashes : List IdxTxData → List IdxTxData → Bool
clashes [] rows = false
clashes (t ∷ ts) rows = (has_hash t.hash rows || has_hash t.hash ts) || clashes ts rows

-- `merge` of a row: it takes the place of the row of its primary key, or is added.
unfoldable pub merge_number : BlockNumber → List BlockNumber → List BlockNumber
merge_number n [] = n ∷ []
merge_number n (m ∷ ms) = if m.chain_id == n.chain_id then n ∷ ms else m ∷ merge_number n ms
