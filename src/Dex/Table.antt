-- ===== src/Dex/Table.antt =====
-- The tables `order` and `agreement`, and the queries of batch/indexer_DEX.py on them.
pub mod Rows
use ibet_wallet_api.Base.{ℕ, Bool, ◌&&◌, List, [], ◌∷◌, Option, none, some, ◌==◌, first_where}
use ibet_wallet_api.Chain.{Address}

-- `IDXOrder`. Hashes, addresses and timestamps are numbers that are only copied and compared.
-- The column `unique_order_id` is made of two others, `counterpart_address` is the empty text.
pub record Order : Type 0 where
  pub transaction_hash : ℕ
  pub token_address : Address
  pub exchange_address : Address
  pub order_id : ℕ
  pub account_address : Address
  pub is_buy : Bool
  pub price : ℕ
  pub amount : ℕ
  pub agent_address : Address
  pub is_cancelled : Bool
  pub order_timestamp : ℕ

-- `AgreementStatus`
pub data AgreementStatus : Type 0 where
  pending done canceled : AgreementStatus

-- `IDXAgreement`
pub record Agreement : Type 0 where
  pub transaction_hash : ℕ
  pub exchange_address : Address
  pub order_id : ℕ
  pub agreement_id : ℕ
  pub buyer_address : Address
  pub seller_address : Address
  pub counterpart_address : Address
  pub amount : ℕ
  pub status : AgreementStatus
  pub agreement_timestamp : ℕ
  pub settlement_timestamp : Option ℕ

pub record Db : Type 0 where
  pub order : List Order
  pub agreement : List Agreement

-- The `where` clauses of `__get_order`
abbrev pub is_order : Address → ℕ → Order → Bool
is_order exchange order_id o = o.exchange_address == exchange && o.order_id == order_id

-- The `where` clauses of `__get_agreement`
abbrev pub is_agreement : Address → ℕ → ℕ → Agreement → Bool
is_agreement exchange order_id agreement_id a =
    a.exchange_address == exchange && (a.order_id == order_id && a.agreement_id == agreement_id)

-- `__get_order`
abbrev pub get_order : Address → ℕ → Db → Option Order
get_order exchange order_id db = first_where (is_order exchange order_id) db.order

-- `__get_agreement`
abbrev pub get_agreement : Address → ℕ → ℕ → Db → Option Agreement
get_agreement exchange order_id agreement_id db =
    first_where (is_agreement exchange order_id agreement_id) db.agreement
