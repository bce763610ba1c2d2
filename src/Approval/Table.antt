-- ===== src/Approval/Table.antt =====
-- The tables `transfer_approval` and `idx_transfer_approval_block_number`.
use ibet_wallet_api.Base.{ℕ, Bool, true, false, ◌&&◌, List, Option, none, some, ◌==◌}
use ibet_wallet_api.Chain.{Address}

-- `IDXTransferApproval`. Times, identifiers and amounts are numbers.
pub record TransferApproval : Type 0 where
  pub token_address : Address
  pub exchange_address : Option Address
  pub application_id : Option ℕ
  pub from_address : Option Address
  pub to_address : Option Address
  pub value : Option ℕ
  pub application_datetime : Option ℕ
  pub application_blocktimestamp : Option ℕ
  pub approval_datetime : Option ℕ
  pub approval_blocktimestamp : Option ℕ
  pub cancelled : Option Bool
  pub escrow_finished : Option Bool
  pub transfer_approved : Option Bool

-- `IDXTransferApprovalBlockNumber`
pub record BlockNumber : Type 0 where
  pub token_address : Address
  pub exchange_address : Address
  pub latest_block_number : ℕ

pub record Db : Type 0 where
  pub transfer_approval : List TransferApproval
  pub block_number : List BlockNumber

-- Equality of columns that may be null, as `==` of the query builder makes it.
abbrev pub same_option : Option ℕ → Option ℕ → Bool
same_option none none = true
same_option none (some b) = false
same_option (some a) none = false
same_option (some a) (some b) = a == b

-- An application: its token, its exchange if it has one, and its identifier.
pub record Key : Type 0 where
  pub token : Address
  pub exchange : Option Address
  pub application : Option ℕ

-- The `where` clauses of the query of `__sink_on_transfer_approval`.
abbrev pub is_application : Key → TransferApproval → Bool
is_application k r =
    r.token_address == k.token
    && (same_option r.exchange_address k.exchange && same_option r.application_id k.application)

abbrev pub is_target : Address → Address → BlockNumber → Bool
is_target token exchange r = r.token_address == token && r.exchange_address == exchange

-- `IDXTransferApproval()`, with the columns that identify an application.
abbrev pub new_row : Key → TransferApproval
new_row k = record {
  token_address = k.token;
  exchange_address = k.exchange;
  application_id = k.application;
  from_address = none;
  to_address = none;
  value = none;
  application_datetime = none;
  application_blocktimestamp = none;
  approval_datetime = none;
  approval_blocktimestamp = none;
  cancelled = none;
  escrow_finished = none;
  transfer_approved = none;
}
