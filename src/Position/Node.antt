-- ===== src/Position/Node.antt =====
-- The calls of contracts and of the node that batch/indexer_Position_Bond.py makes.
use ibet_wallet_api.Base.{ℕ, Option}
use ibet_wallet_api.Chain.{Address, Answer}

-- The arguments of events that the code reads; those that it does not read are left out. The logs
-- that web3 decodes have every argument that the ABI names.
pub record TransferArgs : Type 0 where
  pub from : Address
  pub to : Address

pub record LockArgs : Type 0 where
  pub transaction_hash : ℕ
  pub account_address : Address
  pub lock_address : Address
  pub value : ℕ
  pub data_ : ℕ

pub record UnlockArgs : Type 0 where
  pub transaction_hash : ℕ
  pub account_address : Address
  pub lock_address : Address
  pub recipient_address : Address
  pub value : ℕ
  pub data_ : ℕ

pub record ChangeArgs : Type 0 where
  pub transaction_hash : ℕ
  pub lock_address : Address
  pub before_account_address : Address
  pub after_account_address : Address
  pub value : ℕ
  pub data_ : ℕ

-- An event from which the code reads one account: `targetAddress` of Issue and Redeem, and `from` of
-- ApplyForTransfer and CancelTransfer, whose `to` it does not read.
pub record AccountArgs : Type 0 where
  pub account : Address

-- An event of an exchange on one account of a token, and one on two.
pub record OneArgs : Type 0 where
  pub token : Address
  pub account : Address

pub record TwoArgs : Type 0 where
  pub token : Address
  pub first : Address
  pub second : Address

-- `none` where a call raises. The inner option of `sender` is that of a transaction that is not
-- found or has no sender.
pub record Node : Type 0 where
  pub transfer : Address → ℕ → ℕ → Answer TransferArgs
  pub lock : Address → ℕ → ℕ → Answer LockArgs
  pub force_lock : Address → ℕ → ℕ → Answer LockArgs
  pub unlock : Address → ℕ → ℕ → Answer UnlockArgs
  pub force_unlock : Address → ℕ → ℕ → Answer UnlockArgs
  pub force_change_locked_account : Address → ℕ → ℕ → Answer ChangeArgs
  pub issue : Address → ℕ → ℕ → Answer AccountArgs
  pub redeem : Address → ℕ → ℕ → Answer AccountArgs
  pub apply_for_transfer : Address → ℕ → ℕ → Answer AccountArgs
  pub cancel_transfer : Address → ℕ → ℕ → Answer AccountArgs
  pub approve_transfer : Address → ℕ → ℕ → Answer TransferArgs
  pub new_order : Address → ℕ → ℕ → Answer OneArgs
  pub cancel_order : Address → ℕ → ℕ → Answer OneArgs
  pub force_cancel_order : Address → ℕ → ℕ → Answer OneArgs
  pub agree : Address → ℕ → ℕ → Answer OneArgs
  pub settlement_ok : Address → ℕ → ℕ → Answer TwoArgs
  pub settlement_ng : Address → ℕ → ℕ → Answer OneArgs
  pub escrow_created : Address → ℕ → ℕ → Answer OneArgs
  pub escrow_canceled : Address → ℕ → ℕ → Answer OneArgs
  pub escrow_holder_changed : Address → ℕ → ℕ → Answer TwoArgs
  pub delivery_created : Address → ℕ → ℕ → Answer OneArgs
  pub delivery_canceled : Address → ℕ → ℕ → Answer OneArgs
  pub delivery_aborted : Address → ℕ → ℕ → Answer OneArgs
  pub dvp_holder_changed : Address → ℕ → ℕ → Answer TwoArgs
  pub timestamp : ℕ → Option ℕ
  pub sender : ℕ → Option (Option Address)
  pub balance_of : Address → Address → Option ℕ
  pub pending_transfer : Address → Address → Option ℕ
  pub locked_of : Address → Address → Address → Option ℕ
  pub exchange_balance_of : Address → Address → Address → Option ℕ
  pub commitment_of : Address → Address → Address → Option ℕ

-- The parsers of `data`: the object, if the text is JSON and has a message that the model allows.
pub record Messages : Type 0 where
  pub lock_data : ℕ → Option ℕ
  pub unlock_data : ℕ → Option ℕ
