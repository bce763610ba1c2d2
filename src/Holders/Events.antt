-- ===== src/Holders/Events.antt =====
-- The events that change balances, and what the node answers about them.
use ibet_wallet_api.Base.{ℕ, Option, Bool}
use ibet_wallet_api.Chain.{Address, Answer}

-- An argument that is read by `args.get(name, …)` is an `Option`.
pub record TransferArgs : Type 0 where
  pub from : Option Address
  pub to : Option Address
  pub value : ℕ

-- `HolderChanged` of an exchange carries the token beside the arguments of a transfer.
pub record HolderChangedArgs : Type 0 where
  pub token : Address
  pub transfer : TransferArgs

-- `Issue` and `Redeem`
pub record SupplyArgs : Type 0 where
  pub target_address : Option Address
  pub lock_address : Option Address
  pub amount : Option ℕ

pub record ConsumeArgs : Type 0 where
  pub consumer : Option Address
  pub value : Option ℕ

-- `Lock` and `ForceLock`
pub record LockArgs : Type 0 where
  pub account_address : Option Address
  pub value : Option ℕ

-- `Unlock` and `ForceUnlock`
pub record UnlockArgs : Type 0 where
  pub account_address : Option Address
  pub recipient_address : Option Address
  pub value : Option ℕ

pub record ChangeLockedArgs : Type 0 where
  pub before_account_address : Option Address
  pub after_account_address : Option Address
  pub value : Option ℕ

-- The templates of `TokenType`; any other text is `other`.
pub data TokenType : Type 0 where
  ibet_coupon ibet_membership ibet_straight_bond ibet_share other : TokenType

-- The calls of the node, by contract address, first block and last block; `none` where a call
-- raises. `get_code` says whether the code differs from "0x", `get_token` asks the TokenList
-- contract for the template and the owner of a token.
pub record Node : Type 0 where
  pub get_code : Address → Option Bool
  pub get_token : Address → Option (TokenType × Address)
  pub tradable_exchange : Address → Option Address
  pub holder_changed : Address → Address → ℕ → ℕ → Answer HolderChangedArgs
  pub transfer : Address → ℕ → ℕ → Answer TransferArgs
  pub issue : Address → ℕ → ℕ → Answer SupplyArgs
  pub redeem : Address → ℕ → ℕ → Answer SupplyArgs
  pub consume : Address → ℕ → ℕ → Answer ConsumeArgs
  pub lock : Address → ℕ → ℕ → Answer LockArgs
  pub force_lock : Address → ℕ → ℕ → Answer LockArgs
  pub unlock : Address → ℕ → ℕ → Answer UnlockArgs
  pub force_unlock : Address → ℕ → ℕ → Answer UnlockArgs
  pub force_change_locked_account : Address → ℕ → ℕ → Answer ChangeLockedArgs
