-- ===== src/Position/Sync.antt =====
-- The loops over the listed tokens: `__sync_transfer` to `__sync_approve_transfer` of
-- batch/indexer_Position_Bond.py.
pub mod Locks
pub mod Closed
pub mod Fresh
pub mod Synced
use ibet_wallet_api.Base.{
  ℕ, ◌+◌, Bool, true, false, not, List, [], ◌∷◌, ◌++◌, select, each, Option, none, some,
  if◌then◌else◌, ltb, ◌==◌, Run, returned, raised, out_of_fuel,
}
use ibet_wallet_api.Chain.{Address, zero_address, Log, Answer, events_of}
use ibet_wallet_api.Approval.Targets.{TargetToken}
use ibet_wallet_api.Position.Table.{
  Lock, Unlock, Db, Amounts, sink_on_position, sink_on_locked_position, insert_lock, insert_unlock,
}
use ibet_wallet_api.Position.Session.{
  Session, Outcome, ended, raised_at, spent, and_run, for_loop, swallow, ask_for, write, commit,
  cons_answer, ask_all,
}
use ibet_wallet_api.Position.Accounts.{contains, remove_duplicates, chunked}
use ibet_wallet_api.Position.Node.{
  TransferArgs, LockArgs, UnlockArgs, ChangeArgs, AccountArgs, Node, Messages,
}

-- An account with its amounts, as the calls for balances answer.
pub record Balance : Type 0 where
  pub account_address : Address
  pub amounts : Amounts

-- The writes of a list of balances.
abbrev pub sink_balances : Address → List Balance → Db → Db
sink_balances token = each (λ b. sink_on_position token b.account_address b.amounts)

module _ {A : Type 0} where
  abbrev pub on_logs : (List (Log A) → Session → Outcome) → Session → Run (List (Log A)) → Outcome
  on_logs body s (returned es) = body es s
  on_logs body s raised = raised_at s
  on_logs body s out_of_fuel = spent

  -- `if block_from > block_to: continue`, and the events that the node answers.
  abbrev pub with_events :
      ℕ → ℕ → Run (List (Log A)) → (List (Log A) → Session → Outcome) → Session → Outcome
  with_events block_to cursor logs body s =
      if ltb block_to cursor then ended s else on_logs body s logs

  abbrev pub for_tokens :
      (Address → ℕ → ℕ → Answer A)
      → (TargetToken → List (Log A) → Session → Outcome)
      → List TargetToken
      → ℕ
      → Session
      → Outcome
  for_tokens get_logs body ts block_to =
      for_loop
        (λ t.
          with_events block_to t.cursor (events_of (get_logs t.token_address t.cursor block_to))
            (body t))
        ts

abbrev pub three_balances : Address → Option ℕ → Option ℕ → Option ℕ → Option Balance
three_balances account none pending exchange_balance = none
three_balances account (some balance) none exchange_balance = none
three_balances account (some balance) (some pending) none = none
three_balances account (some balance) (some pending) (some exchange_balance) = some (record {
  account_address = account;
  amounts = record {
    balance = some balance;
    pending_transfer = some pending;
    exchange_balance = some exchange_balance;
    exchange_commitment = none;
  };
})

abbrev pub two_balances : Address → Option ℕ → Option ℕ → Option Balance
two_balances account none pending = none
two_balances account (some balance) none = none
two_balances account (some balance) (some pending) = some (record {
  account_address = account;
  amounts = record {
    balance = some balance;
    pending_transfer = some pending;
    exchange_balance = none;
    exchange_commitment = none;
  };
})

abbrev pub transfer_keys : TransferArgs → List Address
transfer_keys a = a.from ∷ a.to ∷ []

unfoldable pub transfer_accounts : TargetToken → List (Log TransferArgs) → List Address
transfer_accounts t events =
    select (λ a. not (a == t.exchange_address)) (remove_duplicates transfer_keys events)

abbrev pub account_key : AccountArgs → List Address
account_key a = a.account ∷ []

module _ (n : Node) where
  -- `__get_account_balance_for_transfer`: three calls, the third only where there is an exchange.
  abbrev pub exchange_balance_or_zero : Address → Address → Address → Option ℕ
  exchange_balance_or_zero exchange token account =
      if exchange == zero_address then some 0 else n.exchange_balance_of exchange token account

  unfoldable pub get_account_balance_for_transfer : Address → Address → Address → Option Balance
  get_account_balance_for_transfer token exchange account =
      three_balances account (n.balance_of token account) (n.pending_transfer token account)
        (exchange_balance_or_zero exchange token account)

  -- `__get_account_balance_token`
  unfoldable pub get_account_balance_token : Address → Address → Option Balance
  get_account_balance_token token account =
      two_balances account (n.balance_of token account) (n.pending_transfer token account)

  -- The second half of most loops: the balances of the accounts, and their positions.
  unfoldable pub sync_accounts : Address → List Address → Session → Outcome
  sync_accounts token accounts =
      ask_for (ask_all (get_account_balance_token token) accounts)
        (λ balances s. ended (write (sink_balances token balances) s))

  abbrev pub sync_events :
      {A : Type 0} → (A → List Address) → TargetToken → List (Log A) → Session → Outcome
  sync_events keys t events = sync_accounts t.token_address (remove_duplicates keys events)

  -- `__sync_transfer`, which commits after every 1000 accounts.
  unfoldable pub sync_chunk : TargetToken → List Address → Session → Outcome
  sync_chunk t eoa_list =
      ask_for
        (ask_all (get_account_balance_for_transfer t.token_address t.exchange_address) eoa_list)
        (λ balances s. ended (commit (write (sink_balances t.token_address balances) s)))

  abbrev pub sync_transfer_events : TargetToken → List (Log TransferArgs) → Session → Outcome
  sync_transfer_events t events =
      for_loop (sync_chunk t) (chunked 1000 (transfer_accounts t events))

  unfoldable pub sync_transfer : List TargetToken → ℕ → Session → Outcome
  sync_transfer = for_tokens n.transfer sync_transfer_events

  unfoldable pub sync_issue : List TargetToken → ℕ → Session → Outcome
  sync_issue = for_tokens n.issue (sync_events account_key)

  unfoldable pub sync_redeem : List TargetToken → ℕ → Session → Outcome
  sync_redeem = for_tokens n.redeem (sync_events account_key)

  unfoldable pub sync_apply_for_transfer : List TargetToken → ℕ → Session → Outcome
  sync_apply_for_transfer = for_tokens n.apply_for_transfer (sync_events account_key)

  unfoldable pub sync_cancel_transfer : List TargetToken → ℕ → Session → Outcome
  sync_cancel_transfer = for_tokens n.cancel_transfer (sync_events account_key)

  unfoldable pub sync_approve_transfer : List TargetToken → ℕ → Session → Outcome
  sync_approve_transfer = for_tokens n.approve_transfer (sync_events transfer_keys)
