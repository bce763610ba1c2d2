-- ===== src/Position/Sync/Locks.antt =====
-- The loops over events with locks: `__sync_lock` to `__sync_force_change_locked_account` of
-- batch/indexer_Position_Bond.py.
use ibet_wallet_api.Base.{
  ℕ, Bool, true, false, List, [], ◌∷◌, ◌++◌, each, Option, none, some, if◌then◌else◌, ◌==◌,
}
use ibet_wallet_api.Chain.{Address, Log}
use ibet_wallet_api.Approval.Targets.{TargetToken}
use ibet_wallet_api.Position.Table.{
  Lock, Unlock, Db, sink_on_locked_position, insert_lock, insert_unlock,
}
use ibet_wallet_api.Position.Session.{
  Session, Outcome, ended, and_run, for_loop, swallow, ask_for, write,
}
use ibet_wallet_api.Position.Accounts.{contains}
use ibet_wallet_api.Position.Node.{LockArgs, UnlockArgs, ChangeArgs, Node, Messages}
use ibet_wallet_api.Position.Sync.{for_tokens, sync_events}

-- `lock_map`: the accounts of each lock address, in the order of their insertion.
pub record LockEntry : Type 0 where
  pub lock_address : Address
  pub accounts : List Address

abbrev pub add_account : Address → List Address → List Address
add_account a xs = if contains a xs then xs else xs ++ (a ∷ [])

abbrev pub mark : Address → Address → List LockEntry → List LockEntry
mark lock_address account [] = record { lock_address = lock_address; accounts = account ∷ [] } ∷ []
mark lock_address account (m ∷ ms) =
    if m.lock_address == lock_address
    then record m { accounts = add_account account m.accounts } ∷ ms
    else m ∷ mark lock_address account ms

-- What a loop does with an event that has a sender, and the accounts that it puts in `lock_map`.
pub record LockEvent (A : Type 0) : Type 0 where
  pub lock_address : A → Address
  pub accounts : A → List Address
  pub insert : Address → Log A → ℕ → Address → Db → Db

abbrev pub if_sent : Option Address → (Address → Db → Db) → Db → Db
if_sent none insert db = db
if_sent (some sender) insert db = insert sender db

module _ (n : Node) where
  -- The loops over `lock_map`.
  unfoldable pub update_locked : Address → List LockEntry → Session → Outcome
  update_locked token = for_loop (λ m.
      for_loop
        (λ account.
          ask_for (n.locked_of token m.lock_address account) (λ value s.
            ended (write (sink_on_locked_position token m.lock_address account value) s)))
        m.accounts)

  module _ {A : Type 0} (k : LockEvent A) (transaction_hash : A → ℕ) where
    -- The loop over the events, with what follows it.
    unfoldable pub index_locks : Address → List (Log A) → List LockEntry → Session → Outcome
    index_locks token [] m s = update_locked token m s
    index_locks token (e ∷ es) m s =
        ask_for (n.timestamp e.block_number)
          (λ created. ask_for (n.sender (transaction_hash e.args)) (λ sender s.
            index_locks token es (each (mark (k.lock_address e.args)) (k.accounts e.args) m)
              (write (if_sent sender (k.insert token e created)) s)))
          s

    -- Both halves of the body of a loop over tokens. An exception of the first is passed over, with
    -- the writes before it; the accounts of the second are those that `keys` reads.
    abbrev pub sync_lock_events :
        (A → List Address) → TargetToken → List (Log A) → Session → Outcome
    sync_lock_events keys t events s =
        and_run (swallow (index_locks t.token_address events [] s)) (sync_events n keys t events)

-- `__insert_lock_idx` and `__insert_unlock_idx`
abbrev pub lock_row : Messages → Bool → Address → Log LockArgs → ℕ → Address → Lock
lock_row json is_forced token e created sender = record {
  transaction_hash = e.args.transaction_hash;
  msg_sender = sender;
  block_number = e.block_number;
  token_address = token;
  lock_address = e.args.lock_address;
  account_address = e.args.account_address;
  value = e.args.value;
  data_ = json.lock_data e.args.data_;
  block_timestamp = created;
  is_forced = is_forced;
}

abbrev pub unlock_row : Messages → Bool → Address → Log UnlockArgs → ℕ → Address → Unlock
unlock_row json is_forced token e created sender = record {
  transaction_hash = e.args.transaction_hash;
  msg_sender = sender;
  block_number = e.block_number;
  token_address = token;
  lock_address = e.args.lock_address;
  account_address = e.args.account_address;
  recipient_address = e.args.recipient_address;
  value = e.args.value;
  data_ = json.unlock_data e.args.data_;
  block_timestamp = created;
  is_forced = is_forced;
}

abbrev pub lock_event : Messages → Bool → LockEvent LockArgs
lock_event json is_forced = record {
  lock_address = λ a. a.lock_address;
  accounts = λ a. a.account_address ∷ [];
  insert = λ token e created sender. insert_lock (lock_row json is_forced token e created sender);
}

abbrev pub unlock_event : Messages → Bool → LockEvent UnlockArgs
unlock_event json is_forced = record {
  lock_address = λ a. a.lock_address;
  accounts = λ a. a.account_address ∷ [];
  insert =
      λ token e created sender. insert_unlock (unlock_row json is_forced token e created sender);
}

-- A changed account is an unlock of the one and a lock of the other.
abbrev pub change_event : Messages → LockEvent ChangeArgs
change_event json = record {
  lock_address = λ a. a.lock_address;
  accounts = λ a. a.before_account_address ∷ a.after_account_address ∷ [];
  insert = λ token e created sender db.
      insert_lock
        (record {
          transaction_hash = e.args.transaction_hash;
          msg_sender = sender;
          block_number = e.block_number;
          token_address = token;
          lock_address = e.args.lock_address;
          account_address = e.args.after_account_address;
          value = e.args.value;
          data_ = json.lock_data e.args.data_;
          block_timestamp = created;
          is_forced = true;
        })
        (insert_unlock
          (record {
            transaction_hash = e.args.transaction_hash;
            msg_sender = sender;
            block_number = e.block_number;
            token_address = token;
            lock_address = e.args.lock_address;
            account_address = e.args.before_account_address;
            recipient_address = e.args.after_account_address;
            value = e.args.value;
            data_ = json.unlock_data e.args.data_;
            block_timestamp = created;
            is_forced = true;
          })
          db);
}

module _ (n : Node) (json : Messages) where
  unfoldable pub sync_lock : List TargetToken → ℕ → Session → Outcome
  sync_lock = for_tokens n.lock (
      sync_lock_events n (lock_event json false) (λ a. a.transaction_hash)
        (λ a. a.account_address ∷ []))

  unfoldable pub sync_force_lock : List TargetToken → ℕ → Session → Outcome
  sync_force_lock = for_tokens n.force_lock (
      sync_lock_events n (lock_event json true) (λ a. a.transaction_hash)
        (λ a. a.account_address ∷ []))

  unfoldable pub sync_unlock : List TargetToken → ℕ → Session → Outcome
  sync_unlock = for_tokens n.unlock (
      sync_lock_events n (unlock_event json false) (λ a. a.transaction_hash)
        (λ a. a.recipient_address ∷ []))

  unfoldable pub sync_force_unlock : List TargetToken → ℕ → Session → Outcome
  sync_force_unlock = for_tokens n.force_unlock (
      sync_lock_events n (unlock_event json true) (λ a. a.transaction_hash)
        (λ a. a.recipient_address ∷ []))

  unfoldable pub sync_force_change_locked_account : List TargetToken → ℕ → Session → Outcome
  sync_force_change_locked_account = for_tokens n.force_change_locked_account (
      sync_lock_events n (change_event json) (λ a. a.transaction_hash)
        (λ a. a.before_account_address ∷ a.after_account_address ∷ []))
