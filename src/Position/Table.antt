-- ===== src/Position/Table.antt =====
-- The tables of positions, locked positions, locks and unlocks, and the writes to them.
pub mod Rows
pub mod Stored
use ibet_wallet_api.Base.{
  ℕ, Bool, true, false, ◌&&◌, List, [], ◌∷◌, ◌++◌, Option, none, some, or_else, if◌then◌else◌, ◌==◌,
  first_where, update_first,
}
use ibet_wallet_api.Chain.{Address}

-- `IDXPosition`
pub record Position : Type 0 where
  pub token_address : Address
  pub account_address : Address
  pub balance : Option ℕ
  pub exchange_balance : Option ℕ
  pub exchange_commitment : Option ℕ
  pub pending_transfer : Option ℕ

-- `IDXLockedPosition`
pub record LockedPosition : Type 0 where
  pub token_address : Address
  pub lock_address : Address
  pub account_address : Address
  pub value : ℕ

-- `IDXLock`. Texts and times are numbers; `data_` is none for the empty object.
pub record Lock : Type 0 where
  pub transaction_hash : ℕ
  pub msg_sender : Address
  pub block_number : ℕ
  pub token_address : Address
  pub lock_address : Address
  pub account_address : Address
  pub value : ℕ
  pub data_ : Option ℕ
  pub block_timestamp : ℕ
  pub is_forced : Bool

-- `IDXUnlock`
pub record Unlock : Type 0 where
  pub transaction_hash : ℕ
  pub msg_sender : Address
  pub block_number : ℕ
  pub token_address : Address
  pub lock_address : Address
  pub account_address : Address
  pub recipient_address : Address
  pub value : ℕ
  pub data_ : Option ℕ
  pub block_timestamp : ℕ
  pub is_forced : Bool

-- `IDXPositionBondBlockNumber`
pub record BlockNumber : Type 0 where
  pub token_address : Address
  pub exchange_address : Address
  pub latest_block_number : ℕ

pub record Db : Type 0 where
  pub position : List Position
  pub locked_position : List LockedPosition
  pub lock : List Lock
  pub unlock : List Unlock
  pub block_number : List BlockNumber

abbrev pub is_position : Address → Address → Position → Bool
is_position token account r = r.token_address == token && r.account_address == account

abbrev pub is_locked : Address → Address → Address → LockedPosition → Bool
is_locked token lock_address account r =
    r.token_address == token && (r.lock_address == lock_address && r.account_address == account)

abbrev pub is_target : Address → Address → BlockNumber → Bool
is_target token exchange r = r.token_address == token && r.exchange_address == exchange

-- The optional arguments of `__sink_on_position`.
pub record Amounts : Type 0 where
  pub balance : Option ℕ
  pub pending_transfer : Option ℕ
  pub exchange_balance : Option ℕ
  pub exchange_commitment : Option ℕ

-- `if value is not None: column = value`
abbrev pub set_to : Option ℕ → Option ℕ → Option ℕ
set_to none column = column
set_to (some value) column = some value

abbrev pub is_some : Option ℕ → Bool
is_some none = false
is_some (some a) = true

abbrev pub any_some : Amounts → Bool
any_some u =
    if is_some u.balance
    then true
    else if is_some u.pending_transfer
    then true
    else if is_some u.exchange_balance
    then true
    else is_some u.exchange_commitment

abbrev pub with_amounts : Amounts → Position → Position
with_amounts u r = record {
  token_address = r.token_address;
  account_address = r.account_address;
  balance = set_to u.balance r.balance;
  exchange_balance = set_to u.exchange_balance r.exchange_balance;
  exchange_commitment = set_to u.exchange_commitment r.exchange_commitment;
  pending_transfer = set_to u.pending_transfer r.pending_transfer;
}

abbrev pub new_position : Address → Address → Amounts → Position
new_position token account u = record {
  token_address = token;
  account_address = account;
  balance = some (or_else u.balance 0);
  exchange_balance = some (or_else u.exchange_balance 0);
  exchange_commitment = some (or_else u.exchange_commitment 0);
  pending_transfer = some (or_else u.pending_transfer 0);
}

abbrev pub sink_found : Address → Address → Amounts → Option Position → Db → Db
sink_found token account u none db =
    if any_some u
    then record db { position = db.position ++ (new_position token account u ∷ []) }
    else db
sink_found token account u (some r) db = record db {
  position = update_first (is_position token account) (with_amounts u) db.position;
}

-- `__sink_on_position`
unfoldable pub sink_on_position : Address → Address → Amounts → Db → Db
sink_on_position token account u db =
    sink_found token account u (first_where (is_position token account) db.position) db

abbrev pub sink_locked_found : Address → Address → Address → ℕ → Option LockedPosition → Db → Db
sink_locked_found token lock_address account value none db = record db {
  locked_position =
      db.locked_position
      ++ (record {
        token_address = token;
        lock_address = lock_address;
        account_address = account;
        value = value;
      }
          ∷ []);
}
sink_locked_found token lock_address account value (some r) db = record db {
  locked_position =
      update_first (is_locked token lock_address account) (λ r. record r { value = value })
        db.locked_position;
}

-- `__sink_on_locked_position`
unfoldable pub sink_on_locked_position : Address → Address → Address → ℕ → Db → Db
sink_on_locked_position token lock_address account value db =
    sink_locked_found token lock_address account value
      (first_where (is_locked token lock_address account) db.locked_position) db

-- The ends of `__insert_lock_idx` and `__insert_unlock_idx`.
abbrev pub insert_lock : Lock → Db → Db
insert_lock row db = record db { lock = db.lock ++ (row ∷ []) }

abbrev pub insert_unlock : Unlock → Db → Db
insert_unlock row db = record db { unlock = db.unlock ++ (row ∷ []) }
