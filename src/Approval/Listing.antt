-- ===== src/Approval/Listing.antt =====
-- `__get_contract_list` of batch/indexer_TransferApproval.py, and the runs that start with it.
pub mod Exchanges
pub mod Failing
pub mod Ending
pub mod Starting
pub mod Indexed
use ibet_wallet_api.Base.{
  ℕ, suc, ◌+◌, Bool, true, false, ◌||◌, List, [], ◌∷◌, Option, none, some, if◌then◌else◌, ◌==◌, Run,
  returned, raised, out_of_fuel, ◌>>=◌,
}
use ibet_wallet_api.Chain.{Address, zero_address}
use ibet_wallet_api.Approval.Table.{Db}
use ibet_wallet_api.Approval.Sink.{Library}
use ibet_wallet_api.Approval.Targets.{
  append_token, append_exchange, has_exchange, get_oldest_cursor,
}
use ibet_wallet_api.Approval.Sync.{Node, Targets, sync_chunks, set_block_numbers, next_block}

-- `TokenType`
pub data TokenType : Type 0 where
  ibet_straight_bond ibet_share ibet_membership ibet_coupon : TokenType

-- The calls of contracts, `none` where one raises. `get_token_by_address` is the second field of the
-- answer of the list; the inner `none` is a text that is no member of `TokenType`, such as the empty
-- text for a token that is not in the list.
pub record Contracts : Type 0 where
  pub get_token_by_address : Address → Option (Option TokenType)
  pub tradable_exchange : Address → Option Address
  pub block_number : Option ℕ

-- `token_type_cache` and `token_tradable_exchange_address_cache`. The caches of contract objects
-- have an entry for the same addresses.
pub record Caches : Type 0 where
  pub token_type : Address → Option TokenType
  pub tradable_exchange : Address → Option Address

abbrev pub store : {A : Type 0} → (Address → Option A) → Address → A → Address → Option A
store cache address value a = if a == address then some value else cache a

abbrev pub is_security : TokenType → Bool
is_security ibet_straight_bond = true
is_security ibet_share = true
is_security ibet_membership = false
is_security ibet_coupon = false

-- `TokenType(token_info[1])`, which raises ValueError for other texts.
abbrev pub read_type : Address → Caches → Option (Option TokenType) → Caches × Run TokenType
read_type token c none = (c, raised)
read_type token c (some none) = (c, raised)
read_type token c (some (some ty)) =
    (record c { token_type = store c.token_type token ty }, returned ty)

abbrev pub type_of : Contracts → Address → Caches → Option TokenType → Caches × Run TokenType
type_of w token c (some ty) = (c, returned ty)
type_of w token c none = read_type token c (w.get_token_by_address token)

abbrev pub read_exchange : Address → Caches → Option Address → Caches × Run Address
read_exchange token c none = (c, raised)
read_exchange token c (some x) =
    (record c { tradable_exchange = store c.tradable_exchange token x }, returned x)

abbrev pub exchange_of : Contracts → Address → Caches → Option Address → Caches × Run Address
exchange_of w token c (some x) = (c, returned x)
exchange_of w token c none = read_exchange token c (w.tradable_exchange token)

-- The appends of one token. An exchange that is in the list already is not appended again.
abbrev pub add_target : Address → Address → ℕ → Targets → Targets
add_target token exchange block_from s = record {
  token_list = append_token token exchange block_from s.token_list;
  exchange_list =
      if exchange == zero_address || has_exchange exchange s.exchange_list
      then s.exchange_list
      else append_exchange exchange block_from s.exchange_list;
}

abbrev pub add_exchange : Db → Address → Targets → Caches × Run Address → Caches × Run Targets
add_exchange db token s (c, returned x) =
    (c, returned (add_target token x (next_block token x db) s))
add_exchange db token s (c, raised) = (c, raised)
add_exchange db token s (c, out_of_fuel) = (c, out_of_fuel)

abbrev pub add_typed :
    Contracts → Db → Address → Targets → Caches × Run TokenType → Caches × Run Targets
add_typed w db token s (c, returned ty) =
    if is_security ty
    then add_exchange db token s (exchange_of w token c (c.tradable_exchange token))
    else (c, returned s)
add_typed w db token s (c, raised) = (c, raised)
add_typed w db token s (c, out_of_fuel) = (c, out_of_fuel)

-- The body of the loop over the listed tokens.
unfoldable pub add_token : Contracts → Db → Address → Caches → Targets → Caches × Run Targets
add_token w db token c s = add_typed w db token s (type_of w token c (c.token_type token))

abbrev pub and_then :
    (Caches → Targets → Caches × Run Targets) → Caches × Run Targets → Caches × Run Targets
and_then rest (c, returned s) = rest c s
and_then rest (c, raised) = (c, raised)
and_then rest (c, out_of_fuel) = (c, out_of_fuel)

unfoldable pub add_tokens : Contracts → Db → List Address → Caches → Targets → Caches × Run Targets
add_tokens w db [] c s = (c, returned s)
add_tokens w db (token ∷ tokens) c s = and_then (add_tokens w db tokens) (add_token w db token c s)

-- `__get_contract_list`; `listed` are the tokens of the table `listing`, and the first argument
-- tells whether `TOKEN_LIST_CONTRACT_ADDRESS` is set.
unfoldable pub get_contract_list :
    Bool → Contracts → List Address → Db → Caches → Caches × Run Targets
get_contract_list false w listed db c =
    (c, returned (record { token_list = []; exchange_list = [] }))
get_contract_list true w listed db c =
    add_tokens w db listed c (record { token_list = []; exchange_list = [] })

-- `Processor` between runs, with the tables that its sessions commit to.
pub record Processor : Type 0 where
  pub caches : Caches
  pub db : Db

pub data Ended : Type 0 where
  completed failed : Ended

module _ (lib : Library) (n : Node) where
  -- The chunks up to the latest block, and the block numbers. Each chunk passes a million blocks, so
  -- the fuel is enough.
  abbrev pub sync_to : Targets → Db → Option ℕ → Run Db
  sync_to s db none = raised
  sync_to s db (some latest) =
      sync_chunks lib n (suc latest) latest (999999 + get_oldest_cursor s.token_list latest) s db
      >>= λ db'. returned (set_block_numbers s.token_list latest db')

  -- `commit`, or `rollback`. The caches stay.
  abbrev pub commit : Caches → Db → Run Db → Processor × Ended
  commit c db (returned db') = (record { caches = c; db = db' }, completed)
  commit c db raised = (record { caches = c; db = db }, failed)
  commit c db out_of_fuel = (record { caches = c; db = db }, failed)

  abbrev pub sync_listed : Contracts → Db → Caches × Run Targets → Processor × Ended
  sync_listed w db (c, returned s) = commit c db (sync_to s db w.block_number)
  sync_listed w db (c, raised) = (record { caches = c; db = db }, failed)
  sync_listed w db (c, out_of_fuel) = (record { caches = c; db = db }, failed)

  -- `sync_new_logs`
  unfoldable pub sync_new_logs : Bool → Contracts → List Address → Processor → Processor × Ended
  sync_new_logs is_set w listed p =
      sync_listed w p.db (get_contract_list is_set w listed p.db p.caches)

  -- `initial_sync`, whose text is that of `sync_new_logs`.
  unfoldable pub initial_sync : Bool → Contracts → List Address → Processor → Processor × Ended
  unfolding sync_new_logs
  initial_sync is_set w listed p = sync_new_logs is_set w listed p
