-- ===== src/Position/Run.antt =====
-- `__get_contract_list`, `__sync_all` and the runs of batch/indexer_Position_Bond.py.
pub mod Closed
pub mod Sources
pub mod Synced
pub mod Starts
pub mod Durable
use ibet_wallet_api.Base.{
  ℕ, zero, suc, ◌+◌, Bool, true, false, List, [], ◌∷◌, ◌++◌, each, Option, none, some,
  if◌then◌else◌, ltb, ◌==◌, Run, returned, raised, out_of_fuel, first_where, update_first,
}
use ibet_wallet_api.Chain.{Address, zero_address}
use ibet_wallet_api.Approval.Targets.{TargetToken, append_token, append_exchange, get_oldest_cursor}
use ibet_wallet_api.Approval.Sync.{Targets, update_cursor}
use ibet_wallet_api.Position.Table.{BlockNumber, Db, is_target}
use ibet_wallet_api.Position.Session.{
  Session, Outcome, ended, raised_at, spent, and_run, write, commit,
}
use ibet_wallet_api.Position.Node.{Node, Messages}
use ibet_wallet_api.Position.Sync.{
  sync_transfer, sync_issue, sync_redeem, sync_apply_for_transfer, sync_cancel_transfer,
  sync_approve_transfer,
}
use ibet_wallet_api.Position.Sync.Locks.{
  sync_lock, sync_force_lock, sync_unlock, sync_force_unlock, sync_force_change_locked_account,
}
use ibet_wallet_api.Position.Exchange.{sync_exchange, sync_escrow, sync_dvp}

module _ (n : Node) (json : Messages) where
  -- The fourteen calls of `__sync_all`; its last line is `update_cursor`.
  unfoldable pub sync_all : Targets → ℕ → Session → Outcome
  sync_all g to s = and_run (sync_transfer n g.token_list to s) λ s.
      and_run (sync_lock n json g.token_list to s) λ s.
        and_run (sync_force_lock n json g.token_list to s) λ s.
          and_run (sync_unlock n json g.token_list to s) λ s.
            and_run (sync_force_unlock n json g.token_list to s) λ s.
              and_run (sync_force_change_locked_account n json g.token_list to s) λ s.
                and_run (sync_issue n g.token_list to s) λ s.
                  and_run (sync_redeem n g.token_list to s) λ s.
                    and_run (sync_apply_for_transfer n g.token_list to s) λ s.
                      and_run (sync_cancel_transfer n g.token_list to s) λ s.
                        and_run (sync_approve_transfer n g.token_list to s) λ s.
                          and_run (sync_exchange n g to s)
                            λ s. and_run (sync_escrow n g to s) λ s. sync_dvp n g to s

  -- `while _to_block < latest_block: …` and the call after the loop.
  unfoldable pub sync_chunks : ℕ → ℕ → ℕ → Targets → Session → Outcome
  sync_chunks zero latest_block to_block g s = spent
  sync_chunks (suc fuel) latest_block to_block g s = elim (ltb to_block latest_block) [
    | true ↦
        and_run (sync_all g to_block s)
          (sync_chunks fuel latest_block (to_block + 1000000) (update_cursor (to_block + 1) g))
    | false ↦ sync_all g latest_block s
  ]

abbrev pub set_found : TargetToken → ℕ → Option BlockNumber → Db → Db
set_found t block_number none db = record db {
  block_number =
      db.block_number
      ++ (record {
        token_address = t.token_address;
        exchange_address = t.exchange_address;
        latest_block_number = block_number;
      }
          ∷ []);
}
set_found t block_number (some _) db = record db {
  block_number =
      update_first (is_target t.token_address t.exchange_address)
        (λ r. record r { latest_block_number = block_number }) db.block_number;
}

-- `__set_idx_position_block_number`
unfoldable pub set_block_numbers : List TargetToken → ℕ → Db → Db
set_block_numbers ts block_number =
    each
      (λ t db.
        set_found t block_number
          (first_where (is_target t.token_address t.exchange_address) db.block_number) db)
      ts

abbrev pub next_after : Option BlockNumber → ℕ
next_after none = 0
next_after (some r) = r.latest_block_number + 1

-- `__get_idx_position_block_number(…) + 1`; the code's -1 for a missing row gives 0.
unfoldable pub next_block : Address → Address → Db → ℕ
next_block token exchange db = next_after (first_where (is_target token exchange) db.block_number)

-- The answer for the type of a token: the one of this batch, another one, or a text that is no type.
pub data TypeText : Type 0 where
  own_type other_type no_type : TypeText

pub record Contracts : Type 0 where
  pub get_token_by_address : Address → Option TypeText
  pub tradable_exchange : Address → Option Address
  pub block_number : Option ℕ

pub record Caches : Type 0 where
  pub token_type : Address → Option TypeText
  pub tradable_exchange : Address → Option Address

abbrev pub store : {A : Type 0} → (Address → Option A) → Address → A → Address → Option A
store cache address value a = if a == address then some value else cache a

-- The appends of one token.
unfoldable pub add_target : Address → Address → ℕ → Targets → Targets
add_target token exchange block_from g = record {
  token_list = append_token token exchange block_from g.token_list;
  exchange_list =
      if exchange == zero_address
      then g.exchange_list
      else append_exchange exchange block_from g.exchange_list;
}

-- How a batch converts the text of a type: `TokenType(text)` raises for a text that is no type, the
-- `str(text)` of batch/indexer_Position_Share.py does not.
abbrev pub convert : Bool → TypeText → Option TypeText
convert checks own_type = some own_type
convert checks other_type = some other_type
convert checks no_type = if checks then none else some no_type

module _ (checks : Bool) (w : Contracts) (db : Db) where
  abbrev pub read_exchange : Address → Option Address → Caches → Targets → Caches × Run Targets
  read_exchange token none c g = (c, raised)
  read_exchange token (some exchange) c g = (
    record c { tradable_exchange = store c.tradable_exchange token exchange },
    returned (add_target token exchange (next_block token exchange db) g),
  )

  abbrev pub add_exchange : Address → Option Address → Caches → Targets → Caches × Run Targets
  add_exchange token (some exchange) c g =
      (c, returned (add_target token exchange (next_block token exchange db) g))
  add_exchange token none c g = read_exchange token (w.tradable_exchange token) c g

  abbrev pub add_typed : Address → TypeText → Caches → Targets → Caches × Run Targets
  add_typed token own_type c g = add_exchange token (c.tradable_exchange token) c g
  add_typed token other_type c g = (c, returned g)
  add_typed token no_type c g = (c, returned g)

  abbrev pub convert_type : Address → Option TypeText → Caches → Targets → Caches × Run Targets
  convert_type token none c g = (c, raised)
  convert_type token (some ty) c g =
      add_typed token ty (record c { token_type = store c.token_type token ty }) g

  abbrev pub read_type : Address → Option TypeText → Caches → Targets → Caches × Run Targets
  read_type token none c g = (c, raised)
  read_type token (some text) c g = convert_type token (convert checks text) c g

  -- The body of the loop over the listed tokens.
  abbrev pub add_token : Address → Option TypeText → Caches → Targets → Caches × Run Targets
  add_token token (some ty) c g = add_typed token ty c g
  add_token token none c g = read_type token (w.get_token_by_address token) c g

  abbrev pub and_then :
      (Caches → Targets → Caches × Run Targets) → Caches × Run Targets → Caches × Run Targets
  and_then rest (c, returned g) = rest c g
  and_then rest (c, raised) = (c, raised)
  and_then rest (c, out_of_fuel) = (c, out_of_fuel)

  unfoldable pub add_tokens : List Address → Caches → Targets → Caches × Run Targets
  add_tokens [] c g = (c, returned g)
  add_tokens (token ∷ tokens) c g =
      and_then (add_tokens tokens) (add_token token (c.token_type token) c g)

abbrev pub no_targets : Targets
no_targets = record { token_list = []; exchange_list = [] }

-- `__get_contract_list`; `listed` are the tokens of the table `listing`, and `is_set` tells whether
-- `TOKEN_LIST_CONTRACT_ADDRESS` is set.
unfoldable pub get_contract_list :
    Bool → Bool → Contracts → List Address → Db → Caches → Caches × Run Targets
get_contract_list checks false w listed db c = (c, returned no_targets)
get_contract_list checks true w listed db c = add_tokens checks w db listed c no_targets

-- `Processor` between runs, with the tables that its sessions commit to.
pub record Processor : Type 0 where
  pub caches : Caches
  pub db : Db

-- The end of a run: `commit`, or `rollback` to what was committed before.
pub data Finished : Type 0 where
  completed failed : Finished

abbrev pub finish : Caches → Db → Outcome → Processor × Finished
finish c db (ended s) = (record { caches = c; db = (commit s).committed }, completed)
finish c db (raised_at s) = (record { caches = c; db = s.committed }, failed)
finish c db spent = (record { caches = c; db = db }, failed)

module _ (n : Node) (json : Messages) where
  -- The chunks up to the latest block, and the block numbers. Each chunk passes a million blocks, so
  -- the fuel is enough.
  unfoldable pub sync_to : Targets → Option ℕ → Session → Outcome
  sync_to g none s = raised_at s
  sync_to g (some latest) s =
      and_run
        (sync_chunks n json (suc latest) latest (999999 + get_oldest_cursor g.token_list latest) g
          s)
        (λ s. ended (write (set_block_numbers g.token_list latest) s))

  abbrev pub sync_listed : Contracts → Db → Caches × Run Targets → Processor × Finished
  sync_listed w db (c, returned g) =
      finish c db (sync_to g w.block_number (record { db = db; committed = db }))
  sync_listed w db (c, raised) = (record { caches = c; db = db }, failed)
  sync_listed w db (c, out_of_fuel) = (record { caches = c; db = db }, failed)

  -- `sync_new_logs`
  unfoldable pub sync_new_logs :
      Bool → Bool → Contracts → List Address → Processor → Processor × Finished
  sync_new_logs checks is_set w listed p =
      sync_listed w p.db (get_contract_list checks is_set w listed p.db p.caches)

  -- `initial_sync`, whose text is that of `sync_new_logs`.
  unfoldable pub initial_sync :
      Bool → Bool → Contracts → List Address → Processor → Processor × Finished
  unfolding sync_new_logs
  initial_sync checks is_set w listed p = sync_new_logs checks is_set w listed p
