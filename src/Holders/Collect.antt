-- ===== src/Holders/Collect.antt =====
-- `Processor.collect` of batch/indexer_Token_Holders.py. A session commits once: what it wrote
-- before an exception is rolled back. Rows and pages are values here: in the source a new row is
-- the page itself, which the next `__save_holders` writes again before anything is committed.
pub mod Tracks
pub mod Checkpoint
pub mod Exact
pub mod Outcomes
use ibet_wallet_api.Base.{
  ℕ, zero, suc, ◌+◌, Bool, true, false, List, [], Option, none, some, if◌then◌else◌, ltb, Run,
  returned, raised, out_of_fuel, ask, ◌>>=◌,
}
use ibet_wallet_api.Chain.{Address}
use ibet_wallet_api.Holders.Book.{Book}
use ibet_wallet_api.Holders.Events.{
  TokenType, ibet_coupon, ibet_membership, ibet_straight_bond, ibet_share, other, Node,
}
use ibet_wallet_api.Holders.Process.{TokenInfo, process_book}
use ibet_wallet_api.Holders.Table.{
  TokenHoldersList, TokenHolder, Db, done, failed, save_holders, delete_non_holders, load_target,
  find_checkpoint, load_rows, set_status,
}

-- The fields of `Processor`; `token` holds what `__load_token_info` found, `none` after a reset.
pub record Processor : Type 0 where
  pub target : Option TokenHoldersList
  pub balance_book : Book
  pub token : Option TokenInfo

-- `Processor()`, and what `__update_status` leaves.
abbrev pub fresh : Processor
fresh = record { target = none; balance_book = []; token = none }

-- A template for which there is a token contract.
abbrev pub is_supported : TokenType → Bool
is_supported ibet_coupon = true
is_supported ibet_membership = true
is_supported ibet_straight_bond = true
is_supported ibet_share = true
is_supported other = false

abbrev pub if_supported : Node → Address → TokenType × Address → Run (Option TokenInfo)
if_supported n token (template, owner) =
    if is_supported template
    then (ask (n.tradable_exchange token) >>= λ exchange. returned (
        some (record {
          tradable_exchange_address = exchange;
          token_owner_address = owner;
          token_template = template;
        })))
    else returned none

-- `__load_token_info`: `none` stands for its result `False`. The first argument is
-- `TOKEN_LIST_CONTRACT_ADDRESS`.
unfoldable pub load_token_info : Option Address → Node → Address → Run (Option TokenInfo)
load_token_info none n token = returned none
load_token_info (some list_contract) n token = ask (n.get_token token) >>= if_supported n token

abbrev pub checkpoint_book : Option TokenHoldersList → List TokenHolder → Book → ℕ × Book
checkpoint_book none rows book = (0, book)
checkpoint_book (some checkpoint) rows book =
    (checkpoint.block_number + 1, load_rows checkpoint.id rows book)

-- `__load_checkpoint`
unfoldable pub load_checkpoint : Address → ℕ → Db → Book → ℕ × Book
unfolding find_checkpoint load_rows
load_checkpoint token block_to db book =
    checkpoint_book (find_checkpoint token block_to db) db.token_holder book

-- The balance book and the table, as one session sees them.
pub record Session : Type 0 where
  pub balance_book : Book
  pub token_holder : List TokenHolder

module _ (n : Node) (info : TokenInfo) (target : TokenHoldersList) where
  -- `__process_all`
  unfoldable pub process_all : ℕ → ℕ → Session → Run Session
  unfolding save_holders
  process_all block_from block_to s =
      process_book n info target.token_address block_from block_to s.balance_book >>= λ book.
      returned (record {
        balance_book = book;
        token_holder = save_holders target.id info.token_owner_address book s.token_holder;
      })

  -- `while _to_block < _target_block: …` and the call after the loop.
  unfoldable pub process_chunks : ℕ → ℕ → ℕ → Session → Run Session
  process_chunks zero from_block to_block s = out_of_fuel
  process_chunks (suc fuel) from_block to_block s = elim (ltb to_block target.block_number) [
    | true ↦ process_all from_block to_block s >>= λ s'.
        process_chunks fuel (from_block + 1000000) (to_block + 1000000) s'
    | false ↦ process_all from_block target.block_number s
  ]

  -- The part of `collect` from `__load_checkpoint` to the last call of `__process_all`. The test
  -- before the loop is the test of the loop. Each round passes a block, so the fuel is enough.
  unfoldable pub gather : Db → Book → Run Session
  unfolding load_checkpoint
  gather db book =
      let (from_block, loaded) = load_checkpoint target.token_address target.block_number db book in
      process_chunks (suc target.block_number) from_block (999999 + from_block)
        (record { balance_book = loaded; token_holder = db.token_holder })

-- How a call of `collect` ends.
pub data Ended : Type 0 where
  no_pending not_listed completed reraised spent : Ended

-- `__update_status(FAILED)` on a session that has written nothing.
abbrev pub mark_failed : TokenHoldersList → Db → Db
mark_failed t db = record db { token_holders_list = set_status t.id failed db.token_holders_list }

-- `__update_status(DONE)`
abbrev pub mark_done : TokenHoldersList → Session → Db → Db
mark_done t s db = record {
  token_holders_list = set_status t.id done db.token_holders_list;
  token_holder = delete_non_holders t.id s.token_holder;
}

abbrev pub finish : TokenHoldersList → Db → Run Session → Processor × Db × Ended
finish t db (returned s) = (fresh, mark_done t s db, completed)
finish t db raised = (fresh, mark_failed t db, reraised)
finish t db out_of_fuel = (fresh, db, spent)

abbrev pub collect_listed :
    Node → TokenHoldersList → Book → Db → Run (Option TokenInfo) → Processor × Db × Ended
collect_listed n t book db (returned (some info)) = finish t db (gather n info t db book)
collect_listed n t book db (returned none) = (fresh, mark_failed t db, not_listed)
collect_listed n t book db raised = (fresh, mark_failed t db, reraised)
collect_listed n t book db out_of_fuel = (fresh, db, spent)

abbrev pub collect_target :
    Option Address → Node → Processor → Db → Option TokenHoldersList → Processor × Db × Ended
collect_target list_contract n p db none = (record p { target = none }, db, no_pending)
collect_target list_contract n p db (some t) =
    collect_listed n t p.balance_book db (load_token_info list_contract n t.token_address)

-- `collect`
unfoldable pub collect : Option Address → Node → Processor → Db → Processor × Db × Ended
unfolding load_target
collect list_contract n p db = collect_target list_contract n p db (load_target db)
