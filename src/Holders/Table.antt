-- ===== src/Holders/Table.antt =====
-- The tables `token_holders_list` and `token_holder` (app/model/db/tokenholders.py), and the
-- statements that batch/indexer_Token_Holders.py runs on them.
pub mod Rows
pub mod Deleted
pub mod Saved
use ibet_wallet_api.Base.{
  ℕ, Bool, ◌&&◌, ◌||◌, not, List, [], ◌∷◌, ◌++◌, map, Option, none, some, if◌then◌else◌, ◌==◌, ltb,
  leb, ℤ, pos, ltb_ℤ, eq_ℤ, each, select,
}
use ibet_wallet_api.Chain.{Address}
use ibet_wallet_api.Holders.Book.{Page, Book, store}

-- `TokenHolderBatchStatus`
pub data BatchStatus : Type 0 where
  pending done failed : BatchStatus

-- `TokenHoldersList`; `id` is the primary key.
pub record TokenHoldersList : Type 0 where
  pub id : ℕ
  pub token_address : Address
  pub block_number : ℕ
  pub list_id : ℕ
  pub batch_status : BatchStatus

-- `TokenHolder`; the primary key is (`holder_list`, `account_address`). Only this batch writes the
-- rows, and it leaves no balance NULL.
pub record TokenHolder : Type 0 where
  pub holder_list : ℕ
  pub account_address : Address
  pub hold_balance : ℤ
  pub locked_balance : ℤ

pub record Db : Type 0 where
  pub token_holders_list : List TokenHoldersList
  pub token_holder : List TokenHolder

-- `where(holder_list == id).where(account_address == account)`
abbrev pub is_row : ℕ → Address → TokenHolder → Bool
is_row id account r = r.holder_list == id && r.account_address == account

-- `select(TokenHolder).where(…).limit(1)` and `.first()`
unfoldable pub find_row : ℕ → Address → List TokenHolder → Option TokenHolder
find_row id account [] = none
find_row id account (r ∷ rows) = if is_row id account r then some r else find_row id account rows

-- Writes both balances of the row that `find_row` returns.
unfoldable pub update_row : ℕ → Page → List TokenHolder → List TokenHolder
update_row id page [] = []
update_row id page (r ∷ rows) =
    if is_row id page.account_address r
    then record r { hold_balance = page.hold_balance; locked_balance = page.locked_balance } ∷ rows
    else r ∷ update_row id page rows

abbrev pub is_positive : ℤ → Bool
is_positive a = ltb_ℤ (pos 0) a

-- The row that a page becomes.
abbrev pub row_of : ℕ → Page → TokenHolder
row_of id page = record {
  holder_list = id;
  account_address = page.account_address;
  hold_balance = page.hold_balance;
  locked_balance = page.locked_balance;
}

abbrev pub merge_page : ℕ → Page → Option TokenHolder → List TokenHolder → List TokenHolder
merge_page id page (some r) rows = update_row id page rows
merge_page id page none rows =
    if is_positive page.hold_balance || is_positive page.locked_balance
    then rows ++ (row_of id page ∷ [])
    else rows

-- The body of the loop of `__save_holders`: the owner is skipped.
unfoldable pub save_page : ℕ → Address → Page → List TokenHolder → List TokenHolder
unfolding update_row find_row
save_page id owner page rows =
    if page.account_address == owner
    then rows
    else merge_page id page (find_row id page.account_address rows) rows

-- `__save_holders`
unfoldable pub save_holders : ℕ → Address → Book → List TokenHolder → List TokenHolder
save_holders id owner = each (save_page id owner)

-- `delete(TokenHolder).where(holder_list == id).where(hold_balance == 0).where(locked_balance == 0)`
abbrev pub is_kept : ℕ → TokenHolder → Bool
is_kept id r =
    not (r.holder_list == id && (eq_ℤ r.hold_balance (pos 0) && eq_ℤ r.locked_balance (pos 0)))

unfoldable pub delete_non_holders : ℕ → List TokenHolder → List TokenHolder
delete_non_holders id = select (is_kept id)

abbrev pub is_pending : BatchStatus → Bool
is_pending pending = Bool.true
is_pending done = Bool.false
is_pending failed = Bool.false

abbrev pub is_done : BatchStatus → Bool
is_done pending = Bool.false
is_done done = Bool.true
is_done failed = Bool.false

abbrev pub first {ℓ} : {A : Type ℓ} → List A → Option A
first [] = none
first (x ∷ xs) = some x

-- `__load_target`
unfoldable pub load_target : Db → Option TokenHoldersList
load_target db = first (select (λ t. is_pending t.batch_status) db.token_holders_list)

abbrev pub later_of : TokenHoldersList → Option TokenHoldersList → Option TokenHoldersList
later_of t none = some t
later_of t (some u) = if leb u.block_number t.block_number then some t else some u

-- `order_by(block_number.desc()).limit(1)` and `.first()`
unfoldable pub latest : List TokenHoldersList → Option TokenHoldersList
latest [] = none
latest (t ∷ ts) = later_of t (latest ts)

abbrev pub is_checkpoint : Address → ℕ → TokenHoldersList → Bool
is_checkpoint token block_to t =
    t.token_address == token && (ltb t.block_number block_to && is_done t.batch_status)

-- The query of `__load_checkpoint`
unfoldable pub find_checkpoint : Address → ℕ → Db → Option TokenHoldersList
unfolding latest
find_checkpoint token block_to db =
    latest (select (is_checkpoint token block_to) db.token_holders_list)

-- Loads the rows of a checkpoint into the book.
unfoldable pub load_rows : ℕ → List TokenHolder → Book → Book
load_rows id rows =
    each (λ r. store r.account_address r.hold_balance r.locked_balance)
      (select (λ r. r.holder_list == id) rows)

-- `target.batch_status = status` and `merge(target)`
abbrev pub with_status : ℕ → BatchStatus → TokenHoldersList → TokenHoldersList
with_status id status t = if t.id == id then record t { batch_status = status } else t

unfoldable pub set_status : ℕ → BatchStatus → List TokenHoldersList → List TokenHoldersList
set_status id status = map (with_status id status)
