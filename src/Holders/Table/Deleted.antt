-- ===== src/Holders/Table/Deleted.antt =====
-- Rows of `token_holder` when the rows that hold nothing are deleted (`__update_status` of
-- batch/indexer_Token_Holders.py).
use ibet_wallet_api.Base.{
  ℕ, ◌≡◌, refl, sym, Bool, true, false, List, [], ◌∷◌, none, ◌==◌, pos, Bool-cases, inl, inr, arith,
  select, none_ne_some,
}
use ibet_wallet_api.Chain.{Address}
use ibet_wallet_api.Holders.Book.{Column, hold, locked}
use ibet_wallet_api.Holders.Table.{TokenHolder, is_row, find_row, is_kept, delete_non_holders}
use ibet_wallet_api.Holders.Table.Rows.{of_row, row_balance, HasPrimaryKey}

find_row-select :
    (keep : TokenHolder → Bool) (id : ℕ) (a : Address) (rows : List TokenHolder)
    → find_row id a rows ≡ none
    → find_row id a (select keep rows) ≡ none
unfolding find_row
find_row-select keep id a [] h = refl
find_row-select keep id a (r ∷ rows) h = elim (Bool-cases (is_row id a r)) [
  | inl here ↦ absurd (none_ne_some (sym (rw here at h)))
  | inr later ↦ elim (Bool-cases (keep r)) [
    | inl kept ↦ rw (kept, later) (find_row-select keep id a rows (rw later at h))
    | inr gone ↦ rw gone (find_row-select keep id a rows (rw later at h))
  ]
]

zero_row : (id : ℕ) (c : Column) (r : TokenHolder) → is_kept id r ≡ false → of_row c r ≡ pos 0
zero_row id hold r h = ground arith
zero_row id locked r h = ground arith

pub found_key :
    (id : ℕ) (a : Address) (r : TokenHolder) (rows : List TokenHolder)
    → is_row id a r ≡ true
    → find_row r.holder_list r.account_address rows ≡ none
    → find_row id a rows ≡ none
found_key id a r rows h e = ground arith

-- Deleting the rows that hold nothing changes no balance of any list.
pub row_balance-delete_non_holders :
    (id : ℕ) (c : Column) (id' : ℕ) (a : Address) (rows : List TokenHolder)
    → HasPrimaryKey rows
    → row_balance c id' a (delete_non_holders id rows) ≡ row_balance c id' a rows
unfolding find_row delete_non_holders
row_balance-delete_non_holders id c id' a [] h = refl
row_balance-delete_non_holders id c id' a (r ∷ rows) (new, h) = elim (Bool-cases (is_kept id r)) [
  | inl kept ↦ rw kept (elim (Bool-cases (is_row id' a r)) [
    | inl here ↦ rw here
    | inr later ↦ rw later (row_balance-delete_non_holders id c id' a rows h)
  ])
  | inr gone ↦ rw gone (elim (Bool-cases (is_row id' a r)) [
    | inl here ↦
        rw (here, find_row-select (is_kept id) id' a rows (found_key id' a r rows here new))
          (sym (zero_row id c r gone))
    | inr later ↦ rw later (row_balance-delete_non_holders id c id' a rows h)
  ])
]

pub find_row-delete_non_holders-none :
    (id id' : ℕ) (a : Address) (rows : List TokenHolder)
    → find_row id' a rows ≡ none
    → find_row id' a (delete_non_holders id rows) ≡ none
unfolding delete_non_holders
find_row-delete_non_holders-none id = find_row-select (is_kept id)

-- The rows of the other lists are kept.
pub find_row-delete_non_holders_ne :
    (id id' : ℕ) (a : Address) (rows : List TokenHolder)
    → (id == id') ≡ false
    → find_row id' a (delete_non_holders id rows) ≡ find_row id' a rows
unfolding find_row delete_non_holders
find_row-delete_non_holders_ne id id' a [] h = refl
find_row-delete_non_holders_ne id id' a (r ∷ rows) h = elim (Bool-cases (is_kept id r)) [
  | inl kept ↦ rw (kept, find_row-delete_non_holders_ne id id' a rows h)
  | inr gone ↦ rw (gone, foreign id id' a r gone h) (find_row-delete_non_holders_ne id id' a rows h)
]
  where
    foreign :
        (id id' : ℕ) (a : Address) (r : TokenHolder)
        → is_kept id r ≡ false
        → (id == id') ≡ false
        → is_row id' a r ≡ false
    foreign id id' a r gone h = ground arith

pub HasPrimaryKey-delete_non_holders :
    (id : ℕ) (rows : List TokenHolder)
    → HasPrimaryKey rows
    → HasPrimaryKey (delete_non_holders id rows)
unfolding delete_non_holders
HasPrimaryKey-delete_non_holders id [] h = tt
HasPrimaryKey-delete_non_holders id (r ∷ rows) (new, h) = elim (Bool-cases (is_kept id r)) [
  | inl kept ↦ rw kept (
    find_row-select (is_kept id) r.holder_list r.account_address rows new,
    HasPrimaryKey-delete_non_holders id rows h,
  )
  | inr gone ↦ rw gone (HasPrimaryKey-delete_non_holders id rows h)
]
