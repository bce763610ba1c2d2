-- ===== src/Holders/Table/Rows.antt =====
-- Rows of `token_holder` under the statements of `__save_holders`: which row each one writes.
use ibet_wallet_api.Base.{
  ℕ, ◌≡◌, refl, sym, ◌∙◌, ap, true, false, ◌||◌, List, [], ◌∷◌, ◌++◌, Option, none, some, ◌==◌,
  ◌≤ℤ◌, ℤ, pos, Bool-cases, inl, inr, arith, some_inj, none_ne_some,
}
use ibet_wallet_api.Chain.{Address}
use ibet_wallet_api.Holders.Book.{Page, Column, hold, locked, of_page}
use ibet_wallet_api.Holders.Table.{
  TokenHolder, is_row, find_row, update_row, row_of, merge_page, save_page, is_positive,
}

abbrev pub of_row : Column → TokenHolder → ℤ
of_row hold r = r.hold_balance
of_row locked r = r.locked_balance

abbrev pub column_of : Column → Option TokenHolder → ℤ
column_of c none = pos 0
column_of c (some r) = of_row c r

-- The balance that a list holds for an account, 0 where it has no row.
abbrev pub row_balance : Column → ℕ → Address → List TokenHolder → ℤ
row_balance c id a rows = column_of c (find_row id a rows)

-- (`holder_list`, `account_address`) is the primary key of the table.
abbrev pub HasPrimaryKey : List TokenHolder → Type 0
HasPrimaryKey [] = Unit
HasPrimaryKey (r ∷ rows) =
    (find_row r.holder_list r.account_address rows ≡ none) × HasPrimaryKey rows

-- What `update_row` writes over a row.
abbrev written : Page → TokenHolder → TokenHolder
written page r = record r { hold_balance = page.hold_balance; locked_balance = page.locked_balance }

is_row_same :
    (id id' : ℕ) (x a : Address) (r : TokenHolder) (page : Page)
    → page.account_address ≡ x
    → is_row id x r ≡ true
    → is_row id' a r ≡ is_row id' a (row_of id page)
is_row_same id id' x a r page e h = ground arith

is_row_apart :
    (id id' : ℕ) (a : Address) (r : TokenHolder) (page : Page)
    → is_row id page.account_address r ≡ false
    → is_row id' a r ≡ true
    → is_row id' a (row_of id page) ≡ false
is_row_apart id id' a r page h k = ground arith

module _ (id : ℕ) (page : Page) (id' : ℕ) (a : Address) where
  -- A row of another key is found as before.
  find_row-update_row_ne :
      (rows : List TokenHolder)
      → is_row id' a (row_of id page) ≡ false
      → find_row id' a (update_row id page rows) ≡ find_row id' a rows
  unfolding find_row update_row
  find_row-update_row_ne [] h = refl
  find_row-update_row_ne (r ∷ rows) h = elim (Bool-cases (is_row id page.account_address r)) [
    | inl here ↦
        let other : is_row id' a r ≡ false =
          is_row_same id id' page.account_address a r page refl here ∙ h in
        rw (here, other)
    | inr later ↦ rw (later, find_row-update_row_ne rows h)
  ]

  find_row-append_ne :
      (rows : List TokenHolder)
      → is_row id' a (row_of id page) ≡ false
      → find_row id' a (rows ++ (row_of id page ∷ [])) ≡ find_row id' a rows
  unfolding find_row
  find_row-append_ne [] h = rw h
  find_row-append_ne (r ∷ rows) h = rw (find_row-append_ne rows h)

  find_row-merge_page_ne :
      (o : Option TokenHolder) (rows : List TokenHolder)
      → is_row id' a (row_of id page) ≡ false
      → find_row id' a (merge_page id page o rows) ≡ find_row id' a rows
  find_row-merge_page_ne (some r) rows h = find_row-update_row_ne rows h
  find_row-merge_page_ne none rows h =
      elim (Bool-cases (is_positive page.hold_balance || is_positive page.locked_balance)) [
        | inl new ↦ rw new (find_row-append_ne rows h)
        | inr old ↦ rw old
      ]

  -- Saving a page leaves the rows of every other key alone.
  pub find_row-save_page_ne :
      (owner : Address) (rows : List TokenHolder)
      → is_row id' a (row_of id page) ≡ false
      → find_row id' a (save_page id owner page rows) ≡ find_row id' a rows
  unfolding save_page
  find_row-save_page_ne owner rows h = elim (Bool-cases (page.account_address == owner)) [
    | inl skipped ↦ rw skipped
    | inr saved ↦ rw saved (find_row-merge_page_ne (find_row id page.account_address rows) rows h)
  ]

is_row_self : (id : ℕ) (page : Page) → is_row id page.account_address (row_of id page) ≡ true
is_row_self id page = ground arith

module _ (id : ℕ) (page : Page) where
  find_row-update_row :
      (rows : List TokenHolder) {r : TokenHolder}
      → find_row id page.account_address rows ≡ some r
      → find_row id page.account_address (update_row id page rows) ≡ some (written page r)
  unfolding find_row update_row
  find_row-update_row [] h = cc
  find_row-update_row (q ∷ rows) {r} h = elim (Bool-cases (is_row id page.account_address q)) [
    | inl here ↦ rw (here, here) (ap (λ t. some (written page t)) (some_inj (rw here at h)))
    | inr later ↦ rw (later, later) (find_row-update_row rows (rw later at h))
  ]

  find_row-append_self :
      (rows : List TokenHolder)
      → find_row id page.account_address rows ≡ none
      → find_row id page.account_address (rows ++ (row_of id page ∷ [])) ≡ some (row_of id page)
  unfolding find_row
  find_row-append_self [] h = rw (is_row_self id page)
  find_row-append_self (q ∷ rows) h = elim (Bool-cases (is_row id page.account_address q)) [
    | inl here ↦ cc (rw here at h)
    | inr later ↦ rw later (find_row-append_self rows (rw later at h))
  ]

  of_written : (c : Column) (r : TokenHolder) → of_row c (written page r) ≡ of_page c page
  of_written hold r = refl
  of_written locked r = refl

  of_row_of : (c : Column) → of_row c (row_of id page) ≡ of_page c page
  of_row_of hold = refl
  of_row_of locked = refl

  zero_of_page :
      (c : Column)
      → pos 0 ≤ℤ page.hold_balance
      → pos 0 ≤ℤ page.locked_balance
      → (is_positive page.hold_balance || is_positive page.locked_balance) ≡ false
      → pos 0 ≡ of_page c page
  zero_of_page hold h k e = ground arith
  zero_of_page locked h k e = ground arith

  row_balance-merge_page :
      (c : Column) (rows : List TokenHolder) (o : Option TokenHolder)
      → find_row id page.account_address rows ≡ o
      → pos 0 ≤ℤ page.hold_balance
      → pos 0 ≤ℤ page.locked_balance
      → row_balance c id page.account_address (merge_page id page o rows) ≡ of_page c page
  row_balance-merge_page c rows (some r) e h k = rw (find_row-update_row rows e) (of_written c r)
  row_balance-merge_page c rows none e h k =
      elim (Bool-cases (is_positive page.hold_balance || is_positive page.locked_balance)) [
        | inl new ↦ rw (new, find_row-append_self rows e) (of_row_of c)
        | inr old ↦ rw (old, e) (zero_of_page c h k old)
      ]

  -- A page of another account than the owner, with no negative balance, is what the list holds
  -- once it is saved.
  pub row_balance-save_page :
      (c : Column) (owner : Address) (rows : List TokenHolder)
      → (page.account_address == owner) ≡ false
      → pos 0 ≤ℤ page.hold_balance
      → pos 0 ≤ℤ page.locked_balance
      → row_balance c id page.account_address (save_page id owner page rows) ≡ of_page c page
  unfolding save_page
  row_balance-save_page c owner rows e h k =
      rw e (row_balance-merge_page c rows (find_row id page.account_address rows) refl h k)

is_row_flip :
    (id : ℕ) (r : TokenHolder) (page : Page)
    → is_row id page.account_address r ≡ false
    → is_row r.holder_list r.account_address (row_of id page) ≡ false
is_row_flip id r page h = ground arith

-- The primary key is kept by every page that is saved.
HasPrimaryKey-update_row :
    (id : ℕ) (page : Page) (rows : List TokenHolder)
    → HasPrimaryKey rows
    → HasPrimaryKey (update_row id page rows)
unfolding update_row
HasPrimaryKey-update_row id page [] h = tt
HasPrimaryKey-update_row id page (r ∷ rows) (new, h) =
    elim (Bool-cases (is_row id page.account_address r)) [
      | inl here ↦ rw here (new, h)
      | inr later ↦ rw later (
        find_row-update_row_ne id page r.holder_list r.account_address rows
              (is_row_flip id r page later)
            ∙ new,
        HasPrimaryKey-update_row id page rows h,
      )
    ]

HasPrimaryKey-append :
    (id : ℕ) (page : Page) (rows : List TokenHolder)
    → find_row id page.account_address rows ≡ none
    → HasPrimaryKey rows
    → HasPrimaryKey (rows ++ (row_of id page ∷ []))
unfolding find_row
HasPrimaryKey-append id page [] e h = (refl, tt)
HasPrimaryKey-append id page (r ∷ rows) e (new, h) =
    elim (Bool-cases (is_row id page.account_address r)) [
      | inl here ↦ absurd (none_ne_some (sym (rw here at e)))
      | inr later ↦ (
        find_row-append_ne id page r.holder_list r.account_address rows
              (is_row_flip id r page later)
            ∙ new,
        HasPrimaryKey-append id page rows (rw later at e) h,
      )
    ]

HasPrimaryKey-merge_page :
    (id : ℕ) (page : Page) (rows : List TokenHolder) (o : Option TokenHolder)
    → find_row id page.account_address rows ≡ o
    → HasPrimaryKey rows
    → HasPrimaryKey (merge_page id page o rows)
HasPrimaryKey-merge_page id page rows (some r) e h = HasPrimaryKey-update_row id page rows h
HasPrimaryKey-merge_page id page rows none e h =
    elim (Bool-cases (is_positive page.hold_balance || is_positive page.locked_balance)) [
      | inl new ↦ rw new (HasPrimaryKey-append id page rows e h)
      | inr old ↦ rw old h
    ]

pub HasPrimaryKey-save_page :
    (id : ℕ) (owner : Address) (page : Page) (rows : List TokenHolder)
    → HasPrimaryKey rows
    → HasPrimaryKey (save_page id owner page rows)
unfolding save_page
HasPrimaryKey-save_page id owner page rows h = elim (Bool-cases (page.account_address == owner)) [
  | inl skipped ↦ rw skipped h
  | inr saved ↦
      rw saved
        (HasPrimaryKey-merge_page id page rows (find_row id page.account_address rows) refl h)
]
