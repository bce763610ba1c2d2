-- ===== src/Holders/Table/Saved.antt =====
-- `__save_holders` over a whole balance book, and the loading of a checkpoint's rows.
use ibet_wallet_api.Base.{
  ℕ, ◌≡◌, refl, sym, ◌∙◌, ap, Bool, true, false, ◌&&◌, ◌||◌, List, [], ◌∷◌, ◌==◌, ◌≤ℤ◌, pos, ◌+ℤ◌,
  +ℤ_zero, Bool-cases, inl, inr, arith, All, ==_refl, ==_iff,
}
use mathlib.Core.Path.{subst}
use ibet_wallet_api.Chain.{Address}
use ibet_wallet_api.Holders.Book.{
  Page, Book, Column, Move, hold, locked, of_page, balance, store, store_move, balance-store, share,
  post,
}
use ibet_wallet_api.Holders.Table.{
  TokenHolder, is_row, find_row, save_page, save_holders, load_rows,
}
use ibet_wallet_api.Holders.Table.Deleted.{found_key}
use ibet_wallet_api.Holders.Table.Rows.{
  row_balance, column_of, of_row, HasPrimaryKey, find_row-save_page_ne, row_balance-save_page,
  HasPrimaryKey-save_page,
}

-- The account has a page.
abbrev pub has_page : Address → Book → Bool
has_page a [] = false
has_page a (p ∷ ps) = p.account_address == a || has_page a ps

-- A dict has one page for an account.
abbrev pub IsDict : Book → Type 0
IsDict [] = Unit
IsDict (p ∷ ps) = (has_page p.account_address ps ≡ false) × IsDict ps

-- The pages of all accounts but the owner hold no negative balance.
abbrev pub IsNonNegative : Address → Page → Type 0
IsNonNegative owner p =
    (p.account_address == owner) ≡ false → (pos 0 ≤ℤ p.hold_balance) × (pos 0 ≤ℤ p.locked_balance)

has_page-store :
    (a : Address) (m : Move) (book : Book)
    → has_page a (store_move m book) ≡ (m.account == a || has_page a book)
unfolding store
has_page-store a m [] = refl
has_page-store a m (p ∷ ps) = ground (arith, has_page-store a m ps)

IsDict-store : (m : Move) (book : Book) → IsDict book → IsDict (store_move m book)
unfolding store
IsDict-store m [] h = (refl, tt)
IsDict-store m (p ∷ ps) (new, h) = elim (Bool-cases (p.account_address == m.account)) [
  | inl here ↦ rw here (new, h)
  | inr later ↦
      rw later (
        rw (has_page-store p.account_address m ps) (ground (arith, new, later)),
        IsDict-store m ps h,
      )
]

pub IsDict-post : (moves : List Move) (book : Book) → IsDict book → IsDict (post moves book)
IsDict-post [] book h = h
IsDict-post (m ∷ ms) book h = IsDict-post ms (store_move m book) (IsDict-store m book h)

-- An account that has a page keeps it.
pub has_page-post :
    (a : Address) (moves : List Move) (book : Book)
    → has_page a book ≡ true
    → has_page a (post moves book) ≡ true
has_page-post a [] book h = h
has_page-post a (m ∷ ms) book h =
    has_page-post a ms (store_move m book) (has_page-store a m book ∙ or_true (m.account == a) h)
  where
    or_true : (b : Bool) {c : Bool} → c ≡ true → (b || c) ≡ true
    or_true b e = ground arith

pub balance_no_page :
    (c : Column) (a : Address) (book : Book) → has_page a book ≡ false → balance c a book ≡ pos 0
balance_no_page c a [] h = refl
balance_no_page c a (p ∷ ps) h = ground (arith, balance_no_page c a ps)

same_page :
    (x a : Address) (ps : Book) → (x == a) ≡ true → has_page x ps ≡ false → has_page a ps ≡ false
same_page x a ps e n = rw ((==_iff x a).0 e) at n

-- A bound on the balance of every account but the owner is a bound on the pages.
pub All-IsNonNegative :
    (owner : Address) (book : Book)
    → IsDict book
    → ((c : Column) (a : Address) → (a == owner) ≡ false → pos 0 ≤ℤ balance c a book)
    → All (IsNonNegative owner) book
All-IsNonNegative owner [] d h = tt
All-IsNonNegative owner (p ∷ ps) (new, d) h = (
  λ e. (
    rw (==_refl p.account_address) at (h hold p.account_address e),
    rw (==_refl p.account_address) at (h locked p.account_address e),
  ),
  All-IsNonNegative owner ps d (λ c a e. elim (Bool-cases (p.account_address == a)) [
    | inl here ↦
        rw (balance_no_page c a ps (same_page p.account_address a ps here new)) (omega arith)
    | inr later ↦ rw later at (h c a e)
  ]),
)

no_page :
    (id : ℕ) (a : Address) (ps : Book) → has_page a ps ≡ false → (id == id && has_page a ps) ≡ false
no_page id a ps h = ground arith

module _ (id : ℕ) (owner : Address) where
  -- Saving writes only rows of this list, and only of accounts that have a page.
  pub find_row-save_holders_ne :
      (id' : ℕ) (a : Address) (book : Book) (rows : List TokenHolder)
      → (id == id' && has_page a book) ≡ false
      → find_row id' a (save_holders id owner book rows) ≡ find_row id' a rows
  unfolding save_holders
  find_row-save_holders_ne id' a [] rows h = refl
  find_row-save_holders_ne id' a (p ∷ ps) rows h =
      find_row-save_holders_ne id' a ps (save_page id owner p rows) (ground arith)
      ∙ find_row-save_page_ne id p id' a owner rows (ground arith)

  save_page-owner :
      (id' : ℕ) (p : Page) (rows : List TokenHolder)
      → (p.account_address == owner) ≡ true
      → find_row id' owner (save_page id owner p rows) ≡ find_row id' owner rows
  unfolding save_page
  save_page-owner id' p rows h = rw h

  -- The owner is never written.
  pub find_row-save_holders-owner :
      (id' : ℕ) (book : Book) (rows : List TokenHolder)
      → find_row id' owner (save_holders id owner book rows) ≡ find_row id' owner rows
  unfolding save_holders
  find_row-save_holders-owner id' [] rows = refl
  find_row-save_holders-owner id' (p ∷ ps) rows =
      find_row-save_holders-owner id' ps (save_page id owner p rows)
      ∙ elim (Bool-cases (p.account_address == owner)) [
        | inl mine ↦ save_page-owner id' p rows mine
        | inr other ↦ find_row-save_page_ne id p id' owner owner rows (ground arith)
      ]

  -- After saving, the list holds the balance of every account that has a page.
  pub row_balance-save_holders :
      (c : Column) (a : Address) (book : Book) (rows : List TokenHolder)
      → IsDict book
      → All (IsNonNegative owner) book
      → (a == owner) ≡ false
      → has_page a book ≡ true
      → row_balance c id a (save_holders id owner book rows) ≡ balance c a book
  unfolding save_holders
  row_balance-save_holders c a [] rows d h e q = cc
  row_balance-save_holders c a (p ∷ ps) rows (new, d) (hp, h) e q =
      elim (Bool-cases (p.account_address == a)) [
        | inl here ↦
            let same : p.account_address ≡ a = (==_iff p.account_address a).0 here in
            let other : (p.account_address == owner) ≡ false = rw same e in
            rw here (
              ap (column_of c) (
                find_row-save_holders_ne id a ps (save_page id owner p rows)
                  (no_page id a ps (same_page p.account_address a ps here new)))
              ∙ subst (λ x. row_balance c id x (save_page id owner p rows) ≡ of_page c p) same
                  (row_balance-save_page id p c owner rows other (hp other).0 (hp other).1))
        | inr later ↦
            rw later
              (row_balance-save_holders c a ps (save_page id owner p rows) d h e (rw later at q))
      ]

  pub HasPrimaryKey-save_holders :
      (book : Book) (rows : List TokenHolder)
      → HasPrimaryKey rows
      → HasPrimaryKey (save_holders id owner book rows)
  unfolding save_holders
  HasPrimaryKey-save_holders [] rows h = h
  HasPrimaryKey-save_holders (p ∷ ps) rows h =
      HasPrimaryKey-save_holders ps (save_page id owner p rows)
        (HasPrimaryKey-save_page id owner p rows h)

abbrev loaded : TokenHolder → Move
loaded r = record {
  account = r.account_address;
  amount = r.hold_balance;
  locked_amount = r.locked_balance;
}

share-loaded :
    (c : Column) (id : ℕ) (a : Address) (r : TokenHolder)
    → is_row id a r ≡ true
    → share c a (loaded r) ≡ of_row c r
share-loaded hold id a r h = ground arith
share-loaded locked id a r h = ground arith

share-loaded_ne :
    (c : Column) (id : ℕ) (a : Address) (r : TokenHolder)
    → (r.holder_list == id) ≡ true
    → is_row id a r ≡ false
    → share c a (loaded r) ≡ pos 0
share-loaded_ne hold id a r h e = ground arith
share-loaded_ne locked id a r h e = ground arith

row_list :
    (id : ℕ) (a : Address) (r : TokenHolder) → is_row id a r ≡ true → (r.holder_list == id) ≡ true
row_list id a r h = ground arith

-- Loading a list adds to every account the balance that the list holds for it.
pub balance-load_rows :
    (c : Column) (id : ℕ) (a : Address) (rows : List TokenHolder) (book : Book)
    → HasPrimaryKey rows
    → balance c a (load_rows id rows book) ≡ balance c a book +ℤ row_balance c id a rows
unfolding load_rows find_row
balance-load_rows c id a [] book h = sym (+ℤ_zero (balance c a book))
balance-load_rows c id a (r ∷ rows) book (new, h) = elim (Bool-cases (is_row id a r)) [
  | inl here ↦
      rw (here, row_list id a r here)
        (balance-load_rows c id a rows (store_move (loaded r) book) h
          ∙ rw
              (
                balance-store c a (loaded r) book,
                share-loaded c id a r here,
                found_key id a r rows here new,
              )
              (+ℤ_zero (balance c a book +ℤ of_row c r)))
  | inr later ↦ rw later (elim (Bool-cases (r.holder_list == id)) [
    | inl mine ↦ rw mine (
        balance-load_rows c id a rows (store_move (loaded r) book) h
        ∙ rw (
          balance-store c a (loaded r) book,
          share-loaded_ne c id a r mine later,
          +ℤ_zero (balance c a book),
        ))
    | inr other ↦ rw other (balance-load_rows c id a rows book h)
  ])
]

pub IsDict-load_rows :
    (id : ℕ) (rows : List TokenHolder) (book : Book) → IsDict book → IsDict (load_rows id rows book)
unfolding load_rows
IsDict-load_rows id [] book h = h
IsDict-load_rows id (r ∷ rows) book h = elim (Bool-cases (r.holder_list == id)) [
  | inl mine ↦
      rw mine
        (IsDict-load_rows id rows (store_move (loaded r) book) (IsDict-store (loaded r) book h))
  | inr other ↦ rw other (IsDict-load_rows id rows book h)
]
