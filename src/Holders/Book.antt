-- ===== src/Holders/Book.antt =====
-- `Processor.BalanceBook`: a dict from accounts to pages, in insertion order.
use ibet_wallet_api.Base.{
  ℕ, ◌≡◌, refl, true, false, List, [], ◌∷◌, arith, ◌==◌, if◌then◌else◌, ℤ, pos, ◌+ℤ◌, +ℤ_zero,
  +ℤ_assoc, each, Bool-cases, inl, inr, sym,
}
use ibet_wallet_api.Chain.{Address, total}

-- The fields of `TokenHolder` that the book fills.
pub record Page : Type 0 where
  pub account_address : Address
  pub hold_balance : ℤ
  pub locked_balance : ℤ

abbrev pub Book : Type 0
Book = List Page

-- `BalanceBook.store(account_address, amount, locked)`
unfoldable pub store : Address → ℤ → ℤ → Book → Book
store account amount locked [] =
    record {
      account_address = account;
      hold_balance = pos 0 +ℤ amount;
      locked_balance = pos 0 +ℤ locked;
    }
    ∷ []
store account amount locked (p ∷ ps) =
    if p.account_address == account
    then record p {
      hold_balance = p.hold_balance +ℤ amount;
      locked_balance = p.locked_balance +ℤ locked;
    }
      ∷ ps
    else p ∷ store account amount locked ps

-- The two balances of a page.
pub data Column : Type 0 where
  hold locked : Column

abbrev pub of_page : Column → Page → ℤ
of_page hold p = p.hold_balance
of_page locked p = p.locked_balance

-- One posting: what `store` adds to an account.
pub record Move : Type 0 where
  pub account : Address
  pub amount : ℤ
  pub locked_amount : ℤ

abbrev pub of_move : Column → Move → ℤ
of_move hold m = m.amount
of_move locked m = m.locked_amount

-- The balance of an account, 0 where the book has no page.
abbrev pub balance : Column → Address → Book → ℤ
balance c a [] = pos 0
balance c a (p ∷ ps) = if p.account_address == a then of_page c p else balance c a ps

-- What a posting adds to one account.
abbrev pub share : Column → Address → Move → ℤ
share c a m = if m.account == a then of_move c m else pos 0

abbrev pub store_move : Move → Book → Book
store_move m = store m.account m.amount m.locked_amount

-- The book after a list of postings.
abbrev pub post : List Move → Book → Book
post = each store_move

-- The page that `store` writes has both balances raised.
of_page-raise :
    (c : Column) (p : Page) (m : Move)
    → of_page c (record p {
      hold_balance = p.hold_balance +ℤ m.amount;
      locked_balance = p.locked_balance +ℤ m.locked_amount;
    })
      ≡ of_page c p +ℤ of_move c m
of_page-raise hold p m = refl
of_page-raise locked p m = refl

of_page-fresh :
    (c : Column) (m : Move)
    → of_page c (record {
      account_address = m.account;
      hold_balance = pos 0 +ℤ m.amount;
      locked_balance = pos 0 +ℤ m.locked_amount;
    })
      ≡ pos 0 +ℤ of_move c m
of_page-fresh hold m = refl
of_page-fresh locked m = refl

-- Two tests against one account agree where the accounts are equal.
test_same : (x y a : ℕ) → (x == y) ≡ true → (x == a) ≡ (y == a)
test_same x y a h = ground arith

test_apart : (x y a : ℕ) → (x == y) ≡ false → (x == a) ≡ true → (y == a) ≡ false
test_apart x y a h k = ground arith

pub balance-store :
    (c : Column) (a : Address) (m : Move) (book : Book)
    → balance c a (store_move m book) ≡ balance c a book +ℤ share c a m
unfolding store
balance-store c a m [] = elim (Bool-cases (m.account == a)) [
  | inl same ↦ rw same (of_page-fresh c m)
  | inr apart ↦ rw apart (sym (+ℤ_zero (pos 0)))
]
balance-store c a m (p ∷ ps) = elim (Bool-cases (p.account_address == m.account)) [
  | inl here ↦
      rw (here, test_same p.account_address m.account a here)
        (elim (Bool-cases (m.account == a)) [
          | inl same ↦ rw same (of_page-raise c p m)
          | inr apart ↦ rw apart (sym (+ℤ_zero (balance c a ps)))
        ])
  | inr later ↦ rw later (elim (Bool-cases (p.account_address == a)) [
    | inl same ↦
        rw (same, test_apart p.account_address m.account a later same) (sym (+ℤ_zero (of_page c p)))
    | inr apart ↦ rw apart (balance-store c a m ps)
  ])
]

-- After any postings an account has what it had and the sum of its shares.
pub balance-post :
    (c : Column) (a : Address) (moves : List Move) (book : Book)
    → balance c a (post moves book) ≡ balance c a book +ℤ total (share c a) moves
balance-post c a [] book = sym (+ℤ_zero (balance c a book))
balance-post c a (m ∷ ms) book =
    rw (balance-post c a ms (store_move m book), balance-store c a m book)
      (+ℤ_assoc (balance c a book) (share c a m) (total (share c a) ms))
