-- ===== src/Position/Table/Stored.antt =====
-- What `__sink_on_position` of batch/indexer_Position_Bond.py stores, column by column.
use ibet_wallet_api.Base.{
  ℕ, ◌≡◌, ◌≢◌, refl, sym, ◌⊎◌, inl, inr, true, false, ◌&&◌, ◌==◌, Option, none, some, Bool-cases,
  arith, first_where, List, [], ◌∷◌, or_else, some_inj,
}
use mathlib.Core.Path.{subst}
use ibet_wallet_api.Chain.{Address}
use ibet_wallet_api.Position.Table.{
  Position, Db, Amounts, set_to, is_some, any_some, is_position, sink_on_position,
}
use ibet_wallet_api.Position.Table.Rows.{row_of, updated, sink_on_position-IsUpdate}

-- A column after a call: the amount that is given, and else what the column was.
abbrev pub IsColumn : Option ℕ → Option ℕ → Option ℕ → Type 0
IsColumn given before after =
    ((v : ℕ) → given ≡ some v → after ≡ some v) × (given ≡ none → after ≡ before)

-- No amount is given.
pub record GivesNone (u : Amounts) : Type 0 where
  pub balance : u.balance ≡ none
  pub pending_transfer : u.pending_transfer ≡ none
  pub exchange_balance : u.exchange_balance ≡ none
  pub exchange_commitment : u.exchange_commitment ≡ none

-- The row of the account, with its four amounts over those that were there.
pub record IsRow (token account : Address) (u : Amounts)
    (balance pending_transfer exchange_balance exchange_commitment : Option ℕ) (r : Position)
    : Type 0 where
  pub token_address : r.token_address ≡ token
  pub account_address : r.account_address ≡ account
  pub balance_column : IsColumn u.balance balance r.balance
  pub pending_transfer_column : IsColumn u.pending_transfer pending_transfer r.pending_transfer
  pub exchange_balance_column : IsColumn u.exchange_balance exchange_balance r.exchange_balance
  pub exchange_commitment_column :
      IsColumn u.exchange_commitment exchange_commitment r.exchange_commitment

-- The row before and after a call. A new row has zeros where no amount is given.
abbrev pub IsStored : Address → Address → Amounts → Option Position → Option Position → Type 0
IsStored token account u none none = GivesNone u
IsStored token account u none (some r) =
    (GivesNone u → ⊥) × IsRow token account u (some 0) (some 0) (some 0) (some 0) r
IsStored token account u (some q) none = ⊥
IsStored token account u (some q) (some r) =
    IsRow token account u q.balance q.pending_transfer q.exchange_balance q.exchange_commitment r

set_to-IsColumn : (given before : Option ℕ) → IsColumn given before (set_to given before)
set_to-IsColumn none before = (λ v e. cc, λ e. refl)
set_to-IsColumn (some w) before = (λ v e. e, λ e. cc)

or_else-IsColumn : (given : Option ℕ) → IsColumn given (some 0) (some (or_else given 0))
or_else-IsColumn none = (λ v e. cc, λ e. refl)
or_else-IsColumn (some w) = (λ v e. e, λ e. cc)

is_some-false : (o : Option ℕ) → is_some o ≡ false → o ≡ none
is_some-false none h = refl
is_some-false (some v) h = cc

any_some-false : (u : Amounts) → any_some u ≡ false → GivesNone u
any_some-false u h = record {
  balance = is_some-false u.balance (ground (arith, h));
  pending_transfer = is_some-false u.pending_transfer (ground (arith, h));
  exchange_balance = is_some-false u.exchange_balance (ground (arith, h));
  exchange_commitment = is_some-false u.exchange_commitment (ground (arith, h));
}

any_some-true : (u : Amounts) → any_some u ≡ true → GivesNone u → ⊥
any_some-true u h g =
    cc (rw (g.balance, g.pending_transfer, g.exchange_balance, g.exchange_commitment) at h)

updated-IsStored :
    (token account : Address) (u : Amounts) (o : Option Position)
    → ((q : Position) → o ≡ some q → is_position token account q ≡ true)
    → IsStored token account u o (updated token account u o)
updated-IsStored token account u none keyed = elim (Bool-cases (any_some u)) [
  | inl given ↦ rw given (
    any_some-true u given,
    record {
      token_address = refl;
      account_address = refl;
      balance_column = or_else-IsColumn u.balance;
      pending_transfer_column = or_else-IsColumn u.pending_transfer;
      exchange_balance_column = or_else-IsColumn u.exchange_balance;
      exchange_commitment_column = or_else-IsColumn u.exchange_commitment;
    },
  )
  | inr empty ↦ rw empty (any_some-false u empty)
]
updated-IsStored token account u (some q) keyed = record {
  token_address = ground (arith, keyed q refl);
  account_address = ground (arith, keyed q refl);
  balance_column = set_to-IsColumn u.balance q.balance;
  pending_transfer_column = set_to-IsColumn u.pending_transfer q.pending_transfer;
  exchange_balance_column = set_to-IsColumn u.exchange_balance q.exchange_balance;
  exchange_commitment_column = set_to-IsColumn u.exchange_commitment q.exchange_commitment;
}

-- Only a row of the account is found for it.
row_of-is_position :
    (token account : Address) (rows : List Position) (q : Position)
    → first_where (is_position token account) rows ≡ some q
    → is_position token account q ≡ true
unfolding first_where
row_of-is_position token account [] q e = cc
row_of-is_position token account (r ∷ rows) q e = elim (Bool-cases (is_position token account r)) [
  | inl here ↦ subst (λ x. is_position token account x ≡ true) (some_inj (rw here at e)) here
  | inr later ↦ row_of-is_position token account rows q (rw later at e)
]

-- What a call of the sink does to the tables.
pub record IsPut (token account : Address) (u : Amounts) (db db' : Db) : Type 0 where
  pub own : IsStored token account u (row_of token account db) (row_of token account db')
  pub others : (t a : Address) → (token ≢ t) ⊎ (account ≢ a) → row_of t a db' ≡ row_of t a db
  pub locked_position : db'.locked_position ≡ db.locked_position
  pub lock : db'.lock ≡ db.lock
  pub unlock : db'.unlock ≡ db.unlock
  pub block_number : db'.block_number ≡ db.block_number

-- After a call of the sink the row of its account of its token has, in each of the four columns, the
-- amount that is given; where none is given, what the column was, or zero if there was no row. A row
-- is added if there was none and an amount is given; a call without amounts adds none. The rows of
-- all other accounts and tokens, and the other tables, are as they were.
pub sink_on_position-IsPut :
    (token account : Address) (u : Amounts) (db : Db)
    → IsPut token account u db (sink_on_position token account u db)
sink_on_position-IsPut token account u db =
    let up = sink_on_position-IsUpdate token account u db in
    record {
      own = subst (IsStored token account u (row_of token account db)) (sym up.own) (
          updated-IsStored token account u (row_of token account db)
            (row_of-is_position token account db.position));
      others = λ t a d. up.others t a (apart t a d);
      locked_position = up.locked_position;
      lock = up.lock;
      unlock = up.unlock;
      block_number = up.block_number;
    }
  where
    apart : (t a : Address) → (token ≢ t) ⊎ (account ≢ a) → (token == t && account == a) ≡ false
    apart t a (inl d) = ground (arith, d)
    apart t a (inr d) = ground (arith, d)
