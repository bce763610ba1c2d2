-- ===== src/Position/Table/Rows.antt =====
-- `__sink_on_position` of batch/indexer_Position_Bond.py as an update of one row.
use ibet_wallet_api.Base.{
  ℕ, ◌≡◌, refl, ap, ◌∙◌, Bool, true, false, ◌&&◌, List, [], ◌∷◌, Option, none, some, if◌then◌else◌,
  ◌==◌, ==_refl, first_where, update_first, Bool-cases, inl, inr, some_inj, arith,
}
use ibet_wallet_api.Chain.{Address}
use ibet_wallet_api.Approval.Sink.Machine.{first_where-append, first_where-append-apart}
use ibet_wallet_api.Position.Table.{
  Position, LockedPosition, Db, is_position, Amounts, any_some, with_amounts, new_position,
  sink_found, sink_on_position, sink_on_locked_position, sink_locked_found, is_locked,
}

module _ {A : Type 0} where
  first_where-update_own :
      (p : A → Bool) (f : A → A) (x : A) (xs : List A)
      → ((y : A) → p y ≡ true → p (f y) ≡ true)
      → first_where p xs ≡ some x
      → first_where p (update_first p f xs) ≡ some (f x)
  unfolding first_where update_first
  first_where-update_own p f x [] keeps e = cc
  first_where-update_own p f x (y ∷ ys) keeps e = elim (Bool-cases (p y)) [
    | inl here ↦
        let same : y ≡ x = some_inj (rw here at e) in
        rw here (rw (keeps y here) (ap (λ z. some (f z)) same))
    | inr later ↦ rw later (rw later (first_where-update_own p f x ys keeps (rw later at e)))
  ]

  first_where-update_apart :
      (p q : A → Bool) (f : A → A) (xs : List A)
      → ((y : A) → p y ≡ true → (q y ≡ false) × (q (f y) ≡ false))
      → first_where q (update_first p f xs) ≡ first_where q xs
  unfolding first_where update_first
  first_where-update_apart p q f [] apart = refl
  first_where-update_apart p q f (y ∷ ys) apart = elim (Bool-cases (p y)) [
    | inl here ↦ rw here (rw ((apart y here).0, (apart y here).1) refl)
    | inr later ↦
        rw later (
          ap (λ (o : Option A). if q y then some y else o)
            (first_where-update_apart p q f ys apart))
  ]

-- The row of an account of a token.
abbrev pub row_of : Address → Address → Db → Option Position
row_of token account db = first_where (is_position token account) db.position

-- The row after a call: the given amounts over those of the row, or over zeros.
abbrev pub updated : Address → Address → Amounts → Option Position → Option Position
updated token account u none = if any_some u then some (new_position token account u) else none
updated token account u (some r) = some (with_amounts u r)

-- The row of one account of a token is updated, all else is as it was.
pub record IsUpdate (token account : Address) (u : Amounts) (db db' : Db) : Type 0 where
  pub own : row_of token account db' ≡ updated token account u (row_of token account db)
  pub others :
      (t a : Address) → (token == t && account == a) ≡ false → row_of t a db' ≡ row_of t a db
  pub locked_position : db'.locked_position ≡ db.locked_position
  pub lock : db'.lock ≡ db.lock
  pub unlock : db'.unlock ≡ db.unlock
  pub block_number : db'.block_number ≡ db.block_number

module _ (token account : Address) (u : Amounts) (db : Db) where
  apart :
      (t a : Address) (r : Position)
      → (token == t && account == a) ≡ false
      → is_position token account r ≡ true
      → is_position t a r ≡ false
  apart t a r d here = ground (arith, here, d)

  found-IsUpdate :
      (o : Option Position)
      → row_of token account db ≡ o
      → IsUpdate token account u db (sink_found token account u o db)
  found-IsUpdate none e = elim (Bool-cases (any_some u)) [
    | inl given ↦ rw given (record {
      own =
          first_where-append (is_position token account) db.position (new_position token account u)
            e
          ∙ rw (==_refl token, ==_refl account) (rw (e, given) refl);
      others = λ t a d. first_where-append-apart (is_position t a) db.position _ d;
      locked_position = refl;
      lock = refl;
      unlock = refl;
      block_number = refl;
    })
    | inr empty ↦ rw empty (record {
      own = rw (e, empty) refl;
      others = λ t a d. refl;
      locked_position = refl;
      lock = refl;
      unlock = refl;
      block_number = refl;
    })
  ]
  found-IsUpdate (some r) e = record {
    own =
        first_where-update_own (is_position token account) (with_amounts u) r db.position (λ y h. h)
          e
        ∙ rw e refl;
    others = λ t a d.
        first_where-update_apart (is_position token account) (is_position t a) (with_amounts u)
          db.position (λ y here. (apart t a y d here, apart t a y d here));
    locked_position = refl;
    lock = refl;
    unlock = refl;
    block_number = refl;
  }

  pub sink_on_position-IsUpdate : IsUpdate token account u db (sink_on_position token account u db)
  unfolding sink_on_position
  sink_on_position-IsUpdate = found-IsUpdate (row_of token account db) refl

module _ (token account : Address) (db : Db) where
  pub sink_on_locked_position-position :
      (lock_address : Address) (value : ℕ)
      → (sink_on_locked_position token lock_address account value db).position ≡ db.position
  unfolding sink_on_locked_position
  sink_on_locked_position-position lock_address value =
      by_row (first_where (is_locked token lock_address account) db.locked_position)
    where
      by_row :
          (o : Option LockedPosition)
          → (sink_locked_found token lock_address account value o db).position ≡ db.position
      by_row none = refl
      by_row (some r) = refl

  pub sink_on_locked_position-block_number :
      (lock_address : Address) (value : ℕ)
      → (sink_on_locked_position token lock_address account value db).block_number ≡ db.block_number
  unfolding sink_on_locked_position
  sink_on_locked_position-block_number lock_address value =
      by_row (first_where (is_locked token lock_address account) db.locked_position)
    where
      by_row :
          (o : Option LockedPosition)
          → (sink_locked_found token lock_address account value o db).block_number ≡ db.block_number
      by_row none = refl
      by_row (some r) = refl
