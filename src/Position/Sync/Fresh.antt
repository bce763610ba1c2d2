-- ===== src/Position/Sync/Fresh.antt =====
-- Positions that hold what the token's contract answers, in batch/indexer_Position_Bond.py.
use ibet_wallet_api.Base.{
  ℕ, ◌≡◌, refl, sym, ap, ◌∙◌, ◌&&◌, Option, none, some, ◌==◌, first_where, Bool-cases, ◌⊎◌, inl,
  inr, arith,
}
use mathlib.Core.Path.{subst}
use ibet_wallet_api.Chain.{Address}
use ibet_wallet_api.Position.Table.{Position, Amounts, set_to, is_position, sink_on_position}
use ibet_wallet_api.Position.Table.Rows.{
  row_of, updated, sink_on_position-IsUpdate, sink_on_locked_position-position,
}
use ibet_wallet_api.Position.Session.{Session, write}
use ibet_wallet_api.Position.Node.{Node}
use ibet_wallet_api.Position.Sync.{
  Balance, exchange_balance_or_zero, three_balances, get_account_balance_for_transfer, two_balances,
  get_account_balance_token,
}
use ibet_wallet_api.Position.Sync.Closed.{IsTrue, Closed, Holds}

module _ (n : Node) where
  -- The row has the balance and the pending transfer that the contract of the token answers.
  abbrev pub Fresh : Address → Address → Option Position → Type 0
  Fresh token account none = ⊥
  Fresh token account (some r) =
      (r.balance ≡ n.balance_of token account)
      × (r.pending_transfer ≡ n.pending_transfer token account)

  abbrev pub FreshAt : Address → Address → Session → Type 0
  FreshAt token account s = Fresh token account (row_of token account s.db)

  set_to-true :
      (given column answer : Option ℕ)
      → (given ≡ none) ⊎ (given ≡ answer)
      → column ≡ answer
      → set_to given column ≡ answer
  set_to-true none column answer h k = k
  set_to-true (some v) column answer (inl e) k = cc
  set_to-true (some v) column answer (inr e) k = e

  updated-Fresh :
      (token account : Address) (u : Amounts) (o : Option Position)
      → IsTrue n token account u
      → Fresh token account o
      → Fresh token account (updated token account u o)
  updated-Fresh token account u none true_ h = absurd h
  updated-Fresh token account u (some r) true_ h = (
    set_to-true u.balance r.balance (n.balance_of token account) true_.balance h.0,
    set_to-true u.pending_transfer r.pending_transfer (n.pending_transfer token account)
        true_.pending_transfer h.1,
  )

  pub FreshAt-Closed : (t a : Address) → Closed n (FreshAt t a)
  FreshAt-Closed t a = record {
    position = λ token account u s true_ h. elim (Bool-cases (token == t && account == a)) [
      | inl own ↦
          let e : token ≡ t = ground (arith, own) in
          let f : account ≡ a = ground (arith, own) in at_own token account u s true_ e f h
      | inr other ↦
          subst (Fresh t a)
            (sym ((sink_on_position-IsUpdate token account u s.db).others t a other)) h
    ];
    locked = λ token lock_address account value s h.
        subst (λ rows. Fresh t a (first_where (is_position t a) rows))
          (sym (sink_on_locked_position-position token account s.db lock_address value)) h;
    lock = λ row s h. h;
    unlock = λ row s h. h;
    commit = λ s h. h;
  }
    where
      at_own :
          (token account : Address) (u : Amounts) (s : Session)
          → IsTrue n token account u
          → token ≡ t
          → account ≡ a
          → FreshAt t a s
          → FreshAt t a (write (sink_on_position token account u) s)
      at_own token account u s true_ e f h =
          let h' : Fresh token account (row_of token account s.db) =
            subst (λ x. Fresh x account (row_of x account s.db)) (sym e)
              (subst (λ y. Fresh t y (row_of t y s.db)) (sym f) h) in
          let k : Fresh token account
              (row_of token account (sink_on_position token account u s.db)) =
            subst (Fresh token account) (sym (sink_on_position-IsUpdate token account u s.db).own)
              (updated-Fresh token account u (row_of token account s.db) true_ h') in
          let after = sink_on_position token account u s.db in
          subst (λ y. Fresh t y (row_of t y after)) f
            (subst (λ x. Fresh x account (row_of x account after)) e k)

  -- Amounts that were read for an account: both are there, as the contract answers.
  pub record IsRead (token account : Address) (b : Balance) : Type 0 where
    pub own : b.account_address ≡ account
    pub v : ℕ
    pub p : ℕ
    pub balance : b.amounts.balance ≡ some v
    pub pending_transfer : b.amounts.pending_transfer ≡ some p
    pub balance_of : n.balance_of token account ≡ some v
    pub pending_of : n.pending_transfer token account ≡ some p

  pub token-IsRead :
      (token account : Address)
      → Holds (IsRead token account) (get_account_balance_token n token account)
  unfolding get_account_balance_token
  token-IsRead token account =
      answered (n.balance_of token account) (n.pending_transfer token account) refl refl
    where
      answered :
          (b p : Option ℕ)
          → n.balance_of token account ≡ b
          → n.pending_transfer token account ≡ p
          → Holds (IsRead token account) (two_balances account b p)
      answered none p e f = tt
      answered (some b) none e f = tt
      answered (some b) (some p) e f = record {
        own = refl;
        v = b;
        p = p;
        balance = refl;
        pending_transfer = refl;
        balance_of = e;
        pending_of = f;
      }

  pub for_transfer-IsRead :
      (token exchange account : Address)
      → Holds (IsRead token account) (get_account_balance_for_transfer n token exchange account)
  unfolding get_account_balance_for_transfer
  for_transfer-IsRead token exchange account =
      answered (n.balance_of token account) (n.pending_transfer token account)
        (exchange_balance_or_zero n exchange token account) refl refl
    where
      answered :
          (b p x : Option ℕ)
          → n.balance_of token account ≡ b
          → n.pending_transfer token account ≡ p
          → Holds (IsRead token account) (three_balances account b p x)
      answered none p x e f = tt
      answered (some b) none x e f = tt
      answered (some b) (some p) none e f = tt
      answered (some b) (some p) (some x) e f = record {
        own = refl;
        v = b;
        p = p;
        balance = refl;
        pending_transfer = refl;
        balance_of = e;
        pending_of = f;
      }

  pub IsRead-IsTrue :
      (token account : Address) (b : Balance)
      → IsRead token account b
      → IsTrue n token b.account_address b.amounts
  IsRead-IsTrue token account b r = record {
    balance = inr (r.balance ∙ sym r.balance_of ∙ ap (n.balance_of token) (sym r.own));
    pending_transfer =
        inr (r.pending_transfer ∙ sym r.pending_of ∙ ap (n.pending_transfer token) (sym r.own));
  }

  pub updated-read :
      (token account : Address) (u : Amounts) (v p : ℕ) (o : Option Position)
      → u.balance ≡ some v
      → u.pending_transfer ≡ some p
      → n.balance_of token account ≡ some v
      → n.pending_transfer token account ≡ some p
      → Fresh token account (updated token account u o)
  updated-read token account u v p none hb hp eb ep = rw (hb, hp) (sym eb, sym ep)
  updated-read token account u v p (some r) hb hp eb ep = rw (hb, hp) (sym eb, sym ep)
