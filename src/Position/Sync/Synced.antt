-- ===== src/Position/Sync/Synced.antt =====
-- The accounts of the events of a pass are fresh after it, in batch/indexer_Position_Bond.py.
use ibet_wallet_api.Base.{sym, List, [], ◌∷◌, Option, none, some, All, All-imp}
use mathlib.Core.Path.{subst}
use ibet_wallet_api.Chain.{Address}
use ibet_wallet_api.Approval.Targets.{TargetToken}
use ibet_wallet_api.Position.Table.{sink_on_position}
use ibet_wallet_api.Position.Table.Rows.{row_of, sink_on_position-IsUpdate}
use ibet_wallet_api.Position.Session.{
  Session, Outcome, ended, for_loop, ask_for, write, commit, cons_answer, ask_all,
}
use ibet_wallet_api.Position.Session.Outcomes.{
  After, Done, After-Done, After-for_loop, Done-and_run, Done-both,
}
use ibet_wallet_api.Position.Node.{Node}
use ibet_wallet_api.Position.Sync.{
  Balance, sink_balances, get_account_balance_for_transfer, get_account_balance_token,
  sync_accounts, sync_chunk,
}
use ibet_wallet_api.Position.Sync.Closed.{Closed, Holds, AreTrue, sink_balances-Closed}
use ibet_wallet_api.Position.Sync.Fresh.{
  Fresh, FreshAt, FreshAt-Closed, IsRead, IsRead-IsTrue, token-IsRead, for_transfer-IsRead,
  updated-read,
}

module _ {n : Node} where
  pub Closed-All :
      {A : Type 0} (P : A → Session → Type 0)
      → ((x : A) → Closed n (P x))
      → (xs : List A) → Closed n (λ s. All (λ x. P x s) xs)
  Closed-All P c xs = record {
    position = λ t a u s true_. All-imp (λ x. (c x).position t a u s true_) xs;
    locked = λ t l a v s. All-imp (λ x. (c x).locked t l a v s) xs;
    lock = λ row s. All-imp (λ x. (c x).lock row s) xs;
    unlock = λ row s. All-imp (λ x. (c x).unlock row s) xs;
    commit = λ s. All-imp (λ x. (c x).commit s) xs;
  }

  pub Closed-if : {C : Type 0} {P : Session → Type 0} → Closed n P → Closed n (λ s. C → P s)
  Closed-if c = record {
    position = λ t a u s true_ h given. c.position t a u s true_ (h given);
    locked = λ t l a v s h given. c.locked t l a v s (h given);
    lock = λ row s h given. c.lock row s (h given);
    unlock = λ row s h given. c.unlock row s (h given);
    commit = λ s h given. c.commit s (h given);
  }

  pub Closed-some :
      {B : Type 0} (C : B → Type 0) (P : B → Session → Type 0)
      → ((b : B) → Closed n (P b))
      → Closed n (λ s. (b : B) × C b × P b s)
  Closed-some C P c = record {
    position = λ t a u s true_ h. (h.0, h.1, (c h.0).position t a u s true_ h.2);
    locked = λ t l a v s h. (h.0, h.1, (c h.0).locked t l a v s h.2);
    lock = λ row s h. (h.0, h.1, (c h.0).lock row s h.2);
    unlock = λ row s h. (h.0, h.1, (c h.0).unlock row s h.2);
    commit = λ s h. (h.0, h.1, (c h.0).commit s h.2);
  }

module _ (n : Node) where
  -- After the writes of the balances that were read for accounts, the accounts are fresh.
  reads-Fresh :
      (token : Address) (f : Address → Option Balance)
      → ((a : Address) → Holds (IsRead n token a) (f a))
      → (accounts : List Address)
      → Holds
          (λ bs.
            AreTrue n token bs
            × ((s : Session)
                → All (λ a. FreshAt n token a (write (sink_balances token bs) s)) accounts))
          (ask_all f accounts)
  reads-Fresh token f read [] = (tt, λ s. tt)
  reads-Fresh token f read (a ∷ accounts) =
      both (f a) (ask_all f accounts) (read a) (reads-Fresh token f read accounts)
    where
      first :
          (b : Balance)
          → IsRead n token a b
          → (s : Session)
          → FreshAt n token a (write (sink_on_position token b.account_address b.amounts) s)
      first b r s =
          let u = b.amounts in
          subst (λ x. FreshAt n token a (write (sink_on_position token x u) s)) (sym r.own)
            (subst (Fresh n token a) (sym (sink_on_position-IsUpdate token a u s.db).own) (
              updated-read n token a u r.v r.p (row_of token a s.db) r.balance r.pending_transfer
                r.balance_of r.pending_of))

      both :
          (o : Option Balance) (rest : Option (List Balance))
          → Holds (IsRead n token a) o
          → Holds
              (λ bs.
                AreTrue n token bs
                × ((s : Session)
                    → All (λ a. FreshAt n token a (write (sink_balances token bs) s)) accounts))
              rest
          → Holds
              (λ bs.
                AreTrue n token bs
                × ((s : Session)
                    → All
                        (λ a. FreshAt n token a (write (sink_balances token bs) s))
                        (a ∷ accounts)))
              (cons_answer o rest)
      both none rest r h = tt
      both (some b) none r h = tt
      both (some b) (some bs) r (true_, h) = (
        (IsRead-IsTrue n token a b r, true_),
        λ s.
            let mid = write (sink_on_position token b.account_address b.amounts) s in
            (
              sink_balances-Closed n (FreshAt-Closed n token a) token bs mid true_ (first b r s),
              h mid,
            ),
      )

  abbrev pub AreFresh : Address → List Address → Session → Type 0
  AreFresh token accounts s = All (λ a. FreshAt n token a s) accounts

  pub sync_accounts-Done :
      (token : Address) (accounts : List Address) (s : Session)
      → Done (AreFresh token accounts) (sync_accounts n token accounts s)
  unfolding sync_accounts
  sync_accounts-Done token accounts s =
      answered (ask_all (get_account_balance_token n token) accounts)
        (reads-Fresh token (get_account_balance_token n token) (token-IsRead n token) accounts)
    where
      answered :
          (o : Option (List Balance))
          → Holds
              (λ bs.
                AreTrue n token bs
                × ((s : Session)
                    → All (λ a. FreshAt n token a (write (sink_balances token bs) s)) accounts))
              o
          → Done
              (λ s. All (λ a. FreshAt n token a s) accounts)
              (ask_for o (λ balances s. ended (write (sink_balances token balances) s)) s)
      answered none h = tt
      answered (some bs) h = h.1 s

  pub sync_chunk-Done :
      (t : TargetToken) (accounts : List Address) (s : Session)
      → Done (AreFresh t.token_address accounts) (sync_chunk n t accounts s)
  unfolding sync_chunk
  sync_chunk-Done t accounts s =
      answered
        (ask_all (get_account_balance_for_transfer n t.token_address t.exchange_address) accounts)
        (reads-Fresh t.token_address
          (get_account_balance_for_transfer n t.token_address t.exchange_address)
          (for_transfer-IsRead n t.token_address t.exchange_address) accounts)
    where
      answered :
          (o : Option (List Balance))
          → Holds
              (λ bs.
                AreTrue n t.token_address bs
                × ((s : Session)
                    → All
                        (λ a.
                          FreshAt n t.token_address a (write (sink_balances t.token_address bs) s))
                        accounts))
              o
          → Done
              (λ s. All (λ a. FreshAt n t.token_address a s) accounts)
              (ask_for o
                (λ balances s. ended (commit (write (sink_balances t.token_address balances) s)))
                s)
      answered none h = tt
      answered (some bs) h = h.1 s

-- A loop: what each step brings and the later ones keep holds of all.
pub for_loop-Done :
    {A : Type 0} (R : A → Session → Type 0) (f : A → Session → Outcome)
    → ((x : A) (s : Session) → Done (R x) (f x s))
    → ((x y : A) (s : Session) → R x s → After (R x) (f y s))
    → (xs : List A) (s : Session) → Done (λ s. All (λ x. R x s) xs) (for_loop f xs s)
for_loop-Done R f own kept [] s = tt
for_loop-Done R f own kept (x ∷ xs) s =
    Done-and_run (R x) (λ s. All (λ y. R y s) (x ∷ xs)) (f x s) (for_loop f xs) (own x s)
      (λ s h.
        Done-both (R x) (λ s. All (λ y. R y s) xs) (for_loop f xs s)
          (After-Done (R x) (for_loop f xs s) (After-for_loop (R x) f (kept x) xs s h))
          (for_loop-Done R f own kept xs s))
