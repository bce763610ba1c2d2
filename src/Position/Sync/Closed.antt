-- ===== src/Position/Sync/Closed.antt =====
-- What every write of batch/indexer_Position_Bond.py keeps, its loops over tokens keep.
use ibet_wallet_api.Base.{
  ℕ, ◌≡◌, refl, sym, ◌⊎◌, inl, inr, List, [], ◌∷◌, each, Option, none, some, ltb, Run, returned,
  raised, out_of_fuel, Bool-cases, All, Ends,
}
use ibet_wallet_api.Chain.{Address, Log, Answer, events_of, Ends-events_of}
use ibet_wallet_api.Approval.Targets.{TargetToken}
use ibet_wallet_api.Position.Table.{
  Lock, Unlock, Amounts, sink_on_position, sink_on_locked_position, insert_lock, insert_unlock,
}
use ibet_wallet_api.Position.Session.{
  Session, Outcome, ended, swallow, ask_for, write, commit, cons_answer, ask_all,
}
use ibet_wallet_api.Position.Session.Outcomes.{After, After-and_run, After-for_loop, After-swallow}
use ibet_wallet_api.Position.Accounts.{remove_duplicates, chunked}
use ibet_wallet_api.Position.Node.{Node, TransferArgs}
use ibet_wallet_api.Position.Sync.{
  Balance, sink_balances, on_logs, with_events, for_tokens, exchange_balance_or_zero,
  three_balances, get_account_balance_for_transfer, two_balances, get_account_balance_token,
  sync_accounts, sync_events, sync_chunk, transfer_accounts, sync_transfer_events,
}
use ibet_wallet_api.Position.Sync.Locks.{
  LockEntry, LockEvent, mark, if_sent, update_locked, index_locks, sync_lock_events,
}

-- The amounts are none, or what the token's contract answers.
pub record IsTrue (n : Node) (token account : Address) (u : Amounts) : Type 0 where
  pub balance : (u.balance ≡ none) ⊎ (u.balance ≡ n.balance_of token account)
  pub pending_transfer :
      (u.pending_transfer ≡ none) ⊎ (u.pending_transfer ≡ n.pending_transfer token account)

-- A predicate that the writes keep, those of positions with true amounts.
pub record Closed (n : Node) (P : Session → Type 0) : Type 0 where
  pub position :
      (token account : Address) (u : Amounts) (s : Session)
      → IsTrue n token account u
      → P s
      → P (write (sink_on_position token account u) s)
  pub locked :
      (token lock_address account : Address) (value : ℕ) (s : Session)
      → P s
      → P (write (sink_on_locked_position token lock_address account value) s)
  pub lock : (row : Lock) (s : Session) → P s → P (write (insert_lock row) s)
  pub unlock : (row : Unlock) (s : Session) → P s → P (write (insert_unlock row) s)
  pub commit : (s : Session) → P s → P (commit s)

-- The amounts that were read are true.
abbrev pub AreTrue : Node → Address → List Balance → Type 0
AreTrue n token = All (λ b. IsTrue n token b.account_address b.amounts)

-- The answer, if there is one, is true.
abbrev pub Holds : {A : Type 0} → (A → Type 0) → Option A → Type 0
Holds P none = Unit {0}
Holds P (some a) = P a

pub Holds-ask_all :
    {A B : Type 0} (P : B → Type 0) (f : A → Option B)
    → ((x : A) → Holds P (f x))
    → (xs : List A) → Holds (All P) (ask_all f xs)
Holds-ask_all P f one [] = tt
Holds-ask_all P f one (x ∷ xs) = both (f x) (ask_all f xs) (one x) (Holds-ask_all P f one xs)
  where
    both :
        (o : Option _) (r : Option (List _))
        → Holds P o
        → Holds (All P) r
        → Holds (All P) (cons_answer o r)
    both none r h k = tt
    both (some b) none h k = tt
    both (some b) (some bs) h k = (h, k)

module _ (n : Node) where
  pub token-IsTrue :
      (token account : Address)
      → Holds
          (λ b. IsTrue n token b.account_address b.amounts)
          (get_account_balance_token n token account)
  unfolding get_account_balance_token
  token-IsTrue token account =
      answered (n.balance_of token account) (n.pending_transfer token account) refl refl
    where
      answered :
          (b p : Option ℕ)
          → n.balance_of token account ≡ b
          → n.pending_transfer token account ≡ p
          → Holds (λ x. IsTrue n token x.account_address x.amounts) (two_balances account b p)
      answered none p e f = tt
      answered (some b) none e f = tt
      answered (some b) (some p) e f = record {
        balance = inr (sym e);
        pending_transfer = inr (sym f);
      }

  pub for_transfer-IsTrue :
      (token exchange account : Address)
      → Holds
          (λ b. IsTrue n token b.account_address b.amounts)
          (get_account_balance_for_transfer n token exchange account)
  unfolding get_account_balance_for_transfer
  for_transfer-IsTrue token exchange account =
      answered (n.balance_of token account) (n.pending_transfer token account)
        (exchange_balance_or_zero n exchange token account) refl refl
    where
      answered :
          (b p x : Option ℕ)
          → n.balance_of token account ≡ b
          → n.pending_transfer token account ≡ p
          → Holds (λ x. IsTrue n token x.account_address x.amounts) (three_balances account b p x)
      answered none p x e f = tt
      answered (some b) none x e f = tt
      answered (some b) (some p) none e f = tt
      answered (some b) (some p) (some x) e f = record {
        balance = inr (sym e);
        pending_transfer = inr (sym f);
      }

  module _ {P : Session → Type 0} (closed : Closed n P) where
    pub sink_balances-Closed :
        (token : Address) (bs : List Balance) (s : Session)
        → AreTrue n token bs
        → P s
        → P (write (sink_balances token bs) s)
    sink_balances-Closed token [] s true_ h = h
    sink_balances-Closed token (b ∷ bs) s (first, rest) h =
        sink_balances-Closed token bs (write (sink_on_position token b.account_address b.amounts) s)
          rest (closed.position token b.account_address b.amounts s first h)

    pub sync_accounts-After :
        (token : Address) (accounts : List Address) (s : Session)
        → P s
        → After P (sync_accounts n token accounts s)
    unfolding sync_accounts
    sync_accounts-After token accounts s h =
        answered (ask_all (get_account_balance_token n token) accounts)
          (Holds-ask_all _ (get_account_balance_token n token) (token-IsTrue token) accounts)
      where
        answered :
            (o : Option (List Balance))
            → Holds (AreTrue n token) o
            → After P (ask_for o (λ balances s. ended (write (sink_balances token balances) s)) s)
        answered none k = h
        answered (some bs) k = sink_balances-Closed token bs s k h

    pub sync_chunk-After :
        (t : TargetToken) (accounts : List Address) (s : Session)
        → P s
        → After P (sync_chunk n t accounts s)
    unfolding sync_chunk
    sync_chunk-After t accounts s h =
        answered
          (ask_all (get_account_balance_for_transfer n t.token_address t.exchange_address) accounts)
          (Holds-ask_all _ (get_account_balance_for_transfer n t.token_address t.exchange_address)
            (for_transfer-IsTrue t.token_address t.exchange_address) accounts)
      where
        answered :
            (o : Option (List Balance))
            → Holds (AreTrue n t.token_address) o
            → After P (
                ask_for o
                  (λ balances s. ended (commit (write (sink_balances t.token_address balances) s)))
                  s)
        answered none k = h
        answered (some bs) k =
            closed.commit (write (sink_balances t.token_address bs) s)
              (sink_balances-Closed t.token_address bs s k h)

    pub sync_transfer_events-After :
        (t : TargetToken) (es : List (Log TransferArgs)) (s : Session)
        → P s
        → After P (sync_transfer_events n t es s)
    sync_transfer_events-After t es =
        After-for_loop P (sync_chunk n t) (sync_chunk-After t)
          (chunked 1000 (transfer_accounts t es))

    pub with_events-After :
        {A : Type 0} (to cursor : ℕ) (logs : Run (List (Log A)))
        (body : List (Log A) → Session → Outcome) (s : Session)
        → Ends logs
        → ((es : List (Log A)) → After P (body es s))
        → P s
        → After P (with_events to cursor logs body s)
    with_events-After {A} to cursor logs body s ends k h = elim (Bool-cases (ltb to cursor)) [
      | inl late ↦ rw late h
      | inr read ↦ rw read (answered logs ends)
    ]
      where
        answered : (m : Run (List (Log A))) → Ends m → After P (on_logs body s m)
        answered (returned es) e = k es
        answered raised e = h
        answered out_of_fuel e = absurd (e.ends refl)

    pub for_tokens-After :
        {A : Type 0} (get_logs : Address → ℕ → ℕ → Answer A)
        (body : TargetToken → List (Log A) → Session → Outcome)
        → ((t : TargetToken) (es : List (Log A)) (s : Session) → P s → After P (body t es s))
        → (ts : List TargetToken) (to : ℕ) (s : Session) → P s
        → After P (for_tokens get_logs body ts to s)
    for_tokens-After get_logs body one ts to =
        After-for_loop P
          (λ t. with_events to t.cursor (events_of (get_logs t.token_address t.cursor to)) (body t))
          (λ t s h.
            with_events-After to t.cursor (events_of (get_logs t.token_address t.cursor to))
              (body t) s (Ends-events_of (get_logs t.token_address t.cursor to))
              (λ es. one t es s h) h)
          ts

    pub update_locked-After :
        (token : Address) (m : List LockEntry) (s : Session)
        → P s
        → After P (update_locked n token m s)
    unfolding update_locked
    update_locked-After token = After-for_loop P _ λ m.
        After-for_loop P _
          (λ account s h. answered m account s h (n.locked_of token m.lock_address account))
          m.accounts
      where
        answered :
            (m : LockEntry) (account : Address) (s : Session)
            → P s
            → (o : Option ℕ)
            → After P (
                ask_for o
                  (λ value s.
                    ended (write (sink_on_locked_position token m.lock_address account value) s))
                  s)
        answered m account s h none = h
        answered m account s h (some value) = closed.locked token m.lock_address account value s h

    module _ {A : Type 0} (k : LockEvent A) (hash : A → ℕ)
        (inserts : (token : Address) (e : Log A) (created : ℕ) (sender : Address) (s : Session)
          → P s
          → P (write (k.insert token e created sender) s)) where
      pub index_locks-After :
          (token : Address) (es : List (Log A)) (m : List LockEntry) (s : Session)
          → P s
          → After P (index_locks n k hash token es m s)
      unfolding index_locks
      index_locks-After token [] m s h = update_locked-After token m s h
      index_locks-After token (e ∷ es) m s h =
          timed (n.timestamp e.block_number) (n.sender (hash e.args)) (λ s.
            index_locks-After token es (each (mark (k.lock_address e.args)) (k.accounts e.args) m)
              s)
        where
          rest : Session → Outcome
          rest =
              index_locks n k hash token es
                (each (mark (k.lock_address e.args)) (k.accounts e.args) m)

          timed :
              (t : Option ℕ) (o : Option (Option Address))
              → ((s : Session) → P s → After P (rest s))
              → After P (
                  ask_for t
                    (λ created.
                      ask_for o
                        (λ sender s. rest (write (if_sent sender (k.insert token e created)) s)))
                    s)
          timed none o r = h
          timed (some t) none r = h
          timed (some t) (some none) r = r s h
          timed (some t) (some (some x)) r =
              r (write (k.insert token e t x) s) (inserts token e t x s h)

      pub sync_lock_events-After :
          (keys : A → List Address) (t : TargetToken) (es : List (Log A)) (s : Session)
          → P s
          → After P (sync_lock_events n k hash keys t es s)
      sync_lock_events-After keys t es s h =
          After-and_run P (swallow (index_locks n k hash t.token_address es [] s))
            (sync_events n keys t es)
            (After-swallow P (index_locks n k hash t.token_address es [] s)
              (index_locks-After t.token_address es [] s h))
            (sync_accounts-After t.token_address (remove_duplicates keys es))
