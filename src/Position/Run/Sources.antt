-- ===== src/Position/Run/Sources.antt =====
-- The loops over tokens of batch/indexer_Position_Bond.py: the accounts of their events are fresh.
use ibet_wallet_api.Base.{
  ℕ, ◌≡◌, refl, true, false, not, List, [], ◌∷◌, ◌==◌, ltb, Bool-cases, inl, inr, All, All-append,
  All-select, Run, returned, raised, out_of_fuel,
}
use mathlib.Core.Path.{subst}
use ibet_wallet_api.Chain.{Address, zero_address, Log, Answer, events_of, Ends-events_of}
use ibet_wallet_api.Approval.Targets.{TargetToken}
use ibet_wallet_api.Position.Session.{Session, Outcome, ended, raised_at, spent, swallow}
use ibet_wallet_api.Position.Session.Outcomes.{After, Done, Done-and_run, Done-imp}
use ibet_wallet_api.Position.Accounts.{remove_duplicates, chunked}
use ibet_wallet_api.Position.Accounts.Exact.{EventsSatisfy, remove_duplicates-IsExact}
use ibet_wallet_api.Position.Accounts.Chunks.{concat, chunked-IsSplit}
use ibet_wallet_api.Position.Node.{Node, TransferArgs}
use ibet_wallet_api.Position.Sync.{
  on_logs, with_events, for_tokens, sync_events, sync_chunk, transfer_keys, transfer_accounts,
  sync_transfer_events,
}
use ibet_wallet_api.Position.Sync.Locks.{LockEvent, index_locks, sync_lock_events}
use ibet_wallet_api.Position.Sync.Closed.{Closed, sync_chunk-After, with_events-After}
use ibet_wallet_api.Position.Sync.Fresh.{FreshAt, FreshAt-Closed}
use ibet_wallet_api.Position.Sync.Synced.{
  Closed-All, Closed-if, Closed-some, AreFresh, sync_accounts-Done, sync_chunk-Done, for_loop-Done,
}

-- The node answers the range of a token whose cursor is not behind it, and the accounts of the
-- events, but for the zero address, satisfy the predicate.
abbrev pub SourceSaid :
    {A : Type 0}
    → (TargetToken → Address → Session → Type 0)
    → (A → List Address)
    → (Address → ℕ → ℕ → Answer A)
    → ℕ
    → TargetToken
    → Session
    → Type 0
SourceSaid {A} Q keys get_logs to t s =
    ltb to t.cursor ≡ false
    → (es : List (Log A)) × (events_of (get_logs t.token_address t.cursor to) ≡ returned es)
      × EventsSatisfy (λ a. Q t a s) keys es

module _ (n : Node) where
  pub SourceSaid-Closed :
      {A : Type 0} (Q : TargetToken → Address → Session → Type 0)
      → ((t : TargetToken) (a : Address) → Closed n (Q t a))
      → (keys : A → List Address) (get_logs : Address → ℕ → ℕ → Answer A) (to : ℕ) (t : TargetToken)
      → Closed n (SourceSaid Q keys get_logs to t)
  SourceSaid-Closed Q c keys get_logs to t = Closed-if (
      Closed-some (λ es. events_of (get_logs t.token_address t.cursor to) ≡ returned es)
        (λ es s. EventsSatisfy (λ a. Q t a s) keys es)
        (λ es.
          Closed-All (λ e s. All (λ a. not (a == zero_address) ≡ true → Q t a s) (keys e.args))
            (λ e.
              Closed-All (λ a s. not (a == zero_address) ≡ true → Q t a s) (λ a. Closed-if (c t a))
                (keys e.args))
            es))

  pub for_tokens-Done :
      {A : Type 0} (Q : TargetToken → Address → Session → Type 0)
      → ((t : TargetToken) (a : Address) → Closed n (Q t a))
      → (keys : A → List Address) (get_logs : Address → ℕ → ℕ → Answer A)
        (body : TargetToken → List (Log A) → Session → Outcome)
      → ((t : TargetToken) (es : List (Log A)) (s : Session)
          → Done (λ s. EventsSatisfy (λ a. Q t a s) keys es) (body t es s))
      → ((P : Session → Type 0)
          → Closed n P
          → (t : TargetToken) (es : List (Log A)) (s : Session) → P s
          → After P (body t es s))
      → (ts : List TargetToken) (to : ℕ) (s : Session)
      → Done
          (λ s. All (λ t. SourceSaid Q keys get_logs to t s) ts)
          (for_tokens get_logs body ts to s)
  for_tokens-Done {A} Q c keys get_logs body own kept ts to =
      for_loop-Done (SourceSaid Q keys get_logs to)
        (λ t. with_events to t.cursor (events_of (get_logs t.token_address t.cursor to)) (body t))
        (λ t s. source t s (events_of (get_logs t.token_address t.cursor to)) refl)
        (λ t u s h.
          let closed = SourceSaid-Closed Q c keys get_logs to t in
          with_events-After n closed to u.cursor (events_of (get_logs u.token_address u.cursor to))
            (body u) s (Ends-events_of (get_logs u.token_address u.cursor to))
            (λ es. kept (SourceSaid Q keys get_logs to t) closed u es s h) h)
        ts
    where
      source :
          (t : TargetToken) (s : Session) (logs : Run (List (Log A)))
          → events_of (get_logs t.token_address t.cursor to) ≡ logs
          → Done (SourceSaid Q keys get_logs to t) (with_events to t.cursor logs (body t) s)
      source t s logs e = elim (Bool-cases (ltb to t.cursor)) [
        | inl late ↦ rw late (λ now. cc)
        | inr now ↦ rw now (answered logs e)
      ]
        where
          answered :
              (m : Run (List (Log A)))
              → events_of (get_logs t.token_address t.cursor to) ≡ m
              → Done (SourceSaid Q keys get_logs to t) (on_logs (body t) s m)
          answered (returned es) e =
              Done-imp (λ s. EventsSatisfy (λ a. Q t a s) keys es) (SourceSaid Q keys get_logs to t)
                (body t es s) (λ s h now. (es, e, h)) (own t es s)
          answered raised e = tt
          answered out_of_fuel e = tt

  pub sync_events-Done :
      {A : Type 0} (keys : A → List Address) (t : TargetToken) (es : List (Log A)) (s : Session)
      → Done
          (λ s. EventsSatisfy (λ a. FreshAt n t.token_address a s) keys es)
          (sync_events n keys t es s)
  sync_events-Done keys t es s =
      Done-imp (AreFresh n t.token_address (remove_duplicates keys es))
        (λ s. EventsSatisfy (λ a. FreshAt n t.token_address a s) keys es)
        (sync_events n keys t es s)
        (λ s. ((remove_duplicates-IsExact keys es).1 (λ a. FreshAt n t.token_address a s)).0)
        (sync_accounts-Done n t.token_address (remove_duplicates keys es) s)

  Done-any : (m : Outcome) → Done (λ s. Unit {0}) m
  Done-any (ended s) = tt
  Done-any (raised_at s) = tt
  Done-any spent = tt

  pub sync_lock_events-Done :
      {A : Type 0} (k : LockEvent A) (hash : A → ℕ) (keys : A → List Address) (t : TargetToken)
      (es : List (Log A)) (s : Session)
      → Done
          (λ s. EventsSatisfy (λ a. FreshAt n t.token_address a s) keys es)
          (sync_lock_events n k hash keys t es s)
  sync_lock_events-Done k hash keys t es s =
      Done-and_run (λ s. Unit {0}) (λ s. EventsSatisfy (λ a. FreshAt n t.token_address a s) keys es)
        (swallow (index_locks n k hash t.token_address es [] s)) (sync_events n keys t es)
        (Done-any (swallow (index_locks n k hash t.token_address es [] s)))
        (λ s h. sync_events-Done keys t es s)

  -- Transfers pass over the exchange of the token.
  abbrev pub FreshUnlessExchange : TargetToken → Address → Session → Type 0
  FreshUnlessExchange t a s = not (a == t.exchange_address) ≡ true → FreshAt n t.token_address a s

  All-concat :
      (Q : Address → Type 0) (xss : List (List Address)) → All (All Q) xss → All Q (concat xss)
  All-concat Q [] h = tt
  All-concat Q (xs ∷ xss) (h, hs) = All-append Q xs (concat xss) h (All-concat Q xss hs)

  pub sync_transfer_events-Done :
      (t : TargetToken) (es : List (Log TransferArgs)) (s : Session)
      → Done
          (λ s. EventsSatisfy (λ a. FreshUnlessExchange t a s) transfer_keys es)
          (sync_transfer_events n t es s)
  unfolding transfer_accounts
  sync_transfer_events-Done t es s =
      Done-imp
        (λ s. All (λ c. AreFresh n t.token_address c s) (chunked 1000 (transfer_accounts t es)))
        (λ s. EventsSatisfy (λ a. FreshUnlessExchange t a s) transfer_keys es)
        (sync_transfer_events n t es s) (λ s. all s)
        (for_loop-Done (AreFresh n t.token_address) (sync_chunk n t) (sync_chunk-Done n t)
          (λ xs ys s h.
            sync_chunk-After n
              (Closed-All (λ a. FreshAt n t.token_address a) (FreshAt-Closed n t.token_address) xs)
              t ys s h)
          (chunked 1000 (transfer_accounts t es)) s)
    where
      all :
          (s : Session)
          → All (λ c. AreFresh n t.token_address c s) (chunked 1000 (transfer_accounts t es))
          → EventsSatisfy (λ a. FreshUnlessExchange t a s) transfer_keys es
      all s h =
          ((remove_duplicates-IsExact transfer_keys es).1 (λ a. FreshUnlessExchange t a s)).0 (
            All-select (λ a. FreshAt n t.token_address a s) (λ a. not (a == t.exchange_address))
              (remove_duplicates transfer_keys es)
              (subst (All (λ a. FreshAt n t.token_address a s))
                (chunked-IsSplit 999 (transfer_accounts t es)).0
                (All-concat (λ a. FreshAt n t.token_address a s)
                  (chunked 1000 (transfer_accounts t es)) h)))
