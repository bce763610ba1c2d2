-- ===== src/Position/Run/Synced.antt =====
-- A pass of `__sync_all` of batch/indexer_Position_Bond.py: the accounts that it reads from token
-- events are fresh.
use ibet_wallet_api.Base.{ℕ, ◌≡◌, true, false, List, [], ◌∷◌, All, Run, Ends}
use mathlib.Core.Path.{subst}
use ibet_wallet_api.Chain.{Address, Log, Answer}
use ibet_wallet_api.Approval.Targets.{TargetToken}
use ibet_wallet_api.Approval.Sync.{Targets}
use ibet_wallet_api.Position.Accounts.{Holder}
use ibet_wallet_api.Position.Session.{Session, Outcome, ended, and_run, write}
use ibet_wallet_api.Position.Session.Outcomes.{
  After, Done, After-and_run, After-Done, Done-and_run, Done-both, Done-imp,
}
use ibet_wallet_api.Position.Node.{Node, Messages}
use ibet_wallet_api.Position.Sync.{
  for_tokens, sync_events, sync_transfer_events, transfer_keys, account_key, sync_transfer,
  sync_issue, sync_redeem, sync_apply_for_transfer, sync_cancel_transfer, sync_approve_transfer,
}
use ibet_wallet_api.Position.Sync.Locks.{
  LockEvent, lock_row, unlock_row, lock_event, unlock_event, change_event, sync_lock,
  sync_force_lock, sync_unlock, sync_force_unlock, sync_force_change_locked_account,
  sync_lock_events,
}
use ibet_wallet_api.Position.Sync.Closed.{
  Closed, for_tokens-After, sync_transfer_events-After, sync_lock_events-After,
}
use ibet_wallet_api.Position.Sync.Fresh.{FreshAt, FreshAt-Closed}
use ibet_wallet_api.Position.Sync.Synced.{Closed-All, Closed-if}
use ibet_wallet_api.Position.Exchange.{
  for_exchanges, sync_exchange, sync_escrow, sync_dvp, exchange_holders, escrow_holders,
  dvp_holders,
}
use ibet_wallet_api.Position.Exchange.Closed.{
  for_exchanges-After, Ends-exchange_holders, Ends-escrow_holders, Ends-dvp_holders,
}
use ibet_wallet_api.Position.Run.{sync_all}
use ibet_wallet_api.Position.Run.Closed.{sync_events-After}
use ibet_wallet_api.Position.Run.Sources.{
  SourceSaid, SourceSaid-Closed, for_tokens-Done, sync_events-Done, sync_lock_events-Done,
  FreshUnlessExchange, sync_transfer_events-Done,
}

-- A part of a pass, with what it brings, which later writes keep, and which keeps what they keep.
record Stage (n : Node) : Type 1 where
  run : Session → Outcome
  said : Session → Type 0
  closed : Closed n said
  done : (s : Session) → Done said (run s)
  after : (P : Session → Type 0) → Closed n P → (s : Session) → P s → After P (run s)

module _ {n : Node} where
  abbrev run_stages : List (Stage n) → Session → Outcome
  run_stages [] s = ended s
  run_stages (st ∷ []) s = st.run s
  run_stages (st ∷ (next ∷ sts)) s = and_run (st.run s) (run_stages (next ∷ sts))

  run_stages-After :
      (sts : List (Stage n)) (P : Session → Type 0)
      → Closed n P
      → (s : Session) → P s
      → After P (run_stages sts s)
  run_stages-After [] P c s h = h
  run_stages-After (st ∷ []) P c s h = st.after P c s h
  run_stages-After (st ∷ (next ∷ sts)) P c s h =
      After-and_run P (st.run s) (run_stages (next ∷ sts)) (st.after P c s h)
        (run_stages-After (next ∷ sts) P c)

  run_stages-Done :
      (sts : List (Stage n)) (s : Session)
      → Done (λ s. All (λ st. st.said s) sts) (run_stages sts s)
  run_stages-Done [] s = tt
  run_stages-Done (st ∷ []) s =
      Done-imp st.said (λ s. All (λ st. st.said s) (st ∷ [])) (st.run s) (λ s h. (h, tt))
        (st.done s)
  run_stages-Done (st ∷ (next ∷ sts)) s =
      Done-and_run st.said (λ s. All (λ st. st.said s) (st ∷ (next ∷ sts))) (st.run s)
        (run_stages (next ∷ sts)) (st.done s)
        (λ s h.
          Done-both st.said (λ s. All (λ st. st.said s) (next ∷ sts)) (run_stages (next ∷ sts) s)
            (After-Done st.said (run_stages (next ∷ sts) s)
              (run_stages-After (next ∷ sts) st.said st.closed s h))
            (run_stages-Done (next ∷ sts) s))

module _ (n : Node) where
  abbrev FreshOf : TargetToken → Address → Session → Type 0
  FreshOf t a s = FreshAt n t.token_address a s

  -- After a pass up to a block, the accounts of the events of one kind are fresh.
  abbrev pub KindSaid :
      {A : Type 0}
      → (A → List Address)
      → (Address → ℕ → ℕ → Answer A)
      → Targets
      → ℕ
      → Session
      → Type 0
  KindSaid keys get_logs g to s =
      All (λ t. SourceSaid (λ t a s. FreshAt n t.token_address a s) keys get_logs to t s)
        g.token_list

  KindSaid-Closed :
      {A : Type 0} (keys : A → List Address) (get_logs : Address → ℕ → ℕ → Answer A) (g : Targets)
      (to : ℕ)
      → Closed n (KindSaid keys get_logs g to)
  KindSaid-Closed keys get_logs g to =
      Closed-All (SourceSaid FreshOf keys get_logs to)
        (SourceSaid-Closed n FreshOf (λ t a. FreshAt-Closed n t.token_address a) keys get_logs to)
        g.token_list

module _ (n : Node) (json : Messages) where
  abbrev accounts_stage :
      {A : Type 0} → (A → List Address) → (Address → ℕ → ℕ → Answer A) → Targets → ℕ → Stage n
  accounts_stage keys get_logs g to = record {
    run = for_tokens get_logs (sync_events n keys) g.token_list to;
    said = KindSaid n keys get_logs g to;
    closed = KindSaid-Closed n keys get_logs g to;
    done =
        for_tokens-Done n (FreshOf n) (λ t a. FreshAt-Closed n t.token_address a) keys get_logs
          (sync_events n keys) (sync_events-Done n keys) (λ P c. sync_events-After n json c keys)
          g.token_list to;
    after = λ P c.
        for_tokens-After n c get_logs (sync_events n keys) (sync_events-After n json c keys)
          g.token_list to;
  }

  abbrev lock_stage :
      {A : Type 0} (k : LockEvent A) (hash : A → ℕ) (keys : A → List Address)
      → ((P : Session → Type 0)
          → Closed n P
          → (token : Address) (e : Log A) (created : ℕ) (sender : Address) (s : Session) → P s
          → P (write (k.insert token e created sender) s))
      → (Address → ℕ → ℕ → Answer A)
      → Targets
      → ℕ
      → Stage n
  lock_stage k hash keys inserts get_logs g to = record {
    run = for_tokens get_logs (sync_lock_events n k hash keys) g.token_list to;
    said = KindSaid n keys get_logs g to;
    closed = KindSaid-Closed n keys get_logs g to;
    done =
        for_tokens-Done n (FreshOf n) (λ t a. FreshAt-Closed n t.token_address a) keys get_logs
          (sync_lock_events n k hash keys) (sync_lock_events-Done n k hash keys)
          (λ P c. sync_lock_events-After n c k hash (inserts P c) keys) g.token_list to;
    after = λ P c.
        for_tokens-After n c get_logs (sync_lock_events n k hash keys)
          (sync_lock_events-After n c k hash (inserts P c) keys) g.token_list to;
  }

  abbrev pub TransferSaid : Targets → ℕ → Session → Type 0
  TransferSaid g to s =
      All (λ t. SourceSaid (FreshUnlessExchange n) transfer_keys n.transfer to t s) g.token_list

  FreshUnlessExchange-Closed :
      (t : TargetToken) (a : Address) → Closed n (FreshUnlessExchange n t a)
  FreshUnlessExchange-Closed t a = Closed-if (FreshAt-Closed n t.token_address a)

  abbrev transfer_stage : Targets → ℕ → Stage n
  transfer_stage g to = record {
    run = for_tokens n.transfer (sync_transfer_events n) g.token_list to;
    said = TransferSaid g to;
    closed =
        Closed-All (SourceSaid (FreshUnlessExchange n) transfer_keys n.transfer to)
          (SourceSaid-Closed n (FreshUnlessExchange n) FreshUnlessExchange-Closed transfer_keys
            n.transfer to)
          g.token_list;
    done =
        for_tokens-Done n (FreshUnlessExchange n) FreshUnlessExchange-Closed transfer_keys
          n.transfer (sync_transfer_events n) (sync_transfer_events-Done n)
          (λ P c. sync_transfer_events-After n c) g.token_list to;
    after = λ P c.
        for_tokens-After n c n.transfer (sync_transfer_events n) (sync_transfer_events-After n c)
          g.token_list to;
  }

  Unit-Closed : Closed n (λ s. Unit {0})
  Unit-Closed = record {
    position = λ t a u s true_ h. tt;
    locked = λ t l a v s h. tt;
    lock = λ row s h. tt;
    unlock = λ row s h. tt;
    commit = λ s h. tt;
  }

  abbrev exchange_stage :
      (read : Address → ℕ → ℕ → Run (List Holder))
      → ((x : Address) (a b : ℕ) → Ends (read x a b))
      → Targets
      → ℕ
      → Stage n
  exchange_stage read ends g to = record {
    run = for_exchanges n read g to;
    said = λ s. Unit {0};
    closed = Unit-Closed;
    done = λ s.
        After-Done (λ s. Unit {0}) (for_exchanges n read g to s)
          (for_exchanges-After n Unit-Closed read ends g to s tt);
    after = λ P c. for_exchanges-After n c read ends g to;
  }

  abbrev stages_of : Targets → ℕ → List (Stage n)
  stages_of g to =
      transfer_stage g to
      ∷ lock_stage (lock_event json false) (λ a. a.transaction_hash) (λ a. a.account_address ∷ [])
          (λ P c token e created sender s. c.lock (lock_row json false token e created sender) s)
          n.lock g to
      ∷ lock_stage (lock_event json true) (λ a. a.transaction_hash) (λ a. a.account_address ∷ [])
          (λ P c token e created sender s. c.lock (lock_row json true token e created sender) s)
          n.force_lock g to
      ∷ lock_stage (unlock_event json false) (λ a. a.transaction_hash)
          (λ a. a.recipient_address ∷ [])
          (λ P c token e created sender s.
            c.unlock (unlock_row json false token e created sender) s)
          n.unlock g to
      ∷ lock_stage (unlock_event json true) (λ a. a.transaction_hash)
          (λ a. a.recipient_address ∷ [])
          (λ P c token e created sender s. c.unlock (unlock_row json true token e created sender) s)
          n.force_unlock g to
      ∷ lock_stage (change_event json) (λ a. a.transaction_hash)
          (λ a. a.before_account_address ∷ a.after_account_address ∷ [])
          (λ P c token e created sender s h. c.lock _ _ (c.unlock _ s h))
          n.force_change_locked_account g to
      ∷ accounts_stage account_key n.issue g to
      ∷ accounts_stage account_key n.redeem g to
      ∷ accounts_stage account_key n.apply_for_transfer g to
      ∷ accounts_stage account_key n.cancel_transfer g to
      ∷ accounts_stage transfer_keys n.approve_transfer g to
      ∷ exchange_stage (exchange_holders n g.token_list) (Ends-exchange_holders n g.token_list) g to
      ∷ exchange_stage (escrow_holders n g.token_list) (Ends-escrow_holders n g.token_list) g to
      ∷ exchange_stage (dvp_holders n g.token_list) (Ends-dvp_holders n g.token_list) g to
      ∷ []

  -- For each of the kinds of token events, the accounts that the code reads from it are fresh: of
  -- unlocks these are the recipients only, of applications and cancellations the `from` only.
  pub record PassSaid (g : Targets) (to : ℕ) (s : Session) : Type 0 where
    pub transfer : TransferSaid g to s
    pub lock : KindSaid n (λ a. a.account_address ∷ []) n.lock g to s
    pub force_lock : KindSaid n (λ a. a.account_address ∷ []) n.force_lock g to s
    pub unlock : KindSaid n (λ a. a.recipient_address ∷ []) n.unlock g to s
    pub force_unlock : KindSaid n (λ a. a.recipient_address ∷ []) n.force_unlock g to s
    pub force_change_locked_account :
        KindSaid n
          (λ a. a.before_account_address ∷ a.after_account_address ∷ [])
          n.force_change_locked_account
          g
          to
          s
    pub issue : KindSaid n account_key n.issue g to s
    pub redeem : KindSaid n account_key n.redeem g to s
    pub apply_for_transfer : KindSaid n account_key n.apply_for_transfer g to s
    pub cancel_transfer : KindSaid n account_key n.cancel_transfer g to s
    pub approve_transfer : KindSaid n transfer_keys n.approve_transfer g to s

  -- Let a pass up to a block end, the contracts having one state while it runs. For each token of the
  -- list whose cursor is not above the block, the node has answered each of the eleven kinds of token
  -- events from the cursor up to the block (a kind that the ABI does not have is answered with no
  -- events), and afterwards the account that the code reads from each of these events has a position
  -- with the balance and the pending transfer that the token's contract answers. That account is: for
  -- Transfer, `from` and `to`, unless it is the exchange of the token; for ApproveTransfer, `from`
  -- and `to`; for Lock and ForceLock, accountAddress; for Unlock and ForceUnlock, recipientAddress;
  -- for ForceChangeLockedAccount, the accounts before and after; for Issue and Redeem, targetAddress;
  -- for ApplyForTransfer and CancelTransfer, `from`. The zero address is left out. Nothing is stated
  -- of the accounts of exchange events, nor of the other columns.
  pub sync_all-PassSaid :
      (g : Targets) (to : ℕ) (s s' : Session) → sync_all n json g to s ≡ ended s' → PassSaid g to s'
  unfolding sync_all sync_transfer sync_lock sync_force_lock sync_unlock sync_force_unlock
      sync_force_change_locked_account sync_issue sync_redeem sync_apply_for_transfer
      sync_cancel_transfer sync_approve_transfer sync_exchange sync_escrow sync_dvp
  sync_all-PassSaid g to s s' h =
      let all =
        subst (Done (λ s. All (λ st. st.said s) (stages_of g to))) h
          (run_stages-Done (stages_of g to) s) in
      record {
        transfer = all.0;
        lock = all.1.0;
        force_lock = all.1.1.0;
        unlock = all.1.1.1.0;
        force_unlock = all.1.1.1.1.0;
        force_change_locked_account = all.1.1.1.1.1.0;
        issue = all.1.1.1.1.1.1.0;
        redeem = all.1.1.1.1.1.1.1.0;
        apply_for_transfer = all.1.1.1.1.1.1.1.1.0;
        cancel_transfer = all.1.1.1.1.1.1.1.1.1.0;
        approve_transfer = all.1.1.1.1.1.1.1.1.1.1.0;
      }
