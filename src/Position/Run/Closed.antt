-- ===== src/Position/Run/Closed.antt =====
-- What every write of batch/indexer_Position_Bond.py keeps, `__sync_all` and the chunks keep.
use ibet_wallet_api.Base.{
  ℕ, zero, suc, ◌+◌, ◌<◌, arith, Bool, true, false, List, [], ◌∷◌, ltb, Bool-cases, inl, inr,
}
use ibet_wallet_api.Chain.{Address, Log, Answer}
use ibet_wallet_api.Approval.Targets.{TargetToken}
use ibet_wallet_api.Approval.Sync.{Targets, update_cursor}
use ibet_wallet_api.Position.Session.{Session}
use ibet_wallet_api.Position.Session.Outcomes.{After, After-and_run}
use ibet_wallet_api.Position.Accounts.{remove_duplicates}
use ibet_wallet_api.Position.Node.{LockArgs, UnlockArgs, Node, Messages}
use ibet_wallet_api.Position.Sync.{
  for_tokens, sync_events, sync_transfer_events, transfer_keys, account_key, sync_transfer,
  sync_issue, sync_redeem, sync_apply_for_transfer, sync_cancel_transfer, sync_approve_transfer,
}
use ibet_wallet_api.Position.Sync.Locks.{
  lock_row, unlock_row, lock_event, unlock_event, change_event, sync_lock, sync_force_lock,
  sync_unlock, sync_force_unlock, sync_force_change_locked_account, sync_lock_events,
}
use ibet_wallet_api.Position.Sync.Closed.{
  Closed, sync_accounts-After, sync_transfer_events-After, for_tokens-After, sync_lock_events-After,
}
use ibet_wallet_api.Position.Exchange.{
  sync_exchange, sync_escrow, sync_dvp, exchange_holders, escrow_holders, dvp_holders,
}
use ibet_wallet_api.Position.Exchange.Closed.{
  for_exchanges-After, Ends-exchange_holders, Ends-escrow_holders, Ends-dvp_holders,
}
use ibet_wallet_api.Position.Run.{sync_all, sync_chunks}

module _ (n : Node) (json : Messages) {P : Session → Type 0} (closed : Closed n P) where
  pub sync_events-After :
      {A : Type 0} (keys : A → List Address) (t : TargetToken) (es : List (Log A)) (s : Session)
      → P s
      → After P (sync_events n keys t es s)
  sync_events-After keys t es =
      sync_accounts-After n closed t.token_address (remove_duplicates keys es)

  pub sync_transfer-After :
      (ts : List TargetToken) (to : ℕ) (s : Session) → P s → After P (sync_transfer n ts to s)
  unfolding sync_transfer
  sync_transfer-After =
      for_tokens-After n closed n.transfer (sync_transfer_events n)
        (sync_transfer_events-After n closed)

  -- A loop over events with locks.
  pub lock_loop-After :
      (is_forced : Bool) (get_logs : Address → ℕ → ℕ → Answer LockArgs) (ts : List TargetToken)
      (to : ℕ) (s : Session)
      → P s
      → After P (
          for_tokens get_logs
            (sync_lock_events n
              (lock_event json is_forced)
              (λ a. a.transaction_hash)
              (λ a. a.account_address ∷ []))
            ts
            to
            s)
  lock_loop-After is_forced get_logs = for_tokens-After n closed get_logs _ (
      sync_lock_events-After n closed (lock_event json is_forced) (λ a. a.transaction_hash)
        (λ token e created sender s. closed.lock (lock_row json is_forced token e created sender) s)
        (λ a. a.account_address ∷ []))

  pub unlock_loop-After :
      (is_forced : Bool) (get_logs : Address → ℕ → ℕ → Answer UnlockArgs) (ts : List TargetToken)
      (to : ℕ) (s : Session)
      → P s
      → After P (
          for_tokens get_logs
            (sync_lock_events n
              (unlock_event json is_forced)
              (λ a. a.transaction_hash)
              (λ a. a.recipient_address ∷ []))
            ts
            to
            s)
  unlock_loop-After is_forced get_logs = for_tokens-After n closed get_logs _ (
      sync_lock_events-After n closed (unlock_event json is_forced) (λ a. a.transaction_hash)
        (λ token e created sender s.
          closed.unlock (unlock_row json is_forced token e created sender) s)
        (λ a. a.recipient_address ∷ []))

  pub change_loop-After :
      (ts : List TargetToken) (to : ℕ) (s : Session)
      → P s
      → After P (sync_force_change_locked_account n json ts to s)
  unfolding sync_force_change_locked_account
  change_loop-After = for_tokens-After n closed n.force_change_locked_account _ (
      sync_lock_events-After n closed (change_event json) (λ a. a.transaction_hash)
        (λ token e created sender s h. closed.lock _ _ (closed.unlock _ s h))
        (λ a. a.before_account_address ∷ a.after_account_address ∷ []))

  pub sync_all-After : (g : Targets) (to : ℕ) (s : Session) → P s → After P (sync_all n json g to s)
  unfolding sync_all sync_lock sync_force_lock sync_unlock sync_force_unlock sync_issue sync_redeem
      sync_apply_for_transfer sync_cancel_transfer sync_approve_transfer sync_exchange sync_escrow
      sync_dvp
  sync_all-After g to s h = After-and_run P _ _ (sync_transfer-After g.token_list to s h) λ s h.
      After-and_run P _ _ (lock_loop-After false n.lock g.token_list to s h) λ s h.
        After-and_run P _ _ (lock_loop-After true n.force_lock g.token_list to s h) λ s h.
          After-and_run P _ _ (unlock_loop-After false n.unlock g.token_list to s h) λ s h.
            After-and_run P _ _ (unlock_loop-After true n.force_unlock g.token_list to s h) λ s h.
              After-and_run P _ _ (change_loop-After g.token_list to s h) λ s h.
                After-and_run P _ _ (accounts n.issue account_key s h) λ s h.
                  After-and_run P _ _ (accounts n.redeem account_key s h) λ s h.
                    After-and_run P _ _ (accounts n.apply_for_transfer account_key s h) λ s h.
                      After-and_run P _ _ (accounts n.cancel_transfer account_key s h) λ s h.
                        After-and_run P _ _ (accounts n.approve_transfer transfer_keys s h) λ s h.
                          After-and_run P _ _
                            (for_exchanges-After n closed (exchange_holders n g.token_list)
                              (Ends-exchange_holders n g.token_list) g to s h)
                            λ s h.
                              After-and_run P _ _
                                (for_exchanges-After n closed (escrow_holders n g.token_list)
                                  (Ends-escrow_holders n g.token_list) g to s h)
                                λ s h.
                                  for_exchanges-After n closed (dvp_holders n g.token_list)
                                    (Ends-dvp_holders n g.token_list) g to s h
    where
      accounts :
          {A : Type 0} (get_logs : Address → ℕ → ℕ → Answer A) (keys : A → List Address)
          (s : Session)
          → P s
          → After P (for_tokens get_logs (sync_events n keys) g.token_list to s)
      accounts get_logs keys =
          for_tokens-After n closed get_logs (sync_events n keys) (sync_events-After keys)
            g.token_list to

  pub sync_chunks-After :
      (fuel latest to : ℕ) (g : Targets) (s : Session)
      → 0 < fuel
      → latest < to + fuel
      → P s
      → After P (sync_chunks n json fuel latest to g s)
  unfolding sync_chunks
  sync_chunks-After zero latest to g s some_ enough h = absurd (omega (arith, some_))
  sync_chunks-After (suc fuel) latest to g s some_ enough h = elim (Bool-cases (ltb to latest)) [
    | inl more ↦
        rw (more, sync_chunks)
          (After-and_run P (sync_all n json g to s)
            (sync_chunks n json fuel latest (to + 1000000) (update_cursor (to + 1) g))
            (sync_all-After g to s h)
            (λ s.
              sync_chunks-After fuel latest (to + 1000000) (update_cursor (to + 1) g) s
                (ground (arith, more, enough)) (ground (arith, enough))))
    | inr last ↦ rw (last, sync_chunks) (sync_all-After g latest s h)
  ]
