-- ===== src/Approval/Sync/Chunks.antt =====
-- The chunks of batch/indexer_TransferApproval.py leave out no event of a token.
use ibet_wallet_api.Base.{
  ℕ, zero, suc, ◌+◌, ◌≡◌, Bool, true, false, if◌then◌else◌, ltb, returned, All, All-imp, All-map,
  All-both, >>=-eq-returned, Bool-cases, inl, inr,
}
use ibet_wallet_api.Chain.{Address}
use ibet_wallet_api.Approval.Table.{Db}
use ibet_wallet_api.Approval.Sink.{Library}
use ibet_wallet_api.Approval.Targets.{TargetToken, move_token}
use ibet_wallet_api.Approval.Sync.{Node, Targets, sync_events, update_cursor, sync_chunks}
use ibet_wallet_api.Approval.Sync.Recorded.{Keeps, Keeps-trans}
use ibet_wallet_api.Approval.Sync.Said.{TokenHistory, IsTruthful}
use ibet_wallet_api.Approval.Sync.Stages.{
  TokenSaid, TokenSaid-Keeps, TokenSaid-join, sync_events-Keeps, sync_events-TokenSaid,
}

module _ (lib : Library) (n : Node) where
  pub sync_chunks-Keeps :
      (fuel latest to : ℕ) (s : Targets) (db db' : Db)
      → sync_chunks lib n fuel latest to s db ≡ returned db'
      → Keeps db db'
  unfolding sync_chunks
  sync_chunks-Keeps zero latest to s db db' h = cc
  sync_chunks-Keeps (suc fuel) latest to s db db' h = elim (Bool-cases (ltb to latest)) [
    | inl more ↦
        let first =
          >>=-eq-returned (sync_events n lib s to db)
            (sync_chunks lib n fuel latest (to + 1000000) (update_cursor (to + 1) s))
            (rw (more, sync_chunks) at h) in
        Keeps-trans (sync_events-Keeps lib n s to db first.0 first.1) (
          sync_chunks-Keeps fuel latest (to + 1000000) (update_cursor (to + 1) s) first.0 db'
            first.2)
    | inr last ↦ sync_events-Keeps lib n s latest db db' (rw (last, sync_chunks) at h)
  ]

  module _ (strict : lib.merges_none ≡ false) (history : Address → TokenHistory)
      (truthful : IsTruthful history n) where
    -- A target whose first chunk and whose later chunks are said.
    joined :
        (to latest : ℕ) (db : Db) (t : TargetToken)
        → TokenSaid history t.token_address t.cursor to db
        → TokenSaid history
            (move_token (to + 1) t).token_address
            (move_token (to + 1) t).cursor
            latest
            db
        → TokenSaid history t.token_address t.cursor latest db
    joined to latest db t first rest = by_start (ltb t.start_block_number (to + 1)) rest
      where
        by_start :
            (b : Bool)
            → (let u = if b then record t { cursor = to + 1 } else t in
                TokenSaid history u.token_address u.cursor latest db)
            → TokenSaid history t.token_address t.cursor latest db
        by_start true r = TokenSaid-join history t.token_address t.cursor to latest db first r
        by_start false r = r

    -- Each token's events from its cursor to the latest block are said.
    pub sync_chunks-TokenSaid :
        (fuel latest to : ℕ) (s : Targets) (db db' : Db)
        → sync_chunks lib n fuel latest to s db ≡ returned db'
        → All (λ t. TokenSaid history t.token_address t.cursor latest db') s.token_list
    unfolding sync_chunks
    sync_chunks-TokenSaid zero latest to s db db' h = cc
    sync_chunks-TokenSaid (suc fuel) latest to s db db' h = elim (Bool-cases (ltb to latest)) [
      | inl more ↦
          let first =
            >>=-eq-returned (sync_events n lib s to db)
              (sync_chunks lib n fuel latest (to + 1000000) (update_cursor (to + 1) s))
              (rw (more, sync_chunks) at h) in
          All-both (joined to latest db') s.token_list
            (All-imp
              (λ (t : TargetToken).
                TokenSaid-Keeps history t.token_address t.cursor to first.0 db' (
                  sync_chunks-Keeps fuel latest (to + 1000000) (update_cursor (to + 1) s) first.0
                    db' first.2))
              s.token_list
              (sync_events-TokenSaid lib n s to db first.0 first.1 strict history truthful))
            (All-map (λ (t : TargetToken). TokenSaid history t.token_address t.cursor latest db')
              (move_token (to + 1)) s.token_list
              (sync_chunks-TokenSaid fuel latest (to + 1000000) (update_cursor (to + 1) s) first.0
                db' first.2))
      | inr last ↦
          sync_events-TokenSaid lib n s latest db db' (rw (last, sync_chunks) at h) strict history
            truthful
    ]
