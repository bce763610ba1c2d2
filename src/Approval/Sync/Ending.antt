-- ===== src/Approval/Sync/Ending.antt =====
-- Every pass of batch/indexer_TransferApproval.py over the blocks ends, by a value or by an exception.
use ibet_wallet_api.Base.{
  ℕ, zero, suc, ◌+◌, ◌<◌, List, Option, none, some, or_else, ltb, select, Run, returned, ask, ◌>>=◌,
  Ends, Ends-returned, Ends-raised, Ends-ask, Ends-bind, Ends-for_each, Ends-if, Bool-cases, inl,
  inr, arith,
}
use ibet_wallet_api.Chain.{Address, max_size, Log, Answer, events_of, Ends-events_of}
use ibet_wallet_api.Approval.Table.{Db}
use ibet_wallet_api.Approval.Sink.{Library, Event, sink_on_transfer_approval}
use ibet_wallet_api.Approval.Sink.Machine.{row_of}
use ibet_wallet_api.Approval.Sink.Refused.{refuses, sink_on_transfer_approval-refuses}
use ibet_wallet_api.Approval.Targets.{TargetToken}
use ibet_wallet_api.Approval.Sync.{
  ApplyArgs, ApproveArgs, ForToken, Node, Targets, sink_optional, sync_source, sync_tokens,
  is_for_listed, sync_exchanges, token_apply_event, token_cancel_event, token_approve_event,
  exchange_apply_event, exchange_cancel_event, escrow_finished_event, exchange_approve_event,
  sync_events, update_cursor, sync_chunks,
}

module _ (lib : Library) where
  Ends-sink_on_transfer_approval : (e : Event) (db : Db) → Ends (sink_on_transfer_approval lib e db)
  Ends-sink_on_transfer_approval e db = elim (Bool-cases (refuses lib e.change (row_of e.key db))) [
    | inl refused ↦ rw ((sink_on_transfer_approval-refuses lib e db).0 refused) Ends-raised
    | inr accepted ↦
        let answer = (sink_on_transfer_approval-refuses lib e db).1 accepted in
        rw answer.1 Ends-returned
  ]

  Ends-sink_optional : (o : Option Event) (db : Db) → Ends (sink_optional lib o db)
  Ends-sink_optional none db = Ends-returned
  Ends-sink_optional (some e) db = Ends-sink_on_transfer_approval e db

  Ends-sync_source :
      {A : Type 0} (block_to cursor : ℕ) (logs : Run (List (Log A)))
      (event : Log A → Run (Option Event)) (db : Db)
      → Ends logs
      → ((e : Log A) → Ends (event e))
      → Ends (sync_source lib block_to cursor logs event db)
  unfolding sync_source
  Ends-sync_source block_to cursor logs event db h k =
      Ends-if (ltb block_to cursor) _ _ Ends-returned (
        Ends-bind logs _ h (λ es.
          Ends-for_each (λ e d. event e >>= λ o. sink_optional lib o d)
            (λ e d. Ends-bind (event e) _ (k e) (λ o. Ends-sink_optional o d)) es db))

  Ends-sync_tokens :
      {A : Type 0} (get_logs : Address → ℕ → ℕ → Answer A)
      (event : Address → Log A → Run (Option Event))
      → ((token : Address) (e : Log A) → Ends (event token e))
      → (ts : List TargetToken) (block_to : ℕ) (db : Db)
      → Ends (sync_tokens lib get_logs event ts block_to db)
  Ends-sync_tokens get_logs event k ts block_to db =
      Ends-for_each _
        (λ t d.
          Ends-sync_source block_to t.cursor
            (events_of (get_logs t.token_address t.cursor block_to)) (event t.token_address) d
            (Ends-events_of (get_logs t.token_address t.cursor block_to)) (k t.token_address))
        ts db

  Ends-sync_exchanges :
      {A : Type 0} (get_logs : Address → ℕ → ℕ → Answer (ForToken A))
      (event : Address → Log (ForToken A) → Run (Option Event))
      → ((exchange : Address) (e : Log (ForToken A)) → Ends (event exchange e))
      → (s : Targets) (block_to : ℕ) (db : Db)
      → Ends (sync_exchanges lib get_logs event s block_to db)
  Ends-sync_exchanges get_logs event k s block_to db =
      Ends-for_each _
        (λ x d.
          Ends-sync_source block_to x.cursor
            (events_of (get_logs x.exchange_address x.cursor block_to) >>= λ es.
              returned (select (is_for_listed s.token_list) es))
            (event x.exchange_address) d
            (Ends-bind (events_of (get_logs x.exchange_address x.cursor block_to)) _
              (Ends-events_of (get_logs x.exchange_address x.cursor block_to))
              (λ es. Ends-returned))
            (k x.exchange_address))
        s.exchange_list db

module _ (lib : Library) (n : Node) where
  Ends-timed :
      (block : ℕ) (g : ℕ → Event) → Ends (ask (n.timestamp block) >>= λ t. returned (some (g t)))
  Ends-timed block g =
      Ends-bind (ask (n.timestamp block)) _ (Ends-ask (n.timestamp block)) (λ t. Ends-returned)

  Ends-token_apply_event : (x : Address) (e : Log ApplyArgs) → Ends (token_apply_event n x e)
  unfolding token_apply_event
  Ends-token_apply_event x e =
      Ends-if (ltb max_size (or_else e.args.value 0)) _ _ Ends-returned
        (Ends-timed e.block_number _)

  Ends-token_approve_event : (x : Address) (e : Log ApproveArgs) → Ends (token_approve_event n x e)
  unfolding token_approve_event
  Ends-token_approve_event x e = Ends-timed e.block_number _

  Ends-exchange_apply_event :
      (x : Address) (e : Log (ForToken ApplyArgs)) → Ends (exchange_apply_event n x e)
  unfolding exchange_apply_event
  Ends-exchange_apply_event x e =
      Ends-if (ltb max_size (or_else e.args.args.value 0)) _ _ Ends-returned
        (Ends-timed e.block_number _)

  Ends-exchange_approve_event :
      (x : Address) (e : Log (ForToken ApproveArgs)) → Ends (exchange_approve_event n x e)
  unfolding exchange_approve_event
  Ends-exchange_approve_event x e = Ends-timed e.block_number _

  Ends-sync_events : (s : Targets) (block_to : ℕ) (db : Db) → Ends (sync_events n lib s block_to db)
  unfolding sync_events token_cancel_event exchange_cancel_event escrow_finished_event
  Ends-sync_events s to db =
      Ends-bind _ _
        (Ends-sync_tokens lib n.token_apply (token_apply_event n) Ends-token_apply_event
          s.token_list to db)
        λ d.
          Ends-bind _ _
            (Ends-sync_tokens lib n.token_cancel (token_cancel_event n) (λ x e. Ends-returned)
              s.token_list to d)
            λ d.
              Ends-bind _ _
                (Ends-sync_tokens lib n.token_approve (token_approve_event n)
                  Ends-token_approve_event s.token_list to d)
                λ d.
                  Ends-bind _ _
                    (Ends-sync_exchanges lib n.exchange_apply (exchange_apply_event n)
                      Ends-exchange_apply_event s to d)
                    λ d.
                      Ends-bind _ _
                        (Ends-sync_exchanges lib n.exchange_cancel (exchange_cancel_event n)
                          (λ x e. Ends-returned) s to d)
                        λ d.
                          Ends-bind _ _
                            (Ends-sync_exchanges lib n.escrow_finished (escrow_finished_event n)
                              (λ x e. Ends-returned) s to d)
                            λ d.
                              Ends-sync_exchanges lib n.exchange_approve (exchange_approve_event n)
                                Ends-exchange_approve_event s to d

  pub sync_chunks_end :
      (fuel latest b : ℕ) (s : Targets) (db : Db)
      → 0 < fuel
      → latest < b + fuel
      → Ends (sync_chunks lib n fuel latest b s db)
  unfolding sync_chunks
  sync_chunks_end zero latest b s db h k = absurd (omega (arith, h))
  sync_chunks_end (suc fuel) latest b s db h k = elim (Bool-cases (ltb b latest)) [
    | inl more ↦
        rw (more, sync_chunks)
          (Ends-bind (sync_events n lib s b db) _ (Ends-sync_events s b db) (λ d.
            sync_chunks_end fuel latest (b + 1000000) (update_cursor (b + 1) s) d
              (ground (arith, more, k)) (ground (arith, k))))
    | inr last ↦ rw (last, sync_chunks) (Ends-sync_events s latest db)
  ]
