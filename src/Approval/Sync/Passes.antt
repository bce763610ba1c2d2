-- ===== src/Approval/Sync/Passes.antt =====
-- The events that one pass of `__sync_all` of batch/indexer_TransferApproval.py reads, as one list, and
-- the rows that they make.
use ibet_wallet_api.Base.{
  ℕ, ◌≡◌, refl, sym, List, [], ◌∷◌, ◌++◌, Option, none, some, ltb, if◌then◌else◌, select, Run,
  returned, ◌>>=◌, for_each, Bool-cases, inl, inr, >>=-eq-returned, returned_inj,
}
use mathlib.Core.Path.{subst}
use ibet_wallet_api.Chain.{Address, Log, Answer, events_of}
use ibet_wallet_api.Approval.Table.{Db}
use ibet_wallet_api.Approval.Sink.{Library, Event, sink_on_transfer_approval}
use ibet_wallet_api.Approval.Sink.Machine.{AreRun, for_each-AreRun}
use ibet_wallet_api.Approval.Targets.{TargetExchange}
use ibet_wallet_api.Approval.Sync.{
  ForToken, Node, Targets, sink_optional, sync_source, sync_tokens, is_for_listed, sync_exchanges,
  token_apply_event, token_cancel_event, token_approve_event, exchange_apply_event,
  exchange_cancel_event, escrow_finished_event, exchange_approve_event, sync_events,
}
use ibet_wallet_api.Approval.Sync.Stages.{stages}

abbrev pub with_event : Option Event → List Event → List Event
with_event none es = es
with_event (some e) es = e ∷ es

-- The reads of a loop, one after the other, without the table.
abbrev pub read_each : {A : Type 0} → (A → Run (List Event)) → List A → Run (List Event)
read_each f [] = returned []
read_each f (x ∷ xs) = f x >>= λ es. read_each f xs >>= λ rest. returned (es ++ rest)

abbrev pub read_events :
    {A : Type 0} → (Log A → Run (Option Event)) → List (Log A) → Run (List Event)
read_events event = read_each (λ e. event e >>= λ o. returned (with_event o []))

abbrev pub read_source :
    {A : Type 0} → ℕ → ℕ → Run (List (Log A)) → (Log A → Run (Option Event)) → Run (List Event)
read_source block_to cursor logs event =
    if ltb block_to cursor then returned [] else (logs >>= read_events event)

abbrev pub read_tokens :
    {A : Type 0}
    → (Address → ℕ → ℕ → Answer A)
    → (Address → Log A → Run (Option Event))
    → Targets
    → ℕ
    → Run (List Event)
read_tokens get_logs event s block_to =
    read_each
      (λ t.
        read_source block_to t.cursor (events_of (get_logs t.token_address t.cursor block_to))
          (event t.token_address))
      s.token_list

abbrev pub read_exchanges :
    {A : Type 0}
    → (Address → ℕ → ℕ → Answer (ForToken A))
    → (Address → Log (ForToken A) → Run (Option Event))
    → Targets
    → ℕ
    → Run (List Event)
read_exchanges get_logs event s block_to =
    read_each
      (λ x.
        read_source block_to x.cursor
          (events_of (get_logs x.exchange_address x.cursor block_to) >>= λ es.
            returned (select (is_for_listed s.token_list) es))
          (event x.exchange_address))
      s.exchange_list

abbrev pub both : Run (List Event) → Run (List Event) → Run (List Event)
both a b = a >>= λ es. b >>= λ rest. returned (es ++ rest)

-- What the seven calls of `__sync_all` read, in their order.
abbrev pub read_all : Node → Targets → ℕ → Run (List Event)
read_all n s block_to = both (read_tokens n.token_apply (token_apply_event n) s block_to) (
    both (read_tokens n.token_cancel (token_cancel_event n) s block_to) (
      both (read_tokens n.token_approve (token_approve_event n) s block_to) (
        both (read_exchanges n.exchange_apply (exchange_apply_event n) s block_to) (
          both (read_exchanges n.exchange_cancel (exchange_cancel_event n) s block_to) (
            both (read_exchanges n.escrow_finished (escrow_finished_event n) s block_to)
              (read_exchanges n.exchange_approve (exchange_approve_event n) s block_to))))))

module _ (lib : Library) where
  abbrev sink_all : List Event → Db → Run Db
  sink_all = for_each (sink_on_transfer_approval lib)

  -- A program on the table sinks the events of a read.
  abbrev Sinks : Run (List Event) → Db → Db → Type 0
  Sinks m db db' = (es : List Event) × (m ≡ returned es) × (sink_all es db ≡ returned db')

  sink_all-append :
      (es fs : List Event) (a b c : Db)
      → sink_all es a ≡ returned b
      → sink_all fs b ≡ returned c
      → sink_all (es ++ fs) a ≡ returned c
  sink_all-append [] fs a b c h k = subst (λ d. sink_all fs d ≡ returned c) (sym (returned_inj h)) k
  sink_all-append (e ∷ es) fs a b c h k =
      let first = >>=-eq-returned (sink_on_transfer_approval lib e a) (sink_all es) h in
      rw first.1 (sink_all-append es fs first.0 b c first.2 k)

  Sinks-both :
      (m1 m2 : Run (List Event)) (a b c : Db) → Sinks m1 a b → Sinks m2 b c → Sinks (both m1 m2) a c
  Sinks-both m1 m2 a b c (es, e, h) (fs, f, k) =
      (es ++ fs, rw (e, f) refl, sink_all-append es fs a b c h k)

  Sinks-each :
      {A : Type 0} (f : A → Db → Run Db) (g : A → Run (List Event))
      → ((x : A) (a b : Db) → f x a ≡ returned b → Sinks (g x) a b)
      → (xs : List A) (a b : Db) → for_each f xs a ≡ returned b
      → Sinks (read_each g xs) a b
  Sinks-each f g one [] a b h = ([], refl, h)
  Sinks-each f g one (x ∷ xs) a b h =
      let first = >>=-eq-returned (f x a) (for_each f xs) h in
      Sinks-both (g x) (read_each g xs) a first.0 b (one x a first.0 first.1)
        (Sinks-each f g one xs first.0 b first.2)

  Sinks-sync_source :
      {A : Type 0} (block_to cursor : ℕ) (logs : Run (List (Log A)))
      (event : Log A → Run (Option Event)) (a b : Db)
      → sync_source lib block_to cursor logs event a ≡ returned b
      → Sinks (read_source block_to cursor logs event) a b
  unfolding sync_source
  Sinks-sync_source block_to cursor logs event a b h = elim (Bool-cases (ltb block_to cursor)) [
    | inl late ↦ rw late ([], refl, rw late at h)
    | inr read ↦
        let es =
          >>=-eq-returned logs (λ es. for_each (λ e d. event e >>= λ o. sink_optional lib o d) es a)
            (rw read at h) in
        let sunk =
          Sinks-each (λ e d. event e >>= λ o. sink_optional lib o d)
            (λ e. event e >>= λ o. returned (with_event o [])) one es.0 a b es.2 in
        (sunk.0, rw (read, es.1) sunk.1, sunk.2)
  ]
    where
      by_option :
          (o : Option Event) (a b : Db)
          → sink_optional lib o a ≡ returned b
          → sink_all (with_event o []) a ≡ returned b
      by_option none a b k = k
      by_option (some e) a b k = rw k refl

      one :
          (e : Log _) (a b : Db)
          → (event e >>= λ o. sink_optional lib o a) ≡ returned b
          → Sinks (event e >>= λ o. returned (with_event o [])) a b
      one e a b k =
          let o = >>=-eq-returned (event e) (λ o. sink_optional lib o a) k in
          (with_event o.0 [], rw o.1 refl, by_option o.0 a b o.2)

module _ (lib : Library) (n : Node) where
  sync_tokens-Sinks :
      {A : Type 0} (get_logs : Address → ℕ → ℕ → Answer A)
      (event : Address → Log A → Run (Option Event)) (s : Targets) (block_to : ℕ) (a b : Db)
      → sync_tokens lib get_logs event s.token_list block_to a ≡ returned b
      → Sinks lib (read_tokens get_logs event s block_to) a b
  sync_tokens-Sinks get_logs event s block_to =
      Sinks-each lib
        (λ t.
          sync_source lib block_to t.cursor (events_of (get_logs t.token_address t.cursor block_to))
            (event t.token_address))
        (λ t.
          read_source block_to t.cursor (events_of (get_logs t.token_address t.cursor block_to))
            (event t.token_address))
        (λ t.
          Sinks-sync_source lib block_to t.cursor
            (events_of (get_logs t.token_address t.cursor block_to)) (event t.token_address))
        s.token_list

  sync_exchanges-Sinks :
      {A : Type 0} (get_logs : Address → ℕ → ℕ → Answer (ForToken A))
      (event : Address → Log (ForToken A) → Run (Option Event)) (s : Targets) (block_to : ℕ)
      (a b : Db)
      → sync_exchanges lib get_logs event s block_to a ≡ returned b
      → Sinks lib (read_exchanges get_logs event s block_to) a b
  sync_exchanges-Sinks {A} get_logs event s block_to =
      Sinks-each lib (λ x. sync_source lib block_to x.cursor (logs x) (event x.exchange_address))
        (λ x. read_source block_to x.cursor (logs x) (event x.exchange_address))
        (λ x. Sinks-sync_source lib block_to x.cursor (logs x) (event x.exchange_address))
        s.exchange_list
    where
      logs : TargetExchange → Run (List (Log (ForToken A)))
      logs x = events_of (get_logs x.exchange_address x.cursor block_to) >>= λ es.
          returned (select (is_for_listed s.token_list) es)

  -- The seven loops over the table are the sinks of one list of events, in the order of the reads.
  sync_events-Sinks :
      (s : Targets) (block_to : ℕ) (db db' : Db)
      → sync_events n lib s block_to db ≡ returned db'
      → Sinks lib (read_all n s block_to) db db'
  unfolding sync_events
  sync_events-Sinks s block_to db db' h =
      let x =
        stages (sync_tokens lib n.token_apply (token_apply_event n) s.token_list block_to)
          (sync_tokens lib n.token_cancel (token_cancel_event n) s.token_list block_to)
          (sync_tokens lib n.token_approve (token_approve_event n) s.token_list block_to)
          (sync_exchanges lib n.exchange_apply (exchange_apply_event n) s block_to)
          (sync_exchanges lib n.exchange_cancel (exchange_cancel_event n) s block_to)
          (sync_exchanges lib n.escrow_finished (escrow_finished_event n) s block_to)
          (sync_exchanges lib n.exchange_approve (exchange_approve_event n) s block_to) db db' h in
      Sinks-both lib _ _ db x.d1 db'
        (sync_tokens-Sinks n.token_apply (token_apply_event n) s block_to db x.d1 x.s1)
        (Sinks-both lib _ _ x.d1 x.d2 db'
          (sync_tokens-Sinks n.token_cancel (token_cancel_event n) s block_to x.d1 x.d2 x.s2)
          (Sinks-both lib _ _ x.d2 x.d3 db'
            (sync_tokens-Sinks n.token_approve (token_approve_event n) s block_to x.d2 x.d3 x.s3)
            (Sinks-both lib _ _ x.d3 x.d4 db'
              (sync_exchanges-Sinks n.exchange_apply (exchange_apply_event n) s block_to x.d3 x.d4
                x.s4)
              (Sinks-both lib _ _ x.d4 x.d5 db'
                (sync_exchanges-Sinks n.exchange_cancel (exchange_cancel_event n) s block_to x.d4
                  x.d5 x.s5)
                (Sinks-both lib _ _ x.d5 x.d6 db'
                  (sync_exchanges-Sinks n.escrow_finished (escrow_finished_event n) s block_to x.d5
                    x.d6 x.s6)
                  (sync_exchanges-Sinks n.exchange_approve (exchange_approve_event n) s block_to
                    x.d6 db' x.s7))))))

  -- If a pass over a range of blocks returns, then its reads return a list of events, and the row of
  -- each application is what the machine of one application makes of the row from before with the
  -- application's own events, in the order of the list; the block numbers are as they were.
  pub sync_events-AreRun :
      (s : Targets) (block_to : ℕ) (db db' : Db)
      → sync_events n lib s block_to db ≡ returned db'
      → (es : List Event) × (read_all n s block_to ≡ returned es) × AreRun lib es db db'
  sync_events-AreRun s block_to db db' h =
      let sunk = sync_events-Sinks s block_to db db' h in
      (sunk.0, sunk.1, for_each-AreRun lib sunk.0 db db' sunk.2)
