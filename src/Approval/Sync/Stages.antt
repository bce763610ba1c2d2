-- ===== src/Approval/Sync/Stages.antt =====
-- No event of a token is left out by the chunks of batch/indexer_TransferApproval.py.
use ibet_wallet_api.Base.{
  ℕ, ◌+◌, ◌≡◌, false, List, Option, select, Run, returned, ◌>>=◌, All, All-imp, All-both,
  >>=-eq-returned,
}
use ibet_wallet_api.Chain.{Address, Log, Answer, events_of, in_range}
use ibet_wallet_api.Approval.Table.{Db, Key}
use ibet_wallet_api.Approval.Sink.{Library, Event}
use ibet_wallet_api.Approval.Targets.{TargetToken, TargetExchange}
use ibet_wallet_api.Approval.Sync.{
  ForToken, Node, Targets, is_for_listed, sync_tokens, sync_exchanges, token_apply_event,
  token_cancel_event, token_approve_event, exchange_apply_event, exchange_cancel_event,
  escrow_finished_event, exchange_approve_event, sync_events,
}
use ibet_wallet_api.Approval.Sync.Recorded.{Fact, Keeps, Keeps-refl, Keeps-trans, SaysEvent}
use ibet_wallet_api.Approval.Sync.Loops.{AreSunk-Keeps, loop-Keeps, loop-AreSunk}
use ibet_wallet_api.Approval.Sync.Said.{
  TokenHistory, IsTruthful, apply_fact, cancel_fact, approve_fact, SaysFact, HistorySaid,
  HistorySaid-Keeps, HistorySaid-join, SourceIsSunk-HistorySaid, apply_agrees, cancel_agrees,
  approve_agrees,
}

-- Seven stages one after the other.
pub record Stages (m1 m2 m3 m4 m5 m6 m7 : Db → Run Db) (db db' : Db) : Type 0 where
  pub d1 : Db
  pub d2 : Db
  pub d3 : Db
  pub d4 : Db
  pub d5 : Db
  pub d6 : Db
  pub s1 : m1 db ≡ returned d1
  pub s2 : m2 d1 ≡ returned d2
  pub s3 : m3 d2 ≡ returned d3
  pub s4 : m4 d3 ≡ returned d4
  pub s5 : m5 d4 ≡ returned d5
  pub s6 : m6 d5 ≡ returned d6
  pub s7 : m7 d6 ≡ returned db'

pub stages :
    (m1 m2 m3 m4 m5 m6 m7 : Db → Run Db) (db db' : Db)
    → (m1 db >>= λ a. m2 a >>= λ b. m3 b >>= λ c. m4 c >>= λ d. m5 d >>= λ e. m6 e >>= m7)
      ≡ returned db'
    → Stages m1 m2 m3 m4 m5 m6 m7 db db'
stages m1 m2 m3 m4 m5 m6 m7 db db' h =
    let x1 =
      >>=-eq-returned (m1 db)
        (λ a. m2 a >>= λ b. m3 b >>= λ c. m4 c >>= λ d. m5 d >>= λ e. m6 e >>= m7) h in
    let x2 =
      >>=-eq-returned (m2 x1.0) (λ b. m3 b >>= λ c. m4 c >>= λ d. m5 d >>= λ e. m6 e >>= m7) x1.2 in
    let x3 = >>=-eq-returned (m3 x2.0) (λ c. m4 c >>= λ d. m5 d >>= λ e. m6 e >>= m7) x2.2 in
    let x4 = >>=-eq-returned (m4 x3.0) (λ d. m5 d >>= λ e. m6 e >>= m7) x3.2 in
    let x5 = >>=-eq-returned (m5 x4.0) (λ e. m6 e >>= m7) x4.2 in
    let x6 = >>=-eq-returned (m6 x5.0) m7 x5.2 in
    record {
      d1 = x1.0;
      d2 = x2.0;
      d3 = x3.0;
      d4 = x4.0;
      d5 = x5.0;
      d6 = x6.0;
      s1 = x1.1;
      s2 = x2.1;
      s3 = x3.1;
      s4 = x4.1;
      s5 = x5.1;
      s6 = x6.1;
      s7 = x6.2;
    }

-- The table says all events of a token in a range of blocks.
pub record TokenSaid (history : Address → TokenHistory) (token : Address) (a b : ℕ) (db : Db)
    : Type 0 where
  pub apply : HistorySaid (apply_fact token) a b (history token).apply db
  pub cancel : HistorySaid (cancel_fact token) a b (history token).cancel db
  pub approve : HistorySaid (approve_fact token) a b (history token).approve db

module _ (history : Address → TokenHistory) (token : Address) where
  pub TokenSaid-Keeps :
      (a b : ℕ) (db db' : Db)
      → Keeps db db'
      → TokenSaid history token a b db
      → TokenSaid history token a b db'
  TokenSaid-Keeps a b db db' keeps h = record {
    apply = HistorySaid-Keeps (apply_fact token) a b (history token).apply db db' keeps h.apply;
    cancel = HistorySaid-Keeps (cancel_fact token) a b (history token).cancel db db' keeps h.cancel;
    approve =
        HistorySaid-Keeps (approve_fact token) a b (history token).approve db db' keeps h.approve;
  }

  pub TokenSaid-join :
      (a b c : ℕ) (db : Db)
      → TokenSaid history token a b db
      → TokenSaid history token (b + 1) c db
      → TokenSaid history token a c db
  TokenSaid-join a b c db h k = record {
    apply = HistorySaid-join (apply_fact token) a b c (history token).apply db h.apply k.apply;
    cancel = HistorySaid-join (cancel_fact token) a b c (history token).cancel db h.cancel k.cancel;
    approve =
        HistorySaid-join (approve_fact token) a b c (history token).approve db h.approve k.approve;
  }

module _ (lib : Library) (n : Node) (s : Targets) (block_to : ℕ) where
  -- The stages of `__sync_all` keep what the table says.
  sync_tokens-Keeps :
      {A : Type 0} (get_logs : Address → ℕ → ℕ → Answer A)
      (event : Address → Log A → Run (Option Event)) (db db' : Db)
      → sync_tokens lib get_logs event s.token_list block_to db ≡ returned db'
      → Keeps db db'
  sync_tokens-Keeps get_logs event db db' h =
      loop-Keeps lib (λ t. event t.token_address) (λ (t : TargetToken). t.cursor)
        (λ t. events_of (get_logs t.token_address t.cursor block_to)) block_to s.token_list db db' h

  sync_exchanges-Keeps :
      {A : Type 0} (get_logs : Address → ℕ → ℕ → Answer (ForToken A))
      (event : Address → Log (ForToken A) → Run (Option Event)) (db db' : Db)
      → sync_exchanges lib get_logs event s block_to db ≡ returned db'
      → Keeps db db'
  sync_exchanges-Keeps get_logs event db db' h =
      loop-Keeps lib (λ x. event x.exchange_address) (λ (x : TargetExchange). x.cursor)
        (λ x. events_of (get_logs x.exchange_address x.cursor block_to) >>= λ es.
          returned (select (is_for_listed s.token_list) es))
        block_to s.exchange_list db db' h

  sync_events-stages :
      (db db' : Db)
      → sync_events n lib s block_to db ≡ returned db'
      → Stages
          (sync_tokens lib n.token_apply (token_apply_event n) s.token_list block_to)
          (sync_tokens lib n.token_cancel (token_cancel_event n) s.token_list block_to)
          (sync_tokens lib n.token_approve (token_approve_event n) s.token_list block_to)
          (sync_exchanges lib n.exchange_apply (exchange_apply_event n) s block_to)
          (sync_exchanges lib n.exchange_cancel (exchange_cancel_event n) s block_to)
          (sync_exchanges lib n.escrow_finished (escrow_finished_event n) s block_to)
          (sync_exchanges lib n.exchange_approve (exchange_approve_event n) s block_to)
          db
          db'
  unfolding sync_events
  sync_events-stages db db' h = stages _ _ _ _ _ _ _ db db' h

  module _ (db db' : Db) (h : sync_events n lib s block_to db ≡ returned db') where
    exchanges-Keeps : (x : Db) → Keeps x (sync_events-stages db db' h).d3 → Keeps x db'
    exchanges-Keeps x keeps =
        let g = sync_events-stages db db' h in
        Keeps-trans keeps (
          Keeps-trans
            (sync_exchanges-Keeps n.exchange_apply (exchange_apply_event n) g.d3 g.d4 g.s4)
            (Keeps-trans
              (sync_exchanges-Keeps n.exchange_cancel (exchange_cancel_event n) g.d4 g.d5 g.s5)
              (Keeps-trans
                (sync_exchanges-Keeps n.escrow_finished (escrow_finished_event n) g.d5 g.d6 g.s6)
                (sync_exchanges-Keeps n.exchange_approve (exchange_approve_event n) g.d6 db'
                  g.s7))))

    pub sync_events-Keeps : Keeps db db'
    sync_events-Keeps =
        let g = sync_events-stages db db' h in
        exchanges-Keeps db (
          Keeps-trans (sync_tokens-Keeps n.token_apply (token_apply_event n) db g.d1 g.s1) (
            Keeps-trans (sync_tokens-Keeps n.token_cancel (token_cancel_event n) g.d1 g.d2 g.s2)
              (sync_tokens-Keeps n.token_approve (token_approve_event n) g.d2 g.d3 g.s3)))

    module _ (strict : lib.merges_none ≡ false) (history : Address → TokenHistory)
        (truthful : IsTruthful history n) where
      -- One of the three loops over tokens: `d` before, `e` after it.
      tokens-said :
          {A : Type 0} (get_logs : Address → ℕ → ℕ → Answer A)
          (event : Address → Log A → Run (Option Event))
          (fact : Address → Log A → Option (Key × Fact)) (past : Address → List (Log A))
          → ((token : Address) (l : Log A) (o : Option Event) (x : Db)
              → event token l ≡ returned o
              → SaysEvent o x
              → SaysFact (fact token l) x)
          → ((token : Address) (a b : ℕ) (es : List (Log A))
              → events_of (get_logs token a b) ≡ returned es
              → es ≡ in_range a b (past token))
          → (d e : Db) → sync_tokens lib get_logs event s.token_list block_to d ≡ returned e
          → Keeps e db'
          → All
              (λ t. HistorySaid (fact t.token_address) t.cursor block_to (past t.token_address) db')
              s.token_list
      tokens-said get_logs event fact past agrees true_answer d e k keeps =
          let logs = λ (t : TargetToken). events_of (get_logs t.token_address t.cursor block_to) in
          let events = λ (t : TargetToken). event t.token_address in
          let cursor = λ (t : TargetToken). t.cursor in
          All-imp
            (λ (t : TargetToken) sunk.
              SourceIsSunk-HistorySaid (fact t.token_address) lib (events t)
                (agrees t.token_address) t.cursor block_to (logs t) (past t.token_address) db'
                (true_answer t.token_address t.cursor block_to) sunk)
            s.token_list
            (AreSunk-Keeps lib events cursor logs block_to s.token_list e db' keeps
              (loop-AreSunk lib events cursor logs block_to strict s.token_list d e k))

      pub sync_events-TokenSaid :
          All (λ t. TokenSaid history t.token_address t.cursor block_to db') s.token_list
      sync_events-TokenSaid =
          let g = sync_events-stages db db' h in
          let third : Keeps g.d3 db' = exchanges-Keeps g.d3 (Keeps-refl g.d3) in
          let second : Keeps g.d2 db' =
            exchanges-Keeps g.d2
              (sync_tokens-Keeps n.token_approve (token_approve_event n) g.d2 g.d3 g.s3) in
          let first : Keeps g.d1 db' =
            Keeps-trans (sync_tokens-Keeps n.token_cancel (token_cancel_event n) g.d1 g.d2 g.s2)
              second in
          All-both
            (λ (t : TargetToken) p
                (q : HistorySaid (cancel_fact t.token_address) t.cursor block_to
                    (history t.token_address).cancel db'
                  × HistorySaid (approve_fact t.token_address) t.cursor block_to
                      (history t.token_address).approve db').
              record { apply = p; cancel = q.0; approve = q.1 })
            s.token_list
            (tokens-said n.token_apply (token_apply_event n) apply_fact (λ t. (history t).apply)
              (apply_agrees n) truthful.apply db g.d1 g.s1 first)
            (All-both (λ t p q. (p, q)) s.token_list
              (tokens-said n.token_cancel (token_cancel_event n) cancel_fact
                (λ t. (history t).cancel) (cancel_agrees n) truthful.cancel g.d1 g.d2 g.s2 second)
              (tokens-said n.token_approve (token_approve_event n) approve_fact
                (λ t. (history t).approve) (approve_agrees n) truthful.approve g.d2 g.d3 g.s3
                third))
