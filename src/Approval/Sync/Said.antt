-- ===== src/Approval/Sync/Said.antt =====
-- The events of a token that a range of blocks has, and whether the table says them.
use ibet_wallet_api.Base.{
  ℕ, ◌+◌, ◌≡◌, sym, true, false, List, Option, none, some, or_else, if◌then◌else◌, ltb, Run,
  returned, ask, ◌>>=◌, All, All-imp, All-select, All-both, All_intro, Bool-cases, inl, inr, arith,
  returned_inj,
}
use mathlib.Core.Path.{subst}
use ibet_wallet_api.Chain.{Address, zero_address, max_size, Log, events_of, in_range, within}
use ibet_wallet_api.Approval.Table.{Db, Key}
use ibet_wallet_api.Approval.Sink.{Library, apply_for, approve, Event}
use ibet_wallet_api.Approval.Sync.{
  ApplyArgs, CancelArgs, ApproveArgs, Node, token_apply_event, token_cancel_event,
  token_approve_event,
}
use ibet_wallet_api.Approval.Sync.Recorded.{
  Fact, is_applied, is_cancelled, is_approved, Recorded, Keeps, SaysEvent, SourceIsSunk,
}

-- The events of a token's contract.
pub record TokenHistory : Type 0 where
  pub apply : List (Log ApplyArgs)
  pub cancel : List (Log CancelArgs)
  pub approve : List (Log ApproveArgs)

-- Whenever the node answers, it answers with the events of the history; it may also fail.
pub record IsTruthful (history : Address → TokenHistory) (n : Node) : Type 0 where
  pub apply :
      (token : Address) (a b : ℕ) (es : List (Log ApplyArgs))
      → events_of (n.token_apply token a b) ≡ returned es
      → es ≡ in_range a b (history token).apply
  pub cancel :
      (token : Address) (a b : ℕ) (es : List (Log CancelArgs))
      → events_of (n.token_cancel token a b) ≡ returned es
      → es ≡ in_range a b (history token).cancel
  pub approve :
      (token : Address) (a b : ℕ) (es : List (Log ApproveArgs))
      → events_of (n.token_approve token a b) ≡ returned es
      → es ≡ in_range a b (history token).approve

abbrev pub token_key : Address → Option ℕ → Key
token_key token index = record { token = token; exchange = none; application = index }

-- What the table should say for an event; nothing for an amount that is too large to be stored.
abbrev pub apply_fact : Address → Log ApplyArgs → Option (Key × Fact)
apply_fact token e =
    if ltb max_size (or_else e.args.value 0)
    then none
    else some (token_key token e.args.index, is_applied)

abbrev pub cancel_fact : Address → Log CancelArgs → Option (Key × Fact)
cancel_fact token e = some (token_key token e.args.index, is_cancelled)

abbrev pub approve_fact : Address → Log ApproveArgs → Option (Key × Fact)
approve_fact token e = some (token_key token e.args.index, is_approved)

abbrev pub SaysFact : Option (Key × Fact) → Db → Type 0
SaysFact none db = Unit {0}
SaysFact (some (k, f)) db = Recorded k f db

SaysFact-Keeps :
    (o : Option (Key × Fact)) (db db' : Db) → Keeps db db' → SaysFact o db → SaysFact o db'
SaysFact-Keeps none db db' keeps says = tt
SaysFact-Keeps (some (k, f)) db db' keeps says = keeps.says k f says

module _ {A : Type 0} (fact : Log A → Option (Key × Fact)) where
  -- The table says the events of a range of blocks.
  abbrev pub HistorySaid : ℕ → ℕ → List (Log A) → Db → Type 0
  HistorySaid a b history db = All (λ e. within a b e ≡ true → SaysFact (fact e) db) history

  pub HistorySaid-Keeps :
      (a b : ℕ) (history : List (Log A)) (db db' : Db)
      → Keeps db db'
      → HistorySaid a b history db
      → HistorySaid a b history db'
  HistorySaid-Keeps a b history db db' keeps =
      All-imp (λ e says inside. SaysFact-Keeps (fact e) db db' keeps (says inside)) history

  pub HistorySaid-none :
      (a b : ℕ) (history : List (Log A)) (db : Db) → ltb b a ≡ true → HistorySaid a b history db
  HistorySaid-none a b history db h = All_intro (λ e inside. absurd (outside e inside)) history
    where
      outside : (e : Log A) → within a b e ≡ true → ⊥
      outside e inside = ground (arith, h, inside)

  pub HistorySaid-join :
      (a b c : ℕ) (history : List (Log A)) (db : Db)
      → HistorySaid a b history db
      → HistorySaid (b + 1) c history db
      → HistorySaid a c history db
  HistorySaid-join a b c history db =
      All-both
        (λ e low high inside. elim (Bool-cases (within a b e)) [
          | inl first ↦ low first
          | inr later ↦ high (above e inside later)
        ])
        history
    where
      above : (e : Log A) → within a c e ≡ true → within a b e ≡ false → within (b + 1) c e ≡ true
      above e inside later = ground (arith, inside, later)

  module _ (lib : Library) (event : Log A → Run (Option Event))
      (agrees : (e : Log A) (o : Option Event) (db : Db)
        → event e ≡ returned o
        → SaysEvent o db
        → SaysFact (fact e) db) where
    pub SourceIsSunk-HistorySaid :
        (a b : ℕ) (logs : Run (List (Log A))) (history : List (Log A)) (db : Db)
        → ((es : List (Log A)) → logs ≡ returned es → es ≡ in_range a b history)
        → SourceIsSunk lib event b a logs db
        → HistorySaid a b history db
    SourceIsSunk-HistorySaid a b logs history db truthful sunk = elim (Bool-cases (ltb b a)) [
      | inl late ↦ HistorySaid-none a b history db late
      | inr read ↦
          let es = sunk read in
          All-select (λ e. SaysFact (fact e) db) (within a b) history
            (subst (All (λ e. SaysFact (fact e) db)) (truthful es.0 es.1)
              (All-imp (λ e o. agrees e o.0 db o.1 o.2) es.0 es.2))
    ]

module _ (n : Node) (token : Address) where
  pub apply_agrees :
      (e : Log ApplyArgs) (o : Option Event) (db : Db)
      → token_apply_event n token e ≡ returned o
      → SaysEvent o db
      → SaysFact (apply_fact token e) db
  unfolding token_apply_event
  apply_agrees e o db read says = elim (Bool-cases (ltb max_size (or_else e.args.value 0))) [
    | inl large ↦ rw large tt
    | inr small ↦ rw small (timed (n.timestamp e.block_number) (rw small at read))
  ]
    where
      timed :
          (t : Option ℕ)
          → (ask t >>= λ timestamp. returned (
              some (record {
                key = token_key token e.args.index;
                change =
                    apply_for
                      (some (or_else e.args.from zero_address))
                      (some (or_else e.args.to zero_address))
                      (some (or_else e.args.value 0))
                      e.args.data_
                      (some timestamp);
              })))
            ≡ returned o
          → Recorded (token_key token e.args.index) is_applied db
      timed none k = cc
      timed (some t) k = subst (λ x. SaysEvent x db) (sym (returned_inj k)) says

  pub cancel_agrees :
      (e : Log CancelArgs) (o : Option Event) (db : Db)
      → token_cancel_event n token e ≡ returned o
      → SaysEvent o db
      → SaysFact (cancel_fact token e) db
  unfolding token_cancel_event
  cancel_agrees e o db read says = subst (λ x. SaysEvent x db) (sym (returned_inj read)) says

  pub approve_agrees :
      (e : Log ApproveArgs) (o : Option Event) (db : Db)
      → token_approve_event n token e ≡ returned o
      → SaysEvent o db
      → SaysFact (approve_fact token e) db
  unfolding token_approve_event
  approve_agrees e o db read says = timed (n.timestamp e.block_number) read
    where
      timed :
          (t : Option ℕ)
          → (ask t >>= λ timestamp. returned (
              some (record {
                key = token_key token e.args.index;
                change = approve e.args.data_ (some timestamp);
              })))
            ≡ returned o
          → Recorded (token_key token e.args.index) is_approved db
      timed none k = cc
      timed (some t) k = subst (λ x. SaysEvent x db) (sym (returned_inj k)) says
