-- ===== src/Approval/Sync/Recorded.antt =====
-- What the table `transfer_approval` says of an application stays said, and an event that returns is
-- said by it.
use ibet_wallet_api.Base.{
  ℕ, ◌≡◌, refl, sym, ◌∙◌, true, false, List, [], ◌∷◌, Option, none, some, Run, returned, raised,
  out_of_fuel, ◌>>=◌, for_each, ltb, All, All-imp, Bool-cases, inl, inr, >>=-eq-returned,
  returned_inj,
}
use mathlib.Core.Path.{subst}
use ibet_wallet_api.Chain.{Log}
use ibet_wallet_api.Approval.Table.{TransferApproval, Db, Key, new_row}
use ibet_wallet_api.Approval.Sink.{
  Library, Change, apply_for, cancel, escrow_finish, approve, Event, optional_time, created,
  applied, approved, sink_on_transfer_approval,
}
use ibet_wallet_api.Approval.Sink.Machine.{
  same_key, same_key-eq, keep_row, step_row, row_of, IsStep, sink_on_transfer_approval-IsStep,
}
use ibet_wallet_api.Approval.Sync.{sink_optional, sync_source}

-- What can be said of an application: it was applied for, cancelled, its escrow was finished, or it
-- was approved.
pub data Fact : Type 0 where
  is_applied is_cancelled is_finished is_approved : Fact

abbrev pub fact_of : Change → Fact
fact_of (apply_for f t v d s) = is_applied
fact_of cancel = is_cancelled
fact_of escrow_finish = is_finished
fact_of (approve d s) = is_approved

abbrev pub RowSays : Fact → TransferApproval → Type 0
RowSays is_applied r = Unit {0}
RowSays is_cancelled r = r.cancelled ≡ some true
RowSays is_finished r = r.escrow_finished ≡ some true
RowSays is_approved r = r.transfer_approved ≡ some true

abbrev pub Says : Fact → Option TransferApproval → Type 0
Says f none = ⊥
Says f (some r) = RowSays f r

-- The row of the application says the fact.
abbrev pub Recorded : Key → Fact → Db → Type 0
Recorded k f db = Says f (row_of k db)

abbrev pub SaysEvent : Option Event → Db → Type 0
SaysEvent none db = Unit {0}
SaysEvent (some e) db = Recorded e.key (fact_of e.change) db

-- All that was said is said, and the block numbers are as they were.
pub record Keeps (db db' : Db) : Type 0 where
  pub says : (k : Key) (f : Fact) → Recorded k f db → Recorded k f db'
  pub block_number : db'.block_number ≡ db.block_number

pub Keeps-refl : (db : Db) → Keeps db db
Keeps-refl db = record { says = λ k f s. s; block_number = refl }

pub Keeps-trans : {a b c : Db} → Keeps a b → Keeps b c → Keeps a c
Keeps-trans h g = record {
  says = λ k f s. g.says k f (h.says k f s);
  block_number = g.block_number ∙ h.block_number;
}

module _ (lib : Library) where
  timed-Says :
      (f : Fact) (before : Option TransferApproval) (m : Run (Option ℕ))
      (g : Option ℕ → TransferApproval) (o : Option TransferApproval)
      → ((t : Option ℕ) → RowSays f (g t))
      → ((m >>= λ t. returned (some (g t))) >>= keep_row lib before) ≡ returned o
      → Says f o
  timed-Says f before (returned t) g o says h = subst (Says f) (returned_inj h) (says t)
  timed-Says f before raised g o says h = cc
  timed-Says f before out_of_fuel g o says h = cc

  -- A fact of a row stays through a step.
  step_row-keeps :
      (k : Key) (c : Change) (f : Fact) (r : TransferApproval) (o : Option TransferApproval)
      → RowSays f r
      → step_row lib k c (some r) ≡ returned o
      → Says f o
  step_row-keeps k (apply_for x y v d s) f r o says h =
      timed-Says f (some r) (optional_time lib d) (λ t. applied v t s r) o (kept f says) h
    where
      kept : (f : Fact) → RowSays f r → (t : Option ℕ) → RowSays f (applied v t s r)
      kept is_applied says t = tt
      kept is_cancelled says t = says
      kept is_finished says t = says
      kept is_approved says t = says
  step_row-keeps k cancel is_applied r o says h = subst (Says is_applied) (returned_inj h) tt
  step_row-keeps k cancel is_cancelled r o says h = subst (Says is_cancelled) (returned_inj h) refl
  step_row-keeps k cancel is_finished r o says h = subst (Says is_finished) (returned_inj h) says
  step_row-keeps k cancel is_approved r o says h = subst (Says is_approved) (returned_inj h) says
  step_row-keeps k escrow_finish is_applied r o says h = subst (Says is_applied) (returned_inj h) tt
  step_row-keeps k escrow_finish is_cancelled r o says h =
      subst (Says is_cancelled) (returned_inj h) says
  step_row-keeps k escrow_finish is_finished r o says h =
      subst (Says is_finished) (returned_inj h) refl
  step_row-keeps k escrow_finish is_approved r o says h =
      subst (Says is_approved) (returned_inj h) says
  step_row-keeps k (approve d s) f r o says h =
      timed-Says f (some r) (optional_time lib d) (λ t. approved t s r) o (kept f says) h
    where
      kept : (f : Fact) → RowSays f r → (t : Option ℕ) → RowSays f (approved t s r)
      kept is_applied says t = tt
      kept is_cancelled says t = says
      kept is_finished says t = says
      kept is_approved says t = refl

  module _ (strict : lib.merges_none ≡ false) where
    -- A step that returns says its own fact.
    step_row-Says :
        (k : Key) (c : Change) (before o : Option TransferApproval)
        → step_row lib k c before ≡ returned o
        → Says (fact_of c) o
    step_row-Says k (apply_for x y v d s) none o h =
        timed-Says is_applied none (optional_time lib d)
          (λ t. applied v t s (created x y (new_row k))) o (λ t. tt) h
    step_row-Says k (apply_for x y v d s) (some r) o h =
        timed-Says is_applied (some r) (optional_time lib d) (λ t. applied v t s r) o (λ t. tt) h
    step_row-Says k cancel none o h = cc (rw strict at h)
    step_row-Says k cancel (some r) o h = subst (Says is_cancelled) (returned_inj h) refl
    step_row-Says k escrow_finish none o h = cc (rw strict at h)
    step_row-Says k escrow_finish (some r) o h = subst (Says is_finished) (returned_inj h) refl
    step_row-Says k (approve d s) none o h = cc (rw strict at h)
    step_row-Says k (approve d s) (some r) o h =
        timed-Says is_approved (some r) (optional_time lib d) (λ t. approved t s r) o (λ t. refl) h

    sink_on_transfer_approval-Recorded :
        (e : Event) (db db' : Db)
        → sink_on_transfer_approval lib e db ≡ returned db'
        → Recorded e.key (fact_of e.change) db'
    sink_on_transfer_approval-Recorded e db db' h =
        step_row-Says e.key e.change (row_of e.key db) (row_of e.key db')
          (sink_on_transfer_approval-IsStep lib e db db' h).own

  sink_on_transfer_approval-Keeps :
      (e : Event) (db db' : Db) → sink_on_transfer_approval lib e db ≡ returned db' → Keeps db db'
  sink_on_transfer_approval-Keeps e db db' h = record {
    says = λ k f says. kept k f says (sink_on_transfer_approval-IsStep lib e db db' h);
    block_number = (sink_on_transfer_approval-IsStep lib e db db' h).block_number;
  }
    where
      by_row :
          (k : Key) (f : Fact) (o : Option TransferApproval)
          → Says f o
          → step_row lib k e.change o ≡ returned (row_of k db')
          → Recorded k f db'
      by_row k f none says e' = absurd says
      by_row k f (some r) says e' = step_row-keeps k e.change f r (row_of k db') says e'

      kept : (k : Key) (f : Fact) → Recorded k f db → IsStep lib e db db' → Recorded k f db'
      kept k f says s = elim (Bool-cases (same_key k e.key)) [
        | inl own ↦ by_row k f (row_of k db) says (
            subst (λ j. step_row lib j e.change (row_of j db) ≡ returned (row_of j db'))
              (same_key-eq k e.key own) s.own)
        | inr other ↦ subst (Says f) (sym (s.others k other)) says
      ]

  -- The row of one event read, and the rest of the table.
  sink_optional-Keeps :
      (o : Option Event) (db db' : Db) → sink_optional lib o db ≡ returned db' → Keeps db db'
  sink_optional-Keeps none db db' h = subst (Keeps db) (returned_inj h) (Keeps-refl db)
  sink_optional-Keeps (some e) db db' h = sink_on_transfer_approval-Keeps e db db' h

  module _ {A : Type 0} (event : Log A → Run (Option Event)) where
    abbrev pub body : Log A → Db → Run Db
    body e db = event e >>= λ o. sink_optional lib o db

    -- The event is read, and the table says it unless it is passed over.
    abbrev pub IsSunk : Db → Log A → Type 0
    IsSunk db e = (o : Option Event) × (event e ≡ returned o) × SaysEvent o db

    IsSunk-Keeps : (db db' : Db) (e : Log A) → Keeps db db' → IsSunk db e → IsSunk db' e
    IsSunk-Keeps db db' e keeps (none, read, says) = (none, read, tt)
    IsSunk-Keeps db db' e keeps (some ev, read, says) =
        (some ev, read, keeps.says ev.key (fact_of ev.change) says)

    body-Keeps : (e : Log A) (db db' : Db) → body e db ≡ returned db' → Keeps db db'
    body-Keeps e db db' h =
        let o = >>=-eq-returned (event e) (λ o. sink_optional lib o db) h in
        sink_optional-Keeps o.0 db db' o.2

    bodies-Keeps :
        (es : List (Log A)) (db db' : Db) → for_each body es db ≡ returned db' → Keeps db db'
    bodies-Keeps [] db db' h = subst (Keeps db) (returned_inj h) (Keeps-refl db)
    bodies-Keeps (e ∷ es) db db' h =
        let first = >>=-eq-returned (body e db) (for_each body es) h in
        Keeps-trans (body-Keeps e db first.0 first.1) (bodies-Keeps es first.0 db' first.2)

    -- All that a source reads is said.
    abbrev pub SourceIsSunk : ℕ → ℕ → Run (List (Log A)) → Db → Type 0
    SourceIsSunk block_to cursor logs db =
        ltb block_to cursor ≡ false
        → (es : List (Log A)) × (logs ≡ returned es) × All (IsSunk db) es

    pub SourceIsSunk-Keeps :
        (block_to cursor : ℕ) (logs : Run (List (Log A))) (db db' : Db)
        → Keeps db db'
        → SourceIsSunk block_to cursor logs db
        → SourceIsSunk block_to cursor logs db'
    SourceIsSunk-Keeps block_to cursor logs db db' keeps sunk read =
        let es = sunk read in (es.0, es.1, All-imp (λ e. IsSunk-Keeps db db' e keeps) es.0 es.2)

    module _ (strict : lib.merges_none ≡ false) where
      body-IsSunk : (e : Log A) (db db' : Db) → body e db ≡ returned db' → IsSunk db' e
      body-IsSunk e db db' h =
          let o = >>=-eq-returned (event e) (λ o. sink_optional lib o db) h in
          (o.0, o.1, said o.0 o.2)
        where
          said : (o : Option Event) → sink_optional lib o db ≡ returned db' → SaysEvent o db'
          said none k = tt
          said (some ev) k = sink_on_transfer_approval-Recorded strict ev db db' k

      bodies-IsSunk :
          (es : List (Log A)) (db db' : Db)
          → for_each body es db ≡ returned db'
          → All (IsSunk db') es
      bodies-IsSunk [] db db' h = tt
      bodies-IsSunk (e ∷ es) db db' h =
          let first = >>=-eq-returned (body e db) (for_each body es) h in
          (
            IsSunk-Keeps first.0 db' e (bodies-Keeps es first.0 db' first.2)
                (body-IsSunk e db first.0 first.1),
            bodies-IsSunk es first.0 db' first.2,
          )

      pub sync_source-IsSunk :
          (block_to cursor : ℕ) (logs : Run (List (Log A))) (db db' : Db)
          → sync_source lib block_to cursor logs event db ≡ returned db'
          → SourceIsSunk block_to cursor logs db'
      unfolding sync_source
      sync_source-IsSunk block_to cursor logs db db' h read =
          let es = >>=-eq-returned logs (λ es. for_each body es db) (rw read at h) in
          (es.0, es.1, bodies-IsSunk es.0 db db' es.2)

    pub sync_source-Keeps :
        (block_to cursor : ℕ) (logs : Run (List (Log A))) (db db' : Db)
        → sync_source lib block_to cursor logs event db ≡ returned db'
        → Keeps db db'
    unfolding sync_source
    sync_source-Keeps block_to cursor logs db db' h = elim (Bool-cases (ltb block_to cursor)) [
      | inl late ↦ subst (Keeps db) (returned_inj (rw late at h)) (Keeps-refl db)
      | inr read ↦
          let es = >>=-eq-returned logs (λ es. for_each body es db) (rw read at h) in
          bodies-Keeps es.0 db db' es.2
    ]
