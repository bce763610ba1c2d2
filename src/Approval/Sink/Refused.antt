-- ===== src/Approval/Sink/Refused.antt =====
-- Which events `__sink_on_transfer_approval` of batch/indexer_TransferApproval.py refuses.
use ibet_wallet_api.Base.{
  ℕ, ◌≡◌, refl, true, false, Bool, Option, none, some, if◌then◌else◌, Run, returned, raised, ◌>>=◌,
  Bool-cases, inl, inr,
}
use ibet_wallet_api.Approval.Table.{TransferApproval, Db, Key, new_row}
use ibet_wallet_api.Approval.Sink.{
  Library, Change, apply_for, cancel, escrow_finish, approve, Event, Parsed, datetime, value_error,
  other_error, time_of, optional_time, created, applied, approved, merge_row, sink_found,
  sink_on_transfer_approval,
}
use ibet_wallet_api.Approval.Sink.Machine.{row_of}

abbrev pub is_other_error : Parsed → Bool
is_other_error (datetime t) = false
is_other_error value_error = false
is_other_error other_error = true

-- A text whose conversion raises an exception that is no ValueError.
abbrev pub refuses_time : Library → Option ℕ → Bool
refuses_time lib none = false
refuses_time lib (some text) = is_other_error (lib.from_timestamp text)

-- The event of an application with this row raises.
abbrev pub refuses : Library → Change → Option TransferApproval → Bool
refuses lib (apply_for f t v d s) before = refuses_time lib d
refuses lib cancel none = if lib.merges_none then false else true
refuses lib escrow_finish none = if lib.merges_none then false else true
refuses lib (approve d s) none = if lib.merges_none then false else true
refuses lib cancel (some r) = false
refuses lib escrow_finish (some r) = false
refuses lib (approve d s) (some r) = refuses_time lib d

-- A run of the sink, and whether it was to be refused.
abbrev Answers : Run Db → Bool → Type 0
Answers m true = m ≡ raised
Answers m false = (db : Db) × (m ≡ returned db)

module _ (lib : Library) (k : Key) (db : Db) where
  none-Answers : Answers (merge_row lib k none none db) (if lib.merges_none then false else true)
  none-Answers = elim (Bool-cases lib.merges_none) [
    | inl passes ↦ rw passes (db, refl)
    | inr raises ↦ rw raises refl
  ]

  merge_row-some :
      (before : Option TransferApproval) (r : TransferApproval)
      → (db' : Db) × (merge_row lib k before (some r) db ≡ returned db')
  merge_row-some none r = (_, refl)
  merge_row-some (some x) r = (_, refl)

  timed-Answers :
      (d : Option ℕ) (g : Option ℕ → TransferApproval) (before : Option TransferApproval)
      → Answers
          ((optional_time lib d >>= λ t. returned (some (g t))) >>= λ after.
            merge_row lib k before after db)
          (refuses_time lib d)
  timed-Answers none g before = merge_row-some before (g none)
  timed-Answers (some text) g before = parsed (lib.from_timestamp text)
    where
      parsed :
          (p : Parsed)
          → Answers
              ((time_of p >>= λ t. returned (some (g t))) >>= λ after.
                merge_row lib k before after db)
              (is_other_error p)
      parsed (datetime t) = merge_row-some before (g (some t))
      parsed value_error = merge_row-some before (g none)
      parsed other_error = refl

sink_found-Answers :
    (lib : Library) (k : Key) (c : Change) (before : Option TransferApproval) (db : Db)
    → Answers (sink_found lib (record { key = k; change = c }) before db) (refuses lib c before)
sink_found-Answers lib k (apply_for f t v d s) none db =
    timed-Answers lib k db d (λ x. applied v x s (created f t (new_row k))) none
sink_found-Answers lib k (apply_for f t v d s) (some r) db =
    timed-Answers lib k db d (λ x. applied v x s r) (some r)
sink_found-Answers lib k cancel none db = none-Answers lib k db
sink_found-Answers lib k cancel (some r) db = merge_row-some lib k db (some r) _
sink_found-Answers lib k escrow_finish none db = none-Answers lib k db
sink_found-Answers lib k escrow_finish (some r) db = merge_row-some lib k db (some r) _
sink_found-Answers lib k (approve d s) none db = none-Answers lib k db
sink_found-Answers lib k (approve d s) (some r) db =
    timed-Answers lib k db d (λ x. approved x s r) (some r)

-- An event raises if its time is a text whose conversion fails with another exception than
-- ValueError, or if it is no application, there is no row of its application, and `merge(None)`
-- raises. Every other event returns tables.
pub sink_on_transfer_approval-refuses :
    (lib : Library) (e : Event) (db : Db)
    → (refuses lib e.change (row_of e.key db) ≡ true → sink_on_transfer_approval lib e db ≡ raised)
      × (refuses lib e.change (row_of e.key db) ≡ false
          → (db' : Db) × (sink_on_transfer_approval lib e db ≡ returned db'))
unfolding sink_on_transfer_approval
sink_on_transfer_approval-refuses lib e db =
    let answer = sink_found-Answers lib e.key e.change (row_of e.key db) db in
    ((λ h. rw h at answer), (λ h. rw h at answer))
