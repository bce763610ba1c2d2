-- ===== src/Approval/Sink.antt =====
-- `__sink_on_transfer_approval` of batch/indexer_TransferApproval.py: one event applied to the table.
pub mod Refused
pub mod Machine
use ibet_wallet_api.Base.{
  ℕ, true, Bool, List, [], ◌∷◌, ◌++◌, Option, none, some, first_where, update_first, Run, returned,
  raised, ◌>>=◌, if◌then◌else◌,
}
use ibet_wallet_api.Chain.{Address}
use ibet_wallet_api.Approval.Table.{TransferApproval, Db, Key, is_application, new_row}

-- What `datetime.fromtimestamp(float(text), tz=timezone.utc)` does: a time, a ValueError, or an
-- exception of another class, such as the OverflowError of an infinite number.
pub data Parsed : Type 0 where
  datetime : ℕ → Parsed
  value_error : Parsed
  other_error : Parsed

-- The libraries: the parser of times, and whether `merge(None)` passes without an exception.
pub record Library : Type 0 where
  pub from_timestamp : ℕ → Parsed
  pub merges_none : Bool

-- The event types, with the arguments that are read for them.
pub data Change : Type 0 where
  apply_for : Option Address → Option Address → Option ℕ → Option ℕ → Option ℕ → Change
  cancel : Change
  escrow_finish : Change
  approve : Option ℕ → Option ℕ → Change

pub record Event : Type 0 where
  pub key : Key
  pub change : Change

-- `except ValueError: … = None`
abbrev pub time_of : Parsed → Run (Option ℕ)
time_of (datetime t) = returned (some t)
time_of value_error = returned none
time_of other_error = raised

abbrev pub optional_time : Library → Option ℕ → Run (Option ℕ)
optional_time lib none = returned none
optional_time lib (some text) = time_of (lib.from_timestamp text)

-- The assignments for `ApplyFor`, the first two for a new row only.
abbrev pub created : Option Address → Option Address → TransferApproval → TransferApproval
created from_address to_address r = record r {
  from_address = from_address;
  to_address = to_address;
}

abbrev pub applied : Option ℕ → Option ℕ → Option ℕ → TransferApproval → TransferApproval
applied value time timestamp r = record r {
  value = value;
  application_datetime = time;
  application_blocktimestamp = timestamp;
}

-- The assignments for `Approve`.
abbrev pub approved : Option ℕ → Option ℕ → TransferApproval → TransferApproval
approved time timestamp r = record r {
  approval_datetime = time;
  approval_blocktimestamp = timestamp;
  transfer_approved = some true;
}

-- The row after an event, from the row that the query found. `none` for `merge(None)`.
abbrev pub changed :
    Library → Key → Change → Option TransferApproval → Run (Option TransferApproval)
changed lib k (apply_for from_address to_address value data_ timestamp) none =
    optional_time lib data_ >>= λ time.
    returned (some (applied value time timestamp (created from_address to_address (new_row k))))
changed lib k (apply_for from_address to_address value data_ timestamp) (some r) =
    optional_time lib data_ >>= λ time. returned (some (applied value time timestamp r))
changed lib k cancel none = returned none
changed lib k cancel (some r) = returned (some (record r { cancelled = some true }))
changed lib k escrow_finish none = returned none
changed lib k escrow_finish (some r) = returned (some (record r { escrow_finished = some true }))
changed lib k (approve data_ timestamp) none = returned none
changed lib k (approve data_ timestamp) (some r) =
    optional_time lib data_ >>= λ time. returned (some (approved time timestamp r))

-- `merge`: the row that was found is written back, a new one is added.
abbrev pub merge_row :
    Library → Key → Option TransferApproval → Option TransferApproval → Db → Run Db
merge_row lib k before none db = if lib.merges_none then returned db else raised
merge_row lib k none (some r) db =
    returned (record db { transfer_approval = db.transfer_approval ++ (r ∷ []) })
merge_row lib k (some _) (some r) db = returned (record db {
  transfer_approval = update_first (is_application k) (λ _. r) db.transfer_approval;
})

abbrev pub sink_found : Library → Event → Option TransferApproval → Db → Run Db
sink_found lib e before db =
    changed lib e.key e.change before >>= λ after. merge_row lib e.key before after db

-- `__sink_on_transfer_approval`
unfoldable pub sink_on_transfer_approval : Library → Event → Db → Run Db
sink_on_transfer_approval lib e db =
    sink_found lib e (first_where (is_application e.key) db.transfer_approval) db
