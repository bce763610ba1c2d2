-- ===== src/Approval/Sink/Machine.antt =====
-- The table `transfer_approval` is a state machine for each application: an event changes the row of
-- its application as the machine says, and no other row that a query finds.
use ibet_wallet_api.Base.{
  ℕ, ◌≡◌, refl, sym, ap, ◌∙◌, Bool, true, false, ◌&&◌, List, [], ◌∷◌, ◌++◌, Option, none, some,
  first_where, update_first, Run, returned, raised, out_of_fuel, ◌>>=◌, for_each, select,
  if◌then◌else◌, Bool-cases, inl, inr, arith, >>=-eq-returned, returned_inj, some_inj, ◌⊎◌, ◌==◌,
}
use mathlib.Core.Path.{subst}
use ibet_wallet_api.Approval.Table.{TransferApproval, Db, Key, same_option, is_application, new_row}
use ibet_wallet_api.Approval.Sink.{
  Library, Change, apply_for, cancel, escrow_finish, approve, Event, optional_time, created,
  applied, approved, changed, merge_row, sink_on_transfer_approval,
}

-- The test of the query, between keys.
abbrev pub same_key : Key → Key → Bool
same_key k j =
    j.token == k.token
    && (same_option j.exchange k.exchange && same_option j.application k.application)

abbrev pub keep_row :
    Library → Option TransferApproval → Option TransferApproval → Run (Option TransferApproval)
keep_row lib before none = if lib.merges_none then returned before else raised
keep_row lib before (some r) = returned (some r)

-- One step of the machine: the row, if there is one, after an event of its application.
abbrev pub step_row :
    Library → Key → Change → Option TransferApproval → Run (Option TransferApproval)
step_row lib k c before = changed lib k c before >>= keep_row lib before

-- The row of an application.
abbrev pub row_of : Key → Db → Option TransferApproval
row_of k db = first_where (is_application k) db.transfer_approval

module _ {A : Type 0} where
  first_where-update_same :
      (p : A → Bool) (r : A) (x : A) (xs : List A)
      → p r ≡ true
      → first_where p xs ≡ some x
      → first_where p (update_first p (λ _. r) xs) ≡ some r
  unfolding first_where update_first
  first_where-update_same p r x [] h e = cc
  first_where-update_same p r x (y ∷ ys) h e = elim (Bool-cases (p y)) [
    | inl here ↦ rw here (rw h refl)
    | inr later ↦ rw later (rw later (first_where-update_same p r x ys h (rw later at e)))
  ]

  -- A test that no row passes which the update touches.
  first_where-update_apart :
      (p q : A → Bool) (r : A) (xs : List A)
      → q r ≡ false
      → ((x : A) → p x ≡ true → q x ≡ false)
      → first_where q (update_first p (λ _. r) xs) ≡ first_where q xs
  unfolding first_where update_first
  first_where-update_apart p q r [] h apart = refl
  first_where-update_apart p q r (y ∷ ys) h apart = elim (Bool-cases (p y)) [
    | inl here ↦ rw here (rw (h, apart y here) refl)
    | inr later ↦ rw later (
        ap (λ (o : Option A). if q y then some y else o)
          (first_where-update_apart p q r ys h apart))
  ]

  pub first_where-append :
      (q : A → Bool) (xs : List A) (r : A)
      → first_where q xs ≡ none
      → first_where q (xs ++ (r ∷ [])) ≡ (if q r then some r else none)
  unfolding first_where
  first_where-append q [] r e = refl
  first_where-append q (y ∷ ys) r e = elim (Bool-cases (q y)) [
    | inl here ↦ cc (rw here at e)
    | inr later ↦ rw later (first_where-append q ys r (rw later at e))
  ]

  pub first_where-append-apart :
      (q : A → Bool) (xs : List A) (r : A)
      → q r ≡ false
      → first_where q (xs ++ (r ∷ [])) ≡ first_where q xs
  unfolding first_where
  first_where-append-apart q [] r h = rw h refl
  first_where-append-apart q (y ∷ ys) r h =
      ap (λ (o : Option A). if q y then some y else o) (first_where-append-apart q ys r h)

-- The columns that identify an application.
pub record HasKey (k : Key) (r : TransferApproval) : Type 0 where
  pub token : r.token_address ≡ k.token
  pub exchange : r.exchange_address ≡ k.exchange
  pub application : r.application_id ≡ k.application

same_option_refl : (o : Option ℕ) → same_option o o ≡ true
same_option_refl none = refl
same_option_refl (some a) = ground arith

same_option-eq : (a b : Option ℕ) → same_option a b ≡ true → a ≡ b
same_option-eq none none h = refl
same_option-eq none (some b) h = cc
same_option-eq (some a) none h = cc
same_option-eq (some a) (some b) h = ap some (ground (arith, h))

is_application-HasKey : (k : Key) (r : TransferApproval) → is_application k r ≡ true → HasKey k r
is_application-HasKey k r h = record {
  token = ground (arith, h);
  exchange = same_option-eq r.exchange_address k.exchange (ground (arith, h));
  application = same_option-eq r.application_id k.application (ground (arith, h));
}

HasKey-is_application :
    (k j : Key) (r : TransferApproval) → HasKey k r → is_application j r ≡ same_key j k
HasKey-is_application k j r h = rw (h.token, h.exchange, h.application)

same_key_refl : (k : Key) → same_key k k ≡ true
same_key_refl k = rw (same_option_refl k.exchange, same_option_refl k.application) (ground arith)

found-HasKey :
    (k : Key) (xs : List TransferApproval) (r : TransferApproval)
    → first_where (is_application k) xs ≡ some r
    → HasKey k r
unfolding first_where
found-HasKey k [] r e = cc
found-HasKey k (x ∷ xs) r e = elim (Bool-cases (is_application k x)) [
  | inl here ↦ subst (HasKey k) (some_inj (rw here at e)) (is_application-HasKey k x here)
  | inr later ↦ found-HasKey k xs r (rw later at e)
]

pub same_key-eq : (k j : Key) → same_key k j ≡ true → j ≡ k
same_key-eq k j h =
    let a : j.token ≡ k.token = ground (arith, h) in
    let b : j.exchange ≡ k.exchange = same_option-eq j.exchange k.exchange (ground (arith, h)) in
    let c : j.application ≡ k.application =
      same_option-eq j.application k.application (ground (arith, h)) in
    λ i. record { token = a i; exchange = b i; application = c i }

changed-HasKey :
    (lib : Library) (k : Key) (c : Change) (o : Option TransferApproval) (r : TransferApproval)
    → ((x : TransferApproval) → o ≡ some x → HasKey k x)
    → changed lib k c o ≡ returned (some r)
    → HasKey k r
changed-HasKey lib k (apply_for f t v d s) none r keyed h = timed (optional_time lib d) h
  where
    timed :
        (m : Run (Option ℕ))
        → (m >>= λ time. returned (some (applied v time s (created f t (new_row k)))))
          ≡ returned (some r)
        → HasKey k r
    timed (returned time) e =
        subst (HasKey k) (some_inj (returned_inj e))
          (record { token = refl; exchange = refl; application = refl })
    timed raised e = cc
    timed out_of_fuel e = cc
changed-HasKey lib k (apply_for f t v d s) (some x) r keyed h = timed (optional_time lib d) h
  where
    timed :
        (m : Run (Option ℕ))
        → (m >>= λ time. returned (some (applied v time s x))) ≡ returned (some r)
        → HasKey k r
    timed (returned time) e =
        let old = keyed x refl in
        subst (HasKey k) (some_inj (returned_inj e))
          (record { token = old.token; exchange = old.exchange; application = old.application })
    timed raised e = cc
    timed out_of_fuel e = cc
changed-HasKey lib k cancel none r keyed h = cc
changed-HasKey lib k cancel (some x) r keyed h =
    let old = keyed x refl in
    subst (HasKey k) (some_inj (returned_inj h))
      (record { token = old.token; exchange = old.exchange; application = old.application })
changed-HasKey lib k escrow_finish none r keyed h = cc
changed-HasKey lib k escrow_finish (some x) r keyed h =
    let old = keyed x refl in
    subst (HasKey k) (some_inj (returned_inj h))
      (record { token = old.token; exchange = old.exchange; application = old.application })
changed-HasKey lib k (approve d s) none r keyed h = cc
changed-HasKey lib k (approve d s) (some x) r keyed h = timed (optional_time lib d) h
  where
    timed :
        (m : Run (Option ℕ))
        → (m >>= λ time. returned (some (approved time s x))) ≡ returned (some r)
        → HasKey k r
    timed (returned time) e =
        let old = keyed x refl in
        subst (HasKey k) (some_inj (returned_inj e))
          (record { token = old.token; exchange = old.exchange; application = old.application })
    timed raised e = cc
    timed out_of_fuel e = cc

-- An event that returns takes the row of its application one step further, and leaves the rest.
pub record IsStep (lib : Library) (e : Event) (db db' : Db) : Type 0 where
  pub own : step_row lib e.key e.change (row_of e.key db) ≡ returned (row_of e.key db')
  pub others : (k : Key) → same_key k e.key ≡ false → row_of k db' ≡ row_of k db
  pub block_number : db'.block_number ≡ db.block_number

merged-IsStep :
    (lib : Library) (e : Event) (before : Option TransferApproval) (db db' : Db)
    → row_of e.key db ≡ before
    → (m : Run (Option TransferApproval)) → changed lib e.key e.change before ≡ m
    → (m >>= λ after. merge_row lib e.key before after db) ≡ returned db'
    → IsStep lib e db db'
merged-IsStep lib e before db db' found (returned none) c h = elim (Bool-cases lib.merges_none) [
  | inl passes ↦
      let same : db ≡ db' = returned_inj (rw passes at h) in
      subst (IsStep lib e db) same
        (record { own = rw (found, c, passes) refl; others = λ k d. refl; block_number = refl })
  | inr fails ↦ cc (rw fails at h)
]
merged-IsStep lib e none db db' found (returned (some r)) c h =
    let key = changed-HasKey lib e.key e.change none r (λ x d. cc) c in
    subst (IsStep lib e db) (returned_inj h) (record {
      own =
          rw (found, c)
            (sym (
              ap returned (
                first_where-append (is_application e.key) db.transfer_approval r found
                ∙ rw (HasKey-is_application e.key e.key r key, same_key_refl e.key) refl)));
      others = λ k d.
          first_where-append-apart (is_application k) db.transfer_approval r
            (HasKey-is_application e.key k r key ∙ d);
      block_number = refl;
    })
merged-IsStep lib e (some x) db db' found (returned (some r)) c h =
    let old = found-HasKey e.key db.transfer_approval x found in
    let key =
      changed-HasKey lib e.key e.change (some x) r (λ y d. subst (HasKey e.key) (some_inj d) old)
        c in
    subst (IsStep lib e db) (returned_inj h) (record {
      own =
          rw (found, c)
            (sym (
              ap returned (
                first_where-update_same (is_application e.key) r x db.transfer_approval
                  (HasKey-is_application e.key e.key r key ∙ same_key_refl e.key) found)));
      others = λ k d.
          first_where-update_apart (is_application e.key) (is_application k) r db.transfer_approval
            (HasKey-is_application e.key k r key ∙ d)
            (λ y p. HasKey-is_application e.key k y (is_application-HasKey e.key y p) ∙ d);
      block_number = refl;
    })
merged-IsStep lib e before db db' found raised c h = cc
merged-IsStep lib e before db db' found out_of_fuel c h = cc

pub sink_on_transfer_approval-IsStep :
    (lib : Library) (e : Event) (db db' : Db)
    → sink_on_transfer_approval lib e db ≡ returned db'
    → IsStep lib e db db'
unfolding sink_on_transfer_approval
sink_on_transfer_approval-IsStep lib e db db' h =
    merged-IsStep lib e (row_of e.key db) db db' refl (changed lib e.key e.change (row_of e.key db))
      refl h

-- The machine of one application over the events of a list.
abbrev pub run_row :
    Library → Key → List Event → Option TransferApproval → Run (Option TransferApproval)
run_row lib k = for_each (λ e. step_row lib k e.change)

-- The events of one application.
abbrev pub events_for : Key → List Event → List Event
events_for k = select (λ e. same_key k e.key)

-- Each application's row is what its machine makes of its own events, in their order.
pub record AreRun (lib : Library) (es : List Event) (db db' : Db) : Type 0 where
  pub rows : (k : Key) → run_row lib k (events_for k es) (row_of k db) ≡ returned (row_of k db')
  pub block_number : db'.block_number ≡ db.block_number

pub AreRun-nil : (lib : Library) (db : Db) → AreRun lib [] db db
AreRun-nil lib db = record { rows = λ k. refl; block_number = refl }

pub for_each-AreRun :
    (lib : Library) (es : List Event) (db db' : Db)
    → for_each (sink_on_transfer_approval lib) es db ≡ returned db'
    → AreRun lib es db db'
for_each-AreRun lib [] db db' h = subst (AreRun lib [] db) (returned_inj h) (AreRun-nil lib db)
for_each-AreRun lib (e ∷ es) db db' h =
    let first =
      >>=-eq-returned (sink_on_transfer_approval lib e db)
        (for_each (sink_on_transfer_approval lib) es) h in
    let s = sink_on_transfer_approval-IsStep lib e db first.0 first.1 in
    let rest = for_each-AreRun lib es first.0 db' first.2 in
    record {
      rows = λ k. by_key k first.0 s rest (Bool-cases (same_key k e.key));
      block_number = rest.block_number ∙ s.block_number;
    }
  where
    by_key :
        (k : Key) (mid : Db)
        → IsStep lib e db mid
        → AreRun lib es mid db'
        → (same_key k e.key ≡ true) ⊎ (same_key k e.key ≡ false)
        → run_row lib k (events_for k (e ∷ es)) (row_of k db) ≡ returned (row_of k db')
    by_key k mid s rest (inl own) = rw own (
        ap (λ m. m >>= run_row lib k (events_for k es))
          (subst (λ j. step_row lib j e.change (row_of j db) ≡ returned (row_of j mid))
            (same_key-eq k e.key own) s.own)
        ∙ rest.rows k)
    by_key k mid s rest (inr other) =
        rw other (ap (run_row lib k (events_for k es)) (sym (s.others k other)) ∙ rest.rows k)
