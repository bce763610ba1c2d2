-- ===== src/Holders/Process/Moves.antt =====
-- The postings of each event, as the contracts document them, and that the loops of
-- batch/indexer_Token_Holders.py post exactly these.
use ibet_wallet_api.Base.{
  ℕ, ◌≡◌, refl, ◌∙◌, ap, sym, Bool, List, [], ◌∷◌, ◌++◌, if◌then◌else◌, leb, ◌==◌, ◌||◌, ℤ, pos,
  neg, ◌+ℤ◌, Option, none, some, Run, returned, for_each, each, or_else, Bool-cases, inl, inr,
}
use ibet_wallet_api.Chain.{Address, zero_address, max_size, Log, total, total-append}
use ibet_wallet_api.Holders.Book.{Book, Move, Column, share, post, store_move}
use ibet_wallet_api.Holders.Events.{
  TransferArgs, SupplyArgs, ConsumeArgs, LockArgs, UnlockArgs, ChangeLockedArgs, Node,
}
use ibet_wallet_api.Holders.Process.{
  if_capped, transfer_step, issue_step, redeem_step, consume_step, lock_step, unlock_step,
  change_locked_step,
}

abbrev pub move : Address → ℤ → ℤ → Move
move account amount locked_amount = record {
  account = account;
  amount = amount;
  locked_amount = locked_amount;
}

abbrev pub at : Option Address → Address
at o = or_else o zero_address

-- A transfer moves its value, unless a contract is one of the two accounts.
abbrev pub transfer_moves : (Address → Bool) → Log TransferArgs → List Move
transfer_moves is_contract e =
    if is_contract (at e.args.from) || is_contract (at e.args.to)
    then []
    else if leb e.args.value max_size
    then move (at e.args.from) (neg (pos e.args.value)) (pos 0)
      ∷ move (at e.args.to) (pos e.args.value) (pos 0)
      ∷ []
    else []

-- Issuance to an account adds to its balance; issuance to a lock address adds nothing here.
abbrev pub issue_moves : Log SupplyArgs → List Move
issue_moves e =
    if at e.args.lock_address == zero_address
    then if_capped e.args.amount (λ v. move (at e.args.target_address) (pos v) (pos 0) ∷ []) []
    else []

abbrev pub redeem_moves : Log SupplyArgs → List Move
redeem_moves e =
    if at e.args.lock_address == zero_address
    then if_capped e.args.amount (λ v. move (at e.args.target_address) (neg (pos v)) (pos 0) ∷ [])
        []
    else []

abbrev pub consume_moves : Log ConsumeArgs → List Move
consume_moves e = move (at e.args.consumer) (neg (pos (or_else e.args.value 0))) (pos 0) ∷ []

-- A lock turns balance into locked balance of the same account.
abbrev pub lock_moves : Log LockArgs → List Move
lock_moves e =
    if_capped e.args.value (λ v. move (at e.args.account_address) (neg (pos v)) (pos v) ∷ []) []

-- An unlock takes locked balance from one account and gives balance to another.
abbrev pub unlock_moves : Log UnlockArgs → List Move
unlock_moves e =
    if_capped e.args.value
      (λ v.
        move (at e.args.account_address) (pos 0) (neg (pos v))
        ∷ move (at e.args.recipient_address) (pos v) (pos 0)
        ∷ [])
      []

-- A change of the locked account moves locked balance.
abbrev pub change_locked_moves : Log ChangeLockedArgs → List Move
change_locked_moves e =
    if_capped e.args.value
      (λ v.
        move (at e.args.before_account_address) (pos 0) (neg (pos v))
        ∷ move (at e.args.after_account_address) (pos 0) (pos v)
        ∷ [])
      []

-- All postings of a list of events.
abbrev pub all_moves {ℓ} : {A : Type ℓ} → (A → List Move) → List A → List Move
all_moves moves [] = []
all_moves moves (e ∷ es) = moves e ++ all_moves moves es

pub post-append : (ms ns : List Move) (book : Book) → post (ms ++ ns) book ≡ post ns (post ms book)
post-append [] ns book = refl
post-append (m ∷ ms) ns book = post-append ms ns (store_move m book)

-- A loop whose body posts what `moves` says posts all of it.
pub each-post {ℓ} :
    {A : Type ℓ} (step : A → Book → Book) (moves : A → List Move)
    → ((e : A) (book : Book) → step e book ≡ post (moves e) book)
    → (es : List A) (book : Book) → each step es book ≡ post (all_moves moves es) book
each-post step moves h [] book = refl
each-post step moves h (e ∷ es) book =
    each-post step moves h es (step e book)
    ∙ ap (post (all_moves moves es)) (h e book)
    ∙ sym (post-append (moves e) (all_moves moves es) book)

pub for_each-post {ℓ} :
    {A : Type ℓ} (step : A → Book → Run Book) (moves : A → List Move)
    → ((e : A) (book : Book) → step e book ≡ returned (post (moves e) book))
    → (es : List A) (book : Book)
    → for_each step es book ≡ returned (post (all_moves moves es) book)
for_each-post step moves h [] book = refl
for_each-post step moves h (e ∷ es) book =
    rw (h e book, for_each-post step moves h es (post (moves e) book))
      (ap returned (sym (post-append (moves e) (all_moves moves es) book)))

pub total-all_moves {ℓ} :
    {A : Type ℓ} (c : Column) (a : Address) (moves : A → List Move) (es : List A)
    → total (share c a) (all_moves moves es) ≡ total (λ e. total (share c a) (moves e)) es
total-all_moves c a moves [] = refl
total-all_moves c a moves (e ∷ es) =
    total-append (share c a) (moves e) (all_moves moves es)
    ∙ ap (λ t. total (share c a) (moves e) +ℤ t) (total-all_moves c a moves es)

-- Posting commutes with the test on the amount.
post-if_capped :
    (o : Option ℕ) (f : ℕ → List Move) (g : ℕ → Book) (book : Book)
    → ((v : ℕ) → g v ≡ post (f v) book)
    → if_capped o g book ≡ post (if_capped o f []) book
post-if_capped none f g book h = refl
post-if_capped (some v) f g book h = elim (Bool-cases (leb v max_size)) [
  | inl small ↦ rw small (h v)
  | inr large ↦ rw large
]

pub issue_step-post :
    (e : Log SupplyArgs) (book : Book) → issue_step e book ≡ post (issue_moves e) book
unfolding issue_step
issue_step-post e book = elim (Bool-cases (at e.args.lock_address == zero_address)) [
  | inl unlocked ↦ rw unlocked (post-if_capped e.args.amount _ _ book (λ v. refl))
  | inr locked ↦ rw locked
]

pub redeem_step-post :
    (e : Log SupplyArgs) (book : Book) → redeem_step e book ≡ post (redeem_moves e) book
unfolding redeem_step
redeem_step-post e book = elim (Bool-cases (at e.args.lock_address == zero_address)) [
  | inl unlocked ↦ rw unlocked (post-if_capped e.args.amount _ _ book (λ v. refl))
  | inr locked ↦ rw locked
]

pub consume_step-post :
    (e : Log ConsumeArgs) (book : Book) → consume_step e book ≡ post (consume_moves e) book
unfolding consume_step
consume_step-post e book = refl

pub lock_step-post : (e : Log LockArgs) (book : Book) → lock_step e book ≡ post (lock_moves e) book
unfolding lock_step
lock_step-post e book = post-if_capped e.args.value _ _ book (λ v. refl)

pub unlock_step-post :
    (e : Log UnlockArgs) (book : Book) → unlock_step e book ≡ post (unlock_moves e) book
unfolding unlock_step
unlock_step-post e book = post-if_capped e.args.value _ _ book (λ v. refl)

pub change_locked_step-post :
    (e : Log ChangeLockedArgs) (book : Book)
    → change_locked_step e book ≡ post (change_locked_moves e) book
unfolding change_locked_step
change_locked_step-post e book = post-if_capped e.args.value _ _ book (λ v. refl)

-- Where the node answers every `get_code`, the loop over transfers posts the transfers.
pub transfer_step-post :
    (n : Node) (is_contract : Address → Bool)
    → ((a : Address) → n.get_code a ≡ some (is_contract a))
    → (e : Log TransferArgs) (book : Book)
    → transfer_step n e book ≡ returned (post (transfer_moves is_contract e) book)
unfolding transfer_step
transfer_step-post n is_contract codes e book =
    rw (codes (at e.args.from)) (elim (Bool-cases (is_contract (at e.args.from))) [
      | inl c ↦ rw c
      | inr nc ↦
          rw (nc, codes (at e.args.to))
            (elim (Bool-cases (is_contract (at e.args.to))) [
              | inl c ↦ rw c
              | inr nd ↦ rw nd (elim (Bool-cases (leb e.args.value max_size)) [
                | inl small ↦ rw small
                | inr large ↦ rw large
              ])
            ])
    ])
