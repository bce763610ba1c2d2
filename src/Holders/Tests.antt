-- ===== src/Holders/Tests.antt =====
-- The holder list of one token on a small chain: a run of the batch, and instances of the theorems.
use ibet_wallet_api.Base.{
  ℕ, ◌≡◌, ◌≤◌, ◌<◌, refl, true, [], ◌∷◌, some, ◌==◌, pos, neg, ◌+ℤ◌, ◌≤ℤ◌, returned, arith, All,
  some_inj, Bool-cases, inl, inr, ==_iff,
}
use mathlib.Core.Path.{subst}
use ibet_wallet_api.Holders.Collect.Tracks.{Holds}
use ibet_wallet_api.Holders.Table.Rows.{column_of}
use ibet_wallet_api.Chain.{
  Address, Log, found, abi_event_not_found, unavailable, events_of, in_range, sorted,
}
use ibet_wallet_api.Holders.Book.{Column, hold, locked, store, balance, post}
use ibet_wallet_api.Holders.Events.{ibet_share, Node}
use ibet_wallet_api.Holders.Process.{
  process_book, process_transfer, process_issue, process_redeem, process_locks, process_lock,
  process_force_lock, process_unlock, process_force_unlock, process_force_change_locked_account,
  process_consume, transfer_step, issue_step, redeem_step, lock_step, unlock_step,
  change_locked_step,
}
use ibet_wallet_api.Holders.Process.Effect.{Ledger, Answers, token_info, range_moves}
use ibet_wallet_api.Holders.Process.Net.{net, balance-process_book}
use ibet_wallet_api.Holders.Table.{
  TokenHoldersList, TokenHolder, Db, pending, done, find_row, load_target, find_checkpoint, latest,
  delete_non_holders, set_status, save_holders, save_page, is_checkpoint,
}
use ibet_wallet_api.Holders.Collect.{
  fresh, collect, completed, load_token_info, gather, process_chunks, process_all,
}
use ibet_wallet_api.Holders.Collect.Checkpoint.{find_checkpoint-IsLatest}
use ibet_wallet_api.Holders.Collect.Exact.{IsReady, IsExact, collect-IsExact}
use ibet_wallet_api.Holders.Collect.Outcomes.{IsAtomic, collect-IsAtomic}

abbrev share_token : Address
share_token = 500

abbrev owner : Address
owner = 9

abbrev log : {A : Type 0} → ℕ → ℕ → A → Log A
log block index args = record { block_number = block; log_index = index; args = args }

-- 100 are issued to account 7 in block 3; it sends 40 to account 8 in block 5 and locks 30 in
-- block 6.
abbrev ledger : Ledger
ledger = record {
  is_contract = λ a. a == share_token;
  holder_changed = [];
  transfer = log 5 0 (record { from = some 7; to = some 8; value = 40 }) ∷ [];
  issue =
      log 3 0 (record { target_address = some 7; lock_address = some 0; amount = some 100 }) ∷ [];
  redeem = [];
  consume = [];
  lock = log 6 1 (record { account_address = some 7; value = some 30 }) ∷ [];
  force_lock = [];
  unlock = [];
  force_unlock = [];
  change_locked = [];
}

abbrev node : Node
node = record {
  get_code = λ a. some (a == share_token);
  get_token = λ a. some (ibet_share, owner);
  tradable_exchange = λ a. some 600;
  holder_changed = λ e t a b. abi_event_not_found;
  transfer = λ t a b. found (in_range a b ledger.transfer);
  issue = λ t a b. found (in_range a b ledger.issue);
  redeem = λ t a b. found [];
  consume = λ t a b. abi_event_not_found;
  lock = λ t a b. found (in_range a b ledger.lock);
  force_lock = λ t a b. found [];
  unlock = λ t a b. found [];
  force_unlock = λ t a b. found [];
  force_change_locked_account = λ t a b. found [];
}

node-Answers : Answers node 600 share_token ledger
unfolding events_of
node-Answers = record {
  codes = λ a. refl;
  holder_changed = λ a b. refl;
  transfer = λ a b. refl;
  issue = λ a b. refl;
  redeem = λ a b. refl;
  consume = λ a b. refl;
  lock = λ a b. refl;
  force_lock = λ a b. refl;
  unlock = λ a b. refl;
  force_unlock = λ a b. refl;
  change_locked = λ a b. refl;
}

abbrev target : TokenHoldersList
target = record {
  id = 2;
  token_address = share_token;
  block_number = 10;
  list_id = 22;
  batch_status = pending;
}

abbrev earlier : TokenHoldersList
earlier = record {
  id = 1;
  token_address = share_token;
  block_number = 4;
  list_id = 11;
  batch_status = done;
}

abbrev row : ℕ → Address → ℕ → ℕ → TokenHolder
row id a h k = record {
  holder_list = id;
  account_address = a;
  hold_balance = pos h;
  locked_balance = pos k;
}

abbrev db : Db
db = record { token_holders_list = earlier ∷ target ∷ []; token_holder = row 1 7 100 0 ∷ [] }

collect_run : collect (some 1) node fresh db ≡ (
  fresh,
  record {
    token_holders_list = earlier ∷ record target { batch_status = done } ∷ [];
    token_holder = row 1 7 100 0 ∷ row 2 7 30 30 ∷ row 2 8 40 0 ∷ [];
  },
  completed,
)
unfolding collect load_token_info gather process_chunks process_all process_book process_transfer
    process_issue process_redeem process_locks process_lock process_force_lock process_unlock
    process_force_unlock process_force_change_locked_account process_consume transfer_step
    issue_step redeem_step lock_step unlock_step change_locked_step store save_holders
    delete_non_holders set_status events_of sorted ◌+ℤ◌ neg load_target save_page
collect_run = refl

-- Every account of the ledger, and any other, at block 4 and at block 10.
earlier-exact :
    (c : Column) (a : Address)
    → column_of c (find_row 1 a db.token_holder) ≡ net ibet_share share_token ledger c a 0 4
unfolding find_row net ◌+ℤ◌ neg
earlier-exact hold a = elim (Bool-cases (7 == a)) [ inl e ↦ rw e | inr e ↦ rw e ]
earlier-exact locked a = elim (Bool-cases (7 == a)) [ inl e ↦ rw e | inr e ↦ rw e ]

ledger-solvent : (c : Column) (a : Address) → pos 0 ≤ℤ net ibet_share share_token ledger c a 0 10
unfolding net ◌+ℤ◌ neg
ledger-solvent hold a = elim (Bool-cases (7 == a)) [
  | inl e ↦ rw e (elim (Bool-cases (8 == a)) [
    | inl d ↦ absurd (omega (arith, (==_iff 7 a).0 e, (==_iff 8 a).0 d))
    | inr d ↦ rw d (omega arith)
  ])
  | inr e ↦
      rw e (elim (Bool-cases (8 == a)) [ inl d ↦ rw d (omega arith) | inr d ↦ rw d (omega arith) ])
]
ledger-solvent locked a = elim (Bool-cases (7 == a)) [
  | inl e ↦ rw e (elim (Bool-cases (8 == a)) [
    | inl d ↦ absurd (omega (arith, (==_iff 7 a).0 e, (==_iff 8 a).0 d))
    | inr d ↦ rw d (omega arith)
  ])
  | inr e ↦
      rw e (elim (Bool-cases (8 == a)) [ inl d ↦ rw d (omega arith) | inr d ↦ rw d (omega arith) ])
]

node-IsReady : IsReady node 600 owner ibet_share ledger target db
unfolding find_row find_checkpoint latest
node-IsReady = record {
  serves = node-Answers;
  key = (refl, tt);
  no_rows = λ a. ground arith;
  checkpoint = λ u e c a h.
      subst (λ v. Holds owner ibet_share share_token ledger v.id v.block_number db.token_holder)
        (some_inj e) (λ c a h. earlier-exact c a) c a h;
}

collect-IsExact_example : IsExact owner ibet_share ledger target db (collect (some 1) node fresh db)
unfolding load_target load_token_info
collect-IsExact_example =
    collect-IsExact node 600 owner ibet_share ledger target db (some 1) node-IsReady refl refl
      (λ c a h. ledger-solvent c a)

-- A chain on which the node cannot be reached for the transfers of the token.
abbrev failing : Node
failing = record node { transfer = λ t a b. unavailable }

collect-IsAtomic_example : IsAtomic (load_target db) db (collect (some 1) failing fresh db)
collect-IsAtomic_example = collect-IsAtomic (some 1) failing fresh db

balance-process_book_example :
    let book' = post (range_moves ibet_share share_token ledger 0 4) [] in
    (process_book node (token_info 600 owner ibet_share) share_token 0 4 [] ≡ returned book')
    × ((c : Column) (a : Address)
        → balance c a book' ≡ balance c a [] +ℤ net ibet_share share_token ledger c a 0 4)
balance-process_book_example =
    balance-process_book node 600 share_token owner ibet_share ledger node-Answers 0 4 []

find_checkpoint-IsLatest_example :
    (earlier.token_address ≡ share_token)
    × (earlier.block_number < 10)
    × (earlier.batch_status ≡ done)
    × All
        (λ v. is_checkpoint share_token 10 v ≡ true → v.block_number ≤ earlier.block_number)
        db.token_holders_list
unfolding find_checkpoint latest
find_checkpoint-IsLatest_example = find_checkpoint-IsLatest share_token 10 db earlier refl
