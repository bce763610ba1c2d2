-- ===== src/Holders/Process.antt =====
-- `Processor.__process_all` and the methods that it calls, without `__save_holders`.
pub mod Moves
pub mod Effect
pub mod Net
use ibet_wallet_api.Base.{
  ℕ, Bool, true, false, Option, none, some, List, ◌++◌, map, leb, ◌==◌, if◌then◌else◌, ℤ, pos, neg,
  Run, returned, ask, ◌>>=◌, for_each, each, select, or_else,
}
use ibet_wallet_api.Chain.{Address, zero_address, max_size, Log, events_of, sorted}
use ibet_wallet_api.Holders.Book.{Book, store}
use ibet_wallet_api.Holders.Events.{
  TransferArgs, HolderChangedArgs, SupplyArgs, ConsumeArgs, LockArgs, UnlockArgs, ChangeLockedArgs,
  TokenType, ibet_coupon, ibet_membership, ibet_straight_bond, ibet_share, other, Node,
}

-- What `__load_token_info` finds.
pub record TokenInfo : Type 0 where
  pub tradable_exchange_address : Address
  pub token_owner_address : Address
  pub token_template : TokenType

-- `if amount is not None and amount <= sys.maxsize: …`
abbrev pub if_capped {ℓ} : {A : Type ℓ} → Option ℕ → (ℕ → A) → A → A
if_capped none f a = a
if_capped (some amount) f a = if leb amount max_size then f amount else a

-- `get_code(from) != "0x" or get_code(to) != "0x"`: the second call is made if the first is false.
unfoldable pub involves_contract : Node → Address → Address → Run Bool
involves_contract n from_account to_account =
    ask (n.get_code from_account) >>= λ c. if c then returned true else ask (n.get_code to_account)

-- The body of the loop over transfers.
unfoldable pub transfer_step : Node → Log TransferArgs → Book → Run Book
unfolding involves_contract
transfer_step n event book =
    let from_account = or_else event.args.from zero_address in
    let to_account = or_else event.args.to zero_address in
    let amount = event.args.value in
    involves_contract n from_account to_account >>= λ skip. returned (
      if skip
      then book
      else if leb amount max_size
      then store to_account (pos amount) (pos 0)
          (store from_account (neg (pos amount)) (pos 0) book)
      else book)

-- The entry of `tmp_events` for a `HolderChanged` event.
abbrev pub as_transfer : Log HolderChangedArgs → Log TransferArgs
as_transfer e = record {
  block_number = e.block_number;
  log_index = e.log_index;
  args = e.args.transfer;
}

abbrev pub of_token : Address → Log HolderChangedArgs → Bool
of_token token e = token == e.args.token

-- `__process_transfer`
unfoldable pub process_transfer : Node → Address → Address → ℕ → ℕ → Book → Run Book
unfolding transfer_step
process_transfer n exchange token block_from block_to book = do
  holder_changed_events ← events_of (n.holder_changed exchange token block_from block_to)
  token_transfer_events ← events_of (n.transfer token block_from block_to)
  for_each (transfer_step n)
      (sorted
        (map as_transfer (select (of_token token) holder_changed_events) ++ token_transfer_events))
      book

unfoldable pub issue_step : Log SupplyArgs → Book → Book
issue_step event book =
    if or_else event.args.lock_address zero_address == zero_address
    then if_capped event.args.amount
        (λ amount. store (or_else event.args.target_address zero_address) (pos amount) (pos 0) book)
        book
    else book

-- `__process_issue`
unfoldable pub process_issue : Node → Address → ℕ → ℕ → Book → Run Book
process_issue n token block_from block_to book = do
  events ← events_of (n.issue token block_from block_to)
  returned (each issue_step events book)

unfoldable pub redeem_step : Log SupplyArgs → Book → Book
redeem_step event book =
    if or_else event.args.lock_address zero_address == zero_address
    then if_capped event.args.amount
        (λ amount.
          store (or_else event.args.target_address zero_address) (neg (pos amount)) (pos 0) book)
        book
    else book

-- `__process_redeem`
unfoldable pub process_redeem : Node → Address → ℕ → ℕ → Book → Run Book
process_redeem n token block_from block_to book = do
  events ← events_of (n.redeem token block_from block_to)
  returned (each redeem_step events book)

unfoldable pub consume_step : Log ConsumeArgs → Book → Book
consume_step event =
    store (or_else event.args.consumer zero_address) (neg (pos (or_else event.args.value 0)))
      (pos 0)

-- `__process_consume`
unfoldable pub process_consume : Node → Address → ℕ → ℕ → Book → Run Book
process_consume n token block_from block_to book = do
  events ← events_of (n.consume token block_from block_to)
  returned (each consume_step events book)

-- The loop body of `__process_lock` and of `__process_force_lock`
unfoldable pub lock_step : Log LockArgs → Book → Book
lock_step event book =
    if_capped event.args.value
      (λ amount.
        store (or_else event.args.account_address zero_address) (neg (pos amount)) (pos amount)
          book)
      book

-- `__process_lock`
unfoldable pub process_lock : Node → Address → ℕ → ℕ → Book → Run Book
process_lock n token block_from block_to book = do
  events ← events_of (n.lock token block_from block_to)
  returned (each lock_step events book)

-- `__process_force_lock`
unfoldable pub process_force_lock : Node → Address → ℕ → ℕ → Book → Run Book
process_force_lock n token block_from block_to book = do
  events ← events_of (n.force_lock token block_from block_to)
  returned (each lock_step events book)

-- The loop body of `__process_unlock` and of `__process_force_unlock`
unfoldable pub unlock_step : Log UnlockArgs → Book → Book
unlock_step event book =
    if_capped event.args.value
      (λ amount.
        store (or_else event.args.recipient_address zero_address) (pos amount) (pos 0)
          (store (or_else event.args.account_address zero_address) (pos 0) (neg (pos amount)) book))
      book

-- `__process_unlock`
unfoldable pub process_unlock : Node → Address → ℕ → ℕ → Book → Run Book
process_unlock n token block_from block_to book = do
  events ← events_of (n.unlock token block_from block_to)
  returned (each unlock_step events book)

-- `__process_force_unlock`
unfoldable pub process_force_unlock : Node → Address → ℕ → ℕ → Book → Run Book
process_force_unlock n token block_from block_to book = do
  events ← events_of (n.force_unlock token block_from block_to)
  returned (each unlock_step events book)

unfoldable pub change_locked_step : Log ChangeLockedArgs → Book → Book
change_locked_step event book =
    if_capped event.args.value
      (λ amount.
        store (or_else event.args.after_account_address zero_address) (pos 0) (pos amount) (
          store (or_else event.args.before_account_address zero_address) (pos 0) (neg (pos amount))
            book))
      book

-- `__process_force_change_locked_account`
unfoldable pub process_force_change_locked_account : Node → Address → ℕ → ℕ → Book → Run Book
process_force_change_locked_account n token block_from block_to book = do
  events ← events_of (n.force_change_locked_account token block_from block_to)
  returned (each change_locked_step events book)

-- `self.token_template in [IbetStraightBond, IbetShare]`
abbrev pub has_locks : TokenType → Bool
has_locks ibet_straight_bond = true
has_locks ibet_share = true
has_locks ibet_coupon = false
has_locks ibet_membership = false
has_locks other = false

abbrev pub is_coupon : TokenType → Bool
is_coupon ibet_coupon = true
is_coupon ibet_straight_bond = false
is_coupon ibet_share = false
is_coupon ibet_membership = false
is_coupon other = false

unfoldable pub process_locks : Node → Address → ℕ → ℕ → Book → Run Book
process_locks n token block_from block_to book = do
  book ← process_lock n token block_from block_to book
  book ← process_force_lock n token block_from block_to book
  book ← process_unlock n token block_from block_to book
  book ← process_force_unlock n token block_from block_to book
  process_force_change_locked_account n token block_from block_to book

-- The two tests of `__process_all` on the template of the token.
abbrev pub process_securities : Bool → Node → Address → ℕ → ℕ → Book → Run Book
process_securities b n token block_from block_to book =
    if b then process_locks n token block_from block_to book else returned book

abbrev pub process_coupon : Bool → Node → Address → ℕ → ℕ → Book → Run Book
process_coupon b n token block_from block_to book =
    if b then process_consume n token block_from block_to book else returned book

-- The book after `__process_all`.
unfoldable pub process_book : Node → TokenInfo → Address → ℕ → ℕ → Book → Run Book
process_book n info token block_from block_to book = do
  book ← process_transfer n info.tradable_exchange_address token block_from block_to book
  book ← process_issue n token block_from block_to book
  book ← process_redeem n token block_from block_to book
  book ← process_securities (has_locks info.token_template) n token block_from block_to book
  process_coupon (is_coupon info.token_template) n token block_from block_to book
