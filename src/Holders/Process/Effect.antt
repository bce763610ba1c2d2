-- ===== src/Holders/Process/Effect.antt =====
-- What `__process_all` of batch/indexer_Token_Holders.py does to the balance book, against a
-- history of the events from which the node answers every range of blocks.
use ibet_wallet_api.Base.{
  ℕ, ◌≡◌, refl, ◌∙◌, ap, sym, Bool, true, false, List, [], ◌++◌, map, some, Run, returned, each,
  ◌>>=◌, select,
}
use ibet_wallet_api.Chain.{Address, Log, Serves, in_range, sorted, events_of, Answer}
use ibet_wallet_api.Holders.Book.{Book, Move, post}
use ibet_wallet_api.Holders.Events.{
  TransferArgs, HolderChangedArgs, SupplyArgs, ConsumeArgs, LockArgs, UnlockArgs, ChangeLockedArgs,
  TokenType, Node,
}
use ibet_wallet_api.Holders.Process.{
  TokenInfo, as_transfer, of_token, process_transfer, process_issue, process_redeem,
  process_consume, process_lock, process_force_lock, process_unlock, process_force_unlock,
  process_force_change_locked_account, process_locks, process_securities, process_coupon,
  process_book, has_locks, is_coupon, transfer_step, issue_step, redeem_step, consume_step,
  lock_step, unlock_step, change_locked_step,
}
use ibet_wallet_api.Holders.Process.Moves.{
  transfer_moves, issue_moves, redeem_moves, consume_moves, lock_moves, unlock_moves,
  change_locked_moves, all_moves, post-append, each-post, for_each-post, issue_step-post,
  redeem_step-post, consume_step-post, lock_step-post, unlock_step-post, change_locked_step-post,
  transfer_step-post,
}

-- All events of one token that the chain holds, and which accounts are contracts.
pub record Ledger : Type 0 where
  pub is_contract : Address → Bool
  pub holder_changed : List (Log HolderChangedArgs)
  pub transfer : List (Log TransferArgs)
  pub issue : List (Log SupplyArgs)
  pub redeem : List (Log SupplyArgs)
  pub consume : List (Log ConsumeArgs)
  pub lock : List (Log LockArgs)
  pub force_lock : List (Log LockArgs)
  pub unlock : List (Log UnlockArgs)
  pub force_unlock : List (Log UnlockArgs)
  pub change_locked : List (Log ChangeLockedArgs)

-- The node answers every call about the token, and every range of blocks, from the ledger.
pub record Answers (n : Node) (exchange token : Address) (l : Ledger) : Type 0 where
  pub codes : (a : Address) → n.get_code a ≡ some (l.is_contract a)
  pub holder_changed : Serves (n.holder_changed exchange token) l.holder_changed
  pub transfer : Serves (n.transfer token) l.transfer
  pub issue : Serves (n.issue token) l.issue
  pub redeem : Serves (n.redeem token) l.redeem
  pub consume : Serves (n.consume token) l.consume
  pub lock : Serves (n.lock token) l.lock
  pub force_lock : Serves (n.force_lock token) l.force_lock
  pub unlock : Serves (n.unlock token) l.unlock
  pub force_unlock : Serves (n.force_unlock token) l.force_unlock
  pub change_locked : Serves (n.force_change_locked_account token) l.change_locked

-- The transfers of a range, in the order in which the loop reads them.
abbrev pub transfers : Address → Ledger → ℕ → ℕ → List (Log TransferArgs)
transfers token l a b = sorted (
    map as_transfer (select (of_token token) (in_range a b l.holder_changed))
    ++ in_range a b l.transfer)

abbrev pub lock_family : Bool → Ledger → ℕ → ℕ → List Move
lock_family false l a b = []
lock_family true l a b =
    all_moves lock_moves (in_range a b l.lock)
    ++ (all_moves lock_moves (in_range a b l.force_lock)
        ++ (all_moves unlock_moves (in_range a b l.unlock)
            ++ (all_moves unlock_moves (in_range a b l.force_unlock)
                ++ all_moves change_locked_moves (in_range a b l.change_locked))))

abbrev pub coupon_family : Bool → Ledger → ℕ → ℕ → List Move
coupon_family false l a b = []
coupon_family true l a b = all_moves consume_moves (in_range a b l.consume)

-- The postings that `__process_all` makes for a range of blocks.
abbrev pub range_moves : TokenType → Address → Ledger → ℕ → ℕ → List Move
range_moves template token l a b =
    all_moves (transfer_moves l.is_contract) (transfers token l a b)
    ++ (all_moves issue_moves (in_range a b l.issue)
        ++ (all_moves redeem_moves (in_range a b l.redeem)
            ++ (lock_family (has_locks template) l a b
                ++ coupon_family (is_coupon template) l a b)))

-- The method returns, and posts these postings to whatever book it is given.
pub record Posts (method : Book → Run Book) (moves : List Move) : Type 0 where
  pub posts : (book : Book) → method book ≡ returned (post moves book)

Posts-then :
    {m f : Book → Run Book} {ms ns : List Move}
    → Posts m ms
    → Posts f ns
    → Posts (λ book. m book >>= f) (ms ++ ns)
Posts-then {ms} {ns} h k = record {
  posts = λ book.
      rw (h.posts book) (k.posts (post ms book) ∙ ap returned (sym (post-append ms ns book)));
}

-- One loop over the events that the node found.
Posts-loop :
    {A : Type 0} (answer : Answer A) {es : List (Log A)}
    → events_of answer ≡ returned es
    → (step : Log A → Book → Book) (moves : Log A → List Move)
    → ((e : Log A) (book : Book) → step e book ≡ post (moves e) book)
    → Posts (λ book. events_of answer >>= λ es. returned (each step es book)) (all_moves moves es)
Posts-loop answer {es} found_events step moves h = record {
  posts = λ book. rw found_events (ap returned (each-post step moves h es book));
}

abbrev pub token_info : Address → Address → TokenType → TokenInfo
token_info exchange owner template = record {
  tradable_exchange_address = exchange;
  token_owner_address = owner;
  token_template = template;
}

module _ (n : Node) (exchange token : Address) (l : Ledger) (serves : Answers n exchange token l)
    (a b : ℕ) where
  process_transfer-Posts :
      Posts
        (process_transfer n exchange token a b)
        (all_moves (transfer_moves l.is_contract) (transfers token l a b))
  unfolding process_transfer
  process_transfer-Posts = record {
    posts = λ book.
        rw (serves.holder_changed a b, serves.transfer a b)
          (for_each-post (transfer_step n) (transfer_moves l.is_contract)
            (transfer_step-post n l.is_contract serves.codes) (transfers token l a b) book);
  }

  process_issue-Posts :
      Posts (process_issue n token a b) (all_moves issue_moves (in_range a b l.issue))
  unfolding process_issue
  process_issue-Posts = Posts-loop _ (serves.issue a b) issue_step issue_moves issue_step-post

  process_redeem-Posts :
      Posts (process_redeem n token a b) (all_moves redeem_moves (in_range a b l.redeem))
  unfolding process_redeem
  process_redeem-Posts = Posts-loop _ (serves.redeem a b) redeem_step redeem_moves redeem_step-post

  process_coupon-Posts :
      (coupon : Bool) → Posts (process_coupon coupon n token a b) (coupon_family coupon l a b)
  unfolding process_consume
  process_coupon-Posts false = record { posts = λ book. refl }
  process_coupon-Posts true =
      Posts-loop _ (serves.consume a b) consume_step consume_moves consume_step-post

  process_locks-Posts : Posts (process_locks n token a b) (lock_family true l a b)
  unfolding process_locks process_lock process_force_lock process_unlock process_force_unlock
      process_force_change_locked_account
  process_locks-Posts =
      Posts-then (Posts-loop _ (serves.lock a b) lock_step lock_moves lock_step-post) (
        Posts-then (Posts-loop _ (serves.force_lock a b) lock_step lock_moves lock_step-post) (
          Posts-then (Posts-loop _ (serves.unlock a b) unlock_step unlock_moves unlock_step-post) (
            Posts-then
              (Posts-loop _ (serves.force_unlock a b) unlock_step unlock_moves unlock_step-post)
              (Posts-loop _ (serves.change_locked a b) change_locked_step change_locked_moves
                change_locked_step-post))))

  process_securities-Posts :
      (locks : Bool) → Posts (process_securities locks n token a b) (lock_family locks l a b)
  process_securities-Posts false = record { posts = λ book. refl }
  process_securities-Posts true = process_locks-Posts

  pub process_book-Posts :
      (owner : Address) (template : TokenType)
      → Posts
          (process_book n (token_info exchange owner template) token a b)
          (range_moves template token l a b)
  unfolding process_book
  process_book-Posts owner template = Posts-then process_transfer-Posts (
      Posts-then process_issue-Posts (
        Posts-then process_redeem-Posts (
          Posts-then (process_securities-Posts (has_locks template))
            (process_coupon-Posts (is_coupon template)))))
