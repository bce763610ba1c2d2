-- ===== src/Holders/Collect/Outcomes.antt =====
-- `collect` on every path: it ends, and what it leaves in the tables when it does not complete.
use ibet_wallet_api.Base.{
  ℕ, zero, suc, ◌+◌, ◌-◌, ◌<◌, ◌≡◌, refl, Bool, true, false, List, Option, none, some, ltb, ◌⊎◌,
  inl, inr, Run, returned, raised, or_else, out_of_fuel, ask, ◌>>=◌, arith, Bool-cases, Ends,
  Ends-returned, Ends-raised, Ends-ask, Ends-bind, Ends-for_each, Ends-if,
}
use ibet_wallet_api.Chain.{
  Address, zero_address, Log, Answer, events_of, found, abi_event_not_found, unavailable,
}
use ibet_wallet_api.Holders.Book.{Book}
use ibet_wallet_api.Holders.Events.{TransferArgs, Node, TokenType}
use ibet_wallet_api.Holders.Process.{
  TokenInfo, process_book, process_transfer, transfer_step, involves_contract, process_issue,
  process_redeem, process_securities, process_locks, process_lock, process_force_lock,
  process_unlock, process_force_unlock, process_force_change_locked_account, process_coupon,
  process_consume, has_locks, is_coupon,
}
use ibet_wallet_api.Holders.Table.{TokenHoldersList, Db, failed, set_status, load_target}
use ibet_wallet_api.Holders.Collect.{
  Processor, Session, fresh, Ended, no_pending, not_listed, completed, reraised, process_all,
  process_chunks, gather, load_token_info, if_supported, is_supported, collect, finish,
  collect_listed, collect_target,
}

Ends-events_of : {A : Type 0} (answer : Answer A) → Ends (events_of answer)
unfolding events_of
Ends-events_of (found es) = Ends-returned
Ends-events_of abi_event_not_found = Ends-returned
Ends-events_of unavailable = Ends-raised

-- A method that reads events and folds them.
Ends-loop :
    {A : Type 0} (answer : Answer A) (f : List (Log A) → Book)
    → Ends (events_of answer >>= λ es. returned (f es))
Ends-loop answer f = Ends-bind (events_of answer) _ (Ends-events_of answer) (λ es. Ends-returned)

Ends-involves_contract : (n : Node) (a b : Address) → Ends (involves_contract n a b)
unfolding involves_contract
Ends-involves_contract n a b =
    Ends-bind (ask (n.get_code a)) _ (Ends-ask (n.get_code a))
      (λ c. Ends-if c (returned true) (ask (n.get_code b)) Ends-returned (Ends-ask (n.get_code b)))

Ends-transfer_step : (n : Node) (e : Log TransferArgs) (book : Book) → Ends (transfer_step n e book)
unfolding transfer_step
Ends-transfer_step n e book =
    let a = or_else e.args.from zero_address in
    let b = or_else e.args.to zero_address in
    Ends-bind (involves_contract n a b) _ (Ends-involves_contract n a b) (λ skip. Ends-returned)

Ends-process_securities :
    (b : Bool) (n : Node) (token : Address) (x y : ℕ) (book : Book)
    → Ends (process_securities b n token x y book)
unfolding process_locks process_lock process_force_lock process_unlock process_force_unlock
    process_force_change_locked_account
Ends-process_securities false n token x y book = Ends-returned
Ends-process_securities true n token x y book = Ends-bind _ _ (Ends-loop _ _) λ b1.
    Ends-bind _ _ (Ends-loop _ _)
      λ b2. Ends-bind _ _ (Ends-loop _ _) λ b3. Ends-bind _ _ (Ends-loop _ _) λ b4. Ends-loop _ _

Ends-process_coupon :
    (b : Bool) (n : Node) (token : Address) (x y : ℕ) (book : Book)
    → Ends (process_coupon b n token x y book)
unfolding process_consume
Ends-process_coupon false n token x y book = Ends-returned
Ends-process_coupon true n token x y book = Ends-loop _ _

Ends-process_book :
    (n : Node) (info : TokenInfo) (token : Address) (x y : ℕ) (book : Book)
    → Ends (process_book n info token x y book)
unfolding process_book process_transfer process_issue process_redeem
Ends-process_book n info token x y book =
    Ends-bind _ _
      (Ends-bind _ _ (Ends-events_of _) λ changed.
        Ends-bind _ _ (Ends-events_of _)
          λ moved. Ends-for_each (transfer_step n) (Ends-transfer_step n) _ book)
      λ b1. Ends-bind _ _ (Ends-loop _ _) λ b2. Ends-bind _ _ (Ends-loop _ _) λ b3.
        Ends-bind _ _ (Ends-process_securities (has_locks info.token_template) n token x y b3)
          λ b4. Ends-process_coupon (is_coupon info.token_template) n token x y b4

module _ (n : Node) (info : TokenInfo) (t : TokenHoldersList) where
  Ends-process_all : (a b : ℕ) (s : Session) → Ends (process_all n info t a b s)
  unfolding process_all
  Ends-process_all a b s =
      Ends-bind _ _ (Ends-process_book n info t.token_address a b s.balance_book)
        (λ book. Ends-returned)

  -- Each round passes a block, so the fuel outlasts the loop.
  Ends-process_chunks :
      (fuel a b : ℕ) (s : Session)
      → t.block_number - b < fuel
      → Ends (process_chunks n info t fuel a b s)
  unfolding process_chunks
  Ends-process_chunks zero a b s h = absurd (omega arith)
  Ends-process_chunks (suc fuel) a b s h = elim (Bool-cases (ltb b t.block_number)) [
    | inl more ↦
        rw (more, process_chunks)
          (Ends-bind _ _ (Ends-process_all a b s)
            (λ s'. Ends-process_chunks fuel (a + 1000000) (b + 1000000) s' (ground arith)))
    | inr last ↦ rw (last, process_chunks) (Ends-process_all a t.block_number s)
  ]

  Ends-gather : (db : Db) (book : Book) → Ends (gather n info t db book)
  unfolding gather
  Ends-gather db book = Ends-process_chunks _ _ _ _ (omega arith)

Ends-if_supported :
    (n : Node) (token : Address) (found : TokenType × Address) → Ends (if_supported n token found)
Ends-if_supported n token (template, owner) = elim (Bool-cases (is_supported template)) [
  | inl yes_ ↦ rw yes_ (
      Ends-bind (ask (n.tradable_exchange token)) _ (Ends-ask (n.tradable_exchange token))
        (λ exchange. Ends-returned))
  | inr no_ ↦ rw no_ (Ends-returned)
]

Ends-load_token_info :
    (list_contract : Option Address) (n : Node) (token : Address)
    → Ends (load_token_info list_contract n token)
unfolding load_token_info
Ends-load_token_info none n token = Ends-returned
Ends-load_token_info (some c) n token =
    Ends-bind (ask (n.get_token token)) (if_supported n token) (Ends-ask (n.get_token token))
      (Ends-if_supported n token)

-- What a call that began with `db` leaves: it completed, or no row of a holder changed, and no
-- list changed but the one that was tried, which is marked as failed.
abbrev pub IsAtomic : Option TokenHoldersList → Db → Processor × Db × Ended → Type 0
IsAtomic none db (p, db', ended) = (ended ≡ no_pending) × (db' ≡ db)
IsAtomic (some t) db (p, db', ended) =
    (p ≡ fresh)
    × ((ended ≡ completed)
        ⊎ ((ended ≡ not_listed) ⊎ (ended ≡ reraised))
          × (db'.token_holder ≡ db.token_holder)
          × (db'.token_holders_list ≡ set_status t.id failed db.token_holders_list))

IsAtomic-finish :
    (t : TokenHoldersList) (db : Db) (r : Run Session)
    → Ends r
    → IsAtomic (some t) db (finish t db r)
IsAtomic-finish t db (returned s) h = (refl, inl refl)
IsAtomic-finish t db raised h = (refl, inr (inr refl, refl, refl))
IsAtomic-finish t db out_of_fuel h = absurd (h.ends refl)

IsAtomic-collect_listed :
    (n : Node) (t : TokenHoldersList) (book : Book) (db : Db) (r : Run (Option TokenInfo))
    → Ends r
    → IsAtomic (some t) db (collect_listed n t book db r)
IsAtomic-collect_listed n t book db (returned (some info)) h =
    IsAtomic-finish t db (gather n info t db book) (Ends-gather n info t db book)
IsAtomic-collect_listed n t book db (returned none) h = (refl, inr (inl refl, refl, refl))
IsAtomic-collect_listed n t book db raised h = (refl, inr (inr refl, refl, refl))
IsAtomic-collect_listed n t book db out_of_fuel h = absurd (h.ends refl)

IsAtomic-collect_target :
    (list_contract : Option Address) (n : Node) (p : Processor) (db : Db)
    (o : Option TokenHoldersList)
    → IsAtomic o db (collect_target list_contract n p db o)
IsAtomic-collect_target list_contract n p db none = (refl, refl)
IsAtomic-collect_target list_contract n p db (some t) =
    IsAtomic-collect_listed n t p.balance_book db (load_token_info list_contract n t.token_address)
      (Ends-load_token_info list_contract n t.token_address)

-- Whatever the node answers and wherever it raises, `collect` ends: with no pending list it changes
-- nothing; otherwise the processor is reset, and the list is completed, or no row of a holder has
-- changed and the list alone is marked as failed.
pub collect-IsAtomic :
    (list_contract : Option Address) (n : Node) (p : Processor) (db : Db)
    → IsAtomic (load_target db) db (collect list_contract n p db)
unfolding collect
collect-IsAtomic list_contract n p db =
    IsAtomic-collect_target list_contract n p db (load_target db)
