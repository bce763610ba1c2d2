-- ===== src/Holders/Collect/Exact.antt =====
-- What a completed `collect` leaves: the list of the target is the ledger at the target's block.
use ibet_wallet_api.Base.{
  ℕ, suc, ◌+◌, ◌≤◌, ◌≡◌, refl, ◌∙◌, Bool, true, false, List, [], ◌∷◌, Option, none, some, ◌==◌,
  zero_+ℤ, Run, returned, Bool-cases, inl, inr, arith, select, All,
}
use native.Mathlib.Numerals.{add-one}
use ibet_wallet_api.Chain.{Address}
use ibet_wallet_api.Holders.Book.{Book}
use ibet_wallet_api.Holders.Events.{TokenType, Node}
use ibet_wallet_api.Holders.Process.Effect.{Ledger, Answers, token_info}
use ibet_wallet_api.Holders.Table.{
  TokenHoldersList, TokenHolder, Db, done, find_row, load_target, find_checkpoint,
  delete_non_holders, is_kept, set_status,
}
use ibet_wallet_api.Holders.Table.Rows.{row_balance, HasPrimaryKey}
use ibet_wallet_api.Holders.Table.Deleted.{
  row_balance-delete_non_holders, find_row-delete_non_holders_ne, find_row-delete_non_holders-none,
  HasPrimaryKey-delete_non_holders,
}
use ibet_wallet_api.Holders.Table.Saved.{IsDict-load_rows, balance-load_rows}
use ibet_wallet_api.Holders.Collect.{
  Session, Processor, Ended, completed, fresh, load_token_info, load_checkpoint, checkpoint_book,
  gather, collect, finish,
}
use ibet_wallet_api.Holders.Collect.Tracks.{
  before, Tracks, IsSolvent, Holds, Gathers, process_chunks-Gathers,
}
use ibet_wallet_api.Holders.Collect.Checkpoint.{find_checkpoint-IsLatest}

module _ (n : Node) (exchange owner : Address) (template : TokenType) (l : Ledger)
    (t : TokenHoldersList) (db : Db) where
  -- What a call of `collect` rests on: the node answers from one ledger, the pending list has no
  -- rows, and the list that is chosen as a checkpoint was exact for its own block.
  pub record IsReady : Type 0 where
    pub serves : Answers n exchange t.token_address l
    pub key : HasPrimaryKey db.token_holder
    pub no_rows : (a : Address) → find_row t.id a db.token_holder ≡ none
    pub checkpoint :
        (u : TokenHoldersList)
        → find_checkpoint t.token_address t.block_number db ≡ some u
        → Holds owner template t.token_address l u.id u.block_number db.token_holder

module _ (owner : Address) (template : TokenType) (l : Ledger) (t : TokenHoldersList)
    (db : Db) where
  -- Every row of the list holds something, and none is the owner's.
  abbrev IsClean : List TokenHolder → Type 0
  IsClean rows = All (λ r. is_kept t.id r ≡ true) rows × (find_row t.id owner rows ≡ none)

  -- What a completed `collect` leaves.
  abbrev pub IsExact : Processor × Db × Ended → Type 0
  IsExact (p, db', ended) =
      (ended ≡ completed)
      × (p ≡ fresh)
      × Holds owner template t.token_address l t.id t.block_number db'.token_holder
      × IsClean db'.token_holder
      × HasPrimaryKey db'.token_holder
      × ((id : ℕ) (a : Address)
          → (t.id == id) ≡ false
          → find_row id a db'.token_holder ≡ find_row id a db.token_holder)
      × (db'.token_holders_list ≡ set_status t.id done db.token_holders_list)

module _ (n : Node) (exchange owner : Address) (template : TokenType) (l : Ledger)
    (t : TokenHoldersList) (db : Db) (ready : IsReady n exchange owner template l t db) where
  abbrev session : ℕ × Book → Session
  session x = record { balance_book = x.1; token_holder = db.token_holder }

  -- What holds when the checkpoint is loaded, in either case of the query.
  IsStarted : ℕ × Book → Type 0
  IsStarted x =
      (x.0 ≤ t.block_number + 1)
      × Tracks n exchange owner template l t ready.serves db.token_holder x.0 (session x)

  IsStarted-checkpoint_book :
      (o : Option TokenHoldersList)
      → find_checkpoint t.token_address t.block_number db ≡ o
      → IsStarted (checkpoint_book o db.token_holder [])
  unfolding IsStarted before
  IsStarted-checkpoint_book none e = (
    omega arith,
    record {
      dict = tt;
      key = ready.key;
      booked = λ c a h. refl;
      paged = λ a h. ready.no_rows a;
      no_owner = ready.no_rows owner;
      others = λ id a h. refl;
    },
  )
  IsStarted-checkpoint_book (some u) e = (
    omega (arith, (find_checkpoint-IsLatest t.token_address t.block_number db u e).1),
    record {
      dict = IsDict-load_rows u.id db.token_holder [] tt;
      key = ready.key;
      booked = λ c a h.
          balance-load_rows c u.id a db.token_holder [] ready.key
          ∙ zero_+ℤ (row_balance c u.id a db.token_holder)
          ∙ ready.checkpoint u e c a h
          ∙ rw add-one;
      paged = λ a h. ready.no_rows a;
      no_owner = ready.no_rows owner;
      others = λ id a h. refl;
    },
  )

  gather-Gathers :
      IsSolvent owner template t.token_address l t.block_number
      → Gathers n exchange owner template l t ready.serves db.token_holder
          (gather n (token_info exchange owner template) t db [])
  unfolding gather load_checkpoint IsStarted
  gather-Gathers solvent =
      let started =
        IsStarted-checkpoint_book (find_checkpoint t.token_address t.block_number db) refl in
      let x = load_checkpoint t.token_address t.block_number db [] in
      process_chunks-Gathers n exchange owner template l t ready.serves db.token_holder
        (suc t.block_number) x.0 (999999 + x.0) (session x) (omega arith) (omega arith) started.0
        solvent started.1

  All-select :
      (p : TokenHolder → Bool) (rows : List TokenHolder) → All (λ r. p r ≡ true) (select p rows)
  All-select p [] = tt
  All-select p (r ∷ rows) = elim (Bool-cases (p r)) [
    | inl in_ ↦ rw in_ (in_, All-select p rows)
    | inr out ↦ rw out (All-select p rows)
  ]

  IsExact-finish :
      (r : Run Session)
      → Gathers n exchange owner template l t ready.serves db.token_holder r
      → IsExact owner template l t db (finish t db r)
  unfolding delete_non_holders
  IsExact-finish r (s, e, tracks, exact) = rw e (
    refl,
    refl,
    (λ c a h. row_balance-delete_non_holders t.id c t.id a s.token_holder tracks.key ∙ exact c a h),
    (
      All-select (is_kept t.id) s.token_holder,
      find_row-delete_non_holders-none t.id t.id owner s.token_holder tracks.no_owner,
    ),
    HasPrimaryKey-delete_non_holders t.id s.token_holder tracks.key,
    (λ id a h. find_row-delete_non_holders_ne t.id id a s.token_holder h ∙ tracks.others id a h),
    refl,
  )

-- If the node answers every call, the first pending list is `t`, its token is listed, it has no rows
-- yet, the checkpoint that is chosen is exact, and no account but the owner is in the red, then
-- `collect` completes: the list holds, for every account but the owner, exactly the balance and the
-- locked balance of all events up to its block, no row that is zero and no row of the owner; the
-- rows of all other lists are as before, the primary key holds, the list is marked done, and the
-- processor is reset.
pub collect-IsExact :
    (n : Node) (exchange owner : Address) (template : TokenType) (l : Ledger) (t : TokenHoldersList)
    (db : Db) (list_contract : Option Address)
    → (ready : IsReady n exchange owner template l t db) → load_target db ≡ some t
    → load_token_info list_contract n t.token_address
      ≡ returned (some (token_info exchange owner template))
    → IsSolvent owner template t.token_address l t.block_number
    → IsExact owner template l t db (collect list_contract n fresh db)
unfolding collect
collect-IsExact n exchange owner template l t db list_contract ready first listed solvent =
    rw (first, listed)
      (IsExact-finish n exchange owner template l t db ready
        (gather n (token_info exchange owner template) t db [])
        (gather-Gathers n exchange owner template l t db ready solvent))
