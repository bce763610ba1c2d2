-- ===== src/Approval/Listing/Indexed.antt =====
-- No event of a token is skipped by the runs of batch/indexer_TransferApproval.py, however many they
-- are and wherever they fail.
use ibet_wallet_api.Base.{
  ℕ, zero, suc, ◌+◌, ◌≤◌, ◌<◌, ◌≡◌, refl, sym, ap, ◌∙◌, inl, inr, Bool, false, List, [], ◌∷◌,
  Option, none, some, first_where, Run, returned, raised, out_of_fuel, All, All-imp, arith,
  >>=-eq-returned, returned_inj,
}
use mathlib.Core.Path.{subst}
use ibet_wallet_api.Chain.{Address, Log}
use ibet_wallet_api.Approval.Table.{Db, Key, is_application, is_target}
use ibet_wallet_api.Approval.Sink.{Library}
use ibet_wallet_api.Approval.Targets.{TargetToken, get_oldest_cursor}
use ibet_wallet_api.Approval.Sync.{
  Node, Targets, sync_chunks, set_block_numbers, next_after, next_block,
}
use ibet_wallet_api.Approval.Sync.Recorded.{Fact, Says, Keeps}
use ibet_wallet_api.Approval.Sync.Said.{
  TokenHistory, IsTruthful, HistorySaid, apply_fact, cancel_fact, approve_fact, SaysFact,
}
use ibet_wallet_api.Approval.Sync.Stages.{TokenSaid, TokenSaid-Keeps, TokenSaid-join}
use ibet_wallet_api.Approval.Sync.Chunks.{sync_chunks-Keeps, sync_chunks-TokenSaid}
use ibet_wallet_api.Approval.Sync.Numbers.{IsTarget, set_block_numbers-rows, set_block_numbers-next}
use ibet_wallet_api.Approval.Listing.{
  Contracts, Caches, get_contract_list, Processor, sync_to, commit, sync_listed, sync_new_logs,
  initial_sync,
}
use ibet_wallet_api.Approval.Listing.Starting.{StartsAt, Starts, get_contract_list-Starts}

module _ (history : Address → TokenHistory) where
  -- The table says every event of a token up to the block that is recorded for it.
  abbrev pub IsIndexed : Db → Type 0
  IsIndexed db =
      (token x : Address) (b : ℕ) → b < next_block token x db → TokenSaid history token 0 b db

  HistorySaid-shorter :
      {A : Type 0} (fact : Log A → Option (Key × Fact)) (es : List (Log A)) (b c : ℕ) (db : Db)
      → b ≤ c
      → HistorySaid fact 0 c es db
      → HistorySaid fact 0 b es db
  HistorySaid-shorter fact es b c db h =
      All-imp (λ e says inside. says (ground (arith, h, inside))) es

  TokenSaid-shorter :
      (token : Address) (b c : ℕ) (db : Db)
      → b ≤ c
      → TokenSaid history token 0 c db
      → TokenSaid history token 0 b db
  TokenSaid-shorter token b c db h said = record {
    apply = HistorySaid-shorter (apply_fact token) (history token).apply b c db h said.apply;
    cancel = HistorySaid-shorter (cancel_fact token) (history token).cancel b c db h said.cancel;
    approve =
        HistorySaid-shorter (approve_fact token) (history token).approve b c db h said.approve;
  }

  -- The events before the cursor and those from it on.
  TokenSaid-from :
      (token x : Address) (cursor latest : ℕ) (db db' : Db)
      → IsIndexed db
      → Keeps db db'
      → cursor ≤ next_block token x db
      → TokenSaid history token cursor latest db'
      → TokenSaid history token 0 latest db'
  TokenSaid-from token x zero latest db db' old keeps h said = said
  TokenSaid-from token x (suc k) latest db db' old keeps h said =
      TokenSaid-join history token 0 k latest db'
        (TokenSaid-Keeps history token 0 k db db' keeps (old token x k (omega (arith, h))))
        (subst (λ a. TokenSaid history token a latest db') (omega arith) said)

  target-said :
      (token x : Address) (ts : List TargetToken) (latest : ℕ) (db db' : Db)
      → IsIndexed db
      → Keeps db db'
      → All (StartsAt db) ts
      → All (λ t. TokenSaid history t.token_address t.cursor latest db') ts
      → IsTarget token x ts
      → TokenSaid history token 0 latest db'
  target-said token x [] latest db db' old keeps starts said h = absurd h
  target-said token x (t ∷ ts) latest db db' old keeps (s, ss) (said, saids) (inl (a, b)) =
      subst (λ y. TokenSaid history y 0 latest db') a
        (TokenSaid-from t.token_address t.exchange_address t.cursor latest db db' old keeps
          (omega (arith, s.0, s.1)) said)
  target-said token x (t ∷ ts) latest db db' old keeps (s, ss) (said, saids) (inr later) =
      target-said token x ts latest db db' old keeps ss saids later

  -- Rows that are the same say the same.
  SaysFact-rows :
      (o : Option (Key × Fact)) (db db' : Db)
      → db'.transfer_approval ≡ db.transfer_approval
      → SaysFact o db
      → SaysFact o db'
  SaysFact-rows none db db' e says = tt
  SaysFact-rows (some (k, f)) db db' e says =
      subst (λ rows. Says f (first_where (is_application k) rows)) (sym e) says

  HistorySaid-rows :
      {A : Type 0} (fact : Log A → Option (Key × Fact)) (es : List (Log A)) (a b : ℕ) (db db' : Db)
      → db'.transfer_approval ≡ db.transfer_approval
      → HistorySaid fact a b es db
      → HistorySaid fact a b es db'
  HistorySaid-rows fact es a b db db' e =
      All-imp (λ l says inside. SaysFact-rows (fact l) db db' e (says inside)) es

  TokenSaid-rows :
      (token : Address) (a b : ℕ) (db db' : Db)
      → db'.transfer_approval ≡ db.transfer_approval
      → TokenSaid history token a b db
      → TokenSaid history token a b db'
  TokenSaid-rows token a b db db' e said = record {
    apply = HistorySaid-rows (apply_fact token) (history token).apply a b db db' e said.apply;
    cancel = HistorySaid-rows (cancel_fact token) (history token).cancel a b db db' e said.cancel;
    approve =
        HistorySaid-rows (approve_fact token) (history token).approve a b db db' e said.approve;
  }

  module _ (lib : Library) (strict : lib.merges_none ≡ false) (n : Node)
      (truthful : IsTruthful history n) where
    sync_to-IsIndexed :
        (s : Targets) (answer : Option ℕ) (db db' : Db)
        → IsIndexed db
        → All (StartsAt db) s.token_list
        → sync_to lib n s db answer ≡ returned db'
        → IsIndexed db'
    sync_to-IsIndexed s none db db' old starts h token x b below = cc
    sync_to-IsIndexed s (some latest) db db' old starts h token x b below =
        let to = 999999 + get_oldest_cursor s.token_list latest in
        let mid =
          >>=-eq-returned (sync_chunks lib n (suc latest) latest to s db)
            (λ d. returned (set_block_numbers s.token_list latest d)) h in
        let keeps = sync_chunks-Keeps lib n (suc latest) latest to s db mid.0 mid.1 in
        let said =
          sync_chunks-TokenSaid lib n strict history truthful (suc latest) latest to s db mid.0
            mid.1 in
        let e = returned_inj mid.2 in
        let below' : b < next_block token x (set_block_numbers s.token_list latest mid.0) =
          subst (λ d. b < next_block token x d) (sym e) below in
        subst (TokenSaid history token 0 b) e (
          TokenSaid-rows token 0 b mid.0 (set_block_numbers s.token_list latest mid.0)
            (set_block_numbers-rows latest s.token_list mid.0)
            (elim (set_block_numbers-next latest token x s.token_list mid.0) [
              | inl same ↦
                  TokenSaid-Keeps history token 0 b db mid.0 keeps
                    (old token x b (subst (λ k. b < k) (same ∙ number keeps) below'))
              | inr (target, new) ↦
                  TokenSaid-shorter token b latest mid.0 (omega (arith, below', new))
                    (target-said token x s.token_list latest db mid.0 old keeps starts said target)
            ]))
      where
        number : {d : Db} → Keeps db d → next_block token x d ≡ next_block token x db
        number keeps =
            unfold next_block in
            ap (λ rows. next_after (first_where (is_target token x) rows)) keeps.block_number

    sync_new_logs-IsIndexed :
        (is_set : Bool) (w : Contracts) (listed : List Address) (p : Processor)
        → IsIndexed p.db
        → IsIndexed (sync_new_logs lib n is_set w listed p).0.db
    unfolding sync_new_logs
    sync_new_logs-IsIndexed is_set w listed p old =
        by_targets (get_contract_list is_set w listed p.db p.caches)
          (get_contract_list-Starts w p.db is_set listed p.caches)
      where
        by_result :
            (c : Caches) (r : Run Db)
            → ((db' : Db) → r ≡ returned db' → IsIndexed db')
            → IsIndexed (commit lib n c p.db r).0.db
        by_result c (returned db') k = k db' refl
        by_result c raised k = old
        by_result c out_of_fuel k = old

        by_targets :
            (r : Caches × Run Targets) → Starts p.db r → IsIndexed (sync_listed lib n w p.db r).0.db
        by_targets (c, returned s) starts =
            by_result c (sync_to lib n s p.db w.block_number)
              (λ db'. sync_to-IsIndexed s w.block_number p.db db' old starts)
        by_targets (c, raised) starts = old
        by_targets (c, out_of_fuel) starts = old

  -- The processors that `main` may reach: it starts on a table without block numbers, and each run
  -- has a node of its own that may fail anywhere, with any contracts and any listed tokens.
  pub data Reached (lib : Library) : Processor → Type 0 where
    start : (p : Processor) → p.db.block_number ≡ [] → Reached lib p
    first :
        (n : Node) (is_set : Bool) (w : Contracts) (listed : List Address) (p : Processor)
        → IsTruthful history n
        → Reached lib p
        → Reached lib (initial_sync lib n is_set w listed p).0
    later :
        (n : Node) (is_set : Bool) (w : Contracts) (listed : List Address) (p : Processor)
        → IsTruthful history n
        → Reached lib p
        → Reached lib (sync_new_logs lib n is_set w listed p).0

  Reached-IsIndexed :
      (lib : Library) (p : Processor) → lib.merges_none ≡ false → Reached lib p → IsIndexed p.db
  unfolding initial_sync first_where
  Reached-IsIndexed lib p strict (start _ e) token x b below = absurd (
      none_below (
        subst (λ rows. b < next_after (first_where (is_target token x) rows)) e
          (unfold next_block in below)))
    where
      none_below : b < next_after (first_where (is_target token x) []) → ⊥
      none_below h = omega (arith, h)
  Reached-IsIndexed lib p strict (first n is_set w listed q truthful r) token x b below =
      sync_new_logs-IsIndexed lib strict n truthful is_set w listed q
        (Reached-IsIndexed lib q strict r) token x b below
  Reached-IsIndexed lib p strict (later n is_set w listed q truthful r) token x b below =
      sync_new_logs-IsIndexed lib strict n truthful is_set w listed q
        (Reached-IsIndexed lib q strict r) token x b below

  -- If `merge(None)` raises, and each node answers, when it answers, a range with the events of one
  -- history, then after any number of runs, wherever they failed, the table says every event of a
  -- token up to the block number that is recorded for the token and an exchange: it has a row for
  -- each application that is small enough to be stored, and the rows of cancelled and of approved
  -- applications are marked as such.
  pub Reached-TokenSaid :
      (lib : Library) (p : Processor) (token x : Address) (b : ℕ)
      → lib.merges_none ≡ false
      → Reached lib p
      → b < next_block token x p.db
      → TokenSaid history token 0 b p.db
  Reached-TokenSaid lib p token x b strict r below =
      Reached-IsIndexed lib p strict r token x b below
