-- ===== src/Position/Run/Durable.antt =====
-- What the runs of batch/indexer_Position_Bond.py leave when they fail: `__sync_transfer` commits in
-- the middle of a run.
use ibet_wallet_api.Base.{
  ℕ, suc, ◌+◌, ◌≡◌, refl, ◌∙◌, Bool, List, Option, none, some, Run, returned, raised, out_of_fuel,
  arith,
}
use ibet_wallet_api.Chain.{Address}
use ibet_wallet_api.Approval.Targets.{get_oldest_cursor}
use ibet_wallet_api.Approval.Sync.{Targets}
use ibet_wallet_api.Position.Table.{BlockNumber, Db}
use ibet_wallet_api.Position.Table.Rows.{
  sink_on_position-IsUpdate, sink_on_locked_position-block_number,
}
use ibet_wallet_api.Position.Session.{Session, Outcome, ended, raised_at, spent, and_run, write}
use ibet_wallet_api.Position.Session.Outcomes.{After}
use ibet_wallet_api.Position.Node.{Node, Messages}
use ibet_wallet_api.Position.Sync.Closed.{Closed}
use ibet_wallet_api.Position.Run.{
  Contracts, Caches, get_contract_list, Processor, Finished, completed, failed, finish,
  set_block_numbers, sync_chunks, sync_to, sync_listed, sync_new_logs,
}
use ibet_wallet_api.Position.Run.Closed.{sync_chunks-After}

-- The recorded block numbers are these, in the session and where it was committed.
pub record Records (rows : List BlockNumber) (s : Session) : Type 0 where
  pub db : s.db.block_number ≡ rows
  pub committed : s.committed.block_number ≡ rows

Records-Closed : (n : Node) (rows : List BlockNumber) → Closed n (Records rows)
Records-Closed n rows = record {
  position = λ token account u s true_ h. record {
    db = (sink_on_position-IsUpdate token account u s.db).block_number ∙ h.db;
    committed = h.committed;
  };
  locked = λ token lock_address account value s h. record {
    db = sink_on_locked_position-block_number token account s.db lock_address value ∙ h.db;
    committed = h.committed;
  };
  lock = λ row s h. record { db = h.db; committed = h.committed };
  unlock = λ row s h. record { db = h.db; committed = h.committed };
  commit = λ s h. record { db = h.db; committed = h.db };
}

-- A failed run has the same block numbers.
abbrev FailsWith : List BlockNumber → Processor × Finished → Type 0
FailsWith rows (p, completed) = Unit {0}
FailsWith rows (p, failed) = p.db.block_number ≡ rows

module _ (n : Node) (json : Messages) where
  -- A run goes on to its end: it never runs out of fuel, and if it fails, the block numbers that
  -- were committed are those from before.
  sync_to-FailsWith :
      (g : Targets) (c : Caches) (answer : Option ℕ) (db : Db)
      → FailsWith db.block_number
          (finish c db (sync_to n json g answer (record { db = db; committed = db })))
  unfolding sync_to
  sync_to-FailsWith g c none db = refl
  sync_to-FailsWith g c (some latest) db =
      by_chunks
        (sync_chunks n json (suc latest) latest (999999 + get_oldest_cursor g.token_list latest) g
          (record { db = db; committed = db }))
        (sync_chunks-After n json (Records-Closed n db.block_number) (suc latest) latest
          (999999 + get_oldest_cursor g.token_list latest) g (record { db = db; committed = db })
          (omega arith) (omega arith) (record { db = refl; committed = refl }))
    where
      by_chunks :
          (m : Outcome)
          → After (Records db.block_number) m
          → FailsWith db.block_number (
              finish c db
                (and_run m (λ s. ended (write (set_block_numbers g.token_list latest) s))))
      by_chunks (ended s) h = tt
      by_chunks (raised_at s) h = h.committed
      by_chunks spent h = absurd h

  listed-FailsWith :
      (w : Contracts) (db : Db) (r : Caches × Run Targets)
      → FailsWith db.block_number (sync_listed n json w db r)
  listed-FailsWith w db (c, returned g) = sync_to-FailsWith g c w.block_number db
  listed-FailsWith w db (c, raised) = refl
  listed-FailsWith w db (c, out_of_fuel) = refl

  -- Whatever a run that fails has committed on its way, the block numbers that are recorded for the
  -- tokens are those from before the run, so that the next run reads the same blocks again.
  pub sync_new_logs-block_number :
      (checks is_set : Bool) (w : Contracts) (listed : List Address) (p : Processor)
      → (sync_new_logs n json checks is_set w listed p).1 ≡ failed
      → (sync_new_logs n json checks is_set w listed p).0.db.block_number ≡ p.db.block_number
  unfolding sync_new_logs
  sync_new_logs-block_number checks is_set w listed p =
      by_end (sync_listed n json w p.db (get_contract_list checks is_set w listed p.db p.caches))
        (listed-FailsWith w p.db (get_contract_list checks is_set w listed p.db p.caches))
    where
      by_end :
          (r : Processor × Finished)
          → FailsWith p.db.block_number r
          → r.1 ≡ failed
          → r.0.db.block_number ≡ p.db.block_number
      by_end (q, completed) h e = cc
      by_end (q, failed) h e = h
