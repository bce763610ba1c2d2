-- ===== src/Position/Session.antt =====
-- Database sessions of batch/indexer_Position_Bond.py: exceptions that leave the writes before them,
-- and commits in the middle of a run.
pub mod Outcomes
use ibet_wallet_api.Base.{ℕ, List, [], ◌∷◌, Option, none, some}
use ibet_wallet_api.Position.Table.{Db}

-- What the session sees, and what was committed.
pub record Session : Type 0 where
  pub db : Db
  pub committed : Db

-- What code does with a session: it ends, it raises, or it runs out of fuel.
pub data Outcome : Type 0 where
  ended : Session → Outcome
  raised_at : Session → Outcome
  spent : Outcome

abbrev pub and_run : Outcome → (Session → Outcome) → Outcome
and_run (ended s) rest = rest s
and_run (raised_at s) rest = raised_at s
and_run spent rest = spent

-- `for x in xs: …`
abbrev pub for_loop : {A : Type 0} → (A → Session → Outcome) → List A → Session → Outcome
for_loop f [] s = ended s
for_loop f (x ∷ xs) s = and_run (f x s) (for_loop f xs)

-- `try: … except Exception: pass`
abbrev pub swallow : Outcome → Outcome
swallow (ended s) = ended s
swallow (raised_at s) = ended s
swallow spent = spent

-- A call that answers or raises.
abbrev pub ask_for : {A : Type 0} → Option A → (A → Session → Outcome) → Session → Outcome
ask_for none rest s = raised_at s
ask_for (some a) rest s = rest a s

-- Writes of the session.
abbrev pub write : (Db → Db) → Session → Session
write f s = record { db = f s.db; committed = s.committed }

-- `commit`
abbrev pub commit : Session → Session
commit s = record { db = s.db; committed = s.db }

-- Calls for all elements of a list. The code runs them together; one that raises raises for all.
abbrev pub cons_answer : {B : Type 0} → Option B → Option (List B) → Option (List B)
cons_answer none rest = none
cons_answer (some b) none = none
cons_answer (some b) (some bs) = some (b ∷ bs)

abbrev pub ask_all : {A B : Type 0} → (A → Option B) → List A → Option (List B)
ask_all f [] = some []
ask_all f (x ∷ xs) = cons_answer (f x) (ask_all f xs)
