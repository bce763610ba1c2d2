-- ===== src/Position/Session/Outcomes.antt =====
-- Predicates on the session that code leaves, whether it raises or not.
use ibet_wallet_api.Base.{List, [], ◌∷◌}
use ibet_wallet_api.Position.Session.{
  Session, Outcome, ended, raised_at, spent, and_run, for_loop, swallow,
}

-- The code ends, and this holds of the session that is left, also by an exception.
abbrev pub After : (Session → Type 0) → Outcome → Type 0
After P (ended s) = P s
After P (raised_at s) = P s
After P spent = ⊥

-- The session that is left where no exception is raised.
abbrev pub Done : (Session → Type 0) → Outcome → Type 0
Done P (ended s) = P s
Done P (raised_at s) = Unit {0}
Done P spent = Unit {0}

module _ (P : Session → Type 0) where
  pub After-Done : (m : Outcome) → After P m → Done P m
  After-Done (ended s) h = h
  After-Done (raised_at s) h = tt
  After-Done spent h = tt

  pub After-and_run :
      (m : Outcome) (k : Session → Outcome)
      → After P m
      → ((s : Session) → P s → After P (k s))
      → After P (and_run m k)
  After-and_run (ended s) k h rest = rest s h
  After-and_run (raised_at s) k h rest = h
  After-and_run spent k h rest = absurd h

  pub After-for_loop :
      {A : Type 0} (f : A → Session → Outcome)
      → ((x : A) (s : Session) → P s → After P (f x s))
      → (xs : List A) (s : Session) → P s
      → After P (for_loop f xs s)
  After-for_loop f one [] s h = h
  After-for_loop f one (x ∷ xs) s h =
      After-and_run (f x s) (for_loop f xs) (one x s h) (After-for_loop f one xs)

  pub After-swallow : (m : Outcome) → After P m → After P (swallow m)
  After-swallow (ended s) h = h
  After-swallow (raised_at s) h = h
  After-swallow spent h = h

  pub Done-and_run :
      (Q : Session → Type 0) (m : Outcome) (k : Session → Outcome)
      → Done P m
      → ((s : Session) → P s → Done Q (k s))
      → Done Q (and_run m k)
  Done-and_run Q (ended s) k h rest = rest s h
  Done-and_run Q (raised_at s) k h rest = tt
  Done-and_run Q spent k h rest = tt

  pub Done-both :
      (Q : Session → Type 0) (m : Outcome) → Done P m → Done Q m → Done (λ s. P s × Q s) m
  Done-both Q (ended s) h k = (h, k)
  Done-both Q (raised_at s) h k = tt
  Done-both Q spent h k = tt

  pub Done-imp :
      (Q : Session → Type 0) (m : Outcome) → ((s : Session) → P s → Q s) → Done P m → Done Q m
  Done-imp Q (ended s) f h = f s h
  Done-imp Q (raised_at s) f h = tt
  Done-imp Q spent f h = tt
