-- ===== src/Approval/Listing/Failing.antt =====
-- Lists of tokens that `__get_contract_list` of batch/indexer_TransferApproval.py cannot read.
use ibet_wallet_api.Base.{
  ◌≡◌, refl, true, List, [], ◌∷◌, ◌++◌, Option, none, some, ◌==◌, Run, returned, raised,
  out_of_fuel, Bool-cases, inl, inr, arith,
}
use mathlib.Core.Path.{subst}
use ibet_wallet_api.Chain.{Address}
use ibet_wallet_api.Approval.Table.{Db}
use ibet_wallet_api.Approval.Sink.{Library}
use ibet_wallet_api.Approval.Sync.{Node, Targets}
use ibet_wallet_api.Approval.Listing.{
  TokenType, Contracts, Caches, is_security, read_type, type_of, read_exchange, exchange_of,
  add_exchange, add_typed, add_token, and_then, add_tokens, get_contract_list, Processor, failed,
  sync_listed, sync_new_logs,
}

module _ (w : Contracts) (db : Db) (token : Address) where
  -- The type of the token is not cached.
  abbrev NotCached : {A : Type 0} → Caches × A → Type 0
  NotCached r = r.0.token_type token ≡ none

  -- No targets are returned, and the type of the token is not cached.
  abbrev Fails : Caches × Run Targets → Type 0
  Fails (c, returned s) = ⊥
  Fails (c, raised) = c.token_type token ≡ none
  Fails (c, out_of_fuel) = c.token_type token ≡ none

  module _ (unknown : w.get_token_by_address token ≡ some none) where
    read_type-NotCached :
        (other : Address) (c : Caches) (answer : Option (Option TokenType))
        → w.get_token_by_address other ≡ answer
        → NotCached (c, tt)
        → NotCached (read_type other c answer)
    read_type-NotCached other c none e h = h
    read_type-NotCached other c (some none) e h = h
    read_type-NotCached other c (some (some ty)) e h = elim (Bool-cases (token == other)) [
      | inl own ↦
          let same : other ≡ token = ground (arith, own) in
          cc (subst (λ a. w.get_token_by_address a ≡ some (some ty)) same e, unknown)
      | inr apart ↦ rw apart h
    ]

    type_of-NotCached :
        (other : Address) (c : Caches) (cached : Option TokenType)
        → NotCached (c, tt)
        → NotCached (type_of w other c cached)
    type_of-NotCached other c (some ty) h = h
    type_of-NotCached other c none h =
        read_type-NotCached other c (w.get_token_by_address other) refl h

    read_exchange-NotCached :
        (other : Address) (c : Caches) (answer : Option Address)
        → NotCached (c, tt)
        → NotCached (read_exchange other c answer)
    read_exchange-NotCached other c none h = h
    read_exchange-NotCached other c (some x) h = h

    exchange_of-NotCached :
        (other : Address) (c : Caches) (cached : Option Address)
        → NotCached (c, tt)
        → NotCached (exchange_of w other c cached)
    exchange_of-NotCached other c (some x) h = h
    exchange_of-NotCached other c none h =
        read_exchange-NotCached other c (w.tradable_exchange other) h

    add_exchange-NotCached :
        (other : Address) (s : Targets) (r : Caches × Run Address)
        → NotCached r
        → NotCached (add_exchange db other s r)
    add_exchange-NotCached other s (c, returned x) h = h
    add_exchange-NotCached other s (c, raised) h = h
    add_exchange-NotCached other s (c, out_of_fuel) h = h

    add_typed-NotCached :
        (other : Address) (s : Targets) (r : Caches × Run TokenType)
        → NotCached r
        → NotCached (add_typed w db other s r)
    add_typed-NotCached other s (c, returned ty) h = elim (Bool-cases (is_security ty)) [
      | inl security ↦ rw security (
          add_exchange-NotCached other s (exchange_of w other c (c.tradable_exchange other))
            (exchange_of-NotCached other c (c.tradable_exchange other) h))
      | inr not_security ↦ rw not_security h
    ]
    add_typed-NotCached other s (c, raised) h = h
    add_typed-NotCached other s (c, out_of_fuel) h = h

    and_then-Fails :
        (rest : Caches → Targets → Caches × Run Targets) (r : Caches × Run Targets)
        → ((c : Caches) (s : Targets) → NotCached (c, tt) → Fails (rest c s))
        → NotCached r
        → Fails (and_then rest r)
    and_then-Fails rest (c, returned s) k h = k c s h
    and_then-Fails rest (c, raised) k h = h
    and_then-Fails rest (c, out_of_fuel) k h = h

    add_tokens-Fails :
        (before after : List Address) (c : Caches) (s : Targets)
        → c.token_type token ≡ none
        → Fails (add_tokens w db (before ++ (token ∷ after)) c s)
    unfolding add_tokens add_token
    add_tokens-Fails [] after c s h = rw (h, unknown) h
    add_tokens-Fails (x ∷ before) after c s h =
        and_then-Fails (add_tokens w db (before ++ (token ∷ after))) (add_token w db x c s)
          (λ c s. add_tokens-Fails before after c s)
          (add_typed-NotCached x s (type_of w x c (c.token_type x))
            (type_of-NotCached x c (c.token_type x) h))

-- If the list of tokens has one whose answer of the TokenList contract is no token type, such as the
-- empty text for a token that the contract does not know, and whose type is not cached, then the run
-- fails: no table changes, and the type is not cached after it either.
pub sync_new_logs-failed :
    (lib : Library) (n : Node) (w : Contracts) (token : Address) (before after : List Address)
    (p : Processor)
    → w.get_token_by_address token ≡ some none
    → p.caches.token_type token ≡ none
    → ((sync_new_logs lib n true w (before ++ (token ∷ after)) p).1 ≡ failed)
      × ((sync_new_logs lib n true w (before ++ (token ∷ after)) p).0.db ≡ p.db)
      × ((sync_new_logs lib n true w (before ++ (token ∷ after)) p).0.caches.token_type token
          ≡ none)
unfolding sync_new_logs get_contract_list
sync_new_logs-failed lib n w token before after p unknown h =
    listed
      (add_tokens w p.db (before ++ (token ∷ after)) p.caches
        (record { token_list = []; exchange_list = [] }))
      (add_tokens-Fails w p.db token unknown before after p.caches
        (record { token_list = []; exchange_list = [] }) h)
  where
    listed :
        (r : Caches × Run Targets)
        → Fails w p.db token r
        → ((sync_listed lib n w p.db r).1 ≡ failed)
          × ((sync_listed lib n w p.db r).0.db ≡ p.db)
          × ((sync_listed lib n w p.db r).0.caches.token_type token ≡ none)
    listed (c, returned s) k = absurd k
    listed (c, raised) k = (refl, refl, k)
    listed (c, out_of_fuel) k = (refl, refl, k)
