-- ===== src/Approval/Listing/Starting.antt =====
-- The blocks at which the tokens that batch/indexer_TransferApproval.py lists start.
use ibet_wallet_api.Base.{
  ℕ, ◌≤◌, ◌≡◌, refl, inl, inr, Bool, true, false, List, [], ◌∷◌, map, ltb, ◌==◌, Run, returned,
  raised, out_of_fuel, All, All-append, Bool-cases, arith,
}
use ibet_wallet_api.Chain.{Address}
use ibet_wallet_api.Approval.Table.{Db}
use ibet_wallet_api.Approval.Targets.{TargetToken, lower_token, has_token, append_token}
use ibet_wallet_api.Approval.Sync.{Targets, next_block}
use ibet_wallet_api.Approval.Listing.{
  TokenType, Contracts, Caches, is_security, type_of, exchange_of, add_exchange, add_typed,
  add_token, and_then, add_tokens, get_contract_list,
}

-- A target starts no later than its block number says.
abbrev pub StartsAt : Db → TargetToken → Type 0
StartsAt db t =
    (t.cursor ≡ t.start_block_number)
    × (t.start_block_number ≤ next_block t.token_address t.exchange_address db)

lower_token-StartsAt :
    (db : Db) (token : Address) (b : ℕ) (t : TargetToken)
    → StartsAt db t
    → StartsAt db (lower_token token b t)
lower_token-StartsAt db token b t h = elim (Bool-cases (t.token_address == token)) [
  | inl own ↦ rw own (elim (Bool-cases (ltb b t.start_block_number)) [
    | inl lower ↦ rw lower (refl, ground (arith, lower, h.1))
    | inr higher ↦ rw higher h
  ])
  | inr other ↦ rw other h
]

lower_tokens-StartsAt :
    (db : Db) (token : Address) (b : ℕ) (ts : List TargetToken)
    → All (StartsAt db) ts
    → All (StartsAt db) (map (lower_token token b) ts)
lower_tokens-StartsAt db token b [] h = tt
lower_tokens-StartsAt db token b (t ∷ ts) (h, hs) =
    (lower_token-StartsAt db token b t h, lower_tokens-StartsAt db token b ts hs)

append_token-StartsAt :
    (db : Db) (token x : Address) (ts : List TargetToken)
    → All (StartsAt db) ts
    → All (StartsAt db) (append_token token x (next_block token x db) ts)
unfolding append_token
append_token-StartsAt db token x ts h = elim (Bool-cases (has_token token ts)) [
  | inl known ↦ rw known (lower_tokens-StartsAt db token (next_block token x db) ts h)
  | inr new ↦ rw new (All-append (StartsAt db) ts _ h ((refl, omega arith), tt))
]

-- What is returned, if anything, starts where it should.
abbrev pub Starts : Db → Caches × Run Targets → Type 0
Starts db (c, returned s) = All (StartsAt db) s.token_list
Starts db (c, raised) = Unit {0}
Starts db (c, out_of_fuel) = Unit {0}

module _ (w : Contracts) (db : Db) where
  add_exchange-Starts :
      (token : Address) (s : Targets) (r : Caches × Run Address)
      → All (StartsAt db) s.token_list
      → Starts db (add_exchange db token s r)
  add_exchange-Starts token s (c, returned x) h = append_token-StartsAt db token x s.token_list h
  add_exchange-Starts token s (c, raised) h = tt
  add_exchange-Starts token s (c, out_of_fuel) h = tt

  add_typed-Starts :
      (token : Address) (s : Targets) (r : Caches × Run TokenType)
      → All (StartsAt db) s.token_list
      → Starts db (add_typed w db token s r)
  add_typed-Starts token s (c, returned ty) h = elim (Bool-cases (is_security ty)) [
    | inl security ↦
        rw security
          (add_exchange-Starts token s (exchange_of w token c (c.tradable_exchange token)) h)
    | inr other ↦ rw other h
  ]
  add_typed-Starts token s (c, raised) h = tt
  add_typed-Starts token s (c, out_of_fuel) h = tt

  and_then-Starts :
      (rest : Caches → Targets → Caches × Run Targets) (r : Caches × Run Targets)
      → ((c : Caches) (s : Targets) → All (StartsAt db) s.token_list → Starts db (rest c s))
      → Starts db r
      → Starts db (and_then rest r)
  and_then-Starts rest (c, returned s) k h = k c s h
  and_then-Starts rest (c, raised) k h = tt
  and_then-Starts rest (c, out_of_fuel) k h = tt

  add_tokens-Starts :
      (tokens : List Address) (c : Caches) (s : Targets)
      → All (StartsAt db) s.token_list
      → Starts db (add_tokens w db tokens c s)
  unfolding add_tokens add_token
  add_tokens-Starts [] c s h = h
  add_tokens-Starts (token ∷ tokens) c s h =
      and_then-Starts (add_tokens w db tokens) (add_token w db token c s) (add_tokens-Starts tokens)
        (add_typed-Starts token s (type_of w token c (c.token_type token)) h)

  pub get_contract_list-Starts :
      (is_set : Bool) (listed : List Address) (c : Caches)
      → Starts db (get_contract_list is_set w listed db c)
  unfolding get_contract_list
  get_contract_list-Starts false listed c = tt
  get_contract_list-Starts true listed c =
      add_tokens-Starts listed c (record { token_list = []; exchange_list = [] }) tt
