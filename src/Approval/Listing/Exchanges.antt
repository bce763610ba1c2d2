-- ===== src/Approval/Listing/Exchanges.antt =====
-- The exchanges that `__get_contract_list` of batch/indexer_TransferApproval.py puts in its list.
use ibet_wallet_api.Base.{
  ℕ, ◌≡◌, refl, sym, ap, ◌∙◌, false, ◌||◌, List, [], ◌∷◌, ◌++◌, ◌==◌, Run, returned, raised,
  out_of_fuel, Bool-cases, append-nil, append_assoc, inl, inr, arith,
}
use ibet_wallet_api.Chain.{Address, zero_address}
use ibet_wallet_api.Approval.Table.{Db}
use ibet_wallet_api.Approval.Targets.{TargetExchange, append_exchange, has_exchange}
use ibet_wallet_api.Approval.Sync.{Targets, next_block}
use ibet_wallet_api.Approval.Listing.{
  TokenType, Contracts, Caches, is_security, type_of, exchange_of, add_target, add_exchange,
  add_typed, add_token, and_then, add_tokens,
}

-- The list of exchanges is a longer one.
abbrev pub IsLonger : List TargetExchange → Caches × Run Targets → Type 0
IsLonger xs (c, returned s) = (more : List TargetExchange) × (s.exchange_list ≡ xs ++ more)
IsLonger xs (c, raised) = Unit {0}
IsLonger xs (c, out_of_fuel) = Unit {0}

add_target-IsLonger :
    (token x : Address) (b : ℕ) (s : Targets)
    → (more : List TargetExchange) × ((add_target token x b s).exchange_list
        ≡ s.exchange_list ++ more)
unfolding append_exchange
add_target-IsLonger token x b s =
    elim (Bool-cases (x == zero_address || has_exchange x s.exchange_list)) [
      | inl known ↦ rw known ([], sym (append-nil s.exchange_list))
      | inr new ↦
          let first : has_exchange x s.exchange_list ≡ false = ground (arith, new) in
          rw new (rw first (_, refl))
    ]

module _ (w : Contracts) (db : Db) where
  add_exchange-IsLonger :
      (token : Address) (s : Targets) (r : Caches × Run Address)
      → IsLonger s.exchange_list (add_exchange db token s r)
  add_exchange-IsLonger token s (c, returned x) =
      add_target-IsLonger token x (next_block token x db) s
  add_exchange-IsLonger token s (c, raised) = tt
  add_exchange-IsLonger token s (c, out_of_fuel) = tt

  add_typed-IsLonger :
      (token : Address) (s : Targets) (r : Caches × Run TokenType)
      → IsLonger s.exchange_list (add_typed w db token s r)
  add_typed-IsLonger token s (c, returned ty) = elim (Bool-cases (is_security ty)) [
    | inl security ↦
        rw security
          (add_exchange-IsLonger token s (exchange_of w token c (c.tradable_exchange token)))
    | inr other ↦ rw other ([], sym (append-nil s.exchange_list))
  ]
  add_typed-IsLonger token s (c, raised) = tt
  add_typed-IsLonger token s (c, out_of_fuel) = tt

  and_then-IsLonger :
      (rest : Caches → Targets → Caches × Run Targets) (xs : List TargetExchange)
      (r : Caches × Run Targets)
      → ((c : Caches) (s : Targets) → IsLonger s.exchange_list (rest c s))
      → IsLonger xs r
      → IsLonger xs (and_then rest r)
  and_then-IsLonger rest xs (c, returned s) k (more, e) = longer (rest c s) (k c s)
    where
      longer : (r : Caches × Run Targets) → IsLonger s.exchange_list r → IsLonger xs r
      longer (c, returned t) (last, f) =
          (more ++ last, f ∙ ap (λ l. l ++ last) e ∙ append_assoc xs more last)
      longer (c, raised) h = tt
      longer (c, out_of_fuel) h = tt
  and_then-IsLonger rest xs (c, raised) k h = tt
  and_then-IsLonger rest xs (c, out_of_fuel) k h = tt

  -- The loop over the listed tokens leaves every exchange that is in the list as it is, with its
  -- start block and its cursor, whatever blocks the tokens after it start at.
  pub add_tokens-IsLonger :
      (tokens : List Address) (c : Caches) (s : Targets)
      → IsLonger s.exchange_list (add_tokens w db tokens c s)
  unfolding add_tokens add_token
  add_tokens-IsLonger [] c s = ([], sym (append-nil s.exchange_list))
  add_tokens-IsLonger (token ∷ tokens) c s =
      and_then-IsLonger (add_tokens w db tokens) s.exchange_list (add_token w db token c s)
        (add_tokens-IsLonger tokens)
        (add_typed-IsLonger token s (type_of w token c (c.token_type token)))
