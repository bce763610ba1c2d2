-- ===== src/Position/Run/Starts.antt =====
-- The blocks at which the exchanges of batch/indexer_Position_Bond.py start.
use ibet_wallet_api.Base.{
  ℕ, ◌≤◌, ◌≡◌, refl, true, false, Bool, List, [], ◌∷◌, ◌++◌, map, Option, none, some, ltb, ◌==◌,
  Bool-cases, ◌⊎◌, inl, inr, arith, Run, returned, raised, out_of_fuel,
}
use mathlib.Core.Path.{subst}
use ibet_wallet_api.Chain.{Address, zero_address}
use ibet_wallet_api.Approval.Targets.{TargetExchange, lower_exchange, has_exchange, append_exchange}
use ibet_wallet_api.Approval.Sync.{Targets}
use ibet_wallet_api.Position.Table.{Db}
use ibet_wallet_api.Position.Run.{
  own_type, other_type, no_type, TypeText, Contracts, Caches, next_block, convert, add_target,
  read_exchange, add_exchange, add_typed, convert_type, read_type, add_token, and_then, add_tokens,
}

-- The exchange is a target that starts at the block or before it.
abbrev pub StartsBy : Address → ℕ → List TargetExchange → Type 0
StartsBy x b [] = ⊥
StartsBy x b (e ∷ es) = ((e.exchange_address ≡ x) × (e.start_block_number ≤ b)) ⊎ StartsBy x b es

lower_exchange-keeps :
    (y x : Address) (c b : ℕ) (e : TargetExchange)
    → (e.exchange_address ≡ x) × (e.start_block_number ≤ b)
    → ((lower_exchange y c e).exchange_address ≡ x)
      × ((lower_exchange y c e).start_block_number ≤ b)
lower_exchange-keeps y x c b e (a, h) = elim (Bool-cases (e.exchange_address == y)) [
  | inl own ↦ rw own (elim (Bool-cases (ltb c e.start_block_number)) [
    | inl lower ↦ rw lower (a, ground (arith, lower, h))
    | inr higher ↦ rw higher (a, h)
  ])
  | inr other ↦ rw other (a, h)
]

lower_exchanges-keeps :
    (y x : Address) (c b : ℕ) (es : List TargetExchange)
    → StartsBy x b es
    → StartsBy x b (map (lower_exchange y c) es)
lower_exchanges-keeps y x c b [] h = h
lower_exchanges-keeps y x c b (e ∷ es) (inl h) = inl (lower_exchange-keeps y x c b e h)
lower_exchanges-keeps y x c b (e ∷ es) (inr h) = inr (lower_exchanges-keeps y x c b es h)

lower_exchange-own :
    (x : Address) (b : ℕ) (e : TargetExchange)
    → (e.exchange_address == x) ≡ true
    → ((lower_exchange x b e).exchange_address ≡ x)
      × ((lower_exchange x b e).start_block_number ≤ b)
lower_exchange-own x b e own = rw own (elim (Bool-cases (ltb b e.start_block_number)) [
  | inl lower ↦ rw lower (ground (arith, own), omega arith)
  | inr higher ↦ rw higher (ground (arith, own), ground (arith, higher))
])

lower_exchanges-own :
    (x : Address) (b : ℕ) (es : List TargetExchange)
    → has_exchange x es ≡ true
    → StartsBy x b (map (lower_exchange x b) es)
lower_exchanges-own x b [] h = cc
lower_exchanges-own x b (e ∷ es) h = elim (Bool-cases (e.exchange_address == x)) [
  | inl own ↦ inl (lower_exchange-own x b e own)
  | inr other ↦ inr (lower_exchanges-own x b es (rw other at h))
]

StartsBy-left :
    (x : Address) (b : ℕ) (es fs : List TargetExchange) → StartsBy x b es → StartsBy x b (es ++ fs)
StartsBy-left x b [] fs h = absurd h
StartsBy-left x b (e ∷ es) fs (inl h) = inl h
StartsBy-left x b (e ∷ es) fs (inr h) = inr (StartsBy-left x b es fs h)

StartsBy-right :
    (x : Address) (b : ℕ) (es fs : List TargetExchange) → StartsBy x b fs → StartsBy x b (es ++ fs)
StartsBy-right x b [] fs h = h
StartsBy-right x b (e ∷ es) fs h = inr (StartsBy-right x b es fs h)

append_exchange-keeps :
    (y x : Address) (c b : ℕ) (es : List TargetExchange)
    → StartsBy x b es
    → StartsBy x b (append_exchange y c es)
unfolding append_exchange
append_exchange-keeps y x c b es h = elim (Bool-cases (has_exchange y es)) [
  | inl known ↦ rw known (lower_exchanges-keeps y x c b es h)
  | inr new ↦ rw new (StartsBy-left x b es _ h)
]

append_exchange-own :
    (x : Address) (b : ℕ) (es : List TargetExchange) → StartsBy x b (append_exchange x b es)
unfolding append_exchange
append_exchange-own x b es = elim (Bool-cases (has_exchange x es)) [
  | inl known ↦ rw known (lower_exchanges-own x b es known)
  | inr new ↦ rw new (StartsBy-right x b es _ (inl (refl, omega arith)))
]

module _ (x : Address) (b : ℕ) where
  add_target-keeps :
      (token y : Address) (c : ℕ) (g : Targets)
      → StartsBy x b g.exchange_list
      → StartsBy x b (add_target token y c g).exchange_list
  unfolding add_target
  add_target-keeps token y c g h = elim (Bool-cases (y == zero_address)) [
    | inl none_ ↦ rw none_ h
    | inr some_ ↦ rw some_ (append_exchange-keeps y x c b g.exchange_list h)
  ]

  -- What is returned, if anything, has the exchange still.
  abbrev Still : Caches × Run Targets → Type 0
  Still (c, returned g) = StartsBy x b g.exchange_list
  Still (c, raised) = Unit {0}
  Still (c, out_of_fuel) = Unit {0}

  module _ (checks : Bool) (w : Contracts) (db : Db) where
    read_exchange-Still :
        (token : Address) (o : Option Address) (c : Caches) (g : Targets)
        → StartsBy x b g.exchange_list
        → Still (read_exchange checks w db token o c g)
    read_exchange-Still token none c g h = tt
    read_exchange-Still token (some y) c g h = add_target-keeps token y (next_block token y db) g h

    add_exchange-Still :
        (token : Address) (o : Option Address) (c : Caches) (g : Targets)
        → StartsBy x b g.exchange_list
        → Still (add_exchange checks w db token o c g)
    add_exchange-Still token (some y) c g h = add_target-keeps token y (next_block token y db) g h
    add_exchange-Still token none c g h =
        read_exchange-Still token (w.tradable_exchange token) c g h

    add_typed-Still :
        (token : Address) (ty : TypeText) (c : Caches) (g : Targets)
        → StartsBy x b g.exchange_list
        → Still (add_typed checks w db token ty c g)
    add_typed-Still token own_type c g h =
        add_exchange-Still token (c.tradable_exchange token) c g h
    add_typed-Still token other_type c g h = h
    add_typed-Still token no_type c g h = h

    convert_type-Still :
        (token : Address) (o : Option TypeText) (c : Caches) (g : Targets)
        → StartsBy x b g.exchange_list
        → Still (convert_type checks w db token o c g)
    convert_type-Still token none c g h = tt
    convert_type-Still token (some ty) c g h = add_typed-Still token ty _ g h

    read_type-Still :
        (token : Address) (o : Option TypeText) (c : Caches) (g : Targets)
        → StartsBy x b g.exchange_list
        → Still (read_type checks w db token o c g)
    read_type-Still token none c g h = tt
    read_type-Still token (some text) c g h = convert_type-Still token (convert checks text) c g h

    add_token-Still :
        (token : Address) (o : Option TypeText) (c : Caches) (g : Targets)
        → StartsBy x b g.exchange_list
        → Still (add_token checks w db token o c g)
    add_token-Still token (some ty) c g h = add_typed-Still token ty c g h
    add_token-Still token none c g h = read_type-Still token (w.get_token_by_address token) c g h

    and_then-Still :
        (rest : Caches → Targets → Caches × Run Targets) (r : Caches × Run Targets)
        → ((c : Caches) (g : Targets) → StartsBy x b g.exchange_list → Still (rest c g))
        → Still r
        → Still (and_then checks w db rest r)
    and_then-Still rest (c, returned g) k h = k c g h
    and_then-Still rest (c, raised) k h = tt
    and_then-Still rest (c, out_of_fuel) k h = tt

    add_tokens-Still :
        (tokens : List Address) (c : Caches) (g : Targets)
        → StartsBy x b g.exchange_list
        → Still (add_tokens checks w db tokens c g)
    unfolding add_tokens
    add_tokens-Still [] c g h = h
    add_tokens-Still (token ∷ tokens) c g h =
        and_then-Still (add_tokens checks w db tokens)
          (add_token checks w db token (c.token_type token) c g) (add_tokens-Still tokens)
          (add_token-Still token (c.token_type token) c g h)

    -- Once a token is appended with an exchange and a block to start from, the list that the loop
    -- over any further tokens returns has the exchange, which starts at that block or before it.
    pub add_tokens-StartsBy :
        (token : Address) (tokens : List Address) (c c' : Caches) (g g' : Targets)
        → (x == zero_address) ≡ false
        → add_tokens checks w db tokens c (add_target token x b g) ≡ (c', returned g')
        → StartsBy x b g'.exchange_list
    unfolding add_target
    add_tokens-StartsBy token tokens c c' g g' some_ e = subst Still e (
        add_tokens-Still tokens c (add_target token x b g)
          (rw some_ (append_exchange-own x b g.exchange_list)))
