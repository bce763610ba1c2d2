-- ===== src/Position/Accounts.antt =====
-- `remove_duplicate_event_by_token_account_desc` of batch/indexer_Position_Bond.py, the chunks of
-- accounts, and the unique accounts of the events of exchanges.
pub mod Exact
pub mod Chunks
pub mod Unique
use ibet_wallet_api.Base.{
  ℕ, zero, suc, ◌-◌, Bool, true, false, ◌&&◌, ◌||◌, not, List, [], ◌∷◌, ◌++◌, length, select,
  if◌then◌else◌, ltb, ◌==◌,
}
use ibet_wallet_api.Chain.{Address, zero_address, Log}

abbrev pub contains : Address → List Address → Bool
contains a [] = false
contains a (x ∷ xs) = x == a || contains a xs

abbrev pub reversed : {A : Type 0} → List A → List A
reversed [] = []
reversed (x ∷ xs) = reversed xs ++ (x ∷ [])

-- The accounts of the events, from the last event on, without the zero address. The first argument
-- reads the keys of an event in their order.
abbrev pub event_accounts : {A : Type 0} → (A → List Address) → List (Log A) → List Address
event_accounts keys [] = []
event_accounts keys (e ∷ es) =
    select (λ a. not (a == zero_address)) (keys e.args) ++ event_accounts keys es

-- The first of each; `seen` are those that were met.
abbrev pub unseen : List Address → List Address → List Address
unseen seen [] = []
unseen seen (x ∷ xs) = if contains x seen then unseen seen xs else x ∷ unseen (x ∷ seen) xs

-- `remove_duplicate_event_by_token_account_desc`
unfoldable pub remove_duplicates : {A : Type 0} → (A → List Address) → List (Log A) → List Address
remove_duplicates keys events = reversed (unseen [] (event_accounts keys (reversed events)))

abbrev pub take : {A : Type 0} → ℕ → List A → List A
take zero xs = []
take (suc n) [] = []
take (suc n) (x ∷ xs) = x ∷ take n xs

abbrev pub drop : {A : Type 0} → ℕ → List A → List A
drop zero xs = xs
drop (suc n) [] = []
drop (suc n) (x ∷ xs) = drop n xs

-- `[xs[i : i + size] for i in range(0, len(xs), size)]`: a slice and the slices of the rest. Each
-- slice takes an element at least, so the length is enough fuel.
abbrev pub chunks_of : {A : Type 0} → ℕ → ℕ → List A → List (List A)
chunks_of zero size xs = []
chunks_of (suc fuel) size [] = []
chunks_of (suc fuel) size (x ∷ xs) = take size (x ∷ xs) ∷ chunks_of fuel size (drop size (x ∷ xs))

unfoldable pub chunked : {A : Type 0} → ℕ → List A → List (List A)
chunked size xs = chunks_of (length xs) size xs

-- An account of a token.
pub record Holder : Type 0 where
  pub token_address : Address
  pub account_address : Address

abbrev pub same_holder : Holder → Holder → Bool
same_holder x y = x.token_address == y.token_address && x.account_address == y.account_address

-- `sort` by token and account, here by insertion.
abbrev pub holder_lt : Holder → Holder → Bool
holder_lt x y =
    ltb x.token_address y.token_address
    || (x.token_address == y.token_address && ltb x.account_address y.account_address)

abbrev pub insert_holder : Holder → List Holder → List Holder
insert_holder x [] = x ∷ []
insert_holder x (y ∷ ys) = if holder_lt y x then y ∷ insert_holder x ys else x ∷ y ∷ ys

abbrev pub sort_holders : List Holder → List Holder
sort_holders [] = []
sort_holders (x ∷ xs) = insert_holder x (sort_holders xs)

-- The first of each group of equal neighbours.
abbrev pub group_from : Holder → List Holder → List Holder
group_from x [] = x ∷ []
group_from x (y ∷ ys) = if same_holder x y then group_from x ys else x ∷ group_from y ys

abbrev pub group_holders : List Holder → List Holder
group_holders [] = []
group_holders (x ∷ xs) = group_from x xs

-- "Make temporary list unique"
unfoldable pub unique_holders : List Holder → List Holder
unique_holders xs = group_holders (sort_holders xs)
