-- ===== src/Chain/Range.antt =====
-- Event logs, the ranges in which they are read, and sums over them.
use ibet_wallet_api.Base.{
  ℕ, ◌+◌, ◌≤◌, ◌≡◌, Bool, ◌&&◌, List, [], ◌∷◌, ◌++◌, arith, leb, select, Run, returned, raised, ℤ,
  pos, ◌+ℤ◌, int_laws, +ℤ_parts, eq_of_parts, Ends, Ends-returned, Ends-raised,
}

-- Addresses are only compared: a number stands for each, 0 for `ZERO_ADDRESS`.
abbrev pub Address : Type 0
Address = ℕ

abbrev pub zero_address : Address
zero_address = 0

-- `sys.maxsize`
abbrev pub max_size : ℕ
max_size = 9223372036854775807

-- `EventData`, with the arguments of its event.
pub record Log (A : Type 0) : Type 0 where
  pub block_number : ℕ
  pub log_index : ℕ
  pub args : A

-- What `contract.events.X.get_logs` does.
pub data Answer (A : Type 0) : Type 0 where
  found : List (Log A) → Answer A
  abi_event_not_found : Answer A
  unavailable : Answer A

-- `try: events = get_logs(…) except ABIEventNotFound: events = []`
unfoldable pub events_of : {A : Type 0} → Answer A → Run (List (Log A))
events_of (found events) = returned events
events_of abi_event_not_found = returned []
events_of unavailable = raised

module _ {A : Type 0} where
  -- The block lies in the inclusive range.
  abbrev pub within : ℕ → ℕ → Log A → Bool
  within block_from block_to e = leb block_from e.block_number && leb e.block_number block_to

  -- The logs of an inclusive range of blocks.
  abbrev pub in_range : ℕ → ℕ → List (Log A) → List (Log A)
  in_range block_from block_to = select (within block_from block_to)

  -- A contract answers every request for a range from one history.
  abbrev pub Serves : (ℕ → ℕ → Answer A) → List (Log A) → Type 0
  Serves get_logs history =
      (block_from block_to : ℕ)
      → events_of (get_logs block_from block_to) ≡ returned (in_range block_from block_to history)

module _ {ℓ} {A : Type ℓ} where
  -- The sum of a number over a list.
  abbrev pub total : (A → ℤ) → List A → ℤ
  total f [] = pos 0
  total f (x ∷ xs) = f x +ℤ total f xs

  pub total-append : (f : A → ℤ) (xs ys : List A) → total f (xs ++ ys) ≡ total f xs +ℤ total f ys
  total-append f [] ys = omega int_laws
  total-append f (x ∷ xs) ys = rw (total-append f xs ys) (omega int_laws)

module _ {A : Type 0} (f : Log A → ℤ) where
  -- The sum over a range is the sum over two ranges that share it.
  pub total_split :
      (a b c : ℕ) (history : List (Log A))
      → a ≤ b + 1
      → b ≤ c
      → total f (in_range a c history)
        ≡ total f (in_range a b history) +ℤ total f (in_range (b + 1) c history)
  total_split a b c [] h k = omega int_laws
  total_split a b c (e ∷ es) h k = ground (
    arith,
    total_split a b c es h k,
    +ℤ_parts (f e) (total f (in_range a c es)),
    +ℤ_parts (f e) (total f (in_range a b es)),
    +ℤ_parts (f e) (total f (in_range (b + 1) c es)),
    +ℤ_parts (total f (in_range a b es)) (total f (in_range (b + 1) c es)),
    +ℤ_parts (f e +ℤ total f (in_range a b es)) (total f (in_range (b + 1) c es)),
    +ℤ_parts (total f (in_range a b es)) (f e +ℤ total f (in_range (b + 1) c es)),
    eq_of_parts (f e +ℤ total f (in_range a c es))
        (f e +ℤ total f (in_range a b es) +ℤ total f (in_range (b + 1) c es)),
    eq_of_parts (f e +ℤ total f (in_range a c es))
        (total f (in_range a b es) +ℤ (f e +ℤ total f (in_range (b + 1) c es))),
  )

pub Ends-events_of : {A : Type 0} (r : Answer A) → Ends (events_of r)
unfolding events_of
Ends-events_of (found es) = Ends-returned
Ends-events_of abi_event_not_found = Ends-returned
Ends-events_of unavailable = Ends-raised
