-- ===== src/Nodes/Failover/Chosen.antt =====
-- The node that the query of app/utils/web3_utils.py chooses.
use ibet_wallet_api.Base.{
  ◌≡◌, ◌⊎◌, inl, inr, Bool, true, false, List, [], ◌∷◌, Option, none, some, if◌then◌else◌, All,
  All-imp, Bool-cases, arith,
}
use mathlib.Core.Path.{refl}
use ibet_wallet_api.Nodes.Table.{Node, not_after, better, alive_node}

-- The node is one of the list.
abbrev pub IsOneOf : Node → List Node → Type 0
IsOneOf n [] = ⊥
IsOneOf n (x ∷ xs) = (x ≡ n) ⊎ IsOneOf n xs

-- The node is synchronized, and no other such node has a better priority, or the same and a smaller
-- id.
pub record IsChosen (n : Node) (nodes : List Node) : Type 0 where
  pub listed : IsOneOf n nodes
  pub synced : n.is_synced ≡ true
  pub first : All (λ m. m.is_synced ≡ true → not_after n m ≡ true) nodes

-- No node is synchronized.
abbrev pub NoneAlive : List Node → Type 0
NoneAlive nodes = All (λ m. m.is_synced ≡ false) nodes

-- What the query returns.
abbrev pub IsAnswer : Option Node → List Node → Type 0
IsAnswer none nodes = NoneAlive nodes
IsAnswer (some n) nodes = IsChosen n nodes

not_after_refl : (x : Node) → not_after x x ≡ true
not_after_refl x = ground arith

not_after_trans :
    (x y z : Node) → not_after x y ≡ true → not_after y z ≡ true → not_after x z ≡ true
not_after_trans x y z h k = ground (arith, h, k)

not_after_total : (x y : Node) → not_after x y ≡ false → not_after y x ≡ true
not_after_total x y h = ground (arith, h)

better-IsAnswer :
    (x : Node) (o : Option Node) (xs : List Node)
    → x.is_synced ≡ true
    → IsAnswer o xs
    → IsChosen (better x o) (x ∷ xs)
better-IsAnswer x none xs alive h = record {
  listed = inl refl;
  synced = alive;
  first = (λ e. not_after_refl x, All-imp (λ m dead e. cc) xs h);
}
better-IsAnswer x (some y) xs alive h = elim (Bool-cases (not_after x y)) [
  | inl before ↦ rw before (record {
    listed = inl refl;
    synced = alive;
    first =
        (λ e. not_after_refl x, All-imp (λ m k e. not_after_trans x y m before (k e)) xs h.first);
  })
  | inr after ↦ rw after (record {
    listed = inr h.listed;
    synced = h.synced;
    first = (λ e. not_after_total x y after, h.first);
  })
]

pub alive_node-IsAnswer : (nodes : List Node) → IsAnswer (alive_node nodes) nodes
unfolding alive_node
alive_node-IsAnswer [] = tt
alive_node-IsAnswer (x ∷ xs) = by_synced x.is_synced refl (alive_node-IsAnswer xs)
  where
    after_dead : (o : Option Node) → x.is_synced ≡ false → IsAnswer o xs → IsAnswer o (x ∷ xs)
    after_dead none dead h = (dead, h)
    after_dead (some n) dead h = record {
      listed = inr h.listed;
      synced = h.synced;
      first = (λ e. cc, h.first);
    }

    by_synced :
        (b : Bool)
        → x.is_synced ≡ b
        → IsAnswer (alive_node xs) xs
        → IsAnswer (if b then some (better x (alive_node xs)) else alive_node xs) (x ∷ xs)
    by_synced true alive h = better-IsAnswer x (alive_node xs) xs alive h
    by_synced false dead h = after_dead (alive_node xs) dead h
