-- ===== src/Nodes/Table.antt =====
-- The table `node`.
use ibet_wallet_api.Base.{
  ℕ, Bool, ◌&&◌, ◌||◌, List, [], ◌∷◌, Option, none, some, if◌then◌else◌, ltb, leb, ◌==◌,
}

-- `Node`. Addresses of nodes are numbers that are only compared. The two columns that may be null
-- are always written.
pub record Node : Type 0 where
  pub id : ℕ
  pub endpoint_uri : ℕ
  pub priority : ℕ
  pub is_synced : Bool

-- The order of `order_by(Node.priority).order_by(Node.id)`.
abbrev pub not_after : Node → Node → Bool
not_after x y = ltb x.priority y.priority || (x.priority == y.priority && leb x.id y.id)

abbrev pub better : Node → Option Node → Node
better x none = x
better x (some y) = if not_after x y then x else y

-- `select(Node).where(Node.is_synced == True).order_by(…).limit(1)` and `.first()`
unfoldable pub alive_node : List Node → Option Node
alive_node [] = none
alive_node (x ∷ xs) = if x.is_synced then some (better x (alive_node xs)) else alive_node xs
