-- ===== src/Nodes/Status/Recorded.antt =====
-- What a round of batch/processor_Block_Sync_Status.py records of the nodes.
use ibet_wallet_api.Base.{
  ℕ, ◌≡◌, ◌≢◌, List, [], ◌∷◌, ◌++◌, All, Option, some, raised, out_of_fuel, first_where, Run,
  returned,
}
use ibet_wallet_api.Nodes.Table.{Node}
use ibet_wallet_api.Nodes.Status.{NodeInfo, Round, Config, Processed, Db, has_uri}
use ibet_wallet_api.Nodes.Status.Turn.{NewInfo, IsValid, Breaks, Verdict}

module _ (config : Config) where
  -- No two of the nodes have the same address.
  abbrev pub AreDistinct : List NodeInfo → Type 0
  AreDistinct [] = Unit
  AreDistinct (x ∷ xs) = All (λ y. y.endpoint_uri ≢ x.endpoint_uri) xs × AreDistinct xs

  -- The information of each node, and what it is after the round.
  abbrev pub AreNew : (ℕ → Round) → List NodeInfo → List NodeInfo → Type 0
  AreNew rounds [] [] = Unit
  AreNew rounds [] (y ∷ ys) = ⊥
  AreNew rounds (x ∷ xs) [] = ⊥
  AreNew rounds (x ∷ xs) (y ∷ ys) =
      let round = rounds x.endpoint_uri in
      NewInfo x y round.time round.syncing round.block_number × AreNew rounds xs ys

  -- There is a row, and it says what the calls show.
  abbrev pub Says : NodeInfo → Round → Option Node → Type 0
  Says info round o = (n : Node) × (o ≡ some n) × Verdict config info round n.is_synced

  -- The round checks all nodes, or is left at the first one that breaks it.
  abbrev pub EndsAt : (ℕ → Round) → Run (Unit {0}) → List NodeInfo → Type 0
  EndsAt rounds (returned u) rest = rest ≡ []
  EndsAt rounds raised [] = ⊥
  EndsAt rounds raised (x ∷ xs) = Breaks (rounds x.endpoint_uri)
  EndsAt rounds out_of_fuel rest = ⊥

  pub record AreRecorded (rounds : ℕ → Round) (infos : List NodeInfo) (db : Db) (r : Processed)
      : Type 0 where
    pub checked : List NodeInfo
    pub new : List NodeInfo
    pub rest : List NodeInfo
    pub split : infos ≡ checked ++ rest
    pub new_split : r.infos ≡ new ++ rest
    pub are_new : AreNew rounds checked new
    pub rows :
        All
          (λ info.
            Says info
              (rounds info.endpoint_uri)
              (first_where (has_uri info.endpoint_uri) r.db.node))
          checked
    pub others :
        (uri : ℕ)
        → All (λ info. uri ≢ info.endpoint_uri) checked
        → first_where (has_uri uri) r.db.node ≡ first_where (has_uri uri) db.node
    pub ends_at : EndsAt rounds r.outcome rest
    pub valid : All IsValid r.infos
