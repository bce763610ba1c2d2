-- ===== src/Nodes/Status/Rows.antt =====
-- `__sink_on_node` of batch/processor_Block_Sync_Status.py writes the row of one node.
use ibet_wallet_api.Base.{
  ℕ, ◌≡◌, ◌≢◌, refl, ap, Bool, true, false, List, [], ◌∷◌, ◌++◌, Option, none, some, if◌then◌else◌,
  ◌==◌, ==_refl, first_where, update_first, Bool-cases, inl, inr, arith,
}
use ibet_wallet_api.Nodes.Table.{Node}
use ibet_wallet_api.Nodes.Status.{Db, has_uri, sink_found, sink_on_node}

-- The row of a node says that it is synchronized, or that it is not.
abbrev pub Row : Bool → Option Node → Type 0
Row b none = ⊥
Row b (some n) = n.is_synced ≡ b

set_synced : Bool → Node → Node
set_synced b n = record n { is_synced = b }

module _ (uri : ℕ) (b : Bool) where
  Row-update_first :
      (ns : List Node)
      → first_where (has_uri uri) ns ≢ none
      → Row b (
          first_where
            (has_uri uri)
            (update_first (has_uri uri) (λ n. record n { is_synced = b }) ns))
  unfolding first_where update_first
  Row-update_first [] h = h refl
  Row-update_first (n ∷ ns) h = elim (Bool-cases (n.endpoint_uri == uri)) [
    | inl here ↦ rw here (rw here refl)
    | inr later ↦ rw later (rw later (Row-update_first ns (rw later at h)))
  ]

  Row-added :
      (ns : List Node) (n : Node)
      → (n.endpoint_uri == uri) ≡ true
      → n.is_synced ≡ b
      → first_where (has_uri uri) ns ≡ none
      → Row b (first_where (has_uri uri) (ns ++ (n ∷ [])))
  unfolding first_where
  Row-added [] n h k e = rw h k
  Row-added (m ∷ ns) n h k e = elim (Bool-cases (m.endpoint_uri == uri)) [
    | inl here ↦ cc (rw here at e)
    | inr later ↦ rw later (Row-added ns n h k (rw later at e))
  ]

  first_where-update_other :
      (other : ℕ) (ns : List Node)
      → other ≢ uri
      → first_where
          (has_uri other)
          (update_first (has_uri uri) (λ n. record n { is_synced = b }) ns)
        ≡ first_where (has_uri other) ns
  unfolding first_where update_first
  first_where-update_other other [] d = refl
  first_where-update_other other (n ∷ ns) d = elim (Bool-cases (n.endpoint_uri == uri)) [
    | inl here ↦ rw here (rw (not_other here) refl)
    | inr later ↦ rw later (
        ap (λ (o : Option Node). if n.endpoint_uri == other then some n else o)
          (first_where-update_other other ns d))
  ]
    where
      not_other : (n.endpoint_uri == uri) ≡ true → (n.endpoint_uri == other) ≡ false
      not_other h = ground (arith, h, d)

  first_where-added_other :
      (other : ℕ) (ns : List Node) (n : Node)
      → (n.endpoint_uri == other) ≡ false
      → first_where (has_uri other) (ns ++ (n ∷ [])) ≡ first_where (has_uri other) ns
  unfolding first_where
  first_where-added_other other [] n h = rw h refl
  first_where-added_other other (m ∷ ns) n h =
      ap (λ (o : Option Node). if m.endpoint_uri == other then some m else o)
        (first_where-added_other other ns n h)

pub sink_on_node-Row :
    (uri priority : ℕ) (b : Bool) (db : Db)
    → Row b (first_where (has_uri uri) (sink_on_node uri priority b db).node)
unfolding sink_on_node
sink_on_node-Row uri priority b db = by_found (first_where (has_uri uri) db.node) refl
  where
    by_found :
        (o : Option Node)
        → first_where (has_uri uri) db.node ≡ o
        → Row b (first_where (has_uri uri) (sink_found uri priority b db o).node)
    by_found none e = Row-added uri b db.node _ (==_refl uri) refl e
    by_found (some n) e = Row-update_first uri b db.node (λ d. cc)

pub sink_on_node-other :
    (uri priority : ℕ) (b : Bool) (db : Db) (other : ℕ)
    → other ≢ uri
    → first_where (has_uri other) (sink_on_node uri priority b db).node
      ≡ first_where (has_uri other) db.node
unfolding sink_on_node
sink_on_node-other uri priority b db other d = by_found (first_where (has_uri uri) db.node)
  where
    by_found :
        (o : Option Node)
        → first_where (has_uri other) (sink_found uri priority b db o).node
          ≡ first_where (has_uri other) db.node
    by_found none = first_where-added_other uri b other db.node _ (ground (arith, d))
    by_found (some n) = first_where-update_other uri b other db.node d
