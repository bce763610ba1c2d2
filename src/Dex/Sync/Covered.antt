-- ===== src/Dex/Sync/Covered.antt =====
-- No block is skipped: the runs of batch/indexer_DEX.py, in any order and with any failures, leave
-- in the table every order that the exchange has announced up to `latest_block`.
use ibet_wallet_api.Base.{
  ℕ, ◌<◌, ◌≤◌, ◌≡◌, refl, ◌∙◌, Bool, true, false, List, [], ◌∷◌, ◌++◌, if◌then◌else◌, returned,
  each, All, Bool-cases, inl, inr, arith,
}
use ibet_wallet_api.Chain.{Address, Log, events_of, in_range}
use ibet_wallet_api.Dex.Table.{Order, Db, is_order}
use ibet_wallet_api.Dex.Table.Rows.{
  add_row, exists_where, exists_where-each, All-each, exists_where-updates,
}
use ibet_wallet_api.Dex.Sync.{NewOrderArgs, Node, is_oversized}
use ibet_wallet_api.Dex.Sync.Fetch.{Batch, apply_batch}
use ibet_wallet_api.Dex.Sync.Tables.{
  same_order, cancel_key, cancel_set, cancel_keeps, apply_batch_lem,
}
use ibet_wallet_api.Dex.Sync.Twice.{self_order}

pub exists_where-append-left :
    {A : Type 0} (p : A → Bool) (xs ys : List A)
    → exists_where p xs ≡ true
    → exists_where p (xs ++ ys) ≡ true
exists_where-append-left p [] ys h = cc
exists_where-append-left p (x ∷ xs) ys h = ground (arith, exists_where-append-left p xs ys)

pub exists_where-append-right :
    {A : Type 0} (p : A → Bool) (xs ys : List A)
    → exists_where p ys ≡ true
    → exists_where p (xs ++ ys) ≡ true
exists_where-append-right p [] ys h = h
exists_where-append-right p (x ∷ xs) ys h = ground (arith, exists_where-append-right p xs ys h)

-- Rows that are to be exists_where-added are there afterwards, under the key of the table.
same_order-is_order :
    (exchange : Address) (id : ℕ) (o x : Order)
    → is_order exchange id o ≡ true
    → same_order o x ≡ is_order exchange id x
same_order-is_order exchange id o x h = ground arith

exists_where-same_order :
    (exchange : Address) (id : ℕ) (o : Order) (xs : List Order)
    → is_order exchange id o ≡ true
    → exists_where (same_order o) xs ≡ true
    → exists_where (is_order exchange id) xs ≡ true
exists_where-same_order exchange id o [] h e = e
exists_where-same_order exchange id o (x ∷ xs) h e =
    ground
      (arith, same_order-is_order exchange id o x h, exists_where-same_order exchange id o xs h)

exists_where-added :
    (exchange : Address) (id : ℕ) (os xs : List Order)
    → exists_where (is_order exchange id) os ≡ true
    → All (λ o. exists_where (same_order o) xs ≡ true) os
    → exists_where (is_order exchange id) xs ≡ true
exists_where-added exchange id [] xs h k = cc
exists_where-added exchange id (o ∷ os) xs h (k, ks) = elim (Bool-cases (is_order exchange id o)) [
  | inl here ↦ exists_where-same_order exchange id o xs here k
  | inr later ↦ exists_where-added exchange id os xs (rw later at h) ks
]

module _ (exchange : Address) (id : ℕ) (x : Batch) (db : Db) where
  pub has_order-apply_batch :
      exists_where (is_order exchange id) db.order ≡ true
      → exists_where (is_order exchange id) (apply_batch x db).order ≡ true
  has_order-apply_batch h = rw (apply_batch_lem x db) (
      exists_where-updates cancel_key cancel_set cancel_keeps (is_order exchange id) (λ o y. refl)
        x.cancels _
      ∙ exists_where-each same_order (is_order exchange id) x.new_orders db.order h)

  pub has_order-new_orders :
      exists_where (is_order exchange id) x.new_orders ≡ true
      → exists_where (is_order exchange id) (apply_batch x db).order ≡ true
  has_order-new_orders h = rw (apply_batch_lem x db) (
      exists_where-updates cancel_key cancel_set cancel_keeps (is_order exchange id) (λ o y. refl)
        x.cancels _
      ∙ exists_where-added exchange id x.new_orders
          (each (add_row same_order) x.new_orders db.order) h
          (All-each same_order self_order x.new_orders db.order))

module _ (exchange_list : List Address) (listed_at : ℕ → Address → Bool)
    (history : Address → List (Log NewOrderArgs)) where
  -- The order is small enough to be stored, and its token was listed when its block was read.
  abbrev pub is_stored : Log NewOrderArgs → Bool
  is_stored e = if is_oversized e.args then false else listed_at e.block_number e.args.token_address

  -- Whenever the node answers, it answers with the events of the history; it may also fail.
  pub record IsTruthful (n : Node) : Type 0 where
    pub new_order :
        (exchange : Address) (a b : ℕ) (es : List (Log NewOrderArgs))
        → events_of (n.new_order exchange a b) ≡ returned es
        → es ≡ in_range a b (history exchange)

  -- In a run that reads these blocks, the table `listing` has the tokens that are listed at them.
  abbrev pub HasListing : Node → ℕ → ℕ → Type 0
  HasListing n a b =
      (block : ℕ) (token : Address)
      → a ≤ block
      → block ≤ b
      → listed_at block token ≡ true
      → n.is_listed token ≡ true

  -- Every order that an event below the block announces is in the table.
  abbrev pub IsIndexed : ℕ → Db → Type 0
  IsIndexed below db =
      All
        (λ exchange.
          All
            (λ e.
              e.block_number < below
              → is_stored e ≡ true
              → exists_where (is_order exchange e.args.order_id) db.order ≡ true)
            (history exchange))
        exchange_list
