-- ===== src/Nodes/Status/Turn.antt =====
-- `__process` of batch/processor_Block_Sync_Status.py: what one node's calls show.
use ibet_wallet_api.Base.{
  ℕ, ◌≡◌, refl, sym, ◌∙◌, Bool, true, false, ◌&&◌, List, some, some_inj, ◌⊎◌, ◌↔◌, ◌≤◌, ◌+◌, ◌≤ℤ◌,
  sub_ℕ, raised, Run, returned, inl, inr, arith,
}
use mathlib.Core.Path.{subst}
use ibet_wallet_api.Nodes.Ring.{peek_oldest}
use ibet_wallet_api.Nodes.Ring.Queue.{IsQueue, append-IsShift, Shifted}
use ibet_wallet_api.Nodes.Status.{
  BlockHistory, NodeInfo, Call, answered, wrapped_error, another_error, Syncing, not_syncing,
  syncing_blocks, not_a_dict, Round, Config, Db, sink_on_node, is_caught_up, is_generating,
  process_answers, process_node,
}

-- A node and what a round makes of its information.
abbrev pub NewInfo : NodeInfo → NodeInfo → ℕ → Call Syncing → Call ℕ → Type 0
NewInfo info info' time another_error block_number = ⊥
NewInfo info info' time (answered syncing) another_error = ⊥
NewInfo info info' time wrapped_error block_number = info' ≡ info
NewInfo info info' time (answered syncing) wrapped_error = info' ≡ info
NewInfo info info' time (answered syncing) (answered block_number) =
    (oldest : BlockHistory) × (rest : List BlockHistory) × IsQueue info.history oldest rest
    × Shifted info'.history (record { time = time; block_number = block_number }) rest
    × (info' ≡ record info { history = info'.history })

-- The history of a node holds a queue.
abbrev pub IsValid : NodeInfo → Type 0
IsValid info =
    (oldest : BlockHistory) × (rest : List BlockHistory) × IsQueue info.history oldest rest

-- A call raises an exception that is not Web3WrapperException; the second call is made if the first
-- one answers.
abbrev pub Breaks : Round → Type 0
Breaks round =
    (round.syncing ≡ another_error)
    ⊎ ((s : Syncing) × (round.syncing ≡ answered s) × (round.block_number ≡ another_error))

module _ (config : Config) where
  -- The node says that it is not syncing, or is not too many blocks behind.
  abbrev pub IsNear : Syncing → Type 0
  IsNear not_syncing = Unit
  IsNear not_a_dict = Unit
  IsNear (syncing_blocks highest current) = highest ≤ current + config.remaining_threshold

  -- The node answers both calls, is near, and since the oldest entry of its history the number of its
  -- latest block has grown by the theoretical count of blocks at least.
  pub record IsSynced (info : NodeInfo) (round : Round) : Type 0 where
    pub syncing : Syncing
    pub block_number : ℕ
    pub oldest : BlockHistory
    pub syncing_answered : round.syncing ≡ answered syncing
    pub block_number_answered : round.block_number ≡ answered block_number
    pub is_oldest : peek_oldest info.history ≡ some oldest
    pub is_near : IsNear syncing
    pub has_grown :
        config.theoretical oldest.time round.time ≤ℤ sub_ℕ block_number oldest.block_number

  abbrev pub Verdict : NodeInfo → Round → Bool → Type 0
  Verdict info round b = (b ≡ true) ↔ IsSynced info round

  caught_up_iff : (s : Syncing) → (is_caught_up config s ≡ true) ↔ IsNear s
  caught_up_iff not_syncing = (λ h. tt, λ h. refl)
  caught_up_iff not_a_dict = (λ h. tt, λ h. refl)
  caught_up_iff (syncing_blocks highest current) = (λ h. ground (arith, h), λ h. ground (arith, h))

  generating_iff :
      (old data_ : BlockHistory)
      → (is_generating config old data_ ≡ true)
        ↔ (config.theoretical old.time data_.time ≤ℤ sub_ℕ data_.block_number old.block_number)
  generating_iff old data_ = (λ h. ground (arith, h), λ h. ground (arith, h))

  both_true : (a b : Bool) → a ≡ true → b ≡ true → (a && b) ≡ true
  both_true a b h k = rw (h, k) refl

  left_true : (a b : Bool) → (a && b) ≡ true → a ≡ true
  left_true a b h = ground (arith, h)

  right_true : (a b : Bool) → (a && b) ≡ true → b ≡ true
  right_true a b h = ground (arith, h)

  answered_inj : {A : Type 0} {a b : A} → answered a ≡ answered b → a ≡ b
  answered_inj h = cc h

  answers_Verdict :
      (info : NodeInfo) (round : Round) (syncing : Syncing) (block_number : ℕ) (old : BlockHistory)
      → round.syncing ≡ answered syncing
      → round.block_number ≡ answered block_number
      → peek_oldest info.history ≡ some old
      → Verdict info round (
          is_caught_up config syncing
          && is_generating config old (record { time = round.time; block_number = block_number }))
  answers_Verdict info round syncing block_number old s n o =
      let data_ : BlockHistory = record { time = round.time; block_number = block_number } in
      let a = is_caught_up config syncing in
      let b = is_generating config old data_ in
      (
        λ h. record {
          syncing = syncing;
          block_number = block_number;
          oldest = old;
          syncing_answered = s;
          block_number_answered = n;
          is_oldest = o;
          is_near = (caught_up_iff syncing).0 (left_true a b h);
          has_grown = (generating_iff old data_).0 (right_true a b h);
        },
        λ k.
            both_true a b
              ((caught_up_iff syncing).1
                (subst IsNear (answered_inj (sym k.syncing_answered ∙ s)) k.is_near))
              ((generating_iff old data_).1 (grown k)),
      )
    where
      grown :
          (k : IsSynced info round)
          → config.theoretical old.time round.time ≤ℤ sub_ℕ block_number old.block_number
      grown k =
          subst (λ i. config.theoretical old.time round.time ≤ℤ sub_ℕ i old.block_number)
            (answered_inj (sym k.block_number_answered ∙ n))
            (subst
              (λ (x : BlockHistory).
                config.theoretical x.time round.time ≤ℤ sub_ℕ k.block_number x.block_number)
              (some_inj (sym k.is_oldest ∙ o)) k.has_grown)

  -- A node whose call raises Web3WrapperException is not synchronized.
  error_Verdict :
      (info : NodeInfo) (round : Round)
      → ((round.syncing ≡ wrapped_error) ⊎ (round.block_number ≡ wrapped_error))
      → Verdict info round false
  error_Verdict info round (inl e) = (λ h. cc h, λ k. cc (e, k.syncing_answered))
  error_Verdict info round (inr e) = (λ h. cc h, λ k. cc (e, k.block_number_answered))

  -- The node is given up, or its row is written and its information brought up to date.
  abbrev pub Turned : NodeInfo → Round → Db → Run (NodeInfo × Db) → Type 0
  Turned info round db r =
      ((r ≡ raised) × Breaks round)
      ⊎ ((info' : NodeInfo) × (b : Bool) × (r
            ≡ returned (info', sink_on_node info.endpoint_uri info.priority b db))
          × NewInfo info info' round.time round.syncing round.block_number
          × Verdict info round b)

  pub process_node-Turned :
      (info : NodeInfo) (round : Round) (db : Db)
      → IsValid info
      → Turned info round db (process_node config info round db)
  unfolding process_node
  process_node-Turned info round db h = by_answers round.syncing round.block_number
    where
      by_answers :
          (syncing : Call Syncing) (block_number : Call ℕ)
          → Turned info
              (record { syncing = syncing; time = round.time; block_number = block_number })
              db
              (process_answers config info round.time syncing block_number db)
      by_answers another_error n = inl (refl, inl refl)
      by_answers wrapped_error n = inr (info, false, refl, refl, error_Verdict info _ (inl refl))
      by_answers (answered s) another_error = inl (refl, inr (s, refl, refl))
      by_answers (answered s) wrapped_error =
          inr (info, false, refl, refl, error_Verdict info _ (inr refl))
      by_answers (answered s) (answered n) =
          let data_ : BlockHistory = record { time = round.time; block_number = n } in
          let a = append-IsShift info.history h.0 h.1 data_ h.2 in
          inr (
            record info { history = a.1.0 },
            is_caught_up config s && is_generating config h.0 data_,
            rw (a.0, a.1.1) refl,
            (h.0, h.1, h.2, a.1.2, refl),
            answers_Verdict info _ s n h.0 refl refl a.0,
          )
