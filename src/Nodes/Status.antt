-- ===== src/Nodes/Status.antt =====
-- `Processor` of batch/processor_Block_Sync_Status.py. Its logging is left out.
pub mod Recorded
pub mod Rows
pub mod Turn
use ibet_wallet_api.Base.{
  ℕ, suc, ◌+◌, Bool, true, false, ◌&&◌, not, List, [], ◌∷◌, ◌++◌, Option, none, some, if◌then◌else◌,
  ltb, ◌==◌, ℤ, sub_ℕ, ltb_ℤ, first_where, update_first, Run, returned, raised, out_of_fuel, ◌>>=◌,
  ask, select, each, ◌||◌, ◌-◌,
}
use ibet_wallet_api.Nodes.Table.{Node}
use ibet_wallet_api.Nodes.Ring.{RingBuffer, new_ring, append, peek_oldest}

-- `BlockHistory`
pub record BlockHistory : Type 0 where
  pub time : ℕ
  pub block_number : ℕ

-- `NodeInfo`, with the key under which `node_info` has it.
pub record NodeInfo : Type 0 where
  pub endpoint_uri : ℕ
  pub priority : ℕ
  pub history : RingBuffer BlockHistory

-- What a call of a node does: it answers, it raises Web3WrapperException, which is what the middleware
-- makes of an exception of the request, or it raises another one. The last stands, too, for an answer
-- that the code cannot read, such as a dictionary without the block that it looks for.
pub data Call (A : Type 0) : Type 0 where
  answered : A → Call A
  wrapped_error : Call A
  another_error : Call A

-- `eth.syncing`: `False`, a dictionary with the highest and the current block, or an answer that is
-- not an instance of `dict`.
pub data Syncing : Type 0 where
  not_syncing : Syncing
  syncing_blocks : ℕ → ℕ → Syncing
  not_a_dict : Syncing

-- The calls of one node in one round, and the time of the round.
pub record Round : Type 0 where
  pub syncing : Call Syncing
  pub time : ℕ
  pub block_number : Call ℕ

-- The configuration. `theoretical old new` is the least integer that is not below
-- `((new - old) * EXPECTED_BLOCKS_PER_SEC) * (BLOCK_GENERATION_SPEED_THRESHOLD / 100)`, a product of
-- floating point numbers; an integer is below the product exactly if it is below that.
pub record Config : Type 0 where
  pub remaining_threshold : ℕ
  pub theoretical : ℕ → ℕ → ℤ

-- The table, with the primary key that the database gives to the next row.
pub record Db : Type 0 where
  pub node : List Node
  pub next_id : ℕ

-- What `process` leaves: `node_info`, the table as it was committed, and how it ended.
pub record Processed : Type 0 where
  pub infos : List NodeInfo
  pub db : Db
  pub outcome : Run (Unit {0})

abbrev pub has_uri : ℕ → Node → Bool
has_uri uri n = n.endpoint_uri == uri

abbrev pub sink_found : ℕ → ℕ → Bool → Db → Option Node → Db
sink_found uri priority is_synced db (some _) = record db {
  node = update_first (has_uri uri) (λ n. record n { is_synced = is_synced }) db.node;
}
sink_found uri priority is_synced db none = record {
  node =
      db.node
      ++ (record { id = db.next_id; endpoint_uri = uri; priority = priority; is_synced = is_synced }
          ∷ []);
  next_id = suc db.next_id;
}

-- `__sink_on_node`
unfoldable pub sink_on_node : ℕ → ℕ → Bool → Db → Db
sink_on_node uri priority is_synced db =
    sink_found uri priority is_synced db (first_where (has_uri uri) db.node)

abbrev pub and_info : NodeInfo → Processed → Processed
and_info info r = record r { infos = info ∷ r.infos }

-- One turn of the loop of `process`, with the turns that follow: the session commits after each
-- node, and when an exception leaves the loop, it has nothing to commit.
abbrev pub go_on :
    NodeInfo → List NodeInfo → Db → Run (NodeInfo × Db) → (Db → Processed) → Processed
go_on info infos db (returned (info', db')) rest = and_info info' (rest db')
go_on info infos db raised rest = record { infos = info ∷ infos; db = db; outcome = raised }
go_on info infos db out_of_fuel rest = record {
  infos = info ∷ infos;
  db = db;
  outcome = out_of_fuel;
}

module _ (config : Config) where
  -- The first check of `__process`.
  abbrev pub is_caught_up : Syncing → Bool
  is_caught_up not_syncing = true
  is_caught_up not_a_dict = true
  is_caught_up (syncing_blocks highest current) =
      not (ltb (current + config.remaining_threshold) highest)

  -- The second one.
  abbrev pub is_generating : BlockHistory → BlockHistory → Bool
  is_generating old data_ =
      not
        (ltb_ℤ (sub_ℕ data_.block_number old.block_number) (config.theoretical old.time data_.time))

  -- The end of `__process`, from the check of the block number on.
  abbrev pub check_history : NodeInfo → Syncing → BlockHistory → Db → Run (NodeInfo × Db)
  check_history info syncing data_ db = do
    old ← ask (peek_oldest info.history)
    history ← ask (append data_ info.history)
    returned (
      record info { history = history },
      sink_on_node info.endpoint_uri info.priority (is_caught_up syncing && is_generating old data_)
          db,
    )

  -- `__web3_errors`
  abbrev pub web3_errors : NodeInfo → Db → Run (NodeInfo × Db)
  web3_errors info db = returned (info, sink_on_node info.endpoint_uri info.priority false db)

  -- An exception that is not Web3WrapperException leaves `__process`, which has written nothing by
  -- then, and is not handled in `process`.
  abbrev pub process_answers : NodeInfo → ℕ → Call Syncing → Call ℕ → Db → Run (NodeInfo × Db)
  process_answers info time another_error block_number db = raised
  process_answers info time wrapped_error block_number db = web3_errors info db
  process_answers info time (answered syncing) another_error db = raised
  process_answers info time (answered syncing) wrapped_error db = web3_errors info db
  process_answers info time (answered syncing) (answered block_number) db =
      check_history info syncing (record { time = time; block_number = block_number }) db

  -- `__process`, with the handler of Web3WrapperException in `process`
  unfoldable pub process_node : NodeInfo → Round → Db → Run (NodeInfo × Db)
  process_node info round db = process_answers info round.time round.syncing round.block_number db

  -- `process`
  unfoldable pub process : (ℕ → Round) → List NodeInfo → Db → Processed
  process rounds [] db = record { infos = []; db = db; outcome = returned tt }
  process rounds (info ∷ infos) db =
      go_on info infos db (process_node info (rounds info.endpoint_uri) db) (process rounds infos)

abbrev pub is_in : ℕ → List ℕ → Bool
is_in uri [] = false
is_in uri (u ∷ us) = uri == u || is_in uri us

-- `__delete_old_node`
unfoldable pub delete_old_node : List ℕ → Db → Db
delete_old_node uris db = record db { node = select (λ n. is_in n.endpoint_uri uris) db.node }

-- What a node answers when its information is set: the number of its latest block, and blocks, `none`
-- where the call raises Web3WrapperException. Another exception ends the program, and is left out.
pub record Start : Type 0 where
  pub block_number : Option ℕ
  pub get_block : ℕ → Option BlockHistory
  pub time : ℕ

-- `self.node_info[endpoint_uri] = …`
abbrev pub set_info : NodeInfo → List NodeInfo → List NodeInfo
set_info info [] = info ∷ []
set_info info (x ∷ xs) =
    if x.endpoint_uri == info.endpoint_uri then info ∷ xs else x ∷ set_info info xs

abbrev pub first_block : ℕ → Start → Option ℕ → Option BlockHistory
first_block period start none = none
first_block period start (some latest) = start.get_block (latest - period)

abbrev pub setup_with :
    ℕ → ℕ → ℕ → ℕ → Option BlockHistory → List NodeInfo × Db → List NodeInfo × Db
setup_with period time uri priority (some data_) (infos, db) = (
  set_info (record { endpoint_uri = uri; priority = priority; history = new_ring period data_ })
      infos,
  db,
)
setup_with period time uri priority none (infos, db) = (
  set_info
      (record {
        endpoint_uri = uri;
        priority = priority;
        history = new_ring period (record { time = time; block_number = 0 });
      })
      infos,
  sink_on_node uri priority false db,
)

-- `__set_node_info`; `period` is `config.BLOCK_SYNC_STATUS_CALC_PERIOD`.
unfoldable pub set_node_info : (ℕ → Start) → ℕ → ℕ → ℕ → List NodeInfo × Db → List NodeInfo × Db
set_node_info starts period priority uri s =
    setup_with period (starts uri).time uri priority
      (first_block period (starts uri) (starts uri).block_number) s

-- `initial_setup`; the addresses are `WEB3_HTTP_PROVIDER` and `WEB3_HTTP_PROVIDER_STANDBY`.
unfoldable pub initial_setup : (ℕ → Start) → ℕ → ℕ → List ℕ → Db → List NodeInfo × Db
initial_setup starts period provider standby db =
    each (set_node_info starts period 1) standby
      (set_node_info starts period 0 provider ([], delete_old_node (provider ∷ standby) db))
