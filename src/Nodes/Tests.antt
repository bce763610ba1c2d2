-- ===== src/Nodes/Tests.antt =====
-- A primary node and a standby: requests, and a round of the monitor.
use ibet_wallet_api.Base.{
  raised, ℕ, zero, suc, ◌≡◌, refl, true, false, [], ◌∷◌, ◌++◌, List, some, pos, if◌then◌else◌, ◌==◌,
}
use ibet_wallet_api.Nodes.Table.{Node, alive_node}
use ibet_wallet_api.Nodes.Failover.{
  World, Reply, response, error, connection_error, responded, is_retried, attempts, make_request,
}
use ibet_wallet_api.Nodes.Failover.Request.{IsFailover, make_request-IsFailover}
use ibet_wallet_api.Nodes.Ring.{
  RingBuffer, new_ring, replicate, item_at, set_item, append, peek_oldest,
}
use ibet_wallet_api.Nodes.Ring.Queue.{append_all, peek_oldest-append_all}
use ibet_wallet_api.Nodes.Status.{
  BlockHistory, NodeInfo, not_syncing, syncing_blocks, answered, another_error, Round, Config, Db,
  process, process_node, Start, initial_setup, set_node_info, delete_old_node,
}

abbrev row : ℕ → ℕ → ℕ → Node
row id uri priority = record { id = id; endpoint_uri = uri; priority = priority; is_synced = true }

-- Node 100 has the better priority, and does not answer. Before the third attempt the monitor has
-- found out.
abbrev nodes : ℕ → List Node
nodes zero = row 1 200 1 ∷ row 2 100 0 ∷ []
nodes (suc zero) = row 1 200 1 ∷ row 2 100 0 ∷ []
nodes (suc (suc i)) = row 1 200 1 ∷ record (row 2 100 0) { is_synced = false } ∷ []

abbrev send : ℕ → ℕ → Reply ℕ
send i uri = if uri == 100 then error connection_error else response 7

abbrev world : World ℕ
world = record { at_start = nodes 0; nodes = nodes; send = send }

request_run : make_request is_retried world true 3 100 ≡ responded 7
unfolding make_request attempts alive_node is_retried
request_run = refl

make_request-IsFailover_example :
    IsFailover is_retried world 3 (make_request is_retried world true 3 100)
make_request-IsFailover_example = make_request-IsFailover is_retried world 3 100 (λ e. cc)

peek_oldest-append_all_example :
    (r : RingBuffer ℕ) × (append_all (5 ∷ 6 ∷ 7 ∷ []) (some (new_ring 2 4)) ≡ some r)
    × (peek_oldest r ≡ item_at 3 (replicate 2 4 ++ (5 ∷ 6 ∷ 7 ∷ [])))
peek_oldest-append_all_example = peek_oldest-append_all 1 4 (5 ∷ 6 ∷ 7 ∷ [])

abbrev config : Config
config = record { remaining_threshold = 2; theoretical = λ old new. pos 1 }

abbrev start : Start
start = record {
  block_number = some 50;
  get_block = λ k. some (record { time = k; block_number = k });
  time = 60;
}

abbrev history : RingBuffer BlockHistory
history = new_ring 5 (record { time = 45; block_number = 45 })

abbrev infos : List NodeInfo
infos =
    record { endpoint_uri = 100; priority = 0; history = history }
    ∷ record { endpoint_uri = 200; priority = 1; history = history }
    ∷ []

abbrev old_db : Db
old_db = record { node = row 1 300 0 ∷ row 2 100 0 ∷ []; next_id = 3 }

abbrev db : Db
db = record { node = row 2 100 0 ∷ []; next_id = 3 }

setup_run : initial_setup (λ uri. start) 5 100 (200 ∷ []) old_db ≡ (infos, db)
unfolding initial_setup set_node_info delete_old_node
setup_run = refl

abbrev three : List NodeInfo
three = infos ++ (record { endpoint_uri = 300; priority = 1; history = history } ∷ [])

-- The first node is ten blocks behind, the second one is at block 60, and the third one, when it is
-- asked for its latest block, gives something else.
abbrev rounds : ℕ → Round
rounds uri =
    if uri == 100
    then record {
      syncing = answered (syncing_blocks 70 60);
      time = 100;
      block_number = answered 60;
    }
    else record {
      syncing = answered not_syncing;
      time = 100;
      block_number = if uri == 200 then answered 60 else another_error;
    }

rounds_run : (process config rounds three db).outcome ≡ raised
unfolding process process_node append set_item peek_oldest item_at
rounds_run = refl
