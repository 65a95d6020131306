-- ===== src/Routes/Tests.antt =====
-- The route table and its router at concrete inputs.
use rockskv.Prelude.{
  ltb, if◌then◌else◌, length, ℕ, ◌≤◌, ◌≡◌, refl, ◌⊎◌, true, none, some, [], ◌∷◌, arith,
}
use rockskv.Bytes.{ascii}
use rockskv.Ring.{new_consistent_hash}
use rockskv.Routes.{
  stored_table, Router, new_ring, storage_nodes, NodeStatus, PartitionStatus, NodeInfo,
  PartitionInfo, RouteTable, new_route_table, pending, running, migration_none,
}
use rockskv.Routes.Change.{run, promote}
use rockskv.Routes.Fencing.{IsFenced, EpochsFit, run-IsFenced}
use rockskv.Routes.Init.{allocated, InitCalls, all_online, init_cluster, init_cluster_ok}
use rockskv.Prelude.Dict.{lookup}

abbrev at_a : PartitionInfo
at_a = record {
  id = 0;
  primary = ascii "a";
  replica = ascii "b";
  status = PartitionStatus.normal;
  migration_target = [];
  migration_state = migration_none;
  epoch = 1;
}

abbrev at_b : PartitionInfo
at_b = record at_a { id = 1; epoch = 4 }

abbrev two_partitions : RouteTable
two_partitions = record { version = 2; partitions = (0, at_a) ∷ (1, at_b) ∷ [] }

abbrev node_a : NodeInfo
node_a = record { id = ascii "1"; addr = ascii "a"; status = NodeStatus.online }

abbrev node_b : NodeInfo
node_b = record { id = ascii "2"; addr = ascii "b"; status = NodeStatus.online }

abbrev running_router : Router
running_router = record {
  route_table = two_partitions;
  hash_ring = new_consistent_hash 150;
  store = record {
    cluster_state = running;
    storage_nodes = node_a ∷ node_b ∷ [];
    other_nodes = [];
    route_table = some two_partitions;
    migrations = [];
  };
}

abbrev pending_router : Router
pending_router = record {
  route_table = new_route_table;
  hash_ring = new_consistent_hash 150;
  store = record {
    cluster_state = pending;
    storage_nodes = node_a ∷ node_b ∷ [];
    other_nodes = [];
    route_table = none;
    migrations = [];
  };
}

found_a : lookup 0 running_router.route_table.partitions ≡ some at_a
unfolding lookup
found_a = refl

found_b : lookup 1 running_router.route_table.partitions ≡ some at_b
unfolding lookup
found_b = refl

running_router-EpochsFit : EpochsFit running_router.route_table.partitions
unfolding lookup
running_router-EpochsFit k p e = ground arith

run-IsFenced_example :
    let after = (run true (promote 1) running_router).0 in
    (after.store.route_table ≡ some two_partitions)
    ⊎ IsFenced two_partitions.partitions (stored_table after.store).partitions
run-IsFenced_example = run-IsFenced true (promote 1) running_router running_router-EpochsFit

abbrev all_succeed : InitCalls
all_succeed = record {
  info_read = true;
  nodes_listed = true;
  initializing_set = true;
  table_saved = true;
  rolled_back = true;
  running_set = true;
}

pending_router-initialized : (init_cluster all_succeed pending_router).1 ≡ none
unfolding init_cluster
pending_router-initialized = refl

init_cluster_ok_example :
    let after = (init_cluster all_succeed pending_router).0 in
    let nodes = storage_nodes pending_router.store in
    (pending_router.store.cluster_state ≡ pending)
    × (2 ≤ length nodes)
    × (all_online nodes ≡ true)
    × (after.store.cluster_state ≡ running)
    × (stored_table after.store ≡ after.route_table)
    × ((j : ℕ)
        → lookup j after.route_table.partitions
          ≡ (if ltb j 4096 then some (allocated (new_ring nodes) j) else none))
init_cluster_ok_example = init_cluster_ok all_succeed pending_router pending_router-initialized
