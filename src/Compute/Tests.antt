-- ===== src/Compute/Tests.antt =====
-- A compute node with one partition's routes, whatever the key.
use rockskv.Compute.Pool.{ConnectionPool, new_connection_pool, find_conn, make_conn, get_conn}
use rockskv.Compute.Pool.Accounted.{IsAccounted}
use rockskv.Compute.Pool.Leaks.{PoolStep, PoolSteps, get_conn-IsAccounted}
use rockskv.Compute.Handlers.{Cluster, send_write, do_put, at_primary, put, get}
use rockskv.Compute.{
  Router, calculate_partition, get_partition_nodes_by_id, get_partition_nodes,
  update_route_table_from_update, finish_refresh, refresh_route_table,
}
use rockskv.Prelude.{
  if◌then◌else◌, length, ℕ, ◌≤◌, ◌<◌, ◌≡◌, refl, ◌⊎◌, true, false, none, some, [], ◌∷◌, arith,
}
use rockskv.Prelude.Dict.{lookup}
use rockskv.Bytes.{Bytes, ascii, bytes_eq}
use rockskv.Routes.Init.{total_partitions}
use rockskv.Rocks.LogDb.{Writes, log_db, log_db-IsStore}
use rockskv.Routes.{PartitionStatus, PartitionInfo, RouteTable, migration_none}
use rockskv.Metadata.{send_route_update, get_route_table}
use rockskv.Partitions.{Partition, validate_epoch, has_partition, is_primary}
use rockskv.Replication.{Tick}
use rockskv.Server.{Server, can_write, check_write, write_data, handle_write}
use rockskv.Compute.Reads.{all_answered, get-put_routed}
use rockskv.Compute.Follow.{
  IsKeyed, Follows, refresh_route_table-get_route_table, finish_refresh_stale,
}

abbrev pub on_a : PartitionInfo
on_a = record {
  id = 7;
  primary = ascii "a";
  replica = ascii "b";
  status = PartitionStatus.normal;
  migration_target = [];
  migration_state = migration_none;
  epoch = 0;
}

abbrev pub old_table : RouteTable
old_table = record { version = 2; partitions = (7, on_a) ∷ [] }

abbrev new_table : RouteTable
new_table = record { version = 3; partitions = (7, record on_a { primary = ascii "b" }) ∷ [] }

abbrev pub router : Router
router = record { route_table = old_table }

abbrev empty_router : Router
empty_router = record { route_table = record { version = 0; partitions = [] } }

-- a hash in place of the library's
abbrev pub sum64 : Bytes → ℕ
sum64 key = 7

abbrev pub primary_7 : Partition
primary_7 = record { id = 7; status = PartitionStatus.normal; is_prime = true; epoch = 0 }

abbrev pub node_a : Server Writes
node_a = record {
  db = [];
  partition_manager = record { node_id = ascii "a"; partitions = (7, primary_7) ∷ [] };
  node_lease = 5;
  node_lease_lost = false;
  replicators = [];
  log_dirs = [];
}

abbrev pub cluster : Cluster Writes
cluster addr = if bytes_eq addr (ascii "a") then some node_a else none

abbrev pub ticks : Bytes → ℕ → Tick
ticks addr n = record { now = 10; file_time = 10 }

accepted_put :
    (put log_db sum64 (all_answered ticks) (ascii "k") (ascii "v") router cluster).1 ≡ true
unfolding put calculate_partition total_partitions bytes_eq lookup get_partition_nodes
    get_partition_nodes_by_id at_primary do_put send_write handle_write check_write can_write
    has_partition is_primary validate_epoch write_data
accepted_put = refl

get-put_routed_example :
    get log_db sum64
      (all_answered ticks)
      (ascii "k")
      router
      (put log_db sum64 (all_answered ticks) (ascii "k") (ascii "v") router cluster).0
    ≡ (if bytes_eq (ascii "k") (ascii "k")
        then some (some (ascii "v"))
        else get log_db sum64 (all_answered ticks) (ascii "k") router cluster)
get-put_routed_example =
    get-put_routed log_db log_db-IsStore sum64 (all_answered ticks) ticks router (ascii "k")
      (ascii "v") (ascii "k") cluster accepted_put

old_table-IsKeyed : IsKeyed old_table.partitions
unfolding lookup
old_table-IsKeyed = (refl, (refl, tt))

refresh_route_table-get_route_table_example :
    let after = refresh_route_table (λ v. some (get_route_table v old_table)) empty_router in
    ((0 < 2) × (0 < length old_table.partitions) → Follows after old_table)
    × (((2 ≤ 0) ⊎ (length old_table.partitions ≡ 0)) → after ≡ empty_router)
refresh_route_table-get_route_table_example =
    refresh_route_table-get_route_table old_table empty_router old_table-IsKeyed

finish_refresh_stale_example :
    let answer = get_route_table 0 old_table in
    let updated = update_route_table_from_update (send_route_update new_table) empty_router in
    (updated.route_table.version ≡ 3) × Follows (finish_refresh (some answer) updated) old_table
finish_refresh_stale_example =
    finish_refresh_stale old_table new_table empty_router old_table-IsKeyed (omega arith)
      (omega arith) (omega arith)

-- Two requests for one node, both of which have found no connection.
abbrev dialed_once : ConnectionPool
dialed_once = (make_conn true (ascii "a") new_connection_pool).0

abbrev reused : ConnectionPool
reused = (make_conn true (ascii "a") dialed_once).0

two_requests : PoolSteps (new_connection_pool, []) (reused, [])
two_requests =
    PoolSteps.next
      (PoolSteps.next PoolSteps.here (PoolStep.made new_connection_pool [] true (ascii "a")))
      (PoolStep.made dialed_once [] true (ascii "a"))

get_conn-IsAccounted_example :
    let (after, conn) = get_conn true (ascii "a") reused in
    IsAccounted reused
    × IsAccounted after
    × ((k : ℕ) × (conn ≡ some k) × (find_conn (ascii "a") after.conns ≡ some k))
get_conn-IsAccounted_example = get_conn-IsAccounted reused [] (ascii "a") two_requests
