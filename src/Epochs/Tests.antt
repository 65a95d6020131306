-- ===== src/Epochs/Tests.antt =====
-- A node that is the primary of a partition in epoch 3, and a compute node with routes of epoch 9.
use rockskv.Compute.{new_router, get_partition_nodes_by_id, update_route_table_from_update}
use rockskv.Prelude.{ℕ, ◌≡◌, refl, ◌≢◌, ◌↔◌, true, false, some, List, [], ◌∷◌}
use rockskv.Prelude.Dict.{lookup, insert}
use rockskv.Bytes.{ascii}
use rockskv.Rocks.LogDb.{Writes, log_db}
use rockskv.Routes.{PartitionStatus, PartitionInfo, RouteTable, migration_none}
use rockskv.Metadata.{send_route_update}
use rockskv.Partitions.{is_primary}
use rockskv.Replication.{Tick}
use rockskv.Server.{
  Server, WriteRequest, can_write, write_data, handle_write, epoch_fenced, put_request,
}
use rockskv.Epochs.{
  RouterEvent, take_events, NodeEvent, node_events, updated, refresh_failed, routed, leased,
}
use rockskv.Epochs.Unfenced.{handle_write-never_fenced}

abbrev on_a : PartitionInfo
on_a = record {
  id = 7;
  primary = ascii "a";
  replica = ascii "b";
  status = PartitionStatus.normal;
  migration_target = [];
  migration_state = migration_none;
  epoch = 3;
}

abbrev early : RouteTable
early = record { version = 2; partitions = (7, on_a) ∷ [] }

abbrev late : RouteTable
late = record { version = 8; partitions = (7, record on_a { epoch = 9 }) ∷ [] }

abbrev empty_node : Server Writes
empty_node = record {
  db = [];
  partition_manager = record { node_id = ascii "s1"; partitions = [] };
  node_lease = 5;
  node_lease_lost = false;
  replicators = [];
  log_dirs = [];
}

abbrev node_history : List NodeEvent
node_history = routed (λ _. true) 1 early ∷ leased (some 6) ∷ []

abbrev router_history : List RouterEvent
router_history = updated late ∷ refresh_failed ∷ []

abbrev ticks : ℕ → Tick
ticks n = record { now = 10; file_time = 10 }

abbrev put_k : WriteRequest
put_k = record { partition_id = 7; epoch = 0; kind = put_request (ascii "k") (ascii "v") }

routed_7 :
    get_partition_nodes_by_id 7 (take_events router_history new_router)
    ≡ some (ascii "a", (ascii "b", 0))
unfolding get_partition_nodes_by_id take_events new_router update_route_table_from_update
    send_route_update lookup insert
routed_7 = refl

handle_write-never_fenced_example :
    let s = node_events log_db (ascii "a") node_history empty_node in
    let done = write_data log_db true 7 put_k.kind s.partition_manager s.db in
    let response = (handle_write log_db true ticks put_k s).1 in
    (response.error ≢ epoch_fenced)
    × ((response.success ≡ true)
        ↔ ((can_write s ≡ true) × ((is_primary 7 s.partition_manager ≡ true) × (done.1 ≡ true))))
handle_write-never_fenced_example =
    handle_write-never_fenced log_db (ascii "a") node_history router_history empty_node true ticks
      put_k (ascii "a") (ascii "b") refl routed_7
