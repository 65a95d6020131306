-- ===== src/Shutdown/Tests.antt =====
-- The controlled shutdown of a node that is the primary of two partitions.
use rockskv.Shutdown.Idle.{HasOther, IsIdle, every_call}
use rockskv.Failover.Promotions.{is_in}
use rockskv.Prelude.{
  ◌==◌, if◌then◌else◌, length, All, ◌%◌, ◌^◌, ◌≤◌, ◌≡◌, refl, false, ◌&&◌, ◌||◌, none, some, [],
  ◌∷◌, ◌++◌, arith,
}
use rockskv.Prelude.Dict.{lookup}
use rockskv.Bytes.{ascii, bytes_eq}
use rockskv.Routes.Nodes.{get_node}
use rockskv.Routes.{
  stored_table, copy_routing, Router, storage_nodes, NodeStatus, PartitionStatus, NodeInfo,
  PartitionInfo, RouteTable, running, migration_none,
}
use rockskv.Routes.Change.{swapped}
use rockskv.Failover.{affected_primaries}
use rockskv.Scheduler.{new_migration_scheduler}
use rockskv.Shutdown.{
  replica_partitions, target_nodes, has_other_replica, set_node_status, shutdown_node, processed,
  watched,
}
use rockskv.Shutdown.Removed.{shutdown_node-removed}

abbrev node_a : NodeInfo
node_a = record { id = ascii "s1"; addr = ascii "a"; status = NodeStatus.online }

abbrev node_b : NodeInfo
node_b = record { id = ascii "s2"; addr = ascii "b"; status = NodeStatus.online }

abbrev on_a : PartitionInfo
on_a = record {
  id = 1;
  primary = ascii "a";
  replica = ascii "b";
  status = PartitionStatus.normal;
  migration_target = [];
  migration_state = migration_none;
  epoch = 3;
}

abbrev table : RouteTable
table = record { version = 9; partitions = (1, on_a) ∷ (2, record on_a { id = 2 }) ∷ [] }

abbrev router : Router
router = record {
  route_table = table;
  hash_ring = record { virtual_nodes = 150; ring = []; node_map = []; nodes = [] };
  store = record {
    cluster_state = running;
    storage_nodes = node_a ∷ node_b ∷ [];
    other_nodes = [];
    route_table = some table;
    migrations = [];
  };
}

registered_a : get_node (ascii "s1") router.store ≡ some node_a
unfolding get_node bytes_eq
registered_a = refl

one_target :
    1
    ≤ length (
        target_nodes
          (ascii "s1")
          (storage_nodes (set_node_status (ascii "s1") NodeStatus.draining router).store))
unfolding target_nodes storage_nodes set_node_status bytes_eq
one_target = omega arith

new_scheduler-IsIdle : IsIdle new_migration_scheduler
unfolding new_migration_scheduler
new_scheduler-IsIdle = (refl, refl)

both_primaries : affected_primaries (ascii "a") router.route_table.partitions ≡ (1 ∷ []) ++ (2 ∷ [])
unfolding affected_primaries bytes_eq
both_primaries = refl

both_others : All (HasOther (ascii "a") router.route_table.partitions) ((1 ∷ []) ++ (2 ∷ []))
unfolding lookup has_other_replica bytes_eq
both_others = ((on_a, refl, refl), ((record on_a { id = 2 }, refl, refl), tt))

no_replicas : replica_partitions (ascii "a") router.route_table.partitions ≡ []
unfolding replica_partitions bytes_eq
no_replicas = refl

knows_1 : lookup 1 router.route_table.partitions ≡ some on_a
unfolding lookup
knows_1 = refl

shutdown_node-removed_example :
    let ((after, left), result) =
      shutdown_node
        (every_call (λ _. false))
        (processed ∷ watched ∷ [])
        (ascii "s1")
        false
        router
        (some new_migration_scheduler) in
    (result.error ≡ none)
    × (result.migrated ≡ new_migration_scheduler.total_migrated % 2 ^ 32)
    × (get_node (ascii "s1") after.store ≡ some (record node_a { status = NodeStatus.removed }))
    × (lookup 1 (stored_table after.store).partitions
        ≡ some
            (if (2 == 1) || (is_in 1 (1 ∷ []) && false) then swapped on_a else copy_routing on_a))
shutdown_node-removed_example =
    shutdown_node-removed (λ _. false) (processed ∷ watched ∷ []) (ascii "s1") router
      new_migration_scheduler node_a (1 ∷ []) 2 registered_a one_target new_scheduler-IsIdle
      both_primaries (refl, (refl, tt)) both_others no_replicas 1 on_a knows_1
