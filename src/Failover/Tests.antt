-- ===== src/Failover/Tests.antt =====
-- The failure of a node that is the primary of two partitions.
use rockskv.Prelude.{◌==◌, if◌then◌else◌, ◌≡◌, refl, true, false, ◌&&◌, ◌||◌, some, [], ◌∷◌, ◌++◌}
use rockskv.Prelude.Dict.{lookup}
use rockskv.Bytes.{ascii, bytes_eq}
use rockskv.Routes.{
  stored_table, copy_routing, Router, NodeStatus, PartitionStatus, NodeInfo, PartitionInfo,
  RouteTable, running, migration_none,
}
use rockskv.Routes.Change.{swapped}
use rockskv.Routes.Nodes.{find_node}
use rockskv.Failover.{FailoverManager, set_offline, affected_primaries, handle_node_failure}
use rockskv.Failover.Promotions.{is_in, handle_node_failure-last}

abbrev node_a : NodeInfo
node_a = record { id = ascii "s1"; addr = ascii "a"; status = NodeStatus.online }

abbrev on_a : PartitionInfo
on_a = record {
  id = 1;
  primary = ascii "a";
  replica = ascii "b";
  status = PartitionStatus.normal;
  migration_target = [];
  migration_state = migration_none;
  epoch = 3;
}

abbrev table : RouteTable
table = record { version = 9; partitions = (1, on_a) ∷ (2, record on_a { id = 2 }) ∷ [] }

abbrev router : Router
router = record {
  route_table = table;
  hash_ring = record { virtual_nodes = 150; ring = []; node_map = []; nodes = [] };
  store = record {
    cluster_state = running;
    storage_nodes = node_a ∷ [];
    other_nodes = [];
    route_table = some table;
    migrations = [];
  };
}

abbrev manager : FailoverManager
manager = record { heartbeat_timeout = 10; node_health = []; scheduled_rebalances = 0 }

failed_node :
    find_node (ascii "s1") (set_offline (ascii "s1") router.store.storage_nodes)
    ≡ some (record node_a { status = NodeStatus.offline })
unfolding find_node set_offline bytes_eq
failed_node = refl

both : affected_primaries (ascii "a") router.route_table.partitions ≡ (1 ∷ []) ++ (2 ∷ [])
unfolding affected_primaries bytes_eq
both = refl

knows_1 : lookup 1 router.route_table.partitions ≡ some on_a
unfolding lookup
knows_1 = refl

handle_node_failure-last_example :
    let after =
      (handle_node_failure true true (λ _. true) (λ _. false) (ascii "s1") (manager, router)).1 in
    lookup 1 (stored_table after.store).partitions
    ≡ some (if (2 == 1) || (is_in 1 (1 ∷ []) && false) then swapped on_a else copy_routing on_a)
handle_node_failure-last_example =
    handle_node_failure-last (λ _. false) (ascii "s1") manager router
      (record node_a { status = NodeStatus.offline }) (1 ∷ []) 2 failed_node both (refl, (refl, tt))
      1 on_a knows_1
