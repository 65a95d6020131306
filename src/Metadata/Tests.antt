-- ===== src/Metadata/Tests.antt =====
-- The metadata server at concrete inputs.
use rockskv.Prelude.{take, ℕ, ◌≡◌, refl, ◌↔◌, true, false, none, some, [], ◌∷◌, ◌++◌, arith}
use rockskv.Bytes.{ascii, bytes_eq}
use rockskv.Routes.Nodes.{NodeRole, get_node, online_node, register_node_info}
use rockskv.Routes.{
  stored_table, Router, storage_nodes, NodeStatus, NodeInfo, RouteTable, new_route_table, pending,
}
use rockskv.Routes.Init.{allocated_table}
use rockskv.Metadata.{channel_size, MetadataServer, waiting, register_node}
use rockskv.Metadata.Subscribers.{deliver_all, waiting-deliver_all}
use rockskv.Metadata.Registered.{will_allocate, register_node_lem}
use rockskv.Metadata.Leader.{
  HaServer, new_ha_server, become_leader, on_leadership_change, check_leader_for_write, LeaderStep,
  LeaderSteps, check_leader_for_write_lem, won, here, next,
}

abbrev node_a : NodeInfo
node_a = record { id = ascii "s1"; addr = ascii "a"; status = NodeStatus.online }

abbrev router : Router
router = record {
  route_table = new_route_table;
  hash_ring = record { virtual_nodes = 150; ring = []; node_map = []; nodes = [] };
  store = record {
    cluster_state = pending;
    storage_nodes = node_a ∷ [];
    other_nodes = [];
    route_table = none;
    migrations = [];
  };
}

abbrev table : ℕ → RouteTable
table v = record { version = v; partitions = [] }

abbrev server : MetadataServer
server = record { router = router; subscribers = (ascii "s1", table 1 ∷ []) ∷ [] }

waiting_1 : waiting (ascii "s1") server.subscribers ≡ some (table 1 ∷ [])
unfolding waiting bytes_eq
waiting_1 = refl

waiting-deliver_all_example :
    let after = deliver_all (table 2 ∷ table 3 ∷ []) server in
    (waiting (ascii "s1") after.subscribers
      ≡ some (take channel_size ((table 1 ∷ []) ++ (table 2 ∷ table 3 ∷ []))))
    × (after.router.route_table ≡ table 3)
waiting-deliver_all_example =
    waiting-deliver_all (ascii "s1") (table 2 ∷ table 3 ∷ []) server (table 1 ∷ []) waiting_1
      (omega arith)

register_node_lem_example :
    let after = (register_node true true true NodeRole.storage (ascii "s2") (ascii "b") router).0 in
    let store = register_node_info NodeRole.storage (ascii "s2") (ascii "b") router.store in
    let allocates = will_allocate true true (record router { store = store }) in
    (get_node (ascii "s2") after.store ≡ some (online_node (ascii "s2") (ascii "b")))
    × (after.store.cluster_state ≡ pending)
    × (allocates ≡ true
        → (after.route_table.partitions ≡ (allocated_table (storage_nodes store)).partitions)
          × (stored_table after.store ≡ after.route_table))
    × (allocates ≡ false
        → (after.route_table ≡ router.route_table)
          × (after.store.route_table ≡ router.store.route_table))
register_node_lem_example = register_node_lem true true (ascii "s2") (ascii "b") router

-- the leadership is won, and the callback has run
abbrev leader : HaServer
leader =
    on_leadership_change true
      (record (become_leader (new_ha_server (ascii "m1") true)) { pending = [] })

leader_steps : LeaderSteps (new_ha_server (ascii "m1") true) leader
unfolding new_ha_server become_leader
leader_steps =
    next (next here (won (new_ha_server (ascii "m1") true)))
      (LeaderStep.told (become_leader (new_ha_server (ascii "m1") true)) true [] refl)

leader_idle : leader.pending ≡ []
unfolding on_leadership_change
leader_idle = refl

check_leader_for_write_lem_example :
    (check_leader_for_write leader ≡ none) ↔ (leader.elected ≡ true)
check_leader_for_write_lem_example =
    check_leader_for_write_lem (ascii "m1") leader leader_steps leader_idle
