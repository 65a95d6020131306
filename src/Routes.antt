-- ===== src/Routes.antt =====
-- The route table and the metadata router: the types of pkg/metadata/store.go, `UpdateRouteTable`
-- and the cluster state of pkg/metadata/etcd.go, and the methods of pkg/metadata/router.go that
-- change the table. etcd is what it holds; whether a call of it succeeds is an argument of type
-- `Bool` of the method. Time stamps and logging are left out.
mod Types
pub mod Nodes
pub mod Change
pub mod Fencing
pub mod Lost
pub mod Init
pub mod Tests
unfoldable pub use Types.*
use rockskv.Prelude.{
  ltb, if◌then◌else◌, length, ℕ, ◌+◌, ◌%◌, ◌^◌, Bool, true, false, not, Option, none, some, List,
  [], ◌∷◌,
}
use rockskv.Prelude.Dict.{Dict, lookup, delete, insert, map_values, modify}
use rockskv.Bytes.{Bytes, bytes_eq}
use rockskv.Ring.{default_virtual_nodes, ConsistentHash, new_consistent_hash, add_node, get_nodes}

abbrev pub min_replica_nodes : ℕ
min_replica_nodes = 2

-- `GetRouteTable` of the store: a new table where nothing is stored
unfoldable pub stored_table : Etcd → RouteTable
stored_table s = elim s.route_table [ none ↦ new_route_table | some t ↦ t ]

-- `UpdateRouteTable` of the store, under the distributed lock: the version follows the stored one,
-- the contents are the caller's
unfoldable pub update_route_table : RouteTable → Etcd → Etcd
unfolding stored_table
update_route_table t s = record s {
  route_table = some (record t { version = ((stored_table s).version + 1) % 2 ^ 64 });
}

-- the copy that most methods make of an entry, without the migration fields
unfoldable pub copy_routing : PartitionInfo → PartitionInfo
copy_routing p = record p { migration_target = []; migration_state = migration_none }

-- the next fencing token
unfoldable pub next_epoch : ℕ → ℕ
next_epoch e = (e + 1) % 2 ^ 64

-- `r.routeTable` and `r.hashRing`, with the store behind the router
pub record Router : Type 0 where
  pub route_table : RouteTable
  pub hash_ring : ConsistentHash
  pub store : Etcd

pub data RouteError : Type 0 where
  partition_not_found store_failed not_pending too_few_nodes node_not_online : RouteError

abbrev pub Reply : Type 0
Reply = Router × Option RouteError

-- saving a table: the cache is left to the watch
unfoldable pub save : Bool → RouteTable → Router → Reply
unfolding update_route_table
save reachable t r =
    if reachable
    then (record r { store = update_route_table t r.store }, none)
    else (r, some store_failed)

-- the watch delivers what the store holds
unfoldable pub watch : Router → Router
unfolding stored_table
watch r = record r { route_table = stored_table r.store }

-- what the goroutine of the watch may do between two calls of the router, whose lock is free then
unfoldable pub deliver_if : Bool → Router → Router
unfolding watch
deliver_if delivered r = if delivered then watch r else r

unfoldable pub get_partition_nodes : ℕ → Router → Option (Bytes × Bytes)
get_partition_nodes id r = elim (lookup id r.route_table.partitions) [
  | none ↦ none
  | some p ↦ some (p.primary, p.replica)
]

-- `PromoteReplica`'s new table
unfoldable pub promoted : ℕ → RouteTable → RouteTable
unfolding copy_routing next_epoch
promoted id t = record t {
  partitions =
      modify id
        (λ p. record p { primary = p.replica; replica = p.primary; epoch = next_epoch p.epoch })
        (map_values (λ k p. copy_routing p) t.partitions);
}

unfoldable pub promote_replica : Bool → ℕ → Router → Reply
unfolding promoted save
promote_replica reachable id r = elim (lookup id r.route_table.partitions) [
  | none ↦ (r, some partition_not_found)
  | some p ↦ save reachable (promoted id r.route_table) r
]

-- `SetPartitionStatus` copies the migration fields too
unfoldable pub set_partition_status : Bool → ℕ → PartitionStatus → Router → Reply
unfolding save
set_partition_status reachable id status r = elim (lookup id r.route_table.partitions) [
  | none ↦ (r, some partition_not_found)
  | some p ↦
      save reachable
        (record (r.route_table) {
          partitions = modify id (λ q. record q { status = status }) r.route_table.partitions;
        })
        r
]

unfoldable pub move_primary : Bytes → PartitionInfo → PartitionInfo
unfolding next_epoch
move_primary node p = record p {
  primary = node;
  replica = if bytes_eq p.primary node then p.replica else p.primary;
  epoch = next_epoch p.epoch;
  status = PartitionStatus.normal;
}

unfoldable pub move_replica : Bytes → PartitionInfo → PartitionInfo
move_replica node p = record p { replica = node; status = PartitionStatus.normal }

-- `CompleteMigration`'s new table
unfoldable pub migrated : ℕ → Bytes → Bool → RouteTable → RouteTable
unfolding copy_routing move_primary move_replica
migrated id node is_primary t = record t {
  partitions =
      modify id (λ p. if is_primary then move_primary node p else move_replica node p)
        (map_values (λ k p. copy_routing p) t.partitions);
}

-- `CompleteMigration`: a failure to delete the migration state is only logged
unfoldable pub complete_migration : Bool → Bool → ℕ → Bytes → Bool → Router → Reply
unfolding migrated save
complete_migration cleaned reachable id node is_primary r =
    let s = r.store in
    let r' =
      if cleaned
      then record r { store = record s { migrations = delete id s.migrations } }
      else r in
    elim (lookup id r.route_table.partitions) [
      | none ↦ (r', some partition_not_found)
      | some p ↦ save reachable (migrated id node is_primary r.route_table) r'
    ]

-- `SetPartitionMigration`: the migration state is stored beside the table
unfoldable pub set_partition_migration : Bool → ℕ → Bytes → MigrationState → Router → Reply
set_partition_migration reachable id target state r =
    let s = r.store in
    elim (lookup id r.route_table.partitions) [
      | none ↦ (r, some partition_not_found)
      | some p ↦
          let info : MigrationInfo = record {
            partition_id = id;
            target = target;
            state = state;
            is_primary_move = not (bytes_eq p.primary target);
          } in
          if reachable
          then (record r { store = record s { migrations = insert id info s.migrations } }, none)
          else (r, some store_failed)
    ]

-- `GetPartitionMigrationTarget`; a failed read gives the same as no entry
unfoldable pub get_partition_migration_target : Bool → ℕ → Router → Bytes × MigrationState
get_partition_migration_target reachable id r =
    let found : Bytes × MigrationState = elim (lookup id r.store.migrations) [
      | none ↦ ([], migration_none)
      | some m ↦ (m.target, m.state)
    ] in
    if reachable then found else ([], migration_none)

-- the rebalanced entry of one partition, by the new ring
unfoldable pub rebalanced_entry : ConsistentHash → ℕ → PartitionInfo → PartitionInfo
unfolding next_epoch copy_routing
rebalanced_entry ring id p =
    let (new_primary, new_replica) = get_nodes id ring in
    record (copy_routing p) {
      primary = new_primary;
      replica = new_replica;
      epoch = if bytes_eq p.primary new_primary then p.epoch else next_epoch p.epoch;
    }

abbrev changed : Bytes → Bytes → ℕ
changed a b = if bytes_eq a b then 0 else 1

-- primaryChanges + replicaChanges
unfoldable pub count_changes : ConsistentHash → Dict PartitionInfo → ℕ
count_changes ring [] = 0
count_changes ring ((id, p) ∷ m) =
    let (new_primary, new_replica) = get_nodes id ring in
    changed p.primary new_primary + changed p.replica new_replica + count_changes ring m

abbrev pub is_online : NodeInfo → Bool
is_online n = elim n.status [ NodeStatus.online ↦ true | _ ↦ false ]

unfoldable pub online_nodes : List NodeInfo → List NodeInfo
online_nodes [] = []
online_nodes (n ∷ ns) = if is_online n then n ∷ online_nodes ns else online_nodes ns

unfoldable pub build_ring : List NodeInfo → ConsistentHash → ConsistentHash
build_ring [] ring = ring
build_ring (n ∷ ns) ring = build_ring ns (add_node n.addr ring)

abbrev pub new_ring : List NodeInfo → ConsistentHash
new_ring nodes = build_ring nodes (new_consistent_hash default_virtual_nodes)

-- `ListNodes(ctx, NodeRoleStorage)`
unfoldable pub storage_nodes : Etcd → List NodeInfo
storage_nodes s = s.storage_nodes

unfoldable pub rebalance_partitions : Bool → Bool → Router → Reply
unfolding save rebalanced_entry count_changes online_nodes build_ring storage_nodes
rebalance_partitions listed reachable r =
    let nodes = online_nodes (storage_nodes r.store) in
    let ring = new_ring nodes in
    let t = r.route_table in
    let balanced = record t { partitions = map_values (rebalanced_entry ring) t.partitions } in
    if not listed
    then (r, some store_failed)
    else if ltb (length nodes) min_replica_nodes
    then (r, some too_few_nodes)
    else if ltb 0 (count_changes ring t.partitions)
    then save reachable balanced (record r { hash_ring = ring })
    else (r, none)

-- `GetNodePartitionCounts`
unfoldable pub get_node_partition_counts : Bytes → Dict PartitionInfo → ℕ × ℕ
get_node_partition_counts addr [] = (0, 0)
get_node_partition_counts addr ((id, p) ∷ m) =
    let (primaries, replicas) = get_node_partition_counts addr m in
    (
      (if bytes_eq p.primary addr then primaries + 1 else primaries),
      (if bytes_eq p.replica addr then replicas + 1 else replicas),
    )
