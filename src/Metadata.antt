-- ===== src/Metadata.antt =====
-- The metadata server of pkg/metadata/server.go: what it sends of the route table, its handlers, and
-- the subscribers of pkg/metadata/router.go. Locks, logging and gauges are left out; a handler is
-- one step. What the leader election adds is in Metadata/Leader.
pub mod Subscribers
pub mod Registered
pub mod Leader
pub mod Tests
use rockskv.Prelude.{
  ltb, leb, if◌then◌else◌, length, ℕ, ◌+◌, Bool, true, false, not, ◌&&◌, Option, none, some, List,
  [], ◌∷◌, ◌++◌,
}
use rockskv.Prelude.Dict.{Dict}
use rockskv.Bytes.{Bytes, bytes_eq}
use rockskv.Routes.Nodes.{NodeRole, get_node, register_node_info, storage}
use rockskv.Routes.{
  min_replica_nodes, Router, Reply, storage_nodes, get_node_partition_counts, store_failed,
  too_few_nodes, ClusterState, NodeStatus, PartitionStatus, PartitionInfo, RouteTable, offline,
  draining, normal, migrating_out, migrating_in,
}
use rockskv.Routes.Init.{InitCalls, allocate_partitions, init_cluster}
use rockskv.Scheduler.{new_migration_scheduler}
use rockskv.Shutdown.{ShutdownCalls, Event, ShutdownResult, shutdown_node}

-- pb.RouteTable, and pb.RouteUpdate, which has the same fields
pub record RouteUpdate : Type 0 where
  pub version : ℕ
  pub partitions : List PartitionInfo

-- the statuses of the protocol have the same names
unfoldable pub convert_partition_status : PartitionStatus → PartitionStatus
convert_partition_status normal = normal
convert_partition_status migrating_out = migrating_out
convert_partition_status migrating_in = migrating_in
convert_partition_status PartitionStatus.offline = PartitionStatus.offline

-- an entry in the protocol's form, which has an epoch; nothing sets it, so it is 0
unfoldable pub wire_partition : PartitionInfo → PartitionInfo
unfolding convert_partition_status
wire_partition p = record p { status = convert_partition_status p.status; epoch = 0 }

unfoldable pub wire_partitions : Dict PartitionInfo → List PartitionInfo
unfolding wire_partition
wire_partitions [] = []
wire_partitions ((id, p) ∷ m) = wire_partition p ∷ wire_partitions m

-- `sendRouteUpdate`'s message
unfoldable pub send_route_update : RouteTable → RouteUpdate
unfolding wire_partitions
send_route_update t = record { version = t.version; partitions = wire_partitions t.partitions }

-- `GetRouteTable`: no partitions for a client that has the version
unfoldable pub get_route_table : ℕ → RouteTable → RouteUpdate
unfolding wire_partitions
get_route_table version t =
    if leb t.version version
    then record { version = t.version; partitions = [] }
    else record { version = t.version; partitions = wire_partitions t.partitions }

-- the capacity of a subscriber's channel
abbrev pub channel_size : ℕ
channel_size = 10

-- the router, and the tables that wait in the channel of each subscriber
pub record MetadataServer : Type 0 where
  pub router : Router
  pub subscribers : List (Bytes × List RouteTable)

-- a send that does not block: into a full channel it is dropped
unfoldable pub offer : RouteTable → List RouteTable → List RouteTable
offer t queue = if ltb (length queue) channel_size then queue ++ (t ∷ []) else queue

unfoldable pub notify_all :
    RouteTable → List (Bytes × List RouteTable) → List (Bytes × List RouteTable)
unfolding offer
notify_all t [] = []
notify_all t ((id, queue) ∷ subs) = (id, offer t queue) ∷ notify_all t subs

unfoldable pub unsubscribe : Bytes → List (Bytes × List RouteTable) → List (Bytes × List RouteTable)
unsubscribe id [] = []
unsubscribe id ((j, queue) ∷ subs) =
    let rest = unsubscribe id subs in if bytes_eq j id then rest else (j, queue) ∷ rest

unfoldable pub waiting : Bytes → List (Bytes × List RouteTable) → Option (List RouteTable)
waiting id [] = none
waiting id ((j, queue) ∷ subs) = if bytes_eq j id then some queue else waiting id subs

-- `Subscribe` makes a channel with the current table in it
unfoldable pub subscribe : Bytes → MetadataServer → MetadataServer
unfolding unsubscribe offer
subscribe id m = record m {
  subscribers = (id, offer m.router.route_table []) ∷ unsubscribe id m.subscribers;
}

-- the start of `SubscribeRouteUpdates`: the current table is sent, and is in the channel too
unfoldable pub subscribe_route_updates : Bytes → MetadataServer → MetadataServer × RouteUpdate
unfolding subscribe send_route_update
subscribe_route_updates id m = (subscribe id m, send_route_update m.router.route_table)

-- a round of its loop: the next table of the channel is sent
unfoldable pub send_next : Bytes → MetadataServer → MetadataServer × Option RouteUpdate
unfolding waiting unsubscribe send_route_update
send_next id m = elim (waiting id m.subscribers) as (λ _. MetadataServer × Option RouteUpdate) [
  | none ↦ (m, none)
  | some [] ↦ (m, none)
  | some (t ∷ queue) ↦ (
    record m { subscribers = (id, queue) ∷ unsubscribe id m.subscribers },
    some (send_route_update t),
  )
]

-- the goroutine of `Start`: the watch of the store delivers a table
unfoldable pub deliver : RouteTable → MetadataServer → MetadataServer
unfolding notify_all
deliver t m = record m {
  router = record (m.router) { route_table = t };
  subscribers = notify_all t m.subscribers;
}

-- `InitializePartitions`
unfoldable pub initialize_partitions : Bool → Bool → Router → Reply
unfolding allocate_partitions storage_nodes
initialize_partitions listed saved r =
    let nodes = storage_nodes r.store in
    if not listed
    then (r, some store_failed)
    else if ltb (length nodes) min_replica_nodes
    then (r, some too_few_nodes)
    else allocate_partitions saved nodes r

unfoldable pub try_initialize_partitions : Bool → Bool → Router → Router
unfolding initialize_partitions
try_initialize_partitions listed saved r =
    if ltb 0 (length r.route_table.partitions) then r else (initialize_partitions listed saved r).0

-- `RegisterNode`: the answer is whether it succeeded
unfoldable pub register_node :
    Bool → Bool → Bool → NodeRole → Bytes → Bytes → Router → Router × Bool
unfolding register_node_info try_initialize_partitions
register_node registered listed saved role id addr r =
    let known = record r { store = register_node_info role id addr r.store } in
    let after : Router = elim role as (λ _. Router) [
      | NodeRole.storage ↦ try_initialize_partitions listed saved known
      | _ ↦ known
    ] in
    if registered then (after, true) else (r, false)

-- `Heartbeat`: the version of the routes, or a failure, also for a node that is not registered
unfoldable pub heartbeat : Bool → Bytes → Router → Option ℕ
unfolding get_node
heartbeat reachable id r = elim (get_node id r.store) as (λ _. Option ℕ) [
  | none ↦ none
  | some n ↦ if reachable then some r.route_table.version else none
]

pub record ClusterInfo : Type 0 where
  pub state : ClusterState
  pub replica_count : ℕ
  pub storage_node_count : ℕ
  pub partition_count : ℕ

abbrev pub default_replica_count : ℕ
default_replica_count = 2

unfoldable pub get_cluster_info : Bool → Bool → Router → Option ClusterInfo
unfolding storage_nodes
get_cluster_info info_read listed r =
    if info_read && listed
    then some (record {
      state = r.store.cluster_state;
      replica_count = default_replica_count;
      storage_node_count = length (storage_nodes r.store);
      partition_count = length r.route_table.partitions;
    })
    else none

-- the state and the number of the partitions and of the nodes; `counted` is whether the last
-- listing succeeds
unfoldable pub handle_init_cluster : InitCalls → Bool → Router → Router × Option (ℕ × ℕ)
unfolding init_cluster storage_nodes
handle_init_cluster c counted r =
    let (after, error) = init_cluster c r in
    elim error as (λ _. Router × Option (ℕ × ℕ)) [
      | some e ↦ (after, none)
      | none ↦ (
        after,
        some (
          length after.route_table.partitions,
          if counted then length (storage_nodes after.store) else 0,
        ),
      )
    ]

-- `ShutdownNode`: a scheduler of its own, but for a forced shutdown
unfoldable pub handle_shutdown_node :
    ShutdownCalls → List Event → Bytes → Bool → Router → Router × ShutdownResult
unfolding shutdown_node new_migration_scheduler
handle_shutdown_node c events id force r =
    let ((after, scheduler), result) =
      shutdown_node c events id force r (if force then none else some new_migration_scheduler) in
    (after, result)

pub record NodeStatusReply : Type 0 where
  pub status : NodeStatus
  pub addr : Bytes
  pub primary_partition_count : ℕ
  pub replica_partition_count : ℕ
  pub is_draining : Bool
  pub draining_partitions_remaining : ℕ

abbrev pub is_draining_status : NodeStatus → Bool
is_draining_status draining = true
is_draining_status _ = false

unfoldable pub get_node_status : Bool → Bytes → Router → Option NodeStatusReply
unfolding get_node get_node_partition_counts
get_node_status reachable id r =
    let found = if reachable then get_node id r.store else none in
    elim found as (λ _. Option NodeStatusReply) [
      | none ↦ none
      | some n ↦
          let (primaries, replicas) = get_node_partition_counts n.addr r.route_table.partitions in
          some (record {
            status = n.status;
            addr = n.addr;
            primary_partition_count = primaries;
            replica_partition_count = replicas;
            is_draining = is_draining_status n.status;
            draining_partitions_remaining =
                if is_draining_status n.status then primaries + replicas else 0;
          })
    ]
