-- ===== src/Shutdown.antt =====
-- The controlled shutdown of a storage node: `ShutdownNode` of pkg/metadata/router.go, with the
-- scheduler of the migrations that it starts. Counters are int32 in the code and count partitions,
-- of which there are 4096 at most. The router's lock is free between its calls of the router's
-- methods: the watch may deliver the stored table after each partition and while it waits.
pub mod Idle
pub mod Removed
pub mod Tests
use rockskv.Prelude.{
  ltb, if◌then◌else◌, length, ℕ, ◌+◌, ◌-◌, ◌%◌, ◌^◌, Bool, true, false, not, ◌&&◌, ◌||◌, Option,
  none, some, List, [], ◌∷◌,
}
use rockskv.Prelude.Dict.{Dict, lookup}
use rockskv.Bytes.{Bytes, bytes_eq}
use rockskv.Routes.Nodes.{get_node, update_node_status}
use rockskv.Ring.{ConsistentHash, remove_node, get_nodes}
use rockskv.Routes.{
  min_replica_nodes, Router, watch, deliver_if, promote_replica, complete_migration, is_online,
  new_ring, storage_nodes, NodeStatus, NodeInfo, PartitionInfo, draining, removed, migration_none,
}
use rockskv.Failover.{affected_primaries}
use rockskv.Scheduler.{
  MigrationTask, MigrationScheduler, add_task, process_queue, Calls, execute_migration,
}

abbrev pub priority_normal : ℕ
priority_normal = 1

abbrev pub priority_high : ℕ
priority_high = 2

pub data ShutdownError : Type 0 where
  node_not_read node_not_found not_draining not_listed too_few_targets not_removed : ShutdownError

-- which of the calls succeed; `promoted`, `cleaned` and `saved` by partition
pub record ShutdownCalls : Type 0 where
  pub node_read : Bool
  pub draining_set : Bool
  pub nodes_listed : Bool
  pub removed_set : Bool
  pub promoted : ℕ → Bool
  pub cleaned : ℕ → Bool
  pub saved : ℕ → Bool
  -- whether the watch delivers after a partition of the first loop, and of the second
  pub delivered : ℕ → Bool
  pub delivered_again : ℕ → Bool

-- What the other goroutines do while the method waits: the queue is processed, the watch delivers,
-- or the migration of a partition ends.
pub data Event : Type 0 where
  processed watched : Event
  ended : Calls → ℕ → Event

unfoldable pub happen : Event → MigrationScheduler × Router → MigrationScheduler × Router
unfolding process_queue execute_migration watch
happen watched (ms, r) = (ms, watch r)
happen processed (ms, r) = (process_queue ms, r)
happen (ended c id) (ms, r) = elim (lookup id ms.active) as (λ _. MigrationScheduler × Router) [
  | none ↦ (ms, r)
  | some t ↦ execute_migration c t ms r
]

unfoldable pub happen_all : List Event → MigrationScheduler × Router → MigrationScheduler × Router
unfolding happen
happen_all [] state = state
happen_all (e ∷ es) state = happen_all es (happen e state)

-- the router, the scheduler if there is one, migratedCount and failedCount
pub record Progress : Type 0 where
  pub router : Router
  pub scheduler : Option MigrationScheduler
  pub migrated_count : ℕ
  pub failed_count : ℕ

-- the partitions with the node as replica, in the order in which the loop meets them
unfoldable pub replica_partitions : Bytes → Dict PartitionInfo → List ℕ
replica_partitions addr [] = []
replica_partitions addr ((id, p) ∷ m) =
    let rest = replica_partitions addr m in if bytes_eq p.replica addr then id ∷ rest else rest

-- the online nodes but the one that shuts down
unfoldable pub target_nodes : Bytes → List NodeInfo → List NodeInfo
target_nodes id [] = []
target_nodes id (n ∷ ns) =
    let rest = target_nodes id ns in
    if not (bytes_eq n.id id) && is_online n then n ∷ rest else rest

unfoldable pub move_task : Bytes → Bytes → ℕ → Bool → ℕ → MigrationTask
move_task source target priority is_primary id = record {
  partition_id = id;
  source = source;
  target = target;
  priority = priority;
  is_primary = is_primary;
  state = migration_none;
  bytes_copied = 0;
  error_message = none;
}

-- a task of the scheduler, or the route at once without one
unfoldable pub hand_over : ShutdownCalls → MigrationTask → Progress → Progress
unfolding add_task complete_migration
hand_over c task pr =
    let (r, error) =
      complete_migration (c.cleaned task.partition_id) (c.saved task.partition_id) task.partition_id
        task.target task.is_primary pr.router in
    elim pr.scheduler as (λ _. Progress) [
      | some ms ↦
          let (ms', refusal) = add_task task ms in
          elim refusal as (λ _. Progress) [
            | none ↦ record pr { scheduler = some ms' }
            | some e ↦ record pr { scheduler = some ms'; failed_count = pr.failed_count + 1 }
          ]
      | none ↦ elim error as (λ _. Progress) [
        | none ↦ record pr { router = r; migrated_count = pr.migrated_count + 1 }
        | some e ↦ record pr { router = r; failed_count = pr.failed_count + 1 }
      ]
    ]

-- the same with its error and its counts ignored
unfoldable pub hand_over_silently : ShutdownCalls → MigrationTask → Progress → Progress
unfolding hand_over
hand_over_silently c task pr = record (hand_over c task pr) {
  migrated_count = pr.migrated_count;
  failed_count = pr.failed_count;
}

-- a partition that the node is the primary of, where another node is the replica
unfoldable pub promote_other : ShutdownCalls → ℕ → Progress → Progress
unfolding promote_replica
promote_other c id pr =
    let (r, error) = promote_replica (c.promoted id) id pr.router in
    elim error as (λ _. Progress) [
      | none ↦ record pr { router = r; migrated_count = pr.migrated_count + 1 }
      | some e ↦ record pr { router = r; failed_count = pr.failed_count + 1 }
    ]

-- `partition.Replica != "" && partition.Replica != node.Addr`
unfoldable pub has_other_replica : Bytes → PartitionInfo → Bool
has_other_replica addr p = not (bytes_eq p.replica []) && not (bytes_eq p.replica addr)

-- the body of the loop over the primaries; `p` is the partition's entry
unfoldable pub leave_primary :
    ShutdownCalls → ConsistentHash → Bytes → PartitionInfo → ℕ → Progress → Progress
unfolding hand_over hand_over_silently promote_other has_other_replica move_task
leave_primary c ring addr p id pr =
    let (new_primary, new_replica) = get_nodes id ring in
    let moved = hand_over c (move_task addr new_primary priority_high true id) pr in
    if has_other_replica addr p
    then promote_other c id pr
    else if bytes_eq p.replica addr && not (bytes_eq new_replica [])
    then hand_over_silently c (move_task addr new_replica priority_normal false id) moved
    else moved

-- the end of a round of a loop
unfoldable pub deliver_between : Bool → Progress → Progress
unfolding deliver_if
deliver_between b pr = record pr { router = deliver_if b pr.router }

unfoldable pub leave_primaries :
    ShutdownCalls → ConsistentHash → Bytes → Dict PartitionInfo → List ℕ → Progress → Progress
unfolding leave_primary deliver_between
leave_primaries c ring addr table [] pr = pr
leave_primaries c ring addr table (id ∷ ids) pr = leave_primaries c ring addr table ids (
    deliver_between (c.delivered id) (elim (lookup id table) as (λ _. Progress) [
      | none ↦ pr
      | some p ↦ leave_primary c ring addr p id pr
    ]))

-- the body of the loop over the replicas
unfoldable pub leave_replica :
    ShutdownCalls → ConsistentHash → Bytes → PartitionInfo → ℕ → Progress → Progress
unfolding hand_over move_task
leave_replica c ring addr p id pr =
    let (new_primary, new_replica) = get_nodes id ring in
    if bytes_eq p.primary addr || bytes_eq new_replica []
    then pr
    else hand_over c (move_task addr new_replica priority_normal false id) pr

unfoldable pub leave_replicas :
    ShutdownCalls → ConsistentHash → Bytes → Dict PartitionInfo → List ℕ → Progress → Progress
unfolding leave_replica deliver_between
leave_replicas c ring addr table [] pr = pr
leave_replicas c ring addr table (id ∷ ids) pr = leave_replicas c ring addr table ids (
    deliver_between (c.delivered_again id) (elim (lookup id table) as (λ _. Progress) [
      | none ↦ pr
      | some p ↦ leave_replica c ring addr p id pr
    ]))

-- step 7: the counts of the scheduler replace the others
unfoldable pub wait_for_scheduler : List Event → Progress → Progress
unfolding happen_all
wait_for_scheduler events pr = elim pr.scheduler as (λ _. Progress) [
  | none ↦ pr
  | some ms ↦
      let (ms', r) = happen_all events (ms, pr.router) in
      record {
        router = r;
        scheduler = some ms';
        migrated_count = ms'.total_migrated % 2 ^ 32;
        failed_count = ms'.total_failed % 2 ^ 32;
      }
]

unfoldable pub set_node_status : Bytes → NodeStatus → Router → Router
unfolding update_node_status
set_node_status id status r = record r { store = update_node_status id status r.store }

-- step 8; a failure to store the status is only logged
unfoldable pub leave_cluster : Bool → Bytes → Bytes → Router → Router
unfolding set_node_status remove_node
leave_cluster removed_set id addr r =
    let left = record r { hash_ring = remove_node addr r.hash_ring } in
    if removed_set then set_node_status id NodeStatus.removed left else left

-- the result of the method: the counts, and the error
pub record ShutdownResult : Type 0 where
  pub migrated : ℕ
  pub failed : ℕ
  pub error : Option ShutdownError

abbrev pub Shutdown : Type 0
Shutdown = (Router × Option MigrationScheduler) × ShutdownResult

abbrev not_begun : ShutdownError → Router → Option MigrationScheduler → Shutdown
not_begun e r scheduler = ((r, scheduler), record { migrated = 0; failed = 0; error = some e })

-- the forced shutdown; its rebalance is a later call
unfoldable pub force_out : ShutdownCalls → Bytes → ℕ → Router → Option MigrationScheduler → Shutdown
unfolding set_node_status
force_out c id total r scheduler =
    if c.removed_set
    then (
      (set_node_status id NodeStatus.removed r, scheduler),
      record { migrated = 0; failed = total; error = none },
    )
    else ((r, scheduler), record { migrated = 0; failed = total; error = some not_removed })

-- steps 5 to 8
unfoldable pub drain_node :
    ShutdownCalls
    → List Event
    → Bytes
    → NodeInfo
    → List NodeInfo
    → Router
    → Option MigrationScheduler
    → Shutdown
unfolding leave_primaries leave_replicas wait_for_scheduler leave_cluster replica_partitions
    affected_primaries
drain_node c events id node targets r scheduler =
    let ring = new_ring targets in
    let table = r.route_table.partitions in
    let begun : Progress = record {
      router = r;
      scheduler = scheduler;
      migrated_count = 0;
      failed_count = 0;
    } in
    let primaries =
      leave_primaries c ring node.addr table (affected_primaries node.addr table) begun in
    let replicas =
      leave_replicas c ring node.addr table (replica_partitions node.addr table) primaries in
    let done = wait_for_scheduler events replicas in
    (
      (leave_cluster c.removed_set id node.addr done.router, done.scheduler),
      record { migrated = done.migrated_count; failed = done.failed_count; error = none },
    )

unfoldable pub shutdown_node :
    ShutdownCalls → List Event → Bytes → Bool → Router → Option MigrationScheduler → Shutdown
unfolding get_node set_node_status force_out drain_node target_nodes affected_primaries
    replica_partitions storage_nodes
shutdown_node c events id force r scheduler =
    if not c.node_read then not_begun node_not_read r scheduler else elim (get_node id r.store) [
      | none ↦ not_begun node_not_found r scheduler
      | some node ↦
          let draining = set_node_status id NodeStatus.draining r in
          let table = draining.route_table.partitions in
          let total =
            length (affected_primaries node.addr table)
            + length (replica_partitions node.addr table) in
          let targets = target_nodes id (storage_nodes draining.store) in
          if not c.draining_set
          then not_begun not_draining r scheduler
          else if force
          then force_out c id total draining scheduler
          else if not c.nodes_listed
          then not_begun not_listed draining scheduler
          else if ltb (length targets) (min_replica_nodes - 1)
          then not_begun too_few_targets draining scheduler
          else drain_node c events id node targets draining scheduler
    ]
