-- ===== src/Migration.antt =====
-- The migration controller of pkg/metadata/migration.go: the plan of a rebalance, the run of one
-- item of it, and the record of a running rebalance. The storage nodes are arguments: what comes
-- over the export stream, and what the ingest stream answers. Byte counts, connections and the
-- estimates of GetMigrationStatus are left out.
pub mod Items
pub mod Plan
pub mod Moved
pub mod Broken
pub mod Tests
use rockskv.Prelude.{
  ltb, ◌==◌, if◌then◌else◌, length, ℕ, ◌+◌, Bool, true, false, not, ◌&&◌, ◌||◌, Option, none, some,
  List, [], ◌∷◌, ◌++◌,
}
use rockskv.Prelude.Dict.{Dict}
use rockskv.Bytes.{Bytes, bytes_eq}
use rockskv.Ring.{ConsistentHash, get_nodes}
use rockskv.Routes.{
  min_replica_nodes, Router, deliver_if, complete_migration, set_partition_migration, online_nodes,
  build_ring, new_ring, NodeInfo, PartitionInfo, migration_copying,
}
use rockskv.Server.Transfer.{SstChunk}

abbrev pub priority_low : ℕ
priority_low = 0

abbrev pub priority_normal : ℕ
priority_normal = 1

abbrev pub priority_high : ℕ
priority_high = 2

pub record MigrationPlanItem : Type 0 where
  pub partition_id : ℕ
  pub source_node : Bytes
  pub target_node : Bytes
  pub is_primary : Bool
  pub priority : ℕ

-- addrSet[addr]
unfoldable pub has_addr : Bytes → List NodeInfo → Bool
has_addr addr [] = false
has_addr addr (n ∷ ns) = bytes_eq n.addr addr || has_addr addr ns

-- whether the primary, and the replica, of an entry has to change
unfoldable pub primary_changes : Bytes → PartitionInfo → Bool
primary_changes new_primary p = not (bytes_eq p.primary new_primary)

unfoldable pub replica_changes : Bytes → PartitionInfo → Bool
replica_changes new_replica p =
    not (bytes_eq p.replica new_replica) && not (bytes_eq p.primary new_replica)

-- both branches of the source for a new primary give the same item
unfoldable pub primary_item : List NodeInfo → ℕ → Bytes → PartitionInfo → MigrationPlanItem
unfolding has_addr
primary_item nodes id new_primary p = record {
  partition_id = id;
  source_node = p.primary;
  target_node = if bytes_eq p.replica new_primary then p.replica else new_primary;
  is_primary = true;
  priority = if has_addr p.primary nodes then priority_normal else priority_high;
}

unfoldable pub replica_item : List NodeInfo → ℕ → Bytes → PartitionInfo → MigrationPlanItem
unfolding has_addr
replica_item nodes id new_replica p = record {
  partition_id = id;
  source_node = p.replica;
  target_node = new_replica;
  is_primary = false;
  priority = if has_addr p.replica nodes then priority_low else priority_normal;
}

-- the body of the loop over the table
unfoldable pub plan_items :
    List NodeInfo → ConsistentHash → ℕ → PartitionInfo → List MigrationPlanItem
unfolding primary_changes replica_changes primary_item replica_item
plan_items nodes ring id p =
    let (new_primary, new_replica) = get_nodes id ring in
    (if primary_changes new_primary p then primary_item nodes id new_primary p ∷ [] else [])
    ++ (if replica_changes new_replica p then replica_item nodes id new_replica p ∷ [] else [])

unfoldable pub all_items :
    List NodeInfo → ConsistentHash → Dict PartitionInfo → List MigrationPlanItem
unfolding plan_items
all_items nodes ring [] = []
all_items nodes ring ((id, p) ∷ m) = plan_items nodes ring id p ++ all_items nodes ring m

-- `sort.Slice` by priority; it leaves the order of equal priorities open, here it is kept
unfoldable pub insert_item : MigrationPlanItem → List MigrationPlanItem → List MigrationPlanItem
insert_item i [] = i ∷ []
insert_item i (j ∷ js) =
    let rest = insert_item i js in if ltb i.priority j.priority then j ∷ rest else i ∷ j ∷ js

unfoldable pub sort_items : List MigrationPlanItem → List MigrationPlanItem
unfolding insert_item
sort_items [] = []
sort_items (i ∷ is) = insert_item i (sort_items is)

unfoldable pub calculate_migration_plan :
    Dict PartitionInfo → List NodeInfo → List MigrationPlanItem
unfolding online_nodes build_ring all_items sort_items
calculate_migration_plan partitions nodes =
    let online_ = online_nodes nodes in
    let plan = sort_items (all_items online_ (new_ring online_) partitions) in
    if ltb (length online_) min_replica_nodes then [] else plan

pub data MigrationStatus : Type 0 where
  migration_running migration_completed completed_with_errors : MigrationStatus
  migration_cancelled paused_on_error : MigrationStatus

pub record Migration : Type 0 where
  pub total_partitions : ℕ
  pub completed_partitions : ℕ
  pub failed_partitions : ℕ
  pub status : MigrationStatus

abbrev pub is_running : Option Migration → Bool
is_running none = false
is_running (some m) = elim m.status [ migration_running ↦ true | _ ↦ false ]

pub data TriggerReply : Type 0 where
  in_progress list_failed need_nodes already_balanced : TriggerReply
  started : List MigrationPlanItem → TriggerReply

-- `nodes` are those that the store lists, sorted by id, `none` for an error
unfoldable pub trigger_rebalance :
    Bool
    → Option (List NodeInfo)
    → Dict PartitionInfo
    → Option Migration
    → Option Migration × TriggerReply
unfolding calculate_migration_plan
trigger_rebalance force none partitions current =
    (current, if is_running current then in_progress else list_failed)
trigger_rebalance force (some nodes) partitions current =
    let plan = calculate_migration_plan partitions nodes in
    if is_running current
    then (current, in_progress)
    else if ltb (length nodes) min_replica_nodes
    then (current, need_nodes)
    else if length plan == 0 && not force
    then (current, already_balanced)
    else (
      some (record {
        total_partitions = length plan;
        completed_partitions = 0;
        failed_partitions = 0;
        status = migration_running;
      }),
      started plan,
    )

unfoldable pub cancel_migration : Option Migration → Option Migration × Bool
cancel_migration none = (none, false)
cancel_migration (some m) =
    if is_running (some m)
    then (some (record m { status = migration_cancelled }), true)
    else (some m, false)

-- what the goroutine of an item records, and what ends the whole
unfoldable pub record_item : Bool → Migration → Migration
record_item succeeded m =
    if succeeded
    then record m { completed_partitions = m.completed_partitions + 1 }
    else record m { failed_partitions = m.failed_partitions + 1 }

unfoldable pub end_migration : Migration → Migration
end_migration m =
    if is_running (some m)
    then record m {
      status = if ltb 0 m.failed_partitions then completed_with_errors else migration_completed;
    }
    else m

-- The check of `executeMigration` before it starts an item: whether the loop goes on. `ended` is
-- whether the context has ended, `failed` whether an item has failed by then.
unfoldable pub next_item : Bool → Bool → Bool → Migration → Migration × Bool
next_item ended pause_on_error failed m =
    if ended
    then (record m { status = migration_cancelled }, false)
    else if pause_on_error && failed
    then (record m { status = paused_on_error }, false)
    else (m, true)

-- the chunks that are passed on: up to the last one, or to where the stream breaks off
unfoldable pub passed_on : List SstChunk → List SstChunk
passed_on [] = []
passed_on (c ∷ cs) = let rest = passed_on cs in if c.is_last then c ∷ [] else c ∷ rest

pub data MigrateError : Type 0 where
  state_not_set not_connected export_not_started ingest_not_started not_sent : MigrateError
  not_closed ingest_refused not_completed : MigrateError

-- which of the calls of `migratePartition` succeed
pub record MigrateCalls : Type 0 where
  pub state_set : Bool
  pub source_connected : Bool
  pub target_connected : Bool
  pub export_started : Bool
  pub ingest_started : Bool
  pub chunks_sent : Bool
  pub cleaned : Bool
  pub table_saved : Bool

-- `received` is what the export stream brings before it ends or fails; `ingest` what the target
-- answers to the chunks, `none` for an error of the call
unfoldable pub migrate_partition :
    MigrateCalls
    → List SstChunk
    → (List SstChunk → Option Bool)
    → MigrationPlanItem
    → Router
    → Router × Option MigrateError
unfolding set_partition_migration complete_migration passed_on
migrate_partition calls received ingest item r =
    let (marked, refused) =
      set_partition_migration calls.state_set item.partition_id item.target_node migration_copying
        r in
    let (done, failed) =
      complete_migration calls.cleaned calls.table_saved item.partition_id item.target_node
        item.is_primary marked in
    let finished : Router × Option MigrateError =
      (done, elim failed [ none ↦ none | some e ↦ some not_completed ]) in
    elim refused as (λ _. Router × Option MigrateError) [
      | some e ↦ (r, some state_not_set)
      | none ↦
          if not (calls.source_connected && calls.target_connected)
          then (marked, some not_connected)
          else if not calls.export_started
          then (marked, some export_not_started)
          else if not calls.ingest_started
          then (marked, some ingest_not_started)
          else if not calls.chunks_sent
          then (marked, some not_sent)
          else elim (ingest (passed_on received)) as (λ _. Router × Option MigrateError) [
            | none ↦ (marked, some not_closed)
            | some false ↦ (marked, some ingest_refused)
            | some true ↦ finished
          ]
    ]

-- The items in the order in which they end, each with whether the watch delivers after it. What two
-- items mark in the store before they end does not touch the route table.
unfoldable pub run_items :
    MigrateCalls
    → (MigrationPlanItem → List SstChunk)
    → (MigrationPlanItem → List SstChunk → Option Bool)
    → List (MigrationPlanItem × Bool)
    → Router
    → Router
unfolding migrate_partition deliver_if
run_items calls received ingest [] r = r
run_items calls received ingest ((item, delivered) ∷ more) r =
    run_items calls received ingest more
      (deliver_if delivered (migrate_partition calls (received item) (ingest item) item r).0)
