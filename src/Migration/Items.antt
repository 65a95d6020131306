-- ===== src/Migration/Items.antt =====
-- What one item of a plan does to the route table when all its calls succeed.
use rockskv.Prelude.{
  ◌==◌, if_true, ℕ, ◌≡◌, refl, ap, ◌∙◌, Bool, true, Option, none, some, List, arith,
}
use rockskv.Prelude.Dict.{lookup, delete}
use rockskv.Bytes.{Bytes}
use rockskv.Routes.{
  stored_table, copy_routing, Router, save, migrated, complete_migration, set_partition_migration,
  MigrationState, PartitionInfo, RouteTable, migration_copying,
}
use rockskv.Routes.Change.{migrated_entry, lookup-migrated, stored_table-save}
use rockskv.Server.Transfer.{SstChunk}
use rockskv.Migration.{MigrationPlanItem, passed_on, MigrateCalls, migrate_partition}

abbrev pub all_succeed : MigrateCalls
all_succeed = record {
  state_set = true;
  source_connected = true;
  target_connected = true;
  export_started = true;
  ingest_started = true;
  chunks_sent = true;
  cleaned = true;
  table_saved = true;
}

pub marked_ok :
    (id : ℕ) (target : Bytes) (state : MigrationState) (r : Router) (p : PartitionInfo)
    → lookup id r.route_table.partitions ≡ some p
    → let marked = set_partition_migration true id target state r in
      (marked.1 ≡ none) × (marked.0.route_table ≡ r.route_table)
unfolding set_partition_migration
marked_ok id target state r p known = ground arith

pub completed_ok :
    (id : ℕ) (node : Bytes) (is_primary : Bool) (r : Router) (p : PartitionInfo)
    → lookup id r.route_table.partitions ≡ some p
    → let done = complete_migration true true id node is_primary r in
      (done.1 ≡ none)
      × (lookup id (stored_table done.0.store).partitions
          ≡ some (migrated_entry node is_primary (copy_routing p)))
unfolding complete_migration
completed_ok id node is_primary r p known =
    rw (known, complete_migration)
      (
        unfold save in refl,
        ap (λ m. lookup id m)
              (stored_table-save (migrated id node is_primary r.route_table) (record r {
                store = record (r.store) { migrations = delete id r.store.migrations };
              }))
            ∙ lookup-migrated id id node is_primary r.route_table
            ∙ rw known (ap some (if_true (id == id) _ (copy_routing p) (ground arith))),
      )

cached_ok :
    (id : ℕ) (node : Bytes) (is_primary : Bool) (r : Router)
    → (complete_migration true true id node is_primary r).0.route_table ≡ r.route_table
unfolding complete_migration save
cached_ok id node is_primary r = ground arith

item_run :
    (received : List SstChunk) (ingest : List SstChunk → Option Bool) (item : MigrationPlanItem)
    (r : Router)
    → (set_partition_migration true item.partition_id item.target_node migration_copying r).1 ≡ none
    → ingest (passed_on received) ≡ some true
    → let marked =
        (set_partition_migration true item.partition_id item.target_node migration_copying r).0 in
      (migrate_partition all_succeed received ingest item r).0
      ≡ (complete_migration true true item.partition_id item.target_node item.is_primary marked).0
unfolding migrate_partition
item_run received ingest item r set done = rw (set, done, migrate_partition) refl

pub migrate_partition_ok :
    (received : List SstChunk) (ingest : List SstChunk → Option Bool) (item : MigrationPlanItem)
    (r : Router) (p : PartitionInfo)
    → lookup item.partition_id r.route_table.partitions ≡ some p
    → ingest (passed_on received) ≡ some true
    → let after = (migrate_partition all_succeed received ingest item r).0 in
      (after.route_table ≡ r.route_table)
      × (lookup item.partition_id (stored_table after.store).partitions
          ≡ some (migrated_entry item.target_node item.is_primary (copy_routing p)))
migrate_partition_ok received ingest item r p known done =
    let id = item.partition_id in
    let (set, same) = marked_ok id item.target_node migration_copying r p known in
    let marked = (set_partition_migration true id item.target_node migration_copying r).0 in
    let (ended, moved) =
      completed_ok id item.target_node item.is_primary marked p
        (ap (λ (t : RouteTable). lookup id t.partitions) same ∙ known) in
    let whole = item_run received ingest item r set done in
    (
      ap (λ (x : Router). x.route_table) whole
          ∙ cached_ok id item.target_node item.is_primary marked
          ∙ same,
      ap (λ (x : Router). lookup id (stored_table x.store).partitions) whole ∙ moved,
    )
