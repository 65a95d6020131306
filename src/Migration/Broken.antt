-- ===== src/Migration/Broken.antt =====
-- A migration whose export breaks off before its first chunk.
use rockskv.Migration.Items.{all_succeed, marked_ok, completed_ok}
use rockskv.Prelude.{◌≡◌, refl, ap, ◌∙◌, Bool, true, Option, none, some, List, []}
use rockskv.Prelude.Dict.{lookup}
use rockskv.Rocks.{RocksDb}
use rockskv.Routes.{
  stored_table, copy_routing, Router, complete_migration, set_partition_migration, PartitionInfo,
  RouteTable, migration_copying,
}
use rockskv.Routes.Change.{migrated_entry}
use rockskv.Server.{Server}
use rockskv.Server.Transfer.{SstFiles, SstChunk, ingest_received, ingest_sst}
use rockskv.Migration.{MigrationPlanItem, passed_on, MigrateError, migrate_partition, not_completed}

-- the target's answer
abbrev pub answer :
    {Db : Type 0} → RocksDb Db → SstFiles Db → Server Db → List SstChunk → Option Bool
answer rocks sst t chunks = some (ingest_sst rocks sst chunks 0 [] t).1

nothing_received :
    {Db : Type 0} (rocks : RocksDb Db) (sst : SstFiles Db) (t : Server Db)
    → (ingest_sst rocks sst (passed_on []) 0 [] t).0 ≡ t
unfolding passed_on ingest_sst ingest_received
nothing_received rocks sst t = refl

broken_run :
    {Db : Type 0} (rocks : RocksDb Db) (sst : SstFiles Db) (t : Server Db)
    (item : MigrationPlanItem) (r : Router)
    → (set_partition_migration true item.partition_id item.target_node migration_copying r).1 ≡ none
    → let marked =
        (set_partition_migration true item.partition_id item.target_node migration_copying r).0 in
      let done =
        complete_migration true true item.partition_id item.target_node item.is_primary marked in
      migrate_partition all_succeed [] (answer rocks sst t) item r ≡ (
        done.0,
        elim done.1 as (λ _. Option MigrateError) [ none ↦ none | some e ↦ some not_completed ],
      )
unfolding migrate_partition passed_on ingest_sst ingest_received
broken_run rocks sst t item r set = rw (set, migrate_partition) refl

-- A migration whose export stream fails before its first chunk, and whose other calls succeed, is
-- reported as a success: the stored table has the partition at its target, while the target has
-- received nothing and its state is unchanged (a partition that the router knows).
pub migrate_partition-broken :
    {Db : Type 0} (rocks : RocksDb Db) (sst : SstFiles Db) (t : Server Db)
    (item : MigrationPlanItem) (r : Router) (p : PartitionInfo)
    → lookup item.partition_id r.route_table.partitions ≡ some p
    → let after = migrate_partition all_succeed [] (answer rocks sst t) item r in
      (after.1 ≡ none)
      × (lookup item.partition_id (stored_table after.0.store).partitions
          ≡ some (migrated_entry item.target_node item.is_primary (copy_routing p)))
      × ((ingest_sst rocks sst (passed_on []) 0 [] t).0 ≡ t)
migrate_partition-broken rocks sst t item r p known =
    let id = item.partition_id in
    let (set, same) = marked_ok id item.target_node migration_copying r p known in
    let marked = (set_partition_migration true id item.target_node migration_copying r).0 in
    let (done, moved) =
      completed_ok id item.target_node item.is_primary marked p
        (ap (λ (t' : RouteTable). lookup id t'.partitions) same ∙ known) in
    let whole = broken_run rocks sst t item r set in
    (
      ap (λ (o : Router × Option MigrateError). o.1) whole ∙ rw done refl,
      ap (λ (o : Router × Option MigrateError). lookup id (stored_table o.0.store).partitions) whole
          ∙ moved,
      nothing_received rocks sst t,
    )
