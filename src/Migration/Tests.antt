-- ===== src/Migration/Tests.antt =====
-- A rebalance of one partition, and a migration whose export breaks off.
use rockskv.Prelude.{length, ◌<◌, ◌≡◌, refl, true, false, not, ◌&&◌, none, some, [], ◌∷◌, arith}
use rockskv.Prelude.Dict.{lookup}
use rockskv.Bytes.{ascii, bytes_eq}
use rockskv.Rocks.LogDb.{Writes, log_db}
use rockskv.Crc.{checksum_ieee}
use rockskv.Ring.{ConsistentHash, decimal, hash, search, get_nodes}
use rockskv.Routes.{
  stored_table, copy_routing, Router, PartitionStatus, PartitionInfo, RouteTable, running,
  migration_none,
}
use rockskv.Routes.Change.{migrated_entry}
use rockskv.Server.{Server}
use rockskv.Server.Transfer.{SstFiles, ingest_sst}
use rockskv.Migration.{
  MigrationPlanItem, primary_changes, replica_changes, plan_items, passed_on, migrate_partition,
  run_items,
}
use rockskv.Migration.Items.{all_succeed}
use rockskv.Migration.Plan.{arranged, with_delivery}
use rockskv.Migration.Moved.{IsMoved, run_items-plan_items}
use rockskv.Migration.Broken.{answer, migrate_partition-broken}

abbrev on_a : PartitionInfo
on_a = record {
  id = 7;
  primary = ascii "a";
  replica = ascii "b";
  status = PartitionStatus.normal;
  migration_target = [];
  migration_state = migration_none;
  epoch = 3;
}

abbrev table : RouteTable
table = record { version = 9; partitions = (7, on_a) ∷ [] }

-- a ring with one point of each of two nodes
abbrev two_nodes : ConsistentHash
two_nodes = record {
  virtual_nodes = 1;
  ring = 0 ∷ 4000000000 ∷ [];
  node_map = (0, ascii "c") ∷ (4000000000, ascii "b") ∷ [];
  nodes = ascii "c" ∷ ascii "b" ∷ [];
}

abbrev router : Router
router = record {
  route_table = table;
  hash_ring = two_nodes;
  store = record {
    cluster_state = running;
    storage_nodes = [];
    other_nodes = [];
    route_table = some table;
    migrations = [];
  };
}

abbrev to_c : MigrationPlanItem
to_c = record {
  partition_id = 7;
  source_node = ascii "a";
  target_node = ascii "c";
  is_primary = true;
  priority = 1;
}

-- files that hold nothing of their entries
abbrev no_files : SstFiles Writes
no_files = record { write_file = λ items. 0 ∷ []; ingest_file = λ file d. some d }

abbrev target : Server Writes
target = record {
  db = [];
  partition_manager = record { node_id = ascii "s3"; partitions = [] };
  node_lease = 5;
  node_lease_lost = false;
  replicators = [];
  log_dirs = [];
}

knows_7 : lookup 7 router.route_table.partitions ≡ some on_a
unfolding lookup
knows_7 = refl

migrate_partition-broken_example :
    let after = migrate_partition all_succeed [] (answer log_db no_files target) to_c router in
    (after.1 ≡ none)
    × (lookup 7 (stored_table after.0.store).partitions
        ≡ some (migrated_entry (ascii "c") true (copy_routing on_a)))
    × ((ingest_sst log_db no_files (passed_on []) 0 [] target).0 ≡ target)
migrate_partition-broken_example =
    migrate_partition-broken log_db no_files target to_c router on_a knows_7

some_item : 0 < length (plan_items [] two_nodes 7 on_a)
unfolding get_nodes bytes_eq lookup search hash checksum_ieee decimal plan_items primary_changes
    replica_changes
some_item = omega arith

run_items-plan_items_example :
    let (np, nr) = get_nodes 7 two_nodes in
    let items = with_delivery false (arranged true (plan_items [] two_nodes 7 on_a)) in
    IsMoved
      (not (bytes_eq (ascii "a") np))
      (not (bytes_eq (ascii "b") nr) && not (bytes_eq (ascii "a") nr))
      true
      false
      np
      nr
      on_a
      (lookup 7
        (stored_table
          (run_items all_succeed (λ i. []) (λ i cs. some true) items router).store).partitions)
run_items-plan_items_example =
    run_items-plan_items [] two_nodes 7 router on_a (λ i. []) (λ i cs. some true) true false
      (λ i. refl) knows_7 some_item
