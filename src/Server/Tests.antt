-- ===== src/Server/Tests.antt =====
-- The storage server at concrete inputs: a primary and a replica of partition 7.
use rockskv.Prelude.{
  ◌==◌, if◌then◌else◌, All, ℕ, ◌≡◌, refl, ◌↔◌, true, false, none, some, List, [], ◌∷◌, ◌++◌, map,
  arith,
}
use rockskv.Prelude.Dict.{lookup}
use rockskv.Bytes.{Bytes, ascii, bytes_eq, bytes_lt}
use rockskv.Keys.{make_partition_key, get_partition_range}
use rockskv.Rocks.LogDb.{Writes, log_db, log_db-IsStore}
use rockskv.Routes.{PartitionStatus, PartitionInfo, migration_none}
use rockskv.Partitions.{Partition, validate_epoch, has_partition, is_primary, should_exist}
use rockskv.CommandLog.{CommandEntry}
use rockskv.CommandLog.Scan.{encode_all}
use rockskv.CommandLog.Log.{recover_files, new_command_log}
use rockskv.CommandLog.Log.Writes.{IsLogOf}
use rockskv.Replication.{CommandLogReplicator, new_command_log_replicator, Tick, replication_entry}
use rockskv.Server.{
  Server, WriteRequest, request_commands, can_write, check_write, write_data, handle_write,
  put_request,
}
use rockskv.Server.Replicate.{replicate}
use rockskv.Server.Writes.{IsFencedIn, handle_write_iff}
use rockskv.Server.Agreement.{replicate-handle_write}
use rockskv.Server.Assignment.{update_partitions_from_route}
use rockskv.Server.Commands.{FitsCommand}
use rockskv.Partitions.Data.{is_writable, put}
use rockskv.Server.MemoryFiles.{memory_files, memory_files-IsSst}
use rockskv.Server.Transfer.{SstChunk, compare_bytes, take_range, export_sst, ingest_sst}
use rockskv.Rocks.Iterator.{log_db-IsIterable}
use rockskv.Server.Moved.{or_own, get-ingest_sst}
use rockskv.Server.Transferred.{exported_items}
use rockskv.Server.Roles.{
  Hosts, hosted-update_partitions_from_route, handle_write-update_partitions_from_route,
}

abbrev primary_7 : Partition
primary_7 = record { id = 7; status = PartitionStatus.normal; is_prime = true; epoch = 3 }

abbrev replica_7 : Partition
replica_7 = record primary_7 { is_prime = false }

abbrev log_7 : CommandLogReplicator
log_7 =
    new_command_log_replicator 7 true (ascii "b") (record { log_files = []; checkpoint = none }) 1

log_7-IsLogOf : IsLogOf log_7.command_log []
unfolding new_command_log_replicator new_command_log recover_files encode_all
log_7-IsLogOf = record {
  older = [];
  current = [];
  older_bytes = refl;
  current_bytes = refl;
  in_order = refl;
  well_formed = tt;
  still_open = refl;
}

abbrev primary_node : Server Writes
primary_node = record {
  db = [];
  partition_manager = record { node_id = ascii "s1"; partitions = (7, primary_7) ∷ [] };
  node_lease = 5;
  node_lease_lost = false;
  replicators = (7, log_7) ∷ [];
  log_dirs = [];
}

abbrev replica_node : Server Writes
replica_node = record primary_node {
  partition_manager = record { node_id = ascii "s2"; partitions = (7, replica_7) ∷ [] };
  replicators = [];
}

abbrev ticks : ℕ → Tick
ticks n = record { now = 10; file_time = 10 }

abbrev put_k : WriteRequest
put_k = record { partition_id = 7; epoch = 3; kind = put_request (ascii "k") (ascii "v") }

abbrev promotion : PartitionInfo
promotion = record {
  id = 7;
  primary = ascii "b";
  replica = ascii "a";
  status = PartitionStatus.normal;
  migration_target = [];
  migration_state = migration_none;
  epoch = 4;
}

has_7 : lookup 7 primary_node.replicators ≡ some log_7
unfolding lookup
has_7 = refl

hosts_7 : lookup 7 replica_node.partition_manager.partitions ≡ some replica_7
unfolding lookup
hosts_7 = refl

accepted_put : (handle_write log_db true ticks put_k primary_node).1.success ≡ true
unfolding handle_write check_write can_write has_partition is_primary validate_epoch write_data put
    is_writable lookup
accepted_put = refl

handle_write_iff_example :
    let done = write_data log_db true 7 put_k.kind primary_node.partition_manager [] in
    let handled = handle_write log_db true ticks put_k primary_node in
    ((handled.1.success ≡ true) ↔ (IsFencedIn 7 3 primary_node × (done.1 ≡ true)))
    × (handled.1.success ≡ false → handled.0 ≡ primary_node)
handle_write_iff_example = handle_write_iff log_db true ticks put_k primary_node

replicate-handle_write_example :
    let primary = (handle_write log_db true ticks put_k primary_node).0 in
    (added : List CommandEntry) × (grown : CommandLogReplicator) × (lookup 7 primary.replicators
      ≡ some grown)
    × IsLogOf grown.command_log ([] ++ added)
    × (let replica = replicate log_db (λ _. true) 7 (map replication_entry added) replica_node in
        (replica.1.success ≡ true)
        × ((j : Bytes) → log_db.get j replica.0.db ≡ log_db.get j primary.db))
replicate-handle_write_example =
    replicate-handle_write log_db log_db-IsStore log_db log_db-IsStore true ticks put_k primary_node
      log_7 [] replica_node replica_7 accepted_put has_7 log_7-IsLogOf (λ m. omega arith) tt fits
      hosts_7 refl (λ j. refl)
  where
    fits : All FitsCommand (request_commands 7 put_k.kind)
    fits = unfold request_commands in ((omega arith, omega arith), tt)

hosted-update_partitions_from_route_example :
    let after =
      update_partitions_from_route (λ _. true) 2 (ascii "b") (promotion ∷ []) replica_node in
    (should_exist (ascii "b") (promotion ∷ []) 7 ≡ true → Hosts 7 replica_7 after.partition_manager)
    × (should_exist (ascii "b") (promotion ∷ []) 7 ≡ false
        → lookup 7 after.partition_manager.partitions ≡ none)
hosted-update_partitions_from_route_example =
    hosted-update_partitions_from_route (λ _. true) 2 (ascii "b") (promotion ∷ []) replica_node 7
      replica_7 hosts_7

handle_write-update_partitions_from_route_example :
    let after =
      update_partitions_from_route (λ _. true) 2 (ascii "b") (promotion ∷ []) replica_node in
    (handle_write log_db true ticks (record put_k { epoch = 4 }) after).1.success ≡ false
handle_write-update_partitions_from_route_example =
    handle_write-update_partitions_from_route log_db (λ _. true) 2 (ascii "b") (promotion ∷ [])
      replica_node replica_7 true ticks (record put_k { epoch = 4 }) hosts_7 refl

-- a source with a key of partition 7 and one of partition 8
abbrev source_node : Server Writes
source_node = record primary_node {
  db =
      (make_partition_key 8 (ascii "k"), some (ascii "w"))
      ∷ (make_partition_key 7 (ascii "k"), some (ascii "v"))
      ∷ [];
}

hosts_source : has_partition 7 source_node.partition_manager ≡ true
unfolding has_partition lookup
hosts_source = refl

exports_one :
    exported_items log_db 7 source_node.db ≡ (make_partition_key 7 (ascii "k"), ascii "v") ∷ []
unfolding take_range compare_bytes get_partition_range make_partition_key bytes_eq bytes_lt
exports_one = refl

get-ingest_sst_example :
    (chunks : List SstChunk) × ((export_sst log_db memory_files true 7 source_node).1 ≡ some chunks)
    × (let after = ingest_sst log_db memory_files chunks 0 [] replica_node in
        (after.1 ≡ true)
        × ((key : Bytes)
            → let j = make_partition_key 7 key in
              log_db.get j after.0.db ≡ (
                if 7 == 7
                then or_own (log_db.get j source_node.db) (log_db.get j replica_node.db)
                else log_db.get j replica_node.db)))
get-ingest_sst_example =
    get-ingest_sst log_db log_db-IsIterable memory_files memory_files-IsSst 7 7 source_node
      replica_node (omega arith) (omega arith) hosts_source
