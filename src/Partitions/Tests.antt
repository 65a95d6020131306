-- ===== src/Partitions/Tests.antt =====
-- The partition manager at concrete inputs, over a database that is the list of its writes.
use rockskv.Prelude.{
  ◌==◌, if◌then◌else◌, ok, ◌≡◌, refl, true, false, ◌&&◌, none, some, List, [], ◌∷◌, arith,
}
use rockskv.Prelude.Dict.{lookup}
use rockskv.Bytes.{ascii, bytes_eq}
use rockskv.Rocks.{KeyValueItem}
use rockskv.Rocks.LogDb.{log_db, log_db-IsStore}
use rockskv.Routes.{PartitionStatus, PartitionInfo, migration_none}
use rockskv.Partitions.{Partition, PartitionManager, update_from_route_table}
use rockskv.Partitions.Data.{get, put, batch_put}
use rockskv.Partitions.Updates.{assigned, hosted, update_from_route_table_lem}
use rockskv.Partitions.Isolation.{get-put}
use rockskv.Partitions.Batches.{put_all, get-batch_put}

abbrev hosted_7 : Partition
hosted_7 = record { id = 7; status = PartitionStatus.normal; is_prime = true; epoch = 3 }

abbrev node : PartitionManager
node = record {
  node_id = ascii "a";
  partitions = (7, hosted_7) ∷ (8, record hosted_7 { id = 8; is_prime = false }) ∷ [];
}

abbrev new_route : PartitionInfo
new_route = record {
  id = 7;
  primary = ascii "b";
  replica = ascii "a";
  status = PartitionStatus.normal;
  migration_target = [];
  migration_state = migration_none;
  epoch = 4;
}

node_hosts : lookup 7 node.partitions ≡ some hosted_7
unfolding lookup
node_hosts = refl

update_from_route_table_lem_example :
    lookup 7 (update_from_route_table (new_route ∷ []) node).partitions
    ≡ hosted node.node_id 7 (lookup 7 node.partitions) (assigned node.node_id 7 (new_route ∷ []))
update_from_route_table_lem_example = update_from_route_table_lem (new_route ∷ []) node 7

node_puts : (put log_db true (ascii "k") (ascii "v") 7 node []).1 ≡ none
unfolding put lookup
node_puts = refl

get-put_example :
    get log_db true (ascii "k") 8 node (put log_db true (ascii "k") (ascii "v") 7 node []).0 ≡ (
      if 7 == 8 && bytes_eq (ascii "k") (ascii "k")
      then ok (some (ascii "v"))
      else get log_db true (ascii "k") 8 node [])
get-put_example =
    get-put log_db log_db-IsStore 7 8 (omega arith) (omega arith) node [] true (ascii "k")
      (ascii "v") (ascii "k") node_puts

abbrev two_items : List KeyValueItem
two_items = (ascii "k", ascii "v") ∷ (ascii "k", ascii "w") ∷ []

node_batch_puts : (batch_put log_db true two_items 7 node []).1 ≡ none
unfolding batch_put lookup
node_batch_puts = refl

get-batch_put_example :
    get log_db true (ascii "k") 7 node (batch_put log_db true two_items 7 node []).0
    ≡ get log_db true (ascii "k") 7 node (put_all log_db two_items 7 node [])
get-batch_put_example =
    get-batch_put log_db log_db-IsStore true two_items 7 7 node [] (ascii "k") node_batch_puts
