-- ===== src/Server/Assignment.antt =====
-- `updatePartitionsFromRoute` of pkg/storage/server.go with the replicators that it starts and
-- stops. `opens` says of a partition whether the directory of its log can be opened.
use rockskv.Prelude.{if◌then◌else◌, ℕ, Bool, not, Option, none, some, List, [], ◌∷◌, map}
use rockskv.Prelude.Dict.{lookup, delete, insert}
use rockskv.Bytes.{Bytes, bytes_eq}
use rockskv.Routes.{PartitionInfo}
use rockskv.Partitions.{
  Partition, PartitionManager, add_partition_with_epoch, update_partition_epoch, remove_partition,
  has_partition, is_primary, names, should_exist,
}
use rockskv.Replication.{LogDir, new_command_log_replicator, stop}
use rockskv.CommandLog.Log.{close}
use rockskv.Server.{Server}

abbrev dir_or_empty : Option LogDir → LogDir
dir_or_empty none = record { log_files = []; checkpoint = none }
dir_or_empty (some dir) = dir

unfoldable pub list_partitions : PartitionManager → List ℕ
list_partitions pm = map (λ (e : ℕ × Partition). e.0) pm.partitions

module _ {Db : Type 0} where
  -- a replicator that is stopped but still in the map has a closed log
  unfoldable pub stop_existing : ℕ → Server Db → Server Db
  unfolding stop close
  stop_existing id s = elim (lookup id s.replicators) [
    | none ↦ s
    | some clr ↦ record s {
      replicators = insert id (record clr { command_log = close clr.command_log }) s.replicators;
      log_dirs = insert id (stop clr) s.log_dirs;
    }
  ]

  unfoldable pub initialize_replicator : Bool → ℕ → ℕ → Bool → Bytes → Server Db → Server Db
  unfolding stop_existing new_command_log_replicator
  initialize_replicator opens now id is_primary replica_addr s =
      let stopped = stop_existing id s in
      let dir = dir_or_empty (lookup id stopped.log_dirs) in
      let clr = new_command_log_replicator id is_primary replica_addr dir now in
      if opens
      then record stopped {
        replicators = insert id clr stopped.replicators;
        log_dirs = delete id stopped.log_dirs;
      }
      else stopped

  unfoldable pub stop_replicator : ℕ → Server Db → Server Db
  unfolding stop
  stop_replicator id s = elim (lookup id s.replicators) [
    | none ↦ s
    | some clr ↦ record s {
      replicators = delete id s.replicators;
      log_dirs = insert id (stop clr) s.log_dirs;
    }
  ]

  -- the body of the loop over the routes
  unfoldable pub take_route : (ℕ → Bool) → ℕ → Bytes → PartitionInfo → Server Db → Server Db
  unfolding names has_partition add_partition_with_epoch initialize_replicator
      update_partition_epoch
  take_route opens now my_addr p s =
      let is_primary = bytes_eq p.primary my_addr in
      let (added, e) = add_partition_with_epoch p.id is_primary p.epoch s.partition_manager in
      if not (names my_addr p)
      then s
      else if has_partition p.id s.partition_manager
      then record s {
        partition_manager = (update_partition_epoch p.id p.epoch s.partition_manager).0;
      }
      else elim e as (λ _. Server Db) [
        | some x ↦ s
        | none ↦
            initialize_replicator (opens p.id) now p.id is_primary
              (if is_primary then p.replica else []) (record s { partition_manager = added })
      ]

  unfoldable pub take_routes : (ℕ → Bool) → ℕ → Bytes → List PartitionInfo → Server Db → Server Db
  unfolding take_route
  take_routes opens now my_addr [] s = s
  take_routes opens now my_addr (p ∷ ps) s =
      take_routes opens now my_addr ps (take_route opens now my_addr p s)

  -- the loop over the partitions that the node hosts
  unfoldable pub remove_lost : (ℕ → Bool) → List ℕ → Server Db → Server Db
  unfolding stop_replicator remove_partition
  remove_lost exists [] s = s
  remove_lost exists (id ∷ ids) s =
      let stopped = stop_replicator id s in
      let removed = (remove_partition id stopped.partition_manager).0 in
      remove_lost exists ids
        (if exists id then s else record stopped { partition_manager = removed })

  unfoldable pub update_partitions_from_route :
      (ℕ → Bool) → ℕ → Bytes → List PartitionInfo → Server Db → Server Db
  unfolding take_routes remove_lost should_exist list_partitions
  update_partitions_from_route opens now my_addr table s =
      let taken = take_routes opens now my_addr table s in
      remove_lost (should_exist my_addr table) (list_partitions taken.partition_manager) taken
