-- ===== src/Compute.antt =====
-- The router of a compute node, pkg/compute/router.go. Its route table is replaced as a whole, so a
-- method that reads it sees one table. The hash of the xxhash library is the parameter `sum64`. The
-- handlers of the requests are in Compute/Handlers.
pub mod Follow
pub mod Pool
pub mod Handlers
pub mod NodeReads
pub mod Reads
pub mod Tests
use rockskv.Prelude.{
  leb, ◌==◌, if◌then◌else◌, length, ℕ, ◌%◌, Bool, true, false, not, ◌&&◌, Option, none, some, List,
  [], ◌∷◌,
}
use rockskv.Prelude.Dict.{Dict, lookup, insert}
use rockskv.Bytes.{Bytes, bytes_eq}
use rockskv.Routes.{
  MigrationState, PartitionInfo, RouteTable, migration_none, migration_copying, migration_catchup,
  migration_complete,
}
use rockskv.Routes.Init.{total_partitions}
use rockskv.Metadata.{RouteUpdate}

pub record Router : Type 0 where
  pub route_table : RouteTable

unfoldable pub new_router : Router
new_router = record { route_table = record { version = 0; partitions = [] } }

unfoldable pub calculate_partition : (Bytes → ℕ) → Bytes → ℕ
unfolding total_partitions
calculate_partition sum64 key = sum64 key % total_partitions

-- the primary, the replica and the epoch; `none` is the error
unfoldable pub get_partition_nodes_by_id : ℕ → Router → Option (Bytes × (Bytes × ℕ))
get_partition_nodes_by_id id r = elim (lookup id r.route_table.partitions) [
  | none ↦ none
  | some p ↦ some (p.primary, (p.replica, p.epoch))
]

unfoldable pub get_partition_nodes : (Bytes → ℕ) → Bytes → Router → Option (Bytes × (Bytes × ℕ))
unfolding calculate_partition get_partition_nodes_by_id
get_partition_nodes sum64 key r = get_partition_nodes_by_id (calculate_partition sum64 key) r

abbrev pub is_moving : MigrationState → Bool
is_moving migration_copying = true
is_moving migration_catchup = true
is_moving _ = false

-- the migration target, unless it is empty or has the partition already
unfoldable pub shadow_targets : PartitionInfo → List Bytes
shadow_targets p =
    if is_moving p.migration_state
      && (not (bytes_eq p.migration_target [])
          && (not (bytes_eq p.migration_target p.primary)
              && not (bytes_eq p.migration_target p.replica)))
    then p.migration_target ∷ []
    else []

unfoldable pub get_write_targets_by_id : ℕ → Router → Option (List Bytes × ℕ)
unfolding shadow_targets
get_write_targets_by_id id r = elim (lookup id r.route_table.partitions) [
  | none ↦ none
  | some p ↦ some (p.primary ∷ p.replica ∷ shadow_targets p, p.epoch)
]

unfoldable pub get_write_targets : (Bytes → ℕ) → Bytes → Router → Option (List Bytes × ℕ)
unfolding calculate_partition get_write_targets_by_id
get_write_targets sum64 key r = get_write_targets_by_id (calculate_partition sum64 key) r

abbrev pub is_done : MigrationState → Bool
is_done migration_none = true
is_done migration_complete = true
is_done _ = false

unfoldable pub is_migrating : ℕ → Router → Bool
is_migrating id r = elim (lookup id r.route_table.partitions) [
  | none ↦ false
  | some p ↦ not (is_done p.migration_state)
]

-- the loop over the entries of an update
unfoldable pub enter : List PartitionInfo → Dict PartitionInfo → Dict PartitionInfo
enter [] m = m
enter (p ∷ ps) m = enter ps (insert p.id p m)

-- `updateRouteTable`: whatever the version is
unfoldable pub update_route_table : RouteUpdate → Router → Router
unfolding enter
update_route_table u r = record r {
  route_table = record { version = u.version; partitions = enter u.partitions [] };
}

-- `updateRouteTableFromUpdate`: the entries that the update does not name stay
unfoldable pub update_route_table_from_update : RouteUpdate → Router → Router
unfolding enter
update_route_table_from_update u r = if leb u.version r.route_table.version then r else record r {
  route_table = record {
    version = u.version;
    partitions = enter u.partitions r.route_table.partitions;
  };
}

-- `refreshRouteTable` after the answer has come, `none` for an error of the call
unfoldable pub finish_refresh : Option RouteUpdate → Router → Router
unfolding update_route_table
finish_refresh none r = r
finish_refresh (some u) r = if length u.partitions == 0 then r else update_route_table u r

-- a refresh that nothing else comes between; `answer` is the call with the version of the table
unfoldable pub refresh_route_table : (ℕ → Option RouteUpdate) → Router → Router
unfolding finish_refresh
refresh_route_table answer r = finish_refresh (answer r.route_table.version) r
