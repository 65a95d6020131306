-- ===== src/Routes/Types.antt =====
-- The types of pkg/metadata/store.go, and what etcd holds of them.
use rockskv.Prelude.{ℕ, Bool, Option, List, []}
use rockskv.Prelude.Dict.{Dict}
use rockskv.Bytes.{Bytes}

pub data ClusterState : Type 0 where
  pending initializing running : ClusterState

pub data NodeStatus : Type 0 where
  online offline draining removed : NodeStatus

pub data PartitionStatus : Type 0 where
  normal migrating_out migrating_in offline : PartitionStatus

-- pb.MigrationState
pub data MigrationState : Type 0 where
  migration_none migration_preparing migration_copying migration_catchup : MigrationState
  migration_switching migration_complete migration_failed : MigrationState

pub record NodeInfo : Type 0 where
  pub id : Bytes
  pub addr : Bytes
  pub status : NodeStatus

pub record PartitionInfo : Type 0 where
  pub id : ℕ
  pub primary : Bytes
  pub replica : Bytes
  pub status : PartitionStatus
  pub migration_target : Bytes
  pub migration_state : MigrationState
  pub epoch : ℕ

pub record RouteTable : Type 0 where
  pub version : ℕ
  pub partitions : Dict PartitionInfo

unfoldable pub new_route_table : RouteTable
new_route_table = record { version = 1; partitions = [] }

pub record MigrationInfo : Type 0 where
  pub partition_id : ℕ
  pub target : Bytes
  pub state : MigrationState
  pub is_primary_move : Bool

-- The keys of etcd that the program uses. `storage_nodes` are the registered nodes with the storage
-- role, `other_nodes` those with another one.
pub record Etcd : Type 0 where
  pub cluster_state : ClusterState
  pub storage_nodes : List NodeInfo
  pub other_nodes : List NodeInfo
  pub route_table : Option RouteTable
  pub migrations : Dict MigrationInfo
