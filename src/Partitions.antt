-- ===== src/Partitions.antt =====
-- The partition manager of pkg/storage/partition.go: the partitions that a storage node hosts. The
-- operations on the data of a partition are in Partitions/Data. Locks, logging and gauges are left
-- out: each method is one step.
pub mod Updates
pub mod Data
pub mod Isolation
pub mod Batches
pub mod Transfer
pub mod Tests
use rockskv.Prelude.{
  ltb, ◌==◌, if◌then◌else◌, ℕ, Bool, true, false, ◌&&◌, ◌||◌, Option, none, some, List, [], ◌∷◌,
}
use rockskv.Prelude.Dict.{Dict, lookup, delete, insert, modify}
use rockskv.Bytes.{Bytes, bytes_eq}
use rockskv.Routes.{PartitionStatus, PartitionInfo, normal}

pub record Partition : Type 0 where
  pub id : ℕ
  pub status : PartitionStatus
  pub is_prime : Bool
  pub epoch : ℕ

pub record PartitionManager : Type 0 where
  pub node_id : Bytes
  pub partitions : Dict Partition

unfoldable pub new_partition_manager : Bytes → PartitionManager
new_partition_manager node_id = record { node_id = node_id; partitions = [] }

pub data ManagerError : Type 0 where
  already_exists not_found epoch_mismatch not_writable db_failed : ManagerError

unfoldable pub add_partition_with_epoch :
    ℕ → Bool → ℕ → PartitionManager → PartitionManager × Option ManagerError
add_partition_with_epoch id is_primary epoch pm =
    let added : Partition = record {
      id = id;
      status = PartitionStatus.normal;
      is_prime = is_primary;
      epoch = epoch;
    } in
    elim (lookup id pm.partitions) [
      | some p ↦ (pm, some already_exists)
      | none ↦ (record pm { partitions = insert id added pm.partitions }, none)
    ]

-- `AddPartition` leaves the epoch 0
unfoldable pub add_partition : ℕ → Bool → PartitionManager → PartitionManager × Option ManagerError
unfolding add_partition_with_epoch
add_partition id is_primary pm = add_partition_with_epoch id is_primary 0 pm

-- an epoch that is not newer is ignored
unfoldable pub update_partition_epoch :
    ℕ → ℕ → PartitionManager → PartitionManager × Option ManagerError
update_partition_epoch id epoch pm = elim (lookup id pm.partitions) [
  | none ↦ (pm, some not_found)
  | some p ↦
      if ltb p.epoch epoch
      then (
        record pm { partitions = modify id (λ q. record q { epoch = epoch }) pm.partitions },
        none,
      )
      else (pm, none)
]

unfoldable pub validate_epoch : ℕ → ℕ → PartitionManager → Option ManagerError
validate_epoch id request_epoch pm = elim (lookup id pm.partitions) [
  | none ↦ some not_found
  | some p ↦ if request_epoch == p.epoch then none else some epoch_mismatch
]

unfoldable pub remove_partition : ℕ → PartitionManager → PartitionManager × Option ManagerError
remove_partition id pm = elim (lookup id pm.partitions) [
  | none ↦ (pm, some not_found)
  | some p ↦ (record pm { partitions = delete id pm.partitions }, none)
]

unfoldable pub has_partition : ℕ → PartitionManager → Bool
has_partition id pm = elim (lookup id pm.partitions) [ none ↦ false | some p ↦ true ]

unfoldable pub is_primary : ℕ → PartitionManager → Bool
is_primary id pm = elim (lookup id pm.partitions) [ none ↦ false | some p ↦ p.is_prime ]

unfoldable pub set_partition_status :
    ℕ → PartitionStatus → PartitionManager → PartitionManager × Option ManagerError
set_partition_status id status pm = elim (lookup id pm.partitions) [
  | none ↦ (pm, some not_found)
  | some p ↦
      (record pm { partitions = modify id (λ q. record q { status = status }) pm.partitions }, none)
]

-- isPrimary || isReplica
unfoldable pub names : Bytes → PartitionInfo → Bool
names node p = bytes_eq p.primary node || bytes_eq p.replica node

-- the entry of a partition that the table gives to the node
unfoldable pub take_over : Bytes → PartitionInfo → Option Partition → Partition
take_over node p none = record {
  id = p.id;
  status = p.status;
  is_prime = bytes_eq p.primary node;
  epoch = 0;
}
take_over node p (some e) = record e { status = p.status; is_prime = bytes_eq p.primary node }

-- the loop over the table
unfoldable pub assign : Bytes → List PartitionInfo → Dict Partition → Dict Partition
unfolding names
assign node [] m = m
assign node (p ∷ ps) m =
    assign node ps (if names node p then insert p.id (take_over node p (lookup p.id m)) m else m)

unfoldable pub should_exist : Bytes → List PartitionInfo → ℕ → Bool
unfolding names
should_exist node [] k = false
should_exist node (p ∷ ps) k = (p.id == k && names node p) || should_exist node ps k

-- the loop that deletes
unfoldable pub keep : (ℕ → Bool) → Dict Partition → Dict Partition
keep f [] = []
keep f ((j, p) ∷ m) = let rest = keep f m in if f j then (j, p) ∷ rest else rest

-- the table is the list of entries that the metadata server sends
unfoldable pub update_from_route_table : List PartitionInfo → PartitionManager → PartitionManager
unfolding assign should_exist keep
update_from_route_table table pm = record pm {
  partitions = keep (should_exist pm.node_id table) (assign pm.node_id table pm.partitions);
}
