-- ===== src/Partitions/Data.antt =====
-- Reads and writes of a partition's data, over the database of Rocks.
use rockskv.Prelude.{
  if◌then◌else◌, Outcome, ok, err, ℕ, Bool, true, false, not, Option, none, some, List, [], ◌∷◌,
}
use rockskv.Prelude.Dict.{lookup}
use rockskv.Bytes.{Bytes}
use rockskv.Rocks.{KeyValueItem, put_ops, RocksDb}
use rockskv.Keys.{make_partition_key}
use rockskv.Routes.{PartitionStatus, migrating_in}
use rockskv.Partitions.{
  PartitionManager, ManagerError, has_partition, not_found, not_writable, db_failed,
}

abbrev is_normal : PartitionStatus → Bool
is_normal PartitionStatus.normal = true
is_normal _ = false

-- NORMAL or MIGRATING_IN
unfoldable pub is_writable : PartitionStatus → Bool
is_writable PartitionStatus.normal = true
is_writable migrating_in = true
is_writable _ = false

unfoldable pub storage_items : ℕ → List KeyValueItem → List KeyValueItem
storage_items id [] = []
storage_items id ((key, value) ∷ items) =
    (make_partition_key id key, value) ∷ storage_items id items

module _ {Db : Type 0} (rocks : RocksDb Db) where
  unfoldable pub get :
      Bool → Bytes → ℕ → PartitionManager → Db → Outcome ManagerError (Option Bytes)
  unfolding has_partition
  get succeeds key id pm d =
      if not (has_partition id pm)
      then err not_found
      else if succeeds
      then ok (rocks.get (make_partition_key id key) d)
      else err db_failed

  unfoldable pub put : Bool → Bytes → Bytes → ℕ → PartitionManager → Db → Db × Option ManagerError
  unfolding is_writable
  put succeeds key value id pm d = elim (lookup id pm.partitions) [
    | none ↦ (d, some not_found)
    | some p ↦
        if not (is_writable p.status)
        then (d, some not_writable)
        else if succeeds
        then (rocks.put (make_partition_key id key) value d, none)
        else (d, some db_failed)
  ]

  unfoldable pub delete : Bool → Bytes → ℕ → PartitionManager → Db → Db × Option ManagerError
  delete succeeds key id pm d = elim (lookup id pm.partitions) [
    | none ↦ (d, some not_found)
    | some p ↦
        if not (is_normal p.status)
        then (d, some not_writable)
        else if succeeds
        then (rocks.delete (make_partition_key id key) d, none)
        else (d, some db_failed)
  ]

  unfoldable pub batch_put :
      Bool → List KeyValueItem → ℕ → PartitionManager → Db → Db × Option ManagerError
  unfolding is_writable storage_items
  batch_put succeeds items id pm d = elim (lookup id pm.partitions) [
    | none ↦ (d, some not_found)
    | some p ↦
        if not (is_writable p.status)
        then (d, some not_writable)
        else if succeeds
        then (rocks.write (put_ops (storage_items id items)) d, none)
        else (d, some db_failed)
  ]
