-- ===== src/Partitions/Transfer.antt =====
-- Exporting, importing and clearing the data of a partition (pkg/storage/partition.go). The JSON
-- form of the data is encoding/json's: the code is modelled up to it, as a record.
use rockskv.Prelude.{
  leb, ◌==◌, if◌then◌else◌, ok, err, panic, length, take, ℕ, Bool, true, false, not, Option, none,
  some, List, [], ◌∷◌,
}
use rockskv.Prelude.Dict.{insert}
use rockskv.Bytes.{Bytes, bytes_lt}
use rockskv.Rocks.{KeyValueItem, put_ops, RocksDb}
use rockskv.Keys.{parse_partition_key, get_partition_range}
use rockskv.Fields.{set_name}
use rockskv.Partitions.{PartitionManager, has_partition}
use rockskv.Partitions.Data.{storage_items}
use rockskv.Routes.{migrating_in}

-- `PartitionData`; the map has no key twice
pub record PartitionData : Type 0 where
  pub partition_id : ℕ
  pub key_values : List KeyValueItem

-- whether a scan of the range goes on at a key
unfoldable pub before_end : Bytes → Bytes → Bool
before_end end key =
    if leb (length end) (length key) then bytes_lt (take (length end) key) end else true

-- the entries of a scan
unfoldable pub scan_range : Bytes → List KeyValueItem → List KeyValueItem
unfolding before_end
scan_range end [] = []
scan_range end ((key, value) ∷ es) =
    let rest = scan_range end es in if before_end end key then (key, value) ∷ rest else []

-- the body of the export's loop, over the map so far
unfoldable pub export_entries : ℕ → List KeyValueItem → List KeyValueItem → List KeyValueItem
unfolding set_name
export_entries id [] data' = data'
export_entries id ((key, value) ∷ es) data' = elim (parse_partition_key key) [
  | err e ↦ export_entries id es data'
  | panic ↦ export_entries id es data'
  | ok (found, original) ↦
      export_entries id es (if found == id then set_name original value data' else data')
]

module _ {Db : Type 0} (rocks : RocksDb Db) where
  unfoldable pub export_partition_data : ℕ → PartitionManager → Db → Option PartitionData
  unfolding has_partition scan_range export_entries
  export_partition_data id pm d =
      let (start, end) = get_partition_range id in
      let entries = scan_range end (rocks.entries_from start d) in
      if has_partition id pm
      then some (record { partition_id = id; key_values = export_entries id entries [] })
      else none

  -- `data'` is what the JSON text holds, `none` where it does not parse; the partition is added
  -- before it is read
  unfoldable pub import_partition_data :
      Bool → ℕ → Option PartitionData → PartitionManager → Db → (PartitionManager × Db) × Option ℕ
  unfolding storage_items put_ops has_partition
  import_partition_data succeeds id data' pm d =
      let hosted = if has_partition id pm then pm else record pm {
        partitions =
            insert id (record { id = id; status = migrating_in; is_prime = false; epoch = 0 })
              pm.partitions;
      } in
      elim data' as (λ _. (PartitionManager × Db) × Option ℕ) [
        | none ↦ ((hosted, d), none)
        | some content ↦
            let items = storage_items id content.key_values in
            if not (content.partition_id == id)
            then ((hosted, d), none)
            else if length items == 0
            then ((hosted, d), some 0)
            else if succeeds
            then ((hosted, rocks.write (put_ops items) d), some (length items))
            else ((hosted, d), none)
      ]

  -- the deletions; the first that fails ends them
  unfoldable pub delete_keys : (Bytes → Bool) → List KeyValueItem → Db → Db × Bool
  delete_keys succeeds [] d = (d, true)
  delete_keys succeeds ((key, value) ∷ es) d =
      let rest = delete_keys succeeds es (rocks.delete key d) in
      if succeeds key then rest else (d, false)

  unfoldable pub clear_partition_data : (Bytes → Bool) → ℕ → Db → Db × Bool
  unfolding scan_range delete_keys
  clear_partition_data succeeds id d =
      let (start, end) = get_partition_range id in
      delete_keys succeeds (scan_range end (rocks.entries_from start d)) d
