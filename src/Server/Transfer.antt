-- ===== src/Server/Transfer.antt =====
-- `ExportSST` and `IngestSST` of pkg/storage/server.go, which move the data of a partition between
-- nodes. RocksDB's files of sorted entries are a parameter: `write_file` is what its writer makes
-- of the entries, `ingest_file` what ingesting a file does to a database, `none` for an error.
use rockskv.Prelude.{
  ltb, ◌==◌, if◌then◌else◌, length, take, drop, ℕ, zero, suc, ◌*◌, ◌≡◌, Bool, true, false, not,
  ◌&&◌, Option, none, some, List, [], ◌∷◌, ◌++◌,
}
use rockskv.Bytes.{Bytes}
use rockskv.Rocks.{KeyValueItem, put_ops, RocksDb}
use rockskv.Rocks.LastWrite.{IsWritten}
use rockskv.Keys.{get_partition_range}
use rockskv.Partitions.{add_partition, has_partition, set_partition_status}
use rockskv.Routes.{migrating_out}
use rockskv.Server.{Server}

pub record SstFiles (Db : Type 0) : Type 0 where
  pub write_file : List KeyValueItem → Bytes
  pub ingest_file : Bytes → Db → Option Db

-- A file has at least its footer, and ingesting it is as good as writing its entries.
pub record IsSst (Db : Type 0) (rocks : RocksDb Db) (sst : SstFiles Db) : Type 0 where
  pub nonempty : (items : List KeyValueItem) → (length (sst.write_file items) == 0) ≡ false
  pub ingest_write :
      (items : List KeyValueItem) (d : Db)
      → (after : Db) × (sst.ingest_file (sst.write_file items) d ≡ some after)
        × IsWritten rocks (put_ops items) d after

-- `SSTChunk` of the protocol, without the file's name
pub record SstChunk : Type 0 where
  pub content : Bytes
  pub is_last : Bool
  pub partition_id : ℕ

abbrev pub chunk_size : ℕ
chunk_size = 64 * 1024

-- the result of `compareBytes`
pub data Comparison : Type 0 where
  less equal greater : Comparison

unfoldable pub compare_bytes : Bytes → Bytes → Comparison
compare_bytes [] [] = equal
compare_bytes [] (b ∷ bs) = less
compare_bytes (a ∷ xs) [] = greater
compare_bytes (a ∷ xs) (b ∷ bs) =
    let rest = compare_bytes xs bs in if ltb a b then less else if ltb b a then greater else rest

-- the loop of the export: up to the first key that is not below the end
unfoldable pub take_range : Bytes → List KeyValueItem → List KeyValueItem
unfolding compare_bytes
take_range end [] = []
take_range end ((key, value) ∷ es) =
    let rest = take_range end es in
    elim (compare_bytes key end) [ less ↦ (key, value) ∷ rest | equal ↦ [] | greater ↦ [] ]

-- the loop that reads the file; the fuel bounds the number of chunks
unfoldable pub split_chunks : ℕ → Bytes → List SstChunk
split_chunks zero file = []
split_chunks (suc fuel) [] = []
split_chunks (suc fuel) (b ∷ file) =
    record { content = take chunk_size (b ∷ file); is_last = false; partition_id = 0 }
    ∷ split_chunks fuel (drop chunk_size (b ∷ file))

unfoldable pub last_chunk : ℕ → SstChunk
last_chunk id = record { content = []; is_last = true; partition_id = id }

unfoldable pub file_chunks : Bytes → List SstChunk
unfolding split_chunks last_chunk
file_chunks file = split_chunks (length file) file ++ (last_chunk 0 ∷ [])

module _ {Db : Type 0} (rocks : RocksDb Db) (sst : SstFiles Db) where
  -- `written` is whether the calls that make the file succeed; the chunks that are sent, or an
  -- error before the first of them
  unfoldable pub export_sst : Bool → ℕ → Server Db → Server Db × Option (List SstChunk)
  unfolding has_partition set_partition_status take_range file_chunks last_chunk
  export_sst written_ id s =
      let (start, end) = get_partition_range id in
      let items = take_range end (rocks.entries_from start s.db) in
      let marked = record s {
        partition_manager = (set_partition_status id migrating_out s.partition_manager).0;
      } in
      if not (has_partition id s.partition_manager)
      then (s, none)
      else if not written_
      then (marked, none)
      else (
        marked,
        some (elim items as (λ _. List SstChunk) [
          | [] ↦ last_chunk id ∷ []
          | i ∷ more ↦ file_chunks (sst.write_file (i ∷ more))
        ]),
      )

  -- behind the loop: a file that was not begun is no error
  unfoldable pub ingest_received : Bytes → Server Db → Server Db × Bool
  ingest_received file s =
      if length file == 0 then (s, true) else elim (sst.ingest_file file s.db) [
        | none ↦ (s, false)
        | some d ↦ (record s { db = d }, true)
      ]

  -- an empty partition is hosted as a replica, without an epoch; the id 0 counts as none
  unfoldable pub ingest_empty : ℕ → Server Db → Server Db
  unfolding add_partition
  ingest_empty id s =
      if id == 0
      then s
      else record s { partition_manager = (add_partition id false s.partition_manager).0 }

  -- the loop over what the stream brings until it ends without an error; `file` is what was
  -- written so far, and the answer whether the call succeeds
  unfoldable pub ingest_sst : List SstChunk → ℕ → Bytes → Server Db → Server Db × Bool
  unfolding ingest_received ingest_empty
  ingest_sst [] id file s = ingest_received file s
  ingest_sst (c ∷ cs) id file s =
      let known = if id == 0 then c.partition_id else id in
      let grown = file ++ c.content in
      let rest = ingest_sst cs known grown s in
      if c.is_last && (length grown == 0)
      then (ingest_empty known s, true)
      else if c.is_last
      then ingest_received grown s
      else rest
