-- ===== src/Server/Transferred.antt =====
-- What the target of a transfer holds, for a whole stream and for one that breaks off at once.
use rockskv.Prelude.{
  ◌==◌, if◌then◌else◌, length, take, drop, take-append-drop, length-drop, ℕ, zero, suc, ◌≤◌, ◌≡◌,
  refl, ap, ◌∙◌, ◌↔◌, true, false, some, List, [], ◌∷◌, ◌++◌, append-nil, append_assoc, arith,
}
use rockskv.Bytes.{Bytes, bytes_lt}
use rockskv.Rocks.{KeyValueItem, put_ops, RocksDb}
use rockskv.Rocks.LastWrite.{IsWritten, nothing-IsWritten}
use rockskv.Keys.{get_partition_range}
use rockskv.Partitions.{has_partition}
use rockskv.Server.{Server}
use rockskv.Server.Transfer.{
  SstFiles, IsSst, SstChunk, chunk_size, compare_bytes, take_range, split_chunks, last_chunk,
  file_chunks, export_sst, ingest_received, ingest_empty, ingest_sst, less,
}

pub compare_bytes_lem : (xs ys : Bytes) → (compare_bytes xs ys ≡ less) ↔ (bytes_lt xs ys ≡ true)
unfolding compare_bytes bytes_lt
compare_bytes_lem [] [] = ground arith
compare_bytes_lem [] (y ∷ ys) = ground arith
compare_bytes_lem (x ∷ xs) [] = ground arith
compare_bytes_lem (x ∷ xs) (y ∷ ys) = ground (arith, compare_bytes_lem xs ys)

-- The entries of a list that are below a key.
abbrev pub below : Bytes → List KeyValueItem → List KeyValueItem
below end [] = []
below end (e ∷ es) = if bytes_lt e.0 end then e ∷ below end es else below end es

module _ {Db : Type 0} (rocks : RocksDb Db) (sst : SstFiles Db) where
  ingest-data_chunk :
      (bytes : Bytes) (more : List SstChunk) (id : ℕ) (file : Bytes) (s : Server Db)
      → ingest_sst rocks sst
          (record { content = bytes; is_last = false; partition_id = 0 } ∷ more)
          id
          file
          s
        ≡ ingest_sst rocks sst more id (file ++ bytes) s
  unfolding ingest_sst
  ingest-data_chunk bytes more id file s =
      ap (λ (k : ℕ). ingest_sst rocks sst more k (file ++ bytes) s) (same id)
    where
      same : (k : ℕ) → (if k == 0 then 0 else k) ≡ k
      same k = ground arith

  ingest-split_chunks :
      (fuel : ℕ) (bytes : Bytes) (more : List SstChunk) (id : ℕ) (file : Bytes) (s : Server Db)
      → length bytes ≤ fuel
      → ingest_sst rocks sst (split_chunks fuel bytes ++ more) id file s
        ≡ ingest_sst rocks sst more id (file ++ bytes) s
  unfolding split_chunks
  ingest-split_chunks zero [] more id file s h = rw append-nil refl
  ingest-split_chunks zero (b ∷ bytes) more id file s h = absurd (omega arith)
  ingest-split_chunks (suc fuel) [] more id file s h = rw append-nil refl
  ingest-split_chunks (suc fuel) (b ∷ bytes) more id file s h =
      ingest-data_chunk (take chunk_size (b ∷ bytes)) _ id file s
      ∙ ingest-split_chunks fuel (drop chunk_size (b ∷ bytes)) more id _ s
          (omega (arith, length-drop chunk_size (b ∷ bytes)))
      ∙ ap (λ l. ingest_sst rocks sst more id l s)
          (append_assoc file (take chunk_size (b ∷ bytes)) (drop chunk_size (b ∷ bytes))
            ∙ ap (λ l. file ++ l) (take-append-drop chunk_size (b ∷ bytes)))

  ingest-file_chunks :
      (file : Bytes) (s : Server Db)
      → (length file == 0) ≡ false
      → ingest_sst rocks sst (file_chunks file) 0 [] s ≡ ingest_received rocks sst file s
  unfolding file_chunks last_chunk
  ingest-file_chunks file s h =
      ingest-split_chunks (length file) file (last_chunk 0 ∷ []) 0 [] s (omega arith)
      ∙ (unfold ingest_sst last_chunk in rw (append-nil, h) refl)

-- the entries that an export finds
abbrev pub exported_items : {Db : Type 0} → RocksDb Db → ℕ → Db → List KeyValueItem
exported_items rocks id d =
    take_range (get_partition_range id).1 (rocks.entries_from (get_partition_range id).0 d)

export_hosted :
    {Db : Type 0} (rocks : RocksDb Db) (sst : SstFiles Db) (id : ℕ) (s : Server Db)
    → has_partition id s.partition_manager ≡ true
    → (export_sst rocks sst true id s).1
      ≡ some (elim (exported_items rocks id s.db) as (λ _. List SstChunk) [
        | [] ↦ last_chunk id ∷ []
        | i ∷ more ↦ file_chunks (sst.write_file (i ∷ more))
      ])
unfolding export_sst
export_hosted rocks sst id s h = rw h refl

module _ {Db : Type 0} (rocks : RocksDb Db) (sst : SstFiles Db) (laws : IsSst Db rocks sst)
    (t : Server Db) where
  received-IsWritten :
      (items : List KeyValueItem)
      → let after = ingest_received rocks sst (sst.write_file items) t in
        (after.1 ≡ true) × IsWritten rocks (put_ops items) t.db after.0.db
  unfolding ingest_received
  received-IsWritten items =
      let (d, same, wrote) = laws.ingest_write items t.db in
      rw (laws.nonempty items, same) (refl, wrote)

  db-ingest_empty : (id : ℕ) → (ingest_empty rocks sst id t).db ≡ t.db
  unfolding ingest_empty
  db-ingest_empty id = ground arith

  ingest-chunks :
      (id : ℕ) (items : List KeyValueItem)
      → let chunks = elim items as (λ _. List SstChunk) [
        | [] ↦ last_chunk id ∷ []
        | i ∷ more ↦ file_chunks (sst.write_file (i ∷ more))
      ] in
        let after = ingest_sst rocks sst chunks 0 [] t in
        (after.1 ≡ true) × IsWritten rocks (put_ops items) t.db after.0.db
  unfolding ingest_sst last_chunk put_ops
  ingest-chunks id [] =
      (refl, λ j. ap (rocks.get j) (db-ingest_empty id) ∙ nothing-IsWritten rocks t.db j)
  ingest-chunks id (i ∷ more) =
      rw (ingest-file_chunks rocks sst (sst.write_file (i ∷ more)) t (laws.nonempty (i ∷ more)))
        (received-IsWritten (i ∷ more))

-- Where a node hosts a partition and its export succeeds, a node that receives the chunks, all of
-- them, reports success, and its data read as after one batch of puts of the entries that the
-- export found in the range of the partition (over files with the laws of IsSst).
pub ingest_sst-export_sst :
    {Db : Type 0} (rocks : RocksDb Db) (sst : SstFiles Db) (laws : IsSst Db rocks sst) (id : ℕ)
    (s t : Server Db)
    → has_partition id s.partition_manager ≡ true
    → (chunks : List SstChunk) × ((export_sst rocks sst true id s).1 ≡ some chunks)
      × (let after = ingest_sst rocks sst chunks 0 [] t in
          (after.1 ≡ true)
          × IsWritten rocks (put_ops (exported_items rocks id s.db)) t.db after.0.db)
ingest_sst-export_sst rocks sst laws id s t h = (
  _,
  export_hosted rocks sst id s h,
  ingest-chunks rocks sst laws t id (exported_items rocks id s.db),
)
