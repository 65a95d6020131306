-- ===== src/Server/Agreement.antt =====
-- A replica that receives what the primary appended to its log for a write ends with the same data.
use rockskv.Server.Commands.{
  request_ops, CommandWrites, CommandsWrite, command_entry, command_entries, FitsRequest,
  request-CommandsWrite, FitsCommand, append_all-IsLogOf,
}
use rockskv.Prelude.{
  ok, All, ℕ, suc, ◌+◌, ◌%◌, ◌^◌, ◌<◌, ◌≡◌, refl, sym, ap, ◌∙◌, Bool, true, none, some, List, [],
  ◌∷◌, ◌++◌, map, arith,
}
use rockskv.Prelude.Dict.{lookup}
use rockskv.Bytes.{Bytes}
use rockskv.Rocks.{WriteOp, put_ops, last_write, written, RocksDb, IsStore}
use rockskv.Rocks.LastWrite.{
  IsWritten, same-IsWritten, nothing-IsWritten, append-IsWritten, put-IsWritten, delete-IsWritten,
}
use rockskv.Keys.{make_partition_key, make_field_key}
use rockskv.Fields.{decode_field_batch}
use rockskv.Fields.Storage.{update_ops, delete_field, apply_field_batch}
use rockskv.Routes.{PartitionStatus}
use rockskv.Partitions.{Partition, PartitionManager, has_partition}
use rockskv.Partitions.Data.{delete as delete_data, storage_items, put, batch_put}
use rockskv.CommandLog.{CommandEntry}
use rockskv.CommandLog.Log.Writes.{IsLogOf}
use rockskv.CommandLog.Log.{new_entry}
use rockskv.CommandLog.Log.Replay.{batch_partition}
use rockskv.Replication.{
  CommandLogReplicator, Tick, Command, ReplicationEntry, replication_entry, ReplicateResponse,
  put_command, delete_command, field_batch_command,
}
use rockskv.Server.{
  Server, WriteKind, WriteRequest, fields_batch, request_commands, append_all, write_data,
  handle_write, put_request, delete_request, set_fields_request, delete_field_request,
  batch_put_request,
}
use rockskv.Server.Writes.{accepted_write, enqueue_at}
use rockskv.Server.Replicate.{apply_entry, apply_entries, replicate}

module _ {Db : Type 0} (rocks : RocksDb Db) (laws : IsStore Db rocks) (id : ℕ) where
  -- the data of a successful write
  written_data : WriteKind → Db → Db
  written_data (put_request key value) d = rocks.put (make_partition_key id key) value d
  written_data (delete_request key) d = rocks.delete (make_partition_key id key) d
  written_data (set_fields_request pk updates) d = rocks.write (update_ops id pk updates) d
  written_data (delete_field_request pk name) d = rocks.delete (make_field_key id pk name) d
  written_data (batch_put_request items) d = rocks.write (put_ops (storage_items id items)) d

  written_data-IsWritten :
      (d : Db) (kind : WriteKind) → IsWritten rocks (request_ops id kind) d (written_data kind d)
  unfolding written_data
  written_data-IsWritten d (put_request key value) = put-IsWritten rocks laws _ value d
  written_data-IsWritten d (delete_request key) = delete-IsWritten rocks laws _ d
  written_data-IsWritten d (set_fields_request pk updates) = λ j. laws.get_write _ j d
  written_data-IsWritten d (delete_field_request pk name) = delete-IsWritten rocks laws _ d
  written_data-IsWritten d (batch_put_request items) = λ j. laws.get_write _ j d

  write_data_done :
      (succeeds : Bool) (pm : PartitionManager) (d : Db) (kind : WriteKind)
      → (write_data rocks succeeds id kind pm d).1 ≡ true
      → (write_data rocks succeeds id kind pm d).0 ≡ written_data kind d
  unfolding write_data put batch_put delete_data apply_field_batch delete_field written_data
      fields_batch
  write_data_done succeeds pm d (put_request key value) h = ground arith
  write_data_done succeeds pm d (delete_request key) h = ground arith
  write_data_done succeeds pm d (set_fields_request pk updates) h = ground arith
  write_data_done succeeds pm d (delete_field_request pk name) h = ground arith
  write_data_done succeeds pm d (batch_put_request items) h = ground arith

  write_data-IsWritten :
      (succeeds : Bool) (pm : PartitionManager) (d : Db) (kind : WriteKind)
      → (write_data rocks succeeds id kind pm d).1 ≡ true
      → IsWritten rocks (request_ops id kind) d (write_data rocks succeeds id kind pm d).0
  write_data-IsWritten succeeds pm d kind h j =
      ap (rocks.get j) (write_data_done succeeds pm d kind h) ∙ written_data-IsWritten d kind j

module _ {Db : Type 0} (rocks : RocksDb Db) (laws : IsStore Db rocks) (id : ℕ)
    (pm : PartitionManager) (p : Partition) (hosted : lookup id pm.partitions ≡ some p)
    (serving : p.status ≡ PartitionStatus.normal) where
  put_hosted :
      (key value : Bytes) (d : Db)
      → put rocks true key value id pm d ≡ (rocks.put (make_partition_key id key) value d, none)
  unfolding put
  put_hosted key value d = ground arith

  delete_hosted :
      (key : Bytes) (d : Db)
      → delete_data rocks true key id pm d ≡ (rocks.delete (make_partition_key id key) d, none)
  unfolding delete_data
  delete_hosted key d = ground arith

  apply_entry_lem :
      (c : Command) (ops : List WriteOp) (seq now : ℕ) (d : Db)
      → CommandWrites id c ops
      → (after : Db) × (apply_entry rocks true id (replication_entry (command_entry c seq now)) pm d
          ≡ ok after)
        × IsWritten rocks ops d after
  unfolding apply_entry replication_entry new_entry apply_field_batch decode_field_batch
  apply_entry_lem (put_command key value) ops seq now d h = (
    rocks.put (make_partition_key id key) value d,
    rw (put_hosted key value d) refl,
    same-IsWritten rocks _ ops d _ (sym h) (put-IsWritten rocks laws _ value d),
  )
  apply_entry_lem (delete_command key) ops seq now d h = (
    rocks.delete (make_partition_key id key) d,
    rw (delete_hosted key d) refl,
    same-IsWritten rocks _ ops d _ (sym h) (delete-IsWritten rocks laws _ d),
  )
  apply_entry_lem (field_batch_command batch) ops seq now d (fb, decodes, h) = (
    rocks.write (update_ops (batch_partition id fb) fb.primary_key fb.updates) d,
    rw decodes refl,
    same-IsWritten rocks _ ops d _ (sym h) (λ j. laws.get_write _ j d),
  )

  apply_next :
      (e : ReplicationEntry) (es : List ReplicationEntry) (last : ℕ) (d after : Db)
      → apply_entry rocks true id e pm d ≡ ok after
      → apply_entries rocks (λ _. true) id (e ∷ es) pm last d
        ≡ apply_entries rocks (λ _. true) id es pm e.offset after
  unfolding apply_entries
  apply_next e es last d after h = rw (h, apply_entries) refl

  apply_entries_lem :
      (cs : List Command) (ops : List WriteOp) (ticks : ℕ → Tick) (n seq last : ℕ) (d : Db)
      → CommandsWrite id cs ops
      → let sent = map replication_entry (command_entries cs ticks n seq) in
        let applied = apply_entries rocks (λ _. true) id sent pm last d in
        (applied.1.success ≡ true) × IsWritten rocks ops d applied.0
  unfolding apply_entries
  apply_entries_lem [] ops ticks n seq last d h =
      (refl, same-IsWritten rocks [] ops d d (sym h) (nothing-IsWritten rocks d))
  apply_entries_lem (c ∷ cs) ops ticks n seq last d (xs, ys, now, later, whole) =
      let next = (seq + 1) % 2 ^ 64 in
      let e = replication_entry (command_entry c next (ticks n).now) in
      let (after, same, reads) = apply_entry_lem c xs next (ticks n).now d now in
      let (done, reads2) = apply_entries_lem cs ys ticks (suc n) next e.offset after later in
      rw
        (apply_next e (map replication_entry (command_entries cs ticks (suc n) next)) last d after
          same)
        (
          done,
          same-IsWritten rocks (xs ++ ys) ops d _ (sym whole)
              (append-IsWritten rocks xs ys d after _ reads reads2),
        )

replicate_hosted :
    {Db : Type 0} (rocks : RocksDb Db) (id : ℕ) (entries : List ReplicationEntry) (t : Server Db)
    (p : Partition)
    → lookup id t.partition_manager.partitions ≡ some p
    → let applied = apply_entries rocks (λ _. true) id entries t.partition_manager 0 t.db in
      let replica = replicate rocks (λ _. true) id entries t in
      (replica.1 ≡ applied.1) × (replica.0.db ≡ applied.0)
unfolding replicate has_partition
replicate_hosted rocks id entries t p h = ground arith

-- What the primary adds to its log for an accepted write, sent as one batch to a replica whose data
-- read the same before, makes them read the same again, and the replica reports success: for a put,
-- a delete, field updates, a field deletion and a batch put. The replica hosts the partition with
-- status NORMAL and its database accepts every write; the primary's replicator of the partition has
-- an open log that holds given entries; the clocks and the parts of the request fit their widths;
-- both databases have the laws of a store.
pub replicate-handle_write :
    {Db Db2 : Type 0} (rocks : RocksDb Db) (laws : IsStore Db rocks) (rocks2 : RocksDb Db2)
    (laws2 : IsStore Db2 rocks2) (succeeds : Bool) (ticks : ℕ → Tick) (r : WriteRequest)
    (s : Server Db) (clr : CommandLogReplicator) (es : List CommandEntry) (t : Server Db2)
    (p : Partition)
    → (handle_write rocks succeeds ticks r s).1.success ≡ true
    → lookup r.partition_id s.replicators ≡ some clr
    → IsLogOf clr.command_log es
    → ((m : ℕ) → (ticks m).now < 2 ^ 64)
    → FitsRequest r.partition_id r.kind
    → All FitsCommand (request_commands r.partition_id r.kind)
    → lookup r.partition_id t.partition_manager.partitions ≡ some p
    → p.status ≡ PartitionStatus.normal
    → ((j : Bytes) → rocks2.get j t.db ≡ rocks.get j s.db)
    → let primary = (handle_write rocks succeeds ticks r s).0 in
      (added : List CommandEntry) × (grown : CommandLogReplicator) × (lookup r.partition_id
          primary.replicators
        ≡ some grown)
      × IsLogOf grown.command_log (es ++ added)
      × (let replica =
            replicate rocks2 (λ _. true) r.partition_id (map replication_entry added) t in
          (replica.1.success ≡ true)
          × ((j : Bytes) → rocks2.get j replica.0.db ≡ rocks.get j primary.db))
replicate-handle_write {Db = Db} rocks laws rocks2 laws2 succeeds ticks r s clr es t p ok_ has log
      ht fits fitc hosted serving agree =
    let id = r.partition_id in
    let cs = request_commands id r.kind in
    let ops = request_ops id r.kind in
    let (done, same) = accepted_write rocks succeeds ticks r s ok_ in
    let wrote = write_data-IsWritten rocks laws id succeeds s.partition_manager s.db r.kind done in
    let after = (write_data rocks succeeds id r.kind s.partition_manager s.db).0 in
    let (kept, appended) = enqueue_at id cs ticks (record s { db = after }) clr has in
    let added = command_entries cs ticks 0 clr.command_log.current_seq in
    let (good, reads) =
      apply_entries_lem rocks2 laws2 id t.partition_manager p hosted serving cs ops ticks 0
        clr.command_log.current_seq 0 t.db (request-CommandsWrite id r.kind fits) in
    let (answered, stored) = replicate_hosted rocks2 id (map replication_entry added) t p hosted in
    (
      added,
      append_all cs ticks 0 clr,
      ap (λ (u : Server Db). lookup id u.replicators) same ∙ appended,
      append_all-IsLogOf cs ticks 0 clr es ht fitc log,
      (
        ap (λ (a : ReplicateResponse). a.success) answered ∙ good,
        λ j.
            ap (rocks2.get j) stored
            ∙ reads j
            ∙ ap (λ b. written b (last_write j ops)) (agree j)
            ∙ sym (wrote j)
            ∙ ap (rocks.get j) (sym kept)
            ∙ ap (λ (u : Server Db). rocks.get j u.db) (sym same),
      ),
    )
