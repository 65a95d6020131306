-- ===== src/Server/Writes.antt =====
-- When the server accepts a write, and what it leaves of the rest.
use rockskv.Prelude.{ℕ, ◌≡◌, ◌↔◌, Bool, true, false, none, some, List, arith}
use rockskv.Prelude.Dict.{lookup, lookup-insert}
use rockskv.Rocks.{RocksDb}
use rockskv.Partitions.{Partition, PartitionManager, validate_epoch, has_partition, is_primary}
use rockskv.Partitions.Data.{delete as delete_data, put, batch_put}
use rockskv.Replication.{CommandLogReplicator, Tick, Command}
use rockskv.Server.{
  Server, WriteKind, WriteRequest, request_commands, append_all, can_write, check_write, enqueue,
  write_data, handle_write, put_request, delete_request, set_fields_request, delete_field_request,
  batch_put_request,
}

-- The server may write to the partition, in the request's epoch.
abbrev pub IsFencedIn : {Db : Type 0} → ℕ → ℕ → Server Db → Type 0
IsFencedIn id epoch s =
    (can_write s ≡ true)
    × ((p : Partition) × (lookup id s.partition_manager.partitions ≡ some p)
        × (p.is_prime ≡ true)
        × (p.epoch ≡ epoch))

check_write_iff :
    {Db : Type 0} (id epoch : ℕ) (s : Server Db)
    → (check_write id epoch s ≡ none) ↔ IsFencedIn id epoch s
unfolding check_write has_partition is_primary validate_epoch
check_write_iff id epoch s = ground arith

module _ {Db : Type 0} (rocks : RocksDb Db) (succeeds : Bool) (id : ℕ) (pm : PartitionManager)
    (d : Db) where
  write_data_failed :
      (kind : WriteKind)
      → (write_data rocks succeeds id kind pm d).1 ≡ false
      → (write_data rocks succeeds id kind pm d).0 ≡ d
  unfolding write_data put batch_put delete_data
  write_data_failed (put_request key value) h = ground arith
  write_data_failed (delete_request key) h = ground arith
  write_data_failed (set_fields_request pk updates) h = ground arith
  write_data_failed (delete_field_request pk name) h = ground arith
  write_data_failed (batch_put_request items) h = ground arith

-- A put, delete, field update, field deletion or batch put is accepted exactly where the node holds
-- its lease, hosts the partition as its primary with the request's epoch, and the write to the data
-- succeeds; a request that is not accepted leaves the server's whole state as it was.
pub handle_write_iff :
    {Db : Type 0} (rocks : RocksDb Db) (succeeds : Bool) (ticks : ℕ → Tick) (r : WriteRequest)
    (s : Server Db)
    → let done = write_data rocks succeeds r.partition_id r.kind s.partition_manager s.db in
      let handled = handle_write rocks succeeds ticks r s in
      ((handled.1.success ≡ true) ↔ (IsFencedIn r.partition_id r.epoch s × (done.1 ≡ true)))
      × (handled.1.success ≡ false → handled.0 ≡ s)
unfolding handle_write
handle_write_iff rocks succeeds ticks r s = ground (
  arith,
  check_write_iff r.partition_id r.epoch s,
  write_data_failed rocks succeeds r.partition_id s.partition_manager s.db r.kind,
)

-- an accepted write, step by step
pub accepted_write :
    {Db : Type 0} (rocks : RocksDb Db) (succeeds : Bool) (ticks : ℕ → Tick) (r : WriteRequest)
    (s : Server Db)
    → let done = write_data rocks succeeds r.partition_id r.kind s.partition_manager s.db in
      let handled = handle_write rocks succeeds ticks r s in
      handled.1.success ≡ true
      → (done.1 ≡ true)
        × (handled.0
            ≡ enqueue r.partition_id
                (request_commands r.partition_id r.kind)
                ticks
                (record s { db = done.0 }))
unfolding handle_write
accepted_write rocks succeeds ticks r s h = ground arith

pub enqueue_at :
    {Db : Type 0} (id : ℕ) (commands : List Command) (ticks : ℕ → Tick) (s : Server Db)
    (clr : CommandLogReplicator)
    → lookup id s.replicators ≡ some clr
    → let after = enqueue id commands ticks s in
      (after.db ≡ s.db) × (lookup id after.replicators ≡ some (append_all commands ticks 0 clr))
unfolding enqueue
enqueue_at id commands ticks s clr h =
    ground (arith, lookup-insert id id (append_all commands ticks 0 clr) s.replicators)
