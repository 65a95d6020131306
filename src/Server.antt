-- ===== src/Server.antt =====
-- The storage server of pkg/storage/server.go: its state, the lease, and the handlers of the gRPC
-- calls that read and write a key or a document. A handler is one step; between its check of the
-- lease and its write, the lease is taken to hold. `succeeds` is whether the call of the database
-- succeeds, a `Tick` the clock readings of an append to the command log. The routes that the
-- metadata server sends are in Server/Assignment, the calls of other nodes in Server/Replicate.
pub mod Handlers
pub mod Replicate
pub mod Writes
pub mod Commands
pub mod Agreement
pub mod Assignment
pub mod Roles
pub mod Transfer
pub mod Transferred
pub mod MemoryFiles
pub mod Entries
pub mod Moved
pub mod Tests
use rockskv.Prelude.{
  ◌==◌, if◌then◌else◌, ℕ, suc, Bool, true, false, not, ◌&&◌, Option, none, some, List, [], ◌∷◌,
}
use rockskv.Prelude.Dict.{Dict, lookup, insert}
use rockskv.Bytes.{Bytes}
use rockskv.Rocks.{KeyValueItem, RocksDb}
use rockskv.Fields.{FieldUpdate, FieldBatch, encode_field_batch}
use rockskv.Fields.Storage.{delete_field, apply_field_batch}
use rockskv.Partitions.{PartitionManager, validate_epoch, has_partition, is_primary}
use rockskv.Partitions.Data.{delete as delete_data, put, batch_put}
use rockskv.Replication.{
  CommandLogReplicator, LogDir, Tick, Command, append_command, put_command, delete_command,
  field_batch_command,
}

-- `lease_id` is 0 where there is no lease; the directories are those of the partitions' logs
-- that are not open.
pub record Server (Db : Type 0) : Type 0 where
  pub db : Db
  pub partition_manager : PartitionManager
  pub node_lease : ℕ
  pub node_lease_lost : Bool
  pub replicators : Dict CommandLogReplicator
  pub log_dirs : Dict LogDir

-- `ErrorCode` of the protocol, as far as the server uses it
pub data ErrorCode : Type 0 where
  no_error partition_not_found not_primary epoch_fenced internal_error : ErrorCode

-- what a handler of a write answers; a successful `BatchPut` also returns the number of its items
pub record WriteResponse : Type 0 where
  pub success : Bool
  pub error : ErrorCode

abbrev pub refused : ErrorCode → WriteResponse
refused e = record { success = false; error = e }

abbrev pub accepted : WriteResponse
accepted = record { success = true; error = no_error }

-- the requests that write, each with its partition id and epoch in `WriteRequest`
pub data WriteKind : Type 0 where
  put_request : Bytes → Bytes → WriteKind
  delete_request : Bytes → WriteKind
  set_fields_request : Bytes → List FieldUpdate → WriteKind
  delete_field_request : Bytes → Bytes → WriteKind
  batch_put_request : List KeyValueItem → WriteKind

pub record WriteRequest : Type 0 where
  pub partition_id : ℕ
  pub epoch : ℕ
  pub kind : WriteKind

-- the commands that a request appends to the log
unfoldable pub put_commands : List KeyValueItem → List Command
put_commands [] = []
put_commands ((key, value) ∷ items) = put_command key value ∷ put_commands items

unfoldable pub fields_batch : ℕ → Bytes → List FieldUpdate → FieldBatch
fields_batch id pk updates = record { partition_id = id; primary_key = pk; updates = updates }

abbrev pub field_deletion : Bytes → FieldUpdate
field_deletion name = record { field_name = name; value = []; is_delete = true }

unfoldable pub request_commands : ℕ → WriteKind → List Command
unfolding put_commands fields_batch
request_commands id (put_request key value) = put_command key value ∷ []
request_commands id (delete_request key) = delete_command key ∷ []
request_commands id (set_fields_request pk updates) =
    field_batch_command (encode_field_batch (fields_batch id pk updates)) ∷ []
request_commands id (delete_field_request pk name) =
    field_batch_command (encode_field_batch (fields_batch id pk (field_deletion name ∷ []))) ∷ []
request_commands id (batch_put_request items) = put_commands items

-- a failed append is logged only; the n-th append reads the n-th clock
unfoldable pub append_all :
    List Command → (ℕ → Tick) → ℕ → CommandLogReplicator → CommandLogReplicator
unfolding append_command
append_all [] ticks n clr = clr
append_all (c ∷ cs) ticks n clr = append_all cs ticks (suc n) (append_command c (ticks n) clr).0

module _ {Db : Type 0} where
  unfoldable pub can_write : Server Db → Bool
  can_write s = not s.node_lease_lost && not (s.node_lease == 0)

  -- `none` of the id is an error of etcd
  unfoldable pub acquire_node_lease : Option ℕ → Server Db → Server Db × Bool
  acquire_node_lease none s = (s, false)
  acquire_node_lease (some id) s = (record s { node_lease = id; node_lease_lost = false }, true)

  -- the keepalive channel closed, or a keepalive failed
  unfoldable pub lose_node_lease : Server Db → Server Db
  lose_node_lease s = record s { node_lease_lost = true }

  unfoldable pub release_all_leases : Server Db → Server Db
  release_all_leases s = record s { node_lease = 0; node_lease_lost = true }

  -- the checks with which every handler of a write begins
  unfoldable pub check_write : ℕ → ℕ → Server Db → Option ErrorCode
  unfolding can_write has_partition is_primary validate_epoch
  check_write id epoch s =
      if not (can_write s)
      then some internal_error
      else if not (has_partition id s.partition_manager)
      then some partition_not_found
      else if not (is_primary id s.partition_manager)
      then some not_primary
      else elim (validate_epoch id epoch s.partition_manager) [
        | some e ↦ some epoch_fenced
        | none ↦ none
      ]

  -- a partition without a replicator appends nothing
  unfoldable pub enqueue : ℕ → List Command → (ℕ → Tick) → Server Db → Server Db
  unfolding append_all
  enqueue id commands ticks s = elim (lookup id s.replicators) [
    | none ↦ s
    | some clr ↦ record s {
      replicators = insert id (append_all commands ticks 0 clr) s.replicators;
    }
  ]

module _ {Db : Type 0} (rocks : RocksDb Db) where
  -- the write to the database, and whether it succeeded; fields do not ask for the partition's
  -- status
  unfoldable pub write_data : Bool → ℕ → WriteKind → PartitionManager → Db → Db × Bool
  unfolding put delete_data batch_put apply_field_batch delete_field
  write_data succeeds id (put_request key value) pm d =
      let (after, e) = put rocks succeeds key value id pm d in
      (after, elim e as (λ _. Bool) [ none ↦ true | some x ↦ false ])
  write_data succeeds id (delete_request key) pm d =
      let (after, e) = delete_data rocks succeeds key id pm d in
      (after, elim e as (λ _. Bool) [ none ↦ true | some x ↦ false ])
  write_data succeeds id (set_fields_request pk updates) pm d =
      if succeeds
      then (apply_field_batch rocks id (fields_batch id pk updates) d, true)
      else (d, false)
  write_data succeeds id (delete_field_request pk name) pm d =
      if succeeds then (delete_field rocks id pk name d, true) else (d, false)
  write_data succeeds id (batch_put_request items) pm d =
      let (after, e) = batch_put rocks succeeds items id pm d in
      (after, elim e as (λ _. Bool) [ none ↦ true | some x ↦ false ])

  -- `Put`, `Delete`, `SetFields`, `DeleteField` and `BatchPut`, which differ in the write and in
  -- what they append
  unfoldable pub handle_write :
      Bool → (ℕ → Tick) → WriteRequest → Server Db → Server Db × WriteResponse
  unfolding check_write write_data enqueue request_commands
  handle_write succeeds ticks r s = elim (check_write r.partition_id r.epoch s) [
    | some e ↦ (s, refused e)
    | none ↦
        let (after, done) = write_data succeeds r.partition_id r.kind s.partition_manager s.db in
        if done
        then (
          enqueue r.partition_id (request_commands r.partition_id r.kind) ticks
              (record s { db = after }),
          accepted,
        )
        else (record s { db = after }, refused internal_error)
  ]
