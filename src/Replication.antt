-- ===== src/Replication.antt =====
-- `CommandLogReplicator` of pkg/storage/command_log_replicator.go: the log of a partition, and how
-- its entries go to the replica in batches. The gRPC client is a parameter of `sync_to_replica`:
-- whether it connects, and what the call of `Replicate` answers. The checkpoint file is written
-- without error; it holds the number that was replicated last. The loop that calls
-- `syncToReplica` at an interval is a sequence of its calls.
pub mod Read
pub mod Resumed
pub mod Rounds
pub mod Tests
use rockskv.Prelude.{
  leb, ◌==◌, if◌then◌else◌, Outcome, ℕ, ◌+◌, ◌-◌, ◌%◌, ◌^◌, Bool, true, false, not, ◌&&◌, ◌||◌,
  Option, none, some, List, [], ◌∷◌, map,
}
use rockskv.Bytes.{Bytes, bytes_eq}
use rockskv.CommandLog.{cmd_type_put, cmd_type_delete, cmd_type_field_batch, CommandEntry}
use rockskv.CommandLog.Log.{
  CommandLog, LogError, files, append_put, append_delete, append_field_batch, close,
  new_command_log,
}
use rockskv.CommandLog.Log.Replay.{read_from}

abbrev pub cl_batch_size : ℕ
cl_batch_size = 500

pub record CommandLogReplicator : Type 0 where
  pub partition_id : ℕ
  pub replica_addr : Bytes
  pub is_primary : Bool
  pub command_log : CommandLog
  pub replicated_seq : ℕ
  pub checkpoint : Option ℕ
  pub connected : Bool

-- what the directory of a partition's log holds
pub record LogDir : Type 0 where
  pub log_files : List (ℕ × Bytes)
  pub checkpoint : Option ℕ

abbrev pub load_checkpoint : Option ℕ → ℕ
load_checkpoint none = 0
load_checkpoint (some seq) = seq

unfoldable pub new_command_log_replicator : ℕ → Bool → Bytes → LogDir → ℕ → CommandLogReplicator
unfolding new_command_log
new_command_log_replicator partition_id is_primary replica_addr dir now = record {
  partition_id = partition_id;
  replica_addr = replica_addr;
  is_primary = is_primary;
  command_log = new_command_log partition_id dir.log_files now;
  replicated_seq = load_checkpoint dir.checkpoint;
  checkpoint = dir.checkpoint;
  connected = false;
}

-- whether `Start` starts the loop
unfoldable pub replicates : CommandLogReplicator → Bool
replicates clr = clr.is_primary && not (bytes_eq clr.replica_addr [])

-- what `Stop` leaves in the directory; the final `syncToReplica` comes before it
unfoldable pub stop : CommandLogReplicator → LogDir
unfolding close files
stop clr = record { log_files = files (close clr.command_log); checkpoint = clr.checkpoint }

-- the two clock readings that an `Append` takes
pub record Tick : Type 0 where
  pub now : ℕ
  pub file_time : ℕ

pub data Command : Type 0 where
  put_command : Bytes → Bytes → Command
  delete_command : Bytes → Command
  field_batch_command : Bytes → Command

-- `AppendPut`, `AppendDelete`, `AppendFieldBatch`
unfoldable pub append_command :
    Command → Tick → CommandLogReplicator → CommandLogReplicator × Outcome LogError ℕ
unfolding append_put append_delete append_field_batch
append_command c t clr =
    let (command_log, seq) = (elim c as (λ _. CommandLog × Outcome LogError ℕ) [
      | put_command key value ↦ append_put key value t.now t.file_time clr.command_log
      | delete_command key ↦ append_delete key t.now t.file_time clr.command_log
      | field_batch_command batch ↦ append_field_batch batch t.now t.file_time clr.command_log
    ]) in
    (record clr { command_log = command_log }, seq)

-- unsigned, so it wraps around when the checkpoint is ahead of the log
unfoldable pub get_replication_lag : CommandLogReplicator → ℕ
get_replication_lag clr = (clr.command_log.current_seq + (2 ^ 64 - clr.replicated_seq)) % 2 ^ 64

-- `ReplicationOpType` of the protocol, whose zero value is PUT; `op_other` is a number without a
-- name
pub data OpType : Type 0 where
  op_put op_delete op_field_batch op_other : OpType

-- `ReplicationEntry` of the protocol; the offset is an int64, kept as its bit pattern
pub record ReplicationEntry : Type 0 where
  pub offset : ℕ
  pub key : Bytes
  pub value : Bytes
  pub is_delete : Bool
  pub timestamp : ℕ
  pub op_type : OpType

abbrev pub op_type_of : ℕ → OpType
op_type_of cmd_type =
    if cmd_type == cmd_type_put
    then op_put
    else if cmd_type == cmd_type_delete
    then op_delete
    else if cmd_type == cmd_type_field_batch
    then op_field_batch
    else op_put

-- the conversion in `sendBatch`
unfoldable pub replication_entry : CommandEntry → ReplicationEntry
replication_entry e = record {
  offset = e.sequence;
  key = e.key;
  value = e.value;
  is_delete = e.cmd_type == cmd_type_delete;
  timestamp = e.timestamp;
  op_type = op_type_of e.cmd_type;
}

-- `ReplicateResponse`
pub record ReplicateResponse : Type 0 where
  pub success : Bool
  pub last_applied_offset : ℕ

-- What the call of `Replicate` does at the replica: its new state, and the response or `none`
-- for an error of the call.
abbrev pub Replica : Type 0 → Type 0
Replica S = ℕ → List ReplicationEntry → S → S × Option ReplicateResponse

-- the sequence number of the last entry
abbrev pub last_sequence : ℕ → List CommandEntry → ℕ
last_sequence seq [] = seq
last_sequence seq (e ∷ es) = last_sequence e.sequence es

module _ {S : Type 0} (replica : Replica S) where
  -- whether the call succeeded; a response without success is logged, and no error
  unfoldable pub send_batch : ℕ → List CommandEntry → S → S × Bool
  unfolding replication_entry
  send_batch partition_id entries s =
      let (after, response) = replica partition_id (map replication_entry entries) s in
      elim response [ none ↦ (after, false) | some r ↦ (after, true) ]

  -- `connects` is whether `connectToReplica` can connect when there is no connection
  unfoldable pub sync_to_replica : Bool → CommandLogReplicator → S → CommandLogReplicator × S
  unfolding read_from send_batch
  sync_to_replica connects clr s =
      let entries = read_from ((clr.replicated_seq + 1) % 2 ^ 64) cl_batch_size clr.command_log in
      let last_seq = last_sequence clr.replicated_seq entries in
      if leb clr.command_log.current_seq clr.replicated_seq
      then (clr, s)
      else if not (clr.connected || connects)
      then (clr, s)
      else elim entries as (λ _. CommandLogReplicator × S) [
        | [] ↦ (record clr { connected = true }, s)
        | e ∷ es ↦
            let (after, sent) = send_batch clr.partition_id entries s in
            if sent
            then (
              record clr {
                connected = true;
                replicated_seq = last_seq;
                checkpoint = some last_seq;
              },
              after,
            )
            else (record clr { connected = false }, after)
      ]

unfoldable pub update_replica_addr : Bytes → CommandLogReplicator → CommandLogReplicator
update_replica_addr addr clr =
    if bytes_eq clr.replica_addr addr
    then clr
    else record clr { replica_addr = addr; connected = false }
