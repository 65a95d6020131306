-- ===== src/Server/Replicate.antt =====
-- The calls `Replicate`, `GetReplicationStatus` and `RecoverPartition` of pkg/storage/server.go.
-- `succeeds` says of an offset, or a sequence number, whether the database accepts the write.
use rockskv.Prelude.{
  if◌then◌else◌, Outcome, ok, err, panic, ℕ, Bool, true, false, not, Option, none, some, List, [],
  ◌∷◌,
}
use rockskv.Prelude.Dict.{lookup}
use rockskv.Bytes.{Bytes}
use rockskv.Rocks.{RocksDb}
use rockskv.Fields.{decode_field_batch}
use rockskv.Fields.Storage.{apply_field_batch}
use rockskv.Partitions.{PartitionManager, ManagerError, has_partition}
use rockskv.Partitions.Data.{delete as delete_data, put}
use rockskv.CommandLog.Log.Replay.{batch_partition, replay_to}
use rockskv.Replication.{
  get_replication_lag, ReplicationEntry, ReplicateResponse, op_put, op_delete, op_field_batch,
  op_other,
}
use rockskv.Server.{Server}

-- err != nil
abbrev without_error : {Db : Type 0} → Db × Option ManagerError → Outcome Unit Db
without_error (d, none) = ok d
without_error (d, some e) = err tt

module _ {Db : Type 0} (rocks : RocksDb Db) where
  -- the switch over the operation; the flag `is_delete` counts for an unknown one only
  unfoldable pub apply_entry : Bool → ℕ → ReplicationEntry → PartitionManager → Db → Outcome Unit Db
  unfolding put delete_data apply_field_batch
  apply_entry succeeds id e pm d = elim e.op_type as (λ _. Outcome Unit Db) [
    | op_delete ↦ without_error (delete_data rocks succeeds e.key id pm d)
    | op_field_batch ↦ elim (decode_field_batch e.value) [
      | err x ↦ err tt
      | panic ↦ panic
      | ok fb ↦
          if succeeds then ok (apply_field_batch rocks (batch_partition id fb) fb d) else err tt
    ]
    | op_put ↦ without_error (put rocks succeeds e.key e.value id pm d)
    | op_other ↦
        let deleted = without_error (delete_data rocks succeeds e.key id pm d) in
        let stored = without_error (put rocks succeeds e.key e.value id pm d) in
        if e.is_delete then deleted else stored
  ]

  -- the loop; the first error ends it
  unfoldable pub apply_entries :
      (ℕ → Bool) → ℕ → List ReplicationEntry → PartitionManager → ℕ → Db → Db × ReplicateResponse
  unfolding apply_entry
  apply_entries succeeds id [] pm last d =
      (d, record { success = true; last_applied_offset = last })
  apply_entries succeeds id (e ∷ es) pm last d = elim (apply_entry (succeeds e.offset) id e pm d) [
    | ok after ↦ apply_entries succeeds id es pm e.offset after
    | err x ↦ (d, record { success = false; last_applied_offset = last })
    | panic ↦ (d, record { success = false; last_applied_offset = last })
  ]

  unfoldable pub replicate :
      (ℕ → Bool) → ℕ → List ReplicationEntry → Server Db → Server Db × ReplicateResponse
  unfolding has_partition apply_entries
  replicate succeeds id entries s =
      let (after, response) = apply_entries succeeds id entries s.partition_manager 0 s.db in
      if not (has_partition id s.partition_manager)
      then (s, record { success = false; last_applied_offset = 0 })
      else (record s { db = after }, response)

  -- whether there was no error; a failed replay keeps what it has written
  unfoldable pub recover_partition : (ℕ → Bool) → ℕ → Server Db → Server Db × Bool
  unfolding replay_to
  recover_partition succeeds id s = elim (lookup id s.replicators) [
    | none ↦ (s, false)
    | some clr ↦
        let replayed = replay_to rocks succeeds 0 clr.command_log s.db in
        (
          record s { db = replayed.db },
          elim replayed.failure as (λ _. Bool) [ none ↦ true | some x ↦ false ],
        )
  ]

pub record ReplicationStatus : Type 0 where
  pub is_primary : Bool
  pub current_offset : ℕ
  pub committed_offset : ℕ
  pub replication_lag : ℕ
  pub replica_addr : Bytes

unfoldable pub get_replication_status : {Db : Type 0} → ℕ → Server Db → ReplicationStatus
unfolding get_replication_lag
get_replication_status id s = elim (lookup id s.replicators) as (λ _. ReplicationStatus) [
  | none ↦ record {
    is_primary = false;
    current_offset = 0;
    committed_offset = 0;
    replication_lag = 0;
    replica_addr = [];
  }
  | some clr ↦ record {
    is_primary = clr.is_primary;
    current_offset = clr.command_log.current_seq;
    committed_offset = clr.replicated_seq;
    replication_lag = get_replication_lag clr;
    replica_addr = clr.replica_addr;
  }
]
