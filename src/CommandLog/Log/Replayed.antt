-- ===== src/CommandLog/Log/Replayed.antt =====
-- What a replay leaves in the database: the commands of the log as one batch of writes.
use rockskv.Prelude.{
  leb, ◌==◌, if◌then◌else◌, if_true, if_false, Bool-cases, Outcome, ok, err, panic, ℕ, ◌≡◌, refl,
  sym, ap, ◌∙◌, inl, inr, true, false, Option, none, some, List, [], ◌∷◌, ◌++◌, map,
}
use rockskv.Rocks.{WriteOp, RocksDb, IsStore, put_op, delete_op}
use rockskv.Fields.{FieldBatch, FieldError, decode_field_batch}
use rockskv.Rocks.LastWrite.{
  IsWritten, joined, some-injective, joined-some, same-IsWritten, nothing-IsWritten,
  append-IsWritten, put-IsWritten, delete-IsWritten,
}
use rockskv.Fields.Storage.{update_ops, apply_field_batch}
use rockskv.CommandLog.{cmd_type_put, cmd_type_delete, cmd_type_field_batch, CommandEntry, sealed}
use rockskv.CommandLog.Log.{CommandLog, files, sync}
use rockskv.CommandLog.Log.Writes.{IsLogOf}
use rockskv.CommandLog.Log.Recovery.{read_dir-sync}
use rockskv.CommandLog.Log.ReplayFiles.{replay_list, running_list, replay_files_lem}
use rockskv.CommandLog.Log.Replay.{
  ReplayError, batch_partition, Replayed, replay_command, replay_entry, replay_to, decode_failed,
}

-- The writes of a command, under the key that the log holds; none for a batch that does not decode.
abbrev pub command_ops : ℕ → CommandEntry → Option (List WriteOp)
command_ops id e =
    if e.cmd_type == cmd_type_put
    then some (put_op e.key e.value ∷ [])
    else if e.cmd_type == cmd_type_delete
    then some (delete_op e.key ∷ [])
    else if e.cmd_type == cmd_type_field_batch
    then elim (decode_field_batch e.value) as (λ _. Option (List WriteOp)) [
      | err x ↦ none
      | panic ↦ none
      | ok fb ↦ some (update_ops (batch_partition id fb) fb.primary_key fb.updates)
    ]
    else some []

-- The writes of the commands behind a sequence number.
abbrev pub log_ops : ℕ → ℕ → List CommandEntry → Option (List WriteOp)
log_ops id from_seq [] = some []
log_ops id from_seq (e ∷ es) =
    let rest = log_ops id from_seq es in
    if leb e.sequence from_seq then rest else joined (command_ops id e) rest

module _ {Db : Type 0} (rocks : RocksDb Db) (laws : IsStore Db rocks) (id from_seq : ℕ) where
  -- the data after a command, at every key
  abbrev IsApplied : List WriteOp → Db → Outcome ReplayError Db → Type 0
  IsApplied ops d o = (after : Db) × (o ≡ ok after) × IsWritten rocks ops d after

  batch-IsApplied :
      (ops : List WriteOp) (d : Db) (o : Outcome FieldError FieldBatch)
      → elim o as (λ _. Option (List WriteOp)) [
        | err x ↦ none
        | panic ↦ none
        | ok fb ↦ some (update_ops (batch_partition id fb) fb.primary_key fb.updates)
      ]
        ≡ some ops
      → IsApplied ops d (elim o as (λ _. Outcome ReplayError Db) [
        | err x ↦ err decode_failed
        | panic ↦ panic
        | ok fb ↦ ok (apply_field_batch rocks (batch_partition id fb) fb d)
      ])
  unfolding apply_field_batch
  batch-IsApplied ops d (ok fb) h =
      (_, refl, same-IsWritten rocks _ ops d _ (some-injective _ ops h) (λ j. laws.get_write _ j d))
  batch-IsApplied ops d (err x) h = cc
  batch-IsApplied ops d panic h = cc

  replay_command_lem :
      (e : CommandEntry) (ops : List WriteOp) (d : Db)
      → command_ops id e ≡ some ops
      → IsApplied ops d (replay_command rocks true id e d)
  unfolding replay_command
  replay_command_lem e ops d = elim (Bool-cases (e.cmd_type == 1)) [
    | inl p ↦ rw p (λ h. (
      _,
      refl,
      same-IsWritten rocks _ ops d _ (some-injective _ ops h)
          (put-IsWritten rocks laws e.key e.value d),
    ))
    | inr p ↦ elim (Bool-cases (e.cmd_type == 2)) [
      | inl q ↦
          rw (p, q)
            (λ h. (
              _,
              refl,
              same-IsWritten rocks _ ops d _ (some-injective _ ops h)
                  (delete-IsWritten rocks laws e.key d),
            ))
      | inr q ↦ elim (Bool-cases (e.cmd_type == 3)) [
        | inl r ↦ rw (p, q, r) (batch-IsApplied ops d (decode_field_batch e.value))
        | inr r ↦
            rw (p, q, r)
              (λ h. (
                d,
                refl,
                same-IsWritten rocks [] ops d d (some-injective _ ops h)
                    (nothing-IsWritten rocks d),
              ))
      ]
    ]
  ]

  replay_entry_lem :
      (e : CommandEntry) (ops : List WriteOp) (st : Replayed Db)
      → leb e.sequence from_seq ≡ false
      → command_ops id e ≡ some ops
      → st.failure ≡ none
      → let after = replay_entry rocks (λ _. true) id from_seq e st in
        (after.failure ≡ none) × IsWritten rocks ops st.db after.db
  unfolding replay_entry
  replay_entry_lem e ops st late h run =
      let (after, same, reads) = replay_command_lem e ops st.db h in rw (late, same) (run, reads)

  skip_entry :
      (e : CommandEntry) (st : Replayed Db)
      → leb e.sequence from_seq ≡ true
      → replay_entry rocks (λ _. true) id from_seq e st ≡ st
  unfolding replay_entry
  skip_entry e st early = rw early refl

  replay_list_lem :
      (es : List CommandEntry) (ops : List WriteOp) (st : Replayed Db)
      → log_ops id from_seq es ≡ some ops
      → st.failure ≡ none
      → let after = replay_list rocks (λ _. true) id from_seq es st in
        (after.failure ≡ none) × IsWritten rocks ops st.db after.db
  replay_list_lem [] ops st h run = (
    run,
    same-IsWritten rocks [] ops st.db st.db (some-injective _ ops h)
        (nothing-IsWritten rocks st.db),
  )
  replay_list_lem (e ∷ es) ops st h run = elim (Bool-cases (leb e.sequence from_seq)) [
    | inl early ↦
        rw (running_list rocks (λ _. true) id from_seq e es st run, skip_entry e st early)
          (replay_list_lem es ops st (sym (if_true _ _ _ early) ∙ h) run)
    | inr late ↦
        let (xs, ys, now, later, whole) =
          joined-some (command_ops id e) (log_ops id from_seq es) ops
            (sym (if_false _ _ _ late) ∙ h) in
        let (run1, reads) = replay_entry_lem e xs st late now run in
        let after = replay_entry rocks (λ _. true) id from_seq e st in
        let (run2, reads2) = replay_list_lem es ys after later run1 in
        rw (running_list rocks (λ _. true) id from_seq e es st run) (
          run2,
          same-IsWritten rocks (xs ++ ys) ops st.db _ whole
              (append-IsWritten rocks xs ys st.db _ _ reads reads2),
        )
  ]

  log_ops-sealed :
      (es : List CommandEntry) → log_ops id from_seq (map sealed es) ≡ log_ops id from_seq es
  unfolding sealed
  log_ops-sealed [] = refl
  log_ops-sealed (e ∷ es) =
      ap (λ rest. if leb e.sequence from_seq then rest else joined (command_ops id e) rest)
        (log_ops-sealed es)

-- A replay of a synced log from a sequence number on, with every call of the database succeeding,
-- leaves the database as one batch of the log's later commands does, in order and under the keys
-- that the log holds (a log that holds given entries, whose field batches decode, over a database
-- with the laws of a store).
pub get-replay_to :
    {Db : Type 0} (rocks : RocksDb Db) (laws : IsStore Db rocks) (cl : CommandLog)
    (es : List CommandEntry) (from_seq : ℕ) (ops : List WriteOp) (d : Db)
    → IsLogOf cl es
    → log_ops cl.partition_id from_seq es ≡ some ops
    → let after = replay_to rocks (λ _. true) from_seq (sync cl) d in
      (after.failure ≡ none) × IsWritten rocks ops d after.db
unfolding replay_to sync
get-replay_to {Db = Db} rocks laws cl es from_seq ops d h decodes =
    let start : Replayed Db = record { db = d; last_seq = 0; failure = none } in
    rw
      (
        replay_files_lem rocks (λ _. true) cl.partition_id from_seq (files (sync cl)) start,
        read_dir-sync cl es h,
      )
      (replay_list_lem rocks laws cl.partition_id from_seq (map sealed es) ops start
        (log_ops-sealed rocks laws cl.partition_id from_seq es ∙ decodes) refl)
