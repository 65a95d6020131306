-- ===== src/CommandLog/Log/Replay.antt =====
-- `ReadFrom`, `readFromIndex` and `ReplayTo` of pkg/storage/command_log.go. Files open and seek
-- without error. `ReplayTo` writes to a database of Rocks.
use rockskv.Prelude.{
  leb, ◌==◌, if◌then◌else◌, Outcome, ok, err, panic, length, drop, ℕ, zero, suc, ◌+◌, ◌-◌, Bool,
  Option, none, some, List, [], ◌∷◌,
}
use rockskv.Prelude.Dict.{Dict, lookup}
use rockskv.Bytes.{Bytes}
use rockskv.Rocks.{RocksDb}
use rockskv.Fields.{FieldBatch, decode_field_batch}
use rockskv.Fields.Storage.{apply_field_batch}
use rockskv.CommandLog.{
  cmd_type_put, cmd_type_delete, cmd_type_field_batch, CommandEntry, decode_command_entry,
}
use rockskv.CommandLog.Log.{LogPosition, CommandLog, files}
use rockskv.CommandLog.Log.Reads.{scan_files, read_from_full_scan}

-- the first sequence number of the index from `seq` on; the fuel is how many there are to try
unfoldable pub first_indexed : ℕ → ℕ → Dict LogPosition → Option LogPosition
first_indexed zero seq index = none
first_indexed (suc fuel) seq index =
    let rest = first_indexed fuel (suc seq) index in
    elim (lookup seq index) [ some pos ↦ some pos | none ↦ rest ]

-- the files from the one with the number on
unfoldable pub files_from : ℕ → List (ℕ × Bytes) → List (ℕ × Bytes)
files_from num [] = []
files_from num (f ∷ fs) = let rest = files_from num fs in if f.0 == num then f ∷ fs else rest

-- `none` is the error that the file is not found
unfoldable pub read_from_index : LogPosition → ℕ → ℕ → List (ℕ × Bytes) → Option (List CommandEntry)
unfolding files_from scan_files
read_from_index start from_seq limit fs = elim (files_from start.file_num fs) [
  | [] ↦ none
  | (num, bytes) ∷ rest ↦
      some (scan_files from_seq limit ((num, drop start.offset bytes) ∷ rest) [])
]

unfoldable pub read_from : ℕ → ℕ → CommandLog → List CommandEntry
unfolding first_indexed read_from_index read_from_full_scan
read_from from_seq limit cl =
    let full = read_from_full_scan from_seq limit (files cl) in
    elim (first_indexed (cl.current_seq + 1 - from_seq) from_seq cl.index) [
      | none ↦ full
      | some start ↦ elim (read_from_index start from_seq limit (files cl)) [
        | none ↦ full
        | some [] ↦ full
        | some (e ∷ es) ↦ e ∷ es
      ]
    ]

pub data ReplayError : Type 0 where
  put_failed delete_failed apply_failed : ReplayError
  decode_failed : ReplayError

-- the partition of a batch, or else that of the log or the request
abbrev pub batch_partition : ℕ → FieldBatch → ℕ
batch_partition id fb = if fb.partition_id == 0 then id else fb.partition_id

pub record Replayed (Db : Type 0) : Type 0 where
  pub db : Db
  pub last_seq : ℕ
  pub failure : Option ReplayError

module _ {Db : Type 0} (rocks : RocksDb Db) where
  -- one command; `succeeds` is whether the database accepts it
  unfoldable pub replay_command : Bool → ℕ → CommandEntry → Db → Outcome ReplayError Db
  unfolding apply_field_batch
  replay_command succeeds id e d =
      if e.cmd_type == cmd_type_put
      then if succeeds then ok (rocks.put e.key e.value d) else err put_failed
      else if e.cmd_type == cmd_type_delete
      then if succeeds then ok (rocks.delete e.key d) else err delete_failed
      else if e.cmd_type == cmd_type_field_batch
      then elim (decode_field_batch e.value) [
        | err x ↦ err decode_failed
        | panic ↦ panic
        | ok fb ↦
            if succeeds
            then ok (apply_field_batch rocks (batch_partition id fb) fb d)
            else err apply_failed
      ]
      else ok d

  -- the body of the loop; a failure ends the replay
  unfoldable pub replay_entry : (ℕ → Bool) → ℕ → ℕ → CommandEntry → Replayed Db → Replayed Db
  unfolding replay_command
  replay_entry succeeds id from_seq e st =
      if leb e.sequence from_seq
      then st
      else elim (replay_command (succeeds e.sequence) id e st.db) [
        | ok d ↦ record st { db = d; last_seq = e.sequence }
        | err x ↦ record st { failure = some x }
        | panic ↦ record st { failure = some decode_failed }
      ]

  unfoldable pub replay_file : ℕ → (ℕ → Bool) → ℕ → ℕ → Bytes → Replayed Db → Replayed Db
  unfolding replay_entry
  replay_file zero succeeds id from_seq r st = st
  replay_file (suc fuel) succeeds id from_seq r st = elim st.failure [
    | some x ↦ st
    | none ↦ elim (decode_command_entry r) [
      | ok p ↦ replay_file fuel succeeds id from_seq p.1 (replay_entry succeeds id from_seq p.0 st)
      | err x ↦ st
      | panic ↦ st
    ]
  ]

  unfoldable pub replay_files : (ℕ → Bool) → ℕ → ℕ → List (ℕ × Bytes) → Replayed Db → Replayed Db
  unfolding replay_file
  replay_files succeeds id from_seq [] st = st
  replay_files succeeds id from_seq ((num, bytes) ∷ fs) st =
      replay_files succeeds id from_seq fs
        (replay_file (length bytes) succeeds id from_seq bytes st)

  unfoldable pub replay_to : (ℕ → Bool) → ℕ → CommandLog → Db → Replayed Db
  unfolding replay_files
  replay_to succeeds from_seq cl d =
      replay_files succeeds cl.partition_id from_seq (files cl)
        (record { db = d; last_seq = 0; failure = none })
