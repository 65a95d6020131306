-- ===== src/CommandLog/Tests.antt =====
-- The command log at concrete inputs.
use rockskv.Prelude.{
  ok, length, take, drop, take-append-drop, All, ℕ, ◌+◌, ◌%◌, ◌^◌, ◌≡◌, refl, sym, ◌∙◌, true, false,
  none, List, [], ◌∷◌, map, append-nil, arith,
}
use rockskv.Bytes.{ascii}
use rockskv.CommandLog.{cmd_type_put, cmd_type_delete, CommandEntry, sealed, encode}
use rockskv.CommandLog.Codec.{IsWellFormed}
use rockskv.CommandLog.Scan.{encode_all}
use rockskv.CommandLog.Log.{CommandLog, files, sync, new_entry, append, new_command_log}
use rockskv.CommandLog.Log.Reads.{read_dir}
use rockskv.CommandLog.Log.Writes.{IsLogOf, append-IsLogOf}
use rockskv.CommandLog.Log.Recovery.{read_dir_crash}
use rockskv.Rocks.{put_op}
use rockskv.Rocks.LogDb.{log_db, log_db-IsStore}
use rockskv.Rocks.LastWrite.{IsWritten}
use rockskv.CommandLog.Log.Replay.{replay_to}
use rockskv.CommandLog.Log.Replayed.{get-replay_to}
use rockskv.CommandLog.Log.Restart.{Command, Fits, append_all, numbered, restart}

abbrev pub put_k : CommandEntry
put_k = record {
  sequence = 1;
  timestamp = 7;
  cmd_type = cmd_type_put;
  key_len = 1;
  value_len = 2;
  key = ascii "k";
  value = ascii "v1";
  crc = 0;
}

put_k-IsWellFormed : IsWellFormed put_k
put_k-IsWellFormed = ground arith

-- A log with its one entry half written.
abbrev pub torn_log : CommandLog
torn_log = record {
  partition_id = 3;
  older_files = [];
  file_num = 5;
  written = take 10 (encode put_k);
  buffered = drop 10 (encode put_k);
  current_size = length (encode put_k);
  current_seq = 1;
  last_sync_seq = 0;
  index = [];
  closed = false;
}

pub torn_log-IsLogOf : IsLogOf torn_log (put_k ∷ [])
unfolding encode_all
torn_log-IsLogOf = record {
  older = [];
  current = put_k ∷ [];
  older_bytes = refl;
  current_bytes = take-append-drop 10 (encode put_k) ∙ sym (append-nil (encode put_k));
  in_order = refl;
  well_formed = (put_k-IsWellFormed, tt);
  still_open = refl;
}

append-IsLogOf_example :
    let seq = (torn_log.current_seq + 1) % 2 ^ 64 in
    let after = append cmd_type_delete (ascii "k") [] 8 9 torn_log in
    (after.1 ≡ ok seq)
    × (after.0.current_seq ≡ seq)
    × IsLogOf after.0 (put_k ∷ new_entry seq cmd_type_delete (ascii "k") [] 8 ∷ [])
append-IsLogOf_example =
    append-IsLogOf cmd_type_delete (ascii "k") [] 8 9 torn_log (put_k ∷ []) (omega arith)
      (omega arith) (omega arith) torn_log-IsLogOf

read_dir_crash_example : (k : ℕ) × (read_dir (files torn_log) ≡ map sealed (take k (put_k ∷ [])))
read_dir_crash_example = read_dir_crash torn_log (put_k ∷ []) torn_log-IsLogOf

abbrev two_commands : List Command
two_commands =
    record { cmd_type = cmd_type_put; key = ascii "k"; value = ascii "v1"; now = 7; file_time = 7 }
    ∷ record { cmd_type = cmd_type_delete; key = ascii "k"; value = []; now = 8; file_time = 8 }
    ∷ []

two_commands-Fits : All Fits two_commands
two_commands-Fits = (ground arith, (ground arith, tt))

restart_example :
    let saved = files (sync (append_all two_commands (new_command_log 3 [] 5))) in
    (read_dir saved ≡ map sealed (numbered 0 two_commands))
    × ((new_command_log 3 saved 9).current_seq ≡ length two_commands)
restart_example = restart 3 5 two_commands 9 two_commands-Fits (omega arith)

get-replay_to_example :
    let after = replay_to log_db (λ _. true) 0 (sync torn_log) [] in
    (after.failure ≡ none) × IsWritten log_db (put_op (ascii "k") (ascii "v1") ∷ []) [] after.db
get-replay_to_example =
    get-replay_to log_db log_db-IsStore torn_log (put_k ∷ []) 0
      (put_op (ascii "k") (ascii "v1") ∷ []) [] torn_log-IsLogOf refl
