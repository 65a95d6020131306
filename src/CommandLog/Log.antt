-- ===== src/CommandLog/Log.antt =====
-- The state of a `CommandLog` of pkg/storage/command_log.go and its operations. A log directory is
-- the list of its files, in the order in which they were made, each with the number that its name
-- holds; the last one is the file that is open. The code sorts them by name, which is the same
-- order while the clock goes forward between two files: a name is the clock's nanoseconds, padded
-- to twenty digits. File operations are taken to succeed. The clock readings that the code takes
-- (`time.Now`) are arguments. The background `syncLoop` is a call of `sync`.
pub mod Reads
pub mod Writes
pub mod Recovery
pub mod Restart
pub mod Replay
pub mod ReplayFiles
pub mod Replayed
use rockskv.Prelude.{
  ltb, leb, if◌then◌else◌, Outcome, ok, err, panic, length, take, drop, ℕ, zero, suc, ◌+◌, ◌-◌, ◌*◌,
  ◌%◌, ◌^◌, Bool, true, false, List, [], ◌∷◌, ◌++◌,
}
use rockskv.Prelude.Dict.{Dict, insert}
use rockskv.Bytes.{Bytes}
use rockskv.CommandLog.{
  cmd_type_put, cmd_type_delete, cmd_type_field_batch, CommandEntry, encode, decode_command_entry,
}

abbrev pub log_file_max_size : ℕ
log_file_max_size = 64 * 1024 * 1024

abbrev pub log_buffer_size : ℕ
log_buffer_size = 4 * 1024 * 1024

pub record LogPosition : Type 0 where
  pub file_num : ℕ
  pub offset : ℕ

-- `written` is what the open file holds, `buffered` what `currentWriter` has not flushed.
pub record CommandLog : Type 0 where
  pub partition_id : ℕ
  pub older_files : List (ℕ × Bytes)
  pub file_num : ℕ
  pub written : Bytes
  pub buffered : Bytes
  pub current_size : ℕ
  pub current_seq : ℕ
  pub last_sync_seq : ℕ
  pub index : Dict LogPosition
  pub closed : Bool

pub data LogError : Type 0 where
  log_closed : LogError

-- the log directory as other readers see it
unfoldable pub files : CommandLog → List (ℕ × Bytes)
files cl = cl.older_files ++ ((cl.file_num, cl.written) ∷ [])

-- `bufio.Writer.Write`: what is written to the file and what stays in the buffer
unfoldable pub buffered_write : Bytes → Bytes → Bytes → Bytes × Bytes
buffered_write written [] p =
    if leb (length p) log_buffer_size then (written, p) else (written ++ p, [])
buffered_write written (b ∷ bs) p =
    let room = log_buffer_size - length (b ∷ bs) in
    let flushed = written ++ ((b ∷ bs) ++ take room p) in
    if leb (length p) room
    then (written, (b ∷ bs) ++ p)
    else if leb (length (drop room p)) log_buffer_size
    then (flushed, drop room p)
    else (flushed ++ drop room p, [])

-- `Flush` and `currentFile.Sync`
unfoldable pub flush : CommandLog → CommandLog
flush cl = record cl { written = cl.written ++ cl.buffered; buffered = [] }

unfoldable pub sync : CommandLog → CommandLog
unfolding flush
sync cl = record (flush cl) { last_sync_seq = cl.current_seq }

-- `now` names the new file
unfoldable pub open_new_log_file : ℕ → CommandLog → CommandLog
open_new_log_file now cl = record cl {
  older_files = cl.older_files ++ ((cl.file_num, cl.written) ∷ []);
  file_num = now;
  written = [];
  buffered = [];
  current_size = 0;
}

unfoldable pub rotate_log_file : ℕ → CommandLog → CommandLog
unfolding flush open_new_log_file
rotate_log_file now cl = open_new_log_file now (flush cl)

unfoldable pub new_entry : ℕ → ℕ → Bytes → Bytes → ℕ → CommandEntry
new_entry seq cmd_type key value now = record {
  sequence = seq;
  timestamp = now;
  cmd_type = cmd_type;
  key_len = length key % 2 ^ 32;
  value_len = length value % 2 ^ 32;
  key = key;
  value = value;
  crc = 0;
}

-- the write and the index update at the end of `Append`
unfoldable pub write_entry : ℕ → Bytes → CommandLog → CommandLog
unfolding buffered_write
write_entry seq bytes cl =
    let (written, buffered) = buffered_write cl.written cl.buffered bytes in
    record cl {
      written = written;
      buffered = buffered;
      current_size = cl.current_size + length bytes;
      index = insert seq (record { file_num = cl.file_num; offset = cl.current_size }) cl.index;
    }

-- the check for a full file, before `size` more bytes are written
unfoldable pub make_room : ℕ → ℕ → CommandLog → CommandLog
unfolding rotate_log_file
make_room file_time size cl =
    if ltb log_file_max_size (cl.current_size + size) then rotate_log_file file_time cl else cl

-- `now` is the timestamp of the entry, `file_time` the clock when a new file is opened
unfoldable pub append : ℕ → Bytes → Bytes → ℕ → ℕ → CommandLog → CommandLog × Outcome LogError ℕ
unfolding new_entry write_entry make_room
append cmd_type key value now file_time cl =
    let seq = (cl.current_seq + 1) % 2 ^ 64 in
    let entry = encode (new_entry seq cmd_type key value now) in
    let room = make_room file_time (length entry) (record cl { current_seq = seq }) in
    if cl.closed then (cl, err log_closed) else (write_entry seq entry room, ok seq)

unfoldable pub append_put : Bytes → Bytes → ℕ → ℕ → CommandLog → CommandLog × Outcome LogError ℕ
unfolding append
append_put key value = append cmd_type_put key value

unfoldable pub append_delete : Bytes → ℕ → ℕ → CommandLog → CommandLog × Outcome LogError ℕ
unfolding append
append_delete key = append cmd_type_delete key []

unfoldable pub append_field_batch : Bytes → ℕ → ℕ → CommandLog → CommandLog × Outcome LogError ℕ
unfolding append
append_field_batch batch = append cmd_type_field_batch [] batch

unfoldable pub close : CommandLog → CommandLog
unfolding flush
close cl = if cl.closed then cl else record (flush cl) { closed = true }

-- What `recover` keeps: the index, and the largest sequence number.
pub record Recovered : Type 0 where
  pub index : Dict LogPosition
  pub max_seq : ℕ

abbrev pub entry_size : CommandEntry → ℕ
entry_size e = 8 + 8 + 1 + 4 + 4 + length e.key + length e.value + 4

-- the body of the inner loop
unfoldable pub recover_entry : ℕ → ℕ → CommandEntry → Recovered → Recovered
recover_entry file_num offset e st = record {
  index = insert e.sequence (record { file_num = file_num; offset = offset }) st.index;
  max_seq = if ltb st.max_seq e.sequence then e.sequence else st.max_seq;
}

-- one file, from an offset on; the fuel bounds the entries that are read
unfoldable pub recover_file : ℕ → ℕ → ℕ → Bytes → Recovered → Recovered
recover_file zero file_num offset r st = st
recover_file (suc fuel) file_num offset r st = elim (decode_command_entry r) [
  | ok p ↦
      recover_file fuel file_num (offset + entry_size p.0) p.1
        (recover_entry file_num offset p.0 st)
  | err x ↦ st
  | panic ↦ st
]

unfoldable pub recover_files : List (ℕ × Bytes) → Recovered → Recovered
unfolding recover_file recover_entry
recover_files [] st = st
recover_files ((num, bytes) ∷ fs) st = recover_files fs (recover_file (length bytes) num 0 bytes st)

-- `NewCommandLog` over the files of the directory: recovery, then a new file
unfoldable pub new_command_log : ℕ → List (ℕ × Bytes) → ℕ → CommandLog
unfolding recover_files
new_command_log partition_id fs now =
    let st = recover_files fs (record { index = []; max_seq = 0 }) in
    record {
      partition_id = partition_id;
      older_files = fs;
      file_num = now;
      written = [];
      buffered = [];
      current_size = 0;
      current_seq = st.max_seq;
      last_sync_seq = st.max_seq;
      index = st.index;
      closed = false;
    }
