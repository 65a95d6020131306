-- ===== src/CommandLog/Log/Restart.antt =====
-- A session of appends, and the log that a restart opens over its files.
use mathlib.Core.Path.{subst}
use rockskv.Prelude.{
  ltb, if◌then◌else◌, Outcome, ok, err, panic, length, All, ℕ, zero, suc, ◌+◌, ◌%◌, ◌^◌, ◌<◌, ◌≡◌,
  refl, ◌∙◌, List, [], ◌∷◌, ◌++◌, map, append-nil, append_assoc, arith,
}
use rockskv.Bytes.{Bytes}
use rockskv.CommandLog.{CommandEntry, sealed, decode_command_entry, ReadError}
use rockskv.CommandLog.Scan.{scan, read_all, encode_all}
use rockskv.CommandLog.Log.{
  CommandLog, files, sync, new_entry, append, Recovered, entry_size, recover_entry, recover_file,
  recover_files, new_command_log,
}
use rockskv.CommandLog.Log.Writes.{IsLogOf, append-IsLogOf}
use rockskv.CommandLog.Log.Reads.{read_dir}
use rockskv.CommandLog.Log.Recovery.{read_dir-sync}

-- the arguments of one call of `Append`, with the two clock readings
pub record Command : Type 0 where
  pub cmd_type : ℕ
  pub key : Bytes
  pub value : Bytes
  pub now : ℕ
  pub file_time : ℕ

pub record Fits (c : Command) : Type 0 where
  pub now_fits : c.now < 2 ^ 64
  pub key_fits : length c.key < 2 ^ 32
  pub value_fits : length c.value < 2 ^ 32

unfoldable pub append_all : List Command → CommandLog → CommandLog
append_all [] cl = cl
append_all (c ∷ cs) cl = append_all cs (append c.cmd_type c.key c.value c.now c.file_time cl).0

-- The entries of the commands, numbered from `n + 1`.
unfoldable pub numbered : ℕ → List Command → List CommandEntry
numbered n [] = []
numbered n (c ∷ cs) = new_entry (n + 1) c.cmd_type c.key c.value c.now ∷ numbered (n + 1) cs

append_all-IsLogOf :
    (cs : List Command) (cl : CommandLog) (es : List CommandEntry)
    → All Fits cs
    → cl.current_seq + length cs < 2 ^ 64
    → IsLogOf cl es
    → IsLogOf (append_all cs cl) (es ++ numbered cl.current_seq cs)
unfolding append_all numbered
append_all-IsLogOf [] cl es fs room h = rw append-nil h
append_all-IsLogOf (c ∷ cs) cl es fs room h =
    let (_, seq, holds) =
      append-IsLogOf c.cmd_type c.key c.value c.now c.file_time cl es fs.0.now_fits fs.0.key_fits
        fs.0.value_fits h in
    let next : (cl.current_seq + 1) % 2 ^ 64 ≡ cl.current_seq + 1 = omega arith in
    rw append_assoc at (
      rw (seq ∙ next, next) at
        (append_all-IsLogOf cs (append c.cmd_type c.key c.value c.now c.file_time cl).0 _ fs.1
          (omega (arith, seq, next)) holds))

unfoldable pub max_sequence : ℕ → List CommandEntry → ℕ
max_sequence m [] = m
max_sequence m (e ∷ es) = max_sequence (if ltb m e.sequence then e.sequence else m) es

max_sequence-sealed :
    (m : ℕ) (es : List CommandEntry) → max_sequence m (map sealed es) ≡ max_sequence m es
unfolding max_sequence sealed
max_sequence-sealed m [] = refl
max_sequence-sealed m (e ∷ es) = max_sequence-sealed (if ltb m e.sequence then e.sequence else m) es

max_sequence-numbered : (n : ℕ) (cs : List Command) → max_sequence n (numbered n cs) ≡ n + length cs
unfolding max_sequence numbered new_entry
max_sequence-numbered n [] = omega arith
max_sequence-numbered n (c ∷ cs) = ground (arith, max_sequence-numbered (n + 1) cs)

max_sequence-append :
    (m : ℕ) (xs ys : List CommandEntry)
    → max_sequence m (xs ++ ys) ≡ max_sequence (max_sequence m xs) ys
unfolding max_sequence
max_sequence-append m [] ys = refl
max_sequence-append m (x ∷ xs) ys =
    max_sequence-append (if ltb m x.sequence then x.sequence else m) xs ys

max_seq-recover_file :
    (fuel num offset : ℕ) (r : Bytes) (st : Recovered)
    → (recover_file fuel num offset r st).max_seq ≡ max_sequence st.max_seq (scan fuel r)
unfolding recover_file recover_entry scan max_sequence
max_seq-recover_file zero num offset r st = refl
max_seq-recover_file (suc fuel) num offset r st =
    go (λ off rest st'. max_seq-recover_file fuel num off rest st') (decode_command_entry r)
  where
    go :
        ((off : ℕ) (rest : Bytes) (st' : Recovered)
          → (recover_file fuel num off rest st').max_seq
            ≡ max_sequence st'.max_seq (scan fuel rest))
        → (o : Outcome ReadError (CommandEntry × Bytes))
        → (elim o as (λ _. Recovered) [
          | ok p ↦
              recover_file fuel num (offset + entry_size p.0) p.1 (recover_entry num offset p.0 st)
          | err x ↦ st
          | panic ↦ st
        ]).max_seq
          ≡ max_sequence st.max_seq (elim o as (λ _. List CommandEntry) [
            | ok p ↦ p.0 ∷ scan fuel p.1
            | err x ↦ []
            | panic ↦ []
          ])
    go ih (ok (e, rest)) = ih (offset + entry_size e) rest (recover_entry num offset e st)
    go ih (err x) = refl
    go ih panic = refl

max_seq-recover_files :
    (fs : List (ℕ × Bytes)) (st : Recovered)
    → (recover_files fs st).max_seq ≡ max_sequence st.max_seq (read_dir fs)
unfolding recover_files read_dir read_all
max_seq-recover_files [] st = unfold max_sequence in refl
max_seq-recover_files ((num, bytes) ∷ fs) st =
    max_seq-recover_files fs (recover_file (length bytes) num 0 bytes st)
    ∙ rw (max_seq-recover_file (length bytes) num 0 bytes st, max_sequence-append)

module _ (partition_id start : ℕ) where
  empty_log : IsLogOf (new_command_log partition_id [] start) []
  unfolding new_command_log encode_all
  empty_log = record {
    older = [];
    current = [];
    older_bytes = refl;
    current_bytes = refl;
    in_order = refl;
    well_formed = tt;
    still_open = refl;
  }

  empty_seq : (new_command_log partition_id [] start).current_seq ≡ 0
  unfolding new_command_log
  empty_seq = refl

  -- A new log that is given any commands (fewer than 2 ^ 64, within the widths of the fields) and
  -- then synced holds in its files the commands in order, numbered from 1; and a log that is opened
  -- over those files goes on numbering where the old one stopped.
  pub restart :
      (cs : List Command) (later : ℕ)
      → All Fits cs
      → length cs < 2 ^ 64
      → let saved = files (sync (append_all cs (new_command_log partition_id [] start))) in
        (read_dir saved ≡ map sealed (numbered 0 cs))
        × ((new_command_log partition_id saved later).current_seq ≡ length cs)
  restart cs later fs room = (held, unfold new_command_log in continues)
    where
      saved : List (ℕ × Bytes)
      saved = files (sync (append_all cs (new_command_log partition_id [] start)))

      held : read_dir saved ≡ map sealed (numbered 0 cs)
      held = read_dir-sync _ (numbered 0 cs) (
          subst
            (λ n. IsLogOf (append_all cs (new_command_log partition_id [] start)) (numbered n cs))
            empty_seq
            (append_all-IsLogOf cs (new_command_log partition_id [] start) [] fs
              (omega (arith, empty_seq)) empty_log))

      continues : (recover_files saved (record { index = []; max_seq = 0 })).max_seq ≡ length cs
      continues =
          max_seq-recover_files saved (record { index = []; max_seq = 0 })
          ∙ rw (held, max_sequence-sealed, max_sequence-numbered) (omega arith)
