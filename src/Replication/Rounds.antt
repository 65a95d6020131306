-- ===== src/Replication/Rounds.antt =====
-- What the replicator sends over any rounds of its loop, among appends and changes of the address,
-- whatever the replica answers.
use mathlib.Core.Path.{subst}
use rockskv.Prelude.{
  leb, if◌then◌else◌, length, ◌+◌, ◌%◌, ◌^◌, ◌≤◌, ◌<◌, ◌≡◌, refl, sym, ap, ◌∙◌, Bool, true, false,
  not, ◌||◌, Option, none, some, List, [], ◌∷◌, map, arith,
}
use rockskv.CommandLog.{CommandEntry}
use rockskv.CommandLog.Log.{
  flush, open_new_log_file, rotate_log_file, write_entry, make_room, append, append_put,
  append_delete, append_field_batch,
}
use rockskv.CommandLog.Log.Replay.{read_from}
use rockskv.Replication.{
  cl_batch_size, CommandLogReplicator, load_checkpoint, Tick, Command, append_command,
  replication_entry, ReplicateResponse, Replica, last_sequence, send_batch, sync_to_replica,
  update_replica_addr, put_command, delete_command, field_batch_command,
}
use rockskv.Replication.Read.{IsBatch, read_from-IsBatch}
use rockskv.Replication.Resumed.{
  Call, Action, offsets_of, recording, perform, perform_all, IsResumed, IsResumed-append,
  IsNotResent, IsResumed-IsNotResent, IsSaved, StepOf, offsets-behind, length-offsets, last-offsets,
  synced, appended, readdressed,
}

module _ {S : Type 0} (replica : Replica S) where
  -- the end of a round that has found entries
  sent_round : CommandLogReplicator → List CommandEntry → S → CommandLogReplicator × (S × List Call)
  sent_round clr es s =
      let (after, sent) = send_batch (recording replica) clr.partition_id es (s, []) in
      if sent
      then (
        record clr {
          connected = true;
          replicated_seq = last_sequence clr.replicated_seq es;
          checkpoint = some (last_sequence clr.replicated_seq es);
        },
        after,
      )
      else (record clr { connected = false }, after)

  round_of : CommandLogReplicator → List CommandEntry → S → CommandLogReplicator × (S × List Call)
  round_of clr [] s = (record clr { connected = true }, (s, []))
  round_of clr (e ∷ es) s = sent_round clr (e ∷ es) s

  sync-round_of :
      (connects : Bool) (clr : CommandLogReplicator) (s : S) (es : List CommandEntry)
      → read_from ((clr.replicated_seq + 1) % 2 ^ 64) cl_batch_size clr.command_log ≡ es
      → sync_to_replica (recording replica) connects clr (s, []) ≡ (
          if leb clr.command_log.current_seq clr.replicated_seq || not (clr.connected || connects)
          then (clr, (s, []))
          else round_of clr es s)
  unfolding sync_to_replica round_of sent_round
  sync-round_of connects clr s [] e = ground (arith, e)
  sync-round_of connects clr s (x ∷ es) e = ground (arith, e)

  sent_round-StepOf :
      (clr : CommandLogReplicator) (e : CommandEntry) (es : List CommandEntry) (s : S)
      → IsSaved clr
      → IsBatch (clr.replicated_seq + 1) cl_batch_size (e ∷ es)
      → StepOf clr (sent_round clr (e ∷ es) s)
  unfolding sent_round send_batch
  sent_round-StepOf clr e es s (fits, saved) (first, size) =
      answered (replica clr.partition_id (map replication_entry (e ∷ es)) s)
    where
      sizes :
          (0 < length (offsets_of (map replication_entry (e ∷ es))))
          × (length (offsets_of (map replication_entry (e ∷ es))) ≤ cl_batch_size)
      sizes = omega (arith, length-offsets (e ∷ es))

      answered :
          (sent : S × Option ReplicateResponse)
          → StepOf clr (
              let calls : S × List Call = (
                sent.0,
                record { offsets = offsets_of (map replication_entry (e ∷ es)); response = sent.1 }
                    ∷ [],
              ) in
              let (after, ok_) : (S × List Call) × Bool =
                elim sent.1 as (λ _. (S × List Call) × Bool) [
                  | none ↦ (calls, false)
                  | some r ↦ (calls, true)
                ] in
              if ok_
              then (
                record clr {
                  connected = true;
                  replicated_seq = last_sequence clr.replicated_seq (e ∷ es);
                  checkpoint = some (last_sequence clr.replicated_seq (e ∷ es));
                },
                after,
              )
              else (record clr { connected = false }, after))
      answered (s1, none) =
          ((offsets-behind clr.replicated_seq (e ∷ es) first, sizes, refl), (fits, saved))
      answered (s1, some answer) = (
        (
          offsets-behind clr.replicated_seq (e ∷ es) first,
          sizes,
          sym (last-offsets clr.replicated_seq (e ∷ es)),
        ),
        (fits, refl),
      )

  round_of-StepOf :
      (clr : CommandLogReplicator) (es : List CommandEntry) (s : S)
      → IsSaved clr
      → IsBatch (clr.replicated_seq + 1) cl_batch_size es
      → StepOf clr (round_of clr es s)
  unfolding round_of
  round_of-StepOf clr [] s saved h = (refl, saved)
  round_of-StepOf clr (e ∷ es) s saved h = sent_round-StepOf clr e es s saved h

  if-StepOf :
      (b : Bool) (clr : CommandLogReplicator) (s : S) (x : CommandLogReplicator × (S × List Call))
      → IsSaved clr
      → (b ≡ false → StepOf clr x)
      → StepOf clr (if◌then◌else◌ {A = CommandLogReplicator × (S × List Call)} b (clr, (s, [])) x)
  if-StepOf true clr s x saved h = (refl, saved)
  if-StepOf false clr s x saved h = h refl

  sync-StepOf :
      (connects : Bool) (clr : CommandLogReplicator) (s : S)
      → IsSaved clr
      → StepOf clr (sync_to_replica (recording replica) connects clr (s, []))
  sync-StepOf connects clr s saved =
      let from_seq = (clr.replicated_seq + 1) % 2 ^ 64 in
      let es = read_from from_seq cl_batch_size clr.command_log in
      subst (StepOf clr) (sym (sync-round_of connects clr s es refl)) (
        if-StepOf
          (leb clr.command_log.current_seq clr.replicated_seq || not (clr.connected || connects))
          clr s (round_of clr es s) saved
          (λ behind. round_of-StepOf clr es s saved (
            subst (λ n. IsBatch n cl_batch_size es) (no_wrap clr behind saved.0)
              (read_from-IsBatch from_seq cl_batch_size clr.command_log))))
    where
      no_wrap :
          (clr : CommandLogReplicator)
          → (leb clr.command_log.current_seq clr.replicated_seq || not (clr.connected || connects))
            ≡ false
          → clr.command_log.current_seq < 2 ^ 64
          → (clr.replicated_seq + 1) % 2 ^ 64 ≡ clr.replicated_seq + 1
      no_wrap clr behind fits = ground arith

current_seq-append_command :
    (c : Command) (t : Tick) (clr : CommandLogReplicator)
    → clr.command_log.current_seq < 2 ^ 64
    → (append_command c t clr).0.command_log.current_seq < 2 ^ 64
unfolding append_command append_put append_delete append_field_batch append write_entry make_room
    rotate_log_file open_new_log_file flush
current_seq-append_command (put_command key value) t clr h = ground arith
current_seq-append_command (delete_command key) t clr h = ground arith
current_seq-append_command (field_batch_command batch) t clr h = ground arith

append_command-position :
    (c : Command) (t : Tick) (clr : CommandLogReplicator)
    → ((append_command c t clr).0.replicated_seq ≡ clr.replicated_seq)
      × ((append_command c t clr).0.checkpoint ≡ clr.checkpoint)
unfolding append_command
append_command-position c t clr = (refl, refl)

perform-StepOf :
    {S : Type 0} (replica : Replica S) (a : Action) (clr : CommandLogReplicator) (s : S)
    → IsSaved clr
    → StepOf clr (perform replica a clr s)
perform-StepOf replica (synced connects) clr s saved = sync-StepOf replica connects clr s saved
perform-StepOf replica (appended c t) clr s saved =
    let (same, kept) = append_command-position c t clr in
    (
      same,
      (current_seq-append_command c t clr saved.0, ap load_checkpoint kept ∙ saved.1 ∙ sym same),
    )
perform-StepOf replica (readdressed addr) clr s saved =
    unfold update_replica_addr in ground (arith, saved)

all_rounds :
    {S : Type 0} (replica : Replica S) (actions : List Action) (clr : CommandLogReplicator) (s : S)
    → clr.command_log.current_seq < 2 ^ 64
    → load_checkpoint clr.checkpoint ≡ clr.replicated_seq
    → let (after, (last, calls)) = perform_all replica actions clr s in
      IsResumed clr.replicated_seq calls after.replicated_seq
      × (load_checkpoint after.checkpoint ≡ after.replicated_seq)
all_rounds replica [] clr s fits saved = (refl, saved)
all_rounds replica (a ∷ actions) clr s fits saved =
    let (after, (s1, calls)) = perform replica a clr s in
    let (first, (fits1, saved1)) = perform-StepOf replica a clr s (fits, saved) in
    let (rest, kept) = all_rounds replica actions after s1 fits1 saved1 in
    let (last, (s2, more)) = perform_all replica actions after s1 in
    (
      IsResumed-append clr.replicated_seq after.replicated_seq last.replicated_seq calls more first
          rest,
      kept,
    )

-- Over any rounds of the replication loop, with connections or without, among appends to the log and
-- changes of the address, from a position that the checkpoint holds, with sequence numbers that fit
-- 64 bits, and whatever the replica answers: every call sends between one entry and a batch, all of
-- them behind the position; a call that is answered moves the position to the last entry that it
-- sent, also where the answer is that the replica did not apply them, and a call that fails leaves
-- it; no call sends an entry up to a position that an earlier call left. The checkpoint holds the
-- position afterwards.
pub perform_all-IsResumed :
    {S : Type 0} (replica : Replica S) (actions : List Action) (clr : CommandLogReplicator) (s : S)
    → clr.command_log.current_seq < 2 ^ 64
    → load_checkpoint clr.checkpoint ≡ clr.replicated_seq
    → let (after, (last, calls)) = perform_all replica actions clr s in
      IsResumed clr.replicated_seq calls after.replicated_seq
      × IsNotResent clr.replicated_seq calls
      × (load_checkpoint after.checkpoint ≡ after.replicated_seq)
perform_all-IsResumed replica actions clr s fits saved =
    let (after, (last, calls)) = perform_all replica actions clr s in
    let (sent, kept) = all_rounds replica actions clr s fits saved in
    (sent, IsResumed-IsNotResent clr.replicated_seq after.replicated_seq calls sent, kept)
