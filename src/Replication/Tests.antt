-- ===== src/Replication/Tests.antt =====
-- A round of replication to a replica that refuses what it is sent.
use rockskv.Replication.Resumed.{Action, perform_all, IsResumed, IsNotResent, synced, appended}
use rockskv.Replication.Rounds.{perform_all-IsResumed}
use rockskv.Prelude.{ℕ, suc, ◌^◌, ◌<◌, ◌≡◌, refl, true, false, none, some, List, [], ◌∷◌, arith}
use rockskv.Bytes.{ascii}
use rockskv.CommandLog.Tests.{torn_log}
use rockskv.CommandLog.Log.{sync}
use rockskv.Replication.{CommandLogReplicator, load_checkpoint, Replica, delete_command}

abbrev refusing : Replica ℕ
refusing id entries n = (suc n, some (record { success = false; last_applied_offset = 0 }))

abbrev clr : CommandLogReplicator
clr = record {
  partition_id = 3;
  replica_addr = ascii "b";
  is_primary = true;
  command_log = sync torn_log;
  replicated_seq = 0;
  checkpoint = none;
  connected = false;
}

-- a round, which is refused, and one after another append
abbrev two_rounds : List Action
two_rounds =
    synced true
    ∷ appended (delete_command (ascii "k")) (record { now = 20; file_time = 20 })
    ∷ synced false
    ∷ []

clr_fits : clr.command_log.current_seq < 2 ^ 64
unfolding sync
clr_fits = omega arith

perform_all-IsResumed_example :
    let (after, (last, calls)) = perform_all refusing two_rounds clr 0 in
    IsResumed 0 calls after.replicated_seq
    × IsNotResent 0 calls
    × (load_checkpoint after.checkpoint ≡ after.replicated_seq)
perform_all-IsResumed_example = perform_all-IsResumed refusing two_rounds clr 0 clr_fits refl
