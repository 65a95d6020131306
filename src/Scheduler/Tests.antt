-- ===== src/Scheduler/Tests.antt =====
-- The migration scheduler at concrete inputs.
use rockskv.Prelude.{length, ◌≤◌, ◌≡◌, refl, ◌⊎◌, true, none, some, [], ◌∷◌, arith}
use rockskv.Prelude.Dict.{lookup}
use rockskv.Bytes.{ascii}
use rockskv.Ring.{new_consistent_hash}
use rockskv.Routes.{
  stored_table, copy_routing, Router, PartitionInfo, running, migrating_out, migration_none,
  migration_preparing, migration_copying,
}
use rockskv.Routes.Change.{migrated_entry}
use rockskv.Scheduler.{MigrationTask, MigrationScheduler, add_task, cancel_task, execute_migration}
use rockskv.Scheduler.Queue.{IsQueue}
use rockskv.Scheduler.Drain.{is_complete, rounds, is_complete-rounds}
use rockskv.Scheduler.Steps.{step, step-IsQueue, step-active_le, processed}
use rockskv.Scheduler.Completion.{all_calls, execute_migration-cancel_task}

abbrev move_1 : MigrationTask
move_1 = record {
  partition_id = 1;
  source = ascii "a";
  target = ascii "c";
  priority = 1;
  is_primary = true;
  state = migration_copying;
  bytes_copied = 0;
  error_message = none;
}

abbrev move_2 : MigrationTask
move_2 = record move_1 { partition_id = 2; priority = 2; state = migration_preparing }

abbrev move_3 : MigrationTask
move_3 = record move_2 { partition_id = 3; priority = 0 }

-- One migration is running, two are waiting.
abbrev busy : MigrationScheduler
busy = record {
  max_concurrent = 2;
  bandwidth_limit = 1000;
  pending_tasks = move_2 ∷ move_3 ∷ [];
  active = (1, move_1) ∷ [];
  completed = [];
  total_migrated = 0;
  total_failed = 0;
  total_bytes = 0;
}

busy-IsQueue : IsQueue busy
unfolding lookup
busy-IsQueue = record {
  by_priority = ((omega arith, tt), (tt, tt));
  distinct = ((omega arith, tt), (tt, tt));
  idle = (refl, (refl, tt));
  counted = refl;
}

abbrev entry_1 : PartitionInfo
entry_1 = record {
  id = 1;
  primary = ascii "a";
  replica = ascii "b";
  status = migrating_out;
  migration_target = [];
  migration_state = migration_none;
  epoch = 6;
}

abbrev router : Router
router = record {
  route_table = record { version = 2; partitions = (1, entry_1) ∷ [] };
  hash_ring = new_consistent_hash 150;
  store = record {
    cluster_state = running;
    storage_nodes = [];
    other_nodes = [];
    route_table = some (record { version = 2; partitions = (1, entry_1) ∷ [] });
    migrations = [];
  };
}

busy-active : lookup 1 busy.active ≡ some move_1
unfolding lookup
busy-active = refl

router-known : lookup 1 router.route_table.partitions ≡ some entry_1
unfolding lookup
router-known = refl

step-IsQueue_example : IsQueue (step processed busy)
step-IsQueue_example = step-IsQueue processed busy busy-IsQueue

step-active_le_example :
    (length (step processed busy).active ≤ 2) ⊎ (length (step processed busy).active ≤ 1)
step-active_le_example = step-active_le processed busy

abbrev move_4 : MigrationTask
move_4 = record move_2 { partition_id = 4; priority = 1 }

move_4-accepted : (add_task move_4 busy).1 ≡ none
unfolding add_task lookup
move_4-accepted = refl

execute_migration-cancel_task_example :
    let cancelled = cancel_task 1 busy in
    let ended = execute_migration all_calls move_1 cancelled.0 router in
    (cancelled.1 ≡ none)
    × (lookup 1 (stored_table ended.1.store).partitions
        ≡ some (migrated_entry (ascii "c") true (copy_routing entry_1)))
    × (ended.0.total_failed ≡ 1)
    × (ended.0.total_migrated ≡ 1)
    × (length ended.0.completed ≡ 2)
execute_migration-cancel_task_example =
    execute_migration-cancel_task move_1 busy router entry_1 busy-active router-known

is_complete-rounds_example : is_complete (rounds (λ t. none) 3 busy) ≡ true
is_complete-rounds_example =
    is_complete-rounds (λ t. none) 2 busy (refl, tt) (omega arith) (omega arith)
