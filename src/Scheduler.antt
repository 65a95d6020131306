-- ===== src/Scheduler.antt =====
-- The migration scheduler of pkg/metadata/migration_scheduler.go. `active` is the map activeTasks;
-- a goroutine of executeMigration is a call of `execute_migration` with the task that it was
-- started with. Tasks are values: `completed` holds each task as it was when it was put there.
-- Counters are int64 in the code and wrap here at 2 ^ 64. Time stamps are left out.
pub mod Queue
pub mod Steps
pub mod Drain
pub mod Completion
pub mod Tests
use rockskv.Prelude.{
  ltb, leb, ◌==◌, if◌then◌else◌, length, take, drop, ℕ, ◌+◌, ◌-◌, ◌*◌, ◌%◌, ◌^◌, Bool, false, not,
  ◌||◌, Option, none, some, List, [], ◌∷◌, ◌++◌,
}
use rockskv.Prelude.Dict.{Dict, lookup, delete, insert}
use rockskv.Bytes.{Bytes}
use rockskv.Routes.{
  Router, complete_migration, MigrationState, MigrationInfo, migration_preparing, migration_copying,
  migration_complete, migration_failed,
}

abbrev pub default_max_concurrent : ℕ
default_max_concurrent = 4

abbrev pub default_bandwidth_limit : ℕ
default_bandwidth_limit = 50 * 1024 * 1024

-- the error messages of a task
pub data Failure : Type 0 where
  cancelled_by_user cancelled_with_all state_not_set timed_out not_migrated : Failure

pub record MigrationTask : Type 0 where
  pub partition_id : ℕ
  pub source : Bytes
  pub target : Bytes
  pub priority : ℕ
  pub is_primary : Bool
  pub state : MigrationState
  pub bytes_copied : ℕ
  pub error_message : Option Failure

pub record MigrationScheduler : Type 0 where
  pub max_concurrent : ℕ
  pub bandwidth_limit : ℕ
  pub pending_tasks : List MigrationTask
  pub active : Dict MigrationTask
  pub completed : List MigrationTask
  pub total_migrated : ℕ
  pub total_failed : ℕ
  pub total_bytes : ℕ

unfoldable pub new_migration_scheduler : MigrationScheduler
new_migration_scheduler = record {
  max_concurrent = default_max_concurrent;
  bandwidth_limit = default_bandwidth_limit;
  pending_tasks = [];
  active = [];
  completed = [];
  total_migrated = 0;
  total_failed = 0;
  total_bytes = 0;
}

-- 0 stands for every argument that is not positive, which is ignored
unfoldable pub set_config : ℕ → ℕ → MigrationScheduler → MigrationScheduler
set_config max_concurrent bandwidth_limit ms = record ms {
  max_concurrent = if ltb 0 max_concurrent then max_concurrent else ms.max_concurrent;
  bandwidth_limit = if ltb 0 bandwidth_limit then bandwidth_limit else ms.bandwidth_limit;
}

pub data SchedulerError : Type 0 where
  already_active already_queued not_in_queue : SchedulerError

-- whether a pending task is for the partition
unfoldable pub is_queued : ℕ → List MigrationTask → Bool
is_queued id [] = false
is_queued id (t ∷ ts) = t.partition_id == id || is_queued id ts

-- higher priorities first, behind the tasks of the same priority
unfoldable pub insert_by_priority : MigrationTask → List MigrationTask → List MigrationTask
insert_by_priority task [] = task ∷ []
insert_by_priority task (t ∷ ts) =
    let rest = insert_by_priority task ts in
    if ltb t.priority task.priority then task ∷ t ∷ ts else t ∷ rest

unfoldable pub add_task :
    MigrationTask → MigrationScheduler → MigrationScheduler × Option SchedulerError
unfolding is_queued insert_by_priority
add_task task ms =
    let prepared = record task { state = migration_preparing } in
    elim (lookup task.partition_id ms.active) [
      | some t ↦ (ms, some already_active)
      | none ↦
          if is_queued task.partition_id ms.pending_tasks
          then (ms, some already_queued)
          else (record ms { pending_tasks = insert_by_priority prepared ms.pending_tasks }, none)
    ]

-- it stops at the first task that is refused
unfoldable pub add_tasks :
    List MigrationTask → MigrationScheduler → MigrationScheduler × Option SchedulerError
unfolding add_task
add_tasks [] ms = (ms, none)
add_tasks (t ∷ ts) ms =
    let (ms', e) = add_task t ms in
    let rest = add_tasks ts ms' in elim e [ none ↦ rest | some x ↦ (ms', some x) ]

-- the first pending task of the partition goes
unfoldable pub remove_task : ℕ → List MigrationTask → List MigrationTask
remove_task id [] = []
remove_task id (t ∷ ts) =
    let rest = remove_task id ts in if t.partition_id == id then ts else t ∷ rest

unfoldable pub failed : Failure → MigrationTask → MigrationTask
failed e t = record t { state = migration_failed; error_message = some e }

unfoldable pub cancel_task : ℕ → MigrationScheduler → MigrationScheduler × Option SchedulerError
unfolding remove_task failed is_queued
cancel_task id ms = elim (lookup id ms.active) [
  | some t ↦ (
    record ms {
      completed = ms.completed ++ (failed cancelled_by_user t ∷ []);
      active = delete id ms.active;
      total_failed = (ms.total_failed + 1) % 2 ^ 64;
    },
    none,
  )
  | none ↦
      if is_queued id ms.pending_tasks
      then (record ms { pending_tasks = remove_task id ms.pending_tasks }, none)
      else (ms, some not_in_queue)
]

-- the tasks of the active map, in the order of the loop over it
unfoldable pub fail_all : Dict MigrationTask → List MigrationTask
unfolding failed
fail_all [] = []
fail_all ((id, t) ∷ m) = failed cancelled_with_all t ∷ fail_all m

unfoldable pub cancel_all_tasks : MigrationScheduler → MigrationScheduler
unfolding fail_all
cancel_all_tasks ms = record ms {
  completed = ms.completed ++ fail_all ms.active;
  active = [];
  total_failed = (ms.total_failed + length ms.active) % 2 ^ 64;
  pending_tasks = [];
}

-- the loop that moves tasks into the active map
unfoldable pub activate : List MigrationTask → Dict MigrationTask → Dict MigrationTask
activate [] m = m
activate (t ∷ ts) m = activate ts (insert t.partition_id (record t { state = migration_copying }) m)

-- the goroutines of the tasks that are started are calls of `execute_migration`
unfoldable pub process_queue : MigrationScheduler → MigrationScheduler
unfolding activate
process_queue ms =
    let slots = ms.max_concurrent - length ms.active in
    let tasks_to_start = take slots ms.pending_tasks in
    if leb ms.max_concurrent (length ms.active) || length ms.pending_tasks == 0
    then ms
    else record ms {
      pending_tasks = drop (length tasks_to_start) ms.pending_tasks;
      active = activate tasks_to_start ms.active;
    }

-- `completeMigration` of the scheduler, before it cleans the migration state in the store
unfoldable pub finish : MigrationTask → Option Failure → MigrationScheduler → MigrationScheduler
unfolding failed
finish task error ms = elim error [
  | some e ↦ record ms {
    completed = ms.completed ++ (failed e task ∷ []);
    active = delete task.partition_id ms.active;
    total_failed = (ms.total_failed + 1) % 2 ^ 64;
  }
  | none ↦ record ms {
    completed = ms.completed ++ (record task { state = migration_complete } ∷ []);
    active = delete task.partition_id ms.active;
    total_migrated = (ms.total_migrated + 1) % 2 ^ 64;
    total_bytes = (ms.total_bytes + task.bytes_copied) % 2 ^ 64;
  }
]

-- which of the calls that `executeMigration` makes succeed, and whether it ends in time
pub record Calls : Type 0 where
  pub state_set : Bool
  pub in_time : Bool
  pub cleaned : Bool
  pub table_saved : Bool
  pub state_deleted : Bool

-- `SetMigrationState` and `DeleteMigrationState` of the store
unfoldable pub set_migration_state : MigrationTask → Router → Router
set_migration_state task r =
    let s = r.store in
    let info : MigrationInfo = record {
      partition_id = task.partition_id;
      target = task.target;
      state = migration_copying;
      is_primary_move = task.is_primary;
    } in
    record r { store = record s { migrations = insert task.partition_id info s.migrations } }

unfoldable pub delete_migration_state : Bool → ℕ → Router → Router
delete_migration_state succeeds id r =
    let s = r.store in
    if succeeds then record r { store = record s { migrations = delete id s.migrations } } else r

unfoldable pub complete_task :
    Calls
    → MigrationTask
    → Option Failure
    → MigrationScheduler
    → Router
    → MigrationScheduler × Router
unfolding finish delete_migration_state
complete_task c task error ms r =
    (finish task error ms, delete_migration_state c.state_deleted task.partition_id r)

unfoldable pub execute_migration :
    Calls → MigrationTask → MigrationScheduler → Router → MigrationScheduler × Router
unfolding complete_task set_migration_state
execute_migration c task ms r =
    let prepared = set_migration_state task r in
    let (moved, error) =
      complete_migration c.cleaned c.table_saved task.partition_id task.target task.is_primary
        prepared in
    if not c.state_set
    then complete_task c task (some state_not_set) ms r
    else if not c.in_time
    then complete_task c task (some timed_out) ms prepared
    else elim error [
      | some e ↦ complete_task c task (some not_migrated) ms moved
      | none ↦ complete_task c task none ms moved
    ]
