-- ===== src/Scheduler/Completion.antt =====
-- Where a task is queued, and what becomes of a task that is cancelled while it runs.
use mathlib.Core.Path.{subst}
use rockskv.Prelude.{
  ltb, ◌==◌, if_true, Bool-cases, length, length-append, All, ℕ, ◌+◌, ◌%◌, ◌^◌, ◌≤◌, ◌<◌, ◌≡◌, refl,
  sym, ap, ◌∙◌, inl, inr, Bool, true, Option, none, some, List, [], ◌∷◌, ◌++◌, arith,
}
use rockskv.Prelude.Dict.{lookup, apply_at}
use rockskv.Bytes.{Bytes}
use rockskv.Routes.{
  stored_table, update_route_table, copy_routing, Router, RouteError, save, migrated,
  complete_migration, PartitionInfo, RouteTable, migration_preparing, migration_complete,
}
use rockskv.Routes.Change.{migrated_entry, migrated_at, lookup-migrated}
use rockskv.Scheduler.{
  MigrationTask, MigrationScheduler, insert_by_priority, add_task, failed, cancel_task, finish,
  Calls, set_migration_state, delete_migration_state, complete_task, execute_migration,
  cancelled_by_user, not_migrated,
}
use rockskv.Scheduler.Queue.{IsDescending, IsQueue, All-map}

-- A place for the task: all tasks before it have at least its priority, all behind it a lower one.
pub record Placed (task : MigrationTask) (old new : List MigrationTask) : Type 0 where
  pub before : List MigrationTask
  pub behind : List MigrationTask
  pub split : old ≡ before ++ behind
  pub joined : new ≡ before ++ (task ∷ behind)
  pub not_lower : All (λ (t : MigrationTask). task.priority ≤ t.priority) before
  pub lower : All (λ (t : MigrationTask). t.priority < task.priority) behind

insert_by_priority-Placed :
    (task : MigrationTask) (ts : List MigrationTask)
    → IsDescending ts
    → Placed task ts (insert_by_priority task ts)
unfolding insert_by_priority
insert_by_priority-Placed task [] h = record {
  before = [];
  behind = [];
  split = refl;
  joined = refl;
  not_lower = tt;
  lower = tt;
}
insert_by_priority-Placed task (t ∷ ts) h = elim (Bool-cases (ltb t.priority task.priority)) [
  | inl e ↦
      let less : t.priority < task.priority = ground arith in
      rw e (record {
        before = [];
        behind = t ∷ ts;
        split = refl;
        joined = refl;
        not_lower = tt;
        lower = (less, All-map ts (λ x p. omega arith) h.0);
      })
  | inr e ↦
      let enough : task.priority ≤ t.priority = ground arith in
      let rest = insert_by_priority-Placed task ts h.1 in
      rw e (record {
        before = t ∷ rest.before;
        behind = rest.behind;
        split = ap (λ (l : List MigrationTask). t ∷ l) rest.split;
        joined = ap (λ (l : List MigrationTask). t ∷ l) rest.joined;
        not_lower = (enough, rest.not_lower);
        lower = rest.lower;
      })
]

-- Where the invariant of the queue holds, a task that `AddTask` accepts is queued behind every
-- pending task with at least its priority and before every pending task with a lower one; the
-- others keep their order.
pub add_task-Placed :
    (task : MigrationTask) (ms : MigrationScheduler)
    → IsQueue ms
    → (add_task task ms).1 ≡ none
    → Placed
        (record task { state = migration_preparing })
        ms.pending_tasks
        (add_task task ms).0.pending_tasks
add_task-Placed task ms h e =
    subst (Placed prepared ms.pending_tasks) (sym (queue e))
      (insert_by_priority-Placed prepared ms.pending_tasks h.by_priority)
  where
    prepared : MigrationTask
    prepared = record task { state = migration_preparing }

    queue :
        (add_task task ms).1 ≡ none
        → (add_task task ms).0.pending_tasks ≡ insert_by_priority prepared ms.pending_tasks
    queue x = unfold add_task in ground arith

complete_migration_found :
    (id : ℕ) (node : Bytes) (b : Bool) (r : Router) (p : PartitionInfo)
    → lookup id r.route_table.partitions ≡ some p
    → ((complete_migration true true id node b r).1 ≡ none)
      × ((stored_table (complete_migration true true id node b r).0.store).partitions
          ≡ (migrated id node b r.route_table).partitions)
unfolding complete_migration save stored_table update_route_table
complete_migration_found id node b r p e = ground arith

lookup-migrated_found :
    (id : ℕ) (node : Bytes) (b : Bool) (t : RouteTable) (p : PartitionInfo)
    → lookup id t.partitions ≡ some p
    → lookup id (migrated id node b t).partitions ≡ some (migrated_entry node b (copy_routing p))
lookup-migrated_found id node b t p e =
    lookup-migrated id id node b t
    ∙ ap (apply_at (migrated_at id node b) id) e
    ∙ ap some (if_true (id == id) _ _ (ground arith))

cancel_task_active :
    (task : MigrationTask) (ms : MigrationScheduler)
    → lookup task.partition_id ms.active ≡ some task
    → let cancelled = cancel_task task.partition_id ms in
      (cancelled.1 ≡ none)
      × (cancelled.0.total_failed ≡ (ms.total_failed + 1) % 2 ^ 64)
      × (cancelled.0.total_migrated ≡ ms.total_migrated)
      × (length cancelled.0.completed ≡ length ms.completed + 1)
unfolding cancel_task
cancel_task_active task ms e =
    ground (arith, length-append ms.completed (failed cancelled_by_user task ∷ []))

-- every call succeeds, in time
abbrev pub all_calls : Calls
all_calls = record {
  state_set = true;
  in_time = true;
  cleaned = true;
  table_saved = true;
  state_deleted = true;
}

-- the router after a move that succeeds
abbrev moved : MigrationTask → Router → Router
moved task r =
    (complete_migration true true task.partition_id task.target task.is_primary
      (set_migration_state task r)).0

execute_migration_found :
    (task : MigrationTask) (ms : MigrationScheduler) (r : Router) (p : PartitionInfo)
    → lookup task.partition_id r.route_table.partitions ≡ some p
    → execute_migration all_calls task ms r ≡ complete_task all_calls task none ms (moved task r)
unfolding execute_migration
execute_migration_found task ms r p known =
    go _
      (complete_migration_found task.partition_id task.target task.is_primary
        (set_migration_state task r) p (unfold set_migration_state in known)).0
  where
    go :
        (o : Option RouteError)
        → o ≡ none
        → elim o as (λ _. MigrationScheduler × Router) [
          | some e ↦ complete_task all_calls task (some not_migrated) ms (moved task r)
          | none ↦ complete_task all_calls task none ms (moved task r)
        ]
          ≡ complete_task all_calls task none ms (moved task r)
    go none h = refl
    go (some e) h = cc

moved_table :
    (task : MigrationTask) (ms : MigrationScheduler) (r : Router) (p : PartitionInfo)
    → lookup task.partition_id r.route_table.partitions ≡ some p
    → lookup task.partition_id
        (stored_table (complete_task all_calls task none ms (moved task r)).1.store).partitions
      ≡ some (migrated_entry task.target task.is_primary (copy_routing p))
unfolding complete_task delete_migration_state set_migration_state
moved_table task ms r p known =
    ap (lookup task.partition_id) (
      kept (moved task r)
      ∙ (complete_migration_found task.partition_id task.target task.is_primary
          (set_migration_state task r) p known).1)
    ∙ lookup-migrated_found task.partition_id task.target task.is_primary r.route_table p known
  where
    kept :
        (x : Router)
        → (stored_table (delete_migration_state true task.partition_id x).store).partitions
          ≡ (stored_table x.store).partitions
    kept x = unfold stored_table in refl

finish_counts :
    (task : MigrationTask) (ms : MigrationScheduler) (r : Router)
    → let ended = (complete_task all_calls task none ms r).0 in
      (ended.total_failed ≡ ms.total_failed)
      × (ended.total_migrated ≡ (ms.total_migrated + 1) % 2 ^ 64)
      × (length ended.completed ≡ length ms.completed + 1)
unfolding complete_task finish
finish_counts task ms r =
    (refl, refl, length-append ms.completed (record task { state = migration_complete } ∷ []))

-- A task that is cancelled while it runs and then ends in time, its calls to the store
-- all successful and its partition known to the router: the cancellation succeeds, and still the
-- stored route table has the partition moved to the target, and the one task is counted once as
-- failed and once as migrated.
pub execute_migration-cancel_task :
    (task : MigrationTask) (ms : MigrationScheduler) (r : Router) (p : PartitionInfo)
    → lookup task.partition_id ms.active ≡ some task
    → lookup task.partition_id r.route_table.partitions ≡ some p
    → let cancelled = cancel_task task.partition_id ms in
      let ended = execute_migration all_calls task cancelled.0 r in
      (cancelled.1 ≡ none)
      × (lookup task.partition_id (stored_table ended.1.store).partitions
          ≡ some (migrated_entry task.target task.is_primary (copy_routing p)))
      × (ended.0.total_failed ≡ (ms.total_failed + 1) % 2 ^ 64)
      × (ended.0.total_migrated ≡ (ms.total_migrated + 1) % 2 ^ 64)
      × (length ended.0.completed ≡ length ms.completed + 2)
execute_migration-cancel_task task ms r p active known =
    let cancelled = (cancel_task task.partition_id ms).0 in
    let (accepted, failures, migrations, entries) = cancel_task_active task ms active in
    let (failures', migrations', entries') = finish_counts task cancelled (moved task r) in
    rw (execute_migration_found task cancelled r p known) (
      accepted,
      moved_table task cancelled r p known,
      failures' ∙ failures,
      migrations' ∙ ap (λ (n : ℕ). (n + 1) % 2 ^ 64) migrations,
      omega (arith, entries, entries'),
    )
