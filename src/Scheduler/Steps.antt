-- ===== src/Scheduler/Steps.antt =====
-- The operations of the scheduler as one type of steps, and what they keep.
use mathlib.Core.Path.{subst}
use rockskv.Prelude.{
  leb, ◌==◌, if◌then◌else◌, Bool-cases, length, take, drop, length-append, All, ℕ, zero, suc, ◌+◌,
  ◌-◌, ◌%◌, ◌^◌, ◌≤◌, ◌≡◌, refl, sym, ◌⊎◌, inl, inr, ◌||◌, Option, none, some, List, [], ◌∷◌, ◌++◌,
  arith,
}
use rockskv.Prelude.Dict.{Dict, lookup, delete, insert}
use rockskv.Routes.{migration_preparing, migration_copying, migration_complete}
use rockskv.Scheduler.{
  Failure, MigrationTask, MigrationScheduler, set_config, SchedulerError, is_queued,
  insert_by_priority, add_task, remove_task, failed, cancel_task, fail_all, cancel_all_tasks,
  activate, process_queue, finish, cancelled_by_user, already_active, already_queued, not_in_queue,
}
use rockskv.Scheduler.Queue.{
  IsIdle, IsQueue, All-map, All-remove_task, All-insert_by_priority, drop-IsDescending,
  drop-IsDistinct, remove_task-IsDescending, remove_task-IsDistinct,
  insert_by_priority-IsDescending, insert_by_priority-IsDistinct, is_queued_no, activate-IsIdle,
  delete-IsIdle,
}

-- A step is one operation that holds the lock; `finished` is the end of a goroutine.
pub data Step : Type 0 where
  configured : ℕ → ℕ → Step
  added : MigrationTask → Step
  cancelled : ℕ → Step
  all_cancelled : Step
  processed : Step
  finished : MigrationTask → Option Failure → Step

unfoldable pub step : Step → MigrationScheduler → MigrationScheduler
unfolding set_config add_task cancel_task cancel_all_tasks process_queue finish
step (configured max_concurrent bandwidth_limit) ms = set_config max_concurrent bandwidth_limit ms
step (added task) ms = (add_task task ms).0
step (cancelled id) ms = (cancel_task id ms).0
step all_cancelled ms = cancel_all_tasks ms
step processed ms = process_queue ms
step (finished task error) ms = finish task error ms

length-fail_all : (m : Dict MigrationTask) → length (fail_all m) ≡ length m
unfolding fail_all
length-fail_all [] = refl
length-fail_all ((id, t) ∷ m) = omega (arith, length-fail_all m)

add_task-IsQueue :
    (task : MigrationTask) (ms : MigrationScheduler) → IsQueue ms → IsQueue (add_task task ms).0
unfolding add_task
add_task-IsQueue task ms h = go (lookup task.partition_id ms.active) refl
  where
    prepared : MigrationTask
    prepared = record task { state = migration_preparing }

    go :
        (o : Option MigrationTask)
        → lookup task.partition_id ms.active ≡ o
        → IsQueue
            (elim o as (λ _. MigrationScheduler × Option SchedulerError) [
              | some t ↦ (ms, some already_active)
              | none ↦
                  if is_queued task.partition_id ms.pending_tasks
                  then (ms, some already_queued)
                  else (
                    record ms { pending_tasks = insert_by_priority prepared ms.pending_tasks },
                    none,
                  )
            ]).0
    go (some t) e = h
    go none e = elim (Bool-cases (is_queued task.partition_id ms.pending_tasks)) [
      | inl there ↦ rw there h
      | inr fresh ↦ rw fresh (record {
        by_priority = insert_by_priority-IsDescending prepared ms.pending_tasks h.by_priority;
        distinct =
            insert_by_priority-IsDistinct prepared ms.pending_tasks
              (is_queued_no task.partition_id ms.pending_tasks fresh) h.distinct;
        idle = All-insert_by_priority (IsIdle ms.active) prepared ms.pending_tasks e h.idle;
        counted = h.counted;
      })
    ]

cancel_task-IsQueue :
    (id : ℕ) (ms : MigrationScheduler) → IsQueue ms → IsQueue (cancel_task id ms).0
unfolding cancel_task
cancel_task-IsQueue id ms h = go (lookup id ms.active)
  where
    go :
        (o : Option MigrationTask)
        → IsQueue
            (elim o as (λ _. MigrationScheduler × Option SchedulerError) [
              | some t ↦ (
                record ms {
                  completed = ms.completed ++ (failed cancelled_by_user t ∷ []);
                  active = delete id ms.active;
                  total_failed = (ms.total_failed + 1) % 2 ^ 64;
                },
                none,
              )
              | none ↦
                  if is_queued id ms.pending_tasks
                  then (record ms { pending_tasks = remove_task id ms.pending_tasks }, none)
                  else (ms, some not_in_queue)
            ]).0
    go (some t) = record {
      by_priority = h.by_priority;
      distinct = h.distinct;
      idle = All-map ms.pending_tasks (delete-IsIdle id ms.active) h.idle;
      counted =
          omega (arith, h.counted, length-append ms.completed (failed cancelled_by_user t ∷ []));
    }
    go none = elim (Bool-cases (is_queued id ms.pending_tasks)) [
      | inl e ↦ rw e (record {
        by_priority = remove_task-IsDescending id ms.pending_tasks h.by_priority;
        distinct = remove_task-IsDistinct id ms.pending_tasks h.distinct;
        idle = All-remove_task (IsIdle ms.active) id ms.pending_tasks h.idle;
        counted = h.counted;
      })
      | inr e ↦ rw e h
    ]

cancel_all_tasks-IsQueue : (ms : MigrationScheduler) → IsQueue ms → IsQueue (cancel_all_tasks ms)
unfolding cancel_all_tasks
cancel_all_tasks-IsQueue ms h = record {
  by_priority = tt;
  distinct = tt;
  idle = tt;
  counted = omega (
    arith,
    h.counted,
    length-append ms.completed (fail_all ms.active),
    length-fail_all ms.active,
  );
}

finish-IsQueue :
    (task : MigrationTask) (error : Option Failure) (ms : MigrationScheduler)
    → IsQueue ms
    → IsQueue (finish task error ms)
unfolding finish
finish-IsQueue task (some e) ms h = record {
  by_priority = h.by_priority;
  distinct = h.distinct;
  idle = All-map ms.pending_tasks (delete-IsIdle task.partition_id ms.active) h.idle;
  counted = omega (arith, h.counted, length-append ms.completed (failed e task ∷ []));
}
finish-IsQueue task none ms h = record {
  by_priority = h.by_priority;
  distinct = h.distinct;
  idle = All-map ms.pending_tasks (delete-IsIdle task.partition_id ms.active) h.idle;
  counted = omega (
    arith,
    h.counted,
    length-append ms.completed (record task { state = migration_complete } ∷ []),
  );
}

drop-length-take : (n : ℕ) (ts : List MigrationTask) → drop (length (take n ts)) ts ≡ drop n ts
drop-length-take zero ts = refl
drop-length-take (suc n) [] = refl
drop-length-take (suc n) (t ∷ ts) = drop-length-take n ts

process_queue-IsQueue : (ms : MigrationScheduler) → IsQueue ms → IsQueue (process_queue ms)
unfolding process_queue
process_queue-IsQueue ms h =
    elim (Bool-cases (leb ms.max_concurrent (length ms.active) || length ms.pending_tasks == 0)) [
      | inl e ↦ rw e h
      | inr e ↦ rw e (record {
        by_priority = drop-IsDescending _ ms.pending_tasks h.by_priority;
        distinct = drop-IsDistinct _ ms.pending_tasks h.distinct;
        idle =
            subst (All (IsIdle (activate (take slots ms.pending_tasks) ms.active)))
              (sym (drop-length-take slots ms.pending_tasks))
              (activate-IsIdle slots ms.pending_tasks ms.active h.distinct h.idle);
        counted = h.counted;
      })
    ]
  where
    slots : ℕ
    slots = ms.max_concurrent - length ms.active

-- Every operation of the scheduler keeps the invariant of its queue: the pending tasks stay ordered
-- by priority, at most one for each partition and none for a partition that is being migrated, and
-- each task put among the completed ones is counted as migrated or failed (modulo 2 ^ 64).
pub step-IsQueue : (s : Step) (ms : MigrationScheduler) → IsQueue ms → IsQueue (step s ms)
unfolding step
step-IsQueue (configured m b) ms h =
    unfold set_config in
    record {
      by_priority = h.by_priority;
      distinct = h.distinct;
      idle = h.idle;
      counted = h.counted;
    }
step-IsQueue (added task) ms h = add_task-IsQueue task ms h
step-IsQueue (cancelled id) ms h = cancel_task-IsQueue id ms h
step-IsQueue all_cancelled ms h = cancel_all_tasks-IsQueue ms h
step-IsQueue processed ms h = process_queue-IsQueue ms h
step-IsQueue (finished task error) ms h = finish-IsQueue task error ms h

length-delete : (k : ℕ) (m : Dict MigrationTask) → length (delete k m) ≤ length m
unfolding delete
length-delete k [] = omega arith
length-delete k ((j, t) ∷ m) = ground (arith, length-delete k m)

length-activate :
    (n : ℕ) (ts : List MigrationTask) (m : Dict MigrationTask)
    → length (activate (take n ts) m) ≤ n + length m
unfolding activate insert
length-activate zero ts m = omega arith
length-activate (suc n) [] m = omega arith
length-activate (suc n) (t ∷ ts) m = omega (
  arith,
  length-activate n ts (insert t.partition_id (record t { state = migration_copying }) m),
  length-delete t.partition_id m,
)

-- No step raises the number of active migrations above the configured limit: afterwards it is at
-- most the limit, or at most what it was before.
pub step-active_le :
    (s : Step) (ms : MigrationScheduler)
    → (length (step s ms).active ≤ ms.max_concurrent)
      ⊎ (length (step s ms).active ≤ length ms.active)
unfolding step
step-active_le (configured m b) ms = inr (unfold set_config in omega arith)
step-active_le (added task) ms = inr (unfold add_task in ground arith)
step-active_le (cancelled id) ms =
    inr (unfold cancel_task in ground (arith, length-delete id ms.active))
step-active_le all_cancelled ms = inr (unfold cancel_all_tasks in omega arith)
step-active_le processed ms =
    unfold process_queue in
    ground
      (arith, length-activate (ms.max_concurrent - length ms.active) ms.pending_tasks ms.active)
step-active_le (finished task none) ms =
    inr (unfold finish in length-delete task.partition_id ms.active)
step-active_le (finished task (some e)) ms =
    inr (unfold finish in length-delete task.partition_id ms.active)
