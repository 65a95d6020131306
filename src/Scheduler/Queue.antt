-- ===== src/Scheduler/Queue.antt =====
-- The invariant of the migration queue, and that every operation of the scheduler keeps it.
use rockskv.Prelude.{
  ltb, ◌==◌, Bool-cases, length, take, drop, All, ℕ, zero, suc, ◌+◌, ◌%◌, ◌^◌, ◌≤◌, ◌≡◌, sym, ◌≢◌,
  inl, inr, false, none, List, [], ◌∷◌, arith,
}
use rockskv.Prelude.Dict.{Dict, lookup, delete, insert, lookup-delete, lookup-insert}
use rockskv.Routes.{migration_copying}
use rockskv.Scheduler.{
  MigrationTask, MigrationScheduler, is_queued, insert_by_priority, remove_task, activate,
}

abbrev pub IsDescending : List MigrationTask → Type 0
IsDescending [] = Unit
IsDescending (t ∷ ts) = All (λ (u : MigrationTask). u.priority ≤ t.priority) ts × IsDescending ts

abbrev pub IsDistinct : List MigrationTask → Type 0
IsDistinct [] = Unit
IsDistinct (t ∷ ts) =
    All (λ (u : MigrationTask). u.partition_id ≢ t.partition_id) ts × IsDistinct ts

abbrev pub IsIdle : Dict MigrationTask → MigrationTask → Type 0
IsIdle active t = lookup t.partition_id active ≡ none

-- The pending tasks are in the order of their priorities, no two of them are for one partition, and
-- none is for a partition that is being migrated; and every completed task was counted once.
pub record IsQueue (ms : MigrationScheduler) : Type 0 where
  pub by_priority : IsDescending ms.pending_tasks
  pub distinct : IsDistinct ms.pending_tasks
  pub idle : All (IsIdle ms.active) ms.pending_tasks
  pub counted : length ms.completed % 2 ^ 64 ≡ (ms.total_migrated + ms.total_failed) % 2 ^ 64

pub All-map :
    {P Q : MigrationTask → Type 0} (ts : List MigrationTask)
    → ((t : MigrationTask) → P t → Q t)
    → All P ts
    → All Q ts
All-map [] f h = tt
All-map (t ∷ ts) f h = (f t h.0, All-map ts f h.1)

All-drop :
    (P : MigrationTask → Type 0) (n : ℕ) (ts : List MigrationTask) → All P ts → All P (drop n ts)
All-drop P zero ts h = h
All-drop P (suc n) [] h = tt
All-drop P (suc n) (t ∷ ts) h = All-drop P n ts h.1

pub All-remove_task :
    (P : MigrationTask → Type 0) (id : ℕ) (ts : List MigrationTask)
    → All P ts
    → All P (remove_task id ts)
unfolding remove_task
All-remove_task P id [] h = tt
All-remove_task P id (t ∷ ts) h = elim (Bool-cases (t.partition_id == id)) [
  | inl e ↦ rw e h.1
  | inr e ↦ rw e (h.0, All-remove_task P id ts h.1)
]

pub All-insert_by_priority :
    (P : MigrationTask → Type 0) (t : MigrationTask) (ts : List MigrationTask)
    → P t
    → All P ts
    → All P (insert_by_priority t ts)
unfolding insert_by_priority
All-insert_by_priority P t [] p h = (p, tt)
All-insert_by_priority P t (u ∷ ts) p h = elim (Bool-cases (ltb u.priority t.priority)) [
  | inl e ↦ rw e (p, h)
  | inr e ↦ rw e (h.0, All-insert_by_priority P t ts p h.1)
]

pub drop-IsDescending :
    (n : ℕ) (ts : List MigrationTask) → IsDescending ts → IsDescending (drop n ts)
drop-IsDescending zero ts h = h
drop-IsDescending (suc n) [] h = tt
drop-IsDescending (suc n) (t ∷ ts) h = drop-IsDescending n ts h.1

pub drop-IsDistinct : (n : ℕ) (ts : List MigrationTask) → IsDistinct ts → IsDistinct (drop n ts)
drop-IsDistinct zero ts h = h
drop-IsDistinct (suc n) [] h = tt
drop-IsDistinct (suc n) (t ∷ ts) h = drop-IsDistinct n ts h.1

pub remove_task-IsDescending :
    (id : ℕ) (ts : List MigrationTask) → IsDescending ts → IsDescending (remove_task id ts)
unfolding remove_task
remove_task-IsDescending id [] h = tt
remove_task-IsDescending id (t ∷ ts) h = elim (Bool-cases (t.partition_id == id)) [
  | inl e ↦ rw e h.1
  | inr e ↦ rw e (
    All-remove_task (λ (u : MigrationTask). u.priority ≤ t.priority) id ts h.0,
    remove_task-IsDescending id ts h.1,
  )
]

pub remove_task-IsDistinct :
    (id : ℕ) (ts : List MigrationTask) → IsDistinct ts → IsDistinct (remove_task id ts)
unfolding remove_task
remove_task-IsDistinct id [] h = tt
remove_task-IsDistinct id (t ∷ ts) h = elim (Bool-cases (t.partition_id == id)) [
  | inl e ↦ rw e h.1
  | inr e ↦ rw e (
    All-remove_task (λ (u : MigrationTask). u.partition_id ≢ t.partition_id) id ts h.0,
    remove_task-IsDistinct id ts h.1,
  )
]

pub insert_by_priority-IsDescending :
    (t : MigrationTask) (ts : List MigrationTask)
    → IsDescending ts
    → IsDescending (insert_by_priority t ts)
unfolding insert_by_priority
insert_by_priority-IsDescending t [] h = (tt, tt)
insert_by_priority-IsDescending t (u ∷ ts) h = elim (Bool-cases (ltb u.priority t.priority)) [
  | inl e ↦
      let lower : u.priority ≤ t.priority = ground arith in
      rw e ((lower, All-map ts (λ x p. omega arith) h.0), h)
  | inr e ↦
      let lower : t.priority ≤ u.priority = ground arith in
      rw e (
        All-insert_by_priority (λ (x : MigrationTask). x.priority ≤ u.priority) t ts lower h.0,
        insert_by_priority-IsDescending t ts h.1,
      )
]

pub insert_by_priority-IsDistinct :
    (t : MigrationTask) (ts : List MigrationTask)
    → All (λ (u : MigrationTask). u.partition_id ≢ t.partition_id) ts
    → IsDistinct ts
    → IsDistinct (insert_by_priority t ts)
unfolding insert_by_priority
insert_by_priority-IsDistinct t [] n h = (tt, tt)
insert_by_priority-IsDistinct t (u ∷ ts) n h = elim (Bool-cases (ltb u.priority t.priority)) [
  | inl e ↦ rw e (n, h)
  | inr e ↦ rw e (
    All-insert_by_priority (λ (x : MigrationTask). x.partition_id ≢ u.partition_id) t ts
        (λ same. n.0 (sym same)) h.0,
    insert_by_priority-IsDistinct t ts n.1 h.1,
  )
]

pub is_queued_no :
    (id : ℕ) (ts : List MigrationTask)
    → is_queued id ts ≡ false
    → All (λ (u : MigrationTask). u.partition_id ≢ id) ts
unfolding is_queued
is_queued_no id [] h = tt
is_queued_no id (t ∷ ts) h = (ground arith, is_queued_no id ts (ground arith))

pub activate-IsIdle :
    (n : ℕ) (ts : List MigrationTask) (active : Dict MigrationTask)
    → IsDistinct ts
    → All (IsIdle active) ts
    → All (IsIdle (activate (take n ts) active)) (drop n ts)
unfolding activate
activate-IsIdle zero ts active d h = h
activate-IsIdle (suc n) [] active d h = tt
activate-IsIdle (suc n) (t ∷ ts) active d h = activate-IsIdle n ts _ d.1 (still ts d.0 h.1)
  where
    started : Dict MigrationTask
    started = insert t.partition_id (record t { state = migration_copying }) active

    still :
        (us : List MigrationTask)
        → All (λ (u : MigrationTask). u.partition_id ≢ t.partition_id) us
        → All (IsIdle active) us
        → All (IsIdle started) us
    still [] a b = tt
    still (u ∷ us) a b = (
      ground (
        arith,
        lookup-insert t.partition_id u.partition_id (record t { state = migration_copying }) active,
      ),
      still us a.1 b.1,
    )

pub delete-IsIdle :
    (id : ℕ) (active : Dict MigrationTask) (t : MigrationTask)
    → IsIdle active t
    → IsIdle (delete id active) t
delete-IsIdle id active t h = ground (arith, lookup-delete id t.partition_id active)
