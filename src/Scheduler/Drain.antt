-- ===== src/Scheduler/Drain.antt =====
-- That the queue drains: `WaitForCompletion` of pkg/metadata/migration_scheduler.go returns once
-- every migration that was started has ended and the queue was processed often enough.
use mathlib.Core.Path.{subst}
use rockskv.Prelude.{
  leb, ◌==◌, Bool-cases, length, take, length-drop, All, ℕ, zero, suc, ◌-◌, ◌≤◌, ◌<◌, ◌≡◌, refl,
  sym, ap, ◌∙◌, inl, inr, Bool, true, false, ◌&&◌, ◌||◌, Option, none, some, List, [], ◌∷◌, arith,
}
use rockskv.Prelude.Dict.{Dict, delete, insert}
use rockskv.Scheduler.{Failure, MigrationTask, MigrationScheduler, activate, process_queue, finish}

-- the test of `WaitForCompletion`
unfoldable pub is_complete : MigrationScheduler → Bool
is_complete ms = (length ms.pending_tasks == 0) && (length ms.active == 0)

-- The migrations of a map end, each with an outcome of its own.
abbrev pub end_all :
    (MigrationTask → Option Failure) → Dict MigrationTask → MigrationScheduler → MigrationScheduler
end_all outcome [] ms = ms
end_all outcome ((id, t) ∷ m) ms = end_all outcome m (finish t (outcome t) ms)

-- The queue is processed, and then every active migration ends.
abbrev pub round : (MigrationTask → Option Failure) → MigrationScheduler → MigrationScheduler
round outcome ms = end_all outcome (process_queue ms).active (process_queue ms)

abbrev pub rounds : (MigrationTask → Option Failure) → ℕ → MigrationScheduler → MigrationScheduler
rounds outcome zero ms = ms
rounds outcome (suc n) ms = rounds outcome n (round outcome ms)

-- Every active migration stands under its partition.
abbrev pub IsKeyed : Dict MigrationTask → Type 0
IsKeyed m = All (λ (e : ℕ × MigrationTask). e.0 ≡ e.1.partition_id) m

delete-IsKeyed : (k : ℕ) (m : Dict MigrationTask) → IsKeyed m → IsKeyed (delete k m)
unfolding delete
delete-IsKeyed k [] h = tt
delete-IsKeyed k ((j, t) ∷ m) h = elim (Bool-cases (j == k)) [
  | inl e ↦ rw e (delete-IsKeyed k m h.1)
  | inr e ↦ rw e (h.0, delete-IsKeyed k m h.1)
]

activate-IsKeyed :
    (ts : List MigrationTask) (m : Dict MigrationTask) → IsKeyed m → IsKeyed (activate ts m)
unfolding activate insert
activate-IsKeyed [] m h = h
activate-IsKeyed (t ∷ ts) m h = activate-IsKeyed ts _ (refl, delete-IsKeyed t.partition_id m h)

process_queue-IsKeyed :
    (ms : MigrationScheduler) → IsKeyed ms.active → IsKeyed (process_queue ms).active
unfolding process_queue
process_queue-IsKeyed ms h =
    elim (Bool-cases (leb ms.max_concurrent (length ms.active) || length ms.pending_tasks == 0)) [
      | inl e ↦ rw e h
      | inr e ↦ rw e (
          activate-IsKeyed (take (ms.max_concurrent - length ms.active) ms.pending_tasks) ms.active
            h)
    ]

-- the keys of `a` are partitions of `m`
abbrev has_task : Dict MigrationTask → ℕ → Bool
has_task [] k = false
has_task ((j, t) ∷ m) k = t.partition_id == k || has_task m k

abbrev IsWithin : Dict MigrationTask → Dict MigrationTask → Type 0
IsWithin m a = All (λ (e : ℕ × MigrationTask). has_task m e.0 ≡ true) a

delete-IsWithin :
    (j : ℕ) (t : MigrationTask) (m a : Dict MigrationTask)
    → IsWithin ((j, t) ∷ m) a
    → IsWithin m (delete t.partition_id a)
unfolding delete
delete-IsWithin j t m [] h = tt
delete-IsWithin j t m ((k, u) ∷ a) h = elim (Bool-cases (k == t.partition_id)) [
  | inl e ↦ rw e (delete-IsWithin j t m a h.1)
  | inr e ↦ rw e (ground arith, delete-IsWithin j t m a h.1)
]

cons-IsWithin :
    (e : ℕ × MigrationTask) (m a : Dict MigrationTask) → IsWithin m a → IsWithin (e ∷ m) a
cons-IsWithin e m [] h = tt
cons-IsWithin e m (f ∷ a) h = (ground arith, cons-IsWithin e m a h.1)

IsKeyed-IsWithin : (m : Dict MigrationTask) → IsKeyed m → IsWithin m m
IsKeyed-IsWithin [] h = tt
IsKeyed-IsWithin (e ∷ m) h = (ground arith, cons-IsWithin e m m (IsKeyed-IsWithin m h.1))

finish_lem :
    (t : MigrationTask) (o : Option Failure) (ms : MigrationScheduler)
    → let after = finish t o ms in
      (after.active ≡ delete t.partition_id ms.active)
      × (after.pending_tasks ≡ ms.pending_tasks)
      × (after.max_concurrent ≡ ms.max_concurrent)
unfolding finish
finish_lem t none ms = (refl, refl, refl)
finish_lem t (some e) ms = (refl, refl, refl)

end_all_lem :
    (outcome : MigrationTask → Option Failure) (m : Dict MigrationTask) (ms : MigrationScheduler)
    → IsWithin m ms.active
    → let after = end_all outcome m ms in
      (after.active ≡ [])
      × (after.pending_tasks ≡ ms.pending_tasks)
      × (after.max_concurrent ≡ ms.max_concurrent)
end_all_lem outcome [] ms h = (empty ms.active h, refl, refl)
  where
    empty : (a : Dict MigrationTask) → IsWithin [] a → a ≡ []
    empty [] h = refl
    empty (e ∷ a) h = cc
end_all_lem outcome ((j, t) ∷ m) ms h =
    let (gone, same, limit) = finish_lem t (outcome t) ms in
    let (gone2, same2, limit2) =
      end_all_lem outcome m (finish t (outcome t) ms)
        (subst (IsWithin m) (sym gone) (delete-IsWithin j t m ms.active h)) in
    (gone2, same2 ∙ same, limit2 ∙ limit)

take_some : (n : ℕ) (ts : List MigrationTask) → 0 < n → 0 < length ts → 0 < length (take n ts)
take_some zero ts hn ht = absurd (omega arith)
take_some (suc n) [] hn ht = absurd (omega arith)
take_some (suc n) (t ∷ ts) hn ht = omega arith

process_queue-pending :
    (ms : MigrationScheduler)
    → let after = process_queue ms in
      (length after.pending_tasks ≤ length ms.pending_tasks)
      × (after.max_concurrent ≡ ms.max_concurrent)
      × (ms.active ≡ []
          → 0 < ms.max_concurrent
          → length after.pending_tasks ≤ length ms.pending_tasks - 1)
unfolding process_queue
process_queue-pending ms =
    let slots = ms.max_concurrent - length ms.active in
    let n = length (take slots ms.pending_tasks) in
    let fewer = length-drop n ms.pending_tasks in
    elim (Bool-cases (leb ms.max_concurrent (length ms.active) || length ms.pending_tasks == 0)) [
      | inl e ↦ rw e (omega arith, refl, λ idle room. ground (arith, ap length idle))
      | inr e ↦ rw e (
        omega (arith, fewer),
        refl,
        λ idle room.
            let all_free : length ms.active ≡ 0 = ap length idle in
            let some_pending : 0 < length ms.pending_tasks = ground arith in
            omega (arith, fewer, take_some slots ms.pending_tasks (omega arith) some_pending),
      )
    ]

round_lem :
    (outcome : MigrationTask → Option Failure) (ms : MigrationScheduler)
    → IsKeyed ms.active
    → let after = round outcome ms in
      (after.active ≡ [])
      × (after.pending_tasks ≡ (process_queue ms).pending_tasks)
      × (after.max_concurrent ≡ (process_queue ms).max_concurrent)
round_lem outcome ms keyed =
    end_all_lem outcome (process_queue ms).active (process_queue ms)
      (IsKeyed-IsWithin (process_queue ms).active (process_queue-IsKeyed ms keyed))

idle_rounds :
    (outcome : MigrationTask → Option Failure) (n : ℕ) (ms : MigrationScheduler)
    → ms.active ≡ []
    → 0 < ms.max_concurrent
    → length ms.pending_tasks ≤ n
    → is_complete (rounds outcome n ms) ≡ true
idle_rounds outcome zero ms idle room few = unfold is_complete in ground (arith, ap length idle)
idle_rounds outcome (suc n) ms idle room few =
    let keyed : IsKeyed ms.active = subst IsKeyed (sym idle) tt in
    let (idle2, same, limit) = round_lem outcome ms keyed in
    let (few2, kept, fewer) = process_queue-pending ms in
    idle_rounds outcome n (round outcome ms) idle2 (omega (arith, limit, kept))
      (omega (arith, ap length same, fewer idle room))

-- From any state in which at least one migration may run at a time and every active migration
-- stands under its partition: after one round for each pending task and one more, whatever the
-- outcomes of the migrations are, nothing is pending or active, and `WaitForCompletion` returns.
pub is_complete-rounds :
    (outcome : MigrationTask → Option Failure) (n : ℕ) (ms : MigrationScheduler)
    → IsKeyed ms.active
    → 0 < ms.max_concurrent
    → length ms.pending_tasks ≤ n
    → is_complete (rounds outcome (suc n) ms) ≡ true
is_complete-rounds outcome n ms keyed room few =
    let (idle, same, limit) = round_lem outcome ms keyed in
    let (few2, kept, fewer) = process_queue-pending ms in
    idle_rounds outcome n (round outcome ms) idle (omega (arith, limit, kept))
      (omega (arith, ap length same, few2))
