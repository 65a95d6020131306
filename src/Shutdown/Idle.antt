-- ===== src/Shutdown/Idle.antt =====
-- The parts of a controlled shutdown where every partition has a second copy, and what it does with a
-- scheduler that has no task.
use rockskv.Prelude.{
  if_true, All, ℕ, ◌%◌, ◌^◌, ◌≡◌, refl, ap, ◌∙◌, Bool, true, false, Option, none, some, List, [],
  ◌∷◌, arith,
}
use rockskv.Prelude.Dict.{Dict, lookup}
use rockskv.Bytes.{Bytes}
use rockskv.Routes.Nodes.{find_node, get_node, with_status, update_node_status}
use rockskv.Ring.{ConsistentHash}
use rockskv.Routes.{
  stored_table, Router, save, watch, deliver_if, promote_replica, NodeStatus, NodeInfo,
  PartitionInfo, Etcd,
}
use rockskv.Failover.{promote_all}
use rockskv.Scheduler.{MigrationScheduler, process_queue}
use rockskv.Shutdown.{
  ShutdownCalls, Event, happen, happen_all, Progress, promote_other, has_other_replica,
  leave_primary, deliver_between, leave_primaries, wait_for_scheduler, set_node_status,
  leave_cluster, processed, watched, ended,
}

abbrev pub HasOther : Bytes → Dict PartitionInfo → ℕ → Type 0
HasOther addr m id =
    (p : PartitionInfo) × (lookup id m ≡ some p) × (has_other_replica addr p ≡ true)

-- No task is pending or active.
abbrev pub IsIdle : MigrationScheduler → Type 0
IsIdle ms = (ms.pending_tasks ≡ []) × (ms.active ≡ [])

pub router-promote_other :
    (c : ShutdownCalls) (id : ℕ) (pr : Progress)
    → ((promote_other c id pr).router ≡ (promote_replica (c.promoted id) id pr.router).0)
      × ((promote_other c id pr).scheduler ≡ pr.scheduler)
unfolding promote_other
router-promote_other c id pr = ground arith

-- where every partition has another replica, the loop over the primaries is that of a failover
pub leave_primaries-promote_all :
    (c : ShutdownCalls) (ring : ConsistentHash) (addr : Bytes) (table : Dict PartitionInfo)
    (ids : List ℕ) (pr : Progress)
    → All (HasOther addr table) ids
    → let after = leave_primaries c ring addr table ids pr in
      (after.router ≡ promote_all c.promoted c.delivered ids pr.router)
      × (after.scheduler ≡ pr.scheduler)
unfolding leave_primaries promote_all deliver_between
leave_primaries-promote_all c ring addr table [] pr h = (refl, refl)
leave_primaries-promote_all c ring addr table (id ∷ ids) pr ((p, found, other), h) =
    let (routed, kept) = router-promote_other c id pr in
    let (rest, scheduled) =
      leave_primaries-promote_all c ring addr table ids
        (deliver_between (c.delivered id) (promote_other c id pr)) h in
    let step : leave_primary c ring addr p id pr ≡ promote_other c id pr =
      unfold leave_primary in if_true (has_other_replica addr p) _ _ other in
    rw (found, leave_primaries, step)
      (
        rest
            ∙ ap
                (λ (x : Router).
                  promote_all c.promoted c.delivered ids (deliver_if (c.delivered id) x))
                routed,
        scheduled ∙ kept,
      )

pub process_queue-IsIdle : (ms : MigrationScheduler) → IsIdle ms → process_queue ms ≡ ms
unfolding process_queue
process_queue-IsIdle ms h = ground (arith, h.0)

-- the router while the method waits: nothing but deliveries reach it
unfoldable pub waited_router : List Event → Router → Router
unfolding watch
waited_router [] r = r
waited_router (watched ∷ es) r = waited_router es (watch r)
waited_router (e ∷ es) r = waited_router es r

pub store-waited_router : (es : List Event) (r : Router) → (waited_router es r).store ≡ r.store
unfolding waited_router watch
store-waited_router [] r = refl
store-waited_router (watched ∷ es) r = store-waited_router es (watch r)
store-waited_router (processed ∷ es) r = store-waited_router es r
store-waited_router (ended c id ∷ es) r = store-waited_router es r

pub happen_all-IsIdle :
    (es : List Event) (ms : MigrationScheduler) (r : Router)
    → IsIdle ms
    → happen_all es (ms, r) ≡ (ms, waited_router es r)
unfolding happen_all happen waited_router
happen_all-IsIdle [] ms r h = refl
happen_all-IsIdle (watched ∷ es) ms r h = happen_all-IsIdle es ms (watch r) h
happen_all-IsIdle (processed ∷ es) ms r h =
    ap (λ (m : MigrationScheduler). happen_all es (m, r)) (process_queue-IsIdle ms h)
    ∙ happen_all-IsIdle es ms r h
happen_all-IsIdle (ended c id ∷ es) ms r h =
    let no_task : lookup id ms.active ≡ none = unfold lookup in ap (lookup id) h.1 in
    ap (happen_all es) (rw (no_task, happen) refl) ∙ happen_all-IsIdle es ms r h

abbrev pub with_new_status : NodeStatus → Option NodeInfo → Option NodeInfo
with_new_status status none = none
with_new_status status (some n) = some (record n { status = status })

pub find_node-with_status :
    (id : Bytes) (status : NodeStatus) (ns : List NodeInfo)
    → find_node id (with_status id status ns) ≡ with_new_status status (find_node id ns)
unfolding find_node with_status
find_node-with_status id status [] = refl
find_node-with_status id status (n ∷ ns) = ground (arith, find_node-with_status id status ns)

pub get_node-update_node_status :
    (id : Bytes) (status : NodeStatus) (s : Etcd)
    → get_node id (update_node_status id status s) ≡ with_new_status status (get_node id s)
unfolding get_node update_node_status
get_node-update_node_status id status s = ground (
  arith,
  find_node-with_status id status s.storage_nodes,
  find_node-with_status id status s.other_nodes,
)

abbrev pub every_call : (ℕ → Bool) → ShutdownCalls
every_call delivered = record {
  node_read = true;
  draining_set = true;
  nodes_listed = true;
  removed_set = true;
  promoted = λ _. true;
  cleaned = λ _. true;
  saved = λ _. true;
  delivered = delivered;
  delivered_again = λ _. true;
}

abbrev pub set_draining : Bytes → Router → Router
set_draining id r = set_node_status id NodeStatus.draining r

pub stored_table-leave_cluster :
    (b : Bool) (id addr : Bytes) (r : Router)
    → stored_table (leave_cluster b id addr r).store ≡ stored_table r.store
unfolding leave_cluster stored_table set_node_status
stored_table-leave_cluster b id addr r = ground arith

pub nodes-deliver_if : (b : Bool) (r : Router) → (deliver_if b r).store ≡ r.store
unfolding deliver_if watch
nodes-deliver_if true r = refl
nodes-deliver_if false r = refl

pub nodes-promote_all :
    (reachable delivered : ℕ → Bool) (ids : List ℕ) (id : Bytes) (r : Router)
    → get_node id (promote_all reachable delivered ids r).store ≡ get_node id r.store
unfolding promote_all
nodes-promote_all reachable delivered [] id r = refl
nodes-promote_all reachable delivered (k ∷ ids) id r =
    nodes-promote_all reachable delivered ids id
      (deliver_if (delivered k) (promote_replica (reachable k) k r).0)
    ∙ ap (get_node id) (nodes-deliver_if (delivered k) (promote_replica (reachable k) k r).0)
    ∙ unfold promote_replica save get_node in ground arith

abbrev pub waited : Router → MigrationScheduler → Progress
waited r ms = record {
  router = r;
  scheduler = some ms;
  migrated_count = ms.total_migrated % 2 ^ 32;
  failed_count = ms.total_failed % 2 ^ 32;
}

pub wait_for_scheduler-IsIdle :
    (events : List Event) (pr : Progress) (r : Router) (ms : MigrationScheduler)
    → IsIdle ms
    → pr.router ≡ r
    → pr.scheduler ≡ some ms
    → wait_for_scheduler events pr ≡ waited (waited_router events r) ms
unfolding wait_for_scheduler
wait_for_scheduler-IsIdle events pr r ms h routed kept =
    rw (kept, routed, wait_for_scheduler) (rw (happen_all-IsIdle events ms r h) refl)
