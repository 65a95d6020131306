-- ===== src/Shutdown/Removed.antt =====
-- The routes after a controlled shutdown of a node whose partitions all have a second copy.
use mathlib.Core.Path.{subst}
use rockskv.Prelude.{
  ltb, ◌==◌, if◌then◌else◌, if_false, length, All, ℕ, ◌%◌, ◌^◌, ◌≤◌, ◌≡◌, refl, ap, ◌∙◌, Bool, true,
  false, ◌&&◌, ◌||◌, none, some, List, [], ◌∷◌, ◌++◌, arith,
}
use rockskv.Prelude.Dict.{lookup}
use rockskv.Bytes.{Bytes}
use rockskv.Routes.Nodes.{get_node}
use rockskv.Routes.{
  stored_table, copy_routing, Router, new_ring, storage_nodes, NodeStatus, NodeInfo, PartitionInfo,
  RouteTable, Etcd,
}
use rockskv.Routes.Change.{swapped}
use rockskv.Failover.{affected_primaries, promote_all}
use rockskv.Failover.Promotions.{IsKnown, affected-IsKnown, is_in, IsDistinct, promote_all-last}
use rockskv.Scheduler.{MigrationScheduler}
use rockskv.Shutdown.{
  Event, Progress, replica_partitions, target_nodes, leave_primaries, leave_replicas,
  set_node_status, leave_cluster, drain_node, shutdown_node,
}
use rockskv.Shutdown.Idle.{
  HasOther, IsIdle, leave_primaries-promote_all, waited_router, store-waited_router,
  with_new_status, get_node-update_node_status, every_call, set_draining,
  stored_table-leave_cluster, nodes-promote_all, wait_for_scheduler-IsIdle,
}

module _ (delivered : ℕ → Bool) (events : List Event) (id : Bytes) (r : Router)
    (ms : MigrationScheduler) (node : NodeInfo) (xs : List ℕ) (z : ℕ)
    (registered : get_node id r.store ≡ some node)
    (enough : 1 ≤ length (target_nodes id (storage_nodes (set_draining id r).store)))
    (idle : IsIdle ms)
    (primaries : affected_primaries node.addr r.route_table.partitions ≡ xs ++ (z ∷ []))
    (distinct : IsDistinct (xs ++ (z ∷ [])))
    (others : All (HasOther node.addr r.route_table.partitions) (xs ++ (z ∷ [])))
    (replicas : replica_partitions node.addr r.route_table.partitions ≡ []) where
  targets : List NodeInfo
  targets = target_nodes id (storage_nodes (set_draining id r).store)

  promoted_router : Router
  promoted_router = promote_all (λ _. true) delivered (xs ++ (z ∷ [])) (set_draining id r)

  begun : Progress
  begun = record {
    router = set_draining id r;
    scheduler = some ms;
    migrated_count = 0;
    failed_count = 0;
  }

  called :
      shutdown_node (every_call delivered) events id false r (some ms)
      ≡ drain_node (every_call delivered) events id node targets (set_draining id r) (some ms)
  unfolding targets shutdown_node
  called =
      rw (registered, shutdown_node)
        (if_false (ltb (length (target_nodes id (storage_nodes (set_draining id r).store))) 1) _ _
          (ground arith))

  drained :
      drain_node (every_call delivered) events id node targets (set_draining id r) (some ms) ≡ (
        (leave_cluster true id node.addr (waited_router events promoted_router), some ms),
        record {
          migrated = ms.total_migrated % 2 ^ 32;
          failed = ms.total_failed % 2 ^ 32;
          error = none;
        },
      )
  unfolding drain_node set_node_status leave_replicas begun promoted_router
  drained =
      let table = r.route_table.partitions in
      let (routed, kept) =
        leave_primaries-promote_all (every_call delivered) (new_ring targets) node.addr table
          (xs ++ (z ∷ [])) begun others in
      rw (primaries, replicas)
        (rw
          (wait_for_scheduler-IsIdle events
            (leave_primaries (every_call delivered) (new_ring targets) node.addr table
              (xs ++ (z ∷ [])) begun)
            promoted_router ms idle routed kept)
          refl)

  drained_status :
      get_node id promoted_router.store ≡ some (record node { status = NodeStatus.draining })
  unfolding promoted_router set_node_status
  drained_status =
      nodes-promote_all (λ _. true) delivered (xs ++ (z ∷ [])) id (set_draining id r)
      ∙ get_node-update_node_status id NodeStatus.draining r.store
      ∙ ap (with_new_status NodeStatus.draining) registered

  removed_status :
      get_node id (leave_cluster true id node.addr (waited_router events promoted_router)).store
      ≡ some (record node { status = NodeStatus.removed })
  unfolding leave_cluster set_node_status
  removed_status =
      get_node-update_node_status id NodeStatus.removed (waited_router events promoted_router).store
      ∙ ap (λ (s : Etcd). with_new_status NodeStatus.removed (get_node id s))
          (store-waited_router events promoted_router)
      ∙ ap (with_new_status NodeStatus.removed) drained_status

  drained_routes :
      (k : ℕ) (p : PartitionInfo)
      → lookup k r.route_table.partitions ≡ some p
      → lookup k (stored_table promoted_router.store).partitions
        ≡ some (if (z == k) || (is_in k xs && delivered k) then swapped p else copy_routing p)
  unfolding promoted_router set_node_status
  drained_routes k p known =
      promote_all-last delivered xs z (set_draining id r)
        (subst (All (IsKnown r.route_table.partitions)) primaries
          (affected-IsKnown node.addr r.route_table.partitions))
        distinct k p known

  -- A controlled shutdown of a node that is the primary of some partitions, each with another node
  -- as its replica, and the replica of none, with another online node, a scheduler that has nothing
  -- to do and every call successful, and with a delivery of the stored table by the watch, or none,
  -- after each promotion and at any time of the wait: it returns without an error, with the count of
  -- migrated partitions that the scheduler had before, and the node is REMOVED; but of its partitions
  -- only those have their primary and replica swapped in the stored table after whose promotion the
  -- watch delivered before the next one, and the last. Every other partition that the router knows,
  -- those that the removed node is still the primary of included, keeps its primary, replica and
  -- epoch.
  pub shutdown_node-removed :
      (k : ℕ) (p : PartitionInfo)
      → lookup k r.route_table.partitions ≡ some p
      → let ((after, left), result) =
          shutdown_node (every_call delivered) events id false r (some ms) in
        (result.error ≡ none)
        × (result.migrated ≡ ms.total_migrated % 2 ^ 32)
        × (get_node id after.store ≡ some (record node { status = NodeStatus.removed }))
        × (lookup k (stored_table after.store).partitions
            ≡ some (if (z == k) || (is_in k xs && delivered k) then swapped p else copy_routing p))
  shutdown_node-removed k p known =
      rw (called, drained)
        (
          refl,
          refl,
          removed_status,
          ap (λ (t : RouteTable). lookup k t.partitions)
                (stored_table-leave_cluster true id node.addr (waited_router events promoted_router)
                  ∙ ap stored_table (store-waited_router events promoted_router))
              ∙ drained_routes k p known,
        )
