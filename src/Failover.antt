-- ===== src/Failover.antt =====
-- The failover manager of pkg/metadata/failover.go: the health of the storage nodes by their
-- heartbeats, and what the failure of a node does to the routes. Times are in the unit of the
-- clock. The goroutine that rebalances after a delay is counted, not run: it is a later call of
-- `rebalance_partitions`.
pub mod Promotions
pub mod Tests
use rockskv.Prelude.{
  ltb, if◌then◌else◌, ℕ, ◌+◌, ◌-◌, Bool, true, false, Option, none, some, List, [], ◌∷◌,
}
use rockskv.Prelude.Dict.{Dict}
use rockskv.Bytes.{Bytes, bytes_eq}
use rockskv.Routes.Nodes.{find_node}
use rockskv.Routes.{
  Router, deliver_if, promote_replica, storage_nodes, NodeStatus, NodeInfo, PartitionInfo, offline,
}

pub record NodeHealthInfo : Type 0 where
  pub last_heartbeat : ℕ
  pub fail_count : ℕ
  pub is_healthy : Bool

pub record FailoverManager : Type 0 where
  pub heartbeat_timeout : ℕ
  pub node_health : List (Bytes × NodeHealthInfo)
  pub scheduled_rebalances : ℕ

-- a node as the store lists it
pub record ListedNode : Type 0 where
  pub id : Bytes
  pub last_heartbeat : ℕ

unfoldable pub health_of : Bytes → List (Bytes × NodeHealthInfo) → Option NodeHealthInfo
health_of id [] = none
health_of id ((j, h) ∷ hs) = if bytes_eq j id then some h else health_of id hs

unfoldable pub set_health :
    Bytes → NodeHealthInfo → List (Bytes × NodeHealthInfo) → List (Bytes × NodeHealthInfo)
set_health id h [] = (id, h) ∷ []
set_health id h ((j, g) ∷ hs) =
    let rest = set_health id h hs in if bytes_eq j id then (j, h) ∷ hs else (j, g) ∷ rest

-- the entry of a node, made when the node is seen for the first time
unfoldable pub health_or_new : ListedNode → List (Bytes × NodeHealthInfo) → NodeHealthInfo
unfolding health_of
health_or_new node hs = elim (health_of node.id hs) as (λ _. NodeHealthInfo) [
  | some h ↦ h
  | none ↦ record { last_heartbeat = node.last_heartbeat; fail_count = 0; is_healthy = true }
]

-- a heartbeat that is newer than the last one
unfoldable pub take_heartbeat : ListedNode → NodeHealthInfo → NodeHealthInfo
take_heartbeat node h =
    if ltb h.last_heartbeat node.last_heartbeat
    then record { last_heartbeat = node.last_heartbeat; fail_count = 0; is_healthy = true }
    else h

-- the body of the loop of `checkNodes`: the health, and whether the node has failed
unfoldable pub check_node : ℕ → ℕ → ListedNode → NodeHealthInfo → NodeHealthInfo × Bool
unfolding take_heartbeat
check_node timeout now node h =
    let seen = take_heartbeat node h in
    if ltb timeout (now - seen.last_heartbeat)
    then (record seen { fail_count = seen.fail_count + 1; is_healthy = false }, true)
    else (seen, false)

unfoldable pub check_health :
    ℕ
    → ℕ
    → List ListedNode
    → List (Bytes × NodeHealthInfo)
    → List (Bytes × NodeHealthInfo) × List Bytes
unfolding check_node health_or_new set_health
check_health timeout now [] hs = (hs, [])
check_health timeout now (node ∷ nodes) hs =
    let (h, failed) = check_node timeout now node (health_or_new node hs) in
    let (after, others) = check_health timeout now nodes (set_health node.id h hs) in
    (after, if failed then node.id ∷ others else others)

-- `UpdateNodeStatus` of the store, to OFFLINE
unfoldable pub set_offline : Bytes → List NodeInfo → List NodeInfo
set_offline id [] = []
set_offline id (n ∷ ns) =
    (if bytes_eq n.id id then record n { status = NodeStatus.offline } else n) ∷ set_offline id ns

-- the partitions with the node as primary, in the order in which the loop meets them
unfoldable pub affected_primaries : Bytes → Dict PartitionInfo → List ℕ
affected_primaries addr [] = []
affected_primaries addr ((id, p) ∷ m) =
    let rest = affected_primaries addr m in if bytes_eq p.primary addr then id ∷ rest else rest

-- A promotion that fails is logged; `reachable` says of a partition whether its save succeeds, and
-- `delivered` whether the watch delivers the stored table after its promotion, before the next one.
unfoldable pub promote_all : (ℕ → Bool) → (ℕ → Bool) → List ℕ → Router → Router
unfolding promote_replica deliver_if
promote_all reachable delivered [] r = r
promote_all reachable delivered (id ∷ ids) r =
    promote_all reachable delivered ids
      (deliver_if (delivered id) (promote_replica (reachable id) id r).0)

-- `updated` and `found` are whether the calls `UpdateNodeStatus` and `GetNode` succeed
unfoldable pub handle_node_failure :
    Bool
    → Bool
    → (ℕ → Bool)
    → (ℕ → Bool)
    → Bytes
    → FailoverManager × Router
    → FailoverManager × Router
unfolding set_offline find_node affected_primaries promote_all storage_nodes
handle_node_failure updated found reachable delivered id (fm, r) =
    let marked =
      if updated
      then record r {
        store = record (r.store) { storage_nodes = set_offline id r.store.storage_nodes };
      }
      else r in
    let node = if found then find_node id marked.store.storage_nodes else none in
    elim node as (λ _. FailoverManager × Router) [
      | none ↦ (fm, marked)
      | some n ↦ (
        record fm { scheduled_rebalances = fm.scheduled_rebalances + 1 },
        promote_all reachable delivered (affected_primaries n.addr marked.route_table.partitions)
            marked,
      )
    ]

unfoldable pub handle_failures :
    Bool
    → Bool
    → (ℕ → Bool)
    → (ℕ → Bool)
    → List Bytes
    → FailoverManager × Router
    → FailoverManager × Router
unfolding handle_node_failure
handle_failures updated found reachable delivered [] state = state
handle_failures updated found reachable delivered (id ∷ ids) state =
    handle_failures updated found reachable delivered ids
      (handle_node_failure updated found reachable delivered id state)

-- `nodes` is what `ListNodes` returns, `none` for an error
unfoldable pub check_nodes :
    Bool
    → Bool
    → (ℕ → Bool)
    → (ℕ → Bool)
    → ℕ
    → Option (List ListedNode)
    → FailoverManager × Router
    → FailoverManager × Router
unfolding check_health handle_failures
check_nodes updated found reachable delivered now none state = state
check_nodes updated found reachable delivered now (some nodes) (fm, r) =
    let (health, failed) = check_health fm.heartbeat_timeout now nodes fm.node_health in
    handle_failures updated found reachable delivered failed (record fm { node_health = health }, r)

unfoldable pub record_heartbeat : Bytes → ℕ → FailoverManager → FailoverManager
unfolding set_health
record_heartbeat id now fm = record fm {
  node_health =
      set_health id (record { last_heartbeat = now; fail_count = 0; is_healthy = true })
        fm.node_health;
}

unfoldable pub is_node_healthy : Bytes → FailoverManager → Bool
unfolding health_of
is_node_healthy id fm = elim (health_of id fm.node_health) [ none ↦ false | some h ↦ h.is_healthy ]
