-- ===== src/Routes/Init.antt =====
-- `InitCluster` and `allocatePartitions` of pkg/metadata/router.go.
use rockskv.Prelude.{
  ltb, leb, if◌then◌else◌, length, ℕ, zero, suc, ◌+◌, ◌≤◌, ◌≡◌, refl, sym, ap, ◌∙◌, Bool, true,
  false, not, ◌&&◌, none, some, List, [], ◌∷◌, arith,
}
use rockskv.Prelude.Dict.{Dict, lookup, insert, lookup-insert}
use rockskv.Ring.{ConsistentHash, get_nodes}
use rockskv.Routes.{
  min_replica_nodes, stored_table, update_route_table, Router, RouteError, Reply, is_online,
  new_ring, storage_nodes, store_failed, not_pending, too_few_nodes, node_not_online, ClusterState,
  PartitionStatus, NodeInfo, PartitionInfo, RouteTable, new_route_table, pending, initializing,
  running, migration_none,
}

-- TotalPartitions; not an `abbrev`, so that no proof counts it
unfoldable pub total_partitions : ℕ
total_partitions = 4096

unfoldable pub allocated : ConsistentHash → ℕ → PartitionInfo
allocated ring i =
    let (primary, replica) = get_nodes i ring in
    record {
      id = i;
      primary = primary;
      replica = replica;
      status = PartitionStatus.normal;
      migration_target = [];
      migration_state = migration_none;
      epoch = 1;
    }

-- the loop over the partitions, by the rounds left
unfoldable pub fill : ℕ → ℕ → ConsistentHash → Dict PartitionInfo → Dict PartitionInfo
unfolding allocated
fill zero i ring m = m
fill (suc k) i ring m = fill k (i + 1) ring (insert i (allocated ring i) m)

unfoldable pub allocated_table : List NodeInfo → RouteTable
allocated_table nodes = record new_route_table {
  partitions = fill total_partitions 0 (new_ring nodes) [];
}

-- which of the calls to the store succeed, in their order
pub record InitCalls : Type 0 where
  pub info_read : Bool
  pub nodes_listed : Bool
  pub initializing_set : Bool
  pub table_saved : Bool
  pub rolled_back : Bool
  pub running_set : Bool

unfoldable pub set_cluster_state : ClusterState → Router → Router
set_cluster_state state r =
    let s = r.store in record r { store = record s { cluster_state = state } }

-- `allocatePartitions`: the cache gets the table with the version that the save gave it
unfoldable pub allocate_partitions : Bool → List NodeInfo → Router → Reply
allocate_partitions saved nodes r =
    let ringed = record r { hash_ring = new_ring nodes } in
    let store = update_route_table (allocated_table nodes) r.store in
    if saved
    then (record ringed { store = store; route_table = stored_table store }, none)
    else (ringed, some store_failed)

-- phases 2 to 4
unfoldable pub initialize : InitCalls → List NodeInfo → Router → Reply
unfolding set_cluster_state allocate_partitions
initialize c nodes r =
    let (r1, failure) =
      allocate_partitions c.table_saved nodes (set_cluster_state initializing r) in
    elim failure [
      | some e ↦ (if c.rolled_back then set_cluster_state pending r1 else r1, some e)
      | none ↦
          if c.running_set then (set_cluster_state running r1, none) else (r1, some store_failed)
    ]

unfoldable pub all_online : List NodeInfo → Bool
all_online [] = true
all_online (n ∷ ns) = is_online n && all_online ns

abbrev is_pending : ClusterState → Bool
is_pending pending = true
is_pending _ = false

unfoldable pub init_cluster : InitCalls → Router → Reply
unfolding initialize all_online storage_nodes
init_cluster c r =
    let nodes = storage_nodes r.store in
    if not c.info_read
    then (r, some store_failed)
    else if not (is_pending r.store.cluster_state)
    then (r, some not_pending)
    else if not c.nodes_listed
    then (r, some store_failed)
    else if ltb (length nodes) min_replica_nodes
    then (r, some too_few_nodes)
    else if not (all_online nodes)
    then (r, some node_not_online)
    else if not c.initializing_set
    then (r, some store_failed)
    else initialize c nodes r

lookup-fill :
    (k i : ℕ) (ring : ConsistentHash) (m : Dict PartitionInfo) (j : ℕ)
    → lookup j (fill k i ring m)
      ≡ (if leb i j && ltb j (i + k) then some (allocated ring j) else lookup j m)
unfolding fill
lookup-fill zero i ring m j = ground arith
lookup-fill (suc k) i ring m j = ground (
  arith,
  lookup-fill k (i + 1) ring (insert i (allocated ring i) m) j,
  lookup-insert i j (allocated ring i) m,
)

was_pending : (s : ClusterState) → not (is_pending s) ≡ false → s ≡ pending
was_pending pending h = refl
was_pending initializing h = cc
was_pending running h = cc

passed :
    (b : Bool) (r : Router) (e : RouteError) (y : Reply)
    → (if b then (r, some e) else y).1 ≡ none
    → (b ≡ false) × ((if b then (r, some e) else y) ≡ y)
passed true r e y h = cc
passed false r e y h = (refl, refl)

initialize_ok :
    (c : InitCalls) (nodes : List NodeInfo) (r : Router)
    → (initialize c nodes r).1 ≡ none
    → ((initialize c nodes r).0.store.cluster_state ≡ running)
      × (stored_table (initialize c nodes r).0.store ≡ (initialize c nodes r).0.route_table)
      × ((initialize c nodes r).0.route_table.partitions ≡ (allocated_table nodes).partitions)
unfolding initialize set_cluster_state allocate_partitions update_route_table stored_table
initialize_ok c nodes r h = ground arith

lookup-allocated_table :
    (nodes : List NodeInfo) (j : ℕ)
    → lookup j (allocated_table nodes).partitions
      ≡ (if ltb j 4096 then some (allocated (new_ring nodes) j) else none)
unfolding allocated_table lookup
lookup-allocated_table nodes j =
    lookup-fill total_partitions 0 (new_ring nodes) [] j
    ∙ bound total_partitions (unfold total_partitions in refl)
  where
    bound :
        (n : ℕ)
        → n ≡ 4096
        → (if leb 0 j && ltb j (0 + n) then some (allocated (new_ring nodes) j) else none)
          ≡ (if ltb j 4096 then some (allocated (new_ring nodes) j) else none)
    bound n e = ground arith

-- `InitCluster` succeeds only on a cluster in the PENDING state with at least two storage nodes,
-- all of them online; the state is then RUNNING, the router's table is the stored one, and it has
-- exactly the partitions below 4096, each with epoch 1 and the nodes that the ring gives it.
pub init_cluster_ok :
    (c : InitCalls) (r : Router)
    → (init_cluster c r).1 ≡ none
    → let after = (init_cluster c r).0 in
      let nodes = storage_nodes r.store in
      (r.store.cluster_state ≡ pending)
      × (2 ≤ length nodes)
      × (all_online nodes ≡ true)
      × (after.store.cluster_state ≡ running)
      × (stored_table after.store ≡ after.route_table)
      × ((j : ℕ)
          → lookup j after.route_table.partitions
            ≡ (if ltb j 4096 then some (allocated (new_ring nodes) j) else none))
unfolding init_cluster
init_cluster_ok c r h =
    let nodes = storage_nodes r.store in
    let (g1, e1) = passed (not c.info_read) r store_failed _ h in
    let (g2, e2) =
      passed (not (is_pending r.store.cluster_state)) r not_pending _
        (ap (λ (x : Reply). x.1) (sym e1) ∙ h) in
    let (g3, e3) =
      passed (not c.nodes_listed) r store_failed _ (ap (λ (x : Reply). x.1) (sym (e1 ∙ e2)) ∙ h) in
    let (g4, e4) =
      passed (ltb (length nodes) min_replica_nodes) r too_few_nodes _
        (ap (λ (x : Reply). x.1) (sym (e1 ∙ e2 ∙ e3)) ∙ h) in
    let (g5, e5) =
      passed (not (all_online nodes)) r node_not_online _
        (ap (λ (x : Reply). x.1) (sym (e1 ∙ e2 ∙ e3 ∙ e4)) ∙ h) in
    let (g6, e6) =
      passed (not c.initializing_set) r store_failed _
        (ap (λ (x : Reply). x.1) (sym (e1 ∙ e2 ∙ e3 ∙ e4 ∙ e5)) ∙ h) in
    let run : init_cluster c r ≡ initialize c nodes r = e1 ∙ e2 ∙ e3 ∙ e4 ∙ e5 ∙ e6 in
    let (state, cached, table) = initialize_ok c nodes r (ap (λ (x : Reply). x.1) (sym run) ∙ h) in
    (
      was_pending r.store.cluster_state g2,
      ground arith,
      ground arith,
      rw run state,
      rw run cached,
      λ j. rw run (ap (lookup j) table ∙ lookup-allocated_table nodes j),
    )
