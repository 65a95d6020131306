-- ===== src/Metadata/Registered.antt =====
-- What the registration of a node leaves in the store and in the routes.
use rockskv.Prelude.{
  leb, ◌==◌, length, ◌≡◌, refl, ◌∙◌, Bool, true, false, ◌&&◌, some, List, [], ◌∷◌, arith,
}
use rockskv.Bytes.{Bytes, bytes_eq, bytes_eq_iff}
use rockskv.Routes.Nodes.{NodeRole, find_node, get_node, put_node, online_node, register_node_info}
use rockskv.Routes.{stored_table, update_route_table, Router, storage_nodes, NodeInfo, Etcd}
use rockskv.Routes.Init.{allocated, allocated_table, allocate_partitions}
use rockskv.Metadata.{initialize_partitions, try_initialize_partitions, register_node}

bytes_eq_self : (xs : Bytes) → bytes_eq xs xs ≡ true
bytes_eq_self xs = (bytes_eq_iff xs xs).1 refl

find_node-put_node : (n : NodeInfo) (ns : List NodeInfo) → find_node n.id (put_node n ns) ≡ some n
unfolding find_node put_node
find_node-put_node n [] = ground (arith, bytes_eq_self n.id)
find_node-put_node n (m ∷ ms) = ground (arith, bytes_eq_self n.id, find_node-put_node n ms)

-- the start condition of the allocation
abbrev pub will_allocate : Bool → Bool → Router → Bool
will_allocate listed saved r =
    (length r.route_table.partitions == 0)
    && (listed && (saved && leb 2 (length (storage_nodes r.store))))

try_initialize_partitions_lem :
    (listed saved : Bool) (r : Router)
    → let after = try_initialize_partitions listed saved r in
      (after.store.storage_nodes ≡ r.store.storage_nodes)
      × (after.store.other_nodes ≡ r.store.other_nodes)
      × (after.store.cluster_state ≡ r.store.cluster_state)
      × (will_allocate listed saved r ≡ true
          → (after.route_table.partitions ≡ (allocated_table (storage_nodes r.store)).partitions)
            × (stored_table after.store ≡ after.route_table))
      × (will_allocate listed saved r ≡ false
          → (after.route_table ≡ r.route_table) × (after.store.route_table ≡ r.store.route_table))
unfolding try_initialize_partitions initialize_partitions allocate_partitions update_route_table
    stored_table
try_initialize_partitions_lem listed saved r = ground arith

get_node-same :
    (id : Bytes) (s t : Etcd)
    → s.storage_nodes ≡ t.storage_nodes
    → s.other_nodes ≡ t.other_nodes
    → get_node id s ≡ get_node id t
unfolding get_node
get_node-same id s t e f = rw (e, f) refl

get_node-register_node_info :
    (id addr : Bytes) (s : Etcd)
    → get_node id (register_node_info NodeRole.storage id addr s) ≡ some (online_node id addr)
unfolding get_node register_node_info
get_node-register_node_info id addr s =
    ground (arith, find_node-put_node (online_node id addr) s.storage_nodes)

abbrev known : Bytes → Bytes → Router → Router
known id addr r = record r { store = register_node_info NodeRole.storage id addr r.store }

-- The registration of a storage node that the store accepts: the node is online under its address,
-- and the cluster state is as it was. The routes and the stored table change only where there were
-- no routes, at least two storage nodes are registered then, and the listing and the save succeed:
-- then all partitions are allocated by the ring of these nodes, though the cluster was not
-- initialized.
pub register_node_lem :
    (listed saved : Bool) (id addr : Bytes) (r : Router)
    → let after = (register_node true listed saved NodeRole.storage id addr r).0 in
      let store = register_node_info NodeRole.storage id addr r.store in
      let allocates = will_allocate listed saved (record r { store = store }) in
      (get_node id after.store ≡ some (online_node id addr))
      × (after.store.cluster_state ≡ r.store.cluster_state)
      × (allocates ≡ true
          → (after.route_table.partitions ≡ (allocated_table (storage_nodes store)).partitions)
            × (stored_table after.store ≡ after.route_table))
      × (allocates ≡ false
          → (after.route_table ≡ r.route_table) × (after.store.route_table ≡ r.store.route_table))
unfolding register_node
register_node_lem listed saved id addr r =
    let (nodes, others, state, allocated, kept) =
      try_initialize_partitions_lem listed saved (known id addr r) in
    (
      get_node-same id (try_initialize_partitions listed saved (known id addr r)).store
            (register_node_info NodeRole.storage id addr r.store) nodes others
          ∙ get_node-register_node_info id addr r.store,
      state ∙ unfold register_node_info in refl,
      allocated,
      λ no_room. ((kept no_room).0, (kept no_room).1 ∙ unfold register_node_info in refl),
    )
