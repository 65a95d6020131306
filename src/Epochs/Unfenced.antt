-- ===== src/Epochs/Unfenced.antt =====
-- A storage node knows no epoch but 0, and fences no compute node.
use rockskv.Epochs.{
  RouterEvent, take_events, NodeEvent, node_event, node_events, routed, written, leased, lease_lost,
}
use rockskv.Epochs.Zero.{
  IsUnfenced, ZeroEpochs, wire_partitions-ZeroEpochs, empty-IsUnfenced, take_events-IsUnfenced,
}
use mathlib.Core.Path.{subst}
use rockskv.Compute.{Router, new_router, get_partition_nodes_by_id}
use rockskv.Prelude.{
  if◌then◌else◌, Option-cases, ℕ, ◌≡◌, sym, ap, ◌∙◌, ◌≢◌, ◌↔◌, inl, inr, Bool, true, false, Option,
  none, some, List, [], ◌∷◌, arith,
}
use rockskv.Prelude.Dict.{lookup, lookup-insert}
use rockskv.Bytes.{Bytes, bytes_eq}
use rockskv.Rocks.{RocksDb}
use rockskv.Routes.{PartitionStatus, PartitionInfo}
use rockskv.Partitions.{
  Partition, PartitionManager, add_partition_with_epoch, update_partition_epoch, validate_epoch,
  has_partition, is_primary, should_exist,
}
use rockskv.Replication.{Tick}
use rockskv.Metadata.{wire_partitions, send_route_update}
use rockskv.Server.{
  Server, WriteRequest, can_write, acquire_node_lease, lose_node_lease, check_write, enqueue,
  write_data, handle_write, epoch_fenced,
}
use rockskv.Server.Assignment.{
  list_partitions, take_route, take_routes, update_partitions_from_route,
}
use rockskv.Server.Roles.{take_route-cases, lookup-remove_lost}

-- The hosted partitions are all in epoch 0.
abbrev IsUnfencedNode : PartitionManager → Type 0
IsUnfencedNode pm = (k : ℕ) (p : Partition) → lookup k pm.partitions ≡ some p → p.epoch ≡ 0

update_partition_epoch_zero :
    (id epoch : ℕ) (pm : PartitionManager) → epoch ≡ 0 → (update_partition_epoch id epoch pm).0 ≡ pm
unfolding update_partition_epoch
update_partition_epoch_zero id epoch pm z = ground arith

add_partition-IsUnfencedNode :
    (id : ℕ) (is_primary : Bool) (epoch : ℕ) (pm : PartitionManager)
    → epoch ≡ 0
    → IsUnfencedNode pm
    → IsUnfencedNode (add_partition_with_epoch id is_primary epoch pm).0
unfolding add_partition_with_epoch
add_partition-IsUnfencedNode id is_primary epoch pm z h k p e = ground (
  arith,
  lookup-insert id k
      (record { id = id; status = PartitionStatus.normal; is_prime = is_primary; epoch = epoch })
      pm.partitions,
  h k p,
)

not_none :
    (b : Bool) (o : Option Partition) (p : Partition)
    → (if b then none else o) ≡ some p
    → o ≡ some p
not_none true o p e = absurd (ground arith)
not_none false o p e = e

module _ {Db : Type 0} where
  take_route-IsUnfencedNode :
      (opens : ℕ → Bool) (now : ℕ) (addr : Bytes) (i : PartitionInfo) (s : Server Db)
      → i.epoch ≡ 0
      → IsUnfencedNode s.partition_manager
      → IsUnfencedNode (take_route opens now addr i s).partition_manager
  take_route-IsUnfencedNode opens now addr i s z h = elim (take_route-cases opens now addr i s) [
    | inl same ↦ subst IsUnfencedNode (sym same) h
    | inr (inl same) ↦
        subst IsUnfencedNode
          (sym (same ∙ update_partition_epoch_zero i.id i.epoch s.partition_manager z)) h
    | inr (inr same) ↦ subst IsUnfencedNode (sym same) (
        add_partition-IsUnfencedNode i.id (bytes_eq i.primary addr) i.epoch s.partition_manager z h)
  ]

  take_routes-IsUnfencedNode :
      (opens : ℕ → Bool) (now : ℕ) (addr : Bytes) (ps : List PartitionInfo) (s : Server Db)
      → ZeroEpochs ps
      → IsUnfencedNode s.partition_manager
      → IsUnfencedNode (take_routes opens now addr ps s).partition_manager
  unfolding take_routes
  take_routes-IsUnfencedNode opens now addr [] s z h = h
  take_routes-IsUnfencedNode opens now addr (p ∷ ps) s (zero_p, z) h =
      take_routes-IsUnfencedNode opens now addr ps _ z
        (take_route-IsUnfencedNode opens now addr p s zero_p h)

  update-IsUnfencedNode :
      (opens : ℕ → Bool) (now : ℕ) (addr : Bytes) (ps : List PartitionInfo) (s : Server Db)
      → ZeroEpochs ps
      → IsUnfencedNode s.partition_manager
      → IsUnfencedNode (update_partitions_from_route opens now addr ps s).partition_manager
  unfolding update_partitions_from_route
  update-IsUnfencedNode opens now addr ps s z h k p e =
      let taken = take_routes opens now addr ps s in
      let left =
        lookup-remove_lost (should_exist addr ps) (list_partitions taken.partition_manager) k
          taken in
      take_routes-IsUnfencedNode opens now addr ps s z h k p
        (not_none _ (lookup k taken.partition_manager.partitions) p (sym left ∙ e))

  handle_write-partition_manager :
      (rocks : RocksDb Db) (succeeds : Bool) (ticks : ℕ → Tick) (r : WriteRequest) (s : Server Db)
      → (handle_write rocks succeeds ticks r s).0.partition_manager ≡ s.partition_manager
  unfolding handle_write enqueue
  handle_write-partition_manager rocks succeeds ticks r s = ground arith

  node_event-IsUnfencedNode :
      (rocks : RocksDb Db) (addr : Bytes) (e : NodeEvent) (s : Server Db)
      → IsUnfencedNode s.partition_manager
      → IsUnfencedNode (node_event rocks addr e s).partition_manager
  unfolding node_event
  node_event-IsUnfencedNode rocks addr (routed opens now t) s h =
      unfold send_route_update in
      update-IsUnfencedNode opens now addr (wire_partitions t.partitions) s
        (wire_partitions-ZeroEpochs t.partitions) h
  node_event-IsUnfencedNode rocks addr (written succeeds ticks r) s h =
      subst IsUnfencedNode (sym (handle_write-partition_manager rocks succeeds ticks r s)) h
  node_event-IsUnfencedNode rocks addr (leased none) s h = unfold acquire_node_lease in h
  node_event-IsUnfencedNode rocks addr (leased (some id)) s h = unfold acquire_node_lease in h
  node_event-IsUnfencedNode rocks addr lease_lost s h = unfold lose_node_lease in h

  node_events-IsUnfencedNode :
      (rocks : RocksDb Db) (addr : Bytes) (es : List NodeEvent) (s : Server Db)
      → IsUnfencedNode s.partition_manager
      → IsUnfencedNode (node_events rocks addr es s).partition_manager
  unfolding node_events
  node_events-IsUnfencedNode rocks addr [] s h = h
  node_events-IsUnfencedNode rocks addr (e ∷ es) s h =
      node_events-IsUnfencedNode rocks addr es (node_event rocks addr e s)
        (node_event-IsUnfencedNode rocks addr e s h)

epoch-get_partition_nodes_by_id :
    (id : ℕ) (router : Router) (primary replica : Bytes) (epoch : ℕ)
    → IsUnfenced router.route_table.partitions
    → get_partition_nodes_by_id id router ≡ some (primary, (replica, epoch))
    → epoch ≡ 0
unfolding get_partition_nodes_by_id
epoch-get_partition_nodes_by_id id router primary replica epoch h e =
    elim (Option-cases (lookup id router.route_table.partitions)) [
      | inl missing ↦ absurd (ground arith)
      | inr (p, found) ↦ ground (arith, h id p found)
    ]

abbrev Unfenced : {Db : Type 0} → RocksDb Db → Bool → (ℕ → Tick) → WriteRequest → Server Db → Type 0
Unfenced rocks succeeds ticks r s =
    let done = write_data rocks succeeds r.partition_id r.kind s.partition_manager s.db in
    let response = (handle_write rocks succeeds ticks r s).1 in
    (response.error ≢ epoch_fenced)
    × ((response.success ≡ true) ↔ (
        (can_write s ≡ true)
        × ((is_primary r.partition_id s.partition_manager ≡ true) × (done.1 ≡ true))))

unfenced :
    {Db : Type 0} (rocks : RocksDb Db) (succeeds : Bool) (ticks : ℕ → Tick) (r : WriteRequest)
    (s : Server Db)
    → IsUnfencedNode s.partition_manager
    → r.epoch ≡ 0
    → Unfenced rocks succeeds ticks r s
unfolding handle_write check_write validate_epoch is_primary has_partition
unfenced rocks succeeds ticks r s h zero_epoch =
    elim (Option-cases (lookup r.partition_id s.partition_manager.partitions)) [
      | inl missing ↦ (λ x. absurd (ground arith), ground arith)
      | inr (p, found) ↦
          let zero_p : p.epoch ≡ 0 = h r.partition_id p found in
          (λ x. absurd (ground arith), ground arith)
    ]

empty_node : (k : ℕ) (p : Partition) → lookup k [] ≡ some p → p.epoch ≡ 0
unfolding lookup
empty_node k p found = absurd (ground arith)

-- Fencing by epochs does not take place: whatever route tables with whatever epochs the metadata
-- server sent to a storage node that began without partitions, among writes and changes of its
-- lease, and whatever other tables, older or newer, it sent to a compute node, that node's storage
-- server refuses no write with the epoch of the compute node's routes as fenced; it accepts the
-- write exactly where it has its lease, hosts the partition as its primary, and can write the data.
pub handle_write-never_fenced :
    {Db : Type 0} (rocks : RocksDb Db) (addr : Bytes) (node_history : List NodeEvent)
    (router_history : List RouterEvent) (start : Server Db) (succeeds : Bool) (ticks : ℕ → Tick)
    (r : WriteRequest) (primary replica : Bytes)
    → start.partition_manager.partitions ≡ []
    → get_partition_nodes_by_id r.partition_id (take_events router_history new_router)
      ≡ some (primary, (replica, r.epoch))
    → let s = node_events rocks addr node_history start in
      let done = write_data rocks succeeds r.partition_id r.kind s.partition_manager s.db in
      let response = (handle_write rocks succeeds ticks r s).1 in
      (response.error ≢ epoch_fenced)
      × ((response.success ≡ true) ↔ (
          (can_write s ≡ true)
          × ((is_primary r.partition_id s.partition_manager ≡ true) × (done.1 ≡ true))))
handle_write-never_fenced rocks addr node_history router_history start succeeds ticks r primary
      replica e f =
    unfenced rocks succeeds ticks r (node_events rocks addr node_history start)
      (node_events-IsUnfencedNode rocks addr node_history start
        (λ k p found. empty_node k p (ap (lookup k) (sym e) ∙ found)))
      (epoch-get_partition_nodes_by_id r.partition_id (take_events router_history new_router)
        primary replica r.epoch
        (take_events-IsUnfenced router_history new_router (unfold new_router in empty-IsUnfenced))
        f)
