-- ===== src/Routes/Fencing.antt =====
-- Epochs are fencing tokens: what the methods that change an allocated table do to them.
use mathlib.Core.Path.{subst}
use rockskv.Prelude.{
  ltb, ◌==◌, if◌then◌else◌, Bool-cases, length, ℕ, ◌+◌, ◌^◌, ◌≤◌, ◌<◌, ◌≡◌, refl, sym, ◌≢◌, ◌⊎◌,
  inl, inr, Bool, true, false, not, Option, none, some, List, arith,
}
use rockskv.Prelude.Dict.{
  Dict, lookup, map_values, apply_at, lookup-map_values, modify, lookup-modify,
}
use rockskv.Bytes.{Bytes, bytes_eq, bytes_eq_iff}
use rockskv.Ring.{ConsistentHash, get_nodes}
use rockskv.Routes.{
  min_replica_nodes, stored_table, copy_routing, next_epoch, Router, RouteError, Reply, save,
  promoted, promote_replica, set_partition_status, move_primary, move_replica, migrated,
  complete_migration, rebalanced_entry, count_changes, online_nodes, new_ring, storage_nodes,
  rebalance_partitions, partition_not_found, store_failed, too_few_nodes, PartitionStatus, NodeInfo,
  PartitionInfo, RouteTable,
}
use rockskv.Routes.Change.{
  Op, run, swapped, lookup-promoted, migrated_entry, migrated_at, lookup-migrated,
  stored_table-save, promote, set_status, complete, rebalance,
}

abbrev pub FencedEntry : PartitionInfo → PartitionInfo → Type 0
FencedEntry p q =
    (q.id ≡ p.id) × (p.epoch ≤ q.epoch) × (q.primary ≢ p.primary → q.epoch ≡ p.epoch + 1)

abbrev pub FencedAt : Option PartitionInfo → Option PartitionInfo → Type 0
FencedAt none none = Unit
FencedAt (some p) (some q) = FencedEntry p q
FencedAt _ _ = ⊥

-- The same partitions, each with an epoch that respects the change of its primary.
abbrev pub IsFenced : Dict PartitionInfo → Dict PartitionInfo → Type 0
IsFenced old new = (k : ℕ) → FencedAt (lookup k old) (lookup k new)

-- No epoch of the table is about to wrap.
abbrev pub EpochsFit : Dict PartitionInfo → Type 0
EpochsFit m = (k : ℕ) (p : PartitionInfo) → lookup k m ≡ some p → p.epoch + 1 < 2 ^ 64

fenced_by :
    (f : ℕ → PartitionInfo → PartitionInfo) (k : ℕ) (o new : Option PartitionInfo)
    → ((p : PartitionInfo) → o ≡ some p → FencedEntry p (f k p))
    → new ≡ apply_at f k o
    → FencedAt o new
fenced_by f k none none h e = tt
fenced_by f k none (some q) h e = cc
fenced_by f k (some p) none h e = cc
fenced_by f k (some p) (some q) h e = subst (FencedAt (some p)) (sym e) (h p refl)

swapped-FencedEntry : (p : PartitionInfo) → p.epoch + 1 < 2 ^ 64 → FencedEntry p (swapped p)
unfolding next_epoch
swapped-FencedEntry p h = (refl, omega arith, λ ne. omega arith)

copy_routing-FencedEntry : (p : PartitionInfo) → FencedEntry p (copy_routing p)
unfolding copy_routing
copy_routing-FencedEntry p = (refl, omega arith, λ ne. absurd (ne refl))

move_primary-FencedEntry :
    (node : Bytes) (p : PartitionInfo)
    → p.epoch + 1 < 2 ^ 64
    → FencedEntry p (move_primary node (copy_routing p))
unfolding move_primary next_epoch copy_routing
move_primary-FencedEntry node p h = (refl, omega arith, λ ne. omega arith)

move_replica-FencedEntry :
    (node : Bytes) (p : PartitionInfo) → FencedEntry p (move_replica node (copy_routing p))
unfolding move_replica copy_routing
move_replica-FencedEntry node p = (refl, omega arith, λ ne. absurd (ne refl))

rebalanced-FencedEntry :
    (ring : ConsistentHash) (k : ℕ) (p : PartitionInfo)
    → p.epoch + 1 < 2 ^ 64
    → FencedEntry p (rebalanced_entry ring k p)
unfolding rebalanced_entry next_epoch copy_routing
rebalanced-FencedEntry ring k p h = elim (Bool-cases (bytes_eq p.primary (get_nodes k ring).0)) [
  | inl same ↦ rw same (
    refl,
    omega arith,
    λ ne. absurd (ne (sym ((bytes_eq_iff p.primary (get_nodes k ring).0).0 same))),
  )
  | inr other ↦ rw other (refl, omega arith, λ ne. omega arith)
]

if_fenced :
    (b : Bool) (p x y : PartitionInfo)
    → FencedEntry p x
    → FencedEntry p y
    → FencedEntry p (if b then x else y)
if_fenced true p x y hx hy = hx
if_fenced false p x y hx hy = hy

promoted-IsFenced :
    (id : ℕ) (t : RouteTable)
    → EpochsFit t.partitions
    → IsFenced t.partitions (promoted id t).partitions
promoted-IsFenced id t fit k =
    fenced_by (λ j p. if id == j then swapped p else copy_routing p) k (lookup k t.partitions) _
      (λ p e.
        if_fenced (id == k) p (swapped p) (copy_routing p) (swapped-FencedEntry p (fit k p e))
          (copy_routing-FencedEntry p))
      (lookup-promoted id k t)

migrated-IsFenced :
    (id : ℕ) (node : Bytes) (b : Bool) (t : RouteTable)
    → EpochsFit t.partitions
    → IsFenced t.partitions (migrated id node b t).partitions
migrated-IsFenced id node b t fit k =
    fenced_by (migrated_at id node b) k (lookup k t.partitions) _
      (λ p e.
        if_fenced (id == k) p (migrated_entry node b (copy_routing p)) (copy_routing p)
          (if_fenced b p (move_primary node (copy_routing p)) (move_replica node (copy_routing p))
            (move_primary-FencedEntry node p (fit k p e)) (move_replica-FencedEntry node p))
          (copy_routing-FencedEntry p))
      (lookup-migrated id k node b t)

status-IsFenced :
    (id : ℕ) (status : PartitionStatus) (m : Dict PartitionInfo)
    → IsFenced m (modify id (λ q. record q { status = status }) m)
status-IsFenced id status m k =
    fenced_by (λ j p. if id == j then record p { status = status } else p) k (lookup k m) _
      (λ p e.
        if_fenced (id == k) p (record p { status = status }) p
          (refl, omega arith, λ ne. absurd (ne refl)) (refl, omega arith, λ ne. absurd (ne refl)))
      (lookup-modify id k (λ q. record q { status = status }) m)

rebalanced-IsFenced :
    (ring : ConsistentHash) (m : Dict PartitionInfo)
    → EpochsFit m
    → IsFenced m (map_values (rebalanced_entry ring) m)
rebalanced-IsFenced ring m fit k =
    fenced_by (rebalanced_entry ring) k (lookup k m) _
      (λ p e. rebalanced-FencedEntry ring k p (fit k p e))
      (lookup-map_values (rebalanced_entry ring) k m)

-- The two outcomes of a save of a fenced table.
abbrev Outcomes : Router → Router → Type 0
Outcomes r after =
    (after.store.route_table ≡ r.store.route_table)
    ⊎ IsFenced r.route_table.partitions (stored_table after.store).partitions

save-Outcomes :
    (reachable : Bool) (t : RouteTable) (r r' : Router)
    → r'.store.route_table ≡ r.store.route_table
    → IsFenced r.route_table.partitions t.partitions
    → Outcomes r (save reachable t r').0
save-Outcomes true t r r' e f =
    inr (subst (IsFenced r.route_table.partitions) (sym (stored_table-save t r')) f)
save-Outcomes false t r r' e f = inl (unfold save in e)

lookup_first :
    (o : Option PartitionInfo) (r x : Router) (e : RouteError) (s : Reply)
    → Outcomes r x
    → Outcomes r s.0
    → Outcomes r (elim o as (λ _. Reply) [ none ↦ (x, some e) | some p ↦ s ]).0
lookup_first none r x e s hx hs = hx
lookup_first (some p) r x e s hx hs = hs

if_first :
    (b : Bool) (r : Router) (x y : Reply)
    → Outcomes r x.0
    → Outcomes r y.0
    → Outcomes r (if b then x else y).0
if_first true r x y hx hy = hx
if_first false r x y hx hy = hy

-- PromoteReplica, SetPartitionStatus, CompleteMigration and RebalancePartitions, of a router in
-- whose table no epoch is about to wrap, whether the store can be reached or not: each either leaves
-- the stored table as it is, or replaces it by a table with the partitions of the router's own
-- table, in which no epoch is lower than there and every partition with a new primary has the next
-- epoch. The allocation of all partitions, by InitCluster or InitializePartitions, is not among
-- these methods: it starts every epoch at 1.
pub run-IsFenced :
    (reachable : Bool) (op : Op) (r : Router)
    → EpochsFit r.route_table.partitions
    → let after = (run reachable op r).0 in
      (after.store.route_table ≡ r.store.route_table)
      ⊎ IsFenced r.route_table.partitions (stored_table after.store).partitions
unfolding run
run-IsFenced reachable (promote id) r fit =
    unfold promote_replica in
    lookup_first (lookup id r.route_table.partitions) r r partition_not_found _ (inl refl) (
      save-Outcomes reachable (promoted id r.route_table) r r refl
        (promoted-IsFenced id r.route_table fit))
run-IsFenced reachable (set_status id status) r fit =
    unfold set_partition_status in
    lookup_first (lookup id r.route_table.partitions) r r partition_not_found _ (inl refl) (
      save-Outcomes reachable
        (record (r.route_table) {
          partitions = modify id (λ q. record q { status = status }) r.route_table.partitions;
        })
        r r refl (status-IsFenced id status r.route_table.partitions))
run-IsFenced reachable (complete true id node b) r fit =
    unfold complete_migration in
    lookup_first (lookup id r.route_table.partitions) r _ partition_not_found _ (inl refl) (
      save-Outcomes reachable (migrated id node b r.route_table) r _ refl
        (migrated-IsFenced id node b r.route_table fit))
run-IsFenced reachable (complete false id node b) r fit =
    unfold complete_migration in
    lookup_first (lookup id r.route_table.partitions) r r partition_not_found _ (inl refl) (
      save-Outcomes reachable (migrated id node b r.route_table) r r refl
        (migrated-IsFenced id node b r.route_table fit))
run-IsFenced reachable (rebalance listed) r fit =
    unfold rebalance_partitions in
    if_first (not listed) r (r, some store_failed) _ (inl refl)
      (if_first (ltb (length nodes) min_replica_nodes) r (r, some too_few_nodes) _ (inl refl)
        (if_first (ltb 0 (count_changes ring r.route_table.partitions)) r
          (save reachable balanced (record r { hash_ring = ring })) (r, none)
          (save-Outcomes reachable balanced r (record r { hash_ring = ring }) refl
            (rebalanced-IsFenced ring r.route_table.partitions fit))
          (inl refl)))
  where
    nodes : List NodeInfo
    nodes = online_nodes (storage_nodes r.store)

    ring : ConsistentHash
    ring = new_ring nodes

    balanced : RouteTable
    balanced = record (r.route_table) {
      partitions = map_values (rebalanced_entry ring) r.route_table.partitions;
    }
