-- ===== src/Routes/Change.antt =====
-- The changes of the route table by entry, and as one type of operations.
use rockskv.Prelude.{◌==◌, if◌then◌else◌, ℕ, ◌≡◌, refl, Bool, true, Option, none, some, []}
use rockskv.Prelude.Dict.{lookup, apply_at, lookup-map_values, lookup-modify}
use rockskv.Bytes.{Bytes}
use rockskv.Routes.{
  stored_table, update_route_table, copy_routing, next_epoch, Router, Reply, save, promoted,
  promote_replica, set_partition_status, move_primary, move_replica, migrated, complete_migration,
  rebalance_partitions, PartitionStatus, PartitionInfo, RouteTable, migration_none,
}

-- The methods that change an allocated table; InitCluster and InitializePartitions allocate one.
pub data Op : Type 0 where
  promote : ℕ → Op
  set_status : ℕ → PartitionStatus → Op
  complete : Bool → ℕ → Bytes → Bool → Op
  rebalance : Bool → Op

unfoldable pub run : Bool → Op → Router → Reply
unfolding promote_replica set_partition_status complete_migration rebalance_partitions
run reachable (promote id) r = promote_replica reachable id r
run reachable (set_status id status) r = set_partition_status reachable id status r
run reachable (complete cleaned id node is_primary) r =
    complete_migration cleaned reachable id node is_primary r
run reachable (rebalance listed) r = rebalance_partitions listed reachable r

abbrev pub swapped : PartitionInfo → PartitionInfo
swapped p = record p {
  primary = p.replica;
  replica = p.primary;
  migration_target = [];
  migration_state = migration_none;
  epoch = next_epoch p.epoch;
}

pub lookup-promoted :
    (id j : ℕ) (t : RouteTable)
    → lookup j (promoted id t).partitions
      ≡ apply_at (λ k p. if id == k then swapped p else copy_routing p) j (lookup j t.partitions)
unfolding promoted
lookup-promoted id j t = rw (lookup-modify, lookup-map_values) (cases (lookup j t.partitions))
  where
    cases :
        (o : Option PartitionInfo)
        → apply_at
            (λ i v.
              if id == i
              then record v { primary = v.replica; replica = v.primary; epoch = next_epoch v.epoch }
              else v)
            j
            (apply_at (λ k p. copy_routing p) j o)
          ≡ apply_at (λ k p. if id == k then swapped p else copy_routing p) j o
    cases none = refl
    cases (some p) = unfold copy_routing in refl

-- what `CompleteMigration` makes of the entry with key `k`
abbrev pub migrated_entry : Bytes → Bool → PartitionInfo → PartitionInfo
migrated_entry node is_primary p = if is_primary then move_primary node p else move_replica node p

abbrev pub migrated_at : ℕ → Bytes → Bool → ℕ → PartitionInfo → PartitionInfo
migrated_at id node is_primary k p =
    if id == k then migrated_entry node is_primary (copy_routing p) else copy_routing p

pub lookup-migrated :
    (id j : ℕ) (node : Bytes) (is_primary : Bool) (t : RouteTable)
    → lookup j (migrated id node is_primary t).partitions
      ≡ apply_at (migrated_at id node is_primary) j (lookup j t.partitions)
unfolding migrated
lookup-migrated id j node is_primary t =
    rw (lookup-modify, lookup-map_values) (cases (lookup j t.partitions))
  where
    cases :
        (o : Option PartitionInfo)
        → apply_at
            (λ i v. if id == i then migrated_entry node is_primary v else v)
            j
            (apply_at (λ k p. copy_routing p) j o)
          ≡ apply_at (migrated_at id node is_primary) j o
    cases none = refl
    cases (some p) = refl

pub stored_table-save :
    (t : RouteTable) (r : Router) → (stored_table (save true t r).0.store).partitions ≡ t.partitions
unfolding stored_table save update_route_table
stored_table-save t r = refl
