-- ===== src/Routes/Lost.antt =====
-- Two promotions in a row, as `handleNodeFailure` and `ShutdownNode` make them for every partition
-- of a node: the second starts from the router's table, which only the watch brings up to date.
use rockskv.Prelude.{
  ◌==◌, if◌then◌else◌, if_true, if_false, ℕ, ◌≡◌, refl, ap, ◌∙◌, ◌≢◌, true, false, Option, none,
  some, arith,
}
use rockskv.Prelude.Dict.{lookup, apply_at}
use rockskv.Routes.{
  stored_table, update_route_table, copy_routing, Router, save, watch, promoted, promote_replica,
  PartitionInfo, RouteTable, Etcd,
}
use rockskv.Routes.Change.{swapped, lookup-promoted}

-- the router after a promotion of a partition that it knows
abbrev pub stored : ℕ → Router → Router
stored id r = record r { store = update_route_table (promoted id r.route_table) r.store }

pub promote_found :
    (id : ℕ) (r : Router) (p : PartitionInfo)
    → lookup id r.route_table.partitions ≡ some p
    → promote_replica true id r ≡ (stored id r, none)
unfolding promote_replica save
promote_found id r p e = ground arith

stored_partitions :
    (t : RouteTable) (s : Etcd) → (stored_table (update_route_table t s)).partitions ≡ t.partitions
unfolding stored_table update_route_table
stored_partitions t s = refl

pub entry :
    (id j : ℕ) (r : Router) (o : Option PartitionInfo)
    → lookup j r.route_table.partitions ≡ o
    → lookup j (stored_table (stored id r).store).partitions
      ≡ apply_at (λ k p. if id == k then swapped p else copy_routing p) j o
entry id j r o e =
    rw (stored_partitions (promoted id r.route_table) r.store)
      (lookup-promoted id j r.route_table ∙ rw e)

module _ (a b : ℕ) (r : Router) (p q : PartitionInfo) (ne : a ≢ b)
    (found_a : lookup a r.route_table.partitions ≡ some p)
    (found_b : lookup b r.route_table.partitions ≡ some q) where
  other : (b == a) ≡ false
  other = ground arith

  other' : (a == b) ≡ false
  other' = ground arith

  -- Promoting one partition and then another, both known to the router, with no delivery by the
  -- watch in between: both calls report success, and the stored table has the first partition back
  -- on its old primary, with its old epoch. The second call writes the first promotion away.
  pub promote_replica_lost :
      ((promote_replica true a r).1 ≡ none)
      × ((promote_replica true b (promote_replica true a r).0).1 ≡ none)
      × (lookup a
            (stored_table (promote_replica true b (promote_replica true a r).0).0.store).partitions
          ≡ some (copy_routing p))
  promote_replica_lost = rw (promote_found a r p found_a) (
      rw (promote_found b (stored a r) q found_b) (
        refl,
        refl,
        entry b a (stored a r) (some p) found_a
            ∙ ap some (if_false (b == a) (swapped p) (copy_routing p) other),
      ))

  -- Promoting one partition and then another, both known to the router, with a delivery by the
  -- watch in between: both calls report success, and both promotions are in the stored table.
  pub promote_replica_kept :
      ((promote_replica true b (watch (promote_replica true a r).0)).1 ≡ none)
      × (lookup a
            (stored_table
              (promote_replica true b (watch (promote_replica true a r).0)).0.store).partitions
          ≡ some (swapped p))
      × (lookup b
            (stored_table
              (promote_replica true b (watch (promote_replica true a r).0)).0.store).partitions
          ≡ some (swapped q))
  promote_replica_kept = rw (promote_found a r p found_a) (
      rw (promote_found b (watch (stored a r)) (copy_routing q) at_b) (
        refl,
        entry b a (watch (stored a r)) (some (swapped p)) at_a
            ∙ ap some (if_false (b == a) _ (copy_routing (swapped p)) other)
            ∙ unfold copy_routing in refl,
        entry b b (watch (stored a r)) (some (copy_routing q)) at_b
            ∙ ap some (if_true (b == b) (swapped (copy_routing q)) _ (ground arith))
            ∙ unfold copy_routing in refl,
      ))
    where
      at_a : lookup a (watch (stored a r)).route_table.partitions ≡ some (swapped p)
      at_a =
          unfold watch in
          (entry a a r (some p) found_a ∙ ap some (if_true (a == a) (swapped p) _ (ground arith)))

      at_b : lookup b (watch (stored a r)).route_table.partitions ≡ some (copy_routing q)
      at_b =
          unfold watch in
          (entry a b r (some q) found_b ∙ ap some (if_false (a == b) _ (copy_routing q) other'))
