-- ===== src/Compute/Follow.antt =====
-- How the routes of a compute node follow those of the metadata server.
use rockskv.Compute.{
  Router, enter, update_route_table, update_route_table_from_update, finish_refresh,
  refresh_route_table,
}
use rockskv.Prelude.{
  leb, ◌==◌, ==_iff, if_true, if_false, Bool-cases, length, ℕ, suc, ◌≤◌, ◌<◌, ◌≡◌, refl, sym, ap,
  ◌∙◌, ◌⊎◌, inl, inr, Option, none, some, List, [], ◌∷◌, arith,
}
use rockskv.Prelude.Dict.{Dict, lookup, insert, lookup-insert, apply_at}
use rockskv.Routes.{PartitionInfo, RouteTable}
use rockskv.Metadata.{wire_partition, wire_partitions, send_route_update, get_route_table}

-- Every entry stands under its id, and no id twice.
abbrev pub IsKeyed : Dict PartitionInfo → Type 0
IsKeyed [] = Unit
IsKeyed ((j, p) ∷ m) = (p.id ≡ j) × ((lookup j m ≡ none) × IsKeyed m)

abbrev or_before : Option PartitionInfo → Option PartitionInfo → Option PartitionInfo
or_before none before = before
or_before (some p) before = some (wire_partition p)

lookup-enter :
    (k : ℕ) (m d : Dict PartitionInfo)
    → IsKeyed m
    → lookup k (enter (wire_partitions m) d) ≡ or_before (lookup k m) (lookup k d)
unfolding enter wire_partitions
lookup-enter k [] d h = unfold lookup in refl
lookup-enter k ((j, p) ∷ m) d (keyed, (fresh, h)) =
    lookup-enter k m (insert p.id (wire_partition p) d) h
    ∙ rw (lookup-insert p.id k (wire_partition p) d, keyed)
        (elim (Bool-cases (j == k)) [
          | inl e ↦
              let absent : lookup k m ≡ none =
                ap (λ i. lookup i m) (sym ((==_iff j k).0 e)) ∙ fresh in
              rw (e, absent) (unfold lookup in rw e refl)
          | inr e ↦ rw e (unfold lookup in rw e refl)
        ])

length-wire_partitions : (m : Dict PartitionInfo) → length (wire_partitions m) ≡ length m
unfolding wire_partitions
length-wire_partitions [] = refl
length-wire_partitions ((j, p) ∷ m) = ap suc (length-wire_partitions m)

or_before-none :
    (k : ℕ) (o : Option PartitionInfo) → or_before o none ≡ apply_at (λ j p. wire_partition p) k o
or_before-none k none = refl
or_before-none k (some p) = refl

-- the two answers of the metadata server
answer_newer :
    (v : ℕ) (t : RouteTable)
    → v < t.version
    → get_route_table v t
      ≡ record { version = t.version; partitions = wire_partitions t.partitions }
unfolding get_route_table
answer_newer v t h = if_false (leb t.version v) _ _ (ground arith)

answer_empty :
    (v : ℕ) (t : RouteTable)
    → (t.version ≤ v) ⊎ (length t.partitions ≡ 0)
    → length (get_route_table v t).partitions ≡ 0
unfolding get_route_table
answer_empty v t h = ground (arith, length-wire_partitions t.partitions)

-- The routes of a compute node are the table that the metadata server sent.
abbrev pub Follows : Router → RouteTable → Type 0
Follows r t =
    (r.route_table.version ≡ t.version)
    × ((k : ℕ)
        → lookup k r.route_table.partitions
          ≡ apply_at (λ j p. wire_partition p) k (lookup k t.partitions))

-- the answer of `GetRouteTable` for the version `v`, entered into any later table
finish_refresh-Follows :
    (v : ℕ) (t : RouteTable) (r : Router)
    → IsKeyed t.partitions
    → v < t.version
    → 0 < length t.partitions
    → Follows (finish_refresh (some (get_route_table v t)) r) t
unfolding finish_refresh lookup
finish_refresh-Follows v t r h newer some_ = rw (answer_newer v t newer) (
    entered (wire_partitions t.partitions) (length-wire_partitions t.partitions)
      (λ k. lookup-enter k t.partitions [] h ∙ or_before-none k (lookup k t.partitions)))
  where
    entered :
        (ps : List PartitionInfo)
        → length ps ≡ length t.partitions
        → ((k : ℕ)
            → lookup k (enter ps []) ≡ apply_at (λ j p. wire_partition p) k (lookup k t.partitions))
        → Follows (finish_refresh (some (record { version = t.version; partitions = ps })) r) t
    entered ps e f =
        rw
          (
            if_false (length ps == 0) r
                (update_route_table (record { version = t.version; partitions = ps }) r)
                (ground arith),
            finish_refresh,
          )
          (unfold update_route_table in refl, unfold update_route_table in f)

-- A refresh against a metadata server leaves the routes as they are where the server's table is not
-- newer or is empty; otherwise it makes them that table, entry by entry, with every epoch 0.
pub refresh_route_table-get_route_table :
    (t : RouteTable) (r : Router)
    → IsKeyed t.partitions
    → let after = refresh_route_table (λ v. some (get_route_table v t)) r in
      ((r.route_table.version < t.version) × (0 < length t.partitions) → Follows after t)
      × (((t.version ≤ r.route_table.version) ⊎ (length t.partitions ≡ 0)) → after ≡ r)
unfolding refresh_route_table finish_refresh
refresh_route_table-get_route_table t r h = (
  λ (newer, some_). finish_refresh-Follows r.route_table.version t r h newer some_,
  λ none_new.
      if_true (length (get_route_table r.route_table.version t).partitions == 0) _ _
        (ground (arith, answer_empty r.route_table.version t none_new)),
)

-- A refresh that was asked for before an update arrived, and is answered after it, with a table
-- between the router's and the update's: the routes are those of the answer, so the newer table is
-- lost, though the router had it.
pub finish_refresh_stale :
    (old new : RouteTable) (r : Router)
    → IsKeyed old.partitions
    → 0 < length old.partitions
    → r.route_table.version < old.version
    → old.version < new.version
    → let answer = get_route_table r.route_table.version old in
      let updated = update_route_table_from_update (send_route_update new) r in
      (updated.route_table.version ≡ new.version)
      × Follows (finish_refresh (some answer) updated) old
unfolding update_route_table_from_update send_route_update
finish_refresh_stale old new r h some_ newer newest = (
  ground arith,
  finish_refresh-Follows r.route_table.version old
      (update_route_table_from_update (send_route_update new) r) h newer some_,
)
