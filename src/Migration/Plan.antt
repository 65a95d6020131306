-- ===== src/Migration/Plan.antt =====
-- Runs of one item and of two items of a partition: the entry that is stored and the entry that the
-- router's cache has, with the watch delivering or not.
use rockskv.Prelude.{
  if◌then◌else◌, ℕ, ◌≡◌, refl, ap, ◌∙◌, Bool, true, false, Option, some, List, [], ◌∷◌, ◌++◌, arith,
}
use mathlib.Core.Path.{subst}
use rockskv.Prelude.Dict.{lookup}
use rockskv.Bytes.{Bytes, bytes_eq_iff}
use rockskv.Routes.{
  stored_table, copy_routing, Router, watch, deliver_if, move_primary, move_replica, NodeInfo,
  PartitionInfo, RouteTable,
}
use rockskv.Routes.Change.{migrated_entry}
use rockskv.Server.Transfer.{SstChunk}
use rockskv.Migration.{
  MigrationPlanItem, primary_changes, replica_changes, primary_item, replica_item, passed_on,
  migrate_partition, run_items,
}
use rockskv.Migration.Items.{all_succeed, migrate_partition_ok}

-- The items of a partition, in the order of the loop or in the other one: a run may end them in
-- either.
abbrev pub arranged : Bool → List MigrationPlanItem → List MigrationPlanItem
arranged false (a ∷ b ∷ []) = b ∷ a ∷ []
arranged _ items = items

abbrev pub with_delivery : Bool → List MigrationPlanItem → List (MigrationPlanItem × Bool)
with_delivery delivered [] = []
with_delivery delivered (i ∷ items) = (i, delivered) ∷ with_delivery delivered items

abbrev pub items_for : List NodeInfo → ℕ → Bytes → Bytes → PartitionInfo → List MigrationPlanItem
items_for nodes id new_primary new_replica p =
    (if primary_changes new_primary p then primary_item nodes id new_primary p ∷ [] else [])
    ++ (if replica_changes new_replica p then replica_item nodes id new_replica p ∷ [] else [])

abbrev pub entry_after : MigrationPlanItem → PartitionInfo → PartitionInfo
entry_after i p = migrated_entry i.target_node i.is_primary (copy_routing p)

pub to_primary :
    (nodes : List NodeInfo) (id : ℕ) (np : Bytes) (p q : PartitionInfo)
    → primary_changes np p ≡ true
    → q.primary ≡ p.primary
    → let after = entry_after (primary_item nodes id np p) q in
      (after.primary ≡ np) × (after.replica ≡ p.primary)
unfolding primary_changes primary_item copy_routing move_primary
to_primary nodes id np p q moves same =
    ground (arith, bytes_eq_iff p.primary np, bytes_eq_iff p.replica np)

pub to_replica :
    (nodes : List NodeInfo) (id : ℕ) (nr : Bytes) (p q : PartitionInfo)
    → let after = entry_after (replica_item nodes id nr p) q in
      (after.primary ≡ q.primary) × (after.replica ≡ nr)
unfolding replica_item copy_routing move_replica
to_replica nodes id nr p q = (refl, refl)

module _ (received : MigrationPlanItem → List SstChunk)
    (ingest : MigrationPlanItem → List SstChunk → Option Bool)
    (ingested : (i : MigrationPlanItem) → ingest i (passed_on (received i)) ≡ some true) where
  abbrev end_of : MigrationPlanItem → Router → Router
  end_of i r = (migrate_partition all_succeed (received i) (ingest i) i r).0

  run_one :
      (delivered : Bool) (i : MigrationPlanItem) (r : Router)
      → run_items all_succeed received ingest ((i, delivered) ∷ []) r
        ≡ deliver_if delivered (end_of i r)
  unfolding run_items
  run_one delivered i r = refl

  run_two :
      (delivered : Bool) (i j : MigrationPlanItem) (r : Router)
      → run_items all_succeed received ingest ((i, delivered) ∷ (j, delivered) ∷ []) r
        ≡ deliver_if delivered (end_of j (deliver_if delivered (end_of i r)))
  unfolding run_items
  run_two delivered i j r = refl

  stored-delivered :
      (b : Bool) (r : Router) → stored_table (deliver_if b r).store ≡ stored_table r.store
  unfolding deliver_if watch
  stored-delivered true r = refl
  stored-delivered false r = refl

  pub one_item :
      (delivered : Bool) (i : MigrationPlanItem) (r : Router) (p : PartitionInfo)
      → lookup i.partition_id r.route_table.partitions ≡ some p
      → lookup i.partition_id (stored_table (deliver_if delivered (end_of i r)).store).partitions
        ≡ some (entry_after i p)
  one_item delivered i r p known =
      ap (λ (t : RouteTable). lookup i.partition_id t.partitions)
        (stored-delivered delivered (end_of i r))
      ∙ (migrate_partition_ok (received i) (ingest i) i r p known (ingested i)).1

  cached_after :
      (delivered : Bool) (i : MigrationPlanItem) (r : Router) (p : PartitionInfo)
      → lookup i.partition_id r.route_table.partitions ≡ some p
      → lookup i.partition_id (deliver_if delivered (end_of i r)).route_table.partitions
        ≡ some (if delivered then entry_after i p else p)
  unfolding deliver_if watch
  cached_after true i r p known =
      (migrate_partition_ok (received i) (ingest i) i r p known (ingested i)).1
  cached_after false i r p known =
      ap (λ (t : RouteTable). lookup i.partition_id t.partitions)
        (migrate_partition_ok (received i) (ingest i) i r p known (ingested i)).0
      ∙ known

  pub two_items :
      (delivered : Bool) (i j : MigrationPlanItem) (r : Router) (p : PartitionInfo)
      → i.partition_id ≡ j.partition_id
      → lookup j.partition_id r.route_table.partitions ≡ some p
      → lookup j.partition_id
          (stored_table
            (deliver_if delivered (end_of j (deliver_if delivered (end_of i r)))).store).partitions
        ≡ some (entry_after j (if delivered then entry_after i p else p))
  two_items delivered i j r p same known =
      one_item delivered j (deliver_if delivered (end_of i r))
        (if delivered then entry_after i p else p)
        (subst
          (λ n.
            lookup n (deliver_if delivered (end_of i r)).route_table.partitions
            ≡ some (if delivered then entry_after i p else p))
          same
          (cached_after delivered i r p (ap (λ n. lookup n r.route_table.partitions) same ∙ known)))
