-- ===== src/Migration/Moved.antt =====
-- What the items of a plan make of a partition when they are carried out, in either order and with
-- the watch delivering between them or not.
use rockskv.Prelude.{
  if◌then◌else◌, Bool-cases, length, ℕ, ◌<◌, ◌≡◌, refl, ◌∙◌, inl, inr, Bool, true, false, not, ◌&&◌,
  ◌||◌, Option, some, List, [], ◌∷◌, arith,
}
use mathlib.Core.Path.{subst}
use rockskv.Prelude.Dict.{lookup}
use rockskv.Bytes.{Bytes, bytes_eq}
use rockskv.Ring.{ConsistentHash, get_nodes}
use rockskv.Routes.{stored_table, Router, NodeInfo, PartitionInfo}
use rockskv.Server.Transfer.{SstChunk}
use rockskv.Migration.{
  MigrationPlanItem, primary_changes, replica_changes, primary_item, replica_item, plan_items,
  passed_on, run_items,
}
use rockskv.Migration.Items.{all_succeed}
use rockskv.Migration.Plan.{
  arranged, with_delivery, items_for, entry_after, to_primary, to_replica, one_item, two_items,
}

-- The entry of the partition afterwards, by whether its primary and its replica have to move.
abbrev pub IsMoved :
    Bool → Bool → Bool → Bool → Bytes → Bytes → PartitionInfo → Option PartitionInfo → Type 0
IsMoved primary_moves replica_moves primary_first delivered np nr p o =
    (q : PartitionInfo) × (o ≡ some q)
    × (q.primary ≡ (
        if primary_moves && not (replica_moves && (primary_first && not delivered))
        then np
        else p.primary))
    × (q.replica
        ≡ (if replica_moves && (not primary_moves || primary_first) then nr else p.primary))

module _ (nodes : List NodeInfo) (id : ℕ) (np nr : Bytes) (r : Router) (p : PartitionInfo)
    (received : MigrationPlanItem → List SstChunk)
    (ingest : MigrationPlanItem → List SstChunk → Option Bool)
    (ingested : (i : MigrationPlanItem) → ingest i (passed_on (received i)) ≡ some true)
    (known : lookup id r.route_table.partitions ≡ some p) where
  abbrev pi : MigrationPlanItem
  pi = primary_item nodes id np p

  abbrev ri : MigrationPlanItem
  ri = replica_item nodes id nr p

  abbrev entry_of : List MigrationPlanItem → Bool → Option PartitionInfo
  entry_of items delivered =
      lookup id
        (stored_table
          (run_items all_succeed received ingest (with_delivery delivered items)
            r).store).partitions

  only_primary : (delivered : Bool) → entry_of (pi ∷ []) delivered ≡ some (entry_after pi p)
  unfolding primary_item run_items
  only_primary delivered = one_item received ingest ingested delivered pi r p known

  only_replica : (delivered : Bool) → entry_of (ri ∷ []) delivered ≡ some (entry_after ri p)
  unfolding replica_item run_items
  only_replica delivered = one_item received ingest ingested delivered ri r p known

  primary_then_replica :
      (delivered : Bool)
      → entry_of (pi ∷ ri ∷ []) delivered
        ≡ some (entry_after ri (if delivered then entry_after pi p else p))
  unfolding primary_item replica_item run_items
  primary_then_replica delivered = two_items received ingest ingested delivered pi ri r p refl known

  replica_then_primary :
      (delivered : Bool)
      → entry_of (ri ∷ pi ∷ []) delivered
        ≡ some (entry_after pi (if delivered then entry_after ri p else p))
  unfolding primary_item replica_item run_items
  replica_then_primary delivered = two_items received ingest ingested delivered ri pi r p refl known

  both :
      (primary_first delivered : Bool)
      → primary_changes np p ≡ true
      → replica_changes nr p ≡ true
      → IsMoved
          (primary_changes np p)
          (replica_changes nr p)
          primary_first
          delivered
          np
          nr
          p
          (entry_of (arranged primary_first (pi ∷ ri ∷ [])) delivered)
  both true true a b =
      let (e, f) = to_replica nodes id nr p (entry_after pi p) in
      rw (a, b)
        (
          entry_after ri (entry_after pi p),
          primary_then_replica true,
          e ∙ (to_primary nodes id np p p a refl).0,
          f,
        )
  both true false a b =
      let (e, f) = to_replica nodes id nr p p in
      rw (a, b) (entry_after ri p, primary_then_replica false, e, f)
  both false true a b =
      let (e, f) = to_primary nodes id np p (entry_after ri p) a (to_replica nodes id nr p p).0 in
      rw (a, b) (entry_after pi (entry_after ri p), replica_then_primary true, e, f)
  both false false a b =
      let (e, f) = to_primary nodes id np p p a refl in
      rw (a, b) (entry_after pi p, replica_then_primary false, e, f)

  alone : (i : MigrationPlanItem) (b : Bool) → arranged b (i ∷ []) ≡ i ∷ []
  alone i true = refl
  alone i false = refl

  as_items :
      (primary_first delivered : Bool) (items : List MigrationPlanItem)
      → items ≡ items_for nodes id np nr p
      → IsMoved
          (primary_changes np p)
          (replica_changes nr p)
          primary_first
          delivered
          np
          nr
          p
          (entry_of (arranged primary_first items) delivered)
      → IsMoved
          (primary_changes np p)
          (replica_changes nr p)
          primary_first
          delivered
          np
          nr
          p
          (entry_of (arranged primary_first (items_for nodes id np nr p)) delivered)
  as_items primary_first delivered items e =
      subst
        (λ l.
          IsMoved (primary_changes np p) (replica_changes nr p) primary_first delivered np nr p
            (entry_of (arranged primary_first l) delivered))
        e

  primary_alone :
      (b delivered : Bool)
      → primary_changes np p ≡ true
      → replica_changes nr p ≡ false
      → IsMoved
          (primary_changes np p)
          (replica_changes nr p)
          b
          delivered
          np
          nr
          p
          (entry_of (arranged b (pi ∷ [])) delivered)
  primary_alone b delivered a c =
      let (e, f) = to_primary nodes id np p p a refl in
      rw (a, c, alone) (entry_after pi p, only_primary delivered, e, f)

  replica_alone :
      (b delivered : Bool)
      → primary_changes np p ≡ false
      → replica_changes nr p ≡ true
      → IsMoved
          (primary_changes np p)
          (replica_changes nr p)
          b
          delivered
          np
          nr
          p
          (entry_of (arranged b (ri ∷ [])) delivered)
  replica_alone b delivered a c =
      let (e, f) = to_replica nodes id nr p p in
      rw (a, c, alone) (entry_after ri p, only_replica delivered, e, f)

  moved :
      (primary_first delivered : Bool)
      → (primary_changes np p || replica_changes nr p) ≡ true
      → IsMoved
          (primary_changes np p)
          (replica_changes nr p)
          primary_first
          delivered
          np
          nr
          p
          (entry_of (arranged primary_first (items_for nodes id np nr p)) delivered)
  moved b delivered some_item = elim (Bool-cases (primary_changes np p)) [
    | inl p_moves ↦ elim (Bool-cases (replica_changes nr p)) [
      | inl r_moves ↦
          as_items b delivered (pi ∷ ri ∷ []) (rw (p_moves, r_moves) refl)
            (both b delivered p_moves r_moves)
      | inr r_stays ↦
          as_items b delivered (pi ∷ []) (rw (p_moves, r_stays) refl)
            (primary_alone b delivered p_moves r_stays)
    ]
    | inr p_stays ↦ elim (Bool-cases (replica_changes nr p)) [
      | inl r_moves ↦
          as_items b delivered (ri ∷ []) (rw (p_stays, r_moves) refl)
            (replica_alone b delivered p_stays r_moves)
      | inr r_stays ↦ absurd (ground arith)
    ]
  ]

has_item :
    (nodes : List NodeInfo) (id : ℕ) (np nr : Bytes) (p : PartitionInfo)
    → 0 < length (items_for nodes id np nr p)
    → (primary_changes np p || replica_changes nr p) ≡ true
has_item nodes id np nr p some_item = ground (arith, some_item)

-- The items that a plan has for a partition, where it has one at least and every call of their
-- migrations succeeds, leave in the store: as primary the one that the ring names, where it is not
-- the primary already; but the old primary, where the replica's item ends last and the watch does
-- not deliver the table of the first item before. As replica the one that the ring names, where it
-- is neither primary nor replica already and the replica's item is the only one or ends last; else
-- the old primary. The router knows the partition; other partitions' items do not run meanwhile.
pub run_items-plan_items :
    (nodes : List NodeInfo) (ring : ConsistentHash) (id : ℕ) (r : Router) (p : PartitionInfo)
    (received : MigrationPlanItem → List SstChunk)
    (ingest : MigrationPlanItem → List SstChunk → Option Bool) (primary_first delivered : Bool)
    → ((i : MigrationPlanItem) → ingest i (passed_on (received i)) ≡ some true)
    → lookup id r.route_table.partitions ≡ some p
    → 0 < length (plan_items nodes ring id p)
    → let (np, nr) = get_nodes id ring in
      let items = with_delivery delivered (arranged primary_first (plan_items nodes ring id p)) in
      IsMoved
        (not (bytes_eq p.primary np))
        (not (bytes_eq p.replica nr) && not (bytes_eq p.primary nr))
        primary_first
        delivered
        np
        nr
        p
        (lookup id (stored_table (run_items all_succeed received ingest items r).store).partitions)
unfolding plan_items primary_changes replica_changes
run_items-plan_items nodes ring id r p received ingest primary_first delivered ingested known
      some_item =
    let (np, nr) = get_nodes id ring in
    moved nodes id np nr r p received ingest ingested known primary_first delivered
      (has_item nodes id np nr p some_item)
