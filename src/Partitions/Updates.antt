-- ===== src/Partitions/Updates.antt =====
-- What updates of the partitions of a node leave: the route table decides which partitions there
-- are, and epochs only grow.
use rockskv.Prelude.{
  ltb, ◌==◌, if◌then◌else◌, Bool-cases, ℕ, ◌≡◌, refl, ap, ◌∙◌, ◌↔◌, inl, inr, Bool, true, false,
  ◌&&◌, Option, none, some, List, [], ◌∷◌, arith,
}
use rockskv.Prelude.Dict.{Dict, lookup, lookup-insert, lookup-modify}
use rockskv.Bytes.{Bytes, bytes_eq}
use rockskv.Routes.{PartitionInfo}
use rockskv.Partitions.{
  Partition, PartitionManager, update_partition_epoch, validate_epoch, names, take_over, assign,
  should_exist, keep, update_from_route_table,
}

-- The last entry of the table for the partition that names the node.
unfoldable pub assigned : Bytes → ℕ → List PartitionInfo → Option PartitionInfo
assigned node k [] = none
assigned node k (p ∷ ps) = elim (assigned node k ps) [
  | some q ↦ some q
  | none ↦ if p.id == k && names node p then some p else none
]

-- What the node then hosts, where it hosted `old`: the epoch is kept.
abbrev pub hosted : Bytes → ℕ → Option Partition → Option PartitionInfo → Option Partition
hosted node k old none = none
hosted node k old (some q) = some (record {
  id = elim old [ none ↦ k | some e ↦ e.id ];
  status = q.status;
  is_prime = bytes_eq q.primary node;
  epoch = elim old [ none ↦ 0 | some e ↦ e.epoch ];
})

abbrev after : Bytes → ℕ → Option Partition → Option PartitionInfo → Option Partition
after node k old none = old
after node k old (some q) = hosted node k old (some q)

take_over-hosted :
    (node : Bytes) (k : ℕ) (p : PartitionInfo) (old : Option Partition)
    → p.id ≡ k
    → some (take_over node p old) ≡ hosted node k old (some p)
unfolding take_over
take_over-hosted node k p none e = rw e
take_over-hosted node k p (some x) e = refl

-- an earlier entry matters where it is for the partition and no later one is
skipped :
    (node : Bytes) (k : ℕ) (p : PartitionInfo) (b : Bool) (old : Option Partition)
    (o : Option PartitionInfo)
    → b ≡ false
    → after node k old o
      ≡ after node k old (elim o [ some q ↦ some q | none ↦ if b then some p else none ])
skipped node k p true old o h = cc
skipped node k p false old none h = refl
skipped node k p false old (some q) h = refl

taken :
    (node : Bytes) (k : ℕ) (p : PartitionInfo) (b : Bool) (old : Option Partition)
    (o : Option PartitionInfo)
    → b ≡ true
    → after node k (hosted node k old (some p)) o
      ≡ after node k old (elim o [ some q ↦ some q | none ↦ if b then some p else none ])
taken node k p false old o h = cc
taken node k p true none none h = refl
taken node k p true none (some q) h = refl
taken node k p true (some x) none h = refl
taken node k p true (some x) (some q) h = refl

lookup-assign :
    (node : Bytes) (k : ℕ) (ps : List PartitionInfo) (m : Dict Partition)
    → lookup k (assign node ps m) ≡ after node k (lookup k m) (assigned node k ps)
unfolding assign assigned
lookup-assign node k [] m = refl
lookup-assign node k (p ∷ ps) m = elim (Bool-cases (names node p)) [
  | inr foreign ↦
      lookup-assign node k ps _
      ∙ ap (λ (o : Option Partition). after node k o (assigned node k ps)) (rw foreign)
      ∙ skipped node k p (p.id == k && names node p) (lookup k m) (assigned node k ps)
          (ground arith)
  | inl ours ↦ elim (Bool-cases (p.id == k)) [
    | inl same ↦
        lookup-assign node k ps _
        ∙ ap (λ (o : Option Partition). after node k o (assigned node k ps))
            (rw (ours, lookup-insert, same) (found (ground arith)))
        ∙ taken node k p (p.id == k && names node p) (lookup k m) (assigned node k ps)
            (ground arith)
    | inr other ↦
        lookup-assign node k ps _
        ∙ ap (λ (o : Option Partition). after node k o (assigned node k ps))
            (rw (ours, lookup-insert, other))
        ∙ skipped node k p (p.id == k && names node p) (lookup k m) (assigned node k ps)
            (ground arith)
  ]
]
  where
    found : p.id ≡ k → some (take_over node p (lookup p.id m)) ≡ hosted node k (lookup k m) (some p)
    found e =
        ap (λ (j : ℕ). some (take_over node p (lookup j m))) e
        ∙ take_over-hosted node k p (lookup k m) e

lookup-keep :
    (f : ℕ → Bool) (k : ℕ) (m : Dict Partition)
    → lookup k (keep f m) ≡ (if f k then lookup k m else none)
unfolding lookup keep
lookup-keep f k [] = ground arith
lookup-keep f k ((j, p) ∷ m) = elim (Bool-cases (j == k)) [
  | inl same ↦ ground (arith, ap f (the_key same), lookup-keep f k m)
  | inr other ↦ ground (arith, lookup-keep f k m)
]
  where
    the_key : (j == k) ≡ true → j ≡ k
    the_key h = ground arith

should_exist-assigned :
    (node : Bytes) (k : ℕ) (ps : List PartitionInfo)
    → should_exist node ps k ≡ elim (assigned node k ps) [ none ↦ false | some q ↦ true ]
unfolding should_exist assigned
should_exist-assigned node k [] = refl
should_exist-assigned node k (p ∷ ps) = ground (arith, should_exist-assigned node k ps)

-- After an update from the route table the node hosts exactly the partitions whose last entry that
-- names the node exists, as primary where that entry says so and with its status; a partition that
-- it hosted before keeps its epoch, a new one has epoch 0.
pub update_from_route_table_lem :
    (table : List PartitionInfo) (pm : PartitionManager) (k : ℕ)
    → lookup k (update_from_route_table table pm).partitions
      ≡ hosted pm.node_id k (lookup k pm.partitions) (assigned pm.node_id k table)
unfolding update_from_route_table
update_from_route_table_lem table pm k =
    lookup-keep (should_exist pm.node_id table) k (assign pm.node_id table pm.partitions)
    ∙ rw (should_exist-assigned pm.node_id k table, lookup-assign pm.node_id k table pm.partitions)
        (cases (assigned pm.node_id k table))
  where
    cases :
        (o : Option PartitionInfo)
        → (if elim o as (λ _. Bool) [ none ↦ false | some q ↦ true ]
            then after pm.node_id k (lookup k pm.partitions) o
            else none)
          ≡ hosted pm.node_id k (lookup k pm.partitions) o
    cases none = refl
    cases (some q) = refl

-- The epoch of a partition that the node hosts never goes down by `UpdatePartitionEpoch`, which
-- always succeeds on it; afterwards a request is let through exactly where its epoch is the larger
-- one of the old epoch and the announced one.
pub validate_epoch-update_partition_epoch :
    (id epoch request_epoch : ℕ) (pm : PartitionManager) (p : Partition)
    → lookup id pm.partitions ≡ some p
    → let updated = update_partition_epoch id epoch pm in
      (updated.1 ≡ none)
      × ((validate_epoch id request_epoch updated.0 ≡ none)
          ↔ (request_epoch ≡ (if ltb p.epoch epoch then epoch else p.epoch)))
unfolding update_partition_epoch validate_epoch
validate_epoch-update_partition_epoch id epoch request_epoch pm p e =
    ground (arith, lookup-modify id id (λ q. record q { epoch = epoch }) pm.partitions)
