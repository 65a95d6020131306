-- ===== src/Server/Roles.antt =====
-- What the routes that the metadata server sends do to the partitions that a node hosts.
use rockskv.Prelude.{
  ltb, ◌==◌, if◌then◌else◌, if_true, if_false, Bool-cases, ℕ, ◌≤◌, ◌≡◌, refl, ap, ◌∙◌, ◌⊎◌, inl,
  inr, Bool, true, false, not, ◌&&◌, ◌||◌, none, some, List, [], ◌∷◌, map, arith,
}
use rockskv.Prelude.Dict.{Dict, lookup, lookup-delete, lookup-insert, lookup-modify}
use rockskv.Bytes.{Bytes, bytes_eq}
use rockskv.Rocks.{RocksDb}
use rockskv.Routes.{PartitionStatus, PartitionInfo}
use rockskv.Partitions.{
  Partition, PartitionManager, add_partition_with_epoch, update_partition_epoch, remove_partition,
  is_primary, should_exist,
}
use rockskv.Replication.{Tick}
use rockskv.Server.Assignment.{
  list_partitions, stop_existing, initialize_replicator, stop_replicator, take_route, take_routes,
  remove_lost, update_partitions_from_route,
}
use rockskv.Server.Writes.{handle_write_iff}
use rockskv.Server.{Server, WriteRequest, handle_write}

-- The partition is hosted, in the role and with the status of before, in no older epoch.
abbrev pub Hosts : ℕ → Partition → PartitionManager → Type 0
Hosts k p pm =
    (q : Partition) × (lookup k pm.partitions ≡ some q)
    × (q.is_prime ≡ p.is_prime)
    × (q.status ≡ p.status)
    × (p.epoch ≤ q.epoch)

abbrev among : List ℕ → ℕ → Bool
among [] k = false
among (j ∷ js) k = j == k || among js k

update_partition_epoch-Hosts :
    (id epoch k : ℕ) (p : Partition) (pm : PartitionManager)
    → Hosts k p pm
    → Hosts k p (update_partition_epoch id epoch pm).0
unfolding update_partition_epoch
update_partition_epoch-Hosts id epoch k p pm (q, found, role, status, newer) =
    let later = if id == k && ltb q.epoch epoch then record q { epoch = epoch } else q in
    (
      later,
      ground
          (arith, lookup-modify id k (λ (x : Partition). record x { epoch = epoch }) pm.partitions),
      ground arith,
      ground arith,
      ground arith,
    )

add_partition-Hosts :
    (id : ℕ) (is_primary : Bool) (epoch k : ℕ) (p : Partition) (pm : PartitionManager)
    → Hosts k p pm
    → Hosts k p (add_partition_with_epoch id is_primary epoch pm).0
unfolding add_partition_with_epoch
add_partition-Hosts id is_primary epoch k p pm (q, found, role, status, newer) = (
  q,
  ground (
    arith,
    lookup-insert id k
        (record { id = id; status = PartitionStatus.normal; is_prime = is_primary; epoch = epoch })
        pm.partitions,
  ),
  role,
  status,
  newer,
)

lookup-remove_partition :
    (id k : ℕ) (pm : PartitionManager)
    → lookup k (remove_partition id pm).0.partitions
      ≡ (if id == k then none else lookup k pm.partitions)
unfolding remove_partition
lookup-remove_partition id k pm = ground (arith, lookup-delete id k pm.partitions)

module _ {Db : Type 0} where
  partition_manager-initialize_replicator :
      (opens : Bool) (now id : ℕ) (is_primary : Bool) (addr : Bytes) (s : Server Db)
      → (initialize_replicator opens now id is_primary addr s).partition_manager
        ≡ s.partition_manager
  unfolding initialize_replicator stop_existing
  partition_manager-initialize_replicator opens now id is_primary addr s = ground arith

  partition_manager-stop_replicator :
      (id : ℕ) (s : Server Db) → (stop_replicator id s).partition_manager ≡ s.partition_manager
  unfolding stop_replicator
  partition_manager-stop_replicator id s = ground arith

  pub take_route-cases :
      (opens : ℕ → Bool) (now : ℕ) (my_addr : Bytes) (i : PartitionInfo) (s : Server Db)
      → let pm = s.partition_manager in
        let after = (take_route opens now my_addr i s).partition_manager in
        (after ≡ pm)
        ⊎ ((after ≡ (update_partition_epoch i.id i.epoch pm).0)
            ⊎ (after ≡ (add_partition_with_epoch i.id (bytes_eq i.primary my_addr) i.epoch pm).0))
  unfolding take_route
  take_route-cases opens now my_addr i s = ground (
    arith,
    partition_manager-initialize_replicator (opens i.id) now i.id (bytes_eq i.primary my_addr)
        (if bytes_eq i.primary my_addr then i.replica else [])
        (record s {
          partition_manager =
              (add_partition_with_epoch i.id (bytes_eq i.primary my_addr) i.epoch
                s.partition_manager).0;
        }),
  )

  take_route-Hosts :
      (opens : ℕ → Bool) (now : ℕ) (my_addr : Bytes) (i : PartitionInfo) (k : ℕ) (p : Partition)
      (s : Server Db)
      → Hosts k p s.partition_manager
      → Hosts k p (take_route opens now my_addr i s).partition_manager
  take_route-Hosts opens now my_addr i k p s h = elim (take_route-cases opens now my_addr i s) [
    | inl same ↦ rw same h
    | inr (inl same) ↦ rw same (update_partition_epoch-Hosts i.id i.epoch k p s.partition_manager h)
    | inr (inr same) ↦ rw same (add_partition-Hosts i.id _ i.epoch k p s.partition_manager h)
  ]

  take_routes-Hosts :
      (opens : ℕ → Bool) (now : ℕ) (my_addr : Bytes) (table : List PartitionInfo) (k : ℕ)
      (p : Partition) (s : Server Db)
      → Hosts k p s.partition_manager
      → Hosts k p (take_routes opens now my_addr table s).partition_manager
  unfolding take_routes
  take_routes-Hosts opens now my_addr [] k p s h = h
  take_routes-Hosts opens now my_addr (i ∷ table) k p s h =
      take_routes-Hosts opens now my_addr table k p _ (take_route-Hosts opens now my_addr i k p s h)

  lookup-removed :
      (gone : Bool) (id k : ℕ) (s : Server Db)
      → let stopped = stop_replicator id s in
        let removed = (remove_partition id stopped.partition_manager).0 in
        let after = if gone then s else record stopped { partition_manager = removed } in
        lookup k after.partition_manager.partitions ≡ (
          if gone
          then lookup k s.partition_manager.partitions
          else if id == k
          then none
          else lookup k s.partition_manager.partitions)
  lookup-removed true id k s = refl
  lookup-removed false id k s =
      lookup-remove_partition id k (stop_replicator id s).partition_manager
      ∙ rw (partition_manager-stop_replicator id s) refl

  pub lookup-remove_lost :
      (exists : ℕ → Bool) (ids : List ℕ) (k : ℕ) (s : Server Db)
      → lookup k (remove_lost exists ids s).partition_manager.partitions
        ≡ (if among ids k && not (exists k) then none else lookup k s.partition_manager.partitions)
  unfolding remove_lost
  lookup-remove_lost exists [] k s = refl
  lookup-remove_lost exists (id ∷ ids) k s =
      lookup-remove_lost exists ids k _
      ∙ rw (lookup-removed (exists id) id k s) (ground (arith, λ (e : id ≡ k). ap exists e))

among-list_partitions :
    (k : ℕ) (m : Dict Partition) (q : Partition)
    → lookup k m ≡ some q
    → among (map (λ (e : ℕ × Partition). e.0) m) k ≡ true
unfolding lookup
among-list_partitions k [] q h = cc
among-list_partitions k ((j, x) ∷ m) q h = ground (arith, among-list_partitions k m q)

-- Of a partition that the node hosts, an update of the routes keeps the role and the status, and
-- never lowers the epoch, where a route still names the node for it; otherwise the node does not
-- host it any more.
pub hosted-update_partitions_from_route :
    {Db : Type 0} (opens : ℕ → Bool) (now : ℕ) (my_addr : Bytes) (table : List PartitionInfo)
    (s : Server Db) (k : ℕ) (p : Partition)
    → lookup k s.partition_manager.partitions ≡ some p
    → let after = update_partitions_from_route opens now my_addr table s in
      (should_exist my_addr table k ≡ true → Hosts k p after.partition_manager)
      × (should_exist my_addr table k ≡ false → lookup k after.partition_manager.partitions ≡ none)
unfolding update_partitions_from_route list_partitions
hosted-update_partitions_from_route opens now my_addr table s k p h =
    let taken = take_routes opens now my_addr table s in
    let gone =
      among (list_partitions taken.partition_manager) k && not (should_exist my_addr table k) in
    let current = lookup k taken.partition_manager.partitions in
    let (q, found, role, status, newer) =
      take_routes-Hosts opens now my_addr table k p s (p, h, refl, refl, omega arith) in
    let left =
      lookup-remove_lost (should_exist my_addr table) (list_partitions taken.partition_manager) k
        taken in
    let listed = among-list_partitions k taken.partition_manager.partitions q found in
    (
      λ exists. (q, left ∙ if_false gone none current (ground arith) ∙ found, role, status, newer),
      λ lost. left ∙ if_true gone none current (ground arith),
    )

not_primary-refused :
    {Db : Type 0} (rocks : RocksDb Db) (succeeds : Bool) (ticks : ℕ → Tick) (r : WriteRequest)
    (s : Server Db)
    → ((q : Partition)
        → lookup r.partition_id s.partition_manager.partitions ≡ some q
        → q.is_prime ≡ false)
    → (handle_write rocks succeeds ticks r s).1.success ≡ false
not_primary-refused rocks succeeds ticks r s h =
    elim (Bool-cases (handle_write rocks succeeds ticks r s).1.success) [
      | inl written_ ↦
          let ((lease, (q, found, prime, epoch)), done) =
            ((handle_write_iff rocks succeeds ticks r s).0).0 written_ in
          let other = h q found in cc
      | inr refused_ ↦ refused_
    ]

-- A node that hosts a partition as a replica refuses every write to it after any update of the
-- routes, also one that names the node as the primary.
pub handle_write-update_partitions_from_route :
    {Db : Type 0} (rocks : RocksDb Db) (opens : ℕ → Bool) (now : ℕ) (my_addr : Bytes)
    (table : List PartitionInfo) (s : Server Db) (p : Partition) (succeeds : Bool)
    (ticks : ℕ → Tick) (r : WriteRequest)
    → lookup r.partition_id s.partition_manager.partitions ≡ some p
    → p.is_prime ≡ false
    → let after = update_partitions_from_route opens now my_addr table s in
      (handle_write rocks succeeds ticks r after).1.success ≡ false
handle_write-update_partitions_from_route rocks opens now my_addr table s p succeeds ticks r h
      role =
    let after = update_partitions_from_route opens now my_addr table s in
    let (kept, removed_) =
      hosted-update_partitions_from_route opens now my_addr table s r.partition_id p h in
    not_primary-refused rocks succeeds ticks r after (λ q found.
      elim (Bool-cases (should_exist my_addr table r.partition_id)) [
        | inl named ↦ let (w, there, same, status, newer) = kept named in cc
        | inr lost ↦ let nothing = removed_ lost in cc
      ])
