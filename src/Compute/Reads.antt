-- ===== src/Compute/Reads.antt =====
-- What a compute node reads after it has written.
use rockskv.Compute.NodeReads.{storage_get-put}
use rockskv.Compute.Handlers.{
  Cluster, Calls, set_node, Handler, is_ok, send_write, send_read, first_answer, do_put, do_get,
  at_primary, put, at_either, get, answered,
}
use rockskv.Compute.{Router, calculate_partition, get_partition_nodes}
use rockskv.Prelude.{
  ◌==◌, if◌then◌else◌, Bool-cases, Option-cases, ℕ, ◌^◌, ◌<◌, ◌≡◌, refl, sym, ap, ◌∙◌, inl, inr,
  Bool, true, false, ◌&&◌, Option, none, some, arith,
}
use rockskv.Bytes.{Bytes, bytes_eq, bytes_eq_iff}
use rockskv.Routes.Init.{total_partitions}
use rockskv.Rocks.{RocksDb, IsStore}
use rockskv.Replication.{Tick}
use rockskv.Server.{Server, no_error}
use rockskv.Server.Handlers.{put as storage_put, get as storage_get, ReadResponse}

module _ {Db : Type 0} where
  send_write_ok :
      (c : Calls) (addr : Bytes) (handler : Handler Db) (cluster : Cluster Db)
      → (send_write c addr handler cluster).1 ≡ true
      → (s : Server Db) × (cluster addr ≡ some s)
        × ((handler (c.succeeds addr) (c.ticks addr) s).1.success ≡ true)
        × ((send_write c addr handler cluster).0
            ≡ set_node addr (handler (c.succeeds addr) (c.ticks addr) s).0 cluster)
  unfolding send_write
  send_write_ok c addr handler cluster h = elim (Option-cases (cluster addr)) [
    | inl e ↦ absurd (ground arith)
    | inr (s, e) ↦ (s, e, ground arith, ground arith)
  ]

module _ {Db : Type 0} (rocks : RocksDb Db) (laws : IsStore Db rocks) (sum64 : Bytes → ℕ)
    (r : Router) (c : Calls) (key value : Bytes) (cluster : Cluster Db) where
  put_ok :
      (put rocks sum64 c key value r cluster).1 ≡ true
      → (n : Bytes × (Bytes × ℕ)) × (get_partition_nodes sum64 key r ≡ some n)
        × ((do_put rocks sum64 c n.0 key value (calculate_partition sum64 key) n.1.1 cluster).1
            ≡ true)
        × ((put rocks sum64 c key value r cluster).0
            ≡ (do_put rocks sum64 c n.0 key value (calculate_partition sum64 key) n.1.1 cluster).0)
  unfolding put at_primary
  put_ok h = elim (Option-cases (get_partition_nodes sum64 key r)) [
    | inl e ↦ absurd (ground arith)
    | inr (n, e) ↦ (n, e, ground arith, ground arith)
  ]

-- Every call is answered, and the databases succeed.
abbrev pub all_answered : (Bytes → ℕ → Tick) → Calls
all_answered ticks = record { delivery = λ _. answered; succeeds = λ _. true; ticks = ticks }

module _ {Db : Type 0} (rocks : RocksDb Db) (laws : IsStore Db rocks) (sum64 : Bytes → ℕ) where
  below : (key : Bytes) → calculate_partition sum64 key < 2 ^ 32
  unfolding calculate_partition total_partitions
  below key = omega arith

  -- what the caller gets of a node that answers
  abbrev answer : ReadResponse Bytes → Option (Option Bytes)
  answer response = if is_ok response.error then some response.value else none

  abbrev answer_at : ℕ → Bytes → Option (Server Db) → Option (Option Bytes)
  answer_at q j none = none
  answer_at q j (some s) = answer (storage_get rocks true q j s)

  do_get-answer_at :
      (ticks : Bytes → ℕ → Tick) (node j : Bytes) (q : ℕ) (cluster : Cluster Db)
      → do_get rocks sum64 (all_answered ticks) node j q cluster ≡ answer_at q j (cluster node)
  unfolding do_get send_read
  do_get-answer_at ticks node j q cluster = ground arith

  -- the answer of one node after a put at the node `n`
  do_get-do_put :
      (c : Calls) (ticks : Bytes → ℕ → Tick) (n node key value j : Bytes) (epoch : ℕ)
      (cluster : Cluster Db)
      → (do_put rocks sum64 c n key value (calculate_partition sum64 key) epoch cluster).1 ≡ true
      → do_get rocks sum64
          (all_answered ticks)
          node
          j
          (calculate_partition sum64 j)
          (do_put rocks sum64 c n key value (calculate_partition sum64 key) epoch cluster).0
        ≡ (if bytes_eq n node && bytes_eq key j
            then some (some value)
            else do_get rocks sum64
                (all_answered ticks)
                node
                j
                (calculate_partition sum64 j)
                cluster)
  unfolding do_put set_node
  do_get-do_put c ticks n node key value j epoch cluster h =
      let p = calculate_partition sum64 key in
      let q = calculate_partition sum64 j in
      let (s, listens, done, after) =
        send_write_ok c n (λ b t x. storage_put rocks b t p epoch key value x) cluster h in
      let read =
        storage_get-put rocks laws p q (below key) (below j) (c.succeeds n) (c.ticks n) epoch key
          value j s done in
      let test : (p == q && bytes_eq key j) ≡ bytes_eq key j =
        ground (arith, bytes_eq_iff key j, λ (x : key ≡ j). ap (calculate_partition sum64) x) in
      rw after (
        do_get-answer_at ticks node j q
          (set_node n (storage_put rocks (c.succeeds n) (c.ticks n) p epoch key value s).0 cluster)
        ∙ elim (Bool-cases (bytes_eq n node)) [
          | inl e ↦
              let here : cluster node ≡ some s =
                ap cluster (sym ((bytes_eq_iff n node).0 e)) ∙ listens in
              rw (e, do_get-answer_at ticks node j q cluster, here, read, test)
                (same_answer (bytes_eq key j) _)
          | inr e ↦ rw (e, do_get-answer_at ticks node j q cluster) refl
        ])
    where
      same_answer :
          (b : Bool) (other : ReadResponse Bytes)
          → answer (if b then record { value = some value; error = no_error } else other)
            ≡ (if b then some (some value) else answer other)
      same_answer true other = refl
      same_answer false other = refl

  first_answer_if :
      (a b : Bool) (found : Option Bytes) (old other : Option (Option Bytes))
      → (b ≡ true → a ≡ true)
      → (x : Bool)
      → first_answer (if a && b then some found else old) (if x && b then some found else other)
        ≡ (if b then some found else first_answer old other)
  unfolding first_answer
  first_answer_if a b found old other h x = ground arith

  abbrev get_from :
      (Bytes → ℕ → Tick) → Bytes → Cluster Db → Option (Bytes × (Bytes × ℕ)) → Option (Option Bytes)
  get_from ticks j cluster none = none
  get_from ticks j cluster (some (primary, (replica, epoch))) =
      first_answer
        (do_get rocks sum64 (all_answered ticks) primary j (calculate_partition sum64 j) cluster)
        (do_get rocks sum64 (all_answered ticks) replica j (calculate_partition sum64 j) cluster)

  get-get_from :
      (ticks : Bytes → ℕ → Tick) (j : Bytes) (r : Router) (cluster : Cluster Db)
      → get rocks sum64 (all_answered ticks) j r cluster
        ≡ get_from ticks j cluster (get_partition_nodes sum64 j r)
  unfolding get at_either
  get-get_from ticks j r cluster = ground arith

  -- A put that the compute node reports as a success is read at once: with every call answered, a
  -- read of the same key through the same routes finds the new value, and a read of any other key
  -- gives what it gave before, whatever nodes they go to.
  pub get-put_routed :
      (c : Calls) (ticks : Bytes → ℕ → Tick) (r : Router) (key value j : Bytes)
      (cluster : Cluster Db)
      → (put rocks sum64 c key value r cluster).1 ≡ true
      → get rocks sum64 (all_answered ticks) j r (put rocks sum64 c key value r cluster).0 ≡ (
          if bytes_eq key j
          then some (some value)
          else get rocks sum64 (all_answered ticks) j r cluster)
  get-put_routed c ticks r key value j cluster h =
      let (n, routed, sent, after) = put_ok rocks laws sum64 r c key value cluster h in
      rw
        (
          after,
          get-get_from ticks j r cluster,
          get-get_from ticks j r
              (do_put rocks sum64 c n.0 key value (calculate_partition sum64 key) n.1.1 cluster).0,
        )
        (routes n sent (get_partition_nodes sum64 j r) (λ same.
          ap (λ k. get_partition_nodes sum64 k r) (sym ((bytes_eq_iff key j).0 same)) ∙ routed))
    where
      routes :
          (n : Bytes × (Bytes × ℕ))
          → (do_put rocks sum64 c n.0 key value (calculate_partition sum64 key) n.1.1 cluster).1
            ≡ true
          → (m : Option (Bytes × (Bytes × ℕ))) → (bytes_eq key j ≡ true → m ≡ some n)
          → get_from ticks j
              (do_put rocks sum64 c n.0 key value (calculate_partition sum64 key) n.1.1 cluster).0
              m
            ≡ (if bytes_eq key j then some (some value) else get_from ticks j cluster m)
      routes n sent none same = ground (arith, same)
      routes n sent (some (primary, (replica, epoch))) same =
          rw
            (
              do_get-do_put c ticks n.0 primary key value j n.1.1 cluster sent,
              do_get-do_put c ticks n.0 replica key value j n.1.1 cluster sent,
            )
            (first_answer_if (bytes_eq n.0 primary) (bytes_eq key j) (some value) _ _
              (λ e. (bytes_eq_iff n.0 primary).1 (cc (same e))) (bytes_eq n.0 replica))
