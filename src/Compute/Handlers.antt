-- ===== src/Compute/Handlers.antt =====
-- The handlers of a compute node, pkg/compute/server.go, over the storage nodes by their addresses.
-- A node's id is its address, as `NodeResolver` takes it to be. A call of a storage node may not
-- arrive, or its answer may be lost; both are errors. Logging and metrics are left out.
use rockskv.Prelude.{
  if◌then◌else◌, ok, err, panic, length, ℕ, ◌+◌, Bool, true, false, ◌&&◌, Option, none, some, List,
  [], ◌∷◌, ◌++◌,
}
use rockskv.Prelude.Dict.{Dict, lookup, insert}
use rockskv.Bytes.{Bytes, bytes_eq}
use rockskv.Rocks.{KeyValueItem, RocksDb}
use rockskv.Fields.{FieldUpdate}
use rockskv.Replication.{Tick}
use rockskv.Server.{Server, ErrorCode, WriteResponse, no_error, internal_error}
use rockskv.Server.Handlers.{
  put as storage_put, delete as storage_delete, set_fields as storage_set_fields,
  delete_field as storage_delete_field, batch_put as storage_batch_put, get as storage_get,
  get_field as storage_get_field, get_all_fields as storage_get_all_fields, ReadResponse,
}
use rockskv.Compute.{Router, calculate_partition, get_partition_nodes_by_id, get_partition_nodes}

-- what becomes of a call
pub data Delivery : Type 0 where
  lost_call lost_answer answered : Delivery

-- the storage nodes; `none` where no node listens
abbrev pub Cluster : Type 0 → Type 0
Cluster Db = Bytes → Option (Server Db)

-- What the storage node and the network do with the calls of one request: by address, what becomes
-- of the call, whether the database succeeds, and the clock.
pub record Calls : Type 0 where
  pub delivery : Bytes → Delivery
  pub succeeds : Bytes → Bool
  pub ticks : Bytes → ℕ → Tick

unfoldable pub set_node : {Db : Type 0} → Bytes → Server Db → Cluster Db → Cluster Db
set_node addr s cluster a = if bytes_eq addr a then some s else cluster a

-- a call that changes a node, and whether it succeeded for the caller
abbrev pub Handler : Type 0 → Type 0
Handler Db = Bool → (ℕ → Tick) → Server Db → Server Db × WriteResponse

-- `!resp.Success || resp.Error != pb.ErrorCode_OK`
abbrev pub is_ok : ErrorCode → Bool
is_ok no_error = true
is_ok _ = false

module _ {Db : Type 0} where
  unfoldable pub send_write : Calls → Bytes → Handler Db → Cluster Db → Cluster Db × Bool
  unfolding set_node
  send_write c addr handler cluster = elim (cluster addr) as (λ _. Cluster Db × Bool) [
    | none ↦ (cluster, false)
    | some s ↦
        let (after, response) = handler (c.succeeds addr) (c.ticks addr) s in
        elim (c.delivery addr) as (λ _. Cluster Db × Bool) [
          | lost_call ↦ (cluster, false)
          | lost_answer ↦ (set_node addr after cluster, false)
          | answered ↦ (set_node addr after cluster, response.success && is_ok response.error)
        ]
  ]

  -- a call that reads; `none` is an error
  unfoldable pub send_read :
      {A : Type 0}
      → Calls
      → Bytes
      → (Bool → Server Db → ReadResponse A)
      → Cluster Db
      → Option (Option A)
  send_read c addr handler cluster = elim (cluster addr) [
    | none ↦ none
    | some s ↦
        let response = handler (c.succeeds addr) s in
        elim (c.delivery addr) [
          | lost_call ↦ none
          | lost_answer ↦ none
          | answered ↦ if is_ok response.error then some response.value else none
        ]
  ]

-- the primary first, then the replica
unfoldable pub first_answer : {A : Type 0} → Option A → Option A → Option A
first_answer (some a) other = some a
first_answer none other = other

-- the items of each partition, in the order of the request
unfoldable pub group_items :
    (Bytes → ℕ) → List KeyValueItem → Dict (List KeyValueItem) → Dict (List KeyValueItem)
unfolding calculate_partition
group_items sum64 [] m = m
group_items sum64 ((key, value) ∷ items) m =
    let id = calculate_partition sum64 key in
    let grouped : List KeyValueItem = elim (lookup id m) [ none ↦ [] | some l ↦ l ] in
    group_items sum64 items (insert id (grouped ++ ((key, value) ∷ [])) m)

module _ {Db : Type 0} (rocks : RocksDb Db) (sum64 : Bytes → ℕ) where
  unfoldable pub do_put : Calls → Bytes → Bytes → Bytes → ℕ → ℕ → Cluster Db → Cluster Db × Bool
  unfolding send_write storage_put
  do_put c node key value id epoch cluster =
      send_write c node (λ b ticks s. storage_put rocks b ticks id epoch key value s) cluster

  unfoldable pub do_delete : Calls → Bytes → Bytes → ℕ → ℕ → Cluster Db → Cluster Db × Bool
  unfolding send_write storage_delete
  do_delete c node key id epoch cluster =
      send_write c node (λ b ticks s. storage_delete rocks b ticks id epoch key s) cluster

  unfoldable pub do_set_fields :
      Calls → Bytes → Bytes → List FieldUpdate → ℕ → ℕ → Cluster Db → Cluster Db × Bool
  unfolding send_write storage_set_fields
  do_set_fields c node pk fields id epoch cluster =
      send_write c node (λ b ticks s. storage_set_fields rocks b ticks id epoch pk fields s) cluster

  unfoldable pub do_delete_field :
      Calls → Bytes → Bytes → Bytes → ℕ → ℕ → Cluster Db → Cluster Db × Bool
  unfolding send_write storage_delete_field
  do_delete_field c node pk name id epoch cluster =
      send_write c node (λ b ticks s. storage_delete_field rocks b ticks id epoch pk name s) cluster

  unfoldable pub do_batch_put :
      Calls → Bytes → List KeyValueItem → ℕ → ℕ → Cluster Db → Cluster Db × Bool
  unfolding send_write storage_batch_put
  do_batch_put c node items id epoch cluster =
      send_write c node
        (λ b ticks s.
          let (after, (response, count)) = storage_batch_put rocks b ticks id epoch items s in
          (after, response))
        cluster

  unfoldable pub do_get : Calls → Bytes → Bytes → ℕ → Cluster Db → Option (Option Bytes)
  unfolding send_read storage_get
  do_get c node key id cluster = send_read c node (λ b s. storage_get rocks b id key s) cluster

  unfoldable pub do_get_field :
      Calls → Bytes → Bytes → Bytes → ℕ → Cluster Db → Option (Option Bytes)
  unfolding send_read storage_get_field
  do_get_field c node pk name id cluster =
      send_read c node (λ b s. storage_get_field rocks b id pk name s) cluster

  -- a panic of the storage node is an error of the call
  unfoldable pub do_get_all_fields :
      Calls → Bytes → Bytes → ℕ → Cluster Db → Option (Option (List (Bytes × Bytes)))
  unfolding send_read storage_get_all_fields
  do_get_all_fields c node pk id cluster =
      send_read c node
        (λ b s. elim (storage_get_all_fields rocks b id pk s) [
          | ok response ↦ response
          | err e ↦ record { value = none; error = internal_error }
          | panic ↦ record { value = none; error = internal_error }
        ])
        cluster

  -- a write goes to the primary of the key's partition
  unfoldable pub at_primary :
      Bytes
      → (Bytes → ℕ → ℕ → Cluster Db → Cluster Db × Bool)
      → Router
      → Cluster Db
      → Cluster Db × Bool
  unfolding get_partition_nodes
  at_primary key call r cluster =
      elim (get_partition_nodes sum64 key r) as (λ _. Cluster Db × Bool) [
        | none ↦ (cluster, false)
        | some (primary, (replica, epoch)) ↦
            call primary (calculate_partition sum64 key) epoch cluster
      ]

  unfoldable pub put : Calls → Bytes → Bytes → Router → Cluster Db → Cluster Db × Bool
  unfolding at_primary do_put
  put c key value r cluster =
      at_primary key (λ node id epoch cl. do_put c node key value id epoch cl) r cluster

  unfoldable pub delete : Calls → Bytes → Router → Cluster Db → Cluster Db × Bool
  unfolding at_primary do_delete
  delete c key r cluster =
      at_primary key (λ node id epoch cl. do_delete c node key id epoch cl) r cluster

  unfoldable pub set_fields :
      Calls → Bytes → List FieldUpdate → Router → Cluster Db → Cluster Db × Bool
  unfolding at_primary do_set_fields
  set_fields c pk fields r cluster =
      at_primary pk (λ node id epoch cl. do_set_fields c node pk fields id epoch cl) r cluster

  unfoldable pub set_field : Calls → Bytes → Bytes → Bytes → Router → Cluster Db → Cluster Db × Bool
  unfolding set_fields
  set_field c pk name value r cluster =
      set_fields c pk (record { field_name = name; value = value; is_delete = false } ∷ []) r
        cluster

  unfoldable pub delete_field : Calls → Bytes → Bytes → Router → Cluster Db → Cluster Db × Bool
  unfolding at_primary do_delete_field
  delete_field c pk name r cluster =
      at_primary pk (λ node id epoch cl. do_delete_field c node pk name id epoch cl) r cluster

  -- a read goes to the primary, and to the replica where that fails
  unfoldable pub at_either : {A : Type 0} → Bytes → (Bytes → ℕ → Option A) → Router → Option A
  unfolding get_partition_nodes first_answer
  at_either key call r = elim (get_partition_nodes sum64 key r) [
    | none ↦ none
    | some (primary, (replica, epoch)) ↦
        first_answer (call primary (calculate_partition sum64 key))
          (call replica (calculate_partition sum64 key))
  ]

  unfoldable pub get : Calls → Bytes → Router → Cluster Db → Option (Option Bytes)
  unfolding at_either do_get
  get c key r cluster = at_either key (λ node id. do_get c node key id cluster) r

  unfoldable pub get_field : Calls → Bytes → Bytes → Router → Cluster Db → Option (Option Bytes)
  unfolding at_either do_get_field
  get_field c pk name r cluster = at_either pk (λ node id. do_get_field c node pk name id cluster) r

  unfoldable pub get_all_fields :
      Calls → Bytes → Router → Cluster Db → Option (Option (List (Bytes × Bytes)))
  unfolding at_either do_get_all_fields
  get_all_fields c pk r cluster = at_either pk (λ node id. do_get_all_fields c node pk id cluster) r

  -- an item without a value is one that is not found; so is one whose read failed
  unfoldable pub batch_get : Calls → List Bytes → Router → Cluster Db → List (Bytes × Option Bytes)
  unfolding get
  batch_get c [] r cluster = []
  batch_get c (key ∷ keys) r cluster =
      (key, elim (get c key r cluster) [ none ↦ none | some value ↦ value ])
      ∷ batch_get c keys r cluster

  -- The loop over the partitions; each call is made as its goroutine is started. The result is
  -- whether all partitions have a route, whether no call failed, and the count.
  unfoldable pub put_groups :
      Calls → Dict (List KeyValueItem) → Router → Cluster Db → Cluster Db × (Bool × (Bool × ℕ))
  unfolding get_partition_nodes_by_id do_batch_put
  put_groups c [] r cluster = (cluster, (true, (true, 0)))
  put_groups c ((id, items) ∷ m) r cluster =
      elim (get_partition_nodes_by_id id r) as (λ _. Cluster Db × (Bool × (Bool × ℕ))) [
        | none ↦ (cluster, (false, (true, 0)))
        | some (primary, (replica, epoch)) ↦
            let (sent, done) = do_batch_put c primary items id epoch cluster in
            let (after, (routed, (all_done, count))) = put_groups c m r sent in
            (after, (routed, (done && all_done, if done then length items + count else count)))
      ]

  -- the count, or an error
  unfoldable pub batch_put : Calls → List KeyValueItem → Router → Cluster Db → Cluster Db × Option ℕ
  unfolding group_items put_groups
  batch_put c items r cluster =
      let (after, (routed, (all_done, count))) =
        put_groups c (group_items sum64 items []) r cluster in
      (after, if routed && all_done then some count else none)
