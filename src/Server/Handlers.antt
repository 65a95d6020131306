-- ===== src/Server/Handlers.antt =====
-- The handlers of pkg/storage/server.go by their names: the writes, which `handle_write` of Server
-- carries out, and the reads, which ask for neither the lease nor the role.
use rockskv.Prelude.{
  if◌then◌else◌, Outcome, ok, err, panic, length, ℕ, Bool, not, Option, none, some, List, [], ◌∷◌,
}
use rockskv.Bytes.{Bytes}
use rockskv.Rocks.{KeyValueItem, RocksDb}
use rockskv.Fields.{FieldUpdate}
use rockskv.Keys.{KeyError}
use rockskv.Partitions.{has_partition}
use rockskv.Partitions.Data.{get as get_key}
use rockskv.Fields.Storage.{get_field as stored_field, get_all_fields as all_fields}
use rockskv.Replication.{Tick}
use rockskv.Server.{
  Server, ErrorCode, WriteResponse, handle_write, no_error, partition_not_found, internal_error,
  put_request, delete_request, set_fields_request, delete_field_request, batch_put_request,
}

-- what a handler of a read answers
pub record ReadResponse (A : Type 0) : Type 0 where
  pub value : Option A
  pub error : ErrorCode

module _ {Db : Type 0} (rocks : RocksDb Db) where
  unfoldable pub put :
      Bool → (ℕ → Tick) → ℕ → ℕ → Bytes → Bytes → Server Db → Server Db × WriteResponse
  unfolding handle_write
  put succeeds ticks id epoch key value s =
      handle_write rocks succeeds ticks
        (record { partition_id = id; epoch = epoch; kind = put_request key value }) s

  unfoldable pub delete : Bool → (ℕ → Tick) → ℕ → ℕ → Bytes → Server Db → Server Db × WriteResponse
  unfolding handle_write
  delete succeeds ticks id epoch key s =
      handle_write rocks succeeds ticks
        (record { partition_id = id; epoch = epoch; kind = delete_request key }) s

  unfoldable pub set_fields :
      Bool → (ℕ → Tick) → ℕ → ℕ → Bytes → List FieldUpdate → Server Db → Server Db × WriteResponse
  unfolding handle_write
  set_fields succeeds ticks id epoch pk fields s =
      handle_write rocks succeeds ticks
        (record { partition_id = id; epoch = epoch; kind = set_fields_request pk fields }) s

  unfoldable pub delete_field :
      Bool → (ℕ → Tick) → ℕ → ℕ → Bytes → Bytes → Server Db → Server Db × WriteResponse
  unfolding handle_write
  delete_field succeeds ticks id epoch pk name s =
      handle_write rocks succeeds ticks
        (record { partition_id = id; epoch = epoch; kind = delete_field_request pk name }) s

  -- the answer, and the count of the items where it succeeds
  unfoldable pub batch_put :
      Bool → (ℕ → Tick) → ℕ → ℕ → List KeyValueItem → Server Db → Server Db × (WriteResponse × ℕ)
  unfolding handle_write
  batch_put succeeds ticks id epoch items s =
      let (after, response) =
        handle_write rocks succeeds ticks
          (record { partition_id = id; epoch = epoch; kind = batch_put_request items }) s in
      (after, (response, if response.success then length items else 0))

  unfoldable pub get : Bool → ℕ → Bytes → Server Db → ReadResponse Bytes
  unfolding has_partition get_key
  get succeeds id key s =
      if not (has_partition id s.partition_manager)
      then record { value = none; error = partition_not_found }
      else elim (get_key rocks succeeds key id s.partition_manager s.db) [
        | ok value ↦ record { value = value; error = no_error }
        | err e ↦ record { value = none; error = internal_error }
        | panic ↦ record { value = none; error = internal_error }
      ]

  unfoldable pub get_field : Bool → ℕ → Bytes → Bytes → Server Db → ReadResponse Bytes
  unfolding has_partition stored_field
  get_field succeeds id pk name s =
      if not (has_partition id s.partition_manager)
      then record { value = none; error = partition_not_found }
      else if succeeds
      then record { value = stored_field rocks id pk name s.db; error = no_error }
      else record { value = none; error = internal_error }

  -- `none` where the primary key has no field; a panic of the decoding is one of the handler
  unfoldable pub get_all_fields :
      Bool → ℕ → Bytes → Server Db → Outcome KeyError (ReadResponse (List (Bytes × Bytes)))
  unfolding has_partition all_fields
  get_all_fields succeeds id pk s =
      if not (has_partition id s.partition_manager)
      then ok (record { value = none; error = partition_not_found })
      else if succeeds
      then elim (all_fields rocks id pk s.db) [
        | ok [] ↦ ok (record { value = none; error = no_error })
        | ok (f ∷ fs) ↦ ok (record { value = some (f ∷ fs); error = no_error })
        | err e ↦ ok (record { value = none; error = internal_error })
        | panic ↦ panic
      ]
      else ok (record { value = none; error = internal_error })
