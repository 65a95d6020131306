-- ===== src/Compute/NodeReads.antt =====
-- What a storage node answers to a read after an accepted put.
use rockskv.Prelude.{
  ◌==◌, if◌then◌else◌, Outcome, ok, err, panic, ℕ, ◌^◌, ◌<◌, ◌≡◌, refl, sym, ap, ◌∙◌, Bool, true,
  false, ◌&&◌, Option, none, some, List, [], ◌∷◌, arith,
}
use rockskv.Bytes.{Bytes, bytes_eq}
use rockskv.Rocks.{RocksDb, IsStore}
use rockskv.Partitions.{ManagerError, has_partition}
use rockskv.Partitions.Data.{get as get_key, put as put_key}
use rockskv.Partitions.Isolation.{get-put}
use rockskv.Replication.{Tick, Command, put_command}
use rockskv.Server.{
  Server, WriteRequest, request_commands, enqueue, write_data, no_error, partition_not_found,
  internal_error, put_request,
}
use rockskv.Server.Writes.{accepted_write}
use rockskv.Server.Handlers.{put as storage_put, get as storage_get, ReadResponse}

module _ {Db : Type 0} (rocks : RocksDb Db) where
  enqueue-rest :
      (id : ℕ) (commands : List Command) (ticks : ℕ → Tick) (s : Server Db)
      → let after = enqueue id commands ticks s in
        (after.db ≡ s.db) × (after.partition_manager ≡ s.partition_manager)
  unfolding enqueue
  enqueue-rest id commands ticks s = ground arith

  storage_get-same :
      (q : ℕ) (j : Bytes) (s t : Server Db)
      → t.db ≡ s.db
      → t.partition_manager ≡ s.partition_manager
      → storage_get rocks true q j t ≡ storage_get rocks true q j s
  unfolding storage_get
  storage_get-same q j s t e f = rw (e, f) refl

  -- the answer of a storage node, by whether it hosts the partition and what the data gives
  abbrev respond : Bool → Outcome ManagerError (Option Bytes) → ReadResponse Bytes
  respond false found = record { value = none; error = partition_not_found }
  respond true (ok value) = record { value = value; error = no_error }
  respond true (err e) = record { value = none; error = internal_error }
  respond true panic = record { value = none; error = internal_error }

  storage_get-respond :
      (q : ℕ) (j : Bytes) (s : Server Db)
      → storage_get rocks true q j s
        ≡ respond
            (has_partition q s.partition_manager)
            (get_key rocks true j q s.partition_manager s.db)
  unfolding storage_get
  storage_get-respond q j s = ground arith

  storage_get-db :
      (b : Bool) (q : ℕ) (j value : Bytes) (s : Server Db) (d : Db)
      → get_key rocks true j q s.partition_manager d
        ≡ (if b then ok (some value) else get_key rocks true j q s.partition_manager s.db)
      → (b ≡ true → has_partition q s.partition_manager ≡ true)
      → storage_get rocks true q j (record s { db = d }) ≡ (
          if b
          then record { value = some value; error = no_error }
          else storage_get rocks true q j s)
  storage_get-db true q j value s d e h =
      storage_get-respond q j (record s { db = d }) ∙ (rw (e, h refl) refl)
  storage_get-db false q j value s d e h =
      storage_get-respond q j (record s { db = d })
      ∙ ap (respond (has_partition q s.partition_manager)) e
      ∙ sym (storage_get-respond q j s)

  -- an accepted put, in the terms of the partition manager
  put_parts :
      (succeeds : Bool) (ticks : ℕ → Tick) (p epoch : ℕ) (key value : Bytes) (s : Server Db)
      → (storage_put rocks succeeds ticks p epoch key value s).1.success ≡ true
      → let done = put_key rocks succeeds key value p s.partition_manager s.db in
        let after = (storage_put rocks succeeds ticks p epoch key value s).0 in
        (done.1 ≡ none)
        × (has_partition p s.partition_manager ≡ true)
        × (after.db ≡ done.0)
        × (after.partition_manager ≡ s.partition_manager)
  unfolding storage_put write_data request_commands
  put_parts succeeds ticks p epoch key value s h =
      let request : WriteRequest = record {
        partition_id = p;
        epoch = epoch;
        kind = put_request key value;
      } in
      let done = put_key rocks succeeds key value p s.partition_manager s.db in
      let (stored, same) = accepted_write rocks succeeds ticks request s h in
      let (queued, rest) =
        enqueue-rest p (put_command key value ∷ []) ticks (record s { db = done.0 }) in
      ground (arith, stored, same, queued, rest)

module _ {Db : Type 0} (rocks : RocksDb Db) (laws : IsStore Db rocks) (p q : ℕ) (hp : p < 2 ^ 32)
    (hq : q < 2 ^ 32) where
  pub storage_get-put :
      (succeeds : Bool) (ticks : ℕ → Tick) (epoch : ℕ) (key value j : Bytes) (s : Server Db)
      → (storage_put rocks succeeds ticks p epoch key value s).1.success ≡ true
      → storage_get rocks true q j (storage_put rocks succeeds ticks p epoch key value s).0 ≡ (
          if p == q && bytes_eq key j
          then record { value = some value; error = no_error }
          else storage_get rocks true q j s)
  storage_get-put succeeds ticks epoch key value j s h =
      let (stored, hosted, written_, same) = put_parts rocks succeeds ticks p epoch key value s h in
      let done = put_key rocks succeeds key value p s.partition_manager s.db in
      storage_get-same rocks q j (record s { db = done.0 })
        (storage_put rocks succeeds ticks p epoch key value s).0 written_ same
      ∙ storage_get-db rocks (p == q && bytes_eq key j) q j value s done.0
          (get-put rocks laws p q hp hq s.partition_manager s.db succeeds key value j stored)
          (λ e. ap (λ k. has_partition k s.partition_manager) (same_partition e) ∙ hosted)
    where
      same_partition : (p == q && bytes_eq key j) ≡ true → q ≡ p
      same_partition e = ground arith
