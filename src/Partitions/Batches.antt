-- ===== src/Partitions/Batches.antt =====
-- A batch of puts against the puts one by one.
use rockskv.Prelude.{
  if◌then◌else◌, ℕ, ◌≡◌, refl, ap, ◌∙◌, Bool, true, false, Option, none, some, List, [], ◌∷◌, arith,
}
use rockskv.Prelude.Dict.{lookup}
use rockskv.Bytes.{Bytes, bytes_eq}
use rockskv.Rocks.{KeyValueItem, put_ops, last_write, written, RocksDb, IsStore}
use rockskv.Keys.{make_partition_key}
use rockskv.Partitions.{Partition, PartitionManager}
use rockskv.Partitions.Data.{is_writable, storage_items, get, put, batch_put}

module _ {Db : Type 0} (rocks : RocksDb Db) where
  -- The puts of the items, in their order.
  unfoldable pub put_all : List KeyValueItem → ℕ → PartitionManager → Db → Db
  put_all [] id pm d = d
  put_all ((key, value) ∷ items) id pm d = put_all items id pm (put rocks true key value id pm d).0

abbrev Allowed : ℕ → PartitionManager → Type 0
Allowed id pm = (x : Partition) × (lookup id pm.partitions ≡ some x) × (is_writable x.status ≡ true)

module _ {Db : Type 0} (rocks : RocksDb Db) (laws : IsStore Db rocks) where
  put-Allowed :
      (key value : Bytes) (id : ℕ) (pm : PartitionManager) (d : Db)
      → Allowed id pm
      → (put rocks true key value id pm d).0 ≡ rocks.put (make_partition_key id key) value d
  unfolding put
  put-Allowed key value id pm d (x, found, writable) = ground arith

  batch_put-Allowed :
      (succeeds : Bool) (items : List KeyValueItem) (id : ℕ) (pm : PartitionManager) (d : Db)
      → (batch_put rocks succeeds items id pm d).1 ≡ none
      → Allowed id pm
        × ((batch_put rocks succeeds items id pm d).0
            ≡ rocks.write (put_ops (storage_items id items)) d)
  unfolding batch_put
  batch_put-Allowed succeeds items id pm d h = ground arith

  rocks_get-put_all :
      (items : List KeyValueItem) (id : ℕ) (pm : PartitionManager) (d : Db) (j : Bytes)
      → Allowed id pm
      → rocks.get j (put_all rocks items id pm d)
        ≡ written (rocks.get j d) (last_write j (put_ops (storage_items id items)))
  unfolding put_all last_write storage_items put_ops
  rocks_get-put_all [] id pm d j allowed = refl
  rocks_get-put_all ((key, value) ∷ items) id pm d j allowed =
      rocks_get-put_all items id pm (put rocks true key value id pm d).0 j allowed
      ∙ cases (bytes_eq (make_partition_key id key) j)
          (last_write j (put_ops (storage_items id items))) _
          (ap (rocks.get j) (put-Allowed key value id pm d allowed)
            ∙ laws.get_put (make_partition_key id key) value j d)
    where
      cases :
          (b : Bool) (o : Option (Option Bytes)) (now : Option Bytes)
          → now ≡ (if b then some value else rocks.get j d)
          → written now o
            ≡ written (rocks.get j d) (elim o as (λ _. Option (Option Bytes)) [
              | some w ↦ some w
              | none ↦ if b then some (some value) else none
            ])
      cases true none now e = e
      cases false none now e = e
      cases b (some o) now e = refl

  -- Over a database with the laws of a store, a successful batch reads as its puts one by one, in
  -- their order, for every partition and key.
  pub get-batch_put :
      (succeeds : Bool) (items : List KeyValueItem) (id q : ℕ) (pm : PartitionManager) (d : Db)
      (j : Bytes)
      → (batch_put rocks succeeds items id pm d).1 ≡ none
      → get rocks true j q pm (batch_put rocks succeeds items id pm d).0
        ≡ get rocks true j q pm (put_all rocks items id pm d)
  get-batch_put succeeds items id q pm d j h =
      let (allowed, written) = batch_put-Allowed succeeds items id pm d h in
      rw written (
        unfold get in
        rw (
          laws.get_write (put_ops (storage_items id items)) (make_partition_key q j) d,
          rocks_get-put_all items id pm d (make_partition_key q j) allowed,
        ))
