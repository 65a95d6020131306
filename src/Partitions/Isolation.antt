-- ===== src/Partitions/Isolation.antt =====
-- What a node reads after its writes: partitions are kept apart, and a batch is its puts in order.
use rockskv.Prelude.{
  ◌==◌, if◌then◌else◌, same_truth, ok, ℕ, ◌^◌, ◌<◌, ◌≡◌, ap, ◌≢◌, ◌↔◌, Bool, true, ◌&&◌, none, some,
  arith,
}
use rockskv.Prelude.Dict.{lookup}
use rockskv.Bytes.{Bytes, bytes_eq, bytes_eq_iff}
use rockskv.Rocks.{RocksDb, IsStore}
use rockskv.Keys.{make_partition_key, parse_partition_key}
use rockskv.Keys.RoundTrip.{parse-make_partition_key}
use rockskv.Partitions.{Partition, PartitionManager, has_partition}
use rockskv.Partitions.Data.{is_writable, get, put}

-- two storage keys are equal only for the same partition and key
bytes_eq-make_partition_key :
    (p q : ℕ) (k j : Bytes)
    → p < 2 ^ 32
    → q < 2 ^ 32
    → bytes_eq (make_partition_key p k) (make_partition_key q j) ≡ (p == q && bytes_eq k j)
bytes_eq-make_partition_key p q k j hp hq = same_truth _ _ (
  λ e. both (parts ((bytes_eq_iff (make_partition_key p k) (make_partition_key q j)).0 e)),
  λ e. (bytes_eq_iff (make_partition_key p k) (make_partition_key q j)).1 (whole e),
)
  where
    parts : make_partition_key p k ≡ make_partition_key q j → (p ≡ q) × (k ≡ j)
    parts e = (
      cc (
        parse-make_partition_key p k hp,
        parse-make_partition_key q j hq,
        ap parse_partition_key e,
      ),
      cc (
        parse-make_partition_key p k hp,
        parse-make_partition_key q j hq,
        ap parse_partition_key e,
      ),
    )

    both : (p ≡ q) × (k ≡ j) → (p == q && bytes_eq k j) ≡ true
    both (e, f) = ground (arith, bytes_eq_iff k j)

    whole : (p == q && bytes_eq k j) ≡ true → make_partition_key p k ≡ make_partition_key q j
    whole e = ground (arith, bytes_eq_iff k j)

module _ {Db : Type 0} (rocks : RocksDb Db) (p : ℕ) (pm : PartitionManager) (d : Db) where
  -- A put succeeds exactly where the call of the database does and the node hosts the partition
  -- with status NORMAL or MIGRATING_IN; where it does not succeed, the data is unchanged.
  pub put_ok_iff :
      (succeeds : Bool) (key value : Bytes)
      → (((put rocks succeeds key value p pm d).1 ≡ none) ↔ (
          (succeeds ≡ true)
          × ((x : Partition) × (lookup p pm.partitions ≡ some x) × (is_writable x.status ≡ true))))
        × ((put rocks succeeds key value p pm d).1 ≢ none
            → (put rocks succeeds key value p pm d).0 ≡ d)
  unfolding put
  put_ok_iff succeeds key value = ground arith

module _ {Db : Type 0} (rocks : RocksDb Db) (laws : IsStore Db rocks) (p q : ℕ) (hp : p < 2 ^ 32)
    (hq : q < 2 ^ 32) (pm : PartitionManager) (d : Db) where
  -- After a successful put, a read of any partition finds the new value under its partition and
  -- key, and what it found before everywhere else (partition ids of 32 bits, over a database with
  -- the laws of a store).
  pub get-put :
      (succeeds : Bool) (key value j : Bytes)
      → (put rocks succeeds key value p pm d).1 ≡ none
      → get rocks true j q pm (put rocks succeeds key value p pm d).0
        ≡ (if p == q && bytes_eq key j then ok (some value) else get rocks true j q pm d)
  unfolding put get has_partition
  get-put succeeds key value j h = ground (
    arith,
    laws.get_put (make_partition_key p key) value (make_partition_key q j) d,
    bytes_eq-make_partition_key p q key j hp hq,
  )
