-- ===== src/Keys/Ranges.antt =====
-- `GetPartitionRange` bounds the keys of one partition.
use native.Mathlib.Nat.{mod-eq_of_lt}
use rockskv.Prelude.{
  ltb, ◌==◌, if◌then◌else◌, take, ℕ, ◌+◌, ◌^◌, ◌<◌, ◌≡◌, ◌↔◌, true, false, [], ◌++◌, arith,
}
use rockskv.Bytes.{Bytes, bytes_lt, be32}
use rockskv.Keys.{make_partition_key, get_partition_range}

pub bytes_lt-be32 :
    (a b : ℕ) (xs ys : Bytes)
    → a < 2 ^ 32
    → b < 2 ^ 32
    → bytes_lt (be32 a ++ xs) (be32 b ++ ys) ≡ (if a == b then bytes_lt xs ys else ltb a b)
unfolding bytes_lt
bytes_lt-be32 a b xs ys ha hb = ground arith

pub below_start :
    (p q : ℕ) (key : Bytes)
    → p < 2 ^ 32
    → q < 2 ^ 32
    → bytes_lt (make_partition_key q key) (get_partition_range p).0 ≡ ltb q p
below_start p q key hp hq =
    unfold make_partition_key get_partition_range bytes_lt in
    rw (bytes_lt-be32 q p key [] hq hp) (ground arith)

below_end :
    (p q : ℕ) (key : Bytes)
    → p + 1 < 2 ^ 32
    → q < 2 ^ 32
    → bytes_lt (take 6 (make_partition_key q key)) (get_partition_range p).1 ≡ ltb q (p + 1)
below_end p q key hp hq =
    unfold make_partition_key get_partition_range bytes_lt in
    rw (mod-eq_of_lt hp, bytes_lt-be32 q (p + 1) [] [] hq hp) (ground arith)

-- A storage key of partition `q` passes both tests of a scan over the range of partition `p` (it is
-- not below the start, and its first 6 bytes are below the end) exactly when `q` is `p` (32-bit
-- ids, and `p` not the last of them).
pub get_partition_range_exact :
    (p q : ℕ) (key : Bytes)
    → p + 1 < 2 ^ 32
    → q < 2 ^ 32
    → ((bytes_lt (make_partition_key q key) (get_partition_range p).0 ≡ false)
        × (bytes_lt (take 6 (make_partition_key q key)) (get_partition_range p).1 ≡ true))
      ↔ (q ≡ p)
get_partition_range_exact p q key hp hq =
    rw (below_start p q key (omega arith) hq, below_end p q key hp hq) (ground arith)

-- the whole key is below the end exactly when its partition is
pub below_whole_end :
    (p q : ℕ) (key : Bytes)
    → p + 1 < 2 ^ 32
    → q < 2 ^ 32
    → bytes_lt (make_partition_key q key) (get_partition_range p).1 ≡ ltb q (p + 1)
below_whole_end p q key hp hq =
    unfold make_partition_key get_partition_range bytes_lt in
    rw (mod-eq_of_lt hp, bytes_lt-be32 q (p + 1) key [] hq hp) (ground arith)
