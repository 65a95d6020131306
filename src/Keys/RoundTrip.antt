-- ===== src/Keys/RoundTrip.antt =====
-- Storage keys are read back as they were made.
use rockskv.Prelude.{
  ltb, ok, panic, length, take, length-append, take-length-append, drop-length-append, ℕ, ◌+◌, ◌-◌,
  ◌%◌, ◌^◌, ◌<◌, ◌≡◌, ap, false, ◌||◌, [], ◌++◌, append-nil, arith,
}
use rockskv.Bytes.{Bytes, be32, of_be, of_be-be32}
use rockskv.Keys.{
  slice, make_partition_key, parse_partition_key, FieldKey, get_partition_field_prefix, encode,
  decode_field_key,
}

-- A partition key of a 32-bit partition id is parsed back to that id and the user's key.
pub parse-make_partition_key :
    (p : ℕ) (key : Bytes)
    → p < 2 ^ 32
    → parse_partition_key (make_partition_key p key) ≡ ok (p, key)
unfolding parse_partition_key make_partition_key
parse-make_partition_key p key h = ground (arith, of_be-be32 p)

slice-append :
    (n m : ℕ) (a b c : Bytes) → n ≡ length a → m ≡ n + length b → slice n m (a ++ (b ++ c)) ≡ ok b
unfolding slice
slice-append n m a b c hn hm =
    let fits : (ltb m n || ltb (length (a ++ (b ++ c))) m) ≡ false =
      ground (arith, length-append a (b ++ c), length-append b c) in
    rw fits
      (rw (drop-length-append n a (b ++ c) hn) (rw (take-length-append (m - n) b c (omega arith))))

slice-append_end :
    (n m : ℕ) (a b : Bytes) → n ≡ length a → m ≡ length (a ++ b) → slice n m (a ++ b) ≡ ok b
slice-append_end n m a b hn hm =
    rw append-nil at (slice-append n m a b [] hn (omega (arith, length-append a b)))

-- the length prefix is read back
pk_length : (n : ℕ) → n + 12 < 2 ^ 32 → (12 + of_be (be32 (n % 2 ^ 32))) % 2 ^ 32 ≡ 12 + n
pk_length n h = omega (arith, of_be-be32 (n % 2 ^ 32) (omega arith))

-- Decoding an encoded field key gives it back, for a 32-bit partition id and a primary key that is
-- at least 12 bytes shorter than 2 ^ 32.
pub decode_field_key-encode :
    (fk : FieldKey)
    → fk.partition_id < 2 ^ 32
    → length fk.primary_key + 12 < 2 ^ 32
    → decode_field_key (encode fk) ≡ ok fk
unfolding decode_field_key encode
decode_field_key-encode fk hp hk = ground (
  arith,
  of_be-be32 fk.partition_id,
  pk_length (length fk.primary_key),
  length-append fk.primary_key fk.field_name,
  slice-append 12 (12 + length fk.primary_key) (take 12 (encode fk)) fk.primary_key fk.field_name,
  slice-append_end (12 + length fk.primary_key) (length (encode fk))
      (take 12 (encode fk) ++ fk.primary_key) fk.field_name,
)

-- Two field keys with the same storage key are the same field, within the bounds of decoding.
pub encode-injective :
    (a b : FieldKey)
    → a.partition_id < 2 ^ 32
    → length a.primary_key + 12 < 2 ^ 32
    → b.partition_id < 2 ^ 32
    → length b.primary_key + 12 < 2 ^ 32
    → encode a ≡ encode b
    → a ≡ b
encode-injective a b ha la hb lb e =
    cc (decode_field_key-encode a ha la, decode_field_key-encode b hb lb, ap decode_field_key e)

-- A key in the format of field keys whose length field is one of the last 12 values below 2 ^ 32
-- passes every test of `DecodeFieldKey`, since `12+pkLen` wraps, and the slice then panics.
pub decode_field_key-panic :
    (p n : ℕ) (rest : Bytes)
    → n < 12
    → decode_field_key (get_partition_field_prefix p ++ (be32 (2 ^ 32 - 12 + n) ++ rest)) ≡ panic
unfolding decode_field_key get_partition_field_prefix
decode_field_key-panic p n rest h = ground (arith, of_be-be32 (2 ^ 32 - 12 + n))
