-- ===== src/Keys.antt =====
-- Storage keys: `MakePartitionKey`, `ParsePartitionKey`, `ParsePartitionKeyEx` and
-- `GetPartitionRange` of pkg/storage/partition.go, and the field keys of
-- pkg/storage/field_storage.go. A slice with its bounds in the wrong order is a panic.
pub mod RoundTrip
pub mod Prefixes
pub mod Ranges
pub mod Tests
use rockskv.Prelude.{
  ltb, ◌==◌, if◌then◌else◌, Outcome, ok, err, panic, ◌>>=◌, length, take, drop, ℕ, ◌+◌, ◌-◌, ◌%◌,
  ◌^◌, Bool, false, not, ◌&&◌, ◌||◌, [], ◌∷◌, ◌++◌,
}
use rockskv.Bytes.{Bytes, be32, of_be}

pub data KeyError : Type 0 where
  too_short wrong_format pk_length_mismatch : KeyError

-- PartitionKeyPrefix
abbrev pub partition_key_prefix : Bytes
partition_key_prefix = b'p' ∷ b':' ∷ []

abbrev pub field_key_marker : ℕ
field_key_marker = b'f'

-- x[low:high] of a slice of the given length panics when the bounds are out of order
unfoldable pub slice : ℕ → ℕ → Bytes → Outcome KeyError Bytes
slice low high xs =
    if ltb high low || ltb (length xs) high then panic else ok (take (high - low) (drop low xs))

unfoldable pub make_partition_key : ℕ → Bytes → Bytes
make_partition_key partition_id key = (partition_key_prefix ++ be32 partition_id) ++ key

unfoldable pub parse_partition_key : Bytes → Outcome KeyError (ℕ × Bytes)
parse_partition_key storage_key =
    if ltb (length storage_key) 6
    then err too_short
    else ok (of_be (take 4 (drop 2 storage_key)), drop 6 storage_key)

-- whether the bytes behind the partition id begin with ":f"
unfoldable pub has_field_marker : Bytes → Bool
has_field_marker (c ∷ m ∷ rest) = (c == b':') && (m == field_key_marker)
has_field_marker _ = false

unfoldable pub parse_partition_key_ex : Bytes → Outcome KeyError (ℕ × Bytes × Bool)
unfolding has_field_marker
parse_partition_key_ex storage_key =
    if ltb (length storage_key) 6
    then err too_short
    else ok (
      of_be (take 4 (drop 2 storage_key)),
      drop 6 storage_key,
      has_field_marker (drop 6 storage_key),
    )

-- `partitionID+1` is a uint32
unfoldable pub get_partition_range : ℕ → Bytes × Bytes
get_partition_range partition_id = (
  partition_key_prefix ++ be32 partition_id,
  partition_key_prefix ++ be32 ((partition_id + 1) % 2 ^ 32),
)

pub record FieldKey : Type 0 where
  pub partition_id : ℕ
  pub primary_key : Bytes
  pub field_name : Bytes

-- The first 8 bytes of a field key, `GetPartitionFieldPrefix`.
unfoldable pub get_partition_field_prefix : ℕ → Bytes
get_partition_field_prefix partition_id =
    b'p' ∷ b':' ∷ (be32 partition_id ++ (b':' ∷ field_key_marker ∷ []))

-- `uint32(len(pk))` wraps
unfoldable pub get_field_prefix : ℕ → Bytes → Bytes
unfolding get_partition_field_prefix
get_field_prefix partition_id pk =
    get_partition_field_prefix partition_id ++ (be32 (length pk % 2 ^ 32) ++ pk)

-- `FieldKey.Encode`
unfoldable pub encode : FieldKey → Bytes
unfolding get_field_prefix
encode fk = get_field_prefix fk.partition_id fk.primary_key ++ fk.field_name

unfoldable pub make_field_key : ℕ → Bytes → Bytes → Bytes
unfolding encode
make_field_key partition_id pk field_name =
    encode (record { partition_id = partition_id; primary_key = pk; field_name = field_name })

-- the format test, on a key of at least 12 bytes
unfoldable pub is_field_key_format : Bytes → Bool
is_field_key_format (a ∷ b ∷ p0 ∷ p1 ∷ p2 ∷ p3 ∷ c ∷ m ∷ rest) =
    (a == b'p') && ((b == b':') && ((c == b':') && (m == field_key_marker)))
is_field_key_format _ = false

-- `12+pkLen` is computed in uint32, so it wraps; `key[12 : 12+pkLen]` and `key[12+pkLen:]`
unfoldable pub decode_field_key : Bytes → Outcome KeyError FieldKey
unfolding is_field_key_format slice
decode_field_key key =
    if ltb (length key) 12
    then err too_short
    else if not (is_field_key_format key)
    then err wrong_format
    else let partition_id = of_be (take 4 (drop 2 key)) in
      let end = (12 + of_be (take 4 (drop 8 key))) % 2 ^ 32 in
      if ltb (length key) end then err pk_length_mismatch else do
        pk ← slice 12 end key
        field_name ← slice end (length key) key
        ok (record { partition_id = partition_id; primary_key = pk; field_name = field_name })
