-- ===== src/Keys/Prefixes.antt =====
-- What a scan over a prefix meets: `GetFieldPrefix` selects the fields of one primary key, and the
-- marker of field keys is also a legal beginning of a user's key.
use rockskv.Prelude.{
  ok, length, drop, ℕ, ◌+◌, ◌%◌, ◌^◌, ◌<◌, ◌≡◌, refl, ap, ◌∙◌, ◌↔◌, true, [], ◌∷◌, ◌++◌, arith,
}
use rockskv.Bytes.{Bytes, has_prefix, be32, of_be-be32}
use rockskv.Keys.{make_partition_key, parse_partition_key_ex, FieldKey, get_field_prefix, encode}
use rockskv.Keys.RoundTrip.{parse-make_partition_key, encode-injective}

has_prefix-append : (xs ys : Bytes) → has_prefix (xs ++ ys) xs ≡ true
unfolding has_prefix
has_prefix-append [] ys = refl
has_prefix-append (x ∷ xs) ys = ground (arith, has_prefix-append xs ys)

has_prefix_split : (xs ps : Bytes) → has_prefix xs ps ≡ true → xs ≡ ps ++ drop (length ps) xs
unfolding has_prefix
has_prefix_split xs [] h = refl
has_prefix_split [] (p ∷ ps) h = cc
has_prefix_split (x ∷ xs) (p ∷ ps) h = ground (arith, has_prefix_split xs ps)

-- A field key begins with the field prefix of a primary key exactly when it is a field of that
-- primary key in that partition (32-bit partition ids, primary keys 12 bytes short of 2 ^ 32).
pub has_prefix-get_field_prefix :
    (fk : FieldKey) (p : ℕ) (pk : Bytes)
    → fk.partition_id < 2 ^ 32
    → length fk.primary_key + 12 < 2 ^ 32
    → p < 2 ^ 32
    → length pk + 12 < 2 ^ 32
    → (has_prefix (encode fk) (get_field_prefix p pk) ≡ true)
      ↔ ((fk.partition_id ≡ p) × (fk.primary_key ≡ pk))
has_prefix-get_field_prefix fk p pk hp hk hq hl = (only, here)
  where
    rest : Bytes
    rest = drop (length (get_field_prefix p pk)) (encode fk)

    other : FieldKey
    other = record { partition_id = p; primary_key = pk; field_name = rest }

    only :
        has_prefix (encode fk) (get_field_prefix p pk) ≡ true
        → (fk.partition_id ≡ p) × (fk.primary_key ≡ pk)
    only h =
        let same : fk ≡ other =
          encode-injective fk other hp hk hq hl
            (has_prefix_split (encode fk) (get_field_prefix p pk) h ∙ unfold encode in refl) in
        (ap (λ (k : FieldKey). k.partition_id) same, ap (λ (k : FieldKey). k.primary_key) same)

    here :
        (fk.partition_id ≡ p) × (fk.primary_key ≡ pk)
        → has_prefix (encode fk) (get_field_prefix p pk) ≡ true
    here (ep, ek) =
        rw (← ep, ← ek)
          (unfold encode in
            has_prefix-append (get_field_prefix fk.partition_id fk.primary_key) fk.field_name)

-- For 32-bit partition ids, the storage key of a user's key is a field's storage key exactly when
-- it lies in the field's partition and the user's key is ":f", the length of the primary key, the
-- primary key and the field name. So the marker does not keep the two kinds of key apart.
pub make_partition_key-eq-encode :
    (p : ℕ) (key : Bytes) (fk : FieldKey)
    → p < 2 ^ 32
    → fk.partition_id < 2 ^ 32
    → (make_partition_key p key ≡ encode fk) ↔ (
        (p ≡ fk.partition_id)
        × (key
            ≡ b':'
              ∷ b'f'
              ∷ (be32 (length fk.primary_key % 2 ^ 32) ++ (fk.primary_key ++ fk.field_name))))
make_partition_key-eq-encode p key fk hp hf = (only, here)
  where
    suffix : Bytes
    suffix =
        b':' ∷ b'f' ∷ (be32 (length fk.primary_key % 2 ^ 32) ++ (fk.primary_key ++ fk.field_name))

    as_key : encode fk ≡ make_partition_key fk.partition_id suffix
    as_key = unfold encode make_partition_key in refl

    only : make_partition_key p key ≡ encode fk → (p ≡ fk.partition_id) × (key ≡ suffix)
    only e = ground (
      arith,
      parse-make_partition_key p key hp,
      parse-make_partition_key fk.partition_id suffix hf,
      as_key,
      e,
    )

    here : (p ≡ fk.partition_id) × (key ≡ suffix) → make_partition_key p key ≡ encode fk
    here (e, k) = rw (e, k, as_key)

-- `ParsePartitionKeyEx` returns the id and the user's key of every partition key with a 32-bit id,
-- and reports a field key exactly when the user's key begins with ":f".
pub parse_ex-make_partition_key :
    (p : ℕ) (key : Bytes)
    → p < 2 ^ 32
    → parse_partition_key_ex (make_partition_key p key)
      ≡ ok (p, key, has_prefix key (b':' ∷ b'f' ∷ []))
unfolding parse_partition_key_ex make_partition_key has_prefix
parse_ex-make_partition_key p [] h = ground (arith, of_be-be32 p)
parse_ex-make_partition_key p (c ∷ []) h = ground (arith, of_be-be32 p)
parse_ex-make_partition_key p (c ∷ m ∷ rest) h = ground (arith, of_be-be32 p)
