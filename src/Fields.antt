-- ===== src/Fields.antt =====
-- Field batches and attribute groups: `FieldUpdate`, `FieldBatch`, `AttributeGroup` of
-- pkg/storage/field_storage.go with their encodings. `read_some` is `Read` of Go's bytes.Reader,
-- which fills as much as there is and leaves the rest of the buffer zero. The operations on a
-- database are in Fields/Storage.
pub mod Batch
pub mod RoundTrip
pub mod Group
pub mod Storage
pub mod Applied
pub mod Tests
use rockskv.Prelude.{
  ltb, leb, ◌==◌, if◌then◌else◌, Outcome, ok, err, panic, ◌>>=◌, length, take, drop, ℕ, zero, suc,
  ◌-◌, ◌%◌, ◌^◌, Bool, List, [], ◌∷◌, ◌++◌,
}
use rockskv.Bytes.{Bytes, bytes_eq, bytes_lt, be16, be32, of_be}
use rockskv.CommandLog.{ReadError, read_full, eof}

pub record FieldUpdate : Type 0 where
  pub field_name : Bytes
  pub value : Bytes
  pub is_delete : Bool

pub record FieldBatch : Type 0 where
  pub partition_id : ℕ
  pub primary_key : Bytes
  pub updates : List FieldUpdate

abbrev pub field_batch_format_version : ℕ
field_batch_format_version = 1

abbrev pub delete_flag : Bool → ℕ
delete_flag b = if b then 1 else 0

unfoldable pub encode_update : FieldUpdate → Bytes
encode_update u =
    be16 (length u.field_name % 2 ^ 16)
    ++ (u.field_name ++ (delete_flag u.is_delete ∷ (be32 (length u.value % 2 ^ 32) ++ u.value)))

unfoldable pub encode_updates : List FieldUpdate → Bytes
unfolding encode_update
encode_updates [] = []
encode_updates (u ∷ us) = encode_update u ++ encode_updates us

-- the encoding behind the version byte, which is all of the legacy format
unfoldable pub encode_content : FieldBatch → Bytes
unfolding encode_updates
encode_content fb =
    be32 fb.partition_id
    ++ (be32 (length fb.primary_key % 2 ^ 32)
        ++ (fb.primary_key ++ (be32 (length fb.updates % 2 ^ 32) ++ encode_updates fb.updates)))

unfoldable pub encode_field_batch : FieldBatch → Bytes
unfolding encode_content
encode_field_batch fb = field_batch_format_version ∷ encode_content fb

abbrev pub zeros : ℕ → Bytes
zeros zero = []
zeros (suc n) = 0 ∷ zeros n

-- At the end of the data even a read of no bytes is an end-of-file error.
unfoldable pub read_some : ℕ → Bytes → Outcome ReadError (Bytes × Bytes)
read_some n [] = err eof
read_some n (b ∷ r) = ok (take n (b ∷ r) ++ zeros (n - length (b ∷ r)), drop n (b ∷ r))

unfoldable pub read_byte : Bytes → Outcome ReadError (ℕ × Bytes)
read_byte [] = err eof
read_byte (b ∷ r) = ok (b, r)

unfoldable pub read_field_value : ℕ → Bytes → Outcome ReadError (Bytes × Bytes)
unfolding read_some
read_field_value n r = if ltb 0 n then read_some n r else ok ([], r)

-- one round of the loop
unfoldable pub decode_update : Bytes → Outcome ReadError (FieldUpdate × Bytes)
unfolding read_some read_byte read_field_value
decode_update r = do
  (field_len, r1) ← read_full 2 r
  (field_name, r2) ← read_some (of_be field_len) r1
  (is_delete, r3) ← read_byte r2
  (value_len, r4) ← read_full 4 r3
  (value, r5) ← read_field_value (of_be value_len) r4
  ok (record { field_name = field_name; value = value; is_delete = is_delete == 1 }, r5)

unfoldable pub decode_updates : ℕ → Bytes → Outcome ReadError (List FieldUpdate × Bytes)
unfolding decode_update
decode_updates zero r = ok ([], r)
decode_updates (suc n) r = do
  (u, r1) ← decode_update r
  (us, r2) ← decode_updates n r1
  ok (u ∷ us, r2)

-- what is left behind the last update is ignored
unfoldable pub decode_field_batch_content : Bytes → Outcome ReadError FieldBatch
unfolding read_some decode_updates
decode_field_batch_content r = do
  (partition_id, r1) ← read_full 4 r
  (pk_len, r2) ← read_full 4 r1
  (pk, r3) ← read_some (of_be pk_len) r2
  (count, r4) ← read_full 4 r3
  (updates, r5) ← decode_updates (of_be count) r4
  ok (record { partition_id = of_be partition_id; primary_key = pk; updates = updates })

pub data FieldError : Type 0 where
  too_short unsupported_version : FieldError
  read_failed : ReadError → FieldError

abbrev pub or_read_failed : {A : Type 0} → Outcome ReadError A → Outcome FieldError A
or_read_failed (ok a) = ok a
or_read_failed (err e) = err (read_failed e)
or_read_failed panic = panic

unfoldable pub decode_field_batch_v1 : Bytes → Outcome FieldError FieldBatch
unfolding decode_field_batch_content
decode_field_batch_v1 data' =
    if ltb (length data') 12
    then err too_short
    else or_read_failed (decode_field_batch_content data')

unfoldable pub decode_field_batch : Bytes → Outcome FieldError FieldBatch
unfolding decode_field_batch_v1 decode_field_batch_content
decode_field_batch [] = err too_short
decode_field_batch (version ∷ rest) =
    if version == field_batch_format_version
    then decode_field_batch_v1 rest
    else if leb 12 (length (version ∷ rest))
    then or_read_failed (decode_field_batch_content (version ∷ rest))
    else err unsupported_version

-- The fields of a group, a Go map by name: no name twice.
pub record AttributeGroup : Type 0 where
  pub name : Bytes
  pub fields : List (Bytes × Bytes)

-- `sort.Strings` of the names, each with its value
unfoldable pub insert_by_name : Bytes × Bytes → List (Bytes × Bytes) → List (Bytes × Bytes)
insert_by_name f [] = f ∷ []
insert_by_name f (g ∷ gs) =
    let rest = insert_by_name f gs in if bytes_lt g.0 f.0 then g ∷ rest else f ∷ g ∷ gs

unfoldable pub sort_by_name : List (Bytes × Bytes) → List (Bytes × Bytes)
unfolding insert_by_name
sort_by_name [] = []
sort_by_name (f ∷ fs) = insert_by_name f (sort_by_name fs)

unfoldable pub encode_fields : List (Bytes × Bytes) → Bytes
encode_fields [] = []
encode_fields ((name, value) ∷ fs) =
    be16 (length name % 2 ^ 16)
    ++ (name ++ (be32 (length value % 2 ^ 32) ++ (value ++ encode_fields fs)))

unfoldable pub encode_group : AttributeGroup → Bytes
unfolding sort_by_name encode_fields
encode_group ag = be32 (length ag.fields % 2 ^ 32) ++ encode_fields (sort_by_name ag.fields)

-- delete(m, name) and m[name] = value
unfoldable pub delete_name : Bytes → List (Bytes × Bytes) → List (Bytes × Bytes)
delete_name name [] = []
delete_name name (f ∷ fs) =
    let rest = delete_name name fs in if bytes_eq f.0 name then rest else f ∷ rest

unfoldable pub set_name : Bytes → Bytes → List (Bytes × Bytes) → List (Bytes × Bytes)
unfolding delete_name
set_name name value fs = (name, value) ∷ delete_name name fs

-- the loop of `DecodeAttributeGroup`; unlike in a batch, an empty value is read as well
unfoldable pub decode_fields :
    ℕ → Bytes → List (Bytes × Bytes) → Outcome ReadError (List (Bytes × Bytes))
unfolding read_some set_name
decode_fields zero r fs = ok fs
decode_fields (suc n) r fs = do
  (name_len, r1) ← read_full 2 r
  (name, r2) ← read_some (of_be name_len) r1
  (value_len, r3) ← read_full 4 r2
  (value, r4) ← read_some (of_be value_len) r3
  decode_fields n r4 (set_name name value fs)

-- the fields; the caller sets the name
unfoldable pub decode_attribute_group : Bytes → Outcome FieldError (List (Bytes × Bytes))
unfolding decode_fields
decode_attribute_group data' =
    if ltb (length data') 4
    then err too_short
    else or_read_failed do (count, r) ← read_full 4 data'; decode_fields (of_be count) r []
