-- ===== src/Fields/Storage.antt =====
-- `FieldStorage` and `GroupedFieldStorage` of pkg/storage/field_storage.go, over the database of
-- Rocks. The documents' JSON form (ToJSON, FromJSON) rests on encoding/json and is left out.
use rockskv.Prelude.{
  ltb, ◌==◌, if◌then◌else◌, Outcome, ok, err, panic, ◌>>=◌, length, ℕ, Bool, true, false, ◌&&◌,
  ◌||◌, Option, none, some, List, [], ◌∷◌, ◌++◌,
}
use rockskv.Bytes.{Bytes, bytes_eq, has_prefix}
use rockskv.Rocks.{KeyValueItem, WriteOp, RocksDb, put_op, delete_op}
use rockskv.Keys.{
  KeyError, get_partition_field_prefix, get_field_prefix, make_field_key, decode_field_key,
}
use rockskv.Fields.{
  FieldUpdate, FieldBatch, FieldError, AttributeGroup, encode_group, delete_name, set_name,
  decode_attribute_group,
}

-- the batch that `ApplyFieldBatch` writes
unfoldable pub update_ops : ℕ → Bytes → List FieldUpdate → List WriteOp
update_ops id pk [] = []
update_ops id pk (u ∷ us) =
    (if u.is_delete
      then delete_op (make_field_key id pk u.field_name)
      else put_op (make_field_key id pk u.field_name) u.value)
    ∷ update_ops id pk us

-- the batch of `SetFields`
unfoldable pub set_ops : ℕ → Bytes → List (Bytes × Bytes) → List WriteOp
set_ops id pk [] = []
set_ops id pk ((name, value) ∷ fs) = put_op (make_field_key id pk name) value ∷ set_ops id pk fs

-- the loop of `GetAllFields`: it stops at the first key without the prefix, and skips keys that are
-- no field keys or of another primary key
unfoldable pub collect_fields :
    ℕ → Bytes → List KeyValueItem → List (Bytes × Bytes) → Outcome KeyError (List (Bytes × Bytes))
unfolding set_name
collect_fields id pk [] fs = ok fs
collect_fields id pk ((key, value) ∷ es) fs = elim (has_prefix key (get_field_prefix id pk)) [
  | false ↦ ok fs
  | true ↦ elim (decode_field_key key) [
    | err e ↦ collect_fields id pk es fs
    | panic ↦ panic
    | ok fk ↦ elim (fk.partition_id == id && bytes_eq fk.primary_key pk) [
      | true ↦ collect_fields id pk es (set_name fk.field_name value fs)
      | false ↦ collect_fields id pk es fs
    ]
  ]
]

-- the batch of `DeleteAllFields`
unfoldable pub delete_ops : Bytes → List KeyValueItem → List WriteOp
delete_ops prefix [] = []
delete_ops prefix ((key, value) ∷ es) =
    let rest = delete_ops prefix es in if has_prefix key prefix then delete_op key ∷ rest else []

abbrev has_key : Bytes → List Bytes → Bool
has_key pk [] = false
has_key pk (q ∷ qs) = bytes_eq q pk || has_key pk qs

-- the loop of `ListPrimaryKeys`, with the keys found so far, in order
unfoldable pub collect_keys : ℕ → ℕ → List KeyValueItem → List Bytes → Outcome KeyError (List Bytes)
collect_keys id limit [] pks = ok pks
collect_keys id limit ((key, value) ∷ es) pks =
    elim (ltb (length pks) limit && has_prefix key (get_partition_field_prefix id)) [
      | false ↦ ok pks
      | true ↦ elim (decode_field_key key) [
        | err e ↦ collect_keys id limit es pks
        | panic ↦ panic
        | ok fk ↦
            collect_keys id limit es
              (if has_key fk.primary_key pks then pks else pks ++ (fk.primary_key ∷ []))
      ]
    ]

unfoldable pub update_fields :
    List (Bytes × Bytes) → List Bytes → List (Bytes × Bytes) → List (Bytes × Bytes)
unfolding set_name delete_name
update_fields [] [] fs = fs
update_fields [] (name ∷ deletes) fs = update_fields [] deletes (delete_name name fs)
update_fields ((name, value) ∷ updates) deletes fs =
    update_fields updates deletes (set_name name value fs)

module _ {Db : Type 0} (rocks : RocksDb Db) where
  unfoldable pub get_field : ℕ → Bytes → Bytes → Db → Option Bytes
  get_field id pk name d = rocks.get (make_field_key id pk name) d

  unfoldable pub set_field : ℕ → Bytes → Bytes → Bytes → Db → Db
  set_field id pk name value d = rocks.put (make_field_key id pk name) value d

  unfoldable pub delete_field : ℕ → Bytes → Bytes → Db → Db
  delete_field id pk name d = rocks.delete (make_field_key id pk name) d

  unfoldable pub get_all_fields : ℕ → Bytes → Db → Outcome KeyError (List (Bytes × Bytes))
  unfolding collect_fields
  get_all_fields id pk d = collect_fields id pk (rocks.entries_from (get_field_prefix id pk) d) []

  unfoldable pub set_fields : ℕ → Bytes → List (Bytes × Bytes) → Db → Db
  unfolding set_ops
  set_fields id pk fs d = rocks.write (set_ops id pk fs) d

  -- the partition is the storage's, not the batch's
  unfoldable pub apply_field_batch : ℕ → FieldBatch → Db → Db
  unfolding update_ops
  apply_field_batch id fb d = rocks.write (update_ops id fb.primary_key fb.updates) d

  unfoldable pub delete_all_fields : ℕ → Bytes → Db → Db
  unfolding delete_ops
  delete_all_fields id pk d =
      let prefix = get_field_prefix id pk in
      rocks.write (delete_ops prefix (rocks.entries_from prefix d)) d

  unfoldable pub list_primary_keys : ℕ → ℕ → Db → Outcome KeyError (List Bytes)
  unfolding collect_keys
  list_primary_keys id limit d =
      collect_keys id limit (rocks.entries_from (get_partition_field_prefix id) d) []

  unfoldable pub get_group : ℕ → Bytes → Bytes → Db → Outcome FieldError (Option AttributeGroup)
  unfolding decode_attribute_group
  get_group id pk name d = elim (rocks.get (make_field_key id pk name) d) [
    | none ↦ ok none
    | some bytes ↦ do
      fields ← decode_attribute_group bytes
      ok (some (record { name = name; fields = fields }))
  ]

  unfoldable pub set_group : ℕ → Bytes → AttributeGroup → Db → Db
  unfolding encode_group
  set_group id pk group d = rocks.put (make_field_key id pk group.name) (encode_group group) d

  -- a read that fails leaves the data as it is
  unfoldable pub update_group_fields :
      ℕ → Bytes → Bytes → List (Bytes × Bytes) → List Bytes → Db → Db × Option FieldError
  unfolding get_group set_group update_fields
  update_group_fields id pk name updates deletes d = elim (get_group id pk name d) [
    | err e ↦ (d, some e)
    | panic ↦ (d, none)
    | ok none ↦ (
      set_group id pk (record { name = name; fields = update_fields updates deletes [] }) d,
      none,
    )
    | ok (some g) ↦ (
      set_group id pk (record { name = g.name; fields = update_fields updates deletes g.fields }) d,
      none,
    )
  ]

  unfoldable pub delete_group : ℕ → Bytes → Bytes → Db → Db
  delete_group id pk name d = rocks.delete (make_field_key id pk name) d
