-- ===== src/Fields/Tests.antt =====
-- Field batches and attribute groups at concrete inputs.
use rockskv.Prelude.{
  ◌==◌, if◌then◌else◌, ok, err, length, All, ◌≡◌, refl, true, false, ◌&&◌, none, [], ◌∷◌, ◌++◌,
  arith,
}
use rockskv.Bytes.{ascii, bytes_eq, bytes_lt}
use rockskv.Rocks.{written}
use rockskv.CommandLog.{eof}
use rockskv.Fields.{
  FieldUpdate, FieldBatch, encode_field_batch, decode_field_batch, AttributeGroup, sort_by_name,
  encode_group, decode_attribute_group, read_failed,
}
use rockskv.Fields.Batch.{FitsBatch}
use rockskv.Fields.RoundTrip.{decode_field_batch-encode_field_batch}
use rockskv.Fields.Group.{FitsField, set_all, decode_attribute_group-encode_group}
use rockskv.Fields.Storage.{get_field, apply_field_batch}
use rockskv.Fields.Applied.{latest_update, get_field-apply_field_batch}
use rockskv.Rocks.LogDb.{log_db, log_db-IsStore}

abbrev set_name_field : FieldUpdate
set_name_field = record { field_name = ascii "name"; value = ascii "Ada"; is_delete = false }

abbrev drop_age : FieldUpdate
drop_age = record { field_name = ascii "age"; value = []; is_delete = true }

abbrev batch : FieldBatch
batch = record {
  partition_id = 7;
  primary_key = ascii "u1";
  updates = drop_age ∷ set_name_field ∷ [];
}

batch-FitsBatch : FitsBatch batch
batch-FitsBatch = record {
  partition_fits = omega arith;
  key_fits = omega arith;
  count_fits = omega arith;
  updates_fit = (
    record { name_fits = omega arith; value_fits = omega arith },
    (record { name_fits = omega arith; value_fits = omega arith }, tt),
  );
}

decode_field_batch-encode_field_batch_example :
    decode_field_batch (encode_field_batch batch) ≡ ok batch
decode_field_batch-encode_field_batch_example =
    decode_field_batch-encode_field_batch batch batch-FitsBatch

-- A group whose last field by name is empty.
abbrev profile : AttributeGroup
profile = record { name = ascii "profile"; fields = (ascii "z", []) ∷ (ascii "a", ascii "1") ∷ [] }

profile-sorted :
    sort_by_name profile.fields ≡ ((ascii "a", ascii "1") ∷ []) ++ ((ascii "z", []) ∷ [])
unfolding sort_by_name bytes_lt
profile-sorted = refl

profile-FitsField : All FitsField (sort_by_name profile.fields)
unfolding sort_by_name bytes_lt
profile-FitsField = (
  record { name_fits = omega arith; value_fits = omega arith },
  (record { name_fits = omega arith; value_fits = omega arith }, tt),
)

decode_attribute_group-encode_group_example : decode_attribute_group (encode_group profile) ≡ (
    if length (ascii "") == 0
    then err (read_failed eof)
    else ok (set_all (sort_by_name profile.fields) []))
decode_attribute_group-encode_group_example =
    decode_attribute_group-encode_group profile ((ascii "a", ascii "1") ∷ []) (ascii "z") []
      profile-sorted profile-FitsField (omega arith)

get_field-apply_field_batch_example :
    get_field log_db 7 (ascii "u1") (ascii "name") (apply_field_batch log_db 7 batch [])
    ≡ written (get_field log_db 7 (ascii "u1") (ascii "name") []) (
        if 7 == 7 && bytes_eq (ascii "u1") (ascii "u1")
        then latest_update (ascii "name") batch.updates
        else none)
get_field-apply_field_batch_example =
    get_field-apply_field_batch 7 7 (ascii "u1") (ascii "u1") (omega arith) (omega arith)
      (omega arith) (omega arith) log_db log_db-IsStore batch.updates 7 (ascii "name") []
