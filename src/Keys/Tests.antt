-- ===== src/Keys/Tests.antt =====
-- Storage keys at concrete inputs.
use rockskv.Prelude.{ok, ◌≡◌, arith}
use rockskv.Bytes.{ascii}
use rockskv.Keys.{FieldKey, encode, decode_field_key}
use rockskv.Keys.RoundTrip.{decode_field_key-encode}

abbrev user_name : FieldKey
user_name = record { partition_id = 7; primary_key = ascii "u1"; field_name = ascii "name" }

decode_field_key-encode_example : decode_field_key (encode user_name) ≡ ok user_name
decode_field_key-encode_example = decode_field_key-encode user_name (omega arith) (omega arith)
