-- ===== src/CommandLog.antt =====
-- The binary format of the command log: `CommandEntry`, `Encode`, `ComputeEntryCRC` and
-- `DecodeCommandEntry` of pkg/storage/command_log.go. A reader is the list of the bytes that are
-- left; a decoder returns what it read and the rest.
mod Reader
pub mod Codec
pub mod Scan
pub mod Log
pub mod Tests
unfoldable pub use Reader.*
use rockskv.Prelude.{
  ltb, ◌==◌, if◌then◌else◌, Outcome, ok, err, ◌>>=◌, get_or, take, drop, ℕ, [], ◌∷◌, ◌++◌,
}
use rockskv.Bytes.{Bytes, be32, be64, of_be}
use rockskv.Crc.{checksum_ieee}

abbrev pub cmd_type_put : ℕ
cmd_type_put = 1

abbrev pub cmd_type_delete : ℕ
cmd_type_delete = 2

abbrev pub cmd_type_field_batch : ℕ
cmd_type_field_batch = 3

-- `timestamp` is the bit pattern of the int64.
pub record CommandEntry : Type 0 where
  pub sequence : ℕ
  pub timestamp : ℕ
  pub cmd_type : ℕ
  pub key_len : ℕ
  pub value_len : ℕ
  pub key : Bytes
  pub value : Bytes
  pub crc : ℕ

-- seq(8) + ts(8) + type(1) + keyLen(4) + valueLen(4)
unfoldable pub header_bytes : CommandEntry → Bytes
header_bytes e =
    be64 e.sequence ++ (be64 e.timestamp ++ (e.cmd_type ∷ (be32 e.key_len ++ be32 e.value_len)))

unfoldable pub compute_entry_crc : Bytes → Bytes → Bytes → ℕ
compute_entry_crc header key value = checksum_ieee (header ++ (key ++ value))

-- `Encode` also sets `e.CRC`, which `sealed` returns.
unfoldable pub sealed : CommandEntry → CommandEntry
sealed e = record e { crc = checksum_ieee (header_bytes e ++ (e.key ++ e.value)) }

unfoldable pub encode : CommandEntry → Bytes
encode e = header_bytes e ++ (e.key ++ (e.value ++ be32 (sealed e).crc))

-- the fields of the 25 bytes of a header
unfoldable pub parse_header : Bytes → CommandEntry
parse_header header = record {
  sequence = of_be (take 8 header);
  timestamp = of_be (take 8 (drop 8 header));
  cmd_type = get_or header 16 0;
  key_len = of_be (take 4 (drop 17 header));
  value_len = of_be (take 4 (drop 21 header));
  key = [];
  value = [];
  crc = 0;
}

unfoldable pub read_value : ℕ → Bytes → Outcome ReadError (Bytes × Bytes)
read_value n r = if ltb 0 n then read_full n r else ok ([], r)

-- the comparison of the stored with the computed checksum
unfoldable pub check_crc :
    Bytes → CommandEntry → Bytes → Bytes → Bytes → Outcome ReadError (CommandEntry × Bytes)
check_crc header e key value r = do
  (crc_buf, rest) ← read_full 4 r
  if of_be crc_buf == compute_entry_crc header key value
      then ok (record e { key = key; value = value; crc = of_be crc_buf }, rest)
      else err crc_mismatch

unfoldable pub decode_body : Bytes → Bytes → Outcome ReadError (CommandEntry × Bytes)
decode_body header r = do
  (key, r1) ← read_full (parse_header header).key_len r
  (value, r2) ← read_value (parse_header header).value_len r1
  check_crc header (parse_header header) key value r2

unfoldable pub decode_command_entry : Bytes → Outcome ReadError (CommandEntry × Bytes)
unfolding decode_body
decode_command_entry r = do (header, r1) ← read_full 25 r; decode_body header r1
