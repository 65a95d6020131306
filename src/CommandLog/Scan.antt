-- ===== src/CommandLog/Scan.antt =====
-- The loop that reads a log file entry by entry until the first error, as `recover`,
-- `readFromFullScan` and `ReplayTo` of pkg/storage/command_log.go do.
use rockskv.Prelude.{
  ok, err, panic, length, take, length-append, All, ℕ, zero, suc, ◌+◌, ◌≤◌, ◌<◌, ◌≡◌, refl, ap,
  List, [], ◌∷◌, ◌++◌, map, append_assoc, arith,
}
use rockskv.Bytes.{Bytes, be32}
use rockskv.CommandLog.{
  CommandEntry, header_bytes, sealed, encode, decode_command_entry, IsIncomplete,
}
use rockskv.CommandLog.Codec.{IsWellFormed, decode_command_entry-encode, decode_torn}

-- Every error ends the loop. The fuel bounds the entries that are read.
unfoldable pub scan : ℕ → Bytes → List CommandEntry
scan zero r = []
scan (suc fuel) r = elim (decode_command_entry r) [
  | ok p ↦ p.0 ∷ scan fuel p.1
  | err x ↦ []
  | panic ↦ []
]

-- An entry takes more than one byte, so the file's length is enough fuel.
unfoldable pub read_all : Bytes → List CommandEntry
unfolding scan
read_all file = scan (length file) file

unfoldable pub encode_all : List CommandEntry → Bytes
encode_all [] = []
encode_all (e ∷ es) = encode e ++ encode_all es

pub encode_all-append :
    (es fs : List CommandEntry) → encode_all (es ++ fs) ≡ encode_all es ++ encode_all fs
unfolding encode_all
encode_all-append [] fs = refl
encode_all-append (e ∷ es) fs = rw (encode_all-append es fs, append_assoc)

pub length-encode : (e : CommandEntry) → length (encode e) ≡ 29 + length e.key + length e.value
unfolding encode header_bytes
length-encode e = omega (
  arith,
  length-append e.key (e.value ++ be32 (sealed e).crc),
  length-append e.value (be32 (sealed e).crc),
)

-- The tail of a file that holds no further entry, as `scan` sees it.
abbrev pub IsEnd : Bytes → Type 0
IsEnd tail = IsIncomplete (decode_command_entry tail)

scan-IsEnd : (fuel : ℕ) (tail : Bytes) → IsEnd tail → scan fuel tail ≡ []
unfolding scan
scan-IsEnd zero tail h = refl
scan-IsEnd (suc fuel) tail h = ground arith

scan-encode_all :
    (fuel : ℕ) (es : List CommandEntry) (tail : Bytes)
    → All IsWellFormed es
    → IsEnd tail
    → length es ≤ fuel
    → scan fuel (encode_all es ++ tail) ≡ map sealed es
unfolding encode_all scan
scan-encode_all fuel [] tail w h f = scan-IsEnd fuel tail h
scan-encode_all zero (e ∷ es) tail w h f = absurd (omega arith)
scan-encode_all (suc fuel) (e ∷ es) tail w h f =
    rw (append_assoc, decode_command_entry-encode e (encode_all es ++ tail) w.0, scan)
      (ap (λ l. sealed e ∷ l) (scan-encode_all fuel es tail w.1 h (omega arith)))

length-le-length-encode_all : (es : List CommandEntry) → length es ≤ length (encode_all es)
unfolding encode_all
length-le-length-encode_all [] = omega arith
length-le-length-encode_all (e ∷ es) = omega (
  arith,
  length-le-length-encode_all es,
  length-append (encode e) (encode_all es),
  length-encode e,
)

-- What reading a file gives when its tail is no entry.
pub read_all-encode_all :
    (es : List CommandEntry) (tail : Bytes)
    → All IsWellFormed es
    → IsEnd tail
    → read_all (encode_all es ++ tail) ≡ map sealed es
unfolding read_all
read_all-encode_all es tail w h =
    scan-encode_all _ es tail w h
      (omega (arith, length-le-length-encode_all es, length-append (encode_all es) tail))

-- Reading a file of well-formed entries that a crash cut anywhere inside one more entry, or right
-- before it, returns exactly the entries that were written whole, in order.
pub read_all_torn :
    (es : List CommandEntry) (e : CommandEntry) (n : ℕ)
    → All IsWellFormed es
    → IsWellFormed e
    → n < length (encode e)
    → read_all (encode_all es ++ take n (encode e)) ≡ map sealed es
read_all_torn es e n w we h = read_all-encode_all es (take n (encode e)) w (decode_torn e n we h)
