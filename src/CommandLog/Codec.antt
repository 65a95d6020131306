-- ===== src/CommandLog/Codec.antt =====
-- The round trip of one entry, and what becomes of a torn one.
use rockskv.Prelude.{
  Outcome, ok, err, panic, length, take, drop, take-append-drop, length-drop, ℕ, zero, suc, ◌^◌,
  ◌<◌, ◌≡◌, refl, sym, ◌∙◌, inl, inr, [], ◌∷◌, ◌++◌, append-nil, append_assoc, arith,
}
use rockskv.Bytes.{Bytes, be32, of_be-be32, of_be-be64}
use rockskv.CommandLog.{
  CommandEntry, header_bytes, compute_entry_crc, sealed, encode, parse_header, read_value,
  check_crc, decode_command_entry, ReadError, read_full, read_full-append, IsIncomplete, grow,
  IsStable, read_full-IsStable, bind-IsStable,
}
use rockskv.Crc.{checksum_ieee, checksum_ieee-lt}

-- What `Append` gives an entry, within the widths of the fields.
pub record IsWellFormed (e : CommandEntry) : Type 0 where
  pub sequence_fits : e.sequence < 2 ^ 64
  pub timestamp_fits : e.timestamp < 2 ^ 64
  pub key_counted : e.key_len ≡ length e.key
  pub value_counted : e.value_len ≡ length e.value
  pub key_fits : length e.key < 2 ^ 32
  pub value_fits : length e.value < 2 ^ 32

parse_header-header_bytes :
    (e : CommandEntry)
    → IsWellFormed e
    → parse_header (header_bytes e) ≡ record e { key = []; value = []; crc = 0 }
unfolding parse_header header_bytes
parse_header-header_bytes e w = ground (
  arith,
  of_be-be64 e.sequence,
  of_be-be64 e.timestamp,
  of_be-be32 e.key_len,
  of_be-be32 e.value_len,
)

read_value-append : (n : ℕ) (xs ys : Bytes) → n ≡ length xs → read_value n (xs ++ ys) ≡ ok (xs, ys)
unfolding read_value
read_value-append zero [] ys h = refl
read_value-append zero (x ∷ xs) ys h = absurd (omega arith)
read_value-append (suc n) xs ys h = ground (arith, read_full-append (suc n) xs ys)

check_crc-sealed :
    (e : CommandEntry) (rest : Bytes)
    → check_crc
        (header_bytes e)
        (record e { key = []; value = []; crc = 0 })
        e.key
        e.value
        (be32 (sealed e).crc ++ rest)
      ≡ ok (sealed e, rest)
unfolding check_crc sealed compute_entry_crc
check_crc-sealed e rest =
    let total = header_bytes e ++ (e.key ++ e.value) in
    rw (read_full-append 4 (be32 (checksum_ieee total)) rest refl)
      (rw (of_be-be32 (checksum_ieee total) (checksum_ieee-lt total)) (ground arith))

-- A well-formed entry, encoded and with anything behind it, is decoded to itself with its checksum
-- set, and the reader is left at what stood behind it.
pub decode_command_entry-encode :
    (e : CommandEntry) (rest : Bytes)
    → IsWellFormed e
    → decode_command_entry (encode e ++ rest) ≡ ok (sealed e, rest)
unfolding decode_command_entry encode
decode_command_entry-encode e rest w =
    rw (append_assoc, append_assoc, append_assoc)
      (rw (read_full-append 25 (header_bytes e) _ (unfold header_bytes in refl)) (
        rw (parse_header-header_bytes e w) (
          rw (read_full-append e.key_len e.key _ w.key_counted) (
            rw (read_value-append e.value_len e.value _ w.value_counted)
              (check_crc-sealed e rest)))))

read_value-IsStable : (n : ℕ) → IsStable (read_value n)
unfolding read_value
read_value-IsStable n bs more = ground (arith, read_full-IsStable n bs more)

check_crc-IsStable : (h : Bytes) (e : CommandEntry) (k v : Bytes) → IsStable (check_crc h e k v)
unfolding check_crc
check_crc-IsStable h e k v =
    bind-IsStable (read_full 4) _ (read_full-IsStable 4) (λ c bs more. ground arith)

pub decode_command_entry-IsStable : IsStable decode_command_entry
unfolding decode_command_entry
decode_command_entry-IsStable = bind-IsStable (read_full 25) _ (read_full-IsStable 25) λ h.
    bind-IsStable (read_full (parse_header h).key_len) _ (read_full-IsStable _) λ k.
      bind-IsStable (read_value (parse_header h).value_len) _ (read_value-IsStable _)
        λ v. check_crc-IsStable h (parse_header h) k v

-- A proper prefix of a well-formed entry's encoding, such as a torn write leaves at the end of a
-- file, is refused with one of the two end-of-file errors: it is never taken for an entry.
pub decode_torn :
    (e : CommandEntry) (n : ℕ)
    → IsWellFormed e
    → n < length (encode e)
    → IsIncomplete (decode_command_entry (take n (encode e)))
decode_torn e n w h = elim (decode_command_entry-IsStable (take n (encode e)) (drop n (encode e))) [
  | inl i ↦ i
  | inr s ↦ absurd (never s)
]
  where
    whole : decode_command_entry (encode e) ≡ ok (sealed e, [])
    whole = rw append-nil at (decode_command_entry-encode e [] w)

    left_over :
        (o : Outcome ReadError (CommandEntry × Bytes))
        → grow (drop n (encode e)) o ≡ ok (sealed e, [])
        → length (drop n (encode e)) ≡ 0
    left_over (ok (a, [])) g = ground arith
    left_over (ok (a, b ∷ r)) g = ground arith
    left_over (err x) g = cc
    left_over panic g = cc

    never :
        decode_command_entry (take n (encode e) ++ drop n (encode e))
          ≡ grow (drop n (encode e)) (decode_command_entry (take n (encode e)))
        → ⊥
    never s =
        let none_left =
          left_over (decode_command_entry (take n (encode e)))
            (sym s ∙ rw (take-append-drop n (encode e)) whole) in
        omega (arith, none_left, length-drop n (encode e))
