-- ===== src/Fields/RoundTrip.antt =====
-- What decoding gives of a whole and of a cut encoding of a field batch.
use mathlib.Core.Path.{subst}
use rockskv.Prelude.{
  ltb, if_true, if_false, Outcome, ok, ◌>>=◌, length, take, length-append, take-length-append, All,
  All-left, All-right, ℕ, ◌+◌, ◌-◌, ◌%◌, ◌^◌, ◌≤◌, ◌<◌, ◌≡◌, refl, sym, ap, ◌∙◌, List, [], ◌∷◌,
  ◌++◌, append-nil, append_assoc, arith,
}
use rockskv.Bytes.{Bytes, be16, be32}
use rockskv.CommandLog.{ReadError}
use rockskv.Fields.{
  FieldUpdate, FieldBatch, field_batch_format_version, delete_flag, encode_update, encode_updates,
  encode_content, encode_field_batch, zeros, read_some, read_field_value, decode_updates,
  decode_field_batch_content, or_read_failed, decode_field_batch_v1, decode_field_batch,
}
use rockskv.Fields.Batch.{
  FitsUpdate, FitsBatch, read_some_short, decode_update_front, prepend, decode_updates-append,
  decode_content_front,
}

-- the encoding of a batch before its updates, with a count of updates
front : FieldBatch → ℕ → Bytes
front fb n =
    be32 fb.partition_id
    ++ (be32 (length fb.primary_key % 2 ^ 32) ++ (fb.primary_key ++ be32 (n % 2 ^ 32)))

length-front : (fb : FieldBatch) (n : ℕ) → 12 ≤ length (front fb n)
unfolding front
length-front fb n = omega (arith, length-append fb.primary_key (be32 (n % 2 ^ 32)))

front-append :
    (fb : FieldBatch) (n : ℕ) (r : Bytes)
    → front fb n ++ r
      ≡ be32 fb.partition_id
        ++ (be32 (length fb.primary_key % 2 ^ 32) ++ (fb.primary_key ++ (be32 (n % 2 ^ 32) ++ r)))
unfolding front
front-append fb n r = rw (append_assoc, append_assoc, append_assoc)

decode-front :
    (fb : FieldBatch) (n : ℕ) (r : Bytes)
    → fb.partition_id < 2 ^ 32
    → length fb.primary_key < 2 ^ 32
    → n < 2 ^ 32
    → decode_field_batch (field_batch_format_version ∷ (front fb n ++ r))
      ≡ or_read_failed (
          decode_updates n r >>= λ (p : List FieldUpdate × Bytes). ok (record fb { updates = p.0 }))
unfolding decode_field_batch decode_field_batch_v1
decode-front fb n r hp hk hn =
    if_false (ltb (length (front fb n ++ r)) 12) _ _
      (ground (arith, length-append (front fb n) r, length-front fb n))
    ∙ ap (λ (bs : Bytes). or_read_failed (decode_field_batch_content bs)) (front-append fb n r)
    ∙ ap or_read_failed (decode_content_front fb n r hp hk hn)

encode-front :
    (fb : FieldBatch)
    → encode_field_batch fb
      ≡ field_batch_format_version ∷ (front fb (length fb.updates) ++ encode_updates fb.updates)
unfolding encode_field_batch encode_content
encode-front fb = rw (front-append fb (length fb.updates) (encode_updates fb.updates))

encode_updates-append :
    (us vs : List FieldUpdate) → encode_updates (us ++ vs) ≡ encode_updates us ++ encode_updates vs
unfolding encode_updates
encode_updates-append [] vs = refl
encode_updates-append (u ∷ us) vs = rw (encode_updates-append us vs, append_assoc)

decode_updates-encode_updates :
    (us : List FieldUpdate)
    → All FitsUpdate us
    → decode_updates (length us) (encode_updates us) ≡ ok (us, [])
decode_updates-encode_updates us h =
    ap (λ (k : ℕ). decode_updates k (encode_updates us)) (plus-zero (length us))
    ∙ ap (decode_updates (length us + 0)) (sym (append-nil (encode_updates us)))
    ∙ decode_updates-append us 0 [] h
    ∙ (unfold decode_updates in rw append-nil)
  where
    plus-zero : (k : ℕ) → k ≡ k + 0
    plus-zero k = omega arith

-- A field batch whose parts fit the widths of their fields is decoded to itself.
pub decode_field_batch-encode_field_batch :
    (fb : FieldBatch) → FitsBatch fb → decode_field_batch (encode_field_batch fb) ≡ ok fb
decode_field_batch-encode_field_batch fb h =
    ap decode_field_batch (encode-front fb)
    ∙ decode-front fb (length fb.updates) (encode_updates fb.updates) h.partition_fits h.key_fits
        h.count_fits
    ∙ rw (decode_updates-encode_updates fb.updates h.updates_fit)

-- the encoding of an update up to its value, with the length of the value
update_front : FieldUpdate → ℕ → Bytes
update_front u len =
    be16 (length u.field_name % 2 ^ 16)
    ++ (u.field_name ++ (delete_flag u.is_delete ∷ be32 (len % 2 ^ 32)))

-- an update with only the front of its value behind it
decode_update_short :
    (u : FieldUpdate) (start : Bytes) (missing : ℕ)
    → length u.field_name < 2 ^ 16
    → length start + missing < 2 ^ 32
    → 0 < length start
    → decode_updates 1 (update_front u (length start + missing) ++ start)
      ≡ ok (record u { value = start ++ zeros missing } ∷ [], [])
unfolding decode_updates update_front read_field_value
decode_update_short u start missing hn hv pos =
    rw (append_assoc, append_assoc)
      (rw (decode_update_front u (length start + missing) start hn hv) (
        rw (
          if_true (ltb 0 (length start + missing)) (read_some (length start + missing) start)
              (ok ([], start)) (ground arith),
          read_some_short (length start + missing) missing start refl pos,
        )))

-- the encoding of a batch whose last value ends in `rest`, without it
cut_short : FieldBatch → List FieldUpdate → FieldUpdate → Bytes → Bytes → Bytes
cut_short fb us u start rest =
    field_batch_format_version
    ∷ (front fb (length fb.updates)
        ++ (encode_updates us ++ (update_front u (length start + length rest) ++ start)))

encode-cut_short :
    (fb : FieldBatch) (us : List FieldUpdate) (u : FieldUpdate) (start rest : Bytes)
    → fb.updates ≡ us ++ (u ∷ [])
    → u.value ≡ start ++ rest
    → encode_field_batch fb ≡ cut_short fb us u start rest ++ rest
unfolding cut_short
encode-cut_short fb us u start rest split value =
    encode-front fb
    ∙ ap (λ (bs : Bytes). field_batch_format_version ∷ (front fb (length fb.updates) ++ bs))
        (ap encode_updates split
          ∙ encode_updates-append us (u ∷ [])
          ∙ ap (λ (bs : Bytes). encode_updates us ++ bs) last_update)
    ∙ regroup (front fb (length fb.updates)) (encode_updates us)
        (update_front u (length start + length rest)) start rest
  where
    last_update :
        encode_updates (u ∷ []) ≡ update_front u (length start + length rest) ++ (start ++ rest)
    last_update =
        unfold encode_updates encode_update update_front in
        rw (append-nil, value, length-append start rest, append_assoc, append_assoc)

    regroup :
        (a b c d e : Bytes)
        → ◌≡◌ {A = Bytes}
            (field_batch_format_version ∷ (a ++ (b ++ (c ++ (d ++ e)))))
            ((field_batch_format_version ∷ (a ++ (b ++ (c ++ d)))) ++ e)
    regroup a b c d e = simp append_assoc

-- Of the encoding of a batch, cut anywhere behind the first byte of the last update's value,
-- decoding makes a batch without any error: the missing bytes of the value are zeros.
pub decode_field_batch_cut :
    (fb : FieldBatch) (us : List FieldUpdate) (u : FieldUpdate) (start rest : Bytes)
    → FitsBatch fb
    → fb.updates ≡ us ++ (u ∷ [])
    → u.value ≡ start ++ rest
    → 0 < length start
    → let bytes = encode_field_batch fb in
      decode_field_batch (take (length bytes - length rest) bytes)
      ≡ ok (record fb { updates = us ++ (record u { value = start ++ zeros (length rest) } ∷ []) })
decode_field_batch_cut fb us u start rest h split value pos =
    ap decode_field_batch kept
    ∙ unfold cut_short in
      decode-front fb (length fb.updates) (encode_updates us ++ last) h.partition_fits h.key_fits
        h.count_fits
      ∙ ap
          (λ (o : Outcome ReadError (List FieldUpdate × Bytes)).
            or_read_failed
              (o >>= λ (p : List FieldUpdate × Bytes). ok (record fb { updates = p.0 })))
          (ap (λ (k : ℕ). decode_updates k (encode_updates us ++ last)) count
            ∙ decode_updates-append us 1 last (All-left FitsUpdate us (u ∷ []) all_fit)
            ∙ ap (prepend us) (decode_update_short u start (length rest) fits.name_fits room pos))
  where
    last : Bytes
    last = update_front u (length start + length rest) ++ start

    all_fit : All FitsUpdate (us ++ (u ∷ []))
    all_fit = subst (All FitsUpdate) split h.updates_fit

    fits : FitsUpdate u
    fits = (All-right FitsUpdate us (u ∷ []) all_fit).0

    room : length start + length rest < 2 ^ 32
    room = omega (arith, fits.value_fits, ap length value, length-append start rest)

    count : length fb.updates ≡ length us + 1
    count = omega (arith, ap length split, length-append us (u ∷ []))

    kept :
        take (length (encode_field_batch fb) - length rest) (encode_field_batch fb)
        ≡ cut_short fb us u start rest
    kept = rw (encode-cut_short fb us u start rest split value) (
        take-length-append _ (cut_short fb us u start rest) rest
          (omega (arith, length-append (cut_short fb us u start rest) rest)))
