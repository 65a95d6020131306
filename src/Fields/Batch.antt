-- ===== src/Fields/Batch.antt =====
-- Field batches through their encoding.
use rockskv.Prelude.{
  ltb, ◌==◌, if_true, Outcome, ok, err, panic, ◌>>=◌, length, take, drop, length-append,
  take-length-append, drop-length-append, All, ℕ, zero, suc, ◌+◌, ◌-◌, ◌%◌, ◌^◌, ◌≤◌, ◌<◌, ◌≡◌,
  refl, ap, ◌∙◌, Bool, true, false, List, [], ◌∷◌, ◌++◌, append-nil, append_assoc, arith,
}
use rockskv.Bytes.{Bytes, be16, be32, of_be, of_be-be16, of_be-be32}
use rockskv.CommandLog.{ReadError, read_full-append}
use rockskv.Fields.{
  FieldUpdate, FieldBatch, delete_flag, encode_update, encode_updates, zeros, read_some, read_byte,
  read_field_value, decode_update, decode_updates, decode_field_batch_content,
}

pub record FitsUpdate (u : FieldUpdate) : Type 0 where
  pub name_fits : length u.field_name < 2 ^ 16
  pub value_fits : length u.value < 2 ^ 32

pub record FitsBatch (fb : FieldBatch) : Type 0 where
  pub partition_fits : fb.partition_id < 2 ^ 32
  pub key_fits : length fb.primary_key < 2 ^ 32
  pub count_fits : length fb.updates < 2 ^ 32
  pub updates_fit : All FitsUpdate fb.updates

no_zeros : (n m : ℕ) → n ≤ m → zeros (n - m) ≡ []
no_zeros n m h = ap zeros (zero_minus n m h)
  where
    zero_minus : (a b : ℕ) → a ≤ b → a - b ≡ 0
    zero_minus a b k = omega arith

read_some_full :
    (n : ℕ) (r : Bytes) → n ≤ length r → 0 < length r → read_some n r ≡ ok (take n r, drop n r)
unfolding read_some
read_some_full n [] h p = absurd (omega arith)
read_some_full n (b ∷ r) h p = rw (no_zeros n (length (b ∷ r)) h, append-nil)

-- Bytes that are all there are read, unless the reader is at its end.
pub read_some-append :
    (n : ℕ) (xs ys : Bytes)
    → n ≡ length xs
    → 0 < length (xs ++ ys)
    → read_some n (xs ++ ys) ≡ ok (xs, ys)
read_some-append n xs ys e pos =
    read_some_full n (xs ++ ys) (omega (arith, length-append xs ys)) pos
    ∙ rw (take-length-append n xs ys e, drop-length-append n xs ys e)

-- What is missing at the end reads as zeros.
pub read_some_short :
    (n m : ℕ) (xs : Bytes)
    → n ≡ length xs + m
    → 0 < length xs
    → read_some n xs ≡ ok (xs ++ zeros m, [])
unfolding read_some
read_some_short n m [] e pos = absurd (omega arith)
read_some_short n m (b ∷ xs) e pos =
    rw (take_all n (b ∷ xs) (omega arith), drop_all n (b ∷ xs) (omega arith), missing)
  where
    missing : n - length (b ∷ xs) ≡ m
    missing = omega arith

    take_all : (k : ℕ) (l : Bytes) → length l ≤ k → take k l ≡ l
    take_all zero [] h = refl
    take_all zero (x ∷ l) h = absurd (omega arith)
    take_all (suc k) [] h = refl
    take_all (suc k) (x ∷ l) h = ap (λ t. x ∷ t) (take_all k l (omega arith))

    drop_all : (k : ℕ) (l : Bytes) → length l ≤ k → drop k l ≡ []
    drop_all zero [] h = refl
    drop_all zero (x ∷ l) h = absurd (omega arith)
    drop_all (suc k) [] h = refl
    drop_all (suc k) (x ∷ l) h = drop_all k l (omega arith)

is_delete-flag : (b : Bool) → (delete_flag b == 1) ≡ b
is_delete-flag true = refl
is_delete-flag false = refl

pub be16_back : (n : ℕ) → n < 2 ^ 16 → of_be (be16 (n % 2 ^ 16)) ≡ n
be16_back n h = of_be-be16 (n % 2 ^ 16) (omega arith) ∙ omega arith

pub be32_back : (n : ℕ) → n < 2 ^ 32 → of_be (be32 (n % 2 ^ 32)) ≡ n
be32_back n h = of_be-be32 (n % 2 ^ 32) (omega arith) ∙ omega arith

-- The front of an update: what follows is its value and more.
pub decode_update_front :
    (u : FieldUpdate) (len : ℕ) (r : Bytes)
    → length u.field_name < 2 ^ 16
    → len < 2 ^ 32
    → decode_update (
        be16 (length u.field_name % 2 ^ 16)
        ++ (u.field_name ++ (delete_flag u.is_delete ∷ (be32 (len % 2 ^ 32) ++ r))))
      ≡ (read_field_value len r >>= λ p. ok (record u { value = p.0 }, p.1))
unfolding decode_update read_byte
decode_update_front u len r hn hl =
    let behind : Bytes = delete_flag u.is_delete ∷ (be32 (len % 2 ^ 32) ++ r) in
    rw (read_full-append 2 (be16 (length u.field_name % 2 ^ 16)) (u.field_name ++ behind) refl) (
      rw (be16_back (length u.field_name) hn) (
        rw
          (read_some-append (length u.field_name) u.field_name behind refl
            (omega (arith, length-append u.field_name behind)))
          (rw (read_full-append 4 (be32 (len % 2 ^ 32)) r refl)
            (rw (be32_back len hl, is_delete-flag u.is_delete)))))

read_field_value-append :
    (n : ℕ) (xs ys : Bytes) → n ≡ length xs → read_field_value n (xs ++ ys) ≡ ok (xs, ys)
unfolding read_field_value
read_field_value-append n [] ys e = ground arith
read_field_value-append n (x ∷ xs) ys e =
    if_true (ltb 0 n) _ _ (ground arith) ∙ read_some-append n (x ∷ xs) ys e (omega arith)

decode_update-encode_update :
    (u : FieldUpdate) (r : Bytes) → FitsUpdate u → decode_update (encode_update u ++ r) ≡ ok (u, r)
unfolding encode_update
decode_update-encode_update u r h =
    rw (append_assoc, append_assoc, append_assoc)
      (decode_update_front u (length u.value) (u.value ++ r) h.name_fits h.value_fits
        ∙ rw (read_field_value-append (length u.value) u.value r refl))

-- what was read, with updates before it
abbrev pub prepend :
    List FieldUpdate
    → Outcome ReadError (List FieldUpdate × Bytes)
    → Outcome ReadError (List FieldUpdate × Bytes)
prepend us o = o >>= λ (p : List FieldUpdate × Bytes). ok (us ++ p.0, p.1)

prepend_one :
    (o : Outcome ReadError (List FieldUpdate × Bytes)) (u : FieldUpdate) (us : List FieldUpdate)
    → (prepend us o >>= λ (q : List FieldUpdate × Bytes). ok (u ∷ q.0, q.1)) ≡ prepend (u ∷ us) o
prepend_one (ok p) u us = refl
prepend_one (err e) u us = refl
prepend_one panic u us = refl

prepend_none : (o : Outcome ReadError (List FieldUpdate × Bytes)) → o ≡ prepend [] o
prepend_none (ok p) = refl
prepend_none (err e) = refl
prepend_none panic = refl

-- The updates before others.
pub decode_updates-append :
    (us : List FieldUpdate) (n : ℕ) (r : Bytes)
    → All FitsUpdate us
    → decode_updates (length us + n) (encode_updates us ++ r) ≡ prepend us (decode_updates n r)
unfolding encode_updates
decode_updates-append [] n r h =
    ap (λ (k : ℕ). decode_updates k r) (zero-plus n) ∙ prepend_none (decode_updates n r)
  where
    zero-plus : (k : ℕ) → 0 + k ≡ k
    zero-plus k = omega arith
decode_updates-append (u ∷ us) n r h =
    ap (λ (k : ℕ). decode_updates k ((encode_update u ++ encode_updates us) ++ r)) count
    ∙ ap (decode_updates (suc (length us + n)))
        (append_assoc (encode_update u) (encode_updates us) r)
    ∙ round (decode_updates-append us n r h.1)
  where
    count : length (u ∷ us) + n ≡ suc (length us + n)
    count = omega arith

    round :
        decode_updates (length us + n) (encode_updates us ++ r) ≡ prepend us (decode_updates n r)
        → decode_updates (suc (length us + n)) (encode_update u ++ (encode_updates us ++ r))
          ≡ prepend (u ∷ us) (decode_updates n r)
    round ih =
        unfold decode_updates in
        rw (decode_update-encode_update u (encode_updates us ++ r) h.0)
          (rw ih (prepend_one (decode_updates n r) u us))

-- The front of a batch: what follows are its updates.
pub decode_content_front :
    (fb : FieldBatch) (n : ℕ) (r : Bytes)
    → fb.partition_id < 2 ^ 32
    → length fb.primary_key < 2 ^ 32
    → n < 2 ^ 32
    → decode_field_batch_content (
        be32 fb.partition_id
        ++ (be32 (length fb.primary_key % 2 ^ 32) ++ (fb.primary_key ++ (be32 (n % 2 ^ 32) ++ r))))
      ≡ (decode_updates n r >>= λ (p : List FieldUpdate × Bytes). ok (record fb { updates = p.0 }))
unfolding decode_field_batch_content
decode_content_front fb n r hp hk hn =
    let behind : Bytes = be32 (n % 2 ^ 32) ++ r in
    rw
      (read_full-append 4 (be32 fb.partition_id)
        (be32 (length fb.primary_key % 2 ^ 32) ++ (fb.primary_key ++ behind)) refl)
      (rw
        (read_full-append 4 (be32 (length fb.primary_key % 2 ^ 32)) (fb.primary_key ++ behind) refl)
        (rw (be32_back (length fb.primary_key) hk) (
          rw
            (read_some-append (length fb.primary_key) fb.primary_key behind refl
              (omega (arith, length-append fb.primary_key behind)))
            (rw (read_full-append 4 (be32 (n % 2 ^ 32)) r refl)
              (rw (be32_back n hn, of_be-be32 fb.partition_id hp))))))
