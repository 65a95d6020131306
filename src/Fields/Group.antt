-- ===== src/Fields/Group.antt =====
-- Attribute groups through their encoding: what an empty value at the end does.
use mathlib.Core.Path.{subst}
use rockskv.Prelude.{
  ltb, ◌==◌, if◌then◌else◌, if_false, Outcome, ok, err, length, length-append, All, All-left,
  All-right, ℕ, suc, ◌+◌, ◌%◌, ◌^◌, ◌≤◌, ◌<◌, ◌≡◌, refl, sym, ap, ◌∙◌, Bool, true, false, List, [],
  ◌∷◌, ◌++◌, append_assoc, arith,
}
use rockskv.Bytes.{Bytes, be16, be32}
use rockskv.CommandLog.{ReadError, read_full-append, eof}
use rockskv.Fields.{
  read_some, or_read_failed, AttributeGroup, insert_by_name, sort_by_name, encode_fields,
  encode_group, set_name, decode_fields, decode_attribute_group, read_failed,
}
use rockskv.Fields.Batch.{read_some-append, be16_back, be32_back}

pub record FitsField (f : Bytes × Bytes) : Type 0 where
  pub name_fits : length f.0 < 2 ^ 16
  pub value_fits : length f.1 < 2 ^ 32

-- one round over a field with bytes behind it
decode_fields-field :
    (f : Bytes × Bytes) (n : ℕ) (r : Bytes) (done : List (Bytes × Bytes))
    → FitsField f
    → 0 < length (f.1 ++ r)
    → decode_fields
        (suc n)
        (be16 (length f.0 % 2 ^ 16) ++ (f.0 ++ (be32 (length f.1 % 2 ^ 32) ++ (f.1 ++ r))))
        done
      ≡ decode_fields n r (set_name f.0 f.1 done)
unfolding decode_fields
decode_fields-field (name, value) n r done h pos =
    let behind : Bytes = be32 (length value % 2 ^ 32) ++ (value ++ r) in
    rw (read_full-append 2 (be16 (length name % 2 ^ 16)) (name ++ behind) refl) (
      rw (be16_back (length name) h.name_fits) (
        rw
          (read_some-append (length name) name behind refl
            (omega (arith, length-append name behind)))
          (rw (read_full-append 4 (be32 (length value % 2 ^ 32)) (value ++ r) refl) (
            rw (be32_back (length value) h.value_fits)
              (rw (read_some-append (length value) value r refl pos))))))

-- The fields entered into a map, in their order.
unfoldable pub set_all : List (Bytes × Bytes) → List (Bytes × Bytes) → List (Bytes × Bytes)
set_all [] done = done
set_all (f ∷ fs) done = set_all fs (set_name f.0 f.1 done)

decode_fields-append :
    (fs : List (Bytes × Bytes)) (n : ℕ) (r : Bytes) (done : List (Bytes × Bytes))
    → All FitsField fs
    → 0 < length r
    → decode_fields (length fs + n) (encode_fields fs ++ r) done
      ≡ decode_fields n r (set_all fs done)
unfolding encode_fields set_all
decode_fields-append [] n r done h pos = ap (λ (k : ℕ). decode_fields k r done) (zero-plus n)
  where
    zero-plus : (k : ℕ) → 0 + k ≡ k
    zero-plus k = omega arith
decode_fields-append ((name, value) ∷ fs) n r done h pos =
    ap2 (suc-plus (length fs)) (
      regroup (be16 (length name % 2 ^ 16)) name (be32 (length value % 2 ^ 32)) value
        (encode_fields fs) r)
    ∙ decode_fields-field (name, value) (length fs + n) (encode_fields fs ++ r) done h.0
        (omega
          (arith, length-append value (encode_fields fs ++ r), length-append (encode_fields fs) r))
    ∙ decode_fields-append fs n r (set_name name value done) h.1 pos
  where
    ap2 : {k l : ℕ} {x y : Bytes} → k ≡ l → x ≡ y → decode_fields k x done ≡ decode_fields l y done
    ap2 e f = rw (e, f)

    suc-plus : (k : ℕ) → suc k + n ≡ suc (k + n)
    suc-plus k = omega arith

    regroup :
        (a b c d e f : Bytes)
        → (a ++ (b ++ (c ++ (d ++ e)))) ++ f ≡ a ++ (b ++ (c ++ (d ++ (e ++ f))))
    regroup a b c d e f = simp append_assoc

-- the last field
decode_fields_last :
    (name value : Bytes) (done : List (Bytes × Bytes))
    → FitsField (name, value)
    → decode_fields 1 (encode_fields ((name, value) ∷ [])) done
      ≡ (if length value == 0 then err eof else ok (set_name name value done))
unfolding encode_fields
decode_fields_last name [] done h = empty
  where
    empty : decode_fields 1 (encode_fields ((name, []) ∷ [])) done ≡ err eof
    empty =
        unfold decode_fields read_some in
        rw (read_full-append 2 (be16 (length name % 2 ^ 16)) (name ++ be32 0) refl) (
          rw (be16_back (length name) h.name_fits) (
            rw
              (read_some-append (length name) name (be32 0) refl
                (omega (arith, length-append name (be32 0))))
              (rw (read_full-append 4 (be32 0) [] refl))))
decode_fields_last name (b ∷ value) done h =
    decode_fields-field (name, b ∷ value) 0 [] done h (omega arith)
    ∙ (unfold decode_fields in
        sym (
          if_false {A = Outcome ReadError (List (Bytes × Bytes))} (length (b ∷ value) == 0)
            (err eof) (ok (set_name name (b ∷ value) done)) (ground arith)))

length-insert_by_name :
    (f : Bytes × Bytes) (fs : List (Bytes × Bytes)) → length (insert_by_name f fs) ≡ suc (length fs)
unfolding insert_by_name
length-insert_by_name f [] = refl
length-insert_by_name f (g ∷ gs) = ground (arith, length-insert_by_name f gs)

length-sort_by_name : (fs : List (Bytes × Bytes)) → length (sort_by_name fs) ≡ length fs
unfolding sort_by_name
length-sort_by_name [] = refl
length-sort_by_name (f ∷ fs) =
    omega (arith, length-insert_by_name f (sort_by_name fs), length-sort_by_name fs)

encode_fields-append :
    (fs gs : List (Bytes × Bytes)) → encode_fields (fs ++ gs) ≡ encode_fields fs ++ encode_fields gs
unfolding encode_fields
encode_fields-append [] gs = refl
encode_fields-append ((name, value) ∷ fs) gs =
    rw (encode_fields-append fs gs, append_assoc, append_assoc, append_assoc, append_assoc)

length-encode_fields-pos : (f : Bytes × Bytes) → 0 < length (encode_fields (f ∷ []))
unfolding encode_fields
length-encode_fields-pos (name, value) = omega arith

set_all-append :
    (fs : List (Bytes × Bytes)) (name value : Bytes) (done : List (Bytes × Bytes))
    → set_name name value (set_all fs done) ≡ set_all (fs ++ ((name, value) ∷ [])) done
unfolding set_all
set_all-append [] name value done = refl
set_all-append (f ∷ fs) name value done = set_all-append fs name value (set_name f.0 f.1 done)

-- Decoding the encoding of a group (fewer than 2 ^ 32 fields, within the widths) enters its fields
-- in the order of their names, as they were, if the value of the last one is not empty; if it is
-- empty, decoding fails at the end of the data, so the stored group cannot be read again.
pub decode_attribute_group-encode_group :
    (ag : AttributeGroup) (fs : List (Bytes × Bytes)) (name value : Bytes)
    → sort_by_name ag.fields ≡ fs ++ ((name, value) ∷ [])
    → All FitsField (sort_by_name ag.fields)
    → length ag.fields < 2 ^ 32
    → decode_attribute_group (encode_group ag) ≡ (
        if length value == 0
        then err (read_failed eof)
        else ok (set_all (sort_by_name ag.fields) []))
decode_attribute_group-encode_group ag fs name value sorted fits room =
    whole ∙ ap or_read_failed fields ∙ choose (length value == 0)
  where
    long : (bs : Bytes) → 4 ≤ length bs → ltb (length bs) 4 ≡ false
    long bs h = ground arith

    whole :
        decode_attribute_group (encode_group ag)
        ≡ or_read_failed
            (decode_fields (length ag.fields) (encode_fields (sort_by_name ag.fields)) [])
    whole =
        unfold decode_attribute_group encode_group in
        rw
          (read_full-append 4 (be32 (length ag.fields % 2 ^ 32))
            (encode_fields (sort_by_name ag.fields)) refl)
          (rw (be32_back (length ag.fields) room) (
            if_false (ltb (length (encode_group ag)) 4) _ _
              (long (encode_group ag) (unfold encode_group in omega arith))))

    all_fit : All FitsField (fs ++ ((name, value) ∷ []))
    all_fit = subst (All FitsField) sorted fits

    count : length ag.fields ≡ length fs + 1
    count = omega (
      arith,
      length-sort_by_name ag.fields,
      ap length sorted,
      length-append fs ((name, value) ∷ []),
    )

    fields :
        decode_fields (length ag.fields) (encode_fields (sort_by_name ag.fields)) []
        ≡ (if length value == 0 then err eof else ok (set_all (sort_by_name ag.fields) []))
    fields =
        rw (count, sorted, encode_fields-append)
          (decode_fields-append fs 1 (encode_fields ((name, value) ∷ [])) []
              (All-left FitsField fs ((name, value) ∷ []) all_fit)
              (length-encode_fields-pos (name, value))
            ∙ decode_fields_last name value (set_all fs [])
                (All-right FitsField fs ((name, value) ∷ []) all_fit).0
            ∙ rw (set_all-append fs name value []))

    choose :
        (b : Bool)
        → or_read_failed (if b then err eof else ok (set_all (sort_by_name ag.fields) []))
          ≡ (if b then err (read_failed eof) else ok (set_all (sort_by_name ag.fields) []))
    choose true = refl
    choose false = refl
