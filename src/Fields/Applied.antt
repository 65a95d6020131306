-- ===== src/Fields/Applied.antt =====
-- What field writes leave to read: a batch touches the fields that it names, of its primary key in
-- its partition, and nothing else.
use rockskv.Prelude.{
  ◌==◌, if◌then◌else◌, same_truth, length, ℕ, ◌+◌, ◌^◌, ◌<◌, ◌≡◌, refl, ap, ◌∙◌, Bool, true, false,
  ◌&&◌, Option, none, some, List, [], ◌∷◌, arith,
}
use rockskv.Bytes.{Bytes, bytes_eq, bytes_eq_iff}
use rockskv.Rocks.{effect, last_write, written, RocksDb, IsStore, put_op, delete_op}
use rockskv.Keys.{FieldKey, encode, make_field_key}
use rockskv.Keys.RoundTrip.{encode-injective}
use rockskv.Fields.{FieldUpdate, FieldBatch}
use rockskv.Fields.Storage.{update_ops, get_field, apply_field_batch}

-- What the updates leave at a field: the last one that names it decides.
unfoldable pub latest_update : Bytes → List FieldUpdate → Option (Option Bytes)
latest_update name [] = none
latest_update name (u ∷ us) = elim (latest_update name us) [
  | some o ↦ some o
  | none ↦
      if bytes_eq u.field_name name then some (if u.is_delete then none else some u.value) else none
]

pub bytes_eq-make_field_key :
    (p q : ℕ) (k j n m : Bytes)
    → p < 2 ^ 32
    → q < 2 ^ 32
    → length k + 12 < 2 ^ 32
    → length j + 12 < 2 ^ 32
    → bytes_eq (make_field_key p k n) (make_field_key q j m)
      ≡ ((p == q && bytes_eq k j) && bytes_eq n m)
unfolding make_field_key
bytes_eq-make_field_key p q k j n m hp hq hk hj = same_truth _ _ (
  λ e.
      both (ap (λ (fk : FieldKey). fk.partition_id) (one e))
        (ap (λ (fk : FieldKey). fk.primary_key) (one e))
        (ap (λ (fk : FieldKey). fk.field_name) (one e)),
  λ e. (bytes_eq_iff (encode a) (encode b)).1 (ap encode (whole e)),
)
  where
    a : FieldKey
    a = record { partition_id = p; primary_key = k; field_name = n }

    b : FieldKey
    b = record { partition_id = q; primary_key = j; field_name = m }

    one : bytes_eq (encode a) (encode b) ≡ true → a ≡ b
    one e = encode-injective a b hp hk hq hj ((bytes_eq_iff (encode a) (encode b)).0 e)

    both : p ≡ q → k ≡ j → n ≡ m → ((p == q && bytes_eq k j) && bytes_eq n m) ≡ true
    both e f g = ground (arith, bytes_eq_iff k j, bytes_eq_iff n m)

    whole : ((p == q && bytes_eq k j) && bytes_eq n m) ≡ true → a ≡ b
    whole e = ground (arith, bytes_eq_iff k j, bytes_eq_iff n m)

effect_update :
    (j k v : Bytes) (d : Bool)
    → effect j (if d then delete_op k else put_op k v)
      ≡ (if bytes_eq k j then some (if d then none else some v) else none)
effect_update j k v true = refl
effect_update j k v false = refl

split_update :
    (same named : Bool) (now : Option Bytes) (o : Option (Option Bytes))
    → elim (if same then o else none) as (λ _. Option (Option Bytes)) [
      | some w ↦ some w
      | none ↦ if same && named then some now else none
    ]
      ≡ (if same
          then elim o as (λ _. Option (Option Bytes)) [
            | some w ↦ some w
            | none ↦ if named then some now else none
          ]
          else none)
split_update true named now none = refl
split_update true named now (some w) = refl
split_update false named now o = refl

module _ (p q : ℕ) (k j : Bytes) (hp : p < 2 ^ 32) (hq : q < 2 ^ 32) (hk : length k + 12 < 2 ^ 32)
    (hj : length j + 12 < 2 ^ 32) where
  last_write-update_ops :
      (name : Bytes) (us : List FieldUpdate)
      → last_write (make_field_key q j name) (update_ops p k us)
        ≡ (if p == q && bytes_eq k j then latest_update name us else none)
  unfolding last_write update_ops latest_update
  last_write-update_ops name [] = ground arith
  last_write-update_ops name (u ∷ us) =
      let now : Option Bytes = if u.is_delete then none else some u.value in
      step (last_write-update_ops name us) (
        effect_update (make_field_key q j name) (make_field_key p k u.field_name) u.value
          u.is_delete
        ∙ ap (λ (b : Bool). if b then some now else none)
            (bytes_eq-make_field_key p q k j u.field_name name hp hq hk hj))
      ∙ split_update (p == q && bytes_eq k j) (bytes_eq u.field_name name) now
          (latest_update name us)
    where
      step :
          {a b c d : Option (Option Bytes)}
          → a ≡ b
          → c ≡ d
          → elim a as (λ _. Option (Option Bytes)) [ some w ↦ some w | none ↦ c ]
            ≡ elim b as (λ _. Option (Option Bytes)) [ some w ↦ some w | none ↦ d ]
      step {b = x} {c = y} e f =
          ap
            (λ (o : Option (Option Bytes)). elim o as (λ _. Option (Option Bytes)) [
              | some w ↦ some w
              | none ↦ y
            ])
            e
          ∙ ap
              (λ (o : Option (Option Bytes)). elim x as (λ _. Option (Option Bytes)) [
                | some w ↦ some w
                | none ↦ o
              ])
              f

  -- After a field batch was applied in partition `p`, a field of any primary key in any partition
  -- reads as the last update of the batch leaves it, where the partition and the primary key are
  -- the batch's and an update names it, and as before otherwise (over a database with the laws of a
  -- store; 32-bit partition ids, primary keys 12 bytes short of 2 ^ 32).
  pub get_field-apply_field_batch :
      {Db : Type 0} (rocks : RocksDb Db)
      → IsStore Db rocks
      → (us : List FieldUpdate) (id : ℕ) (name : Bytes) (d : Db)
      → let fb : FieldBatch = record { partition_id = id; primary_key = k; updates = us } in
        get_field rocks q j name (apply_field_batch rocks p fb d)
        ≡ written
            (get_field rocks q j name d)
            (if p == q && bytes_eq k j then latest_update name us else none)
  unfolding get_field apply_field_batch
  get_field-apply_field_batch rocks laws us id name d = rw (
    laws.get_write (update_ops p k us) (make_field_key q j name) d,
    last_write-update_ops name us,
  )
