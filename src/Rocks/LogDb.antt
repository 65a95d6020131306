-- ===== src/Rocks/LogDb.antt =====
-- A database in memory that has the laws: the list of its writes, the last one first.
use rockskv.Prelude.{
  if◌then◌else◌, ◌≡◌, refl, ◌∙◌, Bool, true, false, Option, none, some, List, [], ◌∷◌,
}
use rockskv.Bytes.{Bytes, bytes_eq, bytes_lt}
use rockskv.Rocks.{KeyValueItem, WriteOp, last_write, written, RocksDb, IsStore, put_op, delete_op}

abbrev pub Writes : Type 0
Writes = List (Bytes × Option Bytes)

abbrev pub get_last : Bytes → Writes → Option Bytes
get_last j [] = none
get_last j ((k, o) ∷ d) = if bytes_eq k j then o else get_last j d

abbrev write_ops : List WriteOp → Writes → Writes
write_ops [] d = d
write_ops (put_op k v ∷ ops) d = write_ops ops ((k, some v) ∷ d)
write_ops (delete_op k ∷ ops) d = write_ops ops ((k, none) ∷ d)

-- the keys that were written, in order, each once
abbrev pub insert_key : Bytes → List Bytes → List Bytes
insert_key k [] = k ∷ []
insert_key k (j ∷ js) =
    let rest = insert_key k js in
    if bytes_eq k j then j ∷ js else if bytes_lt k j then k ∷ j ∷ js else j ∷ rest

abbrev pub written_keys : Writes → List Bytes
written_keys [] = []
written_keys ((k, o) ∷ d) = insert_key k (written_keys d)

abbrev pub live_entries : Bytes → Writes → List Bytes → List KeyValueItem
live_entries start d [] = []
live_entries start d (k ∷ ks) =
    let rest = live_entries start d ks in
    elim (get_last k d) [ none ↦ rest | some v ↦ if bytes_lt k start then rest else (k, v) ∷ rest ]

abbrev pub log_db : RocksDb Writes
log_db = record {
  get = get_last;
  put = λ k v d. (k, some v) ∷ d;
  delete = λ k d. (k, none) ∷ d;
  write = write_ops;
  entries_from = λ k d. live_entries k d (written_keys d);
}

latest :
    (b : Bool) (now before : Option Bytes) (o : Option (Option Bytes))
    → written (if b then now else before) o
      ≡ written before (elim o as (λ _. Option (Option Bytes)) [
        | some w ↦ some w
        | none ↦ if b then some now else none
      ])
latest true now before none = refl
latest false now before none = refl
latest b now before (some o) = refl

get_last-write_ops :
    (ops : List WriteOp) (j : Bytes) (d : Writes)
    → get_last j (write_ops ops d) ≡ written (get_last j d) (last_write j ops)
unfolding last_write
get_last-write_ops [] j d = refl
get_last-write_ops (put_op k v ∷ ops) j d =
    get_last-write_ops ops j ((k, some v) ∷ d)
    ∙ latest (bytes_eq k j) (some v) (get_last j d) (last_write j ops)
get_last-write_ops (delete_op k ∷ ops) j d =
    get_last-write_ops ops j ((k, none) ∷ d)
    ∙ latest (bytes_eq k j) none (get_last j d) (last_write j ops)

pub log_db-IsStore : IsStore Writes log_db
log_db-IsStore = record {
  get_put = λ k v j d. refl;
  get_delete = λ k j d. refl;
  get_write = get_last-write_ops;
}
