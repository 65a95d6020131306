-- ===== src/Rocks.antt =====
-- RocksDB is a library: its data, what a successful call of it does, and its documented laws are
-- a parameter. The wrapper pkg/storage/rocksdb.go adds `BatchPut`. Whether a call succeeds is an
-- argument of the code that makes it; a call that fails leaves the data as it is. An iterator is
-- the list of the entries from a key on, in the order of keys.
pub mod LogDb
pub mod LastWrite
pub mod Order
pub mod Iterator
use rockskv.Prelude.{
  if◌then◌else◌, In, All, ◌≡◌, ◌↔◌, true, false, Option, none, some, List, [], ◌∷◌,
}
use rockskv.Bytes.{Bytes, bytes_eq, bytes_lt}

abbrev pub KeyValueItem : Type 0
KeyValueItem = Bytes × Bytes

-- the operations of a `WriteBatch`
pub data WriteOp : Type 0 where
  put_op : Bytes → Bytes → WriteOp
  delete_op : Bytes → WriteOp

unfoldable pub put_ops : List KeyValueItem → List WriteOp
put_ops [] = []
put_ops ((k, v) ∷ items) = put_op k v ∷ put_ops items

-- what an operation leaves at a key, where it touches the key
abbrev pub effect : Bytes → WriteOp → Option (Option Bytes)
effect j (put_op k v) = if bytes_eq k j then some (some v) else none
effect j (delete_op k) = if bytes_eq k j then some none else none

-- what a batch leaves at a key: the last operation decides
unfoldable pub last_write : Bytes → List WriteOp → Option (Option Bytes)
last_write j [] = none
last_write j (op ∷ ops) = elim (last_write j ops) [ some o ↦ some o | none ↦ effect j op ]

abbrev pub written : Option Bytes → Option (Option Bytes) → Option Bytes
written before none = before
written before (some o) = o

pub record RocksDb (Db : Type 0) : Type 0 where
  pub get : Bytes → Db → Option Bytes
  pub put : Bytes → Bytes → Db → Db
  pub delete : Bytes → Db → Db
  pub write : List WriteOp → Db → Db
  pub entries_from : Bytes → Db → List KeyValueItem

-- Every key of the list is larger than the one before.
abbrev pub IsOrdered : List KeyValueItem → Type 0
IsOrdered [] = Unit
IsOrdered (e ∷ es) = All (λ (f : KeyValueItem). bytes_lt e.0 f.0 ≡ true) es × IsOrdered es

-- Every write is visible to later reads of its key, and to no other.
pub record IsStore (Db : Type 0) (rocks : RocksDb Db) : Type 0 where
  pub get_put :
      (k v j : Bytes) (d : Db)
      → rocks.get j (rocks.put k v d) ≡ (if bytes_eq k j then some v else rocks.get j d)
  pub get_delete :
      (k j : Bytes) (d : Db)
      → rocks.get j (rocks.delete k d) ≡ (if bytes_eq k j then none else rocks.get j d)
  pub get_write :
      (ops : List WriteOp) (j : Bytes) (d : Db)
      → rocks.get j (rocks.write ops d) ≡ written (rocks.get j d) (last_write j ops)

-- An iterator lists the entries from its start on, each once and in order.
pub record IsIterable (Db : Type 0) (rocks : RocksDb Db) : Type 0 where
  pub entries_ordered : (k : Bytes) (d : Db) → IsOrdered (rocks.entries_from k d)
  pub entries_all :
      (k j v : Bytes) (d : Db)
      → In (j, v) (rocks.entries_from k d) ↔ ((rocks.get j d ≡ some v) × (bytes_lt j k ≡ false))
