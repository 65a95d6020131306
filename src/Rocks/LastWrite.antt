-- ===== src/Rocks/LastWrite.antt =====
-- Batches of writes one behind the other, and single writes as batches.
use rockskv.Prelude.{
  Bool-cases, ◌≡◌, refl, sym, ap, ◌∙◌, inl, inr, Option, none, some, List, [], ◌∷◌, ◌++◌,
}
use rockskv.Bytes.{Bytes, bytes_eq}
use rockskv.Rocks.{WriteOp, effect, last_write, written, RocksDb, IsStore, put_op, delete_op}

-- a later write hides an earlier one
abbrev or_else : Option (Option Bytes) → Option (Option Bytes) → Option (Option Bytes)
or_else (some w) before = some w
or_else none before = before

or_else_assoc : (x y z : Option (Option Bytes)) → or_else (or_else x y) z ≡ or_else x (or_else y z)
or_else_assoc (some w) y z = refl
or_else_assoc none y z = refl

last_write-cons :
    (j : Bytes) (x : WriteOp) (xs : List WriteOp)
    → last_write j (x ∷ xs) ≡ or_else (last_write j xs) (effect j x)
unfolding last_write
last_write-cons j x xs = step (last_write j xs)
  where
    step :
        (o : Option (Option Bytes))
        → elim o as (λ _. Option (Option Bytes)) [ some w ↦ some w | none ↦ effect j x ]
          ≡ or_else o (effect j x)
    step none = refl
    step (some w) = refl

last_write-append :
    (j : Bytes) (xs ys : List WriteOp)
    → last_write j (xs ++ ys) ≡ or_else (last_write j ys) (last_write j xs)
last_write-append j [] ys = end (last_write j ys)
  where
    end : (o : Option (Option Bytes)) → o ≡ or_else o (last_write j [])
    end none = unfold last_write in refl
    end (some w) = refl
last_write-append j (x ∷ xs) ys =
    rw (last_write-cons j x (xs ++ ys), last_write-append j xs ys, last_write-cons j x xs)
      (or_else_assoc (last_write j ys) (last_write j xs) (effect j x))

written-or_else :
    (before : Option Bytes) (x y : Option (Option Bytes))
    → written before (or_else y x) ≡ written (written before x) y
written-or_else before x none = refl
written-or_else before x (some w) = refl

-- The data that a batch leaves, at every key.
abbrev pub IsWritten : {Db : Type 0} → RocksDb Db → List WriteOp → Db → Db → Type 0
IsWritten rocks ops before after =
    (j : Bytes) → rocks.get j after ≡ written (rocks.get j before) (last_write j ops)

-- two batches as one, where both are there
abbrev pub joined : Option (List WriteOp) → Option (List WriteOp) → Option (List WriteOp)
joined (some xs) (some ys) = some (xs ++ ys)
joined _ _ = none

pub some-injective : (xs ys : List WriteOp) → some xs ≡ some ys → xs ≡ ys
some-injective xs ys h = cc

pub joined-some :
    (x y : Option (List WriteOp)) (ops : List WriteOp)
    → joined x y ≡ some ops
    → (xs : List WriteOp) × (ys : List WriteOp) × (x ≡ some xs) × (y ≡ some ys) × (xs ++ ys ≡ ops)
joined-some (some xs) (some ys) ops h = (xs, ys, refl, refl, cc)
joined-some (some xs) none ops h = cc
joined-some none y ops h = cc

module _ {Db : Type 0} (rocks : RocksDb Db) where
  pub same-IsWritten :
      (xs ys : List WriteOp) (d after : Db)
      → xs ≡ ys
      → IsWritten rocks xs d after
      → IsWritten rocks ys d after
  same-IsWritten xs ys d after same reads j =
      reads j ∙ ap (λ l. written (rocks.get j d) (last_write j l)) same

  pub nothing-IsWritten : (d : Db) → IsWritten rocks [] d d
  unfolding last_write
  nothing-IsWritten d j = refl

  pub append-IsWritten :
      (xs ys : List WriteOp) (d e f : Db)
      → IsWritten rocks xs d e
      → IsWritten rocks ys e f
      → IsWritten rocks (xs ++ ys) d f
  append-IsWritten xs ys d e f hx hy j =
      hy j
      ∙ ap (λ b. written b (last_write j ys)) (hx j)
      ∙ sym (written-or_else (rocks.get j d) (last_write j xs) (last_write j ys))
      ∙ ap (written (rocks.get j d)) (sym (last_write-append j xs ys))

module _ {Db : Type 0} (rocks : RocksDb Db) (laws : IsStore Db rocks) where
  pub put-IsWritten :
      (key value : Bytes) (d : Db)
      → IsWritten rocks (put_op key value ∷ []) d (rocks.put key value d)
  unfolding last_write
  put-IsWritten key value d j =
      laws.get_put key value j d
      ∙ elim (Bool-cases (bytes_eq key j)) [ inl e ↦ rw e refl | inr e ↦ rw e refl ]

  pub delete-IsWritten :
      (key : Bytes) (d : Db) → IsWritten rocks (delete_op key ∷ []) d (rocks.delete key d)
  unfolding last_write
  delete-IsWritten key d j =
      laws.get_delete key j d
      ∙ elim (Bool-cases (bytes_eq key j)) [ inl e ↦ rw e refl | inr e ↦ rw e refl ]
