-- ===== src/Server/Moved.antt =====
-- What a reader finds at the target of a transfer, key by key.
use rockskv.Rocks.Order.{bytes_lt_self}
use rockskv.Server.Entries.{
  value_at, as_write, last_write-put_ops, value_at-take_range, take_range-IsOrdered,
}
use rockskv.Server.Transferred.{below, exported_items, ingest_sst-export_sst}
use mathlib.Core.Path.{subst}
use rockskv.Prelude.{
  ◌==◌, if◌then◌else◌, if_true, if_false, Bool-cases, In, All, ℕ, ◌+◌, ◌^◌, ◌<◌, ◌≡◌, refl, sym, ap,
  ◌∙◌, inl, inr, Bool, true, false, Option, none, some, List, [], ◌∷◌, arith,
}
use rockskv.Bytes.{Bytes, bytes_eq, bytes_eq_iff, bytes_lt}
use rockskv.Rocks.{KeyValueItem, written, RocksDb, IsOrdered, IsIterable}
use rockskv.Keys.{make_partition_key, get_partition_range}
use rockskv.Keys.Ranges.{below_start, below_whole_end}
use rockskv.Partitions.{has_partition}
use rockskv.Server.{Server}
use rockskv.Server.Transfer.{SstFiles, IsSst, SstChunk, export_sst, ingest_sst}

value_at-In : (j v : Bytes) (es : List KeyValueItem) → value_at j es ≡ some v → In (j, v) es
value_at-In j v [] h = cc
value_at-In j v ((k, w) ∷ es) h = elim (Bool-cases (bytes_eq k j)) [
  | inl same ↦ inl (entry same (sym (if_true _ (some w) _ same) ∙ h))
  | inr other ↦ inr (value_at-In j v es (sym (if_false _ _ _ other) ∙ h))
]
  where
    pair : k ≡ j → w ≡ v → ◌≡◌ {A = KeyValueItem} (k, w) (j, v)
    pair e f = cc

    entry : bytes_eq k j ≡ true → some w ≡ some v → ◌≡◌ {A = KeyValueItem} (k, w) (j, v)
    entry same e = pair ((bytes_eq_iff k j).0 same) cc

In-above :
    (j v k : Bytes) (es : List KeyValueItem)
    → All (λ (f : KeyValueItem). bytes_lt k f.0 ≡ true) es
    → In (j, v) es
    → bytes_lt k j ≡ true
In-above j v k [] h x = elim x [ ]
In-above j v k (e ∷ es) h (inl same) = subst (λ (f : KeyValueItem). bytes_lt k f.0 ≡ true) same h.0
In-above j v k (e ∷ es) h (inr later) = In-above j v k es h.1 later

In-value_at :
    (j v : Bytes) (es : List KeyValueItem) → IsOrdered es → In (j, v) es → value_at j es ≡ some v
In-value_at j v [] h x = elim x [ ]
In-value_at j v (e ∷ es) h (inl same) =
    let key : e.0 ≡ j = ap (λ (f : KeyValueItem). f.0) same in
    let value : e.1 ≡ v = ap (λ (f : KeyValueItem). f.1) same in
    if_true _ _ _ ((bytes_eq_iff e.0 j).1 key) ∙ ap some value
In-value_at j v (e ∷ es) h (inr later) =
    let above = In-above j v e.0 es h.0 later in
    if_false (bytes_eq e.0 j) (some e.1) (value_at j es)
      (ground (arith, bytes_eq_iff e.0 j, bytes_lt_self j, above))
    ∙ In-value_at j v es h.1 later

module _ {Db : Type 0} (rocks : RocksDb Db) (iter : IsIterable Db rocks) where
  value_at-entries_from :
      (j start : Bytes) (d : Db)
      → value_at j (rocks.entries_from start d) ≡ (if bytes_lt j start then none else rocks.get j d)
  value_at-entries_from j start d =
      go (value_at j (rocks.entries_from start d)) (rocks.get j d)
        (λ v h. (iter.entries_all start j v d).0 (value_at-In j v (rocks.entries_from start d) h))
        (λ v h before.
          In-value_at j v (rocks.entries_from start d) (iter.entries_ordered start d)
            ((iter.entries_all start j v d).1 (h, before)))
    where
      go :
          (found got : Option Bytes)
          → ((v : Bytes) → found ≡ some v → (got ≡ some v) × (bytes_lt j start ≡ false))
          → ((v : Bytes) → got ≡ some v → bytes_lt j start ≡ false → found ≡ some v)
          → found ≡ (if bytes_lt j start then none else got)
      go (some v) got listed whole =
          let (same, below) = listed v refl in sym (if_false _ none got below ∙ same)
      go none none listed whole = elim (Bool-cases (bytes_lt j start)) [
        | inl h ↦ rw h refl
        | inr h ↦ rw h refl
      ]
      go none (some w) listed whole = elim (Bool-cases (bytes_lt j start)) [
        | inl h ↦ rw h refl
        | inr h ↦ rw h (whole w refl h)
      ]

-- The value at the source, or else what the target had.
abbrev pub or_own : Option Bytes → Option Bytes → Option Bytes
or_own (some v) own = some v
or_own none own = own

written-as_write : (own found : Option Bytes) → written own (as_write found) ≡ or_own found own
written-as_write own none = refl
written-as_write own (some v) = refl

exported-value_at :
    {Db : Type 0} (rocks : RocksDb Db) (iter : IsIterable Db rocks) (p q : ℕ) (key : Bytes) (d : Db)
    → p + 1 < 2 ^ 32
    → q < 2 ^ 32
    → value_at (make_partition_key q key) (exported_items rocks p d)
      ≡ (if q == p then rocks.get (make_partition_key q key) d else none)
exported-value_at rocks iter p q key d hp hq =
    let (start, end) = get_partition_range p in
    let j = make_partition_key q key in
    value_at-take_range j end (rocks.entries_from start d) (iter.entries_ordered start d)
    ∙ rw
        (
          value_at-entries_from rocks iter j start d,
          below_whole_end p q key hp hq,
          below_start p q key (omega arith) hq,
        )
        (ground arith)

-- A node that receives all chunks of the successful export of a partition from a node that hosts it
-- reads every key of this partition as the source does, and where the source has none, as it did
-- before; and every key of another partition as it did before (32-bit ids, the exported one not the
-- last of them; over a database with the laws of an iterator and files with the laws of IsSst).
pub get-ingest_sst :
    {Db : Type 0} (rocks : RocksDb Db) (iter : IsIterable Db rocks) (sst : SstFiles Db)
    (laws : IsSst Db rocks sst) (p q : ℕ) (s t : Server Db)
    → p + 1 < 2 ^ 32
    → q < 2 ^ 32
    → has_partition p s.partition_manager ≡ true
    → (chunks : List SstChunk) × ((export_sst rocks sst true p s).1 ≡ some chunks)
      × (let after = ingest_sst rocks sst chunks 0 [] t in
          (after.1 ≡ true)
          × ((key : Bytes)
              → let j = make_partition_key q key in
                rocks.get j after.0.db ≡ (
                  if q == p
                  then or_own (rocks.get j s.db) (rocks.get j t.db)
                  else rocks.get j t.db)))
get-ingest_sst rocks iter sst laws p q s t hp hq h =
    let (chunks, sent, (done, wrote)) = ingest_sst-export_sst rocks sst laws p s t h in
    let items = exported_items rocks p s.db in
    let ordered =
      take_range-IsOrdered (get_partition_range p).1
        (rocks.entries_from (get_partition_range p).0 s.db)
        (iter.entries_ordered (get_partition_range p).0 s.db) in
    (
      chunks,
      sent,
      (
        done,
        λ key.
            let j = make_partition_key q key in
            wrote j
            ∙ ap (written (rocks.get j t.db)) (last_write-put_ops j items ordered)
            ∙ written-as_write (rocks.get j t.db) (value_at j items)
            ∙ ap (λ o. or_own o (rocks.get j t.db))
                (exported-value_at rocks iter p q key s.db hp hq)
            ∙ own_else (q == p) (rocks.get j s.db) (rocks.get j t.db),
      ),
    )
  where
    own_else :
        (b : Bool) (found own : Option Bytes)
        → or_own (if b then found else none) own ≡ (if b then or_own found own else own)
    own_else true found own = refl
    own_else false found own = refl
