-- ===== src/Server/Entries.antt =====
-- Ordered lists of entries: the value that they hold for a key, and what an export takes of them.
use mathlib.Core.Path.{subst}
use rockskv.Prelude.{
  if◌then◌else◌, Bool-cases, All, ◌≡◌, refl, sym, ap, ◌∙◌, ◌↔◌, inl, inr, Bool, true, false, Option,
  none, some, List, [], ◌∷◌, arith,
}
use rockskv.Rocks.Order.{bytes_lt_trans, bytes_lt_self, bytes_lt_below}
use rockskv.Bytes.{Bytes, bytes_eq, bytes_eq_iff, bytes_lt}
use rockskv.Rocks.{KeyValueItem, put_ops, effect, last_write, IsOrdered, put_op}
use rockskv.Server.Transfer.{Comparison, compare_bytes, take_range, less, equal, greater}
use rockskv.Server.Transferred.{compare_bytes_lem}

-- the value of a key in a list of entries
abbrev pub value_at : Bytes → List KeyValueItem → Option Bytes
value_at j [] = none
value_at j (e ∷ es) = if bytes_eq e.0 j then some e.1 else value_at j es

abbrev pub as_write : Option Bytes → Option (Option Bytes)
as_write none = none
as_write (some v) = some (some v)

-- a key below all others is not among them
pub value_at-below :
    (j : Bytes) (es : List KeyValueItem)
    → All (λ (f : KeyValueItem). bytes_lt j f.0 ≡ true) es
    → value_at j es ≡ none
value_at-below j [] h = refl
value_at-below j (e ∷ es) h =
    ground (arith, bytes_eq_iff e.0 j, bytes_lt_self j, value_at-below j es, h.0, h.1)

pub last_write-put_ops :
    (j : Bytes) (es : List KeyValueItem)
    → IsOrdered es
    → last_write j (put_ops es) ≡ as_write (value_at j es)
unfolding last_write put_ops
last_write-put_ops j [] h = refl
last_write-put_ops j ((k, v) ∷ es) h =
    ap
      (λ (o : Option (Option Bytes)). elim o as (λ _. Option (Option Bytes)) [
        | some w ↦ some w
        | none ↦ effect j (put_op k v)
      ])
      (last_write-put_ops j es h.1)
    ∙ step (bytes_eq k j) (value_at j es) (λ same.
      ap (λ l. value_at l es) (sym ((bytes_eq_iff k j).0 same)) ∙ value_at-below k es h.0)
  where
    step :
        (b : Bool) (o : Option Bytes)
        → (b ≡ true → o ≡ none)
        → elim (as_write o) as (λ _. Option (Option Bytes)) [
          | some w ↦ some w
          | none ↦ if b then some (some v) else none
        ]
          ≡ as_write (if b then some v else o)
    step true none f = refl
    step true (some w) f = let none_there = f refl in cc
    step false none f = refl
    step false (some w) f = refl

-- the loop of the export by the order of the keys
take_range-cons :
    (end : Bytes) (e : KeyValueItem) (es : List KeyValueItem)
    → take_range end (e ∷ es) ≡ (if bytes_lt e.0 end then e ∷ take_range end es else [])
unfolding take_range
take_range-cons end (k, v) es = cases (compare_bytes k end) (compare_bytes_lem k end)
  where
    cases :
        (c : Comparison)
        → (c ≡ less) ↔ (bytes_lt k end ≡ true)
        → elim c as (λ _. List KeyValueItem) [
          | less ↦ (k, v) ∷ take_range end es
          | equal ↦ []
          | greater ↦ []
        ]
          ≡ (if bytes_lt k end then (k, v) ∷ take_range end es else [])
    cases less iff = rw (iff.0 refl) refl
    cases equal iff = ground (arith, iff)
    cases greater iff = ground (arith, iff)

below-All :
    (j k : Bytes) (es : List KeyValueItem)
    → bytes_lt j k ≡ true
    → All (λ (f : KeyValueItem). bytes_lt k f.0 ≡ true) es
    → All (λ (f : KeyValueItem). bytes_lt j f.0 ≡ true) es
below-All j k [] h hs = tt
below-All j k (e ∷ es) h hs = (bytes_lt_trans j k e.0 h hs.0, below-All j k es h hs.1)

pub value_at-take_range :
    (j end : Bytes) (es : List KeyValueItem)
    → IsOrdered es
    → value_at j (take_range end es) ≡ (if bytes_lt j end then value_at j es else none)
value_at-take_range j end [] h = unfold take_range in ground arith
value_at-take_range j end ((k, v) ∷ es) h =
    ap (value_at j) (take_range-cons end (k, v) es) ∙ elim (Bool-cases (bytes_lt k end)) [
      | inl kept ↦ rw (kept, value_at-take_range j end es h.1) (ground (arith, bytes_eq_iff k j))
      | inr over ↦ rw over (elim (Bool-cases (bytes_lt j end)) [
        | inl inside ↦ rw inside (beyond (bytes_lt_below j k end inside over))
        | inr outside ↦ rw outside refl
      ])
    ]
  where
    beyond : bytes_lt j k ≡ true → none ≡ (if bytes_eq k j then some v else value_at j es)
    beyond less_ =
        ground (
          arith,
          bytes_eq_iff k j,
          bytes_lt_self j,
          value_at-below j es (below-All j k es less_ h.0),
        )

take_range-All :
    (P : KeyValueItem → Type 0) (end : Bytes) (es : List KeyValueItem)
    → All P es
    → All P (take_range end es)
take_range-All P end [] h = unfold take_range in tt
take_range-All P end (e ∷ es) h =
    subst (All P) (sym (take_range-cons end e es)) (elim (Bool-cases (bytes_lt e.0 end)) [
      | inl kept ↦ rw kept (h.0, take_range-All P end es h.1)
      | inr over ↦ rw over tt
    ])

pub take_range-IsOrdered :
    (end : Bytes) (es : List KeyValueItem) → IsOrdered es → IsOrdered (take_range end es)
take_range-IsOrdered end [] h = unfold take_range in tt
take_range-IsOrdered end (e ∷ es) h =
    subst IsOrdered (sym (take_range-cons end e es)) (elim (Bool-cases (bytes_lt e.0 end)) [
      | inl kept ↦ rw kept (take_range-All _ end es h.0, take_range-IsOrdered end es h.1)
      | inr over ↦ rw over tt
    ])
