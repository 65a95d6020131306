-- ===== src/Rocks/Iterator.antt =====
-- The database in memory has the laws of an iterator.
use mathlib.Core.Path.{subst}
use rockskv.Prelude.{
  if◌then◌else◌, if_true, if_false, Bool-cases, In, All, ◌≡◌, refl, sym, ap, ◌∙◌, ◌⊎◌, inl, inr,
  true, false, Option, none, some, List, [], ◌∷◌,
}
use rockskv.Bytes.{Bytes, bytes_eq, bytes_eq_iff, bytes_lt}
use rockskv.Rocks.{KeyValueItem, IsOrdered, IsIterable}
use rockskv.Rocks.LogDb.{Writes, get_last, insert_key, written_keys, live_entries, log_db}
use rockskv.Rocks.Order.{bytes_lt_trans, bytes_lt_total}

abbrev IsSorted : List Bytes → Type 0
IsSorted [] = Unit
IsSorted (k ∷ ks) = All (λ (j : Bytes). bytes_lt k j ≡ true) ks × IsSorted ks

insert_key-All :
    (P : Bytes → Type 0) (k : Bytes) (ks : List Bytes) → P k → All P ks → All P (insert_key k ks)
insert_key-All P k [] p h = (p, tt)
insert_key-All P k (j ∷ js) p h = elim (Bool-cases (bytes_eq k j)) [
  | inl e ↦ rw e h
  | inr e ↦ elim (Bool-cases (bytes_lt k j)) [
    | inl f ↦ rw (e, f) (p, h)
    | inr f ↦ rw (e, f) (h.0, insert_key-All P k js p h.1)
  ]
]

above-All :
    (k j : Bytes) (js : List Bytes)
    → bytes_lt k j ≡ true
    → All (λ (i : Bytes). bytes_lt j i ≡ true) js
    → All (λ (i : Bytes). bytes_lt k i ≡ true) js
above-All k j [] h hs = tt
above-All k j (i ∷ is) h hs = (bytes_lt_trans k j i h hs.0, above-All k j is h hs.1)

insert_key-IsSorted : (k : Bytes) (ks : List Bytes) → IsSorted ks → IsSorted (insert_key k ks)
insert_key-IsSorted k [] h = (tt, tt)
insert_key-IsSorted k (j ∷ js) h = elim (Bool-cases (bytes_eq k j)) [
  | inl e ↦ rw e h
  | inr e ↦ elim (Bool-cases (bytes_lt k j)) [
    | inl f ↦ rw (e, f) ((f, above-All k j js f h.0), h)
    | inr f ↦
        rw (e, f) (insert_key-All _ k js (bytes_lt_total k j f e) h.0, insert_key-IsSorted k js h.1)
  ]
]

written_keys-IsSorted : (d : Writes) → IsSorted (written_keys d)
written_keys-IsSorted [] = tt
written_keys-IsSorted ((k, o) ∷ d) =
    insert_key-IsSorted k (written_keys d) (written_keys-IsSorted d)

In-here : (k : Bytes) (ks : List Bytes) → In k (insert_key k ks)
In-here k [] = inl refl
In-here k (j ∷ js) = elim (Bool-cases (bytes_eq k j)) [
  | inl e ↦ rw e (inl (sym ((bytes_eq_iff k j).0 e)))
  | inr e ↦ elim (Bool-cases (bytes_lt k j)) [
    | inl f ↦ rw (e, f) (inl refl)
    | inr f ↦ rw (e, f) (inr (In-here k js))
  ]
]

In-kept : (i k : Bytes) (ks : List Bytes) → In i ks → In i (insert_key k ks)
In-kept i k [] h = elim h [ ]
In-kept i k (j ∷ js) h = elim (Bool-cases (bytes_eq k j)) [
  | inl e ↦ rw e h
  | inr e ↦ elim (Bool-cases (bytes_lt k j)) [
    | inl f ↦ rw (e, f) (inr h)
    | inr f ↦ rw (e, f) (elim h [ inl same ↦ inl same | inr later ↦ inr (In-kept i k js later) ])
  ]
]

In-written_keys : (j v : Bytes) (d : Writes) → get_last j d ≡ some v → In j (written_keys d)
In-written_keys j v [] h = cc
In-written_keys j v ((k, o) ∷ d) h = elim (Bool-cases (bytes_eq k j)) [
  | inl e ↦
      subst (λ (i : Bytes). In i (insert_key k (written_keys d))) ((bytes_eq_iff k j).0 e)
        (In-here k (written_keys d))
  | inr e ↦
      In-kept j k (written_keys d)
        (In-written_keys j v d (sym (if_false (bytes_eq k j) o (get_last j d) e) ∙ h))
]

-- what a key adds to the entries
abbrev add_live : Bytes → Bytes → Option Bytes → List KeyValueItem → List KeyValueItem
add_live start k none rest = rest
add_live start k (some v) rest = if bytes_lt k start then rest else (k, v) ∷ rest

live-cons :
    (start : Bytes) (d : Writes) (k : Bytes) (ks : List Bytes)
    → live_entries start d (k ∷ ks) ≡ add_live start k (get_last k d) (live_entries start d ks)
live-cons start d k ks = cases (get_last k d)
  where
    cases :
        (o : Option Bytes)
        → elim o as (λ _. List KeyValueItem) [
          | none ↦ live_entries start d ks
          | some v ↦
              if bytes_lt k start then live_entries start d ks else (k, v) ∷ live_entries start d ks
        ]
          ≡ add_live start k o (live_entries start d ks)
    cases none = refl
    cases (some v) = refl

add_live-All :
    (P : KeyValueItem → Type 0) (start k : Bytes) (o : Option Bytes) (rest : List KeyValueItem)
    → ((v : Bytes) → P (k, v))
    → All P rest
    → All P (add_live start k o rest)
add_live-All P start k none rest p h = h
add_live-All P start k (some v) rest p h = elim (Bool-cases (bytes_lt k start)) [
  | inl e ↦ rw e h
  | inr e ↦ rw e (p v, h)
]

live-All :
    (start i : Bytes) (d : Writes) (ks : List Bytes)
    → All (λ (j : Bytes). bytes_lt i j ≡ true) ks
    → All (λ (f : KeyValueItem). bytes_lt i f.0 ≡ true) (live_entries start d ks)
live-All start i d [] h = tt
live-All start i d (k ∷ ks) h =
    subst (All (λ (f : KeyValueItem). bytes_lt i f.0 ≡ true)) (sym (live-cons start d k ks)) (
      add_live-All _ start k (get_last k d) (live_entries start d ks) (λ v. h.0)
        (live-All start i d ks h.1))

live-IsOrdered :
    (start : Bytes) (d : Writes) (ks : List Bytes)
    → IsSorted ks
    → IsOrdered (live_entries start d ks)
live-IsOrdered start d [] h = tt
live-IsOrdered start d (k ∷ ks) h =
    subst IsOrdered (sym (live-cons start d k ks))
      (add (get_last k d) (live-IsOrdered start d ks h.1))
  where
    add :
        (o : Option Bytes)
        → IsOrdered (live_entries start d ks)
        → IsOrdered (add_live start k o (live_entries start d ks))
    add none rest = rest
    add (some v) rest = elim (Bool-cases (bytes_lt k start)) [
      | inl e ↦ rw e rest
      | inr e ↦ rw e (live-All start k d ks h.0, rest)
    ]

add_live-In :
    (j v start k : Bytes) (o : Option Bytes) (rest : List KeyValueItem)
    → In (j, v) (add_live start k o rest)
    → ((k ≡ j) × (o ≡ some v) × (bytes_lt k start ≡ false)) ⊎ In (j, v) rest
add_live-In j v start k none rest h = inr h
add_live-In j v start k (some w) rest h = elim (Bool-cases (bytes_lt k start)) [
  | inl e ↦ inr (subst (In (j, v)) (if_true (bytes_lt k start) rest ((k, w) ∷ rest) e) h)
  | inr e ↦ elim (subst (In (j, v)) (if_false (bytes_lt k start) rest ((k, w) ∷ rest) e) h) [
    | inl same ↦
        inl (ap (λ (f : KeyValueItem). f.0) same, ap (λ (f : KeyValueItem). some f.1) same, e)
    | inr later ↦ inr later
  ]
]

In-live :
    (j v start : Bytes) (d : Writes) (ks : List Bytes)
    → In (j, v) (live_entries start d ks)
    → (get_last j d ≡ some v) × (bytes_lt j start ≡ false)
In-live j v start d [] h = elim h [ ]
In-live j v start d (k ∷ ks) h =
    elim (add_live-In j v start k (get_last k d) (live_entries start d ks)
      (subst (In (j, v)) (live-cons start d k ks) h)) [
        | inl (same, found, e) ↦ (
          ap (λ (i : Bytes). get_last i d) (sym same) ∙ found,
          ap (λ (i : Bytes). bytes_lt i start) (sym same) ∙ e,
        )
        | inr later ↦ In-live j v start d ks later
      ]

In-add_live :
    (j v start k : Bytes) (o : Option Bytes) (rest : List KeyValueItem)
    → ((k ≡ j) × (o ≡ some v) × (bytes_lt k start ≡ false)) ⊎ In (j, v) rest
    → In (j, v) (add_live start k o rest)
In-add_live j v start k none rest (inl (same, found, e)) = cc
In-add_live j v start k (some w) rest (inl (same, found, e)) = rw e (inl (pair found))
  where
    pair : some w ≡ some v → ◌≡◌ {A = KeyValueItem} (k, w) (j, v)
    pair f = cc
In-add_live j v start k none rest (inr h) = h
In-add_live j v start k (some w) rest (inr h) = elim (Bool-cases (bytes_lt k start)) [
  | inl e ↦ rw e h
  | inr e ↦ rw e (inr h)
]

live-In :
    (j v start : Bytes) (d : Writes) (ks : List Bytes)
    → In j ks
    → get_last j d ≡ some v
    → bytes_lt j start ≡ false
    → In (j, v) (live_entries start d ks)
live-In j v start d [] h found e = elim h [ ]
live-In j v start d (k ∷ ks) h found e = subst (In (j, v)) (sym (live-cons start d k ks)) (
    In-add_live j v start k (get_last k d) (live_entries start d ks)
      (here (λ later. live-In j v start d ks later found e) h))
  where
    here :
        (In j ks → In (j, v) (live_entries start d ks))
        → In j (k ∷ ks)
        → ((k ≡ j) × (get_last k d ≡ some v) × (bytes_lt k start ≡ false))
          ⊎ In (j, v) (live_entries start d ks)
    here ih (inl same) = inl (
      same,
      ap (λ (i : Bytes). get_last i d) same ∙ found,
      ap (λ (i : Bytes). bytes_lt i start) same ∙ e,
    )
    here ih (inr later) = inr (ih later)

pub log_db-IsIterable : IsIterable Writes log_db
log_db-IsIterable = record {
  entries_ordered = λ k d. live-IsOrdered k d (written_keys d) (written_keys-IsSorted d);
  entries_all = λ k j v d. (
    In-live j v k d (written_keys d),
    λ h. live-In j v k d (written_keys d) (In-written_keys j v d h.0) h.0 h.1,
  );
}
