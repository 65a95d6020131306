-- ===== src/Ring/Search.antt =====
-- The binary search finds the next hash clockwise.
use mathlib.Core.Path.{subst}
use rockskv.Prelude.{
  leb, if◌then◌else◌, if_true, if_false, Bool-cases, length, get_or, In, All, ℕ, zero, suc, ◌+◌,
  ◌-◌, ◌/◌, ◌^◌, ◌≤◌, ◌<◌, ◌≡◌, refl, ◌∙◌, ◌⊎◌, inl, inr, Bool, true, false, List, [], ◌∷◌, arith,
}
use rockskv.Ring.{bisect, sort_search, search}

abbrev pub IsSorted : List ℕ → Type 0
IsSorted [] = Unit
IsSorted (x ∷ xs) = All (λ y. x ≤ y) xs × IsSorted xs

-- The way from `h` to `x` around the circle of 32-bit hashes.
abbrev pub clockwise : ℕ → ℕ → ℕ
clockwise h x = if leb h x then x - h else x + 2 ^ 32 - h

-- No hash of the list comes sooner than `x` on the way around from `h`.
pub record IsNext (h x : ℕ) (hashes : List ℕ) : Type 0 where
  pub member : In x hashes
  pub first : (y : ℕ) → In y hashes → clockwise h x ≤ clockwise h y

-- The binary search returns the point where its predicate turns from false to true.
bisect-split :
    (fuel : ℕ) (p : ℕ → Bool) (i j s n : ℕ)
    → j - i ≤ fuel
    → i ≤ s
    → s ≤ j
    → j ≤ n
    → ((k : ℕ) → k < s → p k ≡ false)
    → ((k : ℕ) → s ≤ k → k < n → p k ≡ true)
    → bisect fuel p i j ≡ s
unfolding bisect
bisect-split zero p i j s n f lo hi top below above = omega arith
bisect-split (suc fuel) p i j s n f lo hi top below above = ground (
  arith,
  below ((i + j) / 2),
  above ((i + j) / 2),
  bisect-split fuel p i ((i + j) / 2) s n,
  bisect-split fuel p ((i + j) / 2 + 1) j s n,
)

first_ge : ℕ → List ℕ → ℕ
first_ge h [] = 0
first_ge h (x ∷ xs) = if leb h x then 0 else suc (first_ge h xs)

first_ge-below :
    (h : ℕ) (ring : List ℕ) (k : ℕ) → k < first_ge h ring → leb h (get_or ring k 0) ≡ false
unfolding first_ge
first_ge-below h [] k lt = absurd (omega arith)
first_ge-below h (x ∷ xs) zero lt = ground arith
first_ge-below h (x ∷ xs) (suc k) lt = ground (arith, first_ge-below h xs k)

All-get_or : (P : ℕ → Type 0) (xs : List ℕ) (k : ℕ) → All P xs → k < length xs → P (get_or xs k 0)
All-get_or P [] k h lt = absurd (omega arith)
All-get_or P (x ∷ xs) zero h lt = h.0
All-get_or P (x ∷ xs) (suc k) h lt = All-get_or P xs k h.1 (omega arith)

first_ge-above :
    (h : ℕ) (ring : List ℕ) (k : ℕ)
    → IsSorted ring
    → first_ge h ring ≤ k
    → k < length ring
    → leb h (get_or ring k 0) ≡ true
unfolding first_ge
first_ge-above h [] k s le lt = absurd (omega arith)
first_ge-above h (x ∷ xs) zero s le lt = ground arith
first_ge-above h (x ∷ xs) (suc k) s le lt = elim (Bool-cases (leb h x)) [
  | inl here ↦
      let above : x ≤ get_or xs k 0 = All-get_or (λ y. x ≤ y) xs k s.0 (omega arith) in ground arith
  | inr later ↦ first_ge-above h xs k s.1 (ground arith) (omega arith)
]

first_ge-le : (h : ℕ) (ring : List ℕ) → first_ge h ring ≤ length ring
unfolding first_ge
first_ge-le h [] = omega arith
first_ge-le h (x ∷ xs) = ground (arith, first_ge-le h xs)

search_lem :
    (h : ℕ) (ring : List ℕ)
    → IsSorted ring
    → search h ring ≡ (if leb (length ring) (first_ge h ring) then 0 else first_ge h ring)
unfolding search sort_search
search_lem h ring s = rw (
    bisect-split (length ring) (λ i. leb h (get_or ring i 0)) 0 (length ring) (first_ge h ring)
      (length ring) (omega arith) (omega arith) (first_ge-le h ring) (omega arith)
      (first_ge-below h ring) (λ k le lt. first_ge-above h ring k s le lt))

In-get_or : (xs : List ℕ) (k : ℕ) → k < length xs → In (get_or xs k 0) xs
In-get_or [] k lt = absurd (omega arith)
In-get_or (x ∷ xs) zero lt = inl refl
In-get_or (x ∷ xs) (suc k) lt = inr (In-get_or xs k (omega arith))

pub All-In : (P : ℕ → Type 0) (xs : List ℕ) (y : ℕ) → All P xs → In y xs → P y
All-In P [] y h i = elim i [ ]
All-In P (x ∷ xs) y h (inl e) = subst P e h.0
All-In P (x ∷ xs) y h (inr i) = All-In P xs y h.1 i

-- the first hash from `h` on is below every other such hash
first_ge_least :
    (h : ℕ) (ring : List ℕ) (y : ℕ)
    → IsSorted ring
    → In y ring
    → (h ≤ y → get_or ring (first_ge h ring) 0 ≤ y) × (length ring ≤ first_ge h ring → y < h)
unfolding first_ge
first_ge_least h [] y s i = elim i [ ]
first_ge_least h (x ∷ xs) y s (inl e) = ground arith
first_ge_least h (x ∷ xs) y s (inr i) =
    let above : x ≤ y = All-In (λ z. x ≤ z) xs y s.0 i in
    ground (arith, first_ge_least h xs y s.1 i)

head_least : (ring : List ℕ) (y : ℕ) → IsSorted ring → In y ring → get_or ring 0 0 ≤ y
head_least [] y s i = elim i [ ]
head_least (x ∷ xs) y s (inl e) = omega arith
head_least (x ∷ xs) y s (inr i) = All-In (λ z. x ≤ z) xs y s.0 i

search-lt : (h : ℕ) (ring : List ℕ) → IsSorted ring → 0 < length ring → search h ring < length ring
search-lt h ring s pos = ground (arith, search_lem h ring s, first_ge-le h ring)

nearer :
    (h v y : ℕ)
    → h < 2 ^ 32
    → v < 2 ^ 32
    → y < 2 ^ 32
    → ((h ≤ v) × (h ≤ y → v ≤ y)) ⊎ ((v ≤ y) × (y < h))
    → clockwise h v ≤ clockwise h y
nearer h v y hh hv hy c = ground arith

-- On a sorted ring of 32-bit hashes that is not empty, the index that `search` returns is in range
-- and holds the next hash clockwise from the one that is looked for, round the end if need be.
pub search-IsNext :
    (h : ℕ) (ring : List ℕ)
    → IsSorted ring
    → All (λ x. x < 2 ^ 32) ring
    → h < 2 ^ 32
    → 0 < length ring
    → (search h ring < length ring) × IsNext h (get_or ring (search h ring) 0) ring
search-IsNext h ring s small hh pos = (
  in_range,
  record {
    member = In-get_or ring (search h ring) in_range;
    first = λ y i.
        nearer h (get_or ring (search h ring) 0) y hh
          (All-get_or (λ z. z < 2 ^ 32) ring (search h ring) small in_range)
          (All-In (λ z. z < 2 ^ 32) ring y small i) (way y i);
  },
)
  where
    in_range : search h ring < length ring
    in_range = search-lt h ring s pos

    way :
        (y : ℕ)
        → In y ring
        → ((h ≤ get_or ring (search h ring) 0) × (h ≤ y → get_or ring (search h ring) 0 ≤ y))
          ⊎ ((get_or ring (search h ring) 0 ≤ y) × (y < h))
    way y i = elim (Bool-cases (leb (length ring) (first_ge h ring))) [
      | inl wraps ↦
          rw (search_lem h ring s ∙ if_true _ 0 (first_ge h ring) wraps)
            (inr (head_least ring y s i, (first_ge_least h ring y s i).1 (ground arith)))
      | inr stays ↦ rw (search_lem h ring s ∙ if_false _ 0 (first_ge h ring) stays) (
          inl (
            ground (arith, first_ge-above h ring (first_ge h ring) s),
            (first_ge_least h ring y s i).0,
          ))
    ]

-- Of the 32-bit hashes one is next.
pub IsNext-unique :
    (h x y : ℕ) (hashes : List ℕ)
    → h < 2 ^ 32
    → x < 2 ^ 32
    → y < 2 ^ 32
    → IsNext h x hashes
    → IsNext h y hashes
    → x ≡ y
IsNext-unique h x y hashes hh hx hy p q =
    let there = p.first y q.member in
    let back = q.first x p.member in same h x y hh hx hy there back
  where
    same :
        (h x y : ℕ)
        → h < 2 ^ 32
        → x < 2 ^ 32
        → y < 2 ^ 32
        → clockwise h x ≤ clockwise h y
        → clockwise h y ≤ clockwise h x
        → x ≡ y
    same h x y hh hx hy there back = ground arith
