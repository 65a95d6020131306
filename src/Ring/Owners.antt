-- ===== src/Ring/Owners.antt =====
-- `AddNode` keeps the ring well formed and moves keys to the new node only.
use mathlib.Core.Path.{subst}
use native.Mathlib.Decide.{dec_lt}
use rockskv.Prelude.{
  leb, ◌==◌, if_false, Bool-cases, length, get_or, In, All, All-append, ℕ, zero, suc, ◌+◌, ◌^◌, ◌≤◌,
  ◌<◌, ◌≡◌, refl, sym, ap, ◌∙◌, ◌↔◌, ◌⊎◌, inl, inr, some, List, [], ◌∷◌, ◌++◌, arith,
}
use rockskv.Prelude.Dict.{Dict, lookup, insert, lookup-insert}
use rockskv.Bytes.{Bytes}
use rockskv.Crc.{checksum_ieee-lt}
use rockskv.Ring.{
  ConsistentHash, new_consistent_hash, decimal, hash, virtual_node_hash, has_node, insert_sorted,
  sort_ring, virtual_hashes, claim, add_node, owner, search, get_node,
}
use rockskv.Ring.Search.{IsSorted, IsNext, All-In, search-IsNext, IsNext-unique}

-- The ring is sorted, its hashes have 32 bits, and every hash belongs to a node of the set.
pub record IsRing (ch : ConsistentHash) : Type 0 where
  pub sorted : IsSorted ch.ring
  pub small : All (λ x. x < 2 ^ 32) ch.ring
  pub owned : (h : ℕ) → In h ch.ring → (a : Bytes) × (lookup h ch.node_map ≡ some a) × In a ch.nodes

pub new-IsRing : (virtual_nodes : ℕ) → IsRing (new_consistent_hash virtual_nodes)
unfolding new_consistent_hash
new-IsRing n = record { sorted = tt; small = tt; owned = λ h i. elim i [ ] }

In-insert_sorted : (h y : ℕ) (xs : List ℕ) → In y (insert_sorted h xs) ↔ ((h ≡ y) ⊎ In y xs)
unfolding insert_sorted
In-insert_sorted h y [] = (λ i. i, λ i. i)
In-insert_sorted h y (x ∷ xs) =
    let (deep, up) = In-insert_sorted h y xs in
    elim (Bool-cases (leb h x)) [
      | inl e ↦ rw e (λ i. i, λ i. i)
      | inr e ↦ rw e (
        λ i. elim i [
          | inl q ↦ inr (inl q)
          | inr j ↦ elim (deep j) [ inl q ↦ inl q | inr k ↦ inr (inr k) ]
        ],
        λ i. elim i [
          | inl q ↦ inr (up (inl q))
          | inr (inl q) ↦ inl q
          | inr (inr k) ↦ inr (up (inr k))
        ],
      )
    ]

In-sort_ring : (y : ℕ) (xs : List ℕ) → In y (sort_ring xs) ↔ In y xs
unfolding sort_ring
In-sort_ring y [] = (λ i. i, λ i. i)
In-sort_ring y (x ∷ xs) =
    let (out, back) = In-insert_sorted x y (sort_ring xs) in
    let (deep, up) = In-sort_ring y xs in
    (
      λ i. elim (out i) [ inl e ↦ inl e | inr j ↦ inr (deep j) ],
      λ i. back (elim i [ inl e ↦ inl e | inr j ↦ inr (up j) ]),
    )

In-append : (y : ℕ) (xs ys : List ℕ) → In y (xs ++ ys) ↔ (In y xs ⊎ In y ys)
In-append y [] ys = (λ i. inr i, λ i. elim i [ inl e ↦ absurd e | inr j ↦ j ])
In-append y (x ∷ xs) ys =
    let (deep, up) = In-append y xs ys in
    (
      λ i. elim i [
        | inl e ↦ inl (inl e)
        | inr j ↦ elim (deep j) [ inl k ↦ inl (inr k) | inr k ↦ inr k ]
      ],
      λ i. elim i [
        | inl (inl e) ↦ inl e
        | inl (inr k) ↦ inr (up (inl k))
        | inr k ↦ inr (up (inr k))
      ],
    )

pub All-of_In : (P : ℕ → Type 0) (xs : List ℕ) → ((y : ℕ) → In y xs → P y) → All P xs
All-of_In P [] f = tt
All-of_In P (x ∷ xs) f = (f x (inl refl), All-of_In P xs (λ y i. f y (inr i)))

insert_sorted-IsSorted : (h : ℕ) (xs : List ℕ) → IsSorted xs → IsSorted (insert_sorted h xs)
unfolding insert_sorted
insert_sorted-IsSorted h [] s = (tt, tt)
insert_sorted-IsSorted h (x ∷ xs) s = elim (Bool-cases (leb h x)) [
  | inl e ↦ rw e (
    (
      ground arith,
      All-of_In (λ y. h ≤ y) xs (λ y i. let above = All-In (λ z. x ≤ z) xs y s.0 i in ground arith),
    ),
    s,
  )
  | inr e ↦ rw e (
    All-of_In (λ y. x ≤ y) (insert_sorted h xs)
        (λ y i. elim ((In-insert_sorted h y xs).0 i) [
          | inl q ↦ ground arith
          | inr j ↦ All-In (λ z. x ≤ z) xs y s.0 j
        ]),
    insert_sorted-IsSorted h xs s.1,
  )
]

pub sort_ring-IsSorted : (xs : List ℕ) → IsSorted (sort_ring xs)
unfolding sort_ring
sort_ring-IsSorted [] = tt
sort_ring-IsSorted (x ∷ xs) = insert_sorted-IsSorted x (sort_ring xs) (sort_ring-IsSorted xs)

virtual_hashes-small : (k i : ℕ) (addr : Bytes) → All (λ x. x < 2 ^ 32) (virtual_hashes k i addr)
unfolding virtual_hashes virtual_node_hash
virtual_hashes-small zero i addr = tt
virtual_hashes-small (suc k) i addr =
    (checksum_ieee-lt (addr ++ (b'#' ∷ decimal i)), virtual_hashes-small k (i + 1) addr)

-- a claimed hash belongs to the claimer, any other to its old owner
lookup-claim :
    (addr : Bytes) (hs : List ℕ) (m : Dict Bytes) (h : ℕ)
    → (lookup h (claim addr hs m) ≡ some addr)
      ⊎ ((lookup h (claim addr hs m) ≡ lookup h m) × ¬ In h hs)
unfolding claim
lookup-claim addr [] m h = inr (refl, λ i. i)
lookup-claim addr (x ∷ hs) m h = elim (lookup-claim addr hs (insert x addr m) h) [
  | inl e ↦ inl e
  | inr (e, fresh) ↦ elim (Bool-cases (x == h)) [
    | inl same ↦ inl (e ∙ lookup-insert x h addr m ∙ rw same)
    | inr other ↦ inr (
      e ∙ lookup-insert x h addr m ∙ rw other,
      λ i. elim i [ inl q ↦ ground arith | inr j ↦ fresh j ],
    )
  ]
]

-- `AddNode` of any address keeps a well-formed ring well formed, also where hashes collide.
pub add_node-IsRing : (addr : Bytes) (ch : ConsistentHash) → IsRing ch → IsRing (add_node addr ch)
unfolding add_node
add_node-IsRing addr ch r = elim (Bool-cases (has_node addr ch.nodes)) [
  | inl there ↦ rw there r
  | inr fresh ↦ rw fresh (record {
    sorted = sort_ring-IsSorted (ch.ring ++ hashes);
    small =
        All-of_In (λ x. x < 2 ^ 32) _
          λ y i.
            All-In (λ x. x < 2 ^ 32) (ch.ring ++ hashes) y
              (All-append (λ x. x < 2 ^ 32) ch.ring hashes r.small
                (virtual_hashes-small ch.virtual_nodes 0 addr))
              ((In-sort_ring y (ch.ring ++ hashes)).0 i);
    owned = λ h i. elim (lookup-claim addr hashes ch.node_map h) [
      | inl e ↦ (addr, e, inl refl)
      | inr (e, free) ↦
          elim ((In-append h ch.ring hashes).0 ((In-sort_ring h (ch.ring ++ hashes)).0 i)) [
            | inl old ↦ let (a, q, n) = r.owned h old in (a, e ∙ q, inr n)
            | inr new ↦ absurd (free new)
          ]
    ];
  })
]
  where
    hashes : List ℕ
    hashes = virtual_hashes ch.virtual_nodes 0 addr

pub hash-lt : (key : Bytes) → hash key < 2 ^ 32
unfolding hash
hash-lt key = checksum_ieee-lt key

pub IsNext-sub :
    (h x : ℕ) (xs ys : List ℕ)
    → ((y : ℕ) → In y xs → In y ys)
    → IsNext h x ys
    → In x xs
    → IsNext h x xs
IsNext-sub h x xs ys sub n i = record { member = i; first = λ y j. n.first y (sub y j) }

In-pos : (xs : List ℕ) (y : ℕ) → In y xs → 0 < length xs
In-pos [] y i = elim i [ ]
In-pos (x ∷ xs) y i = omega arith

-- the node of a key, by the hash that is next
get_node-next :
    (key : Bytes) (ch : ConsistentHash) (x : ℕ)
    → IsRing ch
    → IsNext (hash key) x ch.ring
    → get_node key ch ≡ owner ch.node_map x
unfolding get_node
get_node-next key ch x r n =
    let pos : 0 < length ch.ring = In-pos ch.ring x n.member in
    let (in_range, found) = search-IsNext (hash key) ch.ring r.sorted r.small (hash-lt key) pos in
    let same =
      IsNext-unique (hash key) (get_or ch.ring (search (hash key) ch.ring) 0) x ch.ring
        (hash-lt key) (All-In (λ z. z < 2 ^ 32) ch.ring _ r.small found.member)
        (All-In (λ z. z < 2 ^ 32) ch.ring x r.small n.member) found n in
    if_false (length ch.ring == 0) [] _ (ground arith) ∙ ap (owner ch.node_map) same

get_node-empty : (key : Bytes) (ch : ConsistentHash) → length ch.ring ≡ 0 → get_node key ch ≡ []
unfolding get_node
get_node-empty key ch e = ground arith

pub owner_of_lookup : (m : Dict Bytes) (h : ℕ) (a : Bytes) → lookup h m ≡ some a → owner m h ≡ a
unfolding owner
owner_of_lookup m h a e = rw (e, owner)

owner_congr : (m n : Dict Bytes) (h : ℕ) → lookup h m ≡ lookup h n → owner m h ≡ owner n h
unfolding owner
owner_congr m n h e = rw (e, owner)

-- Adding a node to a well-formed ring moves no key between the nodes that were there: afterwards a
-- key belongs to the new node or to the node it belonged to before.
pub get_node-add_node :
    (addr key : Bytes) (ch : ConsistentHash)
    → IsRing ch
    → (get_node key (add_node addr ch) ≡ addr) ⊎ (get_node key (add_node addr ch) ≡ get_node key ch)
get_node-add_node addr key ch r = elim (Bool-cases (has_node addr ch.nodes)) [
  | inl there ↦ inr (ap (get_node key) (unfold add_node in rw there))
  | inr fresh ↦
      let same : add_node addr ch ≡ after = unfold add_node in rw fresh in
      rw same (moved (subst IsRing same (add_node-IsRing addr ch r)))
]
  where
    hashes : List ℕ
    hashes = virtual_hashes ch.virtual_nodes 0 addr

    after : ConsistentHash
    after = record ch {
      nodes = addr ∷ ch.nodes;
      ring = sort_ring (ch.ring ++ hashes);
      node_map = claim addr hashes ch.node_map;
    }

    into : (y : ℕ) → In y ch.ring → In y after.ring
    into y i = (In-sort_ring y (ch.ring ++ hashes)).1 ((In-append y ch.ring hashes).1 (inl i))

    at :
        IsRing after
        → (x : ℕ) → IsNext (hash key) x after.ring
        → (get_node key after ≡ addr) ⊎ (get_node key after ≡ get_node key ch)
    at r' x n = elim (lookup-claim addr hashes ch.node_map x) [
      | inl e ↦ inl (get_node-next key after x r' n ∙ owner_of_lookup after.node_map x addr e)
      | inr (e, free) ↦
          elim ((In-append x ch.ring hashes).0 ((In-sort_ring x (ch.ring ++ hashes)).0 n.member)) [
            | inl old ↦ inr (
                get_node-next key after x r' n
                ∙ owner_congr after.node_map ch.node_map x e
                ∙ sym (
                    get_node-next key ch x r
                      (IsNext-sub (hash key) x ch.ring after.ring into n old)))
            | inr new ↦ absurd (free new)
          ]
    ]

    nothing :
        length after.ring ≡ 0
        → (xs : List ℕ) → ((y : ℕ) → In y xs → In y after.ring)
        → length xs ≡ 0
    nothing e [] f = refl
    nothing e (x ∷ xs) f = absurd (omega (arith, In-pos after.ring x (f x (inl refl))))

    moved : IsRing after → (get_node key after ≡ addr) ⊎ (get_node key after ≡ get_node key ch)
    moved r' = elim (dec_lt 0 (length after.ring)) [
      | yes pos ↦
          at r' _ (search-IsNext (hash key) after.ring r'.sorted r'.small (hash-lt key) pos).1
      | no empty ↦ inr (
          get_node-empty key after (omega arith)
          ∙ sym (get_node-empty key ch (nothing (omega arith) ch.ring into)))
    ]
