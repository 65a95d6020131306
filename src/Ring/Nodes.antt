-- ===== src/Ring/Nodes.antt =====
-- `GetNodes`: the primary and the replica of a partition.
use mathlib.Core.Path.{subst}
use native.Mathlib.Decide.{dec_lt, ℕ_discrete}
use native.Mathlib.Nat.{mod-eq_of_lt, add-mod_right, mod-lt}
use rockskv.Prelude.{
  ◌==◌, if_false, Bool-cases, length, get_or, In, ℕ, zero, suc, ◌+◌, ◌-◌, ◌%◌, ◌≤◌, ◌<◌, ◌≡◌, refl,
  sym, ap, ◌∙◌, ◌≢◌, ◌⊎◌, inl, inr, List, [], ◌∷◌, arith,
}
use rockskv.Bytes.{Bytes, bytes_eq, bytes_eq_iff}
use rockskv.Ring.{ConsistentHash, hash, owner, search, find_replica, partition_key, get_nodes}
use rockskv.Ring.Search.{search-IsNext}
use rockskv.Ring.Owners.{IsRing, hash-lt, owner_of_lookup}

abbrev owner_at : ConsistentHash → ℕ → Bytes
owner_at ch j = owner ch.node_map (get_or ch.ring j 0)

-- The loop either finds nothing, and every place that it looked at is the primary's, or it returns
-- the owner of a place, which is not the primary.
find_replica_lem :
    (k i idx : ℕ) (primary : Bytes) (ch : ConsistentHash)
    → ((find_replica k i idx primary ch ≡ [])
        × ((d : ℕ) → i ≤ d → d < i + k → owner_at ch ((idx + d) % length ch.ring) ≡ primary))
      ⊎ ((d : ℕ) × (find_replica k i idx primary ch ≡ owner_at ch ((idx + d) % length ch.ring))
          × (find_replica k i idx primary ch ≢ primary))
unfolding find_replica
find_replica_lem zero i idx primary ch = inl (refl, λ d lo hi. absurd (omega arith))
find_replica_lem (suc k) i idx primary ch =
    let here = owner_at ch ((idx + i) % length ch.ring) in
    elim (Bool-cases (bytes_eq here primary)) [
      | inl same ↦ rw same (elim (find_replica_lem k (i + 1) idx primary ch) [
        | inl (none_found, all) ↦ inl (
          none_found,
          λ d lo hi. elim (ℕ_discrete i d) [
            | yes e ↦
                ap (λ t. owner_at ch ((idx + t) % length ch.ring)) (sym e)
                ∙ (bytes_eq_iff here primary).0 same
            | no ne ↦ all d (omega arith) (omega arith)
          ],
        )
        | inr found ↦ inr found
      ])
      | inr other ↦ rw other (inr (i, refl, λ e. cc ((bytes_eq_iff here primary).1 e)))
    ]

-- every place is reached from `idx`
reach :
    (n idx j : ℕ)
    → idx < n
    → j < n
    → (j ≡ idx) ⊎ ((d : ℕ) × (1 ≤ d) × (d < 1 + (n - 1)) × ((idx + d) % n ≡ j))
reach n idx j hi hj = elim (ℕ_discrete j idx) [
  | yes e ↦ inl e
  | no ne ↦ elim (dec_lt idx j) [
    | yes after ↦ inr (
      j - idx,
      omega arith,
      omega arith,
      ap (λ t. t % n) (let e : idx + (j - idx) ≡ j = omega arith in e) ∙ mod-eq_of_lt hj,
    )
    | no before ↦ inr (
      j + n - idx,
      omega arith,
      omega arith,
      ap (λ t. t % n) (let e : idx + (j + n - idx) ≡ j + n = omega arith in e)
          ∙ add-mod_right j n
          ∙ mod-eq_of_lt hj,
    )
  ]
]

place : (xs : List ℕ) (h : ℕ) → In h xs → (j : ℕ) × (j < length xs) × (get_or xs j 0 ≡ h)
place [] h i = elim i [ ]
place (x ∷ xs) h (inl e) = (0, omega arith, e)
place (x ∷ xs) h (inr i) = let (j, lt, e) = place xs h i in (suc j, omega arith, e)

owner-In :
    (ch : ConsistentHash) (h : ℕ) → IsRing ch → In h ch.ring → In (owner ch.node_map h) ch.nodes
owner-In ch h r i =
    let (a, e, n) = r.owned h i in
    subst (λ b. In b ch.nodes) (sym (owner_of_lookup ch.node_map h a e)) n

In-get_or' : (xs : List ℕ) (j : ℕ) → j < length xs → In (get_or xs j 0) xs
In-get_or' [] j lt = absurd (omega arith)
In-get_or' (x ∷ xs) zero lt = inl refl
In-get_or' (x ∷ xs) (suc j) lt = inr (In-get_or' xs j (omega arith))

-- On a well-formed ring that is not empty, the primary of a partition is a node of the ring; and
-- either the replica is another node of the ring, or there is none ("") and all of the ring
-- belongs to the primary.
pub get_nodes_distinct :
    (partition_id : ℕ) (ch : ConsistentHash)
    → IsRing ch
    → 0 < length ch.ring
    → let found = get_nodes partition_id ch in
      In found.0 ch.nodes
      × (((found.1 ≢ found.0) × In found.1 ch.nodes)
          ⊎ ((found.1 ≡ []) × ((h : ℕ) → In h ch.ring → owner ch.node_map h ≡ found.0)))
get_nodes_distinct partition_id ch r pos = rw shape (is_node, choice)
  where
    key : ℕ
    key = hash (partition_key partition_id)

    idx : ℕ
    idx = search key ch.ring

    primary : Bytes
    primary = owner_at ch idx

    replica : Bytes
    replica = find_replica (length ch.ring - 1) 1 idx primary ch

    shape : get_nodes partition_id ch ≡ (primary, replica)
    shape =
        unfold get_nodes in
        if_false (length ch.ring == 0) ([], []) (primary, replica) (ground arith)

    in_range : idx < length ch.ring
    in_range =
        (search-IsNext key ch.ring r.sorted r.small (hash-lt (partition_key partition_id)) pos).0

    is_node : In primary ch.nodes
    is_node = owner-In ch _ r (In-get_or' ch.ring idx in_range)

    choice :
        ((replica ≢ primary) × In replica ch.nodes)
        ⊎ ((replica ≡ []) × ((h : ℕ) → In h ch.ring → owner ch.node_map h ≡ primary))
    choice = elim (find_replica_lem (length ch.ring - 1) 1 idx primary ch) [
      | inr (d, e, ne) ↦ inl (
        ne,
        subst (λ b. In b ch.nodes) (sym e)
            (owner-In ch _ r
              (In-get_or' ch.ring ((idx + d) % length ch.ring) (mod-lt (idx + d) pos))),
      )
      | inl (none_found, all) ↦ inr (
        none_found,
        λ h i.
            let (j, lt, e) = place ch.ring h i in
            elim (reach (length ch.ring) idx j in_range lt) [
              | inl here ↦ ap (owner ch.node_map) (sym e) ∙ ap (owner_at ch) here
              | inr (d, lo, hi, there) ↦
                  ap (owner ch.node_map) (sym e) ∙ ap (owner_at ch) (sym there) ∙ all d lo hi
            ],
      )
    ]
