-- ===== src/Ring/Tests.antt =====
-- The consistent hash ring at concrete inputs.
use rockskv.Prelude.{In, ℕ, ◌≡◌, refl, ◌≢◌, ◌⊎◌, inl, inr, [], ◌∷◌, arith}
use rockskv.Prelude.Dict.{lookup}
use rockskv.Bytes.{ascii}
use rockskv.Ring.{ConsistentHash, add_node, owner, get_node, get_nodes}
use rockskv.Ring.Owners.{IsRing, get_node-add_node}
use rockskv.Ring.Nodes.{get_nodes_distinct}

-- Two virtual nodes of one node, and one of another.
abbrev small_ring : ConsistentHash
small_ring = record {
  virtual_nodes = 1;
  ring = 10 ∷ 20 ∷ 30 ∷ [];
  node_map = (10, ascii "a") ∷ (20, ascii "b") ∷ (30, ascii "a") ∷ [];
  nodes = ascii "a" ∷ ascii "b" ∷ [];
}

small_ring-IsRing : IsRing small_ring
unfolding lookup
small_ring-IsRing = record {
  sorted = ((omega arith, (omega arith, tt)), ((omega arith, tt), (tt, tt)));
  small = (omega arith, (omega arith, (omega arith, tt)));
  owned = λ h i. elim i [
    | inl e ↦ (ascii "a", ground arith, inl refl)
    | inr j ↦ elim j [
      | inl e ↦ (ascii "b", ground arith, inr (inl refl))
      | inr k ↦ elim k [ inl e ↦ (ascii "a", ground arith, inl refl) | inr n ↦ elim n [ ] ]
    ]
  ];
}

get_node-add_node_example :
    (get_node (ascii "k") (add_node (ascii "c") small_ring) ≡ ascii "c")
    ⊎ (get_node (ascii "k") (add_node (ascii "c") small_ring) ≡ get_node (ascii "k") small_ring)
get_node-add_node_example = get_node-add_node (ascii "c") (ascii "k") small_ring small_ring-IsRing

get_nodes_distinct_example :
    let found = get_nodes 5 small_ring in
    In found.0 small_ring.nodes
    × (((found.1 ≢ found.0) × In found.1 small_ring.nodes)
        ⊎ ((found.1 ≡ [])
            × ((h : ℕ) → In h small_ring.ring → owner small_ring.node_map h ≡ found.0)))
get_nodes_distinct_example = get_nodes_distinct 5 small_ring small_ring-IsRing (omega arith)
