-- ===== src/Compute/Pool/Resolved.antt =====
-- The resolver of addresses, whose cache only ever holds a node's own id.
use rockskv.Prelude.{Bool-cases, All, ◌≡◌, refl, sym, ◌∙◌, inl, inr, List, [], ◌∷◌}
use rockskv.Bytes.{Bytes, bytes_eq, bytes_eq_iff}
use rockskv.Compute.Pool.{resolve_addr, invalidate_cache}

abbrev IsResolver : List (Bytes × Bytes) → Type 0
IsResolver cache = All (λ (e : Bytes × Bytes). e.0 ≡ e.1) cache

-- `ResolveAddr` answers the id itself, whatever was resolved before; so a call of a compute node
-- goes to the address that the routes name.
resolve_addr-IsResolver :
    (node_id : Bytes) (cache : List (Bytes × Bytes))
    → IsResolver cache
    → ((resolve_addr node_id cache).1 ≡ node_id) × IsResolver (resolve_addr node_id cache).0
unfolding resolve_addr
resolve_addr-IsResolver node_id [] h = (refl, (refl, tt))
resolve_addr-IsResolver node_id ((i, addr) ∷ cache) (same, h) =
    let (found, kept) = resolve_addr-IsResolver node_id cache h in
    elim (Bool-cases (bytes_eq i node_id)) [
      | inl e ↦ rw e (sym same ∙ (bytes_eq_iff i node_id).0 e, (same, h))
      | inr e ↦ rw e (found, (same, kept))
    ]

invalidate_cache-IsResolver :
    (node_id : Bytes) (cache : List (Bytes × Bytes))
    → IsResolver cache
    → IsResolver (invalidate_cache node_id cache)
unfolding invalidate_cache
invalidate_cache-IsResolver node_id [] h = tt
invalidate_cache-IsResolver node_id ((i, addr) ∷ cache) (same, h) =
    let kept = invalidate_cache-IsResolver node_id cache h in
    elim (Bool-cases (bytes_eq i node_id)) [ inl e ↦ rw e kept | inr e ↦ rw e (same, kept) ]
