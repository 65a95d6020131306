-- ===== src/Failover/Promotions.antt =====
-- The promotions that the failure of a node makes in a row, and what the watch delivers between them.
use rockskv.Prelude.{
  ◌==◌, if◌then◌else◌, ==_iff, if_true, if_false, Bool-cases, All, ℕ, ◌≡◌, refl, sym, ap, ◌∙◌, ◌⊎◌,
  inl, inr, Bool, true, false, ◌&&◌, ◌||◌, some, List, [], ◌∷◌, ◌++◌, arith,
}
use rockskv.Prelude.Dict.{Dict, lookup}
use rockskv.Bytes.{Bytes, bytes_eq}
use rockskv.Routes.{
  stored_table, copy_routing, Router, Reply, watch, deliver_if, NodeInfo, PartitionInfo, RouteTable,
}
use rockskv.Routes.Change.{swapped}
use rockskv.Routes.Lost.{stored, promote_found, entry}
use mathlib.Core.Path.{subst}
use rockskv.Routes.Nodes.{find_node}
use rockskv.Failover.{
  FailoverManager, set_offline, affected_primaries, promote_all, handle_node_failure,
}

abbrev pub IsKnown : Dict PartitionInfo → ℕ → Type 0
IsKnown m id = (p : PartitionInfo) × (lookup id m ≡ some p)

affected-cons :
    (j : ℕ) (p : PartitionInfo) (m : Dict PartitionInfo) (ids : List ℕ)
    → All (IsKnown m) ids
    → All (IsKnown ((j, p) ∷ m)) ids
unfolding lookup
affected-cons j p m [] h = tt
affected-cons j p m (id ∷ ids) ((q, found), h) = (
  elim (Bool-cases (j == id)) [
    | inl same ↦ (p, if_true _ _ _ same)
    | inr other ↦ (q, if_false _ _ _ other ∙ found)
  ],
  affected-cons j p m ids h,
)

pub affected-IsKnown :
    (addr : Bytes) (m : Dict PartitionInfo) → All (IsKnown m) (affected_primaries addr m)
unfolding affected_primaries lookup
affected-IsKnown addr [] = tt
affected-IsKnown addr ((j, p) ∷ m) =
    let others = affected-cons j p m (affected_primaries addr m) (affected-IsKnown addr m) in
    elim (Bool-cases (bytes_eq p.primary addr)) [
      | inl mine ↦ rw mine ((p, ground arith), others)
      | inr other ↦ rw other others
    ]

-- membership in a list of ids
abbrev pub is_in : ℕ → List ℕ → Bool
is_in k [] = false
is_in k (x ∷ xs) = (x == k) || is_in k xs

-- the keys of a map are distinct
abbrev pub IsDistinct : List ℕ → Type 0
IsDistinct [] = Unit
IsDistinct (x ∷ xs) = (is_in x xs ≡ false) × IsDistinct xs

abbrev after_promotion : Bool → ℕ → Router → Router
after_promotion b x r = deliver_if b (stored x r)

promote_none : (delivered : ℕ → Bool) (r : Router) → promote_all (λ _. true) delivered [] r ≡ r
unfolding promote_all
promote_none delivered r = refl

promote_next :
    (delivered : ℕ → Bool) (x : ℕ) (ids : List ℕ) (r : Router) (q : PartitionInfo)
    → lookup x r.route_table.partitions ≡ some q
    → promote_all (λ _. true) delivered (x ∷ ids) r
      ≡ promote_all (λ _. true) delivered ids (after_promotion (delivered x) x r)
unfolding promote_all
promote_next delivered x ids r q found =
    ap (λ (y : Reply). promote_all (λ _. true) delivered ids (deliver_if (delivered x) y.0))
      (promote_found x r q found)

-- the router's own entry after a promotion
abbrev own : Bool → ℕ → ℕ → PartitionInfo → PartitionInfo
own b x k p = if b then (if x == k then swapped p else copy_routing p) else p

own-after_promotion :
    (b : Bool) (x k : ℕ) (r : Router) (p : PartitionInfo)
    → lookup k r.route_table.partitions ≡ some p
    → lookup k (after_promotion b x r).route_table.partitions ≡ some (own b x k p)
unfolding deliver_if watch
own-after_promotion true x k r p e = entry x k r (some p) e
own-after_promotion false x k r p e = e

IsKnown-after_promotion :
    (b : Bool) (x : ℕ) (r : Router) (ids : List ℕ)
    → All (IsKnown r.route_table.partitions) ids
    → All (IsKnown (after_promotion b x r).route_table.partitions) ids
IsKnown-after_promotion b x r [] h = tt
IsKnown-after_promotion b x r (id ∷ ids) ((q, found), h) =
    ((own b x id q, own-after_promotion b x id r q found), IsKnown-after_promotion b x r ids h)

stored-deliver_if :
    (b : Bool) (r : Router) → stored_table (deliver_if b r).store ≡ stored_table r.store
unfolding deliver_if watch
stored-deliver_if true r = refl
stored-deliver_if false r = refl

-- what the promotions of `xs` and then `z` leave of an entry
abbrev pub kept_promotion : (ℕ → Bool) → List ℕ → ℕ → ℕ → PartitionInfo → PartitionInfo
kept_promotion delivered xs z k p =
    if (z == k) || (is_in k xs && delivered k) then swapped p else copy_routing p

is_in-last : (k z : ℕ) (xs : List ℕ) → is_in k (xs ++ (z ∷ [])) ≡ (is_in k xs || (z == k))
is_in-last k z [] = ground arith
is_in-last k z (x ∷ xs) = ground (arith, is_in-last k z xs)

choose_own :
    (d m c b : Bool) (p : PartitionInfo)
    → b ≡ (c || (d && m))
    → ((d && m) ≡ true → c ≡ false)
    → (if c
        then swapped (if d then (if m then swapped p else copy_routing p) else p)
        else copy_routing (if d then (if m then swapped p else copy_routing p) else p))
      ≡ (if b then swapped p else copy_routing p)
unfolding copy_routing
choose_own true true true b p e f = cc (f refl)
choose_own true true false b p e f = rw e refl
choose_own true false true b p e f = rw e refl
choose_own true false false b p e f = rw e refl
choose_own false m true b p e f = rw e refl
choose_own false m false b p e f = rw e refl

kept-own :
    (delivered : ℕ → Bool) (x z k : ℕ) (xs : List ℕ) (p : PartitionInfo)
    → is_in x (xs ++ (z ∷ [])) ≡ false
    → kept_promotion delivered xs z k (own (delivered x) x k p)
      ≡ kept_promotion delivered (x ∷ xs) z k p
kept-own delivered x z k xs p fresh =
    choose_own (delivered x) (x == k) ((z == k) || (is_in k xs && delivered k))
      ((z == k) || (((x == k) || is_in k xs) && delivered k)) p (facts (Bool-cases (x == k))).0
      (facts (Bool-cases (x == k))).1
  where
    facts :
        ((x == k) ≡ true) ⊎ ((x == k) ≡ false)
        → (((z == k) || (((x == k) || is_in k xs) && delivered k))
            ≡ (((z == k) || (is_in k xs && delivered k)) || (delivered x && (x == k))))
          × ((delivered x && (x == k)) ≡ true → ((z == k) || (is_in k xs && delivered k)) ≡ false)
    facts (inr other) = (rw other (ground arith), λ h. absurd (ground arith))
    facts (inl same) =
        let e : x ≡ k = (==_iff x k).0 same in
        let d : delivered x ≡ delivered k = ap delivered e in
        let absent : (is_in k xs || (z == k)) ≡ false =
          ap (λ i. is_in i xs || (z == i)) (sym e) ∙ sym (is_in-last x z xs) ∙ fresh in
        (rw (same, d) (ground (arith, absent)), λ h. ground (arith, absent))

-- with every save successful, the promotions that were delivered before the next one are left in the
-- store, and the last
pub promote_all-last :
    (delivered : ℕ → Bool) (xs : List ℕ) (z : ℕ) (r : Router)
    → All (IsKnown r.route_table.partitions) (xs ++ (z ∷ []))
    → IsDistinct (xs ++ (z ∷ []))
    → (k : ℕ) (p : PartitionInfo) → lookup k r.route_table.partitions ≡ some p
    → lookup k
        (stored_table (promote_all (λ _. true) delivered (xs ++ (z ∷ [])) r).store).partitions
      ≡ some (kept_promotion delivered xs z k p)
promote_all-last delivered [] z r ((q, found), h) distinct k p e =
    ap (λ (y : Router). lookup k (stored_table y.store).partitions)
      (promote_next delivered z [] r q found
        ∙ promote_none delivered (after_promotion (delivered z) z r))
    ∙ ap (λ (t : RouteTable). lookup k t.partitions) (stored-deliver_if (delivered z) (stored z r))
    ∙ entry z k r (some p) e
    ∙ ground arith
promote_all-last delivered (x ∷ xs) z r ((q, found), h) (fresh, distinct) k p e =
    ap (λ (y : Router). lookup k (stored_table y.store).partitions)
      (promote_next delivered x (xs ++ (z ∷ [])) r q found)
    ∙ promote_all-last delivered xs z (after_promotion (delivered x) x r)
        (IsKnown-after_promotion (delivered x) x r (xs ++ (z ∷ [])) h) distinct k
        (own (delivered x) x k p) (own-after_promotion (delivered x) x k r p e)
    ∙ ap some (kept-own delivered x z k xs p fresh)

abbrev offline_marked : Bytes → Router → Router
offline_marked id r = record r {
  store = record (r.store) { storage_nodes = set_offline id r.store.storage_nodes };
}

handled :
    (delivered : ℕ → Bool) (id : Bytes) (fm : FailoverManager) (r : Router) (n : NodeInfo)
    → find_node id (set_offline id r.store.storage_nodes) ≡ some n
    → (handle_node_failure true true (λ _. true) delivered id (fm, r)).1
      ≡ promote_all
          (λ _. true)
          delivered
          (affected_primaries n.addr r.route_table.partitions)
          (offline_marked id r)
unfolding handle_node_failure
handled delivered id fm r n listed = rw (listed, handle_node_failure) refl

-- When the failure of a node is handled, with every call of the store successful, and with a delivery
-- of the stored table by the watch, or none, after each promotion: of the partitions that the node
-- was the primary of, the stored table has the promotions of exactly those after which the watch
-- delivered before the next promotion, and of the last one. Every other partition that the router
-- knows has the primary, the replica and the epoch that the router's own table gave it at the start,
-- also where the failed node is that primary.
pub handle_node_failure-last :
    (delivered : ℕ → Bool) (id : Bytes) (fm : FailoverManager) (r : Router) (n : NodeInfo)
    (xs : List ℕ) (z : ℕ)
    → find_node id (set_offline id r.store.storage_nodes) ≡ some n
    → affected_primaries n.addr r.route_table.partitions ≡ xs ++ (z ∷ [])
    → IsDistinct (xs ++ (z ∷ []))
    → (k : ℕ) (p : PartitionInfo) → lookup k r.route_table.partitions ≡ some p
    → let after = (handle_node_failure true true (λ _. true) delivered id (fm, r)).1 in
      lookup k (stored_table after.store).partitions
      ≡ some (if (z == k) || (is_in k xs && delivered k) then swapped p else copy_routing p)
handle_node_failure-last delivered id fm r n xs z listed ids distinct k p known =
    let marked = offline_marked id r in
    ap (λ (y : Router). lookup k (stored_table y.store).partitions)
      (handled delivered id fm r n listed
        ∙ ap (λ l. promote_all (λ _. true) delivered l marked) ids)
    ∙ promote_all-last delivered xs z marked
        (subst (All (IsKnown r.route_table.partitions)) ids
          (affected-IsKnown n.addr r.route_table.partitions))
        distinct k p known
