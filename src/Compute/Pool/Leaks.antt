-- ===== src/Compute/Pool/Leaks.antt =====
-- The connections of the pool under requests that come between each other's steps.
use mathlib.Core.Path.{subst}
use rockskv.Prelude.{
  Option-cases, ℕ, ◌≡◌, refl, sym, inl, inr, Bool, true, false, Option, some, [], ◌∷◌, ◌++◌, arith,
}
use rockskv.Bytes.{Bytes, bytes_eq_iff}
use rockskv.Compute.Pool.{
  ConnectionPool, new_connection_pool, find_conn, check_conn, make_conn, get_conn, remove_conn,
  close_pool,
}
use rockskv.Compute.Pool.Accounted.{
  IsAccounted, IsBelow, Seen, IsPool, dialed_pool, dialed-IsAccounted, make_conn-IsPool,
  check_conn-IsPool,
}
use rockskv.Compute.Pool.Closed.{remove_conn-IsPool, close_pool-IsPool}

-- The steps of `getConn` of any requests. A connection is removed, and the pool closed, only while
-- no request is between its two reads: the program closes the pool after its last request, and
-- removes no connection.
pub data PoolStep : ConnectionPool × Seen → ConnectionPool × Seen → Type 0 where
  found :
      (p : ConnectionPool) (seen : Seen) (addr : Bytes) (k : ℕ)
      → find_conn addr p.conns ≡ some k
      → PoolStep (p, seen) (p, (addr, k) ∷ seen)
  checked :
      (p : ConnectionPool) (before after : Seen) (addr : Bytes) (k : ℕ)
      → PoolStep (p, before ++ ((addr, k) ∷ after)) ((check_conn addr k p).0, before ++ after)
  made :
      (p : ConnectionPool) (seen : Seen) (dials : Bool) (addr : Bytes)
      → PoolStep (p, seen) ((make_conn dials addr p).0, seen)
  removed : (p : ConnectionPool) (addr : Bytes) → PoolStep (p, []) (remove_conn addr p, [])
  closed : (p : ConnectionPool) → PoolStep (p, []) (close_pool p, [])

pub data PoolSteps (s : ConnectionPool × Seen) : ConnectionPool × Seen → Type 0 where
  here : PoolSteps s s
  next : {t u : ConnectionPool × Seen} → PoolSteps s t → PoolStep t u → PoolSteps s u

PoolStep-IsPool : {s t : ConnectionPool × Seen} → PoolStep s t → IsPool s → IsPool t
PoolStep-IsPool (found p seen addr k e) (accounted, below, looked) = (accounted, below, (e, looked))
PoolStep-IsPool (checked p before after addr k) h = check_conn-IsPool p before after addr k h
PoolStep-IsPool (made p seen dials addr) h = make_conn-IsPool dials addr p seen h
PoolStep-IsPool (removed p addr) h = remove_conn-IsPool addr p h
PoolStep-IsPool (closed p) h = close_pool-IsPool p h

new_connection_pool-IsPool : IsPool (new_connection_pool, [])
unfolding new_connection_pool find_conn
new_connection_pool-IsPool = (
  (
    λ a k e. absurd (ground arith),
    λ a b k e f. absurd (ground arith),
    λ k made_ open_. absurd (omega arith),
  ),
  (λ k after. refl, tt),
  tt,
)

PoolSteps-IsPool : {t : ConnectionPool × Seen} → PoolSteps (new_connection_pool, []) t → IsPool t
PoolSteps-IsPool here = new_connection_pool-IsPool
PoolSteps-IsPool (next steps st) = PoolStep-IsPool st (PoolSteps-IsPool steps)

-- a request that runs alone, with its dial successful
abbrev IsServed : Bytes → ConnectionPool × Option ℕ → Type 0
IsServed addr (after, conn) =
    IsAccounted after × ((k : ℕ) × (conn ≡ some k) × (find_conn addr after.conns ≡ some k))

get_conn-IsServed :
    (addr : Bytes) (p : ConnectionPool)
    → IsAccounted p
    → IsBelow p
    → IsServed addr (get_conn true addr p)
unfolding get_conn check_conn make_conn
get_conn-IsServed addr p accounted below = elim (Option-cases (find_conn addr p.conns)) [
  | inr (k, e) ↦
      let open_ : p.shut k ≡ false = (accounted.0 addr k e).1 in
      let same : get_conn true addr p ≡ (p, some k) = ground (arith, e, open_) in
      subst (IsServed addr) (sym same) (accounted, (k, refl, e))
  | inl e ↦
      let same : get_conn true addr p ≡ (dialed_pool addr p, some p.dialed) =
        rw (e, get_conn) (rw (e, make_conn) refl) in
      subst (IsServed addr) (sym same) (
        dialed-IsAccounted addr p e accounted below,
        (p.dialed, refl, unfold find_conn in ground (arith, bytes_eq_iff addr addr)),
      )
]

-- Whatever requests come between each other's steps, with connections removed and the pool closed
-- only while no request is between its two reads: the connections of the pool are open, no two
-- addresses have the same one, and every connection that is made and open is in the pool, so none
-- is lost without being closed; and a request that then runs alone with its dial successful gets
-- the connection of its address in the pool it leaves.
pub get_conn-IsAccounted :
    (p : ConnectionPool) (seen : Seen) (addr : Bytes)
    → PoolSteps (new_connection_pool, []) (p, seen)
    → let (after, conn) = get_conn true addr p in
      IsAccounted p
      × IsAccounted after
      × ((k : ℕ) × (conn ≡ some k) × (find_conn addr after.conns ≡ some k))
get_conn-IsAccounted p seen addr steps =
    let h = PoolSteps-IsPool steps in
    let (accounted, below, looked) = h in
    let (same, kept) = get_conn-IsServed addr p accounted below in (accounted, same, kept)
