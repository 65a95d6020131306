-- ===== src/Compute/Pool.antt =====
-- The pool of connections to the storage nodes, pkg/compute/pool.go. A connection is the number of
-- the call of the library that made it; whether such a call succeeds is an argument. `shut` are the
-- connections that were closed, which is the state that `getConn` asks for.
pub mod Accounted
pub mod Closed
pub mod Leaks
pub mod Resolved
use rockskv.Prelude.{
  ◌==◌, if◌then◌else◌, ℕ, ◌+◌, Bool, false, ◌||◌, Option, none, some, List, [], ◌∷◌,
}
use rockskv.Bytes.{Bytes, bytes_eq}

pub record ConnectionPool : Type 0 where
  pub conns : List (Bytes × ℕ)
  pub dialed : ℕ
  pub shut : ℕ → Bool

unfoldable pub new_connection_pool : ConnectionPool
new_connection_pool = record { conns = []; dialed = 0; shut = λ k. false }

-- p.conns[addr] with the comma-ok form
unfoldable pub find_conn : Bytes → List (Bytes × ℕ) → Option ℕ
find_conn addr [] = none
find_conn addr ((a, k) ∷ cs) = if bytes_eq a addr then some k else find_conn addr cs

unfoldable pub drop_conn : Bytes → List (Bytes × ℕ) → List (Bytes × ℕ)
drop_conn addr [] = []
drop_conn addr ((a, k) ∷ cs) =
    let rest = drop_conn addr cs in if bytes_eq a addr then rest else (a, k) ∷ rest

-- conn.Close()
unfoldable pub shut_down : ℕ → ConnectionPool → ConnectionPool
shut_down k p = record p { shut = λ j. (j == k) || p.shut j }

-- `getConn` after it has found a connection: the connection, or none where it is taken off
unfoldable pub check_conn : Bytes → ℕ → ConnectionPool → ConnectionPool × Option ℕ
unfolding drop_conn
check_conn addr k p =
    if p.shut k then (record p { conns = drop_conn addr p.conns }, none) else (p, some k)

-- the rest of `getConn`, under the lock for writing
unfoldable pub make_conn : Bool → Bytes → ConnectionPool → ConnectionPool × Option ℕ
unfolding find_conn
make_conn dials addr p = elim (find_conn addr p.conns) as (λ _. ConnectionPool × Option ℕ) [
  | some k ↦ (p, some k)
  | none ↦
      if dials
      then (record p { conns = (addr, p.dialed) ∷ p.conns; dialed = p.dialed + 1 }, some p.dialed)
      else (p, none)
]

unfoldable pub get_conn : Bool → Bytes → ConnectionPool → ConnectionPool × Option ℕ
unfolding find_conn check_conn make_conn
get_conn dials addr p = elim (find_conn addr p.conns) as (λ _. ConnectionPool × Option ℕ) [
  | none ↦ make_conn dials addr p
  | some k ↦
      let (after, found) = check_conn addr k p in
      elim found as (λ _. ConnectionPool × Option ℕ) [
        | some j ↦ (after, some j)
        | none ↦ make_conn dials addr after
      ]
]

unfoldable pub remove_conn : Bytes → ConnectionPool → ConnectionPool
unfolding find_conn drop_conn shut_down
remove_conn addr p = elim (find_conn addr p.conns) as (λ _. ConnectionPool) [
  | none ↦ p
  | some k ↦ record (shut_down k p) { conns = drop_conn addr p.conns }
]

-- the loop of `Close`
unfoldable pub shut_all : List (Bytes × ℕ) → ConnectionPool → ConnectionPool
unfolding shut_down
shut_all [] p = p
shut_all ((a, k) ∷ cs) p = shut_all cs (shut_down k p)

unfoldable pub close_pool : ConnectionPool → ConnectionPool
unfolding shut_all
close_pool p = record (shut_all p.conns p) { conns = [] }

-- `ResolveAddr` with the cache of the resolver
unfoldable pub resolve_addr : Bytes → List (Bytes × Bytes) → List (Bytes × Bytes) × Bytes
resolve_addr node_id [] = ((node_id, node_id) ∷ [], node_id)
resolve_addr node_id ((i, addr) ∷ cache) =
    let (rest, found) = resolve_addr node_id cache in
    if bytes_eq i node_id then ((i, addr) ∷ cache, addr) else ((i, addr) ∷ rest, found)

unfoldable pub invalidate_cache : Bytes → List (Bytes × Bytes) → List (Bytes × Bytes)
invalidate_cache node_id [] = []
invalidate_cache node_id ((i, addr) ∷ cache) =
    let rest = invalidate_cache node_id cache in
    if bytes_eq i node_id then rest else (i, addr) ∷ rest
