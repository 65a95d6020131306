-- ===== src/Compute/Pool/Closed.antt =====
-- Removing a connection and closing the pool keep what holds of it.
use mathlib.Core.Path.{subst}
use rockskv.Prelude.{
  Bool-cases, Option-cases, All, ℕ, ◌≤◌, ◌<◌, ◌≡◌, refl, sym, ap, ◌∙◌, inl, inr, true, some, List,
  [], ◌∷◌, arith,
}
use rockskv.Bytes.{Bytes, bytes_eq, bytes_eq_iff}
use rockskv.Compute.Pool.{
  ConnectionPool, find_conn, drop_conn, shut_down, remove_conn, shut_all, close_pool,
}
use rockskv.Compute.Pool.Accounted.{IsPool, find_conn-drop_conn, All-drop_conn}

drop_conn-IsPool :
    (addr : Bytes) (k : ℕ) (p : ConnectionPool)
    → find_conn addr p.conns ≡ some k
    → IsPool (p, [])
    → IsPool (record (shut_down k p) { conns = drop_conn addr p.conns }, [])
unfolding shut_down
drop_conn-IsPool addr k p e ((known, apart, kept), (fresh, below), looked) =
    let dropped = λ (a : Bytes). find_conn-drop_conn addr a p.conns in
    (
      (
        λ a j f. ground (
          arith,
          dropped a,
          known a j,
          λ (g : find_conn a p.conns ≡ some k). apart a addr k g e,
          bytes_eq_iff addr a,
        ),
        λ a b j f g. ground (arith, dropped a, dropped b, apart a b j),
        λ j made_ open_.
            let (a, f) = kept j made_ (ground arith) in
            (
              a,
              ground (
                arith,
                dropped a,
                bytes_eq_iff addr a,
                λ (g : addr ≡ a). ap (λ x. find_conn x p.conns) g,
              ),
            ),
      ),
      (
        λ j after. ground (arith, fresh j after, known addr k e),
        All-drop_conn addr p.dialed p.conns below,
      ),
      tt,
    )

pub remove_conn-IsPool :
    (addr : Bytes) (p : ConnectionPool) → IsPool (p, []) → IsPool (remove_conn addr p, [])
unfolding remove_conn
remove_conn-IsPool addr p h = elim (Option-cases (find_conn addr p.conns)) [
  | inl e ↦
      let same : remove_conn addr p ≡ p = rw (e, remove_conn) refl in
      subst (λ (x : ConnectionPool). IsPool (x, [])) (sym same) h
  | inr (k, e) ↦
      let same : remove_conn addr p ≡ record (shut_down k p) { conns = drop_conn addr p.conns } =
        rw (e, remove_conn) refl in
      subst (λ (x : ConnectionPool). IsPool (x, [])) (sym same) (drop_conn-IsPool addr k p e h)
]

shut-shut_all :
    (cs : List (Bytes × ℕ)) (p : ConnectionPool) (k : ℕ)
    → p.shut k ≡ true
    → (shut_all cs p).shut k ≡ true
unfolding shut_all shut_down
shut-shut_all [] p k h = h
shut-shut_all ((a, j) ∷ cs) p k h = shut-shut_all cs (shut_down j p) k (ground arith)

found-shut_all :
    (cs : List (Bytes × ℕ)) (p : ConnectionPool) (a : Bytes) (k : ℕ)
    → find_conn a cs ≡ some k
    → (shut_all cs p).shut k ≡ true
unfolding shut_all shut_down find_conn
found-shut_all [] p a k h = absurd (ground arith)
found-shut_all ((b, j) ∷ cs) p a k h = elim (Bool-cases (bytes_eq b a)) [
  | inl e ↦ shut-shut_all cs (shut_down j p) k (ground arith)
  | inr e ↦ found-shut_all cs (shut_down j p) a k (ground arith)
]

below-shut_all :
    (n : ℕ) (cs : List (Bytes × ℕ)) (p : ConnectionPool) (k : ℕ)
    → All (λ (e : Bytes × ℕ). e.1 < n) cs
    → n ≤ k
    → (shut_all cs p).shut k ≡ p.shut k
unfolding shut_all shut_down
below-shut_all n [] p k h le = refl
below-shut_all n ((a, j) ∷ cs) p k (h, hs) le =
    below-shut_all n cs (shut_down j p) k hs le ∙ ground arith

dialed-shut_all : (cs : List (Bytes × ℕ)) (p : ConnectionPool) → (shut_all cs p).dialed ≡ p.dialed
unfolding shut_all shut_down
dialed-shut_all [] p = refl
dialed-shut_all ((a, j) ∷ cs) p = dialed-shut_all cs (shut_down j p)

pub close_pool-IsPool : (p : ConnectionPool) → IsPool (p, []) → IsPool (close_pool p, [])
unfolding close_pool find_conn
close_pool-IsPool p ((known, apart, kept), (fresh, below), looked) =
    let same = dialed-shut_all p.conns p in
    (
      (
        λ a k e. absurd (ground arith),
        λ a b k e f. absurd (ground arith),
        λ k made_ open_. elim (Bool-cases (p.shut k)) [
          | inl e ↦ absurd (ground (arith, shut-shut_all p.conns p k e))
          | inr e ↦
              let (a, f) = kept k (ground (arith, same)) e in
              absurd (ground (arith, found-shut_all p.conns p a k f))
        ],
      ),
      (
        λ k after.
            below-shut_all p.dialed p.conns p k below (ground (arith, same))
            ∙ fresh k (ground (arith, same)),
        tt,
      ),
      tt,
    )
