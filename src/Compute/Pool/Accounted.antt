-- ===== src/Compute/Pool/Accounted.antt =====
-- What holds of the pool between any steps, and that `getConn` keeps it.
use mathlib.Core.Path.{subst}
use rockskv.Prelude.{
  ◌==◌, if◌then◌else◌, Bool-cases, Option-cases, All, ℕ, ◌+◌, ◌≤◌, ◌<◌, ◌≡◌, refl, sym, ap, ◌⊎◌,
  inl, inr, Bool, true, false, Option, none, some, List, [], ◌∷◌, ◌++◌, arith,
}
use rockskv.Bytes.{Bytes, bytes_eq, bytes_eq_iff}
use rockskv.Compute.Pool.{ConnectionPool, find_conn, drop_conn, check_conn, make_conn}

-- The connections of the pool are those that are open, each under one address.
abbrev pub IsAccounted : ConnectionPool → Type 0
IsAccounted p =
    ((a : Bytes) (k : ℕ) → find_conn a p.conns ≡ some k → (k < p.dialed) × (p.shut k ≡ false))
    × ((a b : Bytes) (k : ℕ) → find_conn a p.conns ≡ some k → find_conn b p.conns ≡ some k → a ≡ b)
    × ((k : ℕ) → k < p.dialed → p.shut k ≡ false → (a : Bytes) × (find_conn a p.conns ≡ some k))

-- No connection that is not made yet is shut, and every entry is of one that is made.
abbrev pub IsBelow : ConnectionPool → Type 0
IsBelow p =
    ((k : ℕ) → p.dialed ≤ k → p.shut k ≡ false) × All (λ (e : Bytes × ℕ). e.1 < p.dialed) p.conns

-- the connections that requests have found, and whose state they have not asked for yet
abbrev pub Seen : Type 0
Seen = List (Bytes × ℕ)

abbrev pub IsPool : ConnectionPool × Seen → Type 0
IsPool (p, seen) =
    IsAccounted p × IsBelow p × All (λ (e : Bytes × ℕ). find_conn e.0 p.conns ≡ some e.1) seen

pub find_conn-drop_conn :
    (addr a : Bytes) (cs : List (Bytes × ℕ))
    → find_conn a (drop_conn addr cs) ≡ (if bytes_eq addr a then none else find_conn a cs)
unfolding find_conn drop_conn
find_conn-drop_conn addr a [] = ground arith
find_conn-drop_conn addr a ((b, k) ∷ cs) = ground (
  arith,
  find_conn-drop_conn addr a cs,
  bytes_eq_iff addr a,
  bytes_eq_iff b addr,
  bytes_eq_iff b a,
)

pub All-drop_conn :
    (addr : Bytes) (n : ℕ) (cs : List (Bytes × ℕ))
    → All (λ (e : Bytes × ℕ). e.1 < n) cs
    → All (λ (e : Bytes × ℕ). e.1 < n) (drop_conn addr cs)
unfolding drop_conn
All-drop_conn addr n [] h = tt
All-drop_conn addr n ((b, k) ∷ cs) (h, hs) = elim (Bool-cases (bytes_eq b addr)) [
  | inl e ↦ rw e (All-drop_conn addr n cs hs)
  | inr e ↦ rw e (h, All-drop_conn addr n cs hs)
]

All-suc :
    (n : ℕ) (cs : List (Bytes × ℕ))
    → All (λ (e : Bytes × ℕ). e.1 < n) cs
    → All (λ (e : Bytes × ℕ). e.1 < n + 1) cs
All-suc n [] h = tt
All-suc n (c ∷ cs) (h, hs) = (omega arith, All-suc n cs hs)

All-without :
    (P : Bytes × ℕ → Type 0) (before : Seen) (x : Bytes × ℕ) (after : Seen)
    → All P (before ++ (x ∷ after))
    → P x × All P (before ++ after)
All-without P [] x after h = h
All-without P (b ∷ before) x after (h, hs) =
    let (here_, rest) = All-without P before x after hs in (here_, (h, rest))

abbrev pub dialed_pool : Bytes → ConnectionPool → ConnectionPool
dialed_pool addr p = record p { conns = (addr, p.dialed) ∷ p.conns; dialed = p.dialed + 1 }

pub dialed-IsAccounted :
    (addr : Bytes) (p : ConnectionPool)
    → find_conn addr p.conns ≡ none
    → IsAccounted p
    → IsBelow p
    → IsAccounted (dialed_pool addr p)
unfolding find_conn
dialed-IsAccounted addr p absent (known, apart, kept) (fresh, below) = (
  λ a k e. ground (arith, known a k, fresh p.dialed),
  λ a b k e f.
      ground (arith, bytes_eq_iff addr a, bytes_eq_iff addr b, apart a b k, known a k, known b k),
  λ k made_ open_. elim (Bool-cases (k == p.dialed)) [
    | inl e ↦ (addr, ground (arith, bytes_eq_iff addr addr))
    | inr e ↦
        let (a, f) = kept k (ground arith) open_ in
        (a, ground (arith, bytes_eq_iff addr a, λ (g : addr ≡ a). ap (λ x. find_conn x p.conns) g))
  ],
)

seen-dialed :
    (addr : Bytes) (p : ConnectionPool) (seen : Seen)
    → find_conn addr p.conns ≡ none
    → All (λ (e : Bytes × ℕ). find_conn e.0 p.conns ≡ some e.1) seen
    → All (λ (e : Bytes × ℕ). find_conn e.0 (dialed_pool addr p).conns ≡ some e.1) seen
unfolding find_conn
seen-dialed addr p [] absent h = tt
seen-dialed addr p ((a, k) ∷ seen) absent (h, hs) =
    (ground (arith, bytes_eq_iff addr a), seen-dialed addr p seen absent hs)

-- what `make_conn` does, by whether the pool has the address and by the dial
make_conn-cases :
    (dials : Bool) (addr : Bytes) (p : ConnectionPool)
    → ((k : ℕ) × (find_conn addr p.conns ≡ some k) × (make_conn dials addr p ≡ (p, some k)))
      ⊎ ((find_conn addr p.conns ≡ none)
          × (make_conn dials addr p
              ≡ (if dials then (dialed_pool addr p, some p.dialed) else (p, none))))
unfolding make_conn
make_conn-cases dials addr p = elim (Option-cases (find_conn addr p.conns)) [
  | inr (k, e) ↦ inl (k, e, rw (e, make_conn) refl)
  | inl e ↦ inr (e, rw (e, make_conn) refl)
]

dialed-IsPool :
    (addr : Bytes) (p : ConnectionPool) (seen : Seen)
    → find_conn addr p.conns ≡ none
    → IsPool (p, seen)
    → IsPool (dialed_pool addr p, seen)
dialed-IsPool addr p seen absent (accounted, (fresh, below), looked) = (
  dialed-IsAccounted addr p absent accounted (fresh, below),
  (λ k after. fresh k (omega arith), (omega arith, All-suc p.dialed p.conns below)),
  seen-dialed addr p seen absent looked,
)

if-IsPool :
    (dials : Bool) (x y : ConnectionPool × Option ℕ) (seen : Seen)
    → IsPool (x.0, seen)
    → IsPool (y.0, seen)
    → IsPool ((if◌then◌else◌ {A = ConnectionPool × Option ℕ} dials y x).0, seen)
if-IsPool true x y seen h g = g
if-IsPool false x y seen h g = h

pub make_conn-IsPool :
    (dials : Bool) (addr : Bytes) (p : ConnectionPool) (seen : Seen)
    → IsPool (p, seen)
    → IsPool ((make_conn dials addr p).0, seen)
make_conn-IsPool dials addr p seen h = elim (make_conn-cases dials addr p) [
  | inl (k, e, same) ↦ subst (λ (x : ConnectionPool × Option ℕ). IsPool (x.0, seen)) (sym same) h
  | inr (e, same) ↦
      subst (λ (x : ConnectionPool × Option ℕ). IsPool (x.0, seen)) (sym same)
        (if-IsPool dials (p, none) (dialed_pool addr p, some p.dialed) seen h
          (dialed-IsPool addr p seen e h))
]

pub check_conn-IsPool :
    (p : ConnectionPool) (before after : Seen) (addr : Bytes) (k : ℕ)
    → IsPool (p, before ++ ((addr, k) ∷ after))
    → IsPool ((check_conn addr k p).0, before ++ after)
unfolding check_conn
check_conn-IsPool p before after addr k (accounted, below, looked) =
    let (found_, rest) =
      All-without (λ (e : Bytes × ℕ). find_conn e.0 p.conns ≡ some e.1) before (addr, k) after
        looked in
    rw ((accounted.0 addr k found_).1) (accounted, below, rest)
