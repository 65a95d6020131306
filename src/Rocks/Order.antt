-- ===== src/Rocks/Order.antt =====
-- The order of keys.
use rockskv.Prelude.{◌≡◌, refl, true, false, [], ◌∷◌, arith}
use rockskv.Bytes.{Bytes, bytes_eq, bytes_lt}

pub bytes_lt_trans :
    (xs ys zs : Bytes) → bytes_lt xs ys ≡ true → bytes_lt ys zs ≡ true → bytes_lt xs zs ≡ true
unfolding bytes_lt
bytes_lt_trans xs [] zs h k = cc
bytes_lt_trans xs (y ∷ ys) [] h k = cc
bytes_lt_trans [] (y ∷ ys) (z ∷ zs) h k = refl
bytes_lt_trans (x ∷ xs) (y ∷ ys) (z ∷ zs) h k = ground (arith, bytes_lt_trans xs ys zs)

pub bytes_lt_self : (xs : Bytes) → bytes_lt xs xs ≡ false
unfolding bytes_lt
bytes_lt_self [] = refl
bytes_lt_self (x ∷ xs) = ground (arith, bytes_lt_self xs)

pub bytes_lt_below :
    (xs ys zs : Bytes) → bytes_lt xs zs ≡ true → bytes_lt ys zs ≡ false → bytes_lt xs ys ≡ true
unfolding bytes_lt
bytes_lt_below xs ys [] h k = cc
bytes_lt_below xs [] (z ∷ zs) h k = cc
bytes_lt_below [] (y ∷ ys) (z ∷ zs) h k = refl
bytes_lt_below (x ∷ xs) (y ∷ ys) (z ∷ zs) h k = ground (arith, bytes_lt_below xs ys zs)

pub bytes_lt_total :
    (xs ys : Bytes) → bytes_lt xs ys ≡ false → bytes_eq xs ys ≡ false → bytes_lt ys xs ≡ true
unfolding bytes_lt bytes_eq
bytes_lt_total [] [] h k = cc
bytes_lt_total [] (y ∷ ys) h k = cc
bytes_lt_total (x ∷ xs) [] h k = refl
bytes_lt_total (x ∷ xs) (y ∷ ys) h k = ground (arith, bytes_lt_total xs ys)
