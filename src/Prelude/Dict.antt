-- ===== src/Prelude/Dict.antt =====
-- Go maps with `uint32` keys, as association lists. A key may occur once only, which the
-- operations keep; the programs' loops over a map do not depend on its order.
use rockskv.Prelude.Tests.{◌==◌, if◌then◌else◌}
use Prim.Native.Nat.{ℕ}
use mathlib.Core.Path.{◌≡◌, refl}
use mathlib.Core.Option.{Option, none, some}
use mathlib.Core.List.{List, [], ◌∷◌}
use native.Mathlib.Omega.{arith}

abbrev pub Dict {ℓ} : Type ℓ → Type ℓ
Dict V = List (ℕ × V)

module _ {ℓ} {V : Type ℓ} where
  -- m[k] with the comma-ok form
  unfoldable pub lookup : ℕ → Dict V → Option V
  lookup k [] = none
  lookup k ((j, v) ∷ m) = if j == k then some v else lookup k m

  -- delete(m, k)
  unfoldable pub delete : ℕ → Dict V → Dict V
  delete k [] = []
  delete k ((j, v) ∷ m) = let rest = delete k m in if j == k then rest else (j, v) ∷ rest

  -- m[k] = v
  unfoldable pub insert : ℕ → V → Dict V → Dict V
  insert k v m = (k, v) ∷ delete k m

  pub lookup-delete :
      (k j : ℕ) (m : Dict V) → lookup j (delete k m) ≡ (if k == j then none else lookup j m)
  unfolding lookup delete
  lookup-delete k j [] = ground arith
  lookup-delete k j ((i, v) ∷ m) = ground (arith, lookup-delete k j m)

  pub lookup-insert :
      (k j : ℕ) (v : V) (m : Dict V)
      → lookup j (insert k v m) ≡ (if k == j then some v else lookup j m)
  unfolding lookup insert
  lookup-insert k j v m = ground (arith, lookup-delete k j m)

module _ {ℓ κ} {V : Type ℓ} {W : Type κ} where
  -- a new map with the same keys, filled by `for k, v := range m`
  unfoldable pub map_values : (ℕ → V → W) → Dict V → Dict W
  map_values f [] = []
  map_values f ((j, v) ∷ m) = (j, f j v) ∷ map_values f m

  abbrev pub apply_at : (ℕ → V → W) → ℕ → Option V → Option W
  apply_at f k none = none
  apply_at f k (some v) = some (f k v)

  pub lookup-map_values :
      (f : ℕ → V → W) (k : ℕ) (m : Dict V) → lookup k (map_values f m) ≡ apply_at f k (lookup k m)
  unfolding lookup map_values
  lookup-map_values f k [] = refl
  lookup-map_values f k ((j, v) ∷ m) = ground (arith, lookup-map_values f k m)

module _ {ℓ} {V : Type ℓ} where
  -- m[k].field = ..., for an entry that is a pointer
  unfoldable pub modify : ℕ → (V → V) → Dict V → Dict V
  unfolding map_values
  modify k f = map_values (λ j v. if k == j then f v else v)

  pub lookup-modify :
      (k j : ℕ) (f : V → V) (m : Dict V)
      → lookup j (modify k f m) ≡ apply_at (λ i v. if k == i then f v else v) j (lookup j m)
  unfolding modify
  lookup-modify k j f m = lookup-map_values (λ i v. if k == i then f v else v) j m
