-- ===== src/Client.antt =====
-- The client of pkg/client/client.go. The compute node that it is connected to is the parameter
-- `call` of each operation, over a state that the calls change; an error of a call is `none`. A wait
-- between attempts is a step without an effect. MaxRetries is an int: `attempts` is MaxRetries + 1,
-- and 0 where MaxRetries is negative.
pub mod Puts
pub mod Tests
use rockskv.Prelude.{
  ◌==◌, if◌then◌else◌, ℕ, zero, suc, Bool, true, false, Option, none, some, List, [], ◌∷◌,
}
use rockskv.Bytes.{Bytes}

-- What a loop over the attempts returns: an answer, an error, or the zero values and the nil error
-- that stand behind the loop.
pub data Attempted (A : Type 0) : Type 0 where
  replied : A → Attempted A
  gave_up : Attempted A
  not_tried : Attempted A

module _ {S A : Type 0} where
  unfoldable pub retry : ℕ → (S → S × Option A) → S → S × Attempted A
  retry zero call s = (s, not_tried)
  retry (suc n) call s =
      let (after, reply) = call s in
      let rest = retry n call after in
      elim reply as (λ _. S × Attempted A) [
        | some a ↦ (after, replied a)
        | none ↦ if n == 0 then (after, gave_up) else rest
      ]

module _ {S : Type 0} where
  -- `Get`: `none` is an error, `some none` a key that is not found
  unfoldable pub get : ℕ → (S → S × Option (Option Bytes)) → S → S × Option (Option Bytes)
  unfolding retry
  get attempts call s =
      let (after, result) = retry attempts call s in
      elim result as (λ _. S × Option (Option Bytes)) [
        | replied value ↦ (after, some value)
        | gave_up ↦ (after, none)
        | not_tried ↦ (after, some none)
      ]

  -- `Put` and `Delete`: whether the result is the nil error; the answer is the field Success
  unfoldable pub put : ℕ → (S → S × Option Bool) → S → S × Bool
  unfolding retry
  put attempts call s =
      let (after, result) = retry attempts call s in
      elim result as (λ _. S × Bool) [
        | replied success ↦ (after, success)
        | gave_up ↦ (after, false)
        | not_tried ↦ (after, true)
      ]

  unfoldable pub delete : ℕ → (S → S × Option Bool) → S → S × Bool
  unfolding put
  delete attempts call s = put attempts call s

  unfoldable pub exists : ℕ → (S → S × Option (Option Bytes)) → S → S × Option Bool
  unfolding get
  exists attempts call s =
      let (after, result) = get attempts call s in
      elim result as (λ _. S × Option Bool) [
        | none ↦ (after, none)
        | some none ↦ (after, some false)
        | some (some value) ↦ (after, some true)
      ]

  -- the part of `SetNX` after the look: `none` is an error
  unfoldable pub set_if_absent : Option Bool → ℕ → (S → S × Option Bool) → S → S × Option Bool
  unfolding put
  set_if_absent none attempts call s = (s, none)
  set_if_absent (some true) attempts call s = (s, some false)
  set_if_absent (some false) attempts call s =
      let (after, done) = put attempts call s in (after, if done then some true else none)

  -- `SetNX`: a look and then a put, which other clients may come between
  unfoldable pub set_nx :
      ℕ → (S → S × Option (Option Bytes)) → (S → S × Option Bool) → S → S × Option Bool
  unfolding exists set_if_absent
  set_nx attempts look call s =
      let (looked, present) = exists attempts look s in set_if_absent present attempts call looked

  -- `Ping` returns no error, whatever the call does
  unfoldable pub ping : ℕ → (S → S × Option (Option Bytes)) → S → S × Bool
  unfolding get
  ping attempts call s = ((get attempts call s).0, true)

-- the result map of `BatchGet`: the items that are found, the last one of a key
unfoldable pub found_items : List (Bytes × Option Bytes) → List (Bytes × Bytes)
found_items [] = []
found_items ((key, none) ∷ items) = found_items items
found_items ((key, some value) ∷ items) = (key, value) ∷ found_items items
