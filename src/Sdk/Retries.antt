-- ===== src/Sdk/Retries.antt =====
-- How often the client calls, how long it waits, and what it returns.
use rockskv.Prelude.{
  ltb, if◌then◌else◌, length, All, ℕ, zero, suc, ◌+◌, ◌-◌, ◌*◌, ◌≤◌, ◌≡◌, ◌↔◌, ◌⊎◌, inl, Option,
  none, some, arith,
}
use rockskv.Bytes.{Bytes}
use rockskv.Sdk.{
  SdkError, rounds, Client, get_stub, min, Called, Retried, attempt_loop, call_with_retry,
  unavailable, status_error,
}

-- The calls with a counter of them.
abbrev pub counting :
    {S A : Type 0} → (Bytes → S → S × Called A) → Bytes → ℕ × S → (ℕ × S) × Called A
counting call addr (n, s) = ((n + 1, (call addr s).0), (call addr s).1)

abbrev IsBounded : {S A : Type 0} → ℕ → ℕ → ℕ → Retried (ℕ × S) A → Type 0
IsBounded left n most r =
    (r.state.0 ≤ n + left) × (length r.waits ≤ left - 1) × All (λ (w : ℕ). w ≤ most) r.waits

module _ {S A : Type 0} (choose : ℕ → ℕ) (call : Bytes → S → S × Called A) (c : Client) (most : ℕ)
    (capped : c.config.max_retry_delay ≤ most) where
  attempt_loop-IsBounded :
      (left attempt delay n : ℕ) (last : Option (SdkError ⊎ A)) (s : S)
      → delay ≤ most
      → IsBounded left n most (attempt_loop choose (counting call) c left attempt delay last (n, s))
  unfolding attempt_loop
  attempt_loop-IsBounded zero attempt delay n last s h = (omega arith, omega arith, tt)
  attempt_loop-IsBounded (suc left) attempt delay n last s h =
      let (stub, addr) = get_stub (choose attempt) c in
      let rest =
        attempt_loop-IsBounded left (attempt + 1) (min (delay * 2) c.config.max_retry_delay) (n + 1)
          (some (inl (status_error unavailable))) (call addr s).0 (ground arith) in
      ground (arith, rest)

module _ {S A : Type 0} (choose : ℕ → ℕ) (call : Bytes → S → S × Called A) (c : Client) where
  -- a result is missing only where no attempt is made
  attempt_loop_result :
      (left attempt delay : ℕ) (last : Option (SdkError ⊎ A)) (s : S)
      → ((attempt_loop choose call c left attempt delay last s).result ≡ none)
        ↔ ((left ≡ 0) × (last ≡ none))
  unfolding attempt_loop
  attempt_loop_result zero attempt delay last s = ground arith
  attempt_loop_result (suc left) attempt delay last s =
      let (stub, addr) = get_stub (choose attempt) c in
      let rest =
        attempt_loop_result left (attempt + 1) (min (delay * 2) c.config.max_retry_delay)
          (some (inl (status_error unavailable))) (call addr s).0 in
      ground (arith, rest)

-- The retries of a call end: there are at most RetryCount + 1 calls and RetryCount waits, each wait
-- at most the larger of the two configured delays; and without an attempt (a negative RetryCount),
-- and only then, the client returns a nil error though it has no answer.
pub call_with_retry_bounds :
    {S A : Type 0} (choose : ℕ → ℕ) (call : Bytes → S → S × Called A) (c : Client) (s : S)
    → let r = call_with_retry choose (counting call) c (0, s) in
      let config = c.config in
      (r.state.0 ≤ rounds config.retry_count)
      × (length r.waits ≤ rounds config.retry_count - 1)
      × All
          (λ (w : ℕ). w ≤ (
            if ltb config.retry_delay config.max_retry_delay
            then config.max_retry_delay
            else config.retry_delay))
          r.waits
      × ((r.result ≡ none) ↔ (rounds config.retry_count ≡ 0))
unfolding call_with_retry
call_with_retry_bounds choose call c s =
    let config = c.config in
    let most =
      if ltb config.retry_delay config.max_retry_delay
      then config.max_retry_delay
      else config.retry_delay in
    let (calls, waits, capped) =
      attempt_loop-IsBounded choose call c most (ground arith) (rounds config.retry_count) 0
        config.retry_delay 0 none s (ground arith) in
    let result =
      attempt_loop_result choose (counting call) c (rounds config.retry_count) 0 config.retry_delay
        none (0, s) in
    (omega arith, waits, capped, ground (arith, result))
