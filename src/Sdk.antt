-- ===== src/Sdk.antt =====
-- The client of sdk/go/rockskv/client.go: the retries of a call over several compute nodes. The
-- library's random numbers are the parameter `choose`, by the attempt; the calls are the parameter
-- `call`, by the address. Durations are numbers in the unit of the clock.
pub mod Retries
pub mod Tests
use rockskv.Prelude.{
  ltb, ◌==◌, if◌then◌else◌, length, get_or, ℕ, zero, suc, ◌+◌, ◌*◌, ◌%◌, ◌⊎◌, inl, inr, Bool, true,
  false, Option, none, some, List, [], ◌∷◌,
}
use rockskv.Bytes.{Bytes}

-- The status codes that the client tells apart.
pub data Code : Type 0 where
  deadline_exceeded unavailable other_code : Code

pub data SdkError : Type 0 where
  err_timeout err_closed no_connections : SdkError
  status_error : Code → SdkError

-- an int
pub data ℤ : Type 0 where
  pos : ℕ → ℤ
  negsuc : ℕ → ℤ

-- the rounds of `for attempt := 0; attempt <= count; attempt++`
unfoldable pub rounds : ℤ → ℕ
rounds (pos count) = count + 1
rounds (negsuc below) = 0

pub record Config : Type 0 where
  pub addrs : List Bytes
  pub retry_count : ℤ
  pub retry_delay : ℕ
  pub max_retry_delay : ℕ

-- `stubs` are the addresses with a stub
pub record Client : Type 0 where
  pub config : Config
  pub stubs : List Bytes
  pub closed : Bool

-- `NewClient` with every connection made; `none` is ErrNoAddrs
unfoldable pub new_client : Config → Option Client
new_client config =
    if length config.addrs == 0
    then none
    else some (record { config = config; stubs = config.addrs; closed = false })

unfoldable pub close : Client → Client
close c = if c.closed then c else record c { stubs = []; closed = true }

-- `getStub`, by the random index
unfoldable pub get_stub : ℕ → Client → Option SdkError × Bytes
get_stub index c =
    if c.closed
    then (some err_closed, [])
    else if length c.stubs == 0
    then (some no_connections, [])
    else (none, get_or c.config.addrs (index % length c.config.addrs) [])

abbrev pub min : ℕ → ℕ → ℕ
min a b = if ltb a b then a else b

-- the answer of a call
pub data Called (A : Type 0) : Type 0 where
  good : A → Called A
  bad : Code → Called A

-- the result, `none` for a nil error without an answer, and the waits
pub record Retried (S A : Type 0) : Type 0 where
  pub state : S
  pub result : Option (SdkError ⊎ A)
  pub waits : List ℕ

module _ {S A : Type 0} (choose : ℕ → ℕ) (call : Bytes → S → S × Called A) (c : Client) where
  -- the loop, by the attempts left; `last` is lastErr, `attempt` the number of the attempt
  unfoldable pub attempt_loop : ℕ → ℕ → ℕ → Option (SdkError ⊎ A) → S → Retried S A
  unfolding get_stub
  attempt_loop zero attempt delay last s = record { state = s; result = last; waits = [] }
  attempt_loop (suc left) attempt delay last s =
      let (error, addr) = get_stub (choose attempt) c in
      let (after, answer) = call addr s in
      let waited =
        attempt_loop left (attempt + 1) (min (delay * 2) c.config.max_retry_delay)
          (some (inl (status_error unavailable))) after in
      elim error as (λ _. Retried S A) [
        | some e ↦ record { state = s; result = some (inl e); waits = [] }
        | none ↦ elim answer as (λ _. Retried S A) [
          | good a ↦ record { state = after; result = some (inr a); waits = [] }
          | bad deadline_exceeded ↦ record {
            state = after;
            result = some (inl err_timeout);
            waits = [];
          }
          | bad other_code ↦ record {
            state = after;
            result = some (inl (status_error other_code));
            waits = [];
          }
          | bad unavailable ↦ record waited {
            waits = if left == 0 then waited.waits else delay ∷ waited.waits;
          }
        ]
      ]

  unfoldable pub call_with_retry : S → Retried S A
  unfolding attempt_loop
  call_with_retry s = attempt_loop (rounds c.config.retry_count) 0 c.config.retry_delay none s
