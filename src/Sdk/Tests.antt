-- ===== src/Sdk/Tests.antt =====
-- A client with two attempts and a node that is never available.
use rockskv.Prelude.{length, All, ℕ, ◌≤◌, ◌≡◌, ◌↔◌, false, none, [], ◌∷◌}
use rockskv.Bytes.{Bytes, ascii}
use rockskv.Sdk.{rounds, Client, Called, call_with_retry, unavailable, pos, bad}
use rockskv.Sdk.Retries.{counting, call_with_retry_bounds}

abbrev client : Client
client = record {
  config = record {
    addrs = ascii "a" ∷ [];
    retry_count = pos 1;
    retry_delay = 100;
    max_retry_delay = 2000;
  };
  stubs = ascii "a" ∷ [];
  closed = false;
}

abbrev down : Bytes → ℕ → ℕ × Called ℕ
down addr s = (s, bad unavailable)

call_with_retry_bounds_example :
    let r = call_with_retry (λ _. 0) (counting down) client (0, 5) in
    (r.state.0 ≤ 2)
    × (length r.waits ≤ 1)
    × All (λ (w : ℕ). w ≤ 2000) r.waits
    × ((r.result ≡ none) ↔ (◌≡◌ {A = ℕ} 2 0))
unfolding rounds
call_with_retry_bounds_example = call_with_retry_bounds (λ _. 0) down client 5
