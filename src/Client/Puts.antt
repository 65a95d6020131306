-- ===== src/Client/Puts.antt =====
-- What a client reads after its puts, through the compute node and the storage nodes.
use rockskv.Client.{Attempted, retry, get, put, exists, set_if_absent, replied, gave_up, not_tried}
use rockskv.Compute.Handlers.{put as compute_put, get as compute_get, Cluster, Calls}
use rockskv.Compute.{Router}
use rockskv.Prelude.{
  ◌==◌, if◌then◌else◌, if_true, Bool-cases, Option-cases, ℕ, zero, suc, ◌+◌, ◌≡◌, refl, ap, ◌∙◌,
  ◌≢◌, ◌⊎◌, inl, inr, Bool, true, false, Option, none, some, arith,
}
use rockskv.Bytes.{Bytes, bytes_eq, bytes_eq_iff}
use rockskv.Rocks.{RocksDb, IsStore}
use rockskv.Replication.{Tick}
use rockskv.Compute.Reads.{all_answered, get-put_routed}

-- the number of the calls so far, and the storage nodes
abbrev pub Network : Type 0 → Type 0
Network Db = ℕ × Cluster Db

module _ {Db : Type 0} (rocks : RocksDb Db) (sum64 : Bytes → ℕ) (r : Router) where
  -- the calls that the client makes; `c` is what becomes of each, by its number. A put that fails
  -- is an error of the call.
  abbrev pub call_put : (ℕ → Calls) → Bytes → Bytes → Network Db → Network Db × Option Bool
  call_put c key value (n, cluster) =
      let (after, done) = compute_put rocks sum64 (c n) key value r cluster in
      ((n + 1, after), if done then some true else none)

  abbrev pub call_get : (Bytes → ℕ → Tick) → Bytes → Network Db → Network Db × Option (Option Bytes)
  call_get ticks key s = (s, compute_get rocks sum64 (all_answered ticks) key r s.1)

-- an answer is that of the last attempt
retry_replied :
    {S A : Type 0} (n : ℕ) (call : S → S × Option A) (s : S) (a : A)
    → (retry n call s).1 ≡ replied a
    → (before : S) × (((retry n call s).0 ≡ (call before).0) × ((call before).1 ≡ some a))
unfolding retry
retry_replied zero call s a h = absurd (ground arith)
retry_replied (suc n) call s a h = elim (Option-cases (call s).1) [
  | inr (x, e) ↦ (s, (ground arith, ground arith))
  | inl e ↦ elim (Bool-cases (n == 0)) [
    | inl last ↦ absurd (ground arith)
    | inr more ↦
        let (before, (same, answered_)) = retry_replied n call (call s).0 a (ground arith) in
        (before, (ground arith, answered_))
  ]
]

Attempted-cases :
    {A : Type 0} (x : Attempted A) → ((a : A) × (x ≡ replied a)) ⊎ ((x ≡ gave_up) ⊎ (x ≡ not_tried))
Attempted-cases (replied a) = inl (a, refl)
Attempted-cases gave_up = inr (inl refl)
Attempted-cases not_tried = inr (inr refl)

retry_tried :
    {S A : Type 0} (n : ℕ) (call : S → S × Option A) (s : S) → (retry (suc n) call s).1 ≢ not_tried
unfolding retry
retry_tried zero call s h = ground arith
retry_tried (suc n) call s h = ground (arith, retry_tried n call (call s).0)

put_ok :
    {S : Type 0} (attempts : ℕ) (call : S → S × Option Bool) (s : S)
    → (put attempts call s).1 ≡ true
    → ((attempts ≡ 0) × ((put attempts call s).0 ≡ s))
      ⊎ ((before : S) × (((put attempts call s).0 ≡ (call before).0)
            × ((call before).1 ≡ some true)))
unfolding put
put_ok zero call s h = inl (refl, unfold retry in refl)
put_ok (suc n) call s h = elim (Attempted-cases (retry (suc n) call s).1) [
  | inl (a, e) ↦
      let (before, (same, answered_)) = retry_replied (suc n) call s a e in
      inr (before, (ground arith, ground arith))
  | inr (inl e) ↦ absurd (ground arith)
  | inr (inr e) ↦ absurd (retry_tried n call s e)
]

exists_read :
    {S : Type 0} (n : ℕ) (read : S → Option (Option Bytes)) (s : S)
    → read s ≡ some none
    → exists (suc n) (λ x. (x, read x)) s ≡ (s, some false)
exists_read {S} n read s absent = looked
  where
    tried : retry (suc n) (λ (x : S). (x, read x)) s ≡ (s, replied none)
    tried = unfold retry in ground arith

    got : get (suc n) (λ (x : S). (x, read x)) s ≡ (s, some none)
    got = unfold get in ground (arith, tried)

    looked : exists (suc n) (λ (x : S). (x, read x)) s ≡ (s, some false)
    looked = unfold exists in ground (arith, got)

module _ {Db : Type 0} (rocks : RocksDb Db) (laws : IsStore Db rocks) (sum64 : Bytes → ℕ)
    (r : Router) (ticks : Bytes → ℕ → Tick) where
  put_through :
      (c : ℕ → Calls) (key value j : Bytes) (s : Network Db)
      → (call_put rocks sum64 r c key value s).1 ≡ some true
      → compute_get rocks sum64 (all_answered ticks) j r (call_put rocks sum64 r c key value s).0.1
        ≡ (if bytes_eq key j
            then some (some value)
            else compute_get rocks sum64 (all_answered ticks) j r s.1)
  put_through c key value j s h =
      get-put_routed rocks laws sum64 (c s.0) ticks r key value j s.1 (ground arith)

  -- A put of the client that returns without an error, however many of its attempts failed or lost
  -- their answers: a read of the key through the compute node's routes finds the value, with every
  -- call answered; or no attempt was allowed (a negative MaxRetries), and nothing was written.
  pub get-client_put :
      (attempts : ℕ) (c : ℕ → Calls) (key value : Bytes) (s : Network Db)
      → (put attempts (call_put rocks sum64 r c key value) s).1 ≡ true
      → let after = (put attempts (call_put rocks sum64 r c key value) s).0 in
        ((attempts ≡ 0) × (after ≡ s))
        ⊎ (compute_get rocks sum64 (all_answered ticks) key r after.1 ≡ some (some value))
  get-client_put attempts c key value s h = elim (put_ok attempts _ s h) [
    | inl untried ↦ inl untried
    | inr (before, (same, done)) ↦ inr (
        ap (λ (x : Network Db). compute_get rocks sum64 (all_answered ticks) key r x.1) same
        ∙ put_through c key value key before done
        ∙ if_true (bytes_eq key key) _ _ ((bytes_eq_iff key key).1 refl))
  ]

  exists_absent :
      (attempts : ℕ) (key : Bytes) (s : Network Db)
      → compute_get rocks sum64 (all_answered ticks) key r s.1 ≡ some none
      → exists (suc attempts) (call_get rocks sum64 r ticks key) s ≡ (s, some false)
  exists_absent attempts key s absent =
      exists_read attempts
        (λ (x : Network Db). compute_get rocks sum64 (all_answered ticks) key r x.1) s absent

  set_absent :
      (attempts : ℕ) (c : ℕ → Calls) (key value : Bytes) (s : Network Db)
      → (put (suc attempts) (call_put rocks sum64 r c key value) s).1 ≡ true
      → set_if_absent (some false) (suc attempts) (call_put rocks sum64 r c key value) s
        ≡ ((put (suc attempts) (call_put rocks sum64 r c key value) s).0, some true)
  unfolding set_if_absent
  set_absent attempts c key value s done = rw done refl

  -- `SetNX` of two clients, each of which looks before the other writes: of a key that is absent,
  -- with every read answered and both puts successful, both report that they set it, and the value
  -- of the first is gone.
  pub set_nx_both :
      (attempts : ℕ) (c d : ℕ → Calls) (key value other : Bytes) (s : Network Db)
      → let call1 = call_put rocks sum64 r c key value in
        let call2 = call_put rocks sum64 r d key other in
        let look = call_get rocks sum64 r ticks key in
        let (looked1, present1) = exists (suc attempts) look s in
        let (looked2, present2) = exists (suc attempts) look looked1 in
        let (set1, done1) = set_if_absent present1 (suc attempts) call1 looked2 in
        let (set2, done2) = set_if_absent present2 (suc attempts) call2 set1 in
        compute_get rocks sum64 (all_answered ticks) key r s.1 ≡ some none
        → (put (suc attempts) call1 s).1 ≡ true
        → (put (suc attempts) call2 (put (suc attempts) call1 s).0).1 ≡ true
        → (done1 ≡ some true)
          × ((done2 ≡ some true)
              × (compute_get rocks sum64 (all_answered ticks) key r set2.1 ≡ some (some other)))
  set_nx_both attempts c d key value other s absent ok1 ok2 =
      let put1 = put (suc attempts) (call_put rocks sum64 r c key value) s in
      rw
        (
          exists_absent attempts key s absent,
          exists_absent attempts key s absent,
          set_absent attempts c key value s ok1,
          set_absent attempts d key other put1.0 ok2,
        )
        (
          refl,
          (
            refl,
            elim (get-client_put (suc attempts) d key other put1.0 ok2) [
              | inl none_ ↦ absurd (omega (arith, none_.0))
              | inr read ↦ read
            ],
          ),
        )
