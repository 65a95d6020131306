-- ===== src/Client/Tests.antt =====
-- Clients over the compute node and the storage node of Compute/Tests.
use rockskv.Client.{put, exists, set_if_absent}
use rockskv.Compute.Handlers.{put as compute_put, get as compute_get, Calls, lost_answer}
use rockskv.Prelude.{◌==◌, if◌then◌else◌, ℕ, ◌≡◌, refl, ◌⊎◌, Bool, true, none, some}
use rockskv.Prelude.Dict.{lookup}
use rockskv.Bytes.{ascii, bytes_eq}
use rockskv.Rocks.LogDb.{Writes, log_db, log_db-IsStore}
use rockskv.Compute.Reads.{all_answered}
use rockskv.Compute.Tests.{router, sum64, cluster, ticks}
use rockskv.Client.Puts.{Network, call_put, call_get, get-client_put, set_nx_both}

-- the answer of the first call is lost
abbrev calls : ℕ → Calls
calls n =
    if n == 0
    then record (all_answered ticks) { delivery = λ _. lost_answer }
    else all_answered ticks

abbrev start : Network Writes
start = (0, cluster)

put_succeeds : (put 3 (call_put log_db sum64 router calls (ascii "k") (ascii "v")) start).1 ≡ true
unfolding put compute_put lookup bytes_eq
put_succeeds = refl

get-client_put_example :
    let after = (put 3 (call_put log_db sum64 router calls (ascii "k") (ascii "v")) start).0 in
    ((◌≡◌ {A = ℕ} 3 0) × (after ≡ start))
    ⊎ (compute_get log_db sum64 (all_answered ticks) (ascii "k") router after.1
        ≡ some (some (ascii "v")))
get-client_put_example =
    get-client_put log_db log_db-IsStore sum64 router ticks 3 calls (ascii "k") (ascii "v") start
      put_succeeds

key_absent : compute_get log_db sum64 (all_answered ticks) (ascii "k") router cluster ≡ some none
unfolding compute_get lookup bytes_eq
key_absent = refl

abbrev first_put : Network Writes × Bool
first_put = put 2 (call_put log_db sum64 router calls (ascii "k") (ascii "v")) start

first_succeeds : first_put.1 ≡ true
unfolding put compute_put lookup bytes_eq
first_succeeds = refl

second_succeeds :
    (put 2 (call_put log_db sum64 router calls (ascii "k") (ascii "w")) first_put.0).1 ≡ true
unfolding put compute_put lookup bytes_eq
second_succeeds = refl

set_nx_both_example :
    let call1 = call_put log_db sum64 router calls (ascii "k") (ascii "v") in
    let call2 = call_put log_db sum64 router calls (ascii "k") (ascii "w") in
    let look = call_get log_db sum64 router ticks (ascii "k") in
    let (looked1, present1) = exists 2 look start in
    let (looked2, present2) = exists 2 look looked1 in
    let (set1, done1) = set_if_absent present1 2 call1 looked2 in
    let (set2, done2) = set_if_absent present2 2 call2 set1 in
    (done1 ≡ some true)
    × ((done2 ≡ some true)
        × (compute_get log_db sum64 (all_answered ticks) (ascii "k") router set2.1
            ≡ some (some (ascii "w"))))
set_nx_both_example =
    set_nx_both log_db log_db-IsStore sum64 router ticks 1 calls calls (ascii "k") (ascii "v")
      (ascii "w") start key_absent first_succeeds second_succeeds
