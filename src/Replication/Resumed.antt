-- ===== src/Replication/Resumed.antt =====
-- What the replica of a replicator is sent: the calls, and how they follow from the position of their
-- time.
use mathlib.Core.Path.{subst}
use rockskv.Prelude.{
  length, All, ℕ, suc, ◌+◌, ◌^◌, ◌≤◌, ◌<◌, ◌≡◌, refl, ap, Bool, Option, none, some, List, [], ◌∷◌,
  ◌++◌, map, arith,
}
use rockskv.Bytes.{Bytes}
use rockskv.CommandLog.{CommandEntry}
use rockskv.Replication.{
  cl_batch_size, CommandLogReplicator, load_checkpoint, Tick, Command, append_command,
  ReplicationEntry, replication_entry, ReplicateResponse, Replica, last_sequence, sync_to_replica,
  update_replica_addr,
}

-- a call of `Replicate`: the sequence numbers that it sends, and the answer
pub record Call : Type 0 where
  pub offsets : List ℕ
  pub response : Option ReplicateResponse

-- what happens to a replicator: a round of the loop, which may connect, an append, a new address
pub data Action : Type 0 where
  synced : Bool → Action
  appended : Command → Tick → Action
  readdressed : Bytes → Action

abbrev pub offsets_of : List ReplicationEntry → List ℕ
offsets_of [] = []
offsets_of (e ∷ es) = e.offset ∷ offsets_of es

-- the replica with the calls that it gets
abbrev pub recording : {S : Type 0} → Replica S → Replica (S × List Call)
recording replica id entries (s, calls) =
    let (after, response) = replica id entries s in
    ((after, record { offsets = offsets_of entries; response = response } ∷ calls), response)

abbrev pub perform :
    {S : Type 0}
    → Replica S
    → Action
    → CommandLogReplicator
    → S
    → CommandLogReplicator × (S × List Call)
perform replica (synced connects) clr s = sync_to_replica (recording replica) connects clr (s, [])
perform replica (appended c t) clr s = ((append_command c t clr).0, (s, []))
perform replica (readdressed addr) clr s = (update_replica_addr addr clr, (s, []))

-- the calls in their order
abbrev pub perform_all :
    {S : Type 0}
    → Replica S
    → List Action
    → CommandLogReplicator
    → S
    → CommandLogReplicator × (S × List Call)
perform_all replica [] clr s = (clr, (s, []))
perform_all replica (a ∷ actions) clr s =
    let (after, (s1, calls)) = perform replica a clr s in
    let (last, (s2, more)) = perform_all replica actions after s1 in (last, (s2, calls ++ more))

abbrev pub last_offset : ℕ → List ℕ → ℕ
last_offset v [] = v
last_offset v (o ∷ os) = last_offset o os

-- the position after a call: an error keeps it, any answer moves it to the last entry
abbrev pub resumed : ℕ → Call → ℕ
resumed v c = elim c.response as (λ _. ℕ) [ none ↦ v | some answer ↦ last_offset v c.offsets ]

-- From the position `v`, the calls end at the position `w`, and each sends at least one entry and
-- not more than a batch, all of them behind the position of its time.
abbrev pub IsResumed : ℕ → List Call → ℕ → Type 0
IsResumed v [] w = w ≡ v
IsResumed v (c ∷ cs) w =
    All (λ (o : ℕ). v < o) c.offsets
    × ((0 < length c.offsets) × (length c.offsets ≤ cl_batch_size))
    × IsResumed (resumed v c) cs w

pub IsResumed-append :
    (u v w : ℕ) (xs ys : List Call) → IsResumed u xs v → IsResumed v ys w → IsResumed u (xs ++ ys) w
IsResumed-append u v w [] ys e h = subst (λ x. IsResumed x ys w) e h
IsResumed-append u v w (c ∷ cs) ys (behind, size, rest) h =
    (behind, size, IsResumed-append (resumed u c) v w cs ys rest h)

-- After each call, the calls that follow send only entries behind the position that it leaves.
abbrev pub IsNotResent : ℕ → List Call → Type 0
IsNotResent v [] = Unit
IsNotResent v (c ∷ cs) =
    All (λ (d : Call). All (λ (o : ℕ). resumed v c < o) d.offsets) cs × IsNotResent (resumed v c) cs

All-lt : (u v : ℕ) (os : List ℕ) → u ≤ v → All (λ (o : ℕ). v < o) os → All (λ (o : ℕ). u < o) os
All-lt u v [] h a = tt
All-lt u v (o ∷ os) h (b, a) = (omega arith, All-lt u v os h a)

le-last_offset : (u v : ℕ) (os : List ℕ) → u ≤ v → All (λ (o : ℕ). u < o) os → u ≤ last_offset v os
le-last_offset u v [] h a = h
le-last_offset u v (o ∷ os) h (b, a) = le-last_offset u o os (omega arith) a

le-resumed : (v : ℕ) (c : Call) → All (λ (o : ℕ). v < o) c.offsets → v ≤ resumed v c
le-resumed v c behind =
    elim c.response
      as (λ (r : Option ReplicateResponse).
        v ≤ elim r as (λ _. ℕ) [ none ↦ v | some answer ↦ last_offset v c.offsets ]) [
          | none ↦ omega arith
          | some answer ↦ le-last_offset v v c.offsets (omega arith) behind
        ]

calls_behind :
    (u v w : ℕ) (cs : List Call)
    → u ≤ v
    → IsResumed v cs w
    → All (λ (d : Call). All (λ (o : ℕ). u < o) d.offsets) cs
calls_behind u v w [] h a = tt
calls_behind u v w (c ∷ cs) h (behind, size, rest) =
    let later = le-resumed v c behind in
    (All-lt u v c.offsets h behind, calls_behind u (resumed v c) w cs (omega arith) rest)

pub IsResumed-IsNotResent : (v w : ℕ) (cs : List Call) → IsResumed v cs w → IsNotResent v cs
IsResumed-IsNotResent v w [] h = tt
IsResumed-IsNotResent v w (c ∷ cs) (behind, size, rest) = (
  calls_behind (resumed v c) (resumed v c) w cs (omega arith) rest,
  IsResumed-IsNotResent (resumed v c) w cs rest,
)

-- What a replicator has between its actions: its sequence numbers are of 64 bits, and a restart
-- resumes where it is.
abbrev pub IsSaved : CommandLogReplicator → Type 0
IsSaved clr =
    (clr.command_log.current_seq < 2 ^ 64) × (load_checkpoint clr.checkpoint ≡ clr.replicated_seq)

abbrev pub StepOf :
    {S : Type 0} → CommandLogReplicator → CommandLogReplicator × (S × List Call) → Type 0
StepOf clr (after, (s, calls)) =
    IsResumed clr.replicated_seq calls after.replicated_seq × IsSaved after

pub offsets-behind :
    (v : ℕ) (es : List CommandEntry)
    → All (λ (e : CommandEntry). v + 1 ≤ e.sequence) es
    → All (λ (o : ℕ). v < o) (offsets_of (map replication_entry es))
unfolding replication_entry
offsets-behind v [] h = tt
offsets-behind v (e ∷ es) (h, hs) = (omega arith, offsets-behind v es hs)

pub length-offsets :
    (es : List CommandEntry) → length (offsets_of (map replication_entry es)) ≡ length es
length-offsets [] = refl
length-offsets (e ∷ es) = ap suc (length-offsets es)

pub last-offsets :
    (v : ℕ) (es : List CommandEntry)
    → last_offset v (offsets_of (map replication_entry es)) ≡ last_sequence v es
unfolding replication_entry
last-offsets v [] = refl
last-offsets v (e ∷ es) = last-offsets e.sequence es
