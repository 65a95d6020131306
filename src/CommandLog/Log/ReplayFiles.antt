-- ===== src/CommandLog/Log/ReplayFiles.antt =====
-- The loops of a replay over its files are one loop over the entries that the files hold.
use rockskv.Prelude.{
  Outcome, ok, err, panic, length, ℕ, zero, suc, ◌≡◌, refl, sym, ap, ◌∙◌, ◌⊎◌, inl, inr, Bool,
  Option, none, some, List, [], ◌∷◌, ◌++◌,
}
use rockskv.Bytes.{Bytes}
use rockskv.Rocks.{RocksDb}
use rockskv.CommandLog.{CommandEntry, decode_command_entry, ReadError}
use rockskv.CommandLog.Scan.{scan, read_all}
use rockskv.CommandLog.Log.Reads.{read_dir}
use rockskv.CommandLog.Log.Replay.{ReplayError, Replayed, replay_entry, replay_file, replay_files}

-- One replay of the commands that `read_dir` finds.
abbrev pub replay_list :
    {Db : Type 0} → RocksDb Db → (ℕ → Bool) → ℕ → ℕ → List CommandEntry → Replayed Db → Replayed Db
replay_list rocks succeeds id from_seq [] st = st
replay_list rocks succeeds id from_seq (e ∷ es) st = elim st.failure [
  | some x ↦ st
  | none ↦ replay_list rocks succeeds id from_seq es (replay_entry rocks succeeds id from_seq e st)
]

module _ {Db : Type 0} (rocks : RocksDb Db) (succeeds : ℕ → Bool) (id from_seq : ℕ) where
  failed_list :
      (es : List CommandEntry) (st : Replayed Db) (x : ReplayError)
      → st.failure ≡ some x
      → replay_list rocks succeeds id from_seq es st ≡ st
  failed_list [] st x h = refl
  failed_list (e ∷ es) st x h = rw h refl

  failure-cases : (o : Option ReplayError) → (o ≡ none) ⊎ ((x : ReplayError) × (o ≡ some x))
  failure-cases none = inl refl
  failure-cases (some x) = inr (x, refl)

  pub running_list :
      (e : CommandEntry) (es : List CommandEntry) (st : Replayed Db)
      → st.failure ≡ none
      → replay_list rocks succeeds id from_seq (e ∷ es) st
        ≡ replay_list rocks succeeds id from_seq es (replay_entry rocks succeeds id from_seq e st)
  running_list e es st h = rw h refl

  replay_list-append :
      (es fs : List CommandEntry) (st : Replayed Db)
      → replay_list rocks succeeds id from_seq (es ++ fs) st
        ≡ replay_list rocks succeeds id from_seq fs (replay_list rocks succeeds id from_seq es st)
  replay_list-append [] fs st = refl
  replay_list-append (e ∷ es) fs st = elim (failure-cases st.failure) [
    | inl h ↦
        rw (running_list e (es ++ fs) st h, running_list e es st h)
          (replay_list-append es fs (replay_entry rocks succeeds id from_seq e st))
    | inr (x, h) ↦
        rw (failed_list (e ∷ (es ++ fs)) st x h, failed_list (e ∷ es) st x h)
          (sym (failed_list fs st x h))
  ]

  failed_file :
      (fuel : ℕ) (r : Bytes) (st : Replayed Db) (x : ReplayError)
      → st.failure ≡ some x
      → replay_file rocks (suc fuel) succeeds id from_seq r st ≡ st
  unfolding replay_file
  failed_file fuel r st x h = rw h refl

  running_file :
      (fuel : ℕ) (r : Bytes) (st : Replayed Db)
      → st.failure ≡ none
      → replay_file rocks (suc fuel) succeeds id from_seq r st
        ≡ elim (decode_command_entry r) as (λ _. Replayed Db) [
          | ok p ↦
              replay_file rocks fuel succeeds id from_seq p.1
                (replay_entry rocks succeeds id from_seq p.0 st)
          | err x ↦ st
          | panic ↦ st
        ]
  unfolding replay_file
  running_file fuel r st h =
      ap
        (λ (f : Option ReplayError). elim f as (λ _. Replayed Db) [
          | some x ↦ st
          | none ↦ elim (decode_command_entry r) as (λ _. Replayed Db) [
            | ok p ↦
                replay_file rocks fuel succeeds id from_seq p.1
                  (replay_entry rocks succeeds id from_seq p.0 st)
            | err x ↦ st
            | panic ↦ st
          ]
        ])
        h

  replay_file_lem :
      (fuel : ℕ) (r : Bytes) (st : Replayed Db)
      → replay_file rocks fuel succeeds id from_seq r st
        ≡ replay_list rocks succeeds id from_seq (scan fuel r) st
  unfolding replay_file scan
  replay_file_lem zero r st = refl
  replay_file_lem (suc fuel) r st = elim (failure-cases st.failure) [
    | inl h ↦
        running_file fuel r st h
        ∙ go (λ rest after. replay_file_lem fuel rest after) (decode_command_entry r) h
    | inr (x, h) ↦ failed_file fuel r st x h ∙ sym (failed_list (scan (suc fuel) r) st x h)
  ]
    where
      go :
          ((rest : Bytes) (after : Replayed Db)
            → replay_file rocks fuel succeeds id from_seq rest after
              ≡ replay_list rocks succeeds id from_seq (scan fuel rest) after)
          → (o : Outcome ReadError (CommandEntry × Bytes)) → st.failure ≡ none
          → (elim o as (λ _. Replayed Db) [
            | ok p ↦
                replay_file rocks fuel succeeds id from_seq p.1
                  (replay_entry rocks succeeds id from_seq p.0 st)
            | err x ↦ st
            | panic ↦ st
          ])
            ≡ replay_list rocks succeeds id from_seq
                (elim o as (λ _. List CommandEntry) [
                  | ok p ↦ p.0 ∷ scan fuel p.1
                  | err x ↦ []
                  | panic ↦ []
                ])
                st
      go ih (ok (e, rest)) h =
          ih rest (replay_entry rocks succeeds id from_seq e st)
          ∙ sym (running_list e (scan fuel rest) st h)
      go ih (err x) h = refl
      go ih panic h = refl

  pub replay_files_lem :
      (fs : List (ℕ × Bytes)) (st : Replayed Db)
      → replay_files rocks succeeds id from_seq fs st
        ≡ replay_list rocks succeeds id from_seq (read_dir fs) st
  unfolding replay_files read_dir read_all
  replay_files_lem [] st = refl
  replay_files_lem ((num, bytes) ∷ fs) st =
      replay_files_lem fs (replay_file rocks (length bytes) succeeds id from_seq bytes st)
      ∙ rw (
        replay_file_lem (length bytes) bytes st,
        replay_list-append (scan (length bytes) bytes) (read_dir fs) st,
      )
