-- ===== src/Replication/Read.antt =====
-- What `ReadFrom` of the command log returns, by the index or by a full scan.
use mathlib.Core.Path.{subst}
use rockskv.Prelude.{
  leb, Bool-cases, length, take, drop, All, ℕ, zero, suc, ◌+◌, ◌-◌, ◌≤◌, ◌≡◌, refl, sym, inl, inr,
  Option, none, some, List, [], ◌∷◌, arith,
}
use rockskv.Bytes.{Bytes}
use rockskv.CommandLog.{CommandEntry}
use rockskv.CommandLog.Log.{LogPosition, CommandLog, files}
use rockskv.CommandLog.Log.Reads.{
  scan_files, read_from_full_scan, select, read_dir, read_from_full_scan_lem,
}
use rockskv.CommandLog.Log.Replay.{first_indexed, files_from, read_from_index, read_from}

-- At most `limit` entries, none before `from_seq`.
abbrev pub IsBatch : ℕ → ℕ → List CommandEntry → Type 0
IsBatch from_seq limit es =
    All (λ (e : CommandEntry). from_seq ≤ e.sequence) es × (length es ≤ limit)

All-select :
    (n : ℕ) (es : List CommandEntry) → All (λ (e : CommandEntry). n ≤ e.sequence) (select n es)
All-select n [] = tt
All-select n (e ∷ es) = elim (Bool-cases (leb n e.sequence)) [
  | inl in_range ↦ rw in_range (ground arith, All-select n es)
  | inr before ↦ rw before (All-select n es)
]

length-take-le : (n : ℕ) (es : List CommandEntry) → length (take n es) ≤ n
length-take-le zero es = omega arith
length-take-le (suc n) [] = omega arith
length-take-le (suc n) (e ∷ es) = omega (arith, length-take-le n es)

All-first :
    (m n : ℕ) (es : List CommandEntry)
    → All (λ (e : CommandEntry). m ≤ e.sequence) es
    → All (λ (e : CommandEntry). m ≤ e.sequence) (take n es)
All-first m zero es h = tt
All-first m (suc n) [] h = tt
All-first m (suc n) (e ∷ es) (h, hs) = (h, All-first m n es hs)

scan_files_taken :
    (from_seq limit : ℕ) (fs : List (ℕ × Bytes))
    → scan_files from_seq limit fs [] ≡ take limit (select from_seq (read_dir fs))
unfolding read_from_full_scan
scan_files_taken from_seq limit fs = read_from_full_scan_lem from_seq limit fs

scan_files-IsBatch :
    (from_seq limit : ℕ) (fs : List (ℕ × Bytes))
    → IsBatch from_seq limit (scan_files from_seq limit fs [])
scan_files-IsBatch from_seq limit fs =
    subst (IsBatch from_seq limit) (sym (scan_files_taken from_seq limit fs)) (
      All-first from_seq limit (select from_seq (read_dir fs)) (All-select from_seq (read_dir fs)),
      length-take-le limit (select from_seq (read_dir fs)),
    )

read_from_index-IsBatch :
    (start : LogPosition) (from_seq limit : ℕ) (fs : List (ℕ × Bytes)) (es : List CommandEntry)
    → read_from_index start from_seq limit fs ≡ some es
    → IsBatch from_seq limit es
unfolding read_from_index
read_from_index-IsBatch start from_seq limit fs es e = go (files_from start.file_num fs) e
  where
    go :
        (found : List (ℕ × Bytes))
        → (elim found as (λ _. Option (List CommandEntry)) [
          | [] ↦ none
          | (num, bytes) ∷ rest ↦
              some (scan_files from_seq limit ((num, drop start.offset bytes) ∷ rest) [])
        ])
          ≡ some es
        → IsBatch from_seq limit es
    go [] e = cc
    go ((num, bytes) ∷ rest) e =
        subst (IsBatch from_seq limit) (cc)
          (scan_files-IsBatch from_seq limit ((num, drop start.offset bytes) ∷ rest))

pub read_from-IsBatch :
    (from_seq limit : ℕ) (cl : CommandLog) → IsBatch from_seq limit (read_from from_seq limit cl)
unfolding read_from read_from_full_scan
read_from-IsBatch from_seq limit cl =
    go (first_indexed (cl.current_seq + 1 - from_seq) from_seq cl.index)
  where
    full : IsBatch from_seq limit (scan_files from_seq limit (files cl) [])
    full = scan_files-IsBatch from_seq limit (files cl)

    choose :
        (o : Option (List CommandEntry))
        → ((es : List CommandEntry) → o ≡ some es → IsBatch from_seq limit es)
        → IsBatch from_seq limit (elim o as (λ _. List CommandEntry) [
          | none ↦ scan_files from_seq limit (files cl) []
          | some [] ↦ scan_files from_seq limit (files cl) []
          | some (e ∷ es) ↦ e ∷ es
        ])
    choose none g = full
    choose (some []) g = full
    choose (some (e ∷ es)) g = g (e ∷ es) refl

    go :
        (o : Option LogPosition)
        → IsBatch from_seq limit (elim o as (λ _. List CommandEntry) [
          | none ↦ scan_files from_seq limit (files cl) []
          | some start ↦
              elim (read_from_index start from_seq limit (files cl)) as (λ _. List CommandEntry) [
                | none ↦ scan_files from_seq limit (files cl) []
                | some [] ↦ scan_files from_seq limit (files cl) []
                | some (e ∷ es) ↦ e ∷ es
              ]
        ])
    go none = full
    go (some start) =
        choose (read_from_index start from_seq limit (files cl))
          (λ es e. read_from_index-IsBatch start from_seq limit (files cl) es e)
