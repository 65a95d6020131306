-- ===== src/CommandLog/Log/Reads.antt =====
-- `readFromFullScan` of pkg/storage/command_log.go, and what it returns.
use rockskv.Prelude.{
  ltb, leb, if◌then◌else◌, Bool-cases, Outcome, ok, err, panic, length, take, length-append,
  take-length-append, ℕ, zero, suc, ◌≤◌, ◌≡◌, refl, sym, ap, ◌∙◌, inl, inr, true, false, List, [],
  ◌∷◌, ◌++◌, append-nil, append_assoc, arith,
}
use rockskv.Bytes.{Bytes}
use rockskv.CommandLog.{CommandEntry, decode_command_entry, ReadError}
use rockskv.CommandLog.Scan.{scan, read_all}

-- the loop over one file; `entries` are those that were read before
unfoldable pub read_entries : ℕ → ℕ → ℕ → Bytes → List CommandEntry → List CommandEntry
read_entries zero from_seq limit r entries = entries
read_entries (suc fuel) from_seq limit r entries =
    let step : List CommandEntry = elim (decode_command_entry r) [
      | ok p ↦
          read_entries fuel from_seq limit p.1
            (if leb from_seq p.0.sequence then entries ++ (p.0 ∷ []) else entries)
      | err x ↦ entries
      | panic ↦ entries
    ] in
    if ltb (length entries) limit then step else entries

-- the loop over the files
unfoldable pub scan_files : ℕ → ℕ → List (ℕ × Bytes) → List CommandEntry → List CommandEntry
unfolding read_entries
scan_files from_seq limit [] entries = entries
scan_files from_seq limit ((num, bytes) ∷ fs) entries =
    let found = read_entries (length bytes) from_seq limit bytes entries in
    let rest = scan_files from_seq limit fs found in
    if leb limit (length found) then found else rest

unfoldable pub read_from_full_scan : ℕ → ℕ → List (ℕ × Bytes) → List CommandEntry
unfolding scan_files
read_from_full_scan from_seq limit fs = scan_files from_seq limit fs []

-- The entries with at least the given sequence number.
abbrev pub select : ℕ → List CommandEntry → List CommandEntry
select n [] = []
select n (e ∷ es) = if leb n e.sequence then e ∷ select n es else select n es

-- What the files hold, entry by entry.
unfoldable pub read_dir : List (ℕ × Bytes) → List CommandEntry
read_dir [] = []
read_dir ((num, bytes) ∷ fs) = read_all bytes ++ read_dir fs

select-append :
    (n : ℕ) (xs ys : List CommandEntry) → select n (xs ++ ys) ≡ select n xs ++ select n ys
select-append n [] ys = refl
select-append n (x ∷ xs) ys = ground (arith, select-append n xs ys)

take_whole : (n : ℕ) (xs : List CommandEntry) → length xs ≤ n → take n xs ≡ xs
take_whole zero [] h = refl
take_whole zero (x ∷ xs) h = absurd (omega arith)
take_whole (suc n) [] h = refl
take_whole (suc n) (x ∷ xs) h = ap (λ l. x ∷ l) (take_whole n xs (omega arith))

read_entries_lem :
    (fuel from_seq limit : ℕ) (r : Bytes) (entries : List CommandEntry)
    → length entries ≤ limit
    → read_entries fuel from_seq limit r entries
      ≡ take limit (entries ++ select from_seq (scan fuel r))
unfolding read_entries scan
read_entries_lem zero from_seq limit r entries h = rw append-nil (sym (take_whole limit entries h))
read_entries_lem (suc fuel) from_seq limit r entries h =
    elim (Bool-cases (ltb (length entries) limit)) [
      | inl room ↦ rw room (
          go (λ rest acc k. read_entries_lem fuel from_seq limit rest acc k)
            (decode_command_entry r) room)
      | inr full ↦ rw (full, read_entries) (sym (take-length-append limit entries _ (ground arith)))
    ]
  where
    next : CommandEntry × Bytes → List CommandEntry
    next p = if leb from_seq p.0.sequence then entries ++ (p.0 ∷ []) else entries

    ends : entries ≡ take limit (entries ++ [])
    ends = rw append-nil (sym (take_whole limit entries h))

    go :
        ((rest : Bytes) (acc : List CommandEntry)
          → length acc ≤ limit
          → read_entries fuel from_seq limit rest acc
            ≡ take limit (acc ++ select from_seq (scan fuel rest)))
        → (o : Outcome ReadError (CommandEntry × Bytes)) → ltb (length entries) limit ≡ true
        → (elim o as (λ _. List CommandEntry) [
          | ok p ↦ read_entries fuel from_seq limit p.1 (next p)
          | err x ↦ entries
          | panic ↦ entries
        ])
          ≡ take limit (
              entries
              ++ select from_seq (elim o as (λ _. List CommandEntry) [
                | ok p ↦ p.0 ∷ scan fuel p.1
                | err x ↦ []
                | panic ↦ []
              ]))
    go ih (ok (e, rest)) room = elim (Bool-cases (leb from_seq e.sequence)) [
      | inl take_it ↦ rw take_it (
          ih rest (entries ++ (e ∷ [])) (ground (arith, length-append entries (e ∷ [])))
          ∙ rw append_assoc)
      | inr skip ↦ rw skip (ih rest entries h)
    ]
    go ih (err x) room = ends
    go ih panic room = ends

take_under :
    (n : ℕ) (xs ys : List CommandEntry)
    → (leb n (length (take n xs)) ≡ true → take n xs ≡ take n (xs ++ ys))
      × (leb n (length (take n xs)) ≡ false → take n xs ≡ xs)
take_under zero xs ys = (λ h. refl, λ h. cc)
take_under (suc n) [] ys = ground arith
take_under (suc n) (x ∷ xs) ys = ground (arith, take_under n xs ys)

read_file_lem :
    (from_seq limit : ℕ) (bytes : Bytes) (entries : List CommandEntry)
    → length entries ≤ limit
    → read_entries (length bytes) from_seq limit bytes entries
      ≡ take limit (entries ++ select from_seq (read_all bytes))
unfolding read_all
read_file_lem from_seq limit bytes entries h =
    read_entries_lem (length bytes) from_seq limit bytes entries h

scan_files_lem :
    (from_seq limit : ℕ) (fs : List (ℕ × Bytes)) (entries : List CommandEntry)
    → length entries ≤ limit
    → scan_files from_seq limit fs entries ≡ take limit (entries ++ select from_seq (read_dir fs))
unfolding scan_files read_dir
scan_files_lem from_seq limit [] entries h = rw append-nil (sym (take_whole limit entries h))
scan_files_lem from_seq limit ((num, bytes) ∷ fs) entries h =
    let inner : List CommandEntry = entries ++ select from_seq (read_all bytes) in
    let split = take_under limit inner (select from_seq (read_dir fs)) in
    rw (read_file_lem from_seq limit bytes entries h) (
      rw (select-append from_seq (read_all bytes) (read_dir fs), ← append_assoc)
        (elim (Bool-cases (leb limit (length (take limit inner)))) [
          | inl full ↦ rw full (split.0 full)
          | inr room ↦
              rw (room, split.1 room)
                (scan_files_lem from_seq limit fs inner (ground (arith, split.1 room)))
        ]))

-- `readFromFullScan` returns the first `limit` of the entries with at least the given sequence
-- number, over all files in order, each file read up to its first undecodable entry.
pub read_from_full_scan_lem :
    (from_seq limit : ℕ) (fs : List (ℕ × Bytes))
    → read_from_full_scan from_seq limit fs ≡ take limit (select from_seq (read_dir fs))
unfolding read_from_full_scan
read_from_full_scan_lem from_seq limit fs = scan_files_lem from_seq limit fs [] (omega arith)
