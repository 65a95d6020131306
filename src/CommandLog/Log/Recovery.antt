-- ===== src/CommandLog/Log/Recovery.antt =====
-- What a restart finds: the files of a synced log, and those of a log that was cut by a crash.
use rockskv.Prelude.{
  length, take, take-length-append, take-append_le, All, All-left, All-right, All-take, concat,
  take-append_add, map-append, ℕ, zero, suc, ◌+◌, ◌-◌, ◌≡◌, refl, sym, ap, ◌∙◌, inl, List, [], ◌∷◌,
  ◌++◌, map, append-nil, append_assoc, arith,
}
use rockskv.Bytes.{Bytes}
use rockskv.CommandLog.{CommandEntry, sealed, encode, decode_command_entry, read_full}
use rockskv.CommandLog.Codec.{IsWellFormed, decode_torn}
use rockskv.CommandLog.Scan.{read_all, encode_all, IsEnd, read_all-encode_all}
use mathlib.Core.Path.{subst}
use native.Mathlib.Decide.{dec_lt}
use rockskv.CommandLog.Log.{CommandLog, files, sync}
use rockskv.CommandLog.Log.Writes.{IsLogOf}
use rockskv.CommandLog.Log.Reads.{read_dir}

at-IsEnd : IsEnd []
unfolding decode_command_entry read_full
at-IsEnd = inl refl

read_dir-append : (fs gs : List (ℕ × Bytes)) → read_dir (fs ++ gs) ≡ read_dir fs ++ read_dir gs
unfolding read_dir
read_dir-append [] gs = refl
read_dir-append ((num, bytes) ∷ fs) gs = rw (read_dir-append fs gs, append_assoc)

read_file :
    (es : List CommandEntry) → All IsWellFormed es → read_all (encode_all es) ≡ map sealed es
read_file es w = rw append-nil at (read_all-encode_all es [] w at-IsEnd)

cons_parts : {A : Type 0} {x y : A} {xs ys : List A} → x ∷ xs ≡ y ∷ ys → (x ≡ y) × (xs ≡ ys)
cons_parts e = (cc, cc)

-- whole files
read_dir_lem :
    (fs : List (ℕ × Bytes)) (ess : List (List CommandEntry))
    → map (λ (f : ℕ × Bytes). f.1) fs ≡ map encode_all ess
    → All IsWellFormed (concat ess)
    → read_dir fs ≡ map sealed (concat ess)
unfolding read_dir
read_dir_lem [] [] e w = refl
read_dir_lem [] (es ∷ ess) e w = cc
read_dir_lem (f ∷ fs) [] e w = cc
read_dir_lem ((num, bytes) ∷ fs) (es ∷ ess) e w =
    let (same, others) = cons_parts e in
    rw (same, read_file es (All-left IsWellFormed es (concat ess) w), map-append)
      (ap (λ l. map sealed es ++ l)
        (read_dir_lem fs ess others (All-right IsWellFormed es (concat ess) w)))

read_older :
    (cl : CommandLog) (es : List CommandEntry) (h : IsLogOf cl es)
    → read_dir cl.older_files ≡ map sealed (concat h.older)
read_older cl es h = read_dir_lem cl.older_files h.older h.older_bytes (
    All-left IsWellFormed (concat h.older) h.current
      (subst (All IsWellFormed) (sym h.in_order) h.well_formed))

current-IsWellFormed :
    (cl : CommandLog) (es : List CommandEntry) (h : IsLogOf cl es) → All IsWellFormed h.current
current-IsWellFormed cl es h =
    All-right IsWellFormed (concat h.older) h.current
      (subst (All IsWellFormed) (sym h.in_order) h.well_formed)

-- After `Sync`, the files of a log that holds given entries in its files and its buffer hold
-- exactly these entries, in order.
pub read_dir-sync :
    (cl : CommandLog) (es : List CommandEntry)
    → IsLogOf cl es
    → read_dir (files (sync cl)) ≡ map sealed es
unfolding files sync
read_dir-sync cl es h =
    rw (read_dir-append, read_older cl es h)
      (unfold read_dir in
        rw
          (
            h.current_bytes,
            read_file h.current (current-IsWellFormed cl es h),
            append-nil,
            ← map-append,
          )
          (ap (map sealed) h.in_order))

-- A prefix of a file of entries is some entries and a torn tail.
cut :
    (n : ℕ) (es : List CommandEntry)
    → All IsWellFormed es
    → (k : ℕ) × (tail : Bytes) × IsEnd tail
      × (take n (encode_all es) ≡ encode_all (take k es) ++ tail)
unfolding encode_all
cut zero [] w = (0, [], at-IsEnd, refl)
cut (suc n) [] w = (0, [], at-IsEnd, refl)
cut n (e ∷ es) w = elim (dec_lt n (length (encode e))) [
  | yes torn ↦ (
    0,
    take n (encode e),
    decode_torn e n w.0 torn,
    take-append_le n (encode e) (encode_all es) (omega arith),
  )
  | no whole ↦
      let (k, tail, ends, same) = cut (n - length (encode e)) es w.1 in
      let split : n ≡ length (encode e) + (n - length (encode e)) = omega arith in
      (
        suc k,
        tail,
        ends,
        ap (λ m. take m (encode e ++ encode_all es)) split
            ∙ take-append_add (n - length (encode e)) (encode e) (encode_all es)
            ∙ ap (λ l. encode e ++ l) same
            ∙ sym (append_assoc (encode e) (encode_all (take k es)) tail),
      )
]

-- Of a log that holds given entries in its files and its buffer, whatever it has not flushed when
-- the process dies, the files hold a prefix of the entries: none is lost from the middle, reordered
-- or torn.
pub read_dir_crash :
    (cl : CommandLog) (es : List CommandEntry)
    → IsLogOf cl es
    → (k : ℕ) × (read_dir (files cl) ≡ map sealed (take k es))
unfolding files
read_dir_crash cl es h =
    let all_current = current-IsWellFormed cl es h in
    let (k, tail, ends, same) = cut (length cl.written) h.current all_current in
    let prefix : cl.written ≡ encode_all (take k h.current) ++ tail =
      sym (take-length-append (length cl.written) cl.written cl.buffered refl)
      ∙ ap (take (length cl.written)) h.current_bytes
      ∙ same in
    let found : read_all cl.written ≡ map sealed (take k h.current) =
      ap read_all prefix
      ∙ read_all-encode_all (take k h.current) tail (All-take IsWellFormed k h.current all_current)
          ends in
    (
      length (concat h.older) + k,
      read_dir-append cl.older_files ((cl.file_num, cl.written) ∷ [])
          ∙ rw (read_older cl es h) (
              unfold read_dir in
              rw (append-nil, found, ← map-append)
                (ap (map sealed) (
                  sym (take-append_add k (concat h.older) h.current)
                  ∙ ap (take (length (concat h.older) + k)) h.in_order))),
    )
