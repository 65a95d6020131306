-- ===== src/Server/MemoryFiles.antt =====
-- Files of entries for the database of Rocks/LogDb, which have the laws of IsSst: every string is
-- its bytes, each behind a 1, up to a 0; every entry is two strings behind a 3, and a 2 ends the
-- file.
use rockskv.Prelude.{
  ◌==◌, if◌then◌else◌, length, ℕ, zero, suc, ◌≤◌, ◌≡◌, refl, ap, ◌∙◌, false, some, List, [], ◌∷◌,
  arith,
}
use rockskv.Bytes.{Bytes}
use rockskv.Rocks.{KeyValueItem, put_ops, last_write, written}
use rockskv.Rocks.LogDb.{Writes, log_db, log_db-IsStore}
use rockskv.Server.Transfer.{SstFiles, IsSst}

abbrev put_string : Bytes → Bytes → Bytes
put_string [] rest = 0 ∷ rest
put_string (b ∷ bs) rest = 1 ∷ b ∷ put_string bs rest

abbrev take_string : Bytes → Bytes × Bytes
take_string [] = ([], [])
take_string (zero ∷ rest) = ([], rest)
take_string (suc n ∷ []) = ([], [])
take_string (suc n ∷ b ∷ rest) = let (bs, left) = take_string rest in (b ∷ bs, left)

take_string-put_string : (bs rest : Bytes) → take_string (put_string bs rest) ≡ (bs, rest)
take_string-put_string [] rest = refl
take_string-put_string (b ∷ bs) rest =
    ap (λ (p : Bytes × Bytes). (b ∷ p.0, p.1)) (take_string-put_string bs rest)

abbrev put_items : List KeyValueItem → Bytes
put_items [] = 2 ∷ []
put_items ((key, value) ∷ items) = 3 ∷ put_string key (put_string value (put_items items))

-- the fuel bounds the number of entries
abbrev take_items : ℕ → Bytes → List KeyValueItem
take_items zero file = []
take_items (suc fuel) [] = []
take_items (suc fuel) (b ∷ file) =
    let (key, r1) = take_string file in
    let (value, r2) = take_string r1 in
    let rest = take_items fuel r2 in if b == 3 then (key, value) ∷ rest else []

length-put_string : (bs rest : Bytes) → length rest ≤ length (put_string bs rest)
length-put_string [] rest = omega arith
length-put_string (b ∷ bs) rest = omega (arith, length-put_string bs rest)

take_items-put_items :
    (fuel : ℕ) (items : List KeyValueItem)
    → length (put_items items) ≤ fuel
    → take_items fuel (put_items items) ≡ items
take_items-put_items zero [] h = absurd (omega arith)
take_items-put_items zero (i ∷ items) h = absurd (omega arith)
take_items-put_items (suc fuel) [] h = refl
take_items-put_items (suc fuel) ((key, value) ∷ items) h =
    rw
      (
        take_string-put_string key (put_string value (put_items items)),
        take_string-put_string value (put_items items),
      )
      (ap (λ l. (key, value) ∷ l)
        (take_items-put_items fuel items (
          omega (
            arith,
            length-put_string key (put_string value (put_items items)),
            length-put_string value (put_items items),
          ))))

abbrev pub memory_files : SstFiles Writes
memory_files = record {
  write_file = put_items;
  ingest_file = λ file d. some (log_db.write (put_ops (take_items (length file) file)) d);
}

files_nonempty : (items : List KeyValueItem) → (length (put_items items) == 0) ≡ false
files_nonempty [] = ground arith
files_nonempty (i ∷ items) = ground arith

pub memory_files-IsSst : IsSst Writes log_db memory_files
memory_files-IsSst = record {
  nonempty = files_nonempty;
  ingest_write = λ items d. (
    _,
    refl,
    λ j.
        log_db-IsStore.get_write _ j d
        ∙ ap (λ l. written (log_db.get j d) (last_write j (put_ops l)))
            (take_items-put_items (length (put_items items)) items (omega arith)),
  );
}
