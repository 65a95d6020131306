-- ===== src/CommandLog/Log/Writes.antt =====
-- What the files and the buffer of a log hold after appends.
use rockskv.Prelude.{
  ltb, leb, if_false, Bool-cases, Outcome, ok, length, drop, take-append-drop, All, All-append,
  concat, concat-append, map-append, ℕ, ◌+◌, ◌-◌, ◌%◌, ◌^◌, ◌<◌, ◌≡◌, refl, sym, ap, ◌∙◌, inl, inr,
  false, List, [], ◌∷◌, ◌++◌, map, append-nil, append_assoc, arith,
}
use rockskv.Bytes.{Bytes}
use rockskv.CommandLog.{CommandEntry, encode}
use rockskv.CommandLog.Codec.{IsWellFormed}
use rockskv.CommandLog.Scan.{encode_all, encode_all-append}
use rockskv.CommandLog.Log.{
  log_file_max_size, log_buffer_size, CommandLog, LogError, buffered_write, rotate_log_file,
  new_entry, write_entry, make_room, append,
}

-- The buffer neither loses nor reorders bytes.
buffered_write-append :
    (written buffered p : Bytes)
    → (buffered_write written buffered p).0 ++ (buffered_write written buffered p).1
      ≡ (written ++ buffered) ++ p
unfolding buffered_write
buffered_write-append written [] p = elim (Bool-cases (leb (length p) log_buffer_size)) [
  | inl e ↦ rw (e, append-nil)
  | inr e ↦ rw (e, append-nil, append-nil)
]
buffered_write-append written (b ∷ bs) p =
    let room = log_buffer_size - length (b ∷ bs) in
    elim (Bool-cases (leb (length p) room)) [
      | inl e ↦ rw (e, append_assoc)
      | inr e ↦ elim (Bool-cases (leb (length (drop room p)) log_buffer_size)) [
        | inl f ↦ rw (e, f) (simp append_assoc (rw (take-append-drop room p)))
        | inr f ↦ rw (e, f) (simp (append_assoc, append-nil) (rw (take-append-drop room p)))
      ]
    ]

-- An open log that holds the entries `es`: each older file holds whole entries, and so do the open
-- file and the buffer together.
pub record IsLogOf (cl : CommandLog) (es : List CommandEntry) : Type 0 where
  pub older : List (List CommandEntry)
  pub current : List CommandEntry
  pub older_bytes : map (λ (f : ℕ × Bytes). f.1) cl.older_files ≡ map encode_all older
  pub current_bytes : cl.written ++ cl.buffered ≡ encode_all current
  pub in_order : concat older ++ current ≡ es
  pub well_formed : All IsWellFormed es
  pub still_open : cl.closed ≡ false

pub new_entry-IsWellFormed :
    (seq cmd_type : ℕ) (key value : Bytes) (now : ℕ)
    → seq < 2 ^ 64
    → now < 2 ^ 64
    → length key < 2 ^ 32
    → length value < 2 ^ 32
    → IsWellFormed (new_entry seq cmd_type key value now)
unfolding new_entry
new_entry-IsWellFormed seq cmd_type key value now hs hn hk hv = ground arith

encode_all_one : (e : CommandEntry) → encode_all (e ∷ []) ≡ encode e
unfolding encode_all
encode_all_one e = append-nil (encode e)

-- a write to the open file
write_entry-IsLogOf :
    (e : CommandEntry) (cl : CommandLog) (es : List CommandEntry) (seq : ℕ)
    → IsWellFormed e
    → IsLogOf cl es
    → IsLogOf (write_entry seq (encode e) cl) (es ++ (e ∷ []))
unfolding write_entry
write_entry-IsLogOf e cl es seq we h = record {
  older = h.older;
  current = h.current ++ (e ∷ []);
  older_bytes = h.older_bytes;
  current_bytes =
      buffered_write-append cl.written cl.buffered (encode e)
      ∙ rw (h.current_bytes, encode_all-append, encode_all_one);
  in_order =
      sym (append_assoc (concat h.older) h.current (e ∷ [])) ∙ ap (λ l. l ++ (e ∷ [])) h.in_order;
  well_formed = All-append IsWellFormed es (e ∷ []) h.well_formed (we, tt);
  still_open = h.still_open;
}

rotate-IsLogOf :
    (now : ℕ) (cl : CommandLog) (es : List CommandEntry)
    → IsLogOf cl es
    → IsLogOf (rotate_log_file now cl) es
unfolding rotate_log_file encode_all
rotate-IsLogOf now cl es h = record {
  older = h.older ++ (h.current ∷ []);
  current = [];
  older_bytes = rw (map-append, map-append, h.older_bytes, h.current_bytes);
  current_bytes = refl;
  in_order = rw (append-nil, concat-append, append-nil) h.in_order;
  well_formed = h.well_formed;
  still_open = h.still_open;
}

-- the sequence counter is no part of what the log holds
counted-IsLogOf :
    (n : ℕ) (cl : CommandLog) (es : List CommandEntry)
    → IsLogOf cl es
    → IsLogOf (record cl { current_seq = n }) es
counted-IsLogOf n cl es h = record {
  older = h.older;
  current = h.current;
  older_bytes = h.older_bytes;
  current_bytes = h.current_bytes;
  in_order = h.in_order;
  well_formed = h.well_formed;
  still_open = h.still_open;
}

make_room-IsLogOf :
    (now size : ℕ) (cl : CommandLog) (es : List CommandEntry)
    → IsLogOf cl es
    → IsLogOf (make_room now size cl) es
unfolding make_room
make_room-IsLogOf now size cl es h =
    elim (Bool-cases (ltb log_file_max_size (cl.current_size + size))) [
      | inl e ↦ rw e (rotate-IsLogOf now cl es h)
      | inr e ↦ rw e h
    ]

current_seq-make_room :
    (now size : ℕ) (cl : CommandLog) → (make_room now size cl).current_seq ≡ cl.current_seq
unfolding make_room
current_seq-make_room now size cl = ground arith

-- `Append` to an open log gives the entry the next sequence number, returns that number, and adds
-- the entry, and nothing else, behind the entries that the log held, whether or not the file is
-- rotated (64-bit clock, key and value below 2 ^ 32 bytes).
pub append-IsLogOf :
    (cmd_type : ℕ) (key value : Bytes) (now file_time : ℕ) (cl : CommandLog)
    (es : List CommandEntry)
    → now < 2 ^ 64
    → length key < 2 ^ 32
    → length value < 2 ^ 32
    → IsLogOf cl es
    → let seq = (cl.current_seq + 1) % 2 ^ 64 in
      let after = append cmd_type key value now file_time cl in
      (after.1 ≡ ok seq)
      × (after.0.current_seq ≡ seq)
      × IsLogOf after.0 (es ++ (new_entry seq cmd_type key value now ∷ []))
unfolding append
append-IsLogOf cmd_type key value now file_time cl es hn hk hv h =
    rw
      (
        if_false {A = CommandLog × Outcome LogError ℕ} cl.closed _ (written, ok seq) h.still_open,
        append,
      )
      (
        refl,
        unfold write_entry in
            current_seq-make_room file_time (length (encode e)) (record cl { current_seq = seq }),
        write_entry-IsLogOf e room es seq
            (new_entry-IsWellFormed seq cmd_type key value now (omega arith) hn hk hv)
            (make_room-IsLogOf file_time _ _ es (counted-IsLogOf seq cl es h)),
      )
  where
    seq : ℕ
    seq = (cl.current_seq + 1) % 2 ^ 64

    e : CommandEntry
    e = new_entry seq cmd_type key value now

    room : CommandLog
    room = make_room file_time (length (encode e)) (record cl { current_seq = seq })

    written : CommandLog
    written = write_entry seq (encode e) room
