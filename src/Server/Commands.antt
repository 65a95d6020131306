-- ===== src/Server/Commands.antt =====
-- The commands that a write appends to the log: the writes that they stand for at a replica, and
-- the entries that the log gains.
use rockskv.Prelude.{
  ok, length, All, ℕ, suc, ◌+◌, ◌%◌, ◌^◌, ◌<◌, ◌≡◌, refl, sym, ap, ◌∙◌, List, [], ◌∷◌, ◌++◌,
  append-nil, append_assoc, arith,
}
use rockskv.Bytes.{Bytes}
use rockskv.Rocks.{KeyValueItem, WriteOp, put_ops, put_op, delete_op}
use rockskv.Keys.{make_partition_key, make_field_key}
use rockskv.Fields.{FieldUpdate, FieldBatch, encode_field_batch, decode_field_batch}
use rockskv.Fields.Batch.{FitsBatch}
use rockskv.Fields.RoundTrip.{decode_field_batch-encode_field_batch}
use rockskv.Fields.Storage.{update_ops}
use rockskv.Partitions.Data.{storage_items}
use rockskv.CommandLog.{cmd_type_put, cmd_type_delete, cmd_type_field_batch, CommandEntry}
use rockskv.CommandLog.Log.Writes.{IsLogOf, append-IsLogOf}
use rockskv.CommandLog.Log.{new_entry, append_put, append_delete, append_field_batch}
use rockskv.CommandLog.Log.Replay.{batch_partition}
use rockskv.Replication.{
  CommandLogReplicator, Tick, Command, append_command, put_command, delete_command,
  field_batch_command,
}
use rockskv.Server.{
  WriteKind, put_commands, fields_batch, field_deletion, request_commands, append_all, put_request,
  delete_request, set_fields_request, delete_field_request, batch_put_request,
}
use mathlib.Core.Path.{subst}

-- The writes of a request, as one batch.
abbrev pub request_ops : ℕ → WriteKind → List WriteOp
request_ops id (put_request key value) = put_op (make_partition_key id key) value ∷ []
request_ops id (delete_request key) = delete_op (make_partition_key id key) ∷ []
request_ops id (set_fields_request pk updates) = update_ops id pk updates
request_ops id (delete_field_request pk name) = delete_op (make_field_key id pk name) ∷ []
request_ops id (batch_put_request items) = put_ops (storage_items id items)

-- The writes of a command that a replica receives.
abbrev pub CommandWrites : ℕ → Command → List WriteOp → Type 0
CommandWrites id (put_command key value) ops = ops ≡ put_op (make_partition_key id key) value ∷ []
CommandWrites id (delete_command key) ops = ops ≡ delete_op (make_partition_key id key) ∷ []
CommandWrites id (field_batch_command batch) ops =
    (fb : FieldBatch) × (decode_field_batch batch ≡ ok fb)
    × (ops ≡ update_ops (batch_partition id fb) fb.primary_key fb.updates)

abbrev pub CommandsWrite : ℕ → List Command → List WriteOp → Type 0
CommandsWrite id [] ops = ops ≡ []
CommandsWrite id (c ∷ cs) ops =
    (xs : List WriteOp) × (ys : List WriteOp) × CommandWrites id c xs
    × CommandsWrite id cs ys
    × (ops ≡ xs ++ ys)

-- the entry that an append makes of a command
abbrev pub command_entry : Command → ℕ → ℕ → CommandEntry
command_entry (put_command key value) seq now = new_entry seq cmd_type_put key value now
command_entry (delete_command key) seq now = new_entry seq cmd_type_delete key [] now
command_entry (field_batch_command batch) seq now = new_entry seq cmd_type_field_batch [] batch now

abbrev pub command_entries : List Command → (ℕ → Tick) → ℕ → ℕ → List CommandEntry
command_entries [] ticks n seq = []
command_entries (c ∷ cs) ticks n seq =
    command_entry c ((seq + 1) % 2 ^ 64) (ticks n).now
    ∷ command_entries cs ticks (suc n) ((seq + 1) % 2 ^ 64)

-- The parts of a request fit the widths of their fields.
abbrev pub FitsRequest : ℕ → WriteKind → Type 0
FitsRequest id (set_fields_request pk updates) = FitsBatch (fields_batch id pk updates)
FitsRequest id (delete_field_request pk name) =
    FitsBatch (fields_batch id pk (field_deletion name ∷ []))
FitsRequest id _ = Unit

own_batch :
    (id : ℕ) (pk : Bytes) (us : List FieldUpdate) → batch_partition id (fields_batch id pk us) ≡ id
unfolding fields_batch
own_batch id pk us = ground arith

batch-CommandsWrite :
    (id : ℕ) (pk : Bytes) (us : List FieldUpdate)
    → FitsBatch (fields_batch id pk us)
    → CommandsWrite id
        (field_batch_command (encode_field_batch (fields_batch id pk us)) ∷ [])
        (update_ops id pk us)
batch-CommandsWrite id pk us fits = (
  update_ops id pk us,
  [],
  (
    fields_batch id pk us,
    decode_field_batch-encode_field_batch (fields_batch id pk us) fits,
    ap (λ (p : ℕ). update_ops p pk us) (sym (own_batch id pk us)) ∙ (unfold fields_batch in refl),
  ),
  refl,
  sym (append-nil (update_ops id pk us)),
)

items-CommandsWrite :
    (id : ℕ) (items : List KeyValueItem)
    → CommandsWrite id (put_commands items) (put_ops (storage_items id items))
unfolding put_commands put_ops storage_items
items-CommandsWrite id [] = refl
items-CommandsWrite id ((key, value) ∷ items) = (_, _, refl, items-CommandsWrite id items, refl)

pub request-CommandsWrite :
    (id : ℕ) (kind : WriteKind)
    → FitsRequest id kind
    → CommandsWrite id (request_commands id kind) (request_ops id kind)
unfolding request_commands
request-CommandsWrite id (put_request key value) fits = (_, [], refl, refl, refl)
request-CommandsWrite id (delete_request key) fits = (_, [], refl, refl, refl)
request-CommandsWrite id (set_fields_request pk updates) fits =
    batch-CommandsWrite id pk updates fits
request-CommandsWrite id (delete_field_request pk name) fits =
    unfold update_ops in batch-CommandsWrite id pk (field_deletion name ∷ []) fits
request-CommandsWrite id (batch_put_request items) fits = items-CommandsWrite id items

-- The bytes of a command fit the widths of an entry's fields.
abbrev pub FitsCommand : Command → Type 0
FitsCommand (put_command key value) = (length key < 2 ^ 32) × (length value < 2 ^ 32)
FitsCommand (delete_command key) = length key < 2 ^ 32
FitsCommand (field_batch_command batch) = length batch < 2 ^ 32

append_command-IsLogOf :
    (c : Command) (t : Tick) (clr : CommandLogReplicator) (es : List CommandEntry)
    → t.now < 2 ^ 64
    → FitsCommand c
    → IsLogOf clr.command_log es
    → let seq = (clr.command_log.current_seq + 1) % 2 ^ 64 in
      let after = (append_command c t clr).0.command_log in
      (after.current_seq ≡ seq) × IsLogOf after (es ++ (command_entry c seq t.now ∷ []))
unfolding append_command append_put append_delete append_field_batch
append_command-IsLogOf (put_command key value) t clr es ht hc h =
    let (a, b, c) =
      append-IsLogOf cmd_type_put key value t.now t.file_time clr.command_log es ht hc.0 hc.1 h in
    (b, c)
append_command-IsLogOf (delete_command key) t clr es ht hc h =
    let (a, b, c) =
      append-IsLogOf cmd_type_delete key [] t.now t.file_time clr.command_log es ht hc (omega arith)
        h in
    (b, c)
append_command-IsLogOf (field_batch_command batch) t clr es ht hc h =
    let (a, b, c) =
      append-IsLogOf cmd_type_field_batch [] batch t.now t.file_time clr.command_log es ht
        (omega arith) hc h in
    (b, c)

pub append_all-IsLogOf :
    (cs : List Command) (ticks : ℕ → Tick) (n : ℕ) (clr : CommandLogReplicator)
    (es : List CommandEntry)
    → ((m : ℕ) → (ticks m).now < 2 ^ 64)
    → All FitsCommand cs
    → IsLogOf clr.command_log es
    → IsLogOf
        (append_all cs ticks n clr).command_log
        (es ++ command_entries cs ticks n clr.command_log.current_seq)
unfolding append_all
append_all-IsLogOf [] ticks n clr es ht hc h = rw append-nil h
append_all-IsLogOf (c ∷ cs) ticks n clr es ht hc h =
    let (same, grown) = append_command-IsLogOf c (ticks n) clr es (ht n) hc.0 h in
    let seq = (clr.command_log.current_seq + 1) % 2 ^ 64 in
    let after = (append_command c (ticks n) clr).0 in
    let e = command_entry c seq (ticks n).now in
    subst (IsLogOf (append_all cs ticks (suc n) after).command_log)
      (append_assoc es (e ∷ []) (command_entries cs ticks (suc n) after.command_log.current_seq)
        ∙ ap (λ (q : ℕ). es ++ (e ∷ command_entries cs ticks (suc n) q)) same)
      (append_all-IsLogOf cs ticks (suc n) after (es ++ (e ∷ [])) ht hc.1 grown)
