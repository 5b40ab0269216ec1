-- ===== src/Spool/Queue.antt =====
-- `Queue` of spool.go: the state in memory, and each operation under its mutex. An operation
-- returns the new queue and its result; a transaction that fails leaves the database as it was.
use go_pulse.Base.{
  ℕ, zero, suc, ◌-◌, String, Bool, true, false, Option, none, some, List, [], ◌∷◌, length, Result,
  ok, err, ◌>>=◌, ◌==◌, ltb, leb, if◌then◌else◌, has, discard, add64, not, ◌&&◌, ◌||◌,
}
use text.Mathlib.Text.{◌==◌ as str_eq}
use go_pulse.Spool.Store.{
  Kind, Entry, Fault, not_open, invalid, max_size_reached, no_space, Error, closed, invalid_message,
  too_large, corrupt, queue_busy, encode_failed, disk, out_of_fuel, MetaKey, key_next_seq,
  key_used_bytes, key_enqueued, key_sent, key_failed, key_evicted, meta_get, Messages, lookup, Bolt,
  Codec, entry_size, first_free,
}

pub record Queue (Db : Type 0) : Type 0 where
  pub kind : Kind
  pub capacity : ℕ
  pub db : Db
  pub closed : Bool
  pub blocked : String
  pub in_flight : List ℕ

-- publisher.Message
pub record Message : Type 0 where
  pub id : String
  pub type : String
  pub body : List ℕ

abbrev pub guard : Bool → Error → Result Error Bool
guard true e = ok true
guard false e = err e

abbrev pub or_error : {A : Type 0} → Option A → Error → Result Error A
or_error none e = err e
or_error (some a) e = ok a

-- A write's failure as the error that the transaction returns.
abbrev pub try : {A : Type 0} → Result Fault A → Result Error A
try (ok a) = ok a
try (err f) = err (disk f)

unfoldable pub classify_write_error : Error → String
classify_write_error too_large = "message_too_large"
classify_write_error queue_busy = "queue_busy"
classify_write_error (disk not_open) = "spool_corrupt"
classify_write_error (disk invalid) = "spool_corrupt"
classify_write_error (disk max_size_reached) = "disk_full"
classify_write_error (disk no_space) = "disk_full"
classify_write_error _ = "disk_write_failed"

-- What is counted as used once a record of `old` bytes is evicted.
unfoldable pub used_without : ℕ → ℕ → ℕ
used_without used old = if ltb 0 old && leb old used then used - old else 0

is_empty : List ℕ → Bool
is_empty [] = true
is_empty (_ ∷ _) = false

unfoldable pub draft_of : Message → ℕ → Entry
draft_of m now = record {
  sequence = 0;
  message_id = m.id;
  type = m.type;
  body = m.body;
  enqueued_at = now;
  new = true;
}

unfoldable pub is_invalid : Message → Bool
unfolding is_empty
is_invalid m = is_empty m.body || (str_eq m.id "" || str_eq m.type "")

-- What is counted as used once a record of `size` bytes is deleted.
unfoldable pub used_after_delete : ℕ → ℕ → ℕ
used_after_delete used size = if leb used size then 0 else used - size

module _ (bolt : Bolt) (json : Codec) where
  open bolt use {Db, messages, meta, put, delete as delete_key, put_meta, commit}
  open json use {marshal, unmarshal}

  unfoldable pub increment : Db → MetaKey → Result Error Db
  increment d k = try (put_meta d k (add64 (meta_get k (meta d)) 1))

  -- The loop of `enqueue` that evicts the oldest records nobody is sending.
  unfoldable pub make_room : ℕ → List ℕ → ℕ → ℕ → Db → ℕ → Result Error (Db × ℕ)
  unfolding increment used_without
  make_room zero in_flight capacity size d used = err out_of_fuel
  make_room (suc fuel) in_flight capacity size d used = elim (ltb capacity (add64 used size)) [
    | false ↦ ok (d, used)
    | true ↦ elim (first_free in_flight (messages d)) [
      | none ↦ err queue_busy
      | some (k, v) ↦ do
        deleted ← try (delete_key d k)
        counted ← increment deleted key_evicted
        make_room fuel in_flight capacity size counted (used_without used (entry_size v))
    ]
  ]

  -- One round for each record that could be evicted, and one to find none left.
  unfoldable pub room_fuel : Db → ℕ
  room_fuel d = suc (length (messages d))

  unfoldable pub sequence_of : Db → ℕ
  sequence_of d = if (meta d).next_seq == 0 then 1 else (meta d).next_seq

  -- The writes of `enqueue` once room is made; `used` is what is then counted as used.
  unfoldable pub store_entry : ℕ → Entry → List ℕ → Db × ℕ → Result Error (Db × Entry)
  unfolding increment
  store_entry capacity entry encoded (roomy, used) = do
    _ ← guard (not (ltb capacity (add64 used (entry_size encoded)))) too_large
    stored ← try (put roomy entry.sequence encoded)
    numbered ← try (put_meta stored key_next_seq (add64 entry.sequence 1))
    weighed ← try (put_meta numbered key_used_bytes (add64 used (entry_size encoded)))
    counted ← increment weighed key_enqueued
    ok (counted, entry)

  -- The entry as it is stored: under the next sequence.
  abbrev pub named : Entry → Db → Entry
  named draft d = record draft { sequence = sequence_of d }

  -- The transaction of `enqueue`.
  unfoldable pub enqueue_tx : List ℕ → ℕ → Entry → Db → Result Error (Db × Entry)
  unfolding store_entry room_fuel
  enqueue_tx in_flight capacity draft d = do
    encoded ← or_error (marshal (named draft d)) encode_failed
    _ ← guard (not (ltb capacity (entry_size encoded))) too_large
    made ← make_room (room_fuel d) in_flight capacity (entry_size encoded) d (meta d).used_bytes
    store_entry capacity (named draft d) encoded made

  -- `db.Update`: commit what the body made, or keep the old state.
  unfoldable pub update : {A : Type 0} → Db → Result Error (Db × A) → Result Error (Db × A)
  update d (err e) = err e
  update d (ok (d', a)) = elim (commit d') [ none ↦ ok (d', a) | some f ↦ err (disk f) ]

  -- A write transaction's end: the new database and no block, or the reason of the block.
  unfoldable pub finish :
      {A : Type 0} → Queue Db → Result Error (Db × A) → Queue Db × Result Error A
  finish q (ok (d, a)) = (record q { db = d; blocked = "" }, ok a)
  finish q (err e) = (record q { blocked = classify_write_error e }, err e)

  unfoldable pub enqueue : Queue Db → Message → ℕ → Queue Db × Result Error Entry
  unfolding update finish
  enqueue q m now =
      if is_invalid m
      then (q, err invalid_message)
      else if q.closed
      then (q, err closed)
      else finish q (update q.db (enqueue_tx q.in_flight q.capacity (draft_of m now) q.db))

  -- The two walks of `find`. A value that does not decode ends the walk.
  unfoldable pub first_new : List ℕ → Messages → Result Error (Option Entry)
  first_new in_flight [] = ok none
  first_new in_flight ((k, v) ∷ xs) =
      let rest = first_new in_flight xs in
      if has in_flight k
      then rest
      else elim (unmarshal v) [ none ↦ err corrupt | some e ↦ if e.new then ok (some e) else rest ]

  unfoldable pub decode_first : Option (ℕ × List ℕ) → Result Error (Option Entry)
  decode_first none = ok none
  decode_first (some (k, v)) = elim (unmarshal v) [ none ↦ err corrupt | some e ↦ ok (some e) ]

  unfoldable pub find : Queue Db → Bool → Result Error (Option Entry)
  unfolding first_new decode_first
  find q prefer_new =
      if prefer_new
      then first_new q.in_flight (messages q.db)
      else decode_first (first_free q.in_flight (messages q.db))

  unfoldable pub next : Queue Db → Bool → Result Error (Option Entry)
  unfolding find
  next q prefer_new = if q.closed then err closed else find q prefer_new

  unfoldable pub mark_claimed :
      Queue Db → Result Error (Option Entry) → Queue Db × Result Error (Option Entry)
  mark_claimed q (ok (some e)) = (record q { in_flight = e.sequence ∷ q.in_flight }, ok (some e))
  mark_claimed q r = (q, r)

  unfoldable pub claim : Queue Db → Bool → Queue Db × Result Error (Option Entry)
  unfolding mark_claimed
  claim q prefer_new = if q.closed then (q, err closed) else mark_claimed q (find q prefer_new)

  unfoldable pub count_sent : Bool → Db → Result Error (Db × Bool)
  unfolding increment
  count_sent false d = ok (d, true)
  count_sent true d = do counted ← increment d key_sent; ok (counted, true)

  unfoldable pub delete_found : Entry → Bool → List ℕ → Db → Result Error (Db × Bool)
  unfolding count_sent used_after_delete
  delete_found entry sent v d = do
    current ← or_error (unmarshal v) corrupt
    if not (str_eq current.message_id entry.message_id) then ok (d, false) else do
      deleted ← try (delete_key d entry.sequence)
      let used = used_after_delete (meta deleted).used_bytes (entry_size v)
      weighed ← try (put_meta deleted key_used_bytes used)
      count_sent sent weighed

  -- The transaction of `delete`; the flag tells whether a record was deleted.
  unfoldable pub delete_tx : Entry → Bool → Db → Result Error (Db × Bool)
  unfolding delete_found
  delete_tx entry sent d = elim (lookup entry.sequence (messages d)) [
    | none ↦ ok (d, false)
    | some v ↦ delete_found entry sent v d
  ]

  unfoldable pub forget : ℕ → Queue Db × Result Error Bool → Queue Db × Result Error Bool
  forget k (q, ok b) = (record q { in_flight = discard k q.in_flight }, ok b)
  forget k (q, err e) = (q, err e)

  unfoldable pub delete : Queue Db → Entry → Bool → Queue Db × Result Error Bool
  unfolding update finish forget
  delete q entry sent =
      if q.closed
      then (q, err closed)
      else forget entry.sequence (finish q (update q.db (delete_tx entry sent q.db)))

  unfoldable pub release : Queue Db → Entry → Queue Db
  release q entry = record q { in_flight = discard entry.sequence q.in_flight }

  unfoldable pub failed_tx : Db → Result Error (Db × Bool)
  unfolding increment
  failed_tx d = do counted ← increment d key_failed; ok (counted, true)

  unfoldable pub mark_failed : Queue Db → Queue Db × Result Error Bool
  unfolding update finish
  mark_failed q = if q.closed then (q, err closed) else finish q (update q.db (failed_tx q.db))

  unfoldable pub close : Queue Db → Queue Db
  close q = if q.closed then q else record q { closed = true }
