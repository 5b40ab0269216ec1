-- ===== src/Spool/Acknowledge.antt =====
-- `Queue.delete`, `release` and `markFailed` of spool.go: what happens to a record once the sender
-- has answered.
use text.Mathlib.Text.{◌==◌ as str_eq}
use go_pulse.Base.{
  ℕ, ◌+◌, ◌≤◌, ◌≡◌, refl, sym, ap, ◌∙◌, Bool, true, false, none, some, List, ok, err, ◌==◌,
  if◌then◌else◌, has, discard, add64, arith, ◌⊎◌, inl, inr, Bool-cases, has-discard_self,
  Option-cases, Result-cases, after_bind,
}
use go_pulse.Spool.Store.{
  Entry, Error, corrupt, key_used_bytes, key_sent, key_failed, meta_put, remove, lookup, Bolt,
  Codec, entry_size,
}
use go_pulse.Spool.Bucket.{total-remove, lookup-remove_other, remove-Within, remove-Decodes}
use go_pulse.Spool.Queue.{
  Queue, or_error, try, increment, sequence_of, used_after_delete, count_sent, delete_found,
  delete_tx, delete, failed_tx, mark_failed,
}
use go_pulse.Spool.Eviction.{try-eq-ok, increment_lem}
use go_pulse.Spool.Sound.{Sound, or_error-eq-ok}
use go_pulse.Spool.Accept.{Valid}

used_after_delete_lem : (used size : ℕ) → size ≤ used → used_after_delete used size + size ≡ used
unfolding used_after_delete
used_after_delete_lem used size h = ground arith

module _ (bolt : Bolt) (json : Codec) where
  open bolt use {Db, messages, meta, put_meta, commit}

  -- The outcome of a successful `delete`: either the record, which has the entry's message ID, is gone, whatever else is stored being
  -- kept, with its weight taken off what is counted as used and the sent counter moved if it was
  -- sent; or the database is as it was, because no record of that sequence and message is there.
  pub data Deleted (entry : Entry) (sent : Bool) (d e : Db) : Type 0 where
    gone :
        (value : List ℕ) (current : Entry)
        → lookup entry.sequence (messages d) ≡ some value
        → json.unmarshal value ≡ some current
        → str_eq current.message_id entry.message_id ≡ true
        → messages e ≡ remove entry.sequence (messages d)
        → meta e ≡ record (meta d) {
          used_bytes = used_after_delete (meta d).used_bytes (entry_size value);
          sent = if sent then add64 (meta d).sent 1 else (meta d).sent;
        }
        → Deleted entry sent d e
    absent : lookup entry.sequence (messages d) ≡ none → e ≡ d → Deleted entry sent d e
    replaced :
        (value : List ℕ) (current : Entry)
        → lookup entry.sequence (messages d) ≡ some value
        → json.unmarshal value ≡ some current
        → str_eq current.message_id entry.message_id ≡ false
        → e ≡ d
        → Deleted entry sent d e

  count_sent_lem :
      (sent b : Bool) (d e : Db)
      → count_sent bolt json sent d ≡ ok (e, b)
      → (messages e ≡ messages d)
        × (meta e
            ≡ record (meta d) { sent = if sent then add64 (meta d).sent 1 else (meta d).sent })
  unfolding count_sent
  count_sent_lem false b d e h =
      let same : d ≡ e = ground arith in (ap messages (sym same), ap meta (sym same))
  count_sent_lem true b d e h = after_bind (increment bolt json d key_sent) _ h λ c done rest.
      let same : c ≡ e = ground arith in
      let (kept, count) = increment_lem bolt json d c key_sent done in
      (rw (← same) kept, rw (← same) count)

  delete_found-Deleted :
      (entry : Entry) (sent b : Bool) (value : List ℕ) (d e : Db)
      → lookup entry.sequence (messages d) ≡ some value
      → delete_found bolt json entry sent value d ≡ ok (e, b)
      → Deleted entry sent d e
  unfolding delete_found
  delete_found-Deleted entry sent b value d e there h =
      after_bind (or_error (json.unmarshal value) corrupt) _ h λ current dec h1.
        elim (Bool-cases (str_eq current.message_id entry.message_id)) [
          | inr other ↦ replaced value current there (or_error-eq-ok _ _ dec) other (ground arith)
          | inl same ↦
              after_bind (try (bolt.delete d entry.sequence)) _ (rw same at h1) λ deleted del h2.
                after_bind
                  (try (
                    put_meta deleted key_used_bytes
                      (used_after_delete (meta deleted).used_bytes (entry_size value))))
                  _ h2
                  λ weighed was_weighed h3.
                    let was_deleted = try-eq-ok _ del in
                    let (same3, m3) = count_sent_lem sent b weighed e h3 in
                    let m2 = bolt.put_meta_meta deleted _ _ weighed (try-eq-ok _ was_weighed) in
                    let m1 = bolt.delete_keeps_meta d _ deleted was_deleted in
                    let same2 =
                      bolt.put_meta_keeps_messages deleted _ _ weighed (try-eq-ok _ was_weighed) in
                    let same1 = bolt.delete_messages d _ deleted was_deleted in
                    gone value current there (or_error-eq-ok _ _ dec) same (same3 ∙ same2 ∙ same1)
                      (rw (m3, m2, m1) refl)
        ]

  delete_tx-Deleted :
      (entry : Entry) (sent b : Bool) (d e : Db)
      → delete_tx bolt json entry sent d ≡ ok (e, b)
      → Deleted entry sent d e
  unfolding delete_tx
  delete_tx-Deleted entry sent b d e h = elim (Option-cases (lookup entry.sequence (messages d))) [
    | inl none_there ↦ absent none_there (ground arith)
    | inr (value, there) ↦
        delete_found-Deleted entry sent b value d e there (rw (there, delete_tx) at h)
  ]

  pub delete-eq-ok :
      (q q' : Queue Db) (entry : Entry) (sent b : Bool)
      → delete bolt json q entry sent ≡ (q', ok b)
      → (delete_tx bolt json entry sent q.db ≡ ok (q'.db, b))
        × (q'
            ≡ record q { db = q'.db; blocked = ""; in_flight = discard entry.sequence q.in_flight })
  unfolding delete
  delete-eq-ok q q' entry sent b h = elim (Result-cases (delete_tx bolt json entry sent q.db)) [
    | inr (x, bad) ↦ absurd (ground arith)
    | inl ((d, a), good) ↦ elim (Option-cases (commit d)) [
      | inl done ↦ (ground arith, ground arith)
      | inr (f, fault) ↦ absurd (ground arith)
    ]
  ]

  pub delete-eq-err :
      (q q' : Queue Db) (entry : Entry) (sent : Bool) (e : Error)
      → delete bolt json q entry sent ≡ (q', err e)
      → q' ≡ record q { blocked = q'.blocked }
  unfolding delete
  delete-eq-err q q' entry sent e h = elim (Result-cases (delete_tx bolt json entry sent q.db)) [
    | inr (x, bad) ↦ ground arith
    | inl ((d, a), good) ↦ elim (Option-cases (commit d)) [
      | inl done ↦ ground arith
      | inr (f, fault) ↦ ground arith
    ]
  ]

  Deleted-Sound :
      (entry : Entry) (sent : Bool) (d e : Db) (capacity : ℕ)
      → Sound bolt json d
      → (meta d).used_bytes ≤ capacity
      → Deleted entry sent d e
      → Sound bolt json e × ((meta e).used_bytes ≤ capacity)
  unfolding sequence_of
  Deleted-Sound entry sent d e capacity s b (absent _ same) = rw same (s, b)
  Deleted-Sound entry sent d e capacity s b (replaced _ _ _ _ _ same) = rw same (s, b)
  Deleted-Sound entry sent d e capacity s b (gone value _ there _ _ rest m) =
      let weight = total-remove entry.sequence value (messages d) there in
      let taken =
        used_after_delete_lem (meta d).used_bytes (entry_size value) (omega (arith, s.accounted)) in
      (
        record {
          ordered = rw (m, rest) (remove-Within 1 _ entry.sequence (messages d) s.ordered);
          decodes = rw rest (remove-Decodes json entry.sequence (messages d) s.decodes);
          accounted = rw (m, rest) (omega (arith, s.accounted));
          counters = rw m s.counters;
        },
        rw m (omega arith),
      )

  -- A `delete` that succeeds on a valid queue (its records ascend and decode, and weigh what is counted as
  -- used, which is within the capacity) has one of three outcomes: the record stored under the
  -- entry's sequence carries the entry's message ID and is now gone, with its weight off what is
  -- used, and the sent counter is moved if it was sent; or a record with another message ID stands
  -- there and nothing is deleted; or none does and nothing is deleted. In each the entry no longer
  -- counts as being sent, and the queue stays valid.
  pub delete_acknowledged :
      (q q' : Queue Db) (entry : Entry) (sent b : Bool)
      → Valid bolt json q
      → delete bolt json q entry sent ≡ (q', ok b)
      → Deleted entry sent q.db q'.db
        × (has q'.in_flight entry.sequence ≡ false)
        × Valid bolt json q'
  delete_acknowledged q q' entry sent b v h =
      let (ran, rest) = delete-eq-ok q q' entry sent b h in
      let done = delete_tx-Deleted entry sent b q.db q'.db ran in
      let (sound, budget) = Deleted-Sound entry sent q.db q'.db q.capacity v.sound v.budget done in
      let same : q'.capacity ≡ q.capacity = ap (λ (x : Queue Db). x.capacity) rest in
      (
        done,
        rw (ap (λ (x : Queue Db). x.in_flight) rest) (has-discard_self entry.sequence q.in_flight),
        record { sound = sound; budget = rw same budget; int64 = rw same v.int64 },
      )

  -- The next sequence is the database's own, whatever a `delete` takes out.
  pub Deleted-sequence :
      (entry : Entry) (sent : Bool) (d e : Db)
      → Deleted entry sent d e
      → sequence_of bolt json e ≡ sequence_of bolt json d
  unfolding sequence_of
  Deleted-sequence entry sent d e (absent _ same) = rw same
  Deleted-sequence entry sent d e (replaced _ _ _ _ _ same) = rw same
  Deleted-sequence entry sent d e (gone _ _ _ _ _ _ m) = rw m

  pub delete_other :
      (entry : Entry) (sent : Bool) (d e : Db) (k : ℕ)
      → (entry.sequence == k) ≡ false
      → Deleted entry sent d e
      → lookup k (messages e) ≡ lookup k (messages d)
  delete_other entry sent d e k other (absent _ same) = rw same
  delete_other entry sent d e k other (replaced _ _ _ _ _ same) = rw same
  delete_other entry sent d e k other (gone _ _ _ _ _ rest _) =
      rw rest (lookup-remove_other entry.sequence k (messages d) other)

  failed_tx_lem :
      (d e : Db) (b : Bool)
      → failed_tx bolt json d ≡ ok (e, b)
      → (messages e ≡ messages d)
        × (meta e ≡ meta_put key_failed (add64 (meta d).failed 1) (meta d))
  unfolding failed_tx
  failed_tx_lem d e b h = after_bind (increment bolt json d key_failed) _ h λ c done rest.
      let same : c ≡ e = ground arith in
      let (kept, count) = increment_lem bolt json d c key_failed done in
      (rw (← same) kept, rw (← same) count)

  -- `markFailed` either changes the failed counter and lifts the block, or records a new block.
  mark_failed-cases :
      (q : Queue Db)
      → let q' = (mark_failed bolt json q).0 in
        (q' ≡ record q { blocked = q'.blocked })
        ⊎ ((b : Bool) × (failed_tx bolt json q.db ≡ ok (q'.db, b))
            × (q' ≡ record q { db = q'.db; blocked = "" }))
  unfolding mark_failed
  mark_failed-cases q = elim (Result-cases (failed_tx bolt json q.db)) [
    | inr (x, bad) ↦ inl (ground arith)
    | inl ((d, b), good) ↦ elim (Option-cases (commit d)) [
      | inl done ↦ elim (Bool-cases q.closed) [
        | inl shut ↦ inl (ground arith)
        | inr live ↦ inr (b, ground arith, ground arith)
      ]
      | inr (f, fault) ↦ inl (ground arith)
    ]
  ]

  counted_failure :
      (q q' : Queue Db) (b : Bool)
      → Valid bolt json q
      → failed_tx bolt json q.db ≡ ok (q'.db, b)
      → q' ≡ record q { db = q'.db; blocked = "" }
      → (messages q'.db ≡ messages q.db)
        × (q'.in_flight ≡ q.in_flight)
        × (sequence_of bolt json q'.db ≡ sequence_of bolt json q.db)
        × Valid bolt json q'
  unfolding sequence_of
  counted_failure q q' b v ran rest =
      let (same, m) = failed_tx_lem q.db q'.db b ran in
      let capacity : q'.capacity ≡ q.capacity = ap (λ (x : Queue Db). x.capacity) rest in
      (
        same,
        ap (λ (x : Queue Db). x.in_flight) rest,
        rw m refl,
        record {
          sound = record {
            ordered = rw (m, same) v.sound.ordered;
            decodes = rw same v.sound.decodes;
            accounted = rw (m, same) v.sound.accounted;
            counters = rw m v.sound.counters;
          };
          budget = rw (m, capacity) v.budget;
          int64 = rw capacity v.int64;
        },
      )

  -- Whatever the database does, `markFailed` leaves what is in flight alone.
  pub mark_failed_in_flight : (q : Queue Db) → (mark_failed bolt json q).0.in_flight ≡ q.in_flight
  mark_failed_in_flight q = elim (mark_failed-cases q) [
    | inl same ↦ ap (λ (x : Queue Db). x.in_flight) same
    | inr (b, _, rest) ↦ ap (λ (x : Queue Db). x.in_flight) rest
  ]

  -- `markFailed` leaves the records, what is in flight and the numbering alone, and keeps a valid
  -- queue valid.
  pub mark_failed_lem :
      (q : Queue Db)
      → let q' = (mark_failed bolt json q).0 in
        Valid bolt json q
        → (messages q'.db ≡ messages q.db)
          × (q'.in_flight ≡ q.in_flight)
          × (sequence_of bolt json q'.db ≡ sequence_of bolt json q.db)
          × Valid bolt json q'
  unfolding sequence_of
  mark_failed_lem q v = elim (mark_failed-cases q) [
    | inl same ↦
        rw same (refl, refl, refl, record { sound = v.sound; budget = v.budget; int64 = v.int64 })
    | inr (b, ran, rest) ↦ counted_failure q (mark_failed bolt json q).0 b v ran rest
  ]
