-- ===== src/Spool/Refuse.antt =====
-- `Queue.enqueue` of spool.go where it fails: what is said and what is left.
use go_pulse.Base.{
  ℕ, ◌≡◌, ap, subst, ◌∙◌, true, false, some, ok, err, arith, ◌⊎◌, inl, inr, Bool-cases,
  Option-cases, Result-cases,
}
use go_pulse.Spool.Store.{Entry, Error, invalid_message, closed, disk, Bolt, Codec, Fault}
use go_pulse.Spool.Bucket.{total, total-append, drop_free}
use go_pulse.Spool.Queue.{
  Queue, Message, sequence_of, draft_of, classify_write_error, is_invalid, enqueue,
}
use go_pulse.Spool.Eviction.{broken_commit}
use go_pulse.Spool.Sound.{enqueue_tx-Enqueued}
use go_pulse.Spool.Accept.{Valid, tx}
use go_pulse.Spool.Failures.{Refusal, faulted-Refusal, enqueue_tx-Refusal}

module _ (bolt : Bolt) (json : Codec) where
  open bolt use {Db, messages, meta, commit}

  -- What a refused `enqueue` of a valid, open queue's message leaves, and why it was refused.
  enqueue-eq-err :
      (q q' : Queue Db) (m : Message) (now : ℕ) (e : Error)
      → is_invalid m ≡ false
      → q.closed ≡ false
      → enqueue bolt json q m now ≡ (q', err e)
      → (q' ≡ record q { blocked = classify_write_error e })
        × ((tx bolt json q m now ≡ err e)
            ⊎ ((d : Db) × (entry : Entry) × (f : Fault) × (tx bolt json q m now ≡ ok (d, entry))
                × (commit d ≡ some f)
                × (e ≡ disk f)))
  unfolding enqueue
  enqueue-eq-err q q' m now e valid live h = elim (Result-cases (tx bolt json q m now)) [
    | inr (x, bad) ↦ (ground arith, inl (ground arith))
    | inl ((d, a), good) ↦ elim (Option-cases (commit d)) [
      | inl done ↦ absurd (ground arith)
      | inr (f, fault) ↦ (ground arith, inr (d, a, f, good, fault, ground arith))
    ]
  ]

  uncommitted-Refusal :
      (q : Queue Db) (m : Message) (now : ℕ) (e : Error) (d : Db) (entry : Entry) (f : Fault)
      → Valid bolt json q
      → tx bolt json q m now ≡ ok (d, entry)
      → commit d ≡ some f
      → e ≡ disk f
      → Refusal bolt json q.in_flight q.capacity (draft_of m now) q.db e
  uncommitted-Refusal q m now e d entry f v ran failed same =
      let r =
        enqueue_tx-Enqueued bolt json q.in_flight q.capacity (draft_of m now) q.db d entry v.int64
          v.sound v.budget ran in
      let weight =
        ap total r.stored
        ∙ total-append (sequence_of bolt json q.db) r.encoded
            (drop_free q.in_flight r.dropped (messages q.db)) in
      faulted-Refusal bolt json q.in_flight q.capacity (draft_of m now) q.db e r.encoded
        (rw (← r.numbered) r.marshalled) (omega (arith, r.bounded, r.accounted, weight))
        (f, broken_commit d failed, same)

  -- What an `enqueue` that fails says and leaves.
  pub data Refused (q q' : Queue Db) (m : Message) (now : ℕ) : Error → Type 0 where
    not_valid : is_invalid m ≡ true → q' ≡ q → Refused q q' m now invalid_message
    not_open : is_invalid m ≡ false → q.closed ≡ true → q' ≡ q → Refused q q' m now closed
    not_stored :
        (e : Error)
        → is_invalid m ≡ false
        → q.closed ≡ false
        → Refusal bolt json q.in_flight q.capacity (draft_of m now) q.db e
        → q' ≡ record q { blocked = classify_write_error e }
        → Refused q q' m now e

  not_stored-Refused :
      (q q' : Queue Db) (m : Message) (now : ℕ) (e : Error)
      → Valid bolt json q
      → is_invalid m ≡ false
      → q.closed ≡ false
      → enqueue bolt json q m now ≡ (q', err e)
      → Refused q q' m now e
  not_stored-Refused q q' m now e v valid live h =
      let (same, why) = enqueue-eq-err q q' m now e valid live h in
      not_stored e valid live
        (elim why [
          | inl ran ↦
              enqueue_tx-Refusal bolt json q.in_flight q.capacity (draft_of m now) q.db e v.int64
                v.sound v.budget ran
          | inr (d, entry, f, ran, failed, fault) ↦
              uncommitted-Refusal q m now e d entry f v ran failed fault
        ])
        same

  -- An `enqueue` of a valid queue (its records ascend and decode, and weigh what is counted as used, which
  -- is within the capacity) fails in one of three ways. The message is malformed, or the queue is
  -- closed: then nothing of the queue changes. Or nothing is stored, for a reason that holds of the
  -- message and the database: its entry has no encoding; its encoding alone is above the capacity;
  -- it fits there but the database fails a write or a commit; or it fits there but, with every
  -- record evicted that is not being sent, is still too much. Then all of the queue is as it was but
  -- the block, which notes the reason.
  pub enqueue-Refused :
      (q q' : Queue Db) (m : Message) (now : ℕ) (e : Error)
      → Valid bolt json q
      → enqueue bolt json q m now ≡ (q', err e)
      → Refused q q' m now e
  unfolding enqueue
  enqueue-Refused q q' m now e v h = elim (Bool-cases (is_invalid m)) [
    | inl bad ↦
        let reason : invalid_message ≡ e = ground arith in
        subst (Refused q q' m now) reason (not_valid bad (ground arith))
    | inr valid ↦ elim (Bool-cases q.closed) [
      | inl shut ↦
          let reason : closed ≡ e = ground arith in
          subst (Refused q q' m now) reason (not_open valid shut (ground arith))
      | inr live ↦ not_stored-Refused q q' m now e v valid live h
    ]
  ]
