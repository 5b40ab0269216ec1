-- ===== src/Spool/Accept.antt =====
-- `Queue.enqueue` of spool.go: what an accepted message changes, and that the queue stays valid.
use go_pulse.Base.{
  ℕ, suc, ◌+◌, ◌^◌, ◌≤◌, ◌<◌, ◌≡◌, sym, ap, subst, ◌∙◌, true, none, some, List, Result, ok, err,
  ◌==◌, has, add64-eq-add, u64_mod, arith, inl, inr, Bool-cases, Option-cases, Result-cases,
}
use go_pulse.Spool.Store.{Entry, Error, lookup, Bolt, Codec}
use go_pulse.Spool.Bucket.{
  Within, drop_free, drop_free-Within, drop_free-Decodes, append-Within, append-Decodes,
  lookup-drop_free, lookup-append_other, lookup_above,
}
use go_pulse.Spool.Queue.{Queue, Message, sequence_of, enqueue_tx, draft_of, enqueue}
use go_pulse.Spool.Sound.{Sound, Enqueued, enqueue_tx-Enqueued}

some≢none : {A : Type 0} {a : A} → some a ≡ none → ⊥
some≢none h = cc

module _ (bolt : Bolt) (json : Codec) where
  open bolt use {Db, messages, meta, commit}

  pub Enqueued-sequence :
      (in_flight : List ℕ) (capacity : ℕ) (draft : Entry) (d e : Db) (entry : Entry)
      → sequence_of bolt json d + 1 < u64_mod
      → Enqueued bolt json in_flight capacity draft d e entry
      → sequence_of bolt json e ≡ suc (sequence_of bolt json d)
  unfolding sequence_of
  Enqueued-sequence fl capacity draft d e entry small r =
      let exact = add64-eq-add (sequence_of bolt json d) 1 small in ground (arith, r.next)

  pub Enqueued-Sound :
      (in_flight : List ℕ) (capacity : ℕ) (draft : Entry) (d e : Db) (entry : Entry)
      → sequence_of bolt json d + 1 < u64_mod
      → 1 ≤ sequence_of bolt json d
      → Sound bolt json d
      → Enqueued bolt json in_flight capacity draft d e entry
      → Sound bolt json e
  Enqueued-Sound fl capacity draft d e entry small one s r =
      let fresh = sequence_of bolt json d in
      let left = drop_free fl r.dropped (messages d) in
      record {
        ordered =
            rw (Enqueued-sequence fl capacity draft d e entry small r, r.stored)
              (append-Within 1 fresh r.encoded left one
                (drop_free-Within fl r.dropped 1 fresh (messages d) s.ordered));
        decodes = rw r.stored (
            append-Decodes json fresh r.encoded left
              (drop_free-Decodes json fl r.dropped (messages d) s.decodes)
              (
                (
                  entry,
                  json.unmarshal-marshal entry r.encoded r.marshalled,
                  ap (λ (x : Entry). x.sequence) r.numbered,
                ),
                tt,
              ));
        accounted = r.accounted;
        counters = omega (arith, r.evicted);
      }

  pub sequence_of_pos : (d : Db) → 1 ≤ sequence_of bolt json d
  unfolding sequence_of
  sequence_of_pos d = ground arith

  -- A queue between two operations: a sound database within its budget, which is an `int64`.
  pub record Valid (q : Queue Db) : Type 0 where
    pub sound : Sound bolt json q.db
    pub budget : (meta q.db).used_bytes ≤ q.capacity
    pub int64 : q.capacity < 2 ^ 63

  abbrev pub tx : Queue Db → Message → ℕ → Result Error (Db × Entry)
  tx q m now = enqueue_tx bolt json q.in_flight q.capacity (draft_of m now) q.db

  enqueue-eq-ok :
      (q q' : Queue Db) (m : Message) (now : ℕ) (entry : Entry)
      → enqueue bolt json q m now ≡ (q', ok entry)
      → (tx q m now ≡ ok (q'.db, entry)) × (q' ≡ record q { db = q'.db; blocked = "" })
  unfolding enqueue
  enqueue-eq-ok q q' m now entry h = ground arith

  -- An accepted message stands last in the database, under the next sequence. Only the oldest
  -- records that nobody is sending made room for it, and no more of them than were needed. The
  -- queue stays valid, with nothing else of it changed but the block, which is lifted.
  pub enqueue_accepted :
      (q q' : Queue Db) (m : Message) (now : ℕ) (entry : Entry)
      → Valid q
      → sequence_of bolt json q.db + 1 < u64_mod
      → enqueue bolt json q m now ≡ (q', ok entry)
      → Enqueued bolt json q.in_flight q.capacity (draft_of m now) q.db q'.db entry
        × Valid q'
        × (q' ≡ record q { db = q'.db; blocked = "" })
  enqueue_accepted q q' m now entry v small h =
      let (ran, rest) = enqueue-eq-ok q q' m now entry h in
      let stored =
        enqueue_tx-Enqueued bolt json q.in_flight q.capacity (draft_of m now) q.db q'.db entry
          v.int64 v.sound v.budget ran in
      let same : q'.capacity ≡ q.capacity = ap (λ (x : Queue Db). x.capacity) rest in
      (
        stored,
        record {
          sound =
              Enqueued-Sound q.in_flight q.capacity (draft_of m now) q.db q'.db entry small
                (sequence_of_pos q.db) v.sound stored;
          budget = omega (arith, stored.bounded);
          int64 = rw same v.int64;
        },
        rest,
      )

  pub enqueue-err-db :
      (q q' : Queue Db) (m : Message) (now : ℕ) (e : Error)
      → enqueue bolt json q m now ≡ (q', err e)
      → q' ≡ record q { blocked = q'.blocked }
  unfolding enqueue
  enqueue-err-db q q' m now e h = elim (Result-cases (tx q m now)) [
    | inr (x, bad) ↦ ground arith
    | inl ((d, a), good) ↦ elim (Option-cases (commit d)) [
      | inl done ↦ ground arith
      | inr (f, fault) ↦ ground arith
    ]
  ]

  lookup-Enqueued :
      (in_flight : List ℕ) (capacity : ℕ) (draft : Entry) (d e : Db) (entry : Entry) (k : ℕ)
      (value : List ℕ)
      → Within 1 (sequence_of bolt json d) (messages d)
      → has in_flight k ≡ true
      → lookup k (messages d) ≡ some value
      → Enqueued bolt json in_flight capacity draft d e entry
      → lookup k (messages e) ≡ some value
  lookup-Enqueued fl capacity draft d e entry k value w held there r =
      elim (Bool-cases (sequence_of bolt json d == k)) [
        | inl same ↦
            let none_there =
              lookup_above k 1 (sequence_of bolt json d) (messages d) w (ground arith) in
            absurd (some≢none (sym there ∙ none_there))
        | inr other ↦ rw r.stored (
            lookup-append_other (sequence_of bolt json d) k r.encoded _ other
            ∙ lookup-drop_free fl r.dropped k (messages d) held
            ∙ there)
      ]

  -- A record that is being sent outlasts every `enqueue`, whatever its outcome.
  pub enqueue_keeps_in_flight :
      (q q' : Queue Db) (m : Message) (now k : ℕ) (value : List ℕ) (r : Result Error Entry)
      → Valid q
      → has q.in_flight k ≡ true
      → lookup k (messages q.db) ≡ some value
      → enqueue bolt json q m now ≡ (q', r)
      → lookup k (messages q'.db) ≡ some value
  enqueue_keeps_in_flight q q' m now k value (err e) v held there h =
      subst (λ (d : Db). lookup k (messages d) ≡ some value)
        (sym (ap (λ (x : Queue Db). x.db) (enqueue-err-db q q' m now e h))) there
  enqueue_keeps_in_flight q q' m now k value (ok entry) v held there h =
      lookup-Enqueued q.in_flight q.capacity (draft_of m now) q.db q'.db entry k value
        v.sound.ordered held there
        (enqueue_tx-Enqueued bolt json q.in_flight q.capacity (draft_of m now) q.db q'.db entry
          v.int64 v.sound v.budget (enqueue-eq-ok q q' m now entry h).0)
