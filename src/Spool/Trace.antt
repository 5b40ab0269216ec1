-- ===== src/Spool/Trace.antt =====
-- A spool queue over any interleaving of its callers (spool.go): producers enqueue while the sender
-- claims, acknowledges or gives back.
use go_pulse.Base.{
  ℕ, suc, ◌+◌, ◌≤◌, ◌<◌, ◌≡◌, refl, sym, ap, ◌∙◌, Bool, true, false, Option, none, some, List, [],
  ◌∷◌, length, Result, ok, err, ◌==◌, has, has-discard_other, u64_mod, arith, inl, inr, Bool-cases,
}
use go_pulse.Spool.Store.{Entry, Error, Bolt, Codec, lookup}
use go_pulse.Spool.Queue.{
  Queue, Message, sequence_of, enqueue, claim, find, mark_claimed, delete, release, mark_failed,
  close,
}
use go_pulse.Spool.Accept.{
  Valid, enqueue_accepted, enqueue-err-db, Enqueued-sequence, enqueue_keeps_in_flight,
}
use go_pulse.Spool.Claim.{claim_oldest}
use go_pulse.Spool.Acknowledge.{
  delete_acknowledged, delete-eq-ok, delete-eq-err, Deleted-sequence, delete_other, mark_failed_lem,
}

-- A call of one of the queue's methods.
pub data Call : Type 0 where
  enqueues : Message → ℕ → Call
  claims : Bool → Call
  deletes : Entry → Bool → Call
  releases : Entry → Call
  fails : Call
  closes : Call

true≢false : true ≡ false → ⊥
true≢false h = cc

pair-eq : {A B : Type 0} {p : A × B} {a : A} {b : B} → p.0 ≡ a → p.1 ≡ b → p ≡ (a, b)
pair-eq {p = (x, y)} h k = cc

module _ (bolt : Bolt) (json : Codec) where
  open bolt use {Db, messages}

  pub step : Queue Db → Call → Queue Db
  step q (enqueues m now) = (enqueue bolt json q m now).0
  step q (claims prefer_new) = (claim bolt json q prefer_new).0
  step q (deletes entry sent) = (delete bolt json q entry sent).0
  step q (releases entry) = release bolt json q entry
  step q fails = (mark_failed bolt json q).0
  step q closes = close bolt json q

  pub run : Queue Db → List Call → Queue Db
  run q [] = q
  run q (c ∷ cs) = run (step q c) cs

  -- No call ends the sending of the record `k`.
  abbrev pub Untouched : ℕ → List Call → Type 0
  Untouched k [] = Unit {0}
  Untouched k (deletes e _ ∷ cs) = ((e.sequence == k) ≡ false) × Untouched k cs
  Untouched k (releases e ∷ cs) = ((e.sequence == k) ≡ false) × Untouched k cs
  Untouched k (_ ∷ cs) = Untouched k cs

  -- What one call promises: a valid queue, and a numbering that moves by one at most.
  abbrev Keeps : Queue Db → Queue Db → Type 0
  Keeps q q' = Valid bolt json q' × (sequence_of bolt json q'.db ≤ suc (sequence_of bolt json q.db))

  same_db-Keeps :
      (q q' : Queue Db) → Valid bolt json q → q'.db ≡ q.db → q'.capacity ≡ q.capacity → Keeps q q'
  same_db-Keeps q q' v d c = (
    record { sound = rw d v.sound; budget = rw (d, c) v.budget; int64 = rw c v.int64 },
    rw d (omega arith),
  )

  enqueue-Keeps :
      (q q' : Queue Db) (m : Message) (now : ℕ) (r : Result Error Entry)
      → Valid bolt json q
      → sequence_of bolt json q.db + 1 < u64_mod
      → enqueue bolt json q m now ≡ (q', r)
      → Keeps q q'
  enqueue-Keeps q q' m now (ok entry) v small h =
      let (stored, valid, _) = enqueue_accepted bolt json q q' m now entry v small h in
      (valid, omega (arith, Enqueued-sequence bolt json _ _ _ q.db q'.db entry small stored))
  enqueue-Keeps q q' m now (err e) v small h =
      let same = enqueue-err-db bolt json q q' m now e h in
      same_db-Keeps q q' v (ap (λ (x : Queue Db). x.db) same)
        (ap (λ (x : Queue Db). x.capacity) same)

  delete-Keeps :
      (q q' : Queue Db) (entry : Entry) (sent : Bool) (r : Result Error Bool)
      → Valid bolt json q
      → delete bolt json q entry sent ≡ (q', r)
      → Keeps q q'
  delete-Keeps q q' entry sent (ok b) v h =
      let (done, _, valid) = delete_acknowledged bolt json q q' entry sent b v h in
      (valid, omega (arith, Deleted-sequence bolt json entry sent q.db q'.db done))
  delete-Keeps q q' entry sent (err e) v h =
      let same = delete-eq-err bolt json q q' entry sent e h in
      same_db-Keeps q q' v (ap (λ (x : Queue Db). x.db) same)
        (ap (λ (x : Queue Db). x.capacity) same)

  mark_claimed_keeps :
      (q : Queue Db) (r : Result Error (Option Entry)) (k : ℕ)
      → let q' = (mark_claimed bolt json q r).0 in
        (q'.db ≡ q.db)
        × (q'.capacity ≡ q.capacity)
        × (has q.in_flight k ≡ true → has q'.in_flight k ≡ true)
  unfolding mark_claimed has
  mark_claimed_keeps q (ok (some e)) k = (refl, refl, λ h. ground arith)
  mark_claimed_keeps q (ok none) k = (refl, refl, λ h. h)
  mark_claimed_keeps q (err e) k = (refl, refl, λ h. h)

  claim_keeps :
      (q : Queue Db) (p : Bool) (k : ℕ)
      → let q' = (claim bolt json q p).0 in
        (q'.db ≡ q.db)
        × (q'.capacity ≡ q.capacity)
        × (has q.in_flight k ≡ true → has q'.in_flight k ≡ true)
  unfolding claim
  claim_keeps q p k = elim (Bool-cases q.closed) [
    | inl shut ↦ simp shut (refl, refl, λ h. h)
    | inr live ↦ simp live (mark_claimed_keeps q (find bolt json q p) k)
  ]

  step-Keeps :
      (q : Queue Db) (c : Call)
      → Valid bolt json q
      → sequence_of bolt json q.db + 1 < u64_mod
      → Keeps q (step q c)
  unfolding step release close
  step-Keeps q (enqueues m now) v small =
      enqueue-Keeps q _ m now (enqueue bolt json q m now).1 v small refl
  step-Keeps q (claims p) v small = same_db-Keeps q _ v (claim_keeps q p 0).0 (claim_keeps q p 0).1
  step-Keeps q (deletes entry sent) v small =
      delete-Keeps q _ entry sent (delete bolt json q entry sent).1 v refl
  step-Keeps q (releases entry) v small = same_db-Keeps q _ v refl refl
  step-Keeps q fails v small =
      let (_, _, number, valid) = mark_failed_lem bolt json q v in (valid, omega arith)
  step-Keeps q closes v small = same_db-Keeps q _ v (ground arith) (ground arith)

  -- A valid queue stays valid whatever is called on it and whatever the database answers, as long as
  -- its sequences do not reach 2^64.
  pub run-Valid :
      (q : Queue Db) (cs : List Call)
      → Valid bolt json q
      → sequence_of bolt json q.db + length cs < u64_mod
      → Valid bolt json (run q cs)
  unfolding run
  run-Valid q [] v small = v
  run-Valid q (c ∷ cs) v small =
      let (valid, next) = step-Keeps q c v (omega arith) in
      run-Valid (step q c) cs valid (omega arith)

  -- The record `k` is stored and being sent.
  abbrev pub Sending : ℕ → List ℕ → Queue Db → Type 0
  Sending k value q = (lookup k (messages q.db) ≡ some value) × (has q.in_flight k ≡ true)

  same_db_Sending :
      (k : ℕ) (value : List ℕ) (q q' : Queue Db)
      → q'.db ≡ q.db
      → (has q.in_flight k ≡ true → has q'.in_flight k ≡ true)
      → Sending k value q
      → Sending k value q'
  same_db_Sending k value q q' d keeps (there, held) = (rw d there, keeps held)

  enqueue-Sending :
      (k : ℕ) (value : List ℕ) (q q' : Queue Db) (m : Message) (now : ℕ) (r : Result Error Entry)
      → Valid bolt json q
      → sequence_of bolt json q.db + 1 < u64_mod
      → enqueue bolt json q m now ≡ (q', r)
      → Sending k value q
      → Sending k value q'
  enqueue-Sending k value q q' m now (ok entry) v small h (there, held) =
      let (_, _, rest) = enqueue_accepted bolt json q q' m now entry v small h in
      (
        enqueue_keeps_in_flight bolt json q q' m now k value (ok entry) v held there h,
        rw (ap (λ (x : Queue Db). x.in_flight) rest) held,
      )
  enqueue-Sending k value q q' m now (err e) v small h s =
      let same = enqueue-err-db bolt json q q' m now e h in
      same_db_Sending k value q q' (ap (λ (x : Queue Db). x.db) same)
        (λ held. rw (ap (λ (x : Queue Db). x.in_flight) same) held) s

  delete-Sending :
      (k : ℕ) (value : List ℕ) (q q' : Queue Db) (entry : Entry) (sent : Bool)
      (r : Result Error Bool)
      → Valid bolt json q
      → (entry.sequence == k) ≡ false
      → delete bolt json q entry sent ≡ (q', r)
      → Sending k value q
      → Sending k value q'
  delete-Sending k value q q' entry sent (ok b) v other h (there, held) =
      let (done, _, _) = delete_acknowledged bolt json q q' entry sent b v h in
      let rest = (delete-eq-ok bolt json q q' entry sent b h).1 in
      (
        delete_other bolt json entry sent q.db q'.db k other done ∙ there,
        rw (ap (λ (x : Queue Db). x.in_flight) rest)
            (has-discard_other entry.sequence k q.in_flight other ∙ held),
      )
  delete-Sending k value q q' entry sent (err e) v other h s =
      let same = delete-eq-err bolt json q q' entry sent e h in
      same_db_Sending k value q q' (ap (λ (x : Queue Db). x.db) same)
        (λ held. rw (ap (λ (x : Queue Db). x.in_flight) same) held) s

  step-Sending :
      (k : ℕ) (value : List ℕ) (q : Queue Db) (c : Call)
      → Valid bolt json q
      → sequence_of bolt json q.db + 1 < u64_mod
      → Untouched k (c ∷ [])
      → Sending k value q
      → Sending k value (step q c)
  unfolding step release close
  step-Sending k value q (enqueues m now) v small u s =
      enqueue-Sending k value q _ m now (enqueue bolt json q m now).1 v small refl s
  step-Sending k value q (claims p) v small u s =
      same_db_Sending k value q (claim bolt json q p).0 (claim_keeps q p k).0 (claim_keeps q p k).2
        s
  step-Sending k value q (deletes entry sent) v small u s =
      delete-Sending k value q _ entry sent (delete bolt json q entry sent).1 v u.0 refl s
  step-Sending k value q (releases entry) v small u s =
      (s.0, has-discard_other entry.sequence k q.in_flight u.0 ∙ s.1)
  step-Sending k value q fails v small u s =
      let (same, held, _, _) = mark_failed_lem bolt json q v in (rw same s.0, rw held s.1)
  step-Sending k value q closes v small u s = (ground arith, ground arith)

  Untouched-cons :
      (k : ℕ) (c : Call) (cs : List Call)
      → Untouched k (c ∷ cs)
      → Untouched k (c ∷ []) × Untouched k cs
  Untouched-cons k (enqueues _ _) cs u = (tt, u)
  Untouched-cons k (claims _) cs u = (tt, u)
  Untouched-cons k (deletes _ _) cs u = ((u.0, tt), u.1)
  Untouched-cons k (releases _) cs u = ((u.0, tt), u.1)
  Untouched-cons k fails cs u = (tt, u)
  Untouched-cons k closes cs u = (tt, u)

  -- What a call hands to its caller to be sent.
  abbrev pub answer_of : Queue Db → Call → Result Error (Option Entry)
  answer_of q (claims prefer_new) = (claim bolt json q prefer_new).1
  answer_of q (enqueues _ _) = ok none
  answer_of q (deletes _ _) = ok none
  answer_of q (releases _) = ok none
  answer_of q fails = ok none
  answer_of q closes = ok none

  abbrev pub with_answer : Result Error (Option Entry) → List ℕ → List ℕ
  with_answer (ok (some e)) ks = e.sequence ∷ ks
  with_answer (ok none) ks = ks
  with_answer (err _) ks = ks

  -- The sequences of the records that the claims of a run hand out, in order.
  unfoldable pub handed : Queue Db → List Call → List ℕ
  handed q [] = []
  handed q (c ∷ cs) = with_answer (answer_of q c) (handed (step q c) cs)

  with_answer-other :
      (k : ℕ) (r : Result Error (Option Entry)) (ks : List ℕ)
      → ((e : Entry) → r ≡ ok (some e) → (e.sequence == k) ≡ false)
      → has ks k ≡ false
      → has (with_answer r ks) k ≡ false
  unfolding has
  with_answer-other k (ok (some e)) ks other h = rw (other e refl) h
  with_answer-other k (ok none) ks other h = h
  with_answer-other k (err _) ks other h = h

  -- A claim never hands out what is being sent.
  claimed_other :
      (k : ℕ) (q : Queue Db) (c : Call) (e : Entry)
      → Valid bolt json q
      → has q.in_flight k ≡ true
      → answer_of q c ≡ ok (some e)
      → (e.sequence == k) ≡ false
  claimed_other k q (claims p) e v held h =
      let (taken, _) =
        claim_oldest bolt json q (claim bolt json q p).0 p e v.sound (pair-eq refl h) in
      let free = taken.free in
      elim (Bool-cases (e.sequence == k)) [
        | inl same ↦
            let here : e.sequence ≡ k = ground arith in
            absurd (true≢false (sym held ∙ (ap (has q.in_flight) (sym here) ∙ free)))
        | inr other ↦ other
      ]
  claimed_other k q (enqueues _ _) e v held h = absurd (cc)
  claimed_other k q (deletes _ _) e v held h = absurd (cc)
  claimed_other k q (releases _) e v held h = absurd (cc)
  claimed_other k q fails e v held h = absurd (cc)
  claimed_other k q closes e v held h = absurd (cc)

  -- In a valid queue (its records ascend and decode, and weigh what is counted as used, which is within
  -- the capacity), as long as its sequences do not reach 2^64, a record that is being sent stays
  -- stored and counted as being sent, and no claim hands it out again, through any sequence of
  -- calls in which nobody deletes or releases that record: no enqueue evicts it.
  pub run-Sending :
      (k : ℕ) (value : List ℕ) (q : Queue Db) (cs : List Call)
      → Valid bolt json q
      → sequence_of bolt json q.db + length cs < u64_mod
      → Untouched k cs
      → Sending k value q
      → Sending k value (run q cs) × (has (handed q cs) k ≡ false)
  unfolding run handed has
  run-Sending k value q [] v small u s = (s, refl)
  run-Sending k value q (c ∷ cs) v small u s =
      let (valid, next) = step-Keeps q c v (omega arith) in
      let (now, later) = Untouched-cons k c cs u in
      let (kept, others) =
        run-Sending k value (step q c) cs valid (omega arith) later
          (step-Sending k value q c v (omega arith) now s) in
      (
        kept,
        with_answer-other k (answer_of q c) (handed (step q c) cs)
            (λ e h. claimed_other k q c e v s.1 h) others,
      )
