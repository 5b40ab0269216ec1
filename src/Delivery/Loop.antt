-- ===== src/Delivery/Loop.antt =====
-- `deliver` of outbox/dispatcher.go: the loop that claims rows, hands them to the publishers' workers
-- and acknowledges what they published. One pass of its `select` is one event; the answers of the
-- store, the random jitter and the clock come with the event. Times are microseconds.
use go_pulse.Base.{
  ℕ, ◌+◌, ◌-◌, ◌*◌, ◌/◌, ◌^◌, Bool, true, false, not, ◌&&◌, Option, none, some, List, [], ◌∷◌, ◌++◌,
  length, Result, ok, err, ◌==◌, ltb, leb, if◌then◌else◌, min,
}
use go_pulse.Outbox.Repository.{second}

-- The fields of `Dispatcher` that the loop reads, and its argument `continuous`.
pub record Options : Type 0 where
  pub claim_batch : ℕ
  pub poll_interval : ℕ
  pub continuous : Bool

pub record Completion : Type 0 where
  pub id : ℕ
  pub published : Bool
  pub error : Option ℕ

-- The loop's variables; an error is a number. `timer` is when the claim timer fires, if it is set.
pub record Loop : Type 0 where
  pub in_flight : ℕ
  pub pending : List ℕ
  pub first_claim : Bool
  pub more : Bool
  pub first_err : Option ℕ
  pub next_claim_at : ℕ
  pub timer : Option ℕ
  pub attempt : ℕ

pub data Event : Type 0 where
  cancelled : ℕ → Event
  acknowledges : ℕ → (List ℕ → List (Option ℕ) × Option ℕ) → Event
  completes : ℕ → Completion → (List ℕ → List (Option ℕ) × Option ℕ) → Event
  claims : ℕ → (ℕ → ℕ) → (ℕ → Result ℕ (List ℕ)) → Event

-- The loop goes on, having sent records to the workers, or returns.
pub data Outcome : Type 0 where
  running : Loop → List ℕ → Outcome
  returned : Bool → Option ℕ → Outcome

abbrev pub exceeded : ℕ
exceeded = 0

-- Before the first pass: `time.NewTimer(0)`.
abbrev pub start : ℕ → Loop
start now = record {
  in_flight = 0;
  pending = [];
  first_claim = true;
  more = false;
  first_err = none;
  next_claim_at = 0;
  timer = some now;
  attempt = 0;
}

abbrev pub first_of : Option ℕ → Option ℕ → Option ℕ
first_of none e = e
first_of (some f) e = some f

unfoldable pub remember : Option ℕ → Loop → Loop
remember e l = record l { first_err = first_of l.first_err e }

unfoldable pub remember_all : List (Option ℕ) → Loop → Loop
remember_all [] l = l
remember_all (e ∷ es) l = remember_all es (remember e l)

-- `flush`: `answer` is what `MarkPublishedBatch` says of the pending IDs.
unfoldable pub flush : (List ℕ → List (Option ℕ) × Option ℕ) → Loop → Loop
unfolding remember_all
flush answer l =
    if length l.pending == 0
    then l
    else record (remember_all (answer l.pending).0 (remember (answer l.pending).1 l)) {
      in_flight = l.in_flight - length l.pending;
      pending = [];
    }

-- `scheduleClaim`
unfoldable pub schedule_claim : ℕ → Loop → Loop
schedule_claim now l = record l {
  timer = some (if ltb now l.next_claim_at then l.next_claim_at else now);
}

unfoldable pub storage_backoff : (ℕ → ℕ) → ℕ → ℕ
storage_backoff random attempt =
    let delay = second * 2 ^ min attempt 5 in
    let capped = if ltb (30 * second) delay then 30 * second else delay in
    capped / 2 + random (capped / 2 + 1)

unfoldable pub on_tick : Options → ℕ → (List ℕ → List (Option ℕ) × Option ℕ) → Loop → Loop
unfolding flush schedule_claim
on_tick o now answer l =
    let l' = flush answer l in
    if o.continuous && (ltb 0 (length l.pending) && ltb l'.in_flight o.claim_batch)
    then schedule_claim now l'
    else l'

unfoldable pub count_done : Completion → Loop → Loop
count_done c l =
    if c.published && elim c.error [ none ↦ true | some _ ↦ false ]
    then record l { pending = l.pending ++ c.id ∷ [] }
    else record l { in_flight = l.in_flight - 1 }

-- The acknowledgements wait for ten, or for the last record of a single batch.
unfoldable pub flush_due : Options → Loop → Bool
flush_due o l =
    if leb (min 10 o.claim_batch) (length l.pending)
    then true
    else not o.continuous && l.in_flight == length l.pending

unfoldable pub on_done :
    Options → ℕ → Completion → (List ℕ → List (Option ℕ) × Option ℕ) → Loop → Loop
unfolding count_done flush_due flush schedule_claim remember
on_done o now c answer l =
    let counted = count_done c (remember c.error l) in
    let l' = if flush_due o counted then flush answer counted else counted in
    if o.continuous && ltb l'.in_flight o.claim_batch then schedule_claim now l' else l'

-- After the store's answer to a claim of `free` records.
unfoldable pub on_claimed : Options → ℕ → (ℕ → ℕ) → ℕ → Result ℕ (List ℕ) → Loop → Outcome
unfolding schedule_claim storage_backoff remember
on_claimed o now random free (err e) l =
    if not o.continuous
    then returned false (some e)
    else running
        (record (schedule_claim now (record (remember (some e) l) {
          next_claim_at = now + storage_backoff random l.attempt;
        })) { attempt = min (l.attempt + 1) 5 })
        []
on_claimed o now random free (ok records) l =
    if ltb free (length records)
    then returned false (some exceeded)
    else (let short = ltb (length records) free in
        let l' = record l {
          more = if l.first_claim then length records == free else l.more;
          first_claim = false;
          attempt = 0;
          in_flight = l.in_flight + length records;
          next_claim_at = if short then now + o.poll_interval else 0;
        } in
        running (if o.continuous && short then schedule_claim now l' else l') records)

-- The claim timer fired.
unfoldable pub on_claim : Options → ℕ → (ℕ → ℕ) → (ℕ → Result ℕ (List ℕ)) → Loop → Outcome
unfolding on_claimed
on_claim o now random store l =
    if not l.first_claim && not o.continuous
    then running l []
    else if leb o.claim_batch l.in_flight
    then running l []
    else on_claimed o now random (o.claim_batch - l.in_flight) (store (o.claim_batch - l.in_flight))
        l

unfoldable pub select_case : Options → Loop → Event → Outcome
unfolding on_tick on_done on_claim
select_case o l (cancelled e) = returned false (some e)
select_case o l (acknowledges now answer) = running (on_tick o now answer l) []
select_case o l (completes now c answer) = running (on_done o now c answer l) []
select_case o l (claims now random store) = on_claim o now random store (record l { timer = none })

-- One pass of the `for`.
unfoldable pub pass : Options → Loop → Event → Outcome
unfolding select_case
pass o l event =
    if not o.continuous && (not l.first_claim && l.in_flight == 0)
    then returned l.more l.first_err
    else select_case o l event
