-- ===== src/Examples/Spool.antt =====
-- The spool at concrete inputs, over a database in memory and a codec for one kind of message.
use text.Mathlib.Text.{◌==◌ as str_eq}
use text.Mathlib.TextEquality.{eq_iff}
use go_pulse.Base.{
  ℕ, zero, suc, ◌+◌, ◌*◌, ◌/◌, ◌≤◌, ◌≡◌, refl, sym, ap, Bool, true, false, ◌&&◌, Option, none, some,
  List, [], ◌∷◌, ok, err, if◌then◌else◌, has, discard, add64, ◌⊎◌, arith,
}
use go_pulse.Spool.Store.{
  metrics, Entry, queue_busy, Meta, meta_put, Messages, lookup, upsert, remove, entry_size,
  first_free, Bolt, Codec,
}
use go_pulse.Spool.Bucket.{total}
use go_pulse.Spool.Queue.{
  Queue, Message, enqueue, claim, delete, find, next, sequence_of, draft_of, enqueue_tx, delete_tx,
  is_invalid, update, classify_write_error, make_room,
}
use go_pulse.Spool.Eviction.{ok-injective}
use go_pulse.Spool.Sound.{Sound, Enqueued}
use go_pulse.Spool.Accept.{Valid, enqueue_accepted}
use go_pulse.Spool.Refuse.{Refused, enqueue-Refused}
use go_pulse.Spool.Claim.{Claimable, Nobody, claim_oldest, claim_total}
use go_pulse.Spool.Acknowledge.{Deleted, delete_acknowledged}
use go_pulse.Spool.Trace.{enqueues, claims, fails, Sending, run, handed, run-Valid, run-Sending}
use go_pulse.Spool.Open.{open_queue, Aged, init_tx, max_size_of, capacity_of, minimum_database_size}
use go_pulse.Spool.Restart.{
  AllOld, AllWritten, Growing, new_count, open_queue_ages, open_queue_understates,
}
use go_pulse.Spool.Manager.{Retry, Runner, accepted, transient, wait, grow, finish_send}
use go_pulse.Spool.Fairness.{
  Contested, chosen, choices, choices_ratio, grow_bounds, transient_keeps, finish_send_clears,
}

abbrev memory : Bolt
memory = record {
  Db = Messages × Meta;
  messages = λ d. d.0;
  meta = λ d. d.1;
  put = λ d k v. ok (upsert k v d.0, d.1);
  delete = λ d k. ok (remove k d.0, d.1);
  put_meta = λ d k v. ok (d.0, meta_put k v d.1);
  commit = λ d. none;
  put_messages = λ d k v e h. ap (λ (x : Messages × Meta). x.0) (sym (ok-injective h));
  put_keeps_meta = λ d k v e h. ap (λ (x : Messages × Meta). x.1) (sym (ok-injective h));
  delete_messages = λ d k e h. ap (λ (x : Messages × Meta). x.0) (sym (ok-injective h));
  delete_keeps_meta = λ d k e h. ap (λ (x : Messages × Meta). x.1) (sym (ok-injective h));
  put_meta_meta = λ d k v e h. ap (λ (x : Messages × Meta). x.1) (sym (ok-injective h));
  put_meta_keeps_messages = λ d k v e h. ap (λ (x : Messages × Meta). x.0) (sym (ok-injective h));
}

-- Entries of one message's identity, written as numbers; an old one is a number longer.
abbrev flag : Bool → List ℕ → List ℕ
flag true body = 1 ∷ body
flag false body = 0 ∷ 0 ∷ body

abbrev entry_of : ℕ → ℕ → Bool → List ℕ → Entry
entry_of s t new body = record {
  sequence = s;
  message_id = "m";
  type = "metrics";
  body = body;
  enqueued_at = t;
  new = new;
}

marshal : Entry → Option (List ℕ)
marshal e =
    if str_eq e.message_id "m" && str_eq e.type "metrics"
    then some (e.sequence ∷ e.enqueued_at ∷ flag e.new e.body)
    else none

unmarshal : List ℕ → Option Entry
unmarshal (s ∷ t ∷ zero ∷ zero ∷ body) = some (entry_of s t false body)
unmarshal (s ∷ t ∷ suc n ∷ body) = some (entry_of s t true body)
unmarshal _ = none

unmarshal-flag :
    (s t : ℕ) (new : Bool) (body : List ℕ)
    → unmarshal (s ∷ t ∷ flag new body) ≡ some (entry_of s t new body)
unfolding unmarshal
unmarshal-flag s t true body = refl
unmarshal-flag s t false body = refl

unmarshal-marshal : (e : Entry) (v : List ℕ) → marshal e ≡ some v → unmarshal v ≡ some e
unfolding marshal
unmarshal-marshal e v h = ground (
  arith,
  eq_iff e.message_id "m",
  eq_iff e.type "metrics",
  unmarshal-flag e.sequence e.enqueued_at e.new e.body,
)

abbrev json : Codec
json = record { marshal = marshal; unmarshal = unmarshal; unmarshal-marshal = unmarshal-marshal }

-- Two records of 20 bytes each in a queue that holds 45, the first of them being sent.
abbrev two_stored : Messages
two_stored = (1, 1 ∷ 5 ∷ 1 ∷ 7 ∷ []) ∷ (2, 2 ∷ 6 ∷ 1 ∷ 8 ∷ []) ∷ []

abbrev counters : Meta
counters = record { next_seq = 3; used_bytes = 40; enqueued = 2; sent = 0; failed = 0; evicted = 0 }

abbrev queue_with : List ℕ → Queue (Messages × Meta)
queue_with in_flight = record {
  kind = metrics;
  capacity = 45;
  db = (two_stored, counters);
  closed = false;
  blocked = "";
  in_flight = in_flight;
}

abbrev third : Message
third = record { id = "m"; type = "metrics"; body = 9 ∷ [] }

two_stored-Sound : Sound memory json (two_stored, counters)
unfolding sequence_of total entry_size unmarshal
two_stored-Sound = record {
  ordered = omega arith;
  decodes =
      ((entry_of 1 5 true (7 ∷ []), refl, refl), ((entry_of 2 6 true (8 ∷ []), refl, refl), tt));
  accounted = refl;
  counters = omega arith;
}

queue_with-Valid : (in_flight : List ℕ) → Valid memory json (queue_with in_flight)
queue_with-Valid in_flight = record {
  sound = two_stored-Sound;
  budget = omega arith;
  int64 = omega arith;
}

abbrev after_third : Queue (Messages × Meta)
after_third = record (queue_with (1 ∷ [])) {
  db = (
    (1, 1 ∷ 5 ∷ 1 ∷ 7 ∷ []) ∷ (3, 3 ∷ 7 ∷ 1 ∷ 9 ∷ []) ∷ [],
    record counters { next_seq = 4; enqueued = 3; evicted = 1 },
  );
}

-- The second record makes room, since the first is being sent.
third_evicts_second :
    enqueue memory json (queue_with (1 ∷ [])) third 7
    ≡ (after_third, ok (entry_of 3 7 true (9 ∷ [])))
unfolding enqueue enqueue_tx is_invalid draft_of marshal make_room first_free remove upsert has
    entry_size add64 sequence_of
third_evicts_second = refl

enqueue_accepted_example :
    Enqueued memory json
      (1 ∷ [])
      45
      (draft_of third 7)
      (two_stored, counters)
      after_third.db
      (entry_of 3 7 true (9 ∷ []))
    × Valid memory json after_third
    × (after_third ≡ record (queue_with (1 ∷ [])) { db = after_third.db; blocked = "" })
unfolding sequence_of
enqueue_accepted_example =
    enqueue_accepted memory json (queue_with (1 ∷ [])) after_third third 7
      (entry_of 3 7 true (9 ∷ [])) (queue_with-Valid (1 ∷ [])) (omega arith) third_evicts_second

third_is_refused :
    enqueue memory json (queue_with (1 ∷ 2 ∷ [])) third 7
    ≡ (record (queue_with (1 ∷ 2 ∷ [])) { blocked = "queue_busy" }, err queue_busy)
unfolding enqueue enqueue_tx is_invalid draft_of marshal make_room first_free has entry_size add64
    sequence_of classify_write_error
third_is_refused = refl

enqueue-Refused_example :
    Refused memory json
      (queue_with (1 ∷ 2 ∷ []))
      (record (queue_with (1 ∷ 2 ∷ [])) { blocked = "queue_busy" })
      third
      7
      queue_busy
enqueue-Refused_example =
    enqueue-Refused memory json (queue_with (1 ∷ 2 ∷ [])) _ third 7 queue_busy
      (queue_with-Valid (1 ∷ 2 ∷ [])) third_is_refused

claim_oldest_example :
    Claimable json (1 ∷ []) true two_stored (entry_of 2 6 true (8 ∷ []))
    × (queue_with (2 ∷ 1 ∷ []) ≡ queue_with (2 ∷ 1 ∷ []))
unfolding claim find has unmarshal
claim_oldest_example =
    claim_oldest memory json (queue_with (1 ∷ [])) (queue_with (2 ∷ 1 ∷ [])) true
      (entry_of 2 6 true (8 ∷ [])) two_stored-Sound refl

claim_total_example :
    ((e : Entry) × ((claim memory json (queue_with (1 ∷ 2 ∷ [])) false).1 ≡ ok (some e)))
    ⊎ ((claim memory json (queue_with (1 ∷ 2 ∷ [])) false ≡ (queue_with (1 ∷ 2 ∷ []), ok none))
        × Nobody json (1 ∷ 2 ∷ []) false two_stored)
claim_total_example = claim_total memory json (queue_with (1 ∷ 2 ∷ [])) false two_stored-Sound refl

abbrev acknowledged : Queue (Messages × Meta)
acknowledged = record (queue_with []) {
  db = ((2, 2 ∷ 6 ∷ 1 ∷ 8 ∷ []) ∷ [], record counters { used_bytes = 20; sent = 1 });
}

delete_acknowledged_example :
    Deleted memory json (entry_of 1 5 true (7 ∷ [])) true (two_stored, counters) acknowledged.db
    × (has [] 1 ≡ false)
    × Valid memory json acknowledged
unfolding delete delete_tx lookup remove entry_size unmarshal discard add64
delete_acknowledged_example =
    delete_acknowledged memory json (queue_with (1 ∷ [])) acknowledged (entry_of 1 5 true (7 ∷ []))
      true true (queue_with-Valid (1 ∷ [])) refl

run-Valid_example :
    Valid memory json
      (run memory json (queue_with []) (claims true ∷ enqueues third 7 ∷ fails ∷ []))
unfolding sequence_of
run-Valid_example =
    run-Valid memory json (queue_with []) (claims true ∷ enqueues third 7 ∷ fails ∷ [])
      (queue_with-Valid []) (omega arith)

run-Sending_example :
    Sending memory json 1
      (1 ∷ 5 ∷ 1 ∷ 7 ∷ [])
      (run memory json (queue_with (1 ∷ [])) (enqueues third 7 ∷ claims true ∷ fails ∷ []))
    × (has
          (handed memory json (queue_with (1 ∷ [])) (enqueues third 7 ∷ claims true ∷ fails ∷ []))
          1
        ≡ false)
unfolding sequence_of lookup has
run-Sending_example =
    run-Sending memory json 1 (1 ∷ 5 ∷ 1 ∷ 7 ∷ []) (queue_with (1 ∷ []))
      (enqueues third 7 ∷ claims true ∷ fails ∷ []) (queue_with-Valid (1 ∷ [])) (omega arith) tt
      (refl, refl)

-- An old record before a new one.
abbrev mixed : Queue (Messages × Meta)
mixed = record (queue_with []) {
  db = ((1, 1 ∷ 5 ∷ 0 ∷ 0 ∷ 7 ∷ []) ∷ (2, 2 ∷ 6 ∷ 1 ∷ 8 ∷ []) ∷ [], counters);
}

mixed-Contested : Contested memory json mixed
unfolding next find unmarshal has first_free
mixed-Contested = record {
  fresh = entry_of 2 6 true (8 ∷ []);
  old = entry_of 1 5 false (7 ∷ []);
  live = refl;
  pending = omega arith;
  found_new = refl;
  found_old = refl;
  differ = refl;
}

choices_ratio_example :
    let (last, made) = choices memory json 2 (mixed ∷ mixed ∷ []) in
    (chosen true made + 2 ≡ last + 3 * chosen false made) × (last ≤ 3)
choices_ratio_example =
    choices_ratio memory json 2 (mixed ∷ mixed ∷ []) (omega arith)
      (mixed-Contested, (mixed-Contested, tt))

abbrev retry : Retry
retry = record { retry_min = 250; retry_max = 5000 }

grow_bounds_example :
    (3000 ≤ grow retry 3000)
    × (grow retry 3000 ≤ 5000)
    × ((grow retry 3000 ≡ 6000) ⊎ (grow retry 3000 ≡ 5000))
grow_bounds_example = grow_bounds retry 3000 (omega arith) (omega arith)

abbrev runner : Runner (Messages × Meta)
runner = record { queue = queue_with (1 ∷ []); backoff = 250; new_sent = 0 }

transient_keeps_example :
    let (r, next') =
      finish_send memory json retry (λ b. b / 2) runner (entry_of 1 5 true (7 ∷ [])) transient in
    (lookup 1 (memory.messages r.queue.db) ≡ lookup 1 two_stored)
    × (has r.queue.in_flight 1 ≡ false)
    × Valid memory json r.queue
    × (next' ≡ wait (250 + 250 / 2))
    × (r.backoff ≡ grow retry 250)
transient_keeps_example =
    transient_keeps memory json retry (λ b. b / 2) runner (entry_of 1 5 true (7 ∷ [])) 1
      (queue_with-Valid (1 ∷ []))

finish_send_clears_example :
    has
      (finish_send memory json retry
        (λ b. b)
        runner
        (entry_of 1 5 true (7 ∷ []))
        accepted).0.queue.in_flight
      1
    ≡ false
finish_send_clears_example =
    finish_send_clears memory json retry (λ b. b) runner (entry_of 1 5 true (7 ∷ [])) accepted

abbrev reopened : Queue (Messages × Meta)
reopened = record (queue_with []) {
  capacity = 805306368;
  db = ((1, 1 ∷ 5 ∷ 0 ∷ 0 ∷ 7 ∷ []) ∷ (2, 2 ∷ 6 ∷ 0 ∷ 0 ∷ 8 ∷ []) ∷ [], counters);
}

reopens : open_queue memory json metrics 0 (two_stored, counters) ≡ ok reopened
unfolding open_queue init_tx marshal unmarshal upsert update max_size_of capacity_of
reopens = refl

json-Growing : Growing json
unfolding marshal
json-Growing e v w made new m = ground (arith, made, new, m)

two_stored-AllWritten : AllWritten json two_stored
unfolding marshal
two_stored-AllWritten =
    ((entry_of 1 5 true (7 ∷ []), refl), ((entry_of 2 6 true (8 ∷ []), refl), tt))

open_queue_ages_example :
    Aged memory json two_stored (memory.messages reopened.db)
    × AllOld json (memory.messages reopened.db)
    × (counters ≡ record counters { next_seq = sequence_of memory json (two_stored, counters) })
    × (reopened.in_flight ≡ [])
    × (reopened.closed ≡ false)
    × (reopened.capacity ≡ max_size_of 0 * 75 / 100)
    × (minimum_database_size ≤ max_size_of 0)
open_queue_ages_example =
    open_queue_ages memory json metrics 0 (two_stored, counters) reopened two_stored-Sound.ordered
      reopens

open_queue_understates_example :
    total (memory.messages reopened.db) ≡ 40 + new_count json two_stored
open_queue_understates_example =
    open_queue_understates memory json metrics 0 (two_stored, counters) reopened two_stored-Sound
      json-Growing two_stored-AllWritten reopens
