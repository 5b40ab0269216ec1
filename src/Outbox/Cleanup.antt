-- ===== src/Outbox/Cleanup.antt =====
-- Removing published rows: `CleanupPublished` of outbox/repository.go, and `CleanupOnce` of
-- outbox/dispatcher.go, which repeats it. What the database answers and the clock reads, and the
-- other tables that keep a row, come with each round. A cursor at zero is `time.Time{}`.
use go_pulse.Base.{
  sort_by, ℕ, Bool, true, false, not, ◌&&◌, ◌||◌, Option, none, some, List, [], ◌∷◌, Result, ok,
  err, ◌==◌, ltb, leb, if◌then◌else◌, has, bytes_eq, take, keep, length,
}
use go_pulse.Outbox.Row.{Status, published, Row, or_zero}
use go_pulse.Outbox.Repository.{Error, invalid_argument, storage, ids}

abbrev pub maximum_cleanup_batch : ℕ
maximum_cleanup_batch = 500

-- The columns of `business_event_requirements` and of `business_commands` that keep an event.
pub record Requirement : Type 0 where
  pub event_id : List ℕ
  pub closed_at : Option ℕ
  pub retain_until : Option ℕ

pub record Command : Type 0 where
  pub event_id : List ℕ
  pub retained_until : Option ℕ

-- `IS NULL OR … > ?`
abbrev pub null_or_after : ℕ → Option ℕ → Bool
null_or_after now none = true
null_or_after now (some t) = ltb now t

abbrev pub is_null : Option ℕ → Bool
is_null none = true
is_null (some t) = false

unfoldable pub required : ℕ → List Requirement → List ℕ → Bool
required now [] event = false
required now (r ∷ rest) event =
    bytes_eq r.event_id event && (is_null r.closed_at || null_or_after now r.retain_until)
    || required now rest event

unfoldable pub commanded : ℕ → List Command → List ℕ → Bool
commanded now [] event = false
commanded now (c ∷ rest) event =
    bytes_eq c.event_id event && null_or_after now c.retained_until || commanded now rest event

abbrev pub is_published : Status → Bool
is_published published = true
is_published _ = false

abbrev pub before : ℕ → Option ℕ → Bool
before cutoff none = false
before cutoff (some t) = ltb t cutoff

-- `status='published' AND published_at < ?`
unfoldable pub published_before : ℕ → Row → Bool
published_before cutoff r = is_published r.status && before cutoff r.published_at

-- The fields `cleanupAt`, `cleanupID` and `cleanupMore` of the repository.
pub record Cleaner : Type 0 where
  pub cleanup_at : ℕ
  pub cleanup_id : ℕ
  pub cleanup_more : Bool

-- `published_at > ? OR (published_at = ? AND id > ?)`
unfoldable pub past : Cleaner → Row → Bool
past c r =
    ltb c.cleanup_at (or_zero r.published_at)
    || (or_zero r.published_at == c.cleanup_at && ltb c.cleanup_id r.id)

-- `ORDER BY published_at, id`
unfoldable pub sooner : Row → Row → Bool
sooner r s =
    ltb (or_zero r.published_at) (or_zero s.published_at)
    || (or_zero s.published_at == or_zero r.published_at && ltb r.id s.id)

unfoldable pub by_publication : List Row → List Row
unfolding sort_by
by_publication rows = sort_by sooner rows

-- A candidate is due, and past the cursor.
unfoldable pub due_past : Cleaner → ℕ → Row → Bool
due_past c cutoff r = published_before cutoff r && past c r

unfoldable pub candidates : Cleaner → ℕ → ℕ → List Row → List Row
unfolding by_publication due_past
candidates c cutoff batch rows = take batch (keep (due_past c cutoff) (by_publication rows))

unfoldable pub final_row : Row → List Row → Row
final_row r [] = r
final_row r (s ∷ rows) = final_row s rows

abbrev pub at_start : Cleaner
at_start = record { cleanup_at = 0; cleanup_id = 0; cleanup_more = false }

abbrev pub at_row : Row → Cleaner
at_row r = record { cleanup_at = or_zero r.published_at; cleanup_id = r.id; cleanup_more = true }

-- Where the cursor goes after a batch: on to the last candidate if the batch was full.
unfoldable pub next_cleaner : ℕ → List Row → Cleaner
unfolding final_row
next_cleaner batch [] = at_start
next_cleaner batch (r ∷ rows) =
    if length (r ∷ rows) == batch then at_row (final_row r rows) else at_start

-- What comes with a round: the tables and the clock of its statements, what `CleanupExpired` returns,
-- and whether the wait after it is not interrupted.
pub record CleanupRound : Type 0 where
  pub answers : Bool
  pub now : ℕ
  pub requirements : List Requirement
  pub commands : List Command
  pub expired : Result Error ℕ
  pub waits : Bool

unfoldable pub protected : CleanupRound → Row → Bool
unfolding required commanded
protected e r = required e.now e.requirements r.event_id || commanded e.now e.commands r.event_id

-- The candidates that the second statement locks.
unfoldable pub doomed : CleanupRound → List Row → List Row
unfolding protected
doomed e rows = keep (λ r. not (protected e r)) rows

-- `DELETE … WHERE id IN (…) AND status=? AND published_at < ?`
unfoldable pub delete_rows : List ℕ → ℕ → List Row → List Row
unfolding published_before
delete_rows gone cutoff rows = keep (λ r. not (has gone r.id && published_before cutoff r)) rows

-- `CleanupPublished`, the table being the same for its statements.
unfoldable pub cleanup_published :
    Cleaner → List Row → CleanupRound → ℕ → ℕ → (Cleaner × List Row) × Result Error ℕ
unfolding candidates next_cleaner doomed delete_rows
cleanup_published c rows e cutoff batch =
    if cutoff == 0 || (ltb batch 1 || ltb maximum_cleanup_batch batch)
    then ((c, rows), err invalid_argument)
    else if not e.answers
    then ((c, rows), err storage)
    else (let found = candidates c cutoff batch rows in
        (
          (next_cleaner batch found, delete_rows (ids (doomed e found)) cutoff rows),
          ok (length (doomed e found)),
        ))

-- How `CleanupOnce` ends; `unfinished` if the rounds that are given are used up.
pub data CleanupEnd : Type 0 where
  finished interrupted unfinished : CleanupEnd
  failed : Error → CleanupEnd

-- After `CleanupExpired`.
abbrev pub after_expired :
    ℕ
    → Cleaner
    → List Row
    → Bool
    → Result Error ℕ
    → CleanupEnd × Cleaner × List Row
    → CleanupEnd × Cleaner × List Row
after_expired batch c rows waits (err f) rest = (failed f, c, rows)
after_expired batch c rows waits (ok count) rest =
    if not (c.cleanup_more || leb batch count)
    then (finished, c, rows)
    else if not waits
    then (interrupted, c, rows)
    else rest

abbrev pub after_published :
    ℕ
    → (Cleaner × List Row) × Result Error ℕ
    → CleanupRound
    → CleanupEnd × Cleaner × List Row
    → CleanupEnd × Cleaner × List Row
after_published batch ((c, rows), err f) e rest = (failed f, c, rows)
after_published batch ((c, rows), ok count) e rest =
    after_expired batch c rows e.waits e.expired rest

-- `CleanupOnce` from the cutoff on, with a store that has `CleanupHasMore` and `CleanupExpired`.
unfoldable pub cleanup_once :
    ℕ → ℕ → Cleaner → List Row → List CleanupRound → CleanupEnd × Cleaner × List Row
unfolding cleanup_published
cleanup_once cutoff batch c rows [] = (unfinished, c, rows)
cleanup_once cutoff batch c rows (e ∷ rounds) =
    let one = cleanup_published c rows e cutoff batch in
    after_published batch one e (cleanup_once cutoff batch one.0.0 one.0.1 rounds)
