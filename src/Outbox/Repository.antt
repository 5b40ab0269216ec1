-- ===== src/Outbox/Repository.antt =====
-- `Repository` of outbox/repository.go: the operations that move a row between its states. Each takes
-- the clock's reading and whether the database answers; a transaction that fails changes nothing.
use go_pulse.Base.{
  ℕ, ◌+◌, ◌-◌, ◌*◌, ◌%◌, ◌^◌, Bool, true, not, ◌&&◌, ◌||◌, Option, none, some, List, [], ◌∷◌, ◌++◌,
  map, length, Result, ok, err, ◌==◌, ltb, leb, if◌then◌else◌, has,
}
use go_pulse.Outbox.Row.{
  pending, leased, published, FailureCode, Row, Branch, available, expired, holds_lease,
  update_rows, matches, select,
}

pub data Error : Type 0 where
  invalid_argument lease_lost storage : Error

abbrev pub second : ℕ
second = 1000000

abbrev pub default_max_claim_batch : ℕ
default_max_claim_batch = 50

abbrev pub maximum_owner_bytes : ℕ
maximum_owner_bytes = 128

abbrev pub minimum_lease_duration : ℕ
minimum_lease_duration = second

abbrev pub maximum_lease_duration : ℕ
maximum_lease_duration = 600 * second

abbrev pub maximum_backoff : ℕ
maximum_backoff = 300 * second

-- Printable ASCII only, which also rules out what `strings.TrimSpace` would take off.
abbrev pub all_printable : List ℕ → Bool
all_printable [] = true
all_printable (c ∷ cs) = (leb 0x21 c && leb c 0x7e) && all_printable cs

unfoldable pub valid_owner : List ℕ → Bool
valid_owner owner =
    ltb 0 (length owner) && (leb (length owner) maximum_owner_bytes && all_printable owner)

-- `ExponentialBackoff`; the attempt is a `uint32`.
unfoldable pub exponential_backoff : ℕ → ℕ
exponential_backoff attempt =
    let from_one = if attempt == 0 then 1 else attempt in
    let shift = if ltb 8 (from_one - 1) then 8 else from_one - 1 in
    let delay = second * 2 ^ shift in if ltb maximum_backoff delay then maximum_backoff else delay

pub record Repository : Type 0 where
  pub rows : List Row
  pub next_id : ℕ
  pub claim_turn : ℕ
  pub max_claim_batch : ℕ

abbrev pub ids : List Row → List ℕ
ids [] = []
ids (r ∷ rs) = r.id ∷ ids rs

-- The `INSERT` of `InsertWithMetadata`, with the ID that the table's counter assigns.
unfoldable pub insert : Repository → Bool → ℕ → List ℕ → List ℕ → Repository × Result Error ℕ
insert p answers now event_id payload = if not answers then (p, err storage) else (
  record p {
    rows =
        p.rows
        ++ (record {
          id = p.next_id;
          event_id = event_id;
          payload = payload;
          status = pending;
          available_at = now;
          attempt_count = 0;
          lease_owner = none;
          lease_expires_at = none;
          published_at = none;
          last_error = none;
          updated_at = now;
        })
          ∷ [];
    next_id = p.next_id + 1;
  },
  ok p.next_id,
)

-- `SET status='leased', lease_owner=?, lease_expires_at=?, updated_at=?`
unfoldable pub lease_row : List ℕ → ℕ → ℕ → Row → Row
lease_row owner expires now r = record r {
  status = leased;
  lease_owner = some owner;
  lease_expires_at = some expires;
  updated_at = now;
}

-- The records of the two scans; the second is not made if the first filled the batch.
unfoldable pub scan_two : Branch → Branch → ℕ → List ℕ → ℕ → List Row → List Row
unfolding select
scan_two first then_ now locked batch rows =
    let one = select first now locked batch rows in
    if length one == batch then one else one ++ select then_ now locked (batch - length one) rows

-- The turn, counted on from `claim_turn`, says which scan goes first.
unfoldable pub scan : ℕ → ℕ → List ℕ → ℕ → List Row → List Row
unfolding scan_two
scan turn now locked batch rows =
    if turn % 2 == 0
    then scan_two expired available now locked batch rows
    else scan_two available expired now locked batch rows

unfoldable pub claim_valid : Repository → List ℕ → ℕ → ℕ → Bool
unfolding valid_owner
claim_valid p owner batch lease =
    valid_owner owner
    && ((leb 1 batch && leb batch p.max_claim_batch)
        && (leb minimum_lease_duration lease && leb lease maximum_lease_duration))

-- `Claim`: the turn moves even if the database then fails. A failure before its transaction begins, which
-- leaves the turn, is not told apart.
unfoldable pub claim :
    Repository → Bool → List ℕ → ℕ → List ℕ → ℕ → ℕ → Repository × Result Error (List Row)
unfolding claim_valid scan lease_row
claim p answers locked now owner batch lease =
    if not (claim_valid p owner batch lease)
    then (p, err invalid_argument)
    else (let turn = (p.claim_turn + 1) % 2 ^ 64 in
        let records = scan turn now locked batch p.rows in
        if answers
        then (
          record p {
            claim_turn = turn;
            rows =
                update_rows (λ r. has (ids records) r.id) (lease_row owner (now + lease) now)
                  p.rows;
          },
          ok (map (lease_row owner (now + lease) now) records),
        )
        else (record p { claim_turn = turn }, err storage))

-- `SET status = 'published', lease_owner = NULL, …, published_at = ?, last_error = NULL`
unfoldable pub publish_row : ℕ → Row → Row
publish_row now r = record r {
  status = published;
  lease_owner = none;
  lease_expires_at = none;
  published_at = some now;
  last_error = none;
  updated_at = now;
}

abbrev pub leased_row : ℕ → List ℕ → ℕ → Row → Bool
leased_row id owner now r = r.id == id && holds_lease owner now r

-- `MarkPublished`: one statement, then `requireChangedLease`.
unfoldable pub mark_published : Repository → Bool → ℕ → ℕ → List ℕ → Repository × Result Error Bool
unfolding publish_row valid_owner
mark_published p answers now id owner =
    if id == 0 || not (valid_owner owner)
    then (p, err invalid_argument)
    else if not answers
    then (p, err storage)
    else (
      record p { rows = update_rows (leased_row id owner now) (publish_row now) p.rows },
      if matches (leased_row id owner now) p.rows == 1 then ok true else err lease_lost,
    )

-- One answer for each ID: whether its row was leased.
unfoldable pub batch_results : List ℕ → ℕ → List Row → List ℕ → List (Option Error)
batch_results owner now rows [] = []
batch_results owner now rows (id ∷ rest) =
    (if matches (leased_row id owner now) rows == 0 then some lease_lost else none)
    ∷ batch_results owner now rows rest

-- The IDs whose rows the transaction found leased.
unfoldable pub active_ids : List ℕ → ℕ → List Row → List ℕ → List ℕ
active_ids owner now rows [] = []
active_ids owner now rows (id ∷ rest) =
    let others = active_ids owner now rows rest in
    if matches (leased_row id owner now) rows == 0 then others else id ∷ others

-- `MarkPublishedBatch`
unfoldable pub mark_published_batch :
    Repository → Bool → ℕ → List ℕ → List ℕ → Repository × Result Error (List (Option Error))
unfolding publish_row valid_owner batch_results active_ids
mark_published_batch p answers now batch owner =
    if not (valid_owner owner) || ltb default_max_claim_batch (length batch)
    then (p, err invalid_argument)
    else if not answers && not (length batch == 0)
    then (p, err storage)
    else (
      record p {
        rows =
            update_rows (λ r. has (active_ids owner now p.rows batch) r.id) (publish_row now)
              p.rows;
      },
      ok (batch_results owner now p.rows batch),
    )

-- `SET status = 'pending', available_at = ?, attempt_count = ?, lease_owner = NULL, …`
unfoldable pub release_row : ℕ → FailureCode → (ℕ → ℕ) → Row → Row
release_row now failure backoff r =
    let attempt = (r.attempt_count + 1) % 2 ^ 32 in
    record r {
      status = pending;
      available_at = now + backoff attempt;
      attempt_count = attempt;
      lease_owner = none;
      lease_expires_at = none;
      last_error = some failure;
      updated_at = now;
    }

-- The `SELECT attempt_count … FOR UPDATE` of `ReleaseFailed`.
unfoldable pub find_leased : ℕ → List ℕ → ℕ → List Row → Option Row
find_leased id owner now [] = none
find_leased id owner now (r ∷ rs) =
    if leased_row id owner now r then some r else find_leased id owner now rs

unfoldable pub release_found :
    Repository
    → ℕ
    → ℕ
    → List ℕ
    → FailureCode
    → (ℕ → ℕ)
    → Option Row
    → Repository × Result Error Bool
unfolding release_row
release_found p now id owner failure backoff none = (p, err lease_lost)
release_found p now id owner failure backoff (some r) =
    if ltb maximum_backoff (backoff ((r.attempt_count + 1) % 2 ^ 32))
    then (p, err invalid_argument)
    else if matches (leased_row id owner now) p.rows == 1
    then (
      record p {
        rows = update_rows (leased_row id owner now) (release_row now failure backoff) p.rows;
      },
      ok true,
    )
    else (p, err lease_lost)

-- `ReleaseFailed`; the backoff is the repository's option, `ExponentialBackoff` by default.
unfoldable pub release_failed :
    Repository → Bool → ℕ → ℕ → List ℕ → FailureCode → (ℕ → ℕ) → Repository × Result Error Bool
unfolding release_found find_leased valid_owner
release_failed p answers now id owner failure backoff =
    if id == 0 || not (valid_owner owner)
    then (p, err invalid_argument)
    else if not answers
    then (p, err storage)
    else release_found p now id owner failure backoff (find_leased id owner now p.rows)
