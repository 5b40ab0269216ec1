-- ===== src/Outbox/Acknowledge.antt =====
-- How a dispatcher ends its lease on a row (outbox/repository.go: MarkPublished, MarkPublishedBatch,
-- ReleaseFailed) and how long a released row waits (ExponentialBackoff).
use native.Mathlib.Nat.{pow-le-pow_right}
use go_pulse.Base.{
  ℕ, min, zero, suc, ◌+◌, ◌-◌, ◌*◌, ◌^◌, ◌%◌, ◌≤◌, ◌<◌, ◌≡◌, refl, sym, ap, ◌∙◌, Bool, true, false,
  ◌&&◌, none, some, List, ◌==◌, ltb, if◌then◌else◌, has, length, arith, inl, inr, Bool-cases,
  Result, ok, err,
}
use go_pulse.Outbox.Row.{pending, published, FailureCode, Row, holds_lease, matches, update_row}
use go_pulse.Outbox.Repository.{
  Error, Repository, lease_lost, mark_published, mark_published_batch, release_failed,
  release_found, find_leased, publish_row, release_row, leased_row, active_ids, valid_owner,
  default_max_claim_batch, maximum_backoff, exponential_backoff, second,
}
use go_pulse.Outbox.Table.{
  find_row, Keyed, find_row_below, find_row-update_rows, find_row-id, matches-leased_row,
  find_leased_lem, some≢none,
}
use go_pulse.Outbox.Trace.{Wf, publish_row-KeepsId, release_row-KeepsId, has-active_ids}

nonzero :
    (i hi : ℕ) (rs : List Row) (r : Row) → Keyed 1 hi rs → find_row i rs ≡ some r → (i == 0) ≡ false
nonzero zero hi rs r k found =
    absurd (some≢none (sym found ∙ find_row_below 0 1 hi rs k (omega arith)))
nonzero (suc i) hi rs r k found = ground arith

-- An acknowledgement's answer: whether the caller held the lease.
abbrev pub Answer : Bool → Result Error Bool
Answer held = if held then ok true else err lease_lost

same_update :
    (i : ℕ) (owner : List ℕ) (now : ℕ) (f : Row → Row) (r : Row)
    → r.id ≡ i
    → update_row (leased_row i owner now) f r ≡ (if holds_lease owner now r then f r else r)
unfolding update_row
same_update i owner now f r same = ground arith

-- Acknowledging a row of a table whose IDs ascend from 1, for a valid owner and a database that answers: if the caller holds
-- an unexpired lease on the row, the row's status becomes published, at this time, with no lease and
-- no error left and its attempts, ID and payload as they were, and the call succeeds; otherwise the
-- row is as it was and the call says that the lease was lost.
pub mark_published_effect :
    (p : Repository) (now i : ℕ) (owner : List ℕ) (r : Row)
    → Wf p
    → find_row i p.rows ≡ some r
    → valid_owner owner ≡ true
    → ((mark_published p true now i owner).1 ≡ Answer (holds_lease owner now r))
      × (find_row i (mark_published p true now i owner).0.rows
          ≡ some (
              if holds_lease owner now r
              then record r {
                status = published;
                lease_owner = none;
                lease_expires_at = none;
                published_at = some now;
                last_error = none;
                updated_at = now;
              }
              else r))
unfolding mark_published publish_row
mark_published_effect p now i owner r wf found valid =
    let count = matches-leased_row i owner now 1 p.next_id p.rows r wf found in
    let id_of = find_row-id i p.rows r found in
    rw (nonzero i p.next_id p.rows r wf found, valid)
      (
        ground (arith, count),
        find_row-update_rows i (leased_row i owner now) (publish_row now) p.rows r
              (publish_row-KeepsId now) found
            ∙ ap some (same_update i owner now (publish_row now) r id_of),
      )

both :
    (q : Row → Bool) (f : Row → Row) (r : Row) (b h : Bool)
    → q r ≡ (b && h)
    → some (update_row q f r) ≡ (if b then some (if h then f r else r) else some r)
unfolding update_row
both q f r true true e = rw e refl
both q f r true false e = rw e refl
both q f r false h e = rw e refl

-- Acknowledging a batch of at most fifty IDs, for a valid owner and a database that answers, is
-- acknowledging its rows: each row whose ID is in the batch ends as `MarkPublished` would leave it,
-- and every other row is as it was.
pub batch_as_each :
    (p : Repository) (now i : ℕ) (batch owner : List ℕ) (r : Row)
    → Wf p
    → find_row i p.rows ≡ some r
    → valid_owner owner ≡ true
    → length batch ≤ default_max_claim_batch
    → find_row i (mark_published_batch p true now batch owner).0.rows
      ≡ (if has batch i then find_row i (mark_published p true now i owner).0.rows else some r)
unfolding mark_published_batch publish_row
batch_as_each p now i batch owner r wf found valid small =
    let short : ltb default_max_claim_batch (length batch) ≡ false = ground arith in
    let one = (mark_published_effect p now i owner r wf found valid).1 in
    let held = has-active_ids owner now i 1 p.next_id p.rows r batch wf found in
    let id_of = find_row-id i p.rows r found in
    rw (valid, short, one)
      (find_row-update_rows i (λ x. has (active_ids owner now p.rows batch) x.id) (publish_row now)
          p.rows r (publish_row-KeepsId now) found
        ∙ both (λ x. has (active_ids owner now p.rows batch) x.id) (publish_row now) r (has batch i)
            (holds_lease owner now r) (ap (has (active_ids owner now p.rows batch)) id_of ∙ held))

-- Giving back a row of a table whose IDs ascend from 1, for a valid owner, a database that answers and a backoff within the maximum: if
-- the caller holds an unexpired lease, the row's status is pending, with no lease, one attempt more (as
-- a `uint32`), the failure noted, and available once the backoff of that attempt has passed from
-- now; otherwise the row is as it was and the call says that the lease was lost.
pub release_failed_effect :
    (p : Repository) (now i : ℕ) (owner : List ℕ) (f : FailureCode) (backoff : ℕ → ℕ) (r : Row)
    → Wf p
    → find_row i p.rows ≡ some r
    → valid_owner owner ≡ true
    → ((n : ℕ) → backoff n ≤ maximum_backoff)
    → ((release_failed p true now i owner f backoff).1 ≡ Answer (holds_lease owner now r))
      × (find_row i (release_failed p true now i owner f backoff).0.rows
          ≡ some (
              if holds_lease owner now r
              then record r {
                status = pending;
                available_at = now + backoff ((r.attempt_count + 1) % 2 ^ 32);
                attempt_count = (r.attempt_count + 1) % 2 ^ 32;
                lease_owner = none;
                lease_expires_at = none;
                last_error = some f;
                updated_at = now;
              }
              else r))
unfolding release_failed release_found release_row
release_failed_effect p now i owner f backoff r wf found valid small =
    let count = matches-leased_row i owner now 1 p.next_id p.rows r wf found in
    let first = find_leased_lem i owner now 1 p.next_id p.rows r wf found in
    let id_of = find_row-id i p.rows r found in
    let within : ltb maximum_backoff (backoff ((r.attempt_count + 1) % 2 ^ 32)) ≡ false =
      let b = small ((r.attempt_count + 1) % 2 ^ 32) in ground arith in
    let row =
      find_row-update_rows i (leased_row i owner now) (release_row now f backoff) p.rows r
        (release_row-KeepsId now f backoff) found
      ∙ ap some (same_update i owner now (release_row now f backoff) r id_of) in
    elim (Bool-cases (holds_lease owner now r)) [
      | inl held ↦
          let one : matches (leased_row i owner now) p.rows ≡ 1 = count ∙ rw held refl in
          let got : find_leased i owner now p.rows ≡ some r = first ∙ rw held refl in
          rw (nonzero i p.next_id p.rows r wf found, valid, got, within, one, held)
            (refl, rw held at row)
      | inr lost ↦
          let got : find_leased i owner now p.rows ≡ none = first ∙ rw lost refl in
          rw (nonzero i p.next_id p.rows r wf found, valid, got, lost) (refl, found)
    ]

exponent : ℕ → ℕ
exponent a = min (a - 1) 8

exponential_backoff_lem : (a : ℕ) → exponential_backoff a ≡ second * 2 ^ exponent a
unfolding exponential_backoff exponent
exponential_backoff_lem a =
    let small = pow-le-pow_right {n = 2} (omega arith) {i = exponent a} {j = 8} (omega arith) in
    let shift : (if ltb 8 ((if a == 0 then 1 else a) - 1) then 8 else (if a == 0 then 1 else a) - 1)
        ≡ exponent a =
      ground arith in
    rw shift (ground (arith, small))

-- The wait of an attempt is at least one second and at most 256, which is below the cap of five minutes
-- that `ReleaseFailed` demands, and it never gets shorter as attempts go on.
pub exponential_backoff_bounds :
    (a b : ℕ)
    → a ≤ b
    → (second ≤ exponential_backoff a)
      × (exponential_backoff a ≤ exponential_backoff b)
      × (exponential_backoff b ≤ 256 * second)
      × (256 * second < maximum_backoff)
unfolding exponent
exponential_backoff_bounds a b h =
    let least = pow-le-pow_right {n = 2} (omega arith) {i = 0} {j = exponent a} (omega arith) in
    let grows =
      pow-le-pow_right {n = 2} (omega arith) {i = exponent a} {j = exponent b} (omega arith) in
    let most = pow-le-pow_right {n = 2} (omega arith) {i = exponent b} {j = 8} (omega arith) in
    rw (exponential_backoff_lem a, exponential_backoff_lem b)
      (omega (arith, least), omega (arith, grows), omega (arith, most), omega arith)
