-- ===== src/Examples/Outbox.antt =====
-- The outbox at concrete inputs: a table with a pending row, a leased row and a published one.
use go_pulse.Base.{
  ℕ, ◌+◌, ◌*◌, ◌≤◌, ◌≡◌, refl, true, false, none, some, List, [], ◌∷◌, ok, has, bytes_eq, length,
  min, arith, All, ◌⊎◌,
}
use go_pulse.Outbox.Row.{
  Row, pending, leased, published, publish_timeout, available, expired, holds_lease, update_rows,
}
use go_pulse.Outbox.Repository.{
  Repository, claim, valid_owner, lease_row, mark_published, mark_published_batch, release_failed,
  publish_row, release_row, exponential_backoff, maximum_backoff, second,
}
use go_pulse.Outbox.Table.{find_row}
use go_pulse.Outbox.Repository.{default_max_claim_batch}
use go_pulse.Outbox.Opened.{RepositoryOptions, new_repository, claim_bounded}
use go_pulse.Outbox.Claims.{Eligible, eligible, claim_effect, claim_fills}
use go_pulse.Outbox.Trace.{Call, claims, marks, marks_batch, releases, run, Wf}
use go_pulse.Outbox.Exclusive.{run_final, run_exclusive, Foreign}
use go_pulse.Outbox.Acknowledge.{
  Answer, mark_published_effect, batch_as_each, release_failed_effect, exponential_backoff_bounds,
}

abbrev alice : List ℕ
alice = 97 ∷ []

abbrev bob : List ℕ
bob = 98 ∷ []

abbrev row_pending : Row
row_pending = record {
  id = 1;
  event_id = 7 ∷ [];
  payload = 1 ∷ [];
  status = pending;
  available_at = 5;
  attempt_count = 0;
  lease_owner = none;
  lease_expires_at = none;
  published_at = none;
  last_error = none;
  updated_at = 5;
}

abbrev row_leased : Row
row_leased = record row_pending {
  id = 2;
  status = leased;
  lease_owner = some alice;
  lease_expires_at = some (20 * second);
}

abbrev row_published : Row
row_published = record row_pending { id = 3; status = published; published_at = some 6 }

abbrev table : Repository
table = record {
  rows = row_pending ∷ row_leased ∷ row_published ∷ [];
  next_id = 4;
  claim_turn = 0;
  max_claim_batch = 50;
}

table-Wf : Wf table
table-Wf =
    (omega arith, omega arith, (omega arith, omega arith, (omega arith, omega arith, omega arith)))

-- Bob claims, acknowledges both rows and gives the leased one back; the rest is Alice's.
abbrev calls : List Call
calls =
    claims true [] (10 * second) bob 2 second
    ∷ marks true (11 * second) 2 bob
    ∷ marks_batch true (11 * second) (1 ∷ 2 ∷ 3 ∷ []) bob
    ∷ releases true (11 * second) 2 bob publish_timeout exponential_backoff
    ∷ []

run_final_example : find_row 3 (run table calls).rows ≡ some row_published
unfolding find_row
run_final_example = run_final table calls 3 row_published table-Wf refl refl

calls-Foreign : All (Foreign alice (20 * second)) calls
unfolding bytes_eq
calls-Foreign = (omega arith, (refl, (refl, (refl, tt))))

run_exclusive_example : find_row 2 (run table calls).rows ≡ some row_leased
unfolding find_row
run_exclusive_example =
    run_exclusive table calls 2 row_leased alice (20 * second) table-Wf refl (refl, refl, refl)
      calls-Foreign

abbrev claimed : Repository
claimed = record table {
  rows = lease_row bob (11 * second) (10 * second) row_pending ∷ row_leased ∷ row_published ∷ [];
  claim_turn = 1;
}

claim_run :
    claim table true [] (10 * second) bob 2 second
    ≡ (claimed, ok (lease_row bob (11 * second) (10 * second) row_pending ∷ []))
unfolding claim update_rows has
claim_run = refl

claim_effect_example :
    ((has (1 ∷ []) 1 ≡ false) × (find_row 1 claimed.rows ≡ some row_pending))
    ⊎ ((has (1 ∷ []) 1 ≡ true)
        × Eligible (10 * second) [] row_pending
        × (find_row 1 claimed.rows ≡ some (lease_row bob (11 * second) (10 * second) row_pending)))
unfolding find_row lease_row
claim_effect_example =
    claim_effect table claimed true [] (10 * second) bob 2 second
      (lease_row bob (11 * second) (10 * second) row_pending ∷ []) 1 1 4 row_pending table-Wf refl
      claim_run

claim_fills_example :
    length (lease_row bob (11 * second) (10 * second) row_pending ∷ [])
    ≡ min 2 (
        eligible available (10 * second) [] table.rows
        + eligible expired (10 * second) [] table.rows)
claim_fills_example =
    claim_fills table claimed true [] (10 * second) bob 2 second
      (lease_row bob (11 * second) (10 * second) row_pending ∷ []) claim_run

mark_published_effect_example :
    ((mark_published table true (10 * second) 2 alice).1 ≡ Answer true)
    × (find_row 2 (mark_published table true (10 * second) 2 alice).0.rows
        ≡ some (publish_row (10 * second) row_leased))
unfolding find_row valid_owner holds_lease bytes_eq publish_row
mark_published_effect_example =
    mark_published_effect table (10 * second) 2 alice row_leased table-Wf refl refl

batch_as_each_example :
    find_row 2 (mark_published_batch table true (10 * second) (1 ∷ 2 ∷ []) alice).0.rows
    ≡ find_row 2 (mark_published table true (10 * second) 2 alice).0.rows
unfolding find_row valid_owner has
batch_as_each_example =
    batch_as_each table (10 * second) 2 (1 ∷ 2 ∷ []) alice row_leased table-Wf refl refl
      (omega arith)

backoff_small : (n : ℕ) → exponential_backoff n ≤ maximum_backoff
backoff_small n =
    let (_, _, most, _) = exponential_backoff_bounds n n (omega arith) in omega (arith, most)

release_failed_effect_example :
    ((release_failed table true (10 * second) 2 alice publish_timeout exponential_backoff).1
      ≡ Answer true)
    × (find_row 2
          (release_failed table true
            (10 * second)
            2
            alice
            publish_timeout
            exponential_backoff).0.rows
        ≡ some (release_row (10 * second) publish_timeout exponential_backoff row_leased))
unfolding find_row valid_owner holds_lease bytes_eq release_row
release_failed_effect_example =
    release_failed_effect table (10 * second) 2 alice publish_timeout exponential_backoff row_leased
      table-Wf refl refl backoff_small

abbrev options : RepositoryOptions
options = record { has_database = true; database_timeout = 0; max_claim_batch = 0 }

new_repository_run : new_repository options table.rows 4 ≡ ok table
unfolding new_repository
new_repository_run = refl

claim_bounded_example : (1 ≤ 2) × (2 ≤ default_max_claim_batch)
claim_bounded_example =
    claim_bounded options table.rows 4 table claimed true [] (10 * second) bob 2 second
      (lease_row bob (11 * second) (10 * second) row_pending ∷ []) new_repository_run claim_run
