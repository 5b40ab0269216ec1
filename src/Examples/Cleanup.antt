-- ===== src/Examples/Cleanup.antt =====
-- A cycle of the clean-up of the outbox at concrete inputs.
use go_pulse.Base.{
  ℕ, ◌≡◌, refl, Bool, true, not, ◌&&◌, none, some, List, [], ◌∷◌, ok, keep, arith, bytes_eq,
}
use go_pulse.Outbox.Row.{published, Row}
use go_pulse.Outbox.Cleanup.{
  Requirement, at_start, CleanupRound, protected, finished, published_before, cleanup_once,
}
use go_pulse.Outbox.Table.{Keyed}
use go_pulse.Outbox.Cleaned.{Quiet, cleanup_once_finishes}

abbrev row : ℕ → List ℕ → ℕ → Row
row i event at = record {
  id = i;
  event_id = event;
  payload = [];
  status = published;
  available_at = 0;
  attempt_count = 0;
  lease_owner = none;
  lease_expires_at = none;
  published_at = some at;
  last_error = none;
  updated_at = at;
}

-- The second row is still required, the fourth was published after the cutoff.
abbrev rows : List Row
rows = row 1 (65 ∷ []) 3 ∷ row 2 (66 ∷ []) 2 ∷ row 3 (67 ∷ []) 2 ∷ row 4 (68 ∷ []) 12 ∷ []

abbrev requirement : Requirement
requirement = record { event_id = 66 ∷ []; closed_at = none; retain_until = none }

abbrev round : CleanupRound
round = record {
  answers = true;
  now = 20;
  requirements = requirement ∷ [];
  commands = [];
  expired = ok 0;
  waits = true;
}

abbrev rounds : List CleanupRound
rounds = round ∷ round ∷ round ∷ round ∷ round ∷ []

abbrev required_row : Row → Bool
required_row r = bytes_eq (66 ∷ []) r.event_id

keeps_required : (r : Row) → protected round r ≡ required_row r
unfolding protected
keeps_required r = ground arith

quiet : Quiet 10 required_row 1 round
quiet = record {
  answers = refl;
  same = keeps_required;
  count = 0;
  expired = refl;
  few = omega arith;
  waits = refl;
}

rows-Keyed : Keyed 1 5 rows
rows-Keyed = (
  omega arith,
  omega arith,
  (omega arith, omega arith, (omega arith, omega arith, (omega arith, omega arith, omega arith))),
)

cleanup_once_finishes_example :
    cleanup_once 10 1 at_start rows rounds
    ≡ (finished, at_start, keep (λ r. not (published_before 10 r && not (required_row r))) rows)
cleanup_once_finishes_example =
    cleanup_once_finishes 10 required_row 1 5 rows rounds (omega arith) (omega arith) (omega arith)
      rows-Keyed (quiet, (quiet, (quiet, (quiet, (quiet, tt))))) (omega arith)

two_left :
    keep (λ r. not (published_before 10 r && not (required_row r))) rows
    ≡ row 2 (66 ∷ []) 2 ∷ row 4 (68 ∷ []) 12 ∷ []
unfolding published_before bytes_eq
two_left = refl
