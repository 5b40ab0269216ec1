-- ===== src/Examples/Alert.antt =====
-- A rule that fires and recovers, at concrete inputs.
use go_pulse.Base.{
  ℕ, ◌*◌, ◌≡◌, refl, true, false, none, some, List, [], ◌∷◌, ltb, leb, ◌==◌, bytes_eq,
}
use go_pulse.Alert.Rule.{Float, gt, metrics, Input, Rule, second, is_firing}
use go_pulse.Alert.Evaluation.{apply, take_lease}
use go_pulse.Alert.Changes.{enable, mutate, create, created}
use go_pulse.Alert.Trace.{Call, leases, applies, mutates, run}
use go_pulse.Alert.Incidents.{Consistent}
use go_pulse.Alert.Consistent.{run-Consistent}
use go_pulse.Alert.History.{held_since, ought_to_fire, history_of}
use go_pulse.Alert.Refinement.{run_refines}

-- The order of the positive floats is that of their bits.
abbrev positive : Float
positive = record { greater = λ a b. ltb b a; at_least = λ a b. leb b a; same = λ a b. a == b }

abbrev busy : Input
busy = record {
  name = 98 ∷ [];
  source = metrics;
  operator = gt;
  threshold = 5;
  for_duration = 60 * second;
}

abbrev owner : List ℕ
owner = 111 ∷ []

-- Three evaluations above the threshold, one without a value, and one change.
abbrev calls : List Call
calls =
    leases 0 owner
    ∷ applies true 1 owner second second (some 9)
    ∷ leases (31 * second) owner
    ∷ applies true 1 owner (32 * second) (31 * second) (some 8)
    ∷ leases (62 * second) owner
    ∷ applies true 1 owner (63 * second) (62 * second) (some 7)
    ∷ leases (93 * second) owner
    ∷ applies true 1 owner (94 * second) (93 * second) none
    ∷ mutates true true true enable 1 busy (95 * second)
    ∷ []

fires : ought_to_fire (60 * second) (history_of positive (created true busy 0) [] calls) ≡ true
unfolding ought_to_fire history_of created apply take_lease bytes_eq mutate
fires = refl

run-Consistent_example :
    (r' : Rule) × (run positive (created true busy 0) calls ≡ some r') × Consistent r'
unfolding create
run-Consistent_example =
    run-Consistent positive true true true true 3 busy 0 (created true busy 0) calls refl

run_refines_example :
    (r' : Rule) × (run positive (created true busy 0) calls ≡ some r')
    × (is_firing r'.evaluation.state
        ≡ ought_to_fire r'.input.for_duration (history_of positive (created true busy 0) [] calls))
    × (ought_to_fire r'.input.for_duration (history_of positive (created true busy 0) [] calls)
          ≡ false
        → r'.evaluation.pending_since
          ≡ held_since (history_of positive (created true busy 0) [] calls))
unfolding create
run_refines_example =
    run_refines positive true true true true 3 busy 0 (created true busy 0) calls refl
