-- ===== src/Alert/Trace.antt =====
-- A rule under any sequence of the scheduler's and the administrators' calls (alert/scheduler.go,
-- alert/repository.go): schedulers lease and apply while administrators change the rule.
use go_pulse.Base.{ℕ, Bool, Option, none, some, List, [], ◌∷◌}
use go_pulse.Alert.Rule.{Float, Input, Rule}
use go_pulse.Alert.Evaluation.{take_lease, apply}
use go_pulse.Alert.Changes.{Action, mutate}

pub data Call : Type 0 where
  leases : ℕ → List ℕ → Call
  applies : Bool → ℕ → List ℕ → ℕ → ℕ → Option ℕ → Call
  mutates : Bool → Bool → Bool → Action → ℕ → Input → ℕ → Call

module _ (float : Float) where
  unfoldable pub step : Rule → Call → Option Rule
  step r (leases now owner) = some (take_lease r now owner)
  step r (applies answers revision owner now cutoff reading) =
      apply float r answers revision owner now cutoff reading
  step r (mutates valid authorized answers action revision input now) =
      some (mutate r valid authorized answers action revision input now).0

  unfoldable pub run : Rule → List Call → Option Rule
  unfolding step
  run r [] = some r
  run r (c ∷ cs) = elim (step r c) [ none ↦ none | some r' ↦ run r' cs ]
