-- ===== src/Alert/History.antt =====
-- The scheduler's incremental state (alert/scheduler.go) against the whole history of a rule's evaluations:
-- when a rule ought to fire, said of what was observed since the rule was last changed.
use go_pulse.Base.{
  ℕ, ◌+◌, ◌*◌, Bool, true, false, ◌&&◌, ◌||◌, Option, none, some, List, [], ◌∷◌, Result, ok, err,
  leb, if◌then◌else◌,
}
use go_pulse.Alert.Rule.{Float, Input, Rule, is_firing, condition, second}
use go_pulse.Alert.Evaluation.{accepts}
use go_pulse.Alert.Changes.{Error, is_enable, mutate}
use go_pulse.Alert.Trace.{Call, leases, applies, mutates, step}

pub data Verdict : Type 0 where
  no_value holds fails : Verdict

-- What an evaluation saw, and at which cutoff.
pub record Observation : Type 0 where
  pub at : ℕ
  pub verdict : Verdict

-- The gap between the newest observation of a history and a cutoff is at most 65 seconds.
abbrev pub joined : ℕ → List Observation → Bool
joined cutoff [] = false
joined cutoff (o ∷ older) = leb cutoff (o.at + 65 * second)

-- The cutoff at which the unbroken run of observations that hold began, if the newest is one.
abbrev pub run_began : ℕ → List Observation → Option ℕ → Option ℕ
run_began cutoff older none = some cutoff
run_began cutoff older (some since) = if joined cutoff older then some since else some cutoff

unfoldable pub held_since : List Observation → Option ℕ
held_since [] = none
held_since (o ∷ older) = extend o.verdict (held_since older)
  where
    extend : Verdict → Option ℕ → Option ℕ
    extend holds before = run_began o.at older before
    extend _ before = none

-- The condition has held without a break for the duration.
abbrev pub held_for : ℕ → ℕ → Option ℕ → Bool
held_for duration cutoff none = false
held_for duration cutoff (some since) = leb (since + duration) cutoff

-- A rule ought to fire when its condition has held for the duration, and from then until it fails.
unfoldable pub ought_to_fire : ℕ → List Observation → Bool
unfolding held_since
ought_to_fire duration [] = false
ought_to_fire duration (o ∷ older) = given o.verdict (ought_to_fire duration older)
  where
    given : Verdict → Bool → Bool
    given fails before = false
    given no_value before = before
    given holds before = before || held_for duration o.at (held_since (o ∷ older))

abbrev pub newest : List Observation → Option ℕ
newest [] = none
newest (o ∷ older) = some o.at

-- The history after a change: it starts anew, unless the change was refused or leaves the rule firing.
abbrev pub after_change : Result Error ℕ → Bool → List Observation → List Observation
after_change (err e) goes_on history = history
after_change (ok revision) true history = history
after_change (ok revision) false history = []

module _ (float : Float) where
  unfoldable pub verdict_of : Input → Option ℕ → Verdict
  verdict_of input none = no_value
  verdict_of input (some value) = if condition float input value then holds else fails

  -- The history that a call leaves: `apply` adds an observation if it is accepted, and a change that is made
  -- starts a new history, except for enabling a rule that fires.
  unfoldable pub history_after : Rule → List Observation → Call → List Observation
  unfolding verdict_of
  history_after r history (leases now owner) = history
  history_after r history (applies answers revision owner now cutoff reading) =
      if answers && accepts r revision now owner
      then (record { at = cutoff; verdict = verdict_of r.input reading }) ∷ history
      else history
  history_after r history (mutates valid authorized answers action revision input now) =
      after_change (mutate r valid authorized answers action revision input now).1
        (is_enable action && is_firing r.evaluation.state) history

  unfoldable pub history_of : Rule → List Observation → List Call → List Observation
  unfolding step history_after
  history_of r history [] = history
  history_of r history (c ∷ cs) = elim (step float r c) [
    | none ↦ history
    | some r' ↦ history_of r' (history_after r history c) cs
  ]
