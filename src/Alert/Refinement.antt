-- ===== src/Alert/Refinement.antt =====
-- The scheduler's state refines the history of a rule's evaluations (alert/scheduler.go).
use go_pulse.Base.{
  ℕ, ◌≡◌, refl, subst, Bool, true, false, ◌&&◌, Option, none, some, List, [], ◌∷◌, ok, arith,
  Bool-cases, inl, inr,
}
use go_pulse.Alert.Rule.{Float, Input, Rule, is_firing, condition}
use go_pulse.Alert.Evaluation.{take_lease, due, accepts, on_value, observe, finish, apply}
use go_pulse.Alert.Changes.{create}
use go_pulse.Alert.Trace.{Call, leases, applies, mutates, step, run}
use go_pulse.Alert.Incidents.{Consistent}
use go_pulse.Alert.Changed.{create-created, created-Consistent}
use go_pulse.Alert.Consistent.{step-Consistent, observe-Consistent, accepted-enabled}
use go_pulse.Alert.History.{
  Observation, held_since, ought_to_fire, verdict_of, history_after, history_of,
}
use go_pulse.Alert.Follows.{
  Follows, moved, on_unknown-Follows, on_false-Follows, on_true-Follows, on_firing-Follows,
  mutate-Follows, created-Follows,
}

module _ (float : Float) where
  observe-Follows :
      (r r' : Rule) (cutoff : ℕ) (reading : Option ℕ) (history : List Observation)
      → observe float r cutoff reading ≡ some r'
      → Follows r history
      → Follows r' ((record { at = cutoff; verdict = verdict_of float r.input reading }) ∷ history)
  unfolding observe on_value verdict_of
  observe-Follows r r' cutoff none history made f =
      moved made (on_unknown-Follows r cutoff history f)
  observe-Follows r r' cutoff (some value) history made f =
      elim (Bool-cases (condition float r.input value)) [
        | inr not_held ↦
            rw not_held (moved (rw not_held at made) (on_false-Follows r cutoff value history))
        | inl held ↦ elim (Bool-cases (is_firing r.evaluation.state)) [
          | inl fires ↦
              rw held
                (on_firing-Follows r r' cutoff value history fires (rw (held, fires) at made) f)
          | inr calm ↦
              rw held
                (moved (rw (held, calm) at made) (on_true-Follows r cutoff value history calm f))
        ]
      ]

  finish-Follows :
      (now : ℕ) (r : Rule) (history : List Observation)
      → Follows r history
      → Follows (finish float now r) history
  finish-Follows now r history f = record { fires = f.fires; since = f.since; last = f.last }

  take_lease-Follows :
      (r : Rule) (now : ℕ) (owner : List ℕ) (history : List Observation)
      → Follows r history
      → Follows (take_lease r now owner) history
  unfolding take_lease
  take_lease-Follows r now owner history f = elim (Bool-cases (due r now)) [
    | inl free ↦ rw free (record { fires = f.fires; since = f.since; last = f.last })
    | inr taken ↦ rw taken f
  ]

  step-Follows :
      (r : Rule) (call : Call) (history : List Observation)
      → Consistent r
      → Follows r history
      → (r' : Rule) × (step float r call ≡ some r')
        × Consistent r'
        × Follows r' (history_after float r history call)
  unfolding step history_after apply
  step-Follows r (leases now owner) history c f =
      let (r', made, kept) = step-Consistent float r (leases now owner) c in
      (r', made, kept, moved made (take_lease-Follows r now owner history f))
  step-Follows r (mutates valid authorized answers action revision input now) history c f =
      let (r', made, kept) =
        step-Consistent float r (mutates valid authorized answers action revision input now) c in
      (
        r',
        made,
        kept,
        moved made (mutate-Follows r valid authorized answers action revision input now history f),
      )
  step-Follows r (applies answers revision owner now cutoff reading) history c f =
      let (r', made, kept) =
        step-Consistent float r (applies answers revision owner now cutoff reading) c in
      (
        r',
        made,
        kept,
        elim (Bool-cases (answers && accepts r revision now owner)) [
          | inr refused ↦ rw refused (moved (rw refused at made) f)
          | inl taken ↦
              let on =
                accepted-enabled r revision now owner
                  (second_of answers (accepts r revision now owner) taken) in
              let (seen, observed, _) = observe-Consistent float r cutoff reading on c in
              rw taken (
                moved (rw (taken, observed) at made) (
                  finish-Follows now seen _
                    (observe-Follows r seen cutoff reading history observed f)))
        ],
      )
    where
      second_of : (a b : Bool) → (a && b) ≡ true → b ≡ true
      second_of a b h = ground (arith, h)

  run_from :
      (r : Rule) (calls : List Call) (history : List Observation)
      → Consistent r
      → Follows r history
      → (r' : Rule) × (run float r calls ≡ some r') × Follows r' (history_of float r history calls)
  unfolding run history_of
  run_from r [] history c f = (r, refl, f)
  run_from r (call ∷ calls) history c f =
      let (next, made, kept, follows) = step-Follows r call history c f in
      let (r', rest, done) =
        run_from next calls (history_after float r history call) kept follows in
      (r', rw (run, made) rest, rw (history_of, made) done)

  -- Whatever calls follow the creation of a rule: the rule fires exactly when the history of its accepted
  -- evaluations since it was last changed says that it ought to, that is when its condition has held at
  -- successive evaluations at most 65 seconds apart for the rule's duration and has not failed at an
  -- evaluation since, an evaluation without a value changing nothing for a rule that fires; while it does not
  -- fire, the state has the time at which the present run of such evaluations began.
  pub run_refines :
      (valid authorized answers enabled : Bool) (count : ℕ) (input : Input) (now : ℕ) (r : Rule)
      (calls : List Call)
      → create valid authorized answers count enabled input now ≡ ok r
      → (r' : Rule) × (run float r calls ≡ some r')
        × (is_firing r'.evaluation.state
            ≡ ought_to_fire r'.input.for_duration (history_of float r [] calls))
        × (ought_to_fire r'.input.for_duration (history_of float r [] calls) ≡ false
            → r'.evaluation.pending_since ≡ held_since (history_of float r [] calls))
  run_refines valid authorized answers enabled count input now r calls h =
      let same = create-created valid authorized answers enabled count input now r h in
      let (r', ran, f) =
        run_from r calls [] (subst Consistent same (created-Consistent enabled input now))
          (subst (λ x. Follows x []) same (created-Follows enabled input now)) in
      (r', ran, f.fires, f.since)
