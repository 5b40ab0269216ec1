-- ===== src/Alert/Consistent.antt =====
-- The state of a rule, its incidents and its audit entries agree after any calls (alert/scheduler.go,
-- alert/repository.go), and no evaluation dereferences an incident that is not there.
use go_pulse.Base.{
  ℕ, ◌≡◌, refl, subst, Bool, true, ◌&&◌, Option, none, some, List, [], ◌∷◌, ok, arith, Bool-cases,
  inl, inr,
}
use go_pulse.Alert.Rule.{Float, Input, Rule, is_firing, condition}
use go_pulse.Alert.Evaluation.{
  take_lease, due, accepts, on_unknown, on_false, on_true, on_value, observe, finish, apply,
}
use go_pulse.Alert.Changes.{create}
use go_pulse.Alert.Trace.{Call, leases, applies, mutates, step, run}
use go_pulse.Alert.Incidents.{Consistent}
use go_pulse.Alert.Evaluated.{
  on_false-Consistent, on_firing-Consistent, on_true-Consistent, on_unknown-Consistent,
}
use go_pulse.Alert.Changed.{create-created, created-Consistent, mutate-Consistent}

pub accepted-enabled :
    (r : Rule) (revision now : ℕ) (owner : List ℕ)
    → accepts r revision now owner ≡ true
    → r.enabled ≡ true
unfolding accepts
accepted-enabled r revision now owner h = ground (arith, h)

finish-Consistent :
    (float : Float) (now : ℕ) (r : Rule) → Consistent r → Consistent (finish float now r)
finish-Consistent float now r c = record {
  active = c.active;
  fires = c.fires;
  waits = c.waits;
  runs = c.runs;
  lives = c.lives;
  distinct = c.distinct;
  triggered = c.triggered;
  ended = c.ended;
}

take_lease-Consistent :
    (r : Rule) (now : ℕ) (owner : List ℕ) → Consistent r → Consistent (take_lease r now owner)
unfolding take_lease
take_lease-Consistent r now owner c = elim (Bool-cases (due r now)) [
  | inl free ↦ rw free (record {
    active = c.active;
    fires = c.fires;
    waits = c.waits;
    runs = c.runs;
    lives = c.lives;
    distinct = c.distinct;
    triggered = c.triggered;
    ended = c.ended;
  })
  | inr taken ↦ rw taken c
]

module _ (float : Float) where
  pub observe-Consistent :
      (r : Rule) (cutoff : ℕ) (reading : Option ℕ)
      → r.enabled ≡ true
      → Consistent r
      → (r' : Rule) × (observe float r cutoff reading ≡ some r') × Consistent r'
  unfolding observe on_value
  observe-Consistent r cutoff none on c =
      (on_unknown r cutoff, refl, on_unknown-Consistent r cutoff on c)
  observe-Consistent r cutoff (some value) on c =
      elim (Bool-cases (condition float r.input value)) [
        | inr fails ↦
            (on_false r cutoff value, rw fails refl, on_false-Consistent r cutoff value on c)
        | inl holds ↦ elim (Bool-cases (is_firing r.evaluation.state)) [
          | inl fires ↦
              let (r', made, kept) = on_firing-Consistent r cutoff value fires c in
              (r', rw (holds, fires) made, kept)
          | inr calm ↦ (
            on_true r cutoff value,
            rw (holds, calm) refl,
            on_true-Consistent r cutoff value on calm c,
          )
        ]
      ]

  pub step-Consistent :
      (r : Rule) (call : Call)
      → Consistent r
      → (r' : Rule) × (step float r call ≡ some r') × Consistent r'
  unfolding step apply
  step-Consistent r (leases now owner) c =
      (take_lease r now owner, refl, take_lease-Consistent r now owner c)
  step-Consistent r (mutates valid authorized answers action revision input now) c =
      (_, refl, mutate-Consistent r valid authorized answers action revision input now c)
  step-Consistent r (applies answers revision owner now cutoff reading) c =
      elim (Bool-cases (answers && accepts r revision now owner)) [
        | inr refused ↦ (r, rw refused refl, c)
        | inl taken ↦
            let on =
              accepted-enabled r revision now owner
                (second_of answers (accepts r revision now owner) taken) in
            let (r', made, kept) = observe-Consistent r cutoff reading on c in
            (finish float now r', rw (taken, made) refl, finish-Consistent float now r' kept)
      ]
    where
      second_of : (a b : Bool) → (a && b) ≡ true → b ≡ true
      second_of a b h = ground (arith, h)

  run_from :
      (r : Rule) (calls : List Call)
      → Consistent r
      → (r' : Rule) × (run float r calls ≡ some r') × Consistent r'
  unfolding run
  run_from r [] c = (r, refl, c)
  run_from r (call ∷ calls) c =
      let (next, made, kept) = step-Consistent r call c in
      let (r', rest, done) = run_from next calls kept in (r', rw (run, made) rest, done)

  -- Whatever calls follow the creation of a rule, with any values, leases, clocks and failures of the
  -- database: no evaluation panics, and the rule's open incidents are exactly the one that its state
  -- names, which names one exactly while it fires. A pending state says since when, the state is disabled
  -- exactly if the rule is, and a deleted rule is. The IDs of the incidents are distinct, each has
  -- exactly one audit entry of its trigger, and each is open or has exactly one audit entry, with its ID,
  -- of its recovery or closing, and not both.
  pub run-Consistent :
      (valid authorized answers enabled : Bool) (count : ℕ) (input : Input) (now : ℕ) (r : Rule)
      (calls : List Call)
      → create valid authorized answers count enabled input now ≡ ok r
      → (r' : Rule) × (run float r calls ≡ some r') × Consistent r'
  run-Consistent valid authorized answers enabled count input now r calls h = run_from r calls (
      subst Consistent (create-created valid authorized answers enabled count input now r h)
        (created-Consistent enabled input now))
