-- ===== src/Alert/Follows.antt =====
-- An evaluation or a change leaves the state that the longer history calls for (alert/scheduler.go,
-- alert/repository.go).
use go_pulse.Base.{
  ℕ, ◌+◌, ◌≡◌, refl, sym, ap, subst, ◌∙◌, Bool, true, false, ◌&&◌, Option, none, some, List, [],
  ◌∷◌, ok, leb, arith, some-injective, Bool-cases, inl, inr,
}
use go_pulse.Alert.Rule.{Input, Rule, is_firing}
use go_pulse.Alert.Evaluation.{
  on_unknown, recover, on_false, on_firing, retrigger, on_true, pending_from, with_value,
}
use go_pulse.Alert.Changes.{
  Action, update, enable, disable, delete, is_enable, fresh_state, state_for, change, mutate,
  created,
}
use go_pulse.Alert.Changed.{fresh_calm}
use go_pulse.Alert.History.{
  no_value, holds, fails, Observation, run_began, held_since, ought_to_fire, newest, after_change,
}

-- The state is the one that the history calls for.
pub record Follows (r : Rule) (history : List Observation) : Type 0 where
  pub fires : is_firing r.evaluation.state ≡ ought_to_fire r.input.for_duration history
  pub since :
      ought_to_fire r.input.for_duration history ≡ false
      → r.evaluation.pending_since ≡ held_since history
  pub last : r.evaluation.last_evaluated_at ≡ newest history

-- What the code counts from is what the history says.
run_began_lem :
    (cutoff : ℕ) (history : List Observation) (before : Option ℕ)
    → run_began cutoff history before ≡ some (pending_from cutoff before (newest history))
unfolding pending_from
run_began_lem cutoff history none = refl
run_began_lem cutoff [] (some since) = refl
run_began_lem cutoff (o ∷ older) (some since) = ground arith

pending_from-held :
    (cutoff : ℕ) (history : List Observation)
    → held_since ((record { at = cutoff; verdict = holds }) ∷ history)
      ≡ some (pending_from cutoff (held_since history) (newest history))
unfolding held_since
pending_from-held cutoff history = run_began_lem cutoff history (held_since history)

clash : {b : Bool} → b ≡ true → b ≡ false → ⊥
clash h k = cc

recover-input :
    (r : Rule) (cutoff value : ℕ) (id : Option ℕ) → (recover r cutoff value id).input ≡ r.input
unfolding recover
recover-input r cutoff value none = refl
recover-input r cutoff value (some i) = refl

pub moved :
    {r r' : Rule} {history : List Observation}
    → some r ≡ some r'
    → Follows r history
    → Follows r' history
moved {history = history} same f = subst (λ x. Follows x history) (some-injective same) f

pub on_unknown-Follows :
    (r : Rule) (cutoff : ℕ) (history : List Observation)
    → Follows r history
    → Follows (on_unknown r cutoff) ((record { at = cutoff; verdict = no_value }) ∷ history)
unfolding on_unknown ought_to_fire held_since
on_unknown-Follows r cutoff history f = elim (Bool-cases (is_firing r.evaluation.state)) [
  | inl fires ↦ rw fires (record {
    fires = f.fires;
    since = λ calm. absurd (clash (sym f.fires ∙ fires) calm);
    last = refl;
  })
  | inr calm ↦ rw calm (record { fires = sym calm ∙ f.fires; since = λ h. refl; last = refl })
]

pub on_false-Follows :
    (r : Rule) (cutoff value : ℕ) (history : List Observation)
    → Follows (on_false r cutoff value) ((record { at = cutoff; verdict = fails }) ∷ history)
unfolding on_false ought_to_fire held_since
on_false-Follows r cutoff value history = record { fires = refl; since = λ h. refl; last = refl }

pub on_true-Follows :
    (r : Rule) (cutoff value : ℕ) (history : List Observation)
    → is_firing r.evaluation.state ≡ false
    → Follows r history
    → Follows (on_true r cutoff value) ((record { at = cutoff; verdict = holds }) ∷ history)
unfolding on_true ought_to_fire
on_true-Follows r cutoff value history calm f =
    let quiet : ought_to_fire r.input.for_duration history ≡ false = sym f.fires ∙ calm in
    let since = pending_from cutoff r.evaluation.pending_since r.evaluation.last_evaluated_at in
    let now_held : held_since ((record { at = cutoff; verdict = holds }) ∷ history) ≡ some since =
      rw (f.since quiet, f.last) (pending_from-held cutoff history) in
    elim (Bool-cases (leb (since + r.input.for_duration) cutoff)) [
      | inl long ↦
          let must : ought_to_fire r.input.for_duration
                ((record { at = cutoff; verdict = holds }) ∷ history)
              ≡ true =
            rw (quiet, now_held, long) refl in
          rw long (record { fires = sym must; since = λ h. absurd (clash must h); last = refl })
      | inr short ↦ rw short (record {
        fires = rw (quiet, now_held, short) refl;
        since = λ h. sym now_held;
        last = refl;
      })
    ]

retrigger-same :
    (r r' : Rule) (cutoff value : ℕ) (id : Option ℕ)
    → retrigger r cutoff value id ≡ some r'
    → (with_value r.evaluation cutoff value ≡ r'.evaluation) × (r.input ≡ r'.input)
unfolding retrigger
retrigger-same r r' cutoff value none h = absurd (cc)
retrigger-same r r' cutoff value (some i) h =
    let same = some-injective h in (ap (λ x. x.evaluation) same, ap (λ x. x.input) same)

pub on_firing-Follows :
    (r r' : Rule) (cutoff value : ℕ) (history : List Observation)
    → is_firing r.evaluation.state ≡ true
    → on_firing r cutoff value ≡ some r'
    → Follows r history
    → Follows r' ((record { at = cutoff; verdict = holds }) ∷ history)
unfolding on_firing ought_to_fire
on_firing-Follows r r' cutoff value history fires made f =
    let (state, input) = retrigger-same r r' cutoff value r.evaluation.active_incident_id made in
    let ought : ought_to_fire r'.input.for_duration history ≡ true =
      subst (λ i. ought_to_fire i.for_duration history ≡ true) input (sym f.fires ∙ fires) in
    let must : ought_to_fire r'.input.for_duration
          ((record { at = cutoff; verdict = holds }) ∷ history)
        ≡ true =
      rw ought refl in
    record {
      fires = ap (λ x. is_firing x.state) (sym state) ∙ (fires ∙ sym must);
      since = λ h. absurd (clash must h);
      last = ap (λ x. x.last_evaluated_at) (sym state);
    }

renewed-Follows :
    (r : Rule) (enabled : Bool) (now : ℕ) → r.evaluation ≡ fresh_state enabled now → Follows r []
unfolding fresh_state ought_to_fire held_since
renewed-Follows r enabled now same = record {
  fires = ap (λ x. is_firing x.state) same ∙ fresh_calm enabled now;
  since = λ h. ap (λ x. x.pending_since) same;
  last = ap (λ x. x.last_evaluated_at) same;
}

change-Follows :
    (r : Rule) (action : Action) (input : Input) (now : ℕ) (history : List Observation)
    (revision : ℕ)
    → Follows r history
    → Follows
        (change r action input now)
        (after_change (ok revision) (is_enable action && is_firing r.evaluation.state) history)
unfolding change state_for ought_to_fire held_since
change-Follows r enable input now history revision f =
    elim (Bool-cases (is_firing r.evaluation.state)) [
      | inl fires ↦ rw fires (record { fires = f.fires; since = f.since; last = f.last })
      | inr calm ↦ rw calm (renewed-Follows _ true now refl)
    ]
change-Follows r update input now history revision f = renewed-Follows _ r.enabled now refl
change-Follows r disable input now history revision f = renewed-Follows _ false now refl
change-Follows r delete input now history revision f = renewed-Follows _ false now refl

pub mutate-Follows :
    (r : Rule) (valid authorized answers : Bool) (action : Action) (revision : ℕ) (input : Input)
    (now : ℕ) (history : List Observation)
    → Follows r history
    → Follows (mutate r valid authorized answers action revision input now).0 (
        after_change
          (mutate r valid authorized answers action revision input now).1
          (is_enable action && is_firing r.evaluation.state)
          history)
unfolding mutate
mutate-Follows r valid authorized answers action revision input now history f =
    let changed =
      change-Follows r action input now history (change r action input now).revision f in
    ground arith

pub created-Follows :
    (enabled : Bool) (input : Input) (now : ℕ) → Follows (created enabled input now) []
unfolding created
created-Follows enabled input now = renewed-Follows (created enabled input now) enabled now refl
