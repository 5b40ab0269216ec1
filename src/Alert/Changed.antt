-- ===== src/Alert/Changed.antt =====
-- Changes of a rule keep it, its incidents and its audit entries in agreement (alert/repository.go).
use go_pulse.Base.{
  ℕ, ◌≡◌, refl, sym, ap, ◌∙◌, Bool, true, false, not, ◌&&◌, [], ◌∷◌, ◌++◌, ok, arith, Bool-cases,
  Option-cases, inl, inr,
}
use go_pulse.Alert.Rule.{
  Input, Phase, disabled, normal, pending, firing, Incident, Audit, Rule, is_firing, is_open,
}
use go_pulse.Alert.Changes.{
  Action, update, enable, disable, delete, fresh_state, reason_of, close_row, close_incident,
  closed_for, state_for, change, mutate, create, created,
}
use go_pulse.Alert.Incidents.{
  Consistent, Settled, as_list, end_ids, is_disabled, is_pending, open_ids, open_ids_end,
  trigger_ids, ids_of, ids_of_keep,
}
use go_pulse.Alert.Evaluated.{no_incident}

close_row_ends :
    (action : Action) (now : ℕ) (x : Incident)
    → is_open (close_row (reason_of action) now x).status ≡ false
unfolding close_row
close_row_ends action now x = elim (Bool-cases (is_open x.status)) [
  | inl up ↦ rw up refl
  | inr down ↦ rw (down, down) refl
]

close_row-same :
    (action : Action) (now : ℕ) (x : Incident) → (close_row (reason_of action) now x).id ≡ x.id
unfolding close_row
close_row-same action now x = elim (Bool-cases (is_open x.status)) [
  | inl up ↦ rw up refl
  | inr down ↦ rw down refl
]

close_incident-Settled :
    (r : Rule) (action : Action) (now : ℕ)
    → Consistent r
    → Settled r (close_incident r (reason_of action) now r.evaluation.active_incident_id)
unfolding close_incident
close_incident-Settled r action now c = elim (Option-cases r.evaluation.active_incident_id) [
  | inl nothing ↦
      let empty : open_ids r.incidents ≡ [] = c.active ∙ ap as_list nothing in
      rw nothing (record {
        none_left = empty;
        still_distinct = c.distinct;
        all_triggered = c.triggered;
        all_ended = c.ended ∙ ap (λ is. is ++ end_ids r.audits) empty;
        same_enabled = refl;
        same_deleted = refl;
      })
  | inr (i, open_one) ↦
      let one : open_ids r.incidents ≡ i ∷ [] = c.active ∙ ap as_list open_one in
      let same =
        ids_of_keep i (close_row (reason_of action) now) r.incidents (close_row-same action now) in
      rw open_one (record {
        none_left =
            open_ids_end i (close_row (reason_of action) now) r.incidents
              (close_row_ends action now) one;
        still_distinct = rw same c.distinct;
        all_triggered = c.triggered ∙ sym same;
        all_ended = same ∙ (c.ended ∙ ap (λ is. is ++ end_ids r.audits) one);
        same_enabled = refl;
        same_deleted = refl;
      })
]

fresh_runs : (enabled : Bool) (now : ℕ) → is_disabled (fresh_state enabled now).state ≡ not enabled
unfolding fresh_state
fresh_runs true now = refl
fresh_runs false now = refl

pub fresh_calm : (enabled : Bool) (now : ℕ) → is_firing (fresh_state enabled now).state ≡ false
unfolding fresh_state
fresh_calm true now = refl
fresh_calm false now = refl

fresh_idle : (enabled : Bool) (now : ℕ) → is_pending (fresh_state enabled now).state ≡ false
unfolding fresh_state
fresh_idle true now = refl
fresh_idle false now = refl

-- A change that ends what was open and starts the state anew.
renewed-Consistent :
    (r ended : Rule) (action : Action) (input : Input) (now : ℕ) (enabled : Bool) (revision : ℕ)
    (deleted : Bool) (a : Audit)
    → Settled r ended
    → (deleted && enabled) ≡ false
    → trigger_ids (a ∷ ended.audits) ≡ trigger_ids ended.audits
    → end_ids (a ∷ ended.audits) ≡ end_ids ended.audits
    → Consistent (record ended {
      input = input;
      enabled = enabled;
      deleted = deleted;
      revision = revision;
      evaluation = fresh_state enabled now;
      audits = a ∷ ended.audits;
    })
unfolding fresh_state
renewed-Consistent r ended action input now enabled revision deleted a e lives t u = record {
  active = e.none_left;
  fires = fresh_calm enabled now;
  waits = fresh_idle enabled now;
  runs = fresh_runs enabled now;
  lives = lives;
  distinct = e.still_distinct;
  triggered = t ∙ e.all_triggered;
  ended = rw (e.none_left, u) (e.all_ended);
}

change-Consistent :
    (r : Rule) (action : Action) (input : Input) (now : ℕ)
    → Consistent r
    → Consistent (change r action input now)
unfolding change closed_for state_for
change-Consistent r update input now c =
    renewed-Consistent r _ update input now r.enabled _ false _
      (close_incident-Settled r update now c) refl refl refl
change-Consistent r disable input now c =
    renewed-Consistent r _ disable r.input now false _ false _
      (close_incident-Settled r disable now c) refl refl refl
change-Consistent r delete input now c =
    renewed-Consistent r _ delete r.input now false _ true _ (close_incident-Settled r delete now c)
      refl refl refl
change-Consistent r enable input now c = elim (Bool-cases (is_firing r.evaluation.state)) [
  | inl fires ↦ rw fires (record {
    active = c.active;
    fires = c.fires;
    waits = c.waits;
    runs = not_disabled r.evaluation.state fires;
    lives = refl;
    distinct = c.distinct;
    triggered = c.triggered;
    ended = c.ended;
  })
  | inr calm ↦
      let nothing = no_incident r.evaluation.active_incident_id (sym c.fires ∙ calm) in
      let empty : open_ids r.incidents ≡ [] = c.active ∙ ap as_list nothing in
      rw calm (
        renewed-Consistent r r enable r.input now true _ false _
          (record {
            none_left = empty;
            still_distinct = c.distinct;
            all_triggered = c.triggered;
            all_ended = c.ended ∙ ap (λ is. is ++ end_ids r.audits) empty;
            same_enabled = refl;
            same_deleted = refl;
          })
          refl refl refl)
]
  where
    not_disabled : (p : Phase) → is_firing p ≡ true → is_disabled p ≡ false
    not_disabled firing h = refl
    not_disabled disabled h = absurd (cc)
    not_disabled normal h = refl
    not_disabled pending h = refl

pub mutate-Consistent :
    (r : Rule) (valid authorized answers : Bool) (action : Action) (revision : ℕ) (input : Input)
    (now : ℕ)
    → Consistent r
    → Consistent (mutate r valid authorized answers action revision input now).0
unfolding mutate
mutate-Consistent r valid authorized answers action revision input now c =
    let changed = change-Consistent r action input now c in ground arith

pub created-Consistent :
    (enabled : Bool) (input : Input) (now : ℕ) → Consistent (created enabled input now)
unfolding created open_ids ids_of
created-Consistent enabled input now =
    let idle = fresh_idle enabled now in
    record {
      active = refl;
      fires = fresh_calm enabled now;
      waits = idle;
      runs = fresh_runs enabled now;
      lives = refl;
      distinct = tt;
      triggered = refl;
      ended = refl;
    }

pub create-created :
    (valid authorized answers enabled : Bool) (count : ℕ) (input : Input) (now : ℕ) (r : Rule)
    → create valid authorized answers count enabled input now ≡ ok r
    → created enabled input now ≡ r
unfolding create
create-created valid authorized answers enabled count input now r h = ground (arith, h)
