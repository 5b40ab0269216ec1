-- ===== src/Alert/Evaluation.antt =====
-- One evaluation of a rule: the lease of `evaluate` and the transaction of `apply` (alert/scheduler.go).
use go_pulse.Base.{
  ℕ, ◌+◌, ◌*◌, Bool, true, false, not, ◌&&◌, Option, none, some, List, [], ◌∷◌, ◌==◌, ltb, leb,
  if◌then◌else◌, bytes_eq,
}
use go_pulse.Alert.Rule.{
  Float, normal, pending, firing, unknown, good, stale, State, open_, recovered, Incident,
  alert_trigger, alert_recover, Rule, second, is_firing, update_incident, condition,
}

abbrev pub lapsed : ℕ → Option ℕ → Bool
lapsed now none = true
lapsed now (some t) = leb t now

abbrev pub lasts : ℕ → Option ℕ → Bool
lasts now none = false
lasts now (some t) = ltb now t

-- Whether the rule is due: the condition of the `UPDATE` that takes the lease.
unfoldable pub due : Rule → ℕ → Bool
due r now =
    r.enabled
    && (not r.deleted
        && (leb r.evaluation.next_evaluation_at now && lapsed now r.evaluation.lease_until))

-- The lease of `evaluate`, for ten seconds.
unfoldable pub take_lease : Rule → ℕ → List ℕ → Rule
unfolding due
take_lease r now owner =
    if due r now
    then record r {
      evaluation = record r.evaluation {
        lease_owner = owner;
        lease_until = some (now + 10 * second);
      };
    }
    else r

-- `apply` goes on only with its lease, on a rule that nobody has changed meanwhile.
unfoldable pub accepts : Rule → ℕ → ℕ → List ℕ → Bool
accepts r revision now owner =
    not r.deleted
    && (bytes_eq r.evaluation.lease_owner owner
        && (lasts now r.evaluation.lease_until && (r.revision == revision && r.enabled)))

-- The source has no value.
unfoldable pub on_unknown : Rule → ℕ → Rule
on_unknown r cutoff = record r {
  evaluation =
      if is_firing r.evaluation.state
      then record r.evaluation {
        last_evaluated_at = some cutoff;
        error_code = some r.input.source;
        data_status = stale;
      }
      else record r.evaluation {
        last_evaluated_at = some cutoff;
        error_code = some r.input.source;
        data_status = unknown;
        state = normal;
        pending_since = none;
      };
}

-- The state with the value that the source gave.
abbrev pub with_value : State → ℕ → ℕ → State
with_value s cutoff value = record s {
  last_evaluated_at = some cutoff;
  error_code = none;
  data_status = good;
  last_success_at = some cutoff;
  last_value = some value;
}

unfoldable pub recover_incident : ℕ → ℕ → Incident → Incident
recover_incident cutoff value i = record i {
  status = recovered;
  recovered_at = some cutoff;
  last_evaluated_at = cutoff;
  last_value = value;
  evaluation_count = i.evaluation_count + 1;
}

unfoldable pub recover : Rule → ℕ → ℕ → Option ℕ → Rule
unfolding update_incident recover_incident
recover r cutoff value none = r
recover r cutoff value (some id) = record r {
  incidents = update_incident id (recover_incident cutoff value) r.incidents;
  audits = alert_recover id ∷ r.audits;
}

-- The condition does not hold.
unfoldable pub on_false : Rule → ℕ → ℕ → Rule
unfolding recover
on_false r cutoff value = record (recover r cutoff value r.evaluation.active_incident_id) {
  evaluation = record (with_value r.evaluation cutoff value) {
    state = normal;
    pending_since = none;
    active_incident_id = none;
  };
}

unfoldable pub retrigger_incident : ℕ → ℕ → Incident → Incident
retrigger_incident cutoff value i = record i {
  last_triggered_at = cutoff;
  last_evaluated_at = cutoff;
  last_value = value;
  evaluation_count = i.evaluation_count + 1;
}

unfoldable pub retrigger : Rule → ℕ → ℕ → Option ℕ → Option Rule
unfolding retrigger_incident
retrigger r cutoff value none = none
retrigger r cutoff value (some id) = some (record r {
  incidents = update_incident id (retrigger_incident cutoff value) r.incidents;
  evaluation = with_value r.evaluation cutoff value;
})

-- The condition holds on: none where the code dereferences an incident that is not there.
unfoldable pub on_firing : Rule → ℕ → ℕ → Option Rule
unfolding retrigger
on_firing r cutoff value = retrigger r cutoff value r.evaluation.active_incident_id

-- `cutoff.Sub(*r.State.LastEvaluatedAt) > 65*time.Second`
abbrev pub gap : ℕ → ℕ → Bool
gap cutoff last = ltb (last + 65 * second) cutoff

-- Since when the condition has held; an evaluation that was missed starts it again.
unfoldable pub pending_from : ℕ → Option ℕ → Option ℕ → ℕ
pending_from cutoff none last = cutoff
pending_from cutoff (some since) none = cutoff
pending_from cutoff (some since) (some last) = if gap cutoff last then cutoff else since

unfoldable pub new_incident : Rule → ℕ → ℕ → Incident
new_incident r cutoff value = record {
  id = r.next_incident;
  revision = r.revision;
  status = open_;
  first_triggered_at = cutoff;
  last_triggered_at = cutoff;
  last_evaluated_at = cutoff;
  recovered_at = none;
  closed_at = none;
  resolution_reason = none;
  last_value = value;
  evaluation_count = 1;
}

-- The condition holds and the rule does not fire yet.
unfoldable pub on_true : Rule → ℕ → ℕ → Rule
unfolding pending_from new_incident
on_true r cutoff value =
    let since = pending_from cutoff r.evaluation.pending_since r.evaluation.last_evaluated_at in
    if leb (since + r.input.for_duration) cutoff
    then record r {
      incidents = new_incident r cutoff value ∷ r.incidents;
      next_incident = r.next_incident + 1;
      audits = alert_trigger r.next_incident ∷ r.audits;
      evaluation = record (with_value r.evaluation cutoff value) {
        state = firing;
        pending_since = none;
        active_incident_id = some r.next_incident;
      };
    }
    else record r {
      evaluation = record (with_value r.evaluation cutoff value) {
        state = pending;
        pending_since = some since;
      };
    }

module _ (float : Float) where
  unfoldable pub on_value : Rule → ℕ → ℕ → Option Rule
  unfolding condition on_false on_firing on_true
  on_value r cutoff value =
      if not (condition float r.input value)
      then some (on_false r cutoff value)
      else if is_firing r.evaluation.state
      then on_firing r cutoff value
      else some (on_true r cutoff value)

  -- The evaluation of a rule that `apply` has accepted.
  unfoldable pub observe : Rule → ℕ → Option ℕ → Option Rule
  unfolding on_unknown on_value
  observe r cutoff none = some (on_unknown r cutoff)
  observe r cutoff (some value) = on_value r cutoff value

  -- The last statement of `apply`: the lease ends, and the next evaluation is in half a minute.
  abbrev pub finish : ℕ → Rule → Rule
  finish now r = record r {
    evaluation = record r.evaluation {
      lease_owner = [];
      lease_until = none;
      next_evaluation_at = now + 30 * second;
    };
  }

  abbrev pub finished : ℕ → Option Rule → Option Rule
  finished now none = none
  finished now (some r) = some (finish now r)

  -- `apply`, given whether the database answers; none where it panics.
  unfoldable pub apply : Rule → Bool → ℕ → List ℕ → ℕ → ℕ → Option ℕ → Option Rule
  unfolding accepts observe
  apply r answers revision owner now cutoff reading =
      if not (answers && accepts r revision now owner)
      then some r
      else finished now (observe r cutoff reading)
