-- ===== src/Alert/Changes.antt =====
-- Creating, changing, enabling, disabling and deleting a rule: `Mutate` of alert/repository.go. Whether
-- `Validate` accepts the input, `authorize` the actor, and the database answers comes with a call.
use go_pulse.Base.{
  ℕ, ◌+◌, ◌^◌, ◌%◌, Bool, true, false, not, ◌&&◌, ◌||◌, Option, none, some, [], ◌∷◌, Result, ok,
  err, ◌==◌, leb, if◌then◌else◌,
}
use go_pulse.Alert.Rule.{
  Input, disabled, normal, unknown, State, closed, Reason, rule_updated, rule_disabled,
  rule_deleted, Incident, Audit, alert_close, rule_create, rule_update, rule_enable, rule_disable,
  rule_delete, Rule, is_firing, is_open, update_incident,
}

pub data Action : Type 0 where
  update enable disable delete : Action

pub data Error : Type 0 where
  validation_failed permission_denied not_found conflict rule_limit unavailable : Error

abbrev pub rule_limit_count : ℕ
rule_limit_count = 32

abbrev pub is_enable : Action → Bool
is_enable enable = true
is_enable _ = false

-- What a change leaves of the state.
unfoldable pub fresh_state : Bool → ℕ → State
fresh_state enabled now = record {
  state = if enabled then normal else disabled;
  data_status = unknown;
  pending_since = none;
  active_incident_id = none;
  last_value = none;
  last_evaluated_at = none;
  last_success_at = none;
  error_code = none;
  lease_owner = [];
  lease_until = none;
  next_evaluation_at = now;
}

abbrev pub reason_of : Action → Reason
reason_of disable = rule_disabled
reason_of delete = rule_deleted
reason_of _ = rule_updated

unfoldable pub close_row : Reason → ℕ → Incident → Incident
close_row reason now i =
    if is_open i.status
    then (record i { status = closed; closed_at = some now; resolution_reason = some reason })
    else i

-- `closeIncident`
unfoldable pub close_incident : Rule → Reason → ℕ → Option ℕ → Rule
unfolding update_incident close_row
close_incident r reason now none = r
close_incident r reason now (some id) = record r {
  incidents = update_incident id (close_row reason now) r.incidents;
  audits = alert_close reason id ∷ r.audits;
}

unfoldable pub closed_for : Rule → Action → ℕ → Rule
unfolding close_incident
closed_for r enable now = r
closed_for r action now = close_incident r (reason_of action) now r.evaluation.active_incident_id

abbrev pub input_for : Action → Input → Input → Input
input_for update old input = input
input_for _ old input = old

abbrev pub enabled_for : Action → Bool → Bool
enabled_for update old = old
enabled_for enable old = true
enabled_for _ old = false

abbrev pub is_delete : Action → Bool
is_delete delete = true
is_delete _ = false

abbrev pub audit_of : Action → Audit
audit_of update = rule_update
audit_of enable = rule_enable
audit_of disable = rule_disable
audit_of delete = rule_delete

abbrev pub is_update : Action → Bool
is_update update = true
is_update _ = false

-- The state that a change leaves: only an enabled rule that fires goes on firing.
unfoldable pub state_for : Action → Bool → ℕ → State → State
unfolding fresh_state
state_for action enabled now s =
    if not (is_enable action) || not (is_firing s.state)
    then fresh_state enabled now
    else record s { lease_owner = []; lease_until = none; next_evaluation_at = now }

-- The change itself, once it may be made.
unfoldable pub change : Rule → Action → Input → ℕ → Rule
unfolding closed_for state_for
change r action input now =
    let without = closed_for r action now in
    let enabled = enabled_for action r.enabled in
    record without {
      input = input_for action r.input input;
      enabled = enabled;
      deleted = is_delete action;
      revision = (r.revision + 1) % 2 ^ 64;
      evaluation = state_for action enabled now r.evaluation;
      audits = audit_of action ∷ without.audits;
    }

-- `Mutate` of a rule that is there.
unfoldable pub mutate : Rule → Bool → Bool → Bool → Action → ℕ → Input → ℕ → Rule × Result Error ℕ
unfolding change
mutate r valid authorized answers action revision input now =
    if is_update action && not valid || revision == 0
    then (r, err validation_failed)
    else if not answers
    then (r, err unavailable)
    else if not authorized
    then (r, err permission_denied)
    else if r.deleted
    then (r, err not_found)
    else if not (r.revision == revision)
    then (r, err conflict)
    else let changed = change r action input now in (changed, ok changed.revision)

-- The rule that `Mutate` inserts.
unfoldable pub created : Bool → Input → ℕ → Rule
unfolding fresh_state
created enabled input now = record {
  input = input;
  enabled = enabled;
  deleted = false;
  revision = 1;
  evaluation = fresh_state enabled now;
  incidents = [];
  next_incident = 1;
  audits = rule_create ∷ [];
}

-- `Mutate` that creates a rule, `count` being the rules there are.
unfoldable pub create : Bool → Bool → Bool → ℕ → Bool → Input → ℕ → Result Error Rule
unfolding created
create valid authorized answers count enabled input now =
    if not valid
    then err validation_failed
    else if not answers
    then err unavailable
    else if not authorized
    then err permission_denied
    else if leb rule_limit_count count
    then err rule_limit
    else ok (created enabled input now)
