-- ===== src/Alert/Rule.antt =====
-- Rules, their state and their incidents: alert/model.go, and the columns of alert/repository.go. The
-- tables are seen from one rule: its row, the row of its state, its incidents with the newest first,
-- and the audit entries about them. A time is in microseconds, a text is the list of its bytes, NULL
-- is `none`, and a `float64` is the number of its 64 bits.
use go_pulse.Base.{ℕ, Bool, true, false, not, Option, List, [], ◌∷◌, ◌==◌, if◌then◌else◌}

-- The comparisons of `float64`.
pub record Float : Type 0 where
  pub greater : ℕ → ℕ → Bool
  pub at_least : ℕ → ℕ → Bool
  pub same : ℕ → ℕ → Bool

pub data Operator : Type 0 where
  gt gte lt lte eq neq : Operator

pub data Source : Type 0 where
  metrics logs events : Source

-- `Input`, but for what an evaluation does not read when it has its value.
pub record Input : Type 0 where
  pub name : List ℕ
  pub source : Source
  pub operator : Operator
  pub threshold : ℕ
  pub for_duration : ℕ

pub data Phase : Type 0 where
  disabled normal pending firing : Phase

pub data DataStatus : Type 0 where
  unknown good stale : DataStatus

-- `State`, with the lease and the time of the next evaluation of its row. The error code is
-- the source that had no value.
pub record State : Type 0 where
  pub state : Phase
  pub data_status : DataStatus
  pub pending_since : Option ℕ
  pub active_incident_id : Option ℕ
  pub last_value : Option ℕ
  pub last_evaluated_at : Option ℕ
  pub last_success_at : Option ℕ
  pub error_code : Option Source
  pub lease_owner : List ℕ
  pub lease_until : Option ℕ
  pub next_evaluation_at : ℕ

pub data IncidentStatus : Type 0 where
  open_ recovered closed : IncidentStatus

pub data Reason : Type 0 where
  rule_updated rule_disabled rule_deleted : Reason

pub record Incident : Type 0 where
  pub id : ℕ
  pub revision : ℕ
  pub status : IncidentStatus
  pub first_triggered_at : ℕ
  pub last_triggered_at : ℕ
  pub last_evaluated_at : ℕ
  pub recovered_at : Option ℕ
  pub closed_at : Option ℕ
  pub resolution_reason : Option Reason
  pub last_value : ℕ
  pub evaluation_count : ℕ

pub data Audit : Type 0 where
  alert_trigger alert_recover : ℕ → Audit
  alert_close : Reason → ℕ → Audit
  rule_create rule_update rule_enable rule_disable rule_delete : Audit

pub record Rule : Type 0 where
  pub input : Input
  pub enabled : Bool
  pub deleted : Bool
  pub revision : ℕ
  pub evaluation : State
  pub incidents : List Incident
  pub next_incident : ℕ
  pub audits : List Audit

abbrev pub second : ℕ
second = 1000000

abbrev pub is_firing : Phase → Bool
is_firing firing = true
is_firing _ = false

abbrev pub is_open : IncidentStatus → Bool
is_open open_ = true
is_open _ = false

-- `UPDATE alert_incidents SET … WHERE id=?`
unfoldable pub update_incident : ℕ → (Incident → Incident) → List Incident → List Incident
update_incident i f [] = []
update_incident i f (x ∷ xs) = (if x.id == i then f x else x) ∷ update_incident i f xs

module _ (float : Float) where
  open float use {greater, at_least, same}

  -- `condition`
  unfoldable pub condition : Input → ℕ → Bool
  condition input v = by_operator input.operator input.threshold
    where
      by_operator : Operator → ℕ → Bool
      by_operator gt t = greater v t
      by_operator gte t = at_least v t
      by_operator lt t = greater t v
      by_operator lte t = at_least t v
      by_operator eq t = same v t
      by_operator neq t = not (same v t)
