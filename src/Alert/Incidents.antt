-- ===== src/Alert/Incidents.antt =====
-- What it means that the state of a rule, its incidents and its audit entries agree, and facts about the
-- incidents that are open (alert/repository.go, alert/scheduler.go).
use go_pulse.Base.{
  ℕ, ◌<◌, ◌++◌, ◌≡◌, refl, Bool, true, false, not, ◌&&◌, Option, none, some, List, [], ◌∷◌, ◌==◌,
  if◌then◌else◌, arith, Bool-cases, inl, inr,
}
use go_pulse.Alert.Rule.{
  Phase, disabled, pending, Incident, Audit, alert_trigger, alert_recover, alert_close, Rule,
  is_firing, is_open, update_incident,
}

-- The IDs of the incidents that are open.
unfoldable pub open_ids : List Incident → List ℕ
open_ids [] = []
open_ids (x ∷ xs) = if is_open x.status then x.id ∷ open_ids xs else open_ids xs

abbrev pub as_list : Option ℕ → List ℕ
as_list none = []
as_list (some i) = i ∷ []

abbrev pub has_value : Option ℕ → Bool
has_value none = false
has_value (some i) = true

abbrev pub is_pending : Phase → Bool
is_pending pending = true
is_pending _ = false

abbrev pub is_disabled : Phase → Bool
is_disabled disabled = true
is_disabled _ = false

-- The incidents that the audit entries say were triggered, and those that recovered or were closed, the
-- newest entry first.
abbrev pub trigger_ids : List Audit → List ℕ
trigger_ids [] = []
trigger_ids (alert_trigger i ∷ rest) = i ∷ trigger_ids rest
trigger_ids (_ ∷ rest) = trigger_ids rest

abbrev pub end_ids : List Audit → List ℕ
end_ids [] = []
end_ids (alert_recover i ∷ rest) = i ∷ end_ids rest
end_ids (alert_close _ i ∷ rest) = i ∷ end_ids rest
end_ids (_ ∷ rest) = end_ids rest

-- The IDs of all incidents, the newest first.
unfoldable pub ids_of : List Incident → List ℕ
ids_of [] = []
ids_of (x ∷ xs) = x.id ∷ ids_of xs

-- The IDs get smaller, from below `n`; in particular they are distinct.
abbrev pub Descending : ℕ → List ℕ → Type 0
Descending n [] = Unit {0}
Descending n (i ∷ is) = (i < n) × Descending i is

-- The open incidents are the one the state names, if it names one; it does exactly while the rule
-- fires. A pending rule knows since when, a rule is disabled exactly in the disabled state, and a
-- deleted rule is disabled. The IDs of the incidents are distinct; each has one audit entry of its
-- trigger, in their order; and the incidents are, in their order, those that are open and then those
-- that an audit entry ended, so each is open or was ended by one entry with its ID.
pub record Consistent (r : Rule) : Type 0 where
  pub active : open_ids r.incidents ≡ as_list r.evaluation.active_incident_id
  pub fires : is_firing r.evaluation.state ≡ has_value r.evaluation.active_incident_id
  pub waits : is_pending r.evaluation.state ≡ has_value r.evaluation.pending_since
  pub runs : is_disabled r.evaluation.state ≡ not r.enabled
  pub lives : (r.deleted && r.enabled) ≡ false
  pub distinct : Descending r.next_incident (ids_of r.incidents)
  pub triggered : trigger_ids r.audits ≡ ids_of r.incidents
  pub ended : ids_of r.incidents ≡ open_ids r.incidents ++ end_ids r.audits

pub ids_of_keep :
    (i : ℕ) (f : Incident → Incident) (xs : List Incident)
    → ((x : Incident) → (f x).id ≡ x.id)
    → ids_of (update_incident i f xs) ≡ ids_of xs
unfolding ids_of update_incident
ids_of_keep i f [] same = refl
ids_of_keep i f (x ∷ xs) same = elim (Bool-cases (x.id == i)) [
  | inl hit ↦ rw (hit, same x, ids_of_keep i f xs same) refl
  | inr miss ↦ rw (miss, ids_of_keep i f xs same) refl
]

pub open_ids_keep :
    (i : ℕ) (f : Incident → Incident) (xs : List Incident)
    → ((x : Incident) → ((f x).id ≡ x.id) × ((f x).status ≡ x.status))
    → open_ids (update_incident i f xs) ≡ open_ids xs
unfolding open_ids update_incident
open_ids_keep i f [] same = refl
open_ids_keep i f (x ∷ xs) same = elim (Bool-cases (x.id == i)) [
  | inl hit ↦ rw (hit, (same x).0, (same x).1, open_ids_keep i f xs same) refl
  | inr miss ↦ rw (miss, open_ids_keep i f xs same) refl
]

none_open :
    (i : ℕ) (f : Incident → Incident) (xs : List Incident)
    → ((x : Incident) → is_open (f x).status ≡ false)
    → open_ids xs ≡ []
    → open_ids (update_incident i f xs) ≡ []
unfolding open_ids update_incident
none_open i f [] ended h = refl
none_open i f (x ∷ xs) ended h = elim (Bool-cases (is_open x.status)) [
  | inl up ↦ absurd (ground (arith, h))
  | inr down ↦ elim (Bool-cases (x.id == i)) [
    | inl hit ↦ rw (hit, ended x) (none_open i f xs ended (ground (arith, h)))
    | inr miss ↦ rw (miss, down) (none_open i f xs ended (ground (arith, h)))
  ]
]

-- Ending the one open incident leaves none open.
pub open_ids_end :
    (i : ℕ) (f : Incident → Incident) (xs : List Incident)
    → ((x : Incident) → is_open (f x).status ≡ false)
    → open_ids xs ≡ i ∷ []
    → open_ids (update_incident i f xs) ≡ []
unfolding open_ids update_incident
open_ids_end i f [] ended h = absurd (cc)
open_ids_end i f (x ∷ xs) ended h = elim (Bool-cases (is_open x.status)) [
  | inl up ↦
      let here : (x.id == i) ≡ true = ground (arith, h) in
      rw (here, ended x) (none_open i f xs ended (ground (arith, h)))
  | inr down ↦ elim (Bool-cases (x.id == i)) [
    | inl hit ↦ rw (hit, ended x) (open_ids_end i f xs ended (ground (arith, h)))
    | inr miss ↦ rw (miss, down) (open_ids_end i f xs ended (ground (arith, h)))
  ]
]

-- What is left when the incident that the state names has ended, with an audit entry for it.
pub record Settled (r r' : Rule) : Type 0 where
  pub none_left : open_ids r'.incidents ≡ []
  pub still_distinct : Descending r'.next_incident (ids_of r'.incidents)
  pub all_triggered : trigger_ids r'.audits ≡ ids_of r'.incidents
  pub all_ended : ids_of r'.incidents ≡ end_ids r'.audits
  pub same_enabled : r'.enabled ≡ r.enabled
  pub same_deleted : r'.deleted ≡ r.deleted
