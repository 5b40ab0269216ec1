-- ===== src/Alert/Evaluated.antt =====
-- Evaluations keep a rule, its incidents and its audit entries in agreement (alert/scheduler.go).
use go_pulse.Base.{
  ℕ, ◌+◌, ◌++◌, ◌≡◌, refl, sym, ap, ◌∙◌, true, false, Option, none, some, [], ◌∷◌, leb, arith,
  Bool-cases, Option-cases, inl, inr,
}
use go_pulse.Alert.Rule.{Rule, is_firing, update_incident}
use go_pulse.Alert.Evaluation.{
  on_unknown, recover, recover_incident, on_false, retrigger_incident, on_firing, retrigger,
  on_true, new_incident, pending_from, with_value,
}
use go_pulse.Alert.Incidents.{
  Consistent, Settled, as_list, has_value, open_ids, open_ids_end, open_ids_keep, ids_of,
  ids_of_keep, end_ids,
}

recover-Settled :
    (r : Rule) (cutoff value : ℕ)
    → Consistent r
    → Settled r (recover r cutoff value r.evaluation.active_incident_id)
unfolding recover recover_incident
recover-Settled r cutoff value c = elim (Option-cases r.evaluation.active_incident_id) [
  | inl nothing ↦
      let empty : open_ids r.incidents ≡ [] = c.active ∙ ap as_list nothing in
      rw nothing (record {
        none_left = empty;
        still_distinct = c.distinct;
        all_triggered = c.triggered;
        all_ended = c.ended ∙ ap (λ is. is ++ end_ids r.audits) empty;
        same_enabled = refl;
        same_deleted = refl;
      })
  | inr (i, open_one) ↦
      let one : open_ids r.incidents ≡ i ∷ [] = c.active ∙ ap as_list open_one in
      let same = ids_of_keep i (recover_incident cutoff value) r.incidents (λ x. refl) in
      rw open_one (record {
        none_left = open_ids_end i (recover_incident cutoff value) r.incidents (λ x. refl) one;
        still_distinct = rw same c.distinct;
        all_triggered = c.triggered ∙ sym same;
        all_ended = same ∙ (c.ended ∙ ap (λ is. is ++ end_ids r.audits) one);
        same_enabled = refl;
        same_deleted = refl;
      })
]

pub on_false-Consistent :
    (r : Rule) (cutoff value : ℕ)
    → r.enabled ≡ true
    → Consistent r
    → Consistent (on_false r cutoff value)
unfolding on_false
on_false-Consistent r cutoff value on c =
    let e = recover-Settled r cutoff value c in
    record {
      active = e.none_left;
      fires = refl;
      waits = refl;
      runs = rw (e.same_enabled, on) refl;
      lives = rw (e.same_deleted, e.same_enabled) c.lives;
      distinct = e.still_distinct;
      triggered = e.all_triggered;
      ended = rw (e.none_left) (e.all_ended);
    }

pub on_unknown-Consistent :
    (r : Rule) (cutoff : ℕ) → r.enabled ≡ true → Consistent r → Consistent (on_unknown r cutoff)
unfolding on_unknown
on_unknown-Consistent r cutoff on c = elim (Bool-cases (is_firing r.evaluation.state)) [
  | inl fires ↦ rw fires (record {
    active = c.active;
    fires = c.fires;
    waits = c.waits;
    runs = c.runs;
    lives = c.lives;
    distinct = c.distinct;
    triggered = c.triggered;
    ended = c.ended;
  })
  | inr calm ↦ rw calm (record {
    active = c.active;
    fires = sym calm ∙ c.fires;
    waits = refl;
    runs = rw on refl;
    lives = c.lives;
    distinct = c.distinct;
    triggered = c.triggered;
    ended = c.ended;
  })
]

pub no_incident : (o : Option ℕ) → has_value o ≡ false → o ≡ none
no_incident none h = refl
no_incident (some i) h = absurd (cc)

an_incident : (o : Option ℕ) → has_value o ≡ true → (i : ℕ) × (o ≡ some i)
an_incident none h = absurd (cc)
an_incident (some i) h = (i, refl)

pub on_firing-Consistent :
    (r : Rule) (cutoff value : ℕ)
    → is_firing r.evaluation.state ≡ true
    → Consistent r
    → (r' : Rule) × (on_firing r cutoff value ≡ some r') × Consistent r'
unfolding on_firing retrigger retrigger_incident
on_firing-Consistent r cutoff value fires c =
    let (i, open_one) = an_incident r.evaluation.active_incident_id (sym c.fires ∙ fires) in
    let kept = open_ids_keep i (retrigger_incident cutoff value) r.incidents (λ x. (refl, refl)) in
    let same = ids_of_keep i (retrigger_incident cutoff value) r.incidents (λ x. refl) in
    (
      record r {
        incidents = update_incident i (retrigger_incident cutoff value) r.incidents;
        evaluation = with_value r.evaluation cutoff value;
      },
      rw open_one refl,
      record {
        active = kept ∙ c.active;
        fires = c.fires;
        waits = c.waits;
        runs = c.runs;
        lives = c.lives;
        distinct = rw same c.distinct;
        triggered = c.triggered ∙ sym same;
        ended = rw (kept, same) c.ended;
      },
    )

pub on_true-Consistent :
    (r : Rule) (cutoff value : ℕ)
    → r.enabled ≡ true
    → is_firing r.evaluation.state ≡ false
    → Consistent r
    → Consistent (on_true r cutoff value)
unfolding on_true new_incident open_ids ids_of
on_true-Consistent r cutoff value on calm c =
    let since = pending_from cutoff r.evaluation.pending_since r.evaluation.last_evaluated_at in
    let nothing = no_incident r.evaluation.active_incident_id (sym c.fires ∙ calm) in
    let empty : open_ids r.incidents ≡ [] = c.active ∙ ap as_list nothing in
    elim (Bool-cases (leb (since + r.input.for_duration) cutoff)) [
      | inl long ↦ rw long (record {
        active = rw empty refl;
        fires = refl;
        waits = refl;
        runs = rw on refl;
        lives = c.lives;
        distinct = (omega arith, c.distinct);
        triggered = ap (λ is. r.next_incident ∷ is) c.triggered;
        ended = ap (λ is. r.next_incident ∷ is) c.ended;
      })
      | inr short ↦ rw short (record {
        active = c.active;
        fires = rw nothing refl;
        waits = refl;
        runs = rw on refl;
        lives = c.lives;
        distinct = c.distinct;
        triggered = c.triggered;
        ended = c.ended;
      })
    ]
