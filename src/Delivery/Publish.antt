-- ===== src/Delivery/Publish.antt =====
-- `dispatchRecordWith` of outbox/dispatcher.go: one claimed record is published and acknowledged, or
-- given back. The answers of the publisher, the store and the context are a record.
use go_pulse.Base.{
  refl, ap, ◌∙◌, ◌≡◌, Bool, true, false, ◌||◌, Option, none, some, if◌then◌else◌, arith, ◌⊎◌, inl,
  inr, Option-cases,
}
use go_pulse.Outbox.Row.{
  FailureCode, publish_unavailable, publish_timeout, publisher_closed, internal,
}
use go_pulse.Outbox.Repository.{Error, invalid_argument, lease_lost, storage}

-- An error of `Publish`, as `errors.As` and `errors.Is` see it.
pub data PublishError : Type 0 where
  coded : FailureCode → PublishError
  deadline canceled other : PublishError

pub data DispatchError : Type 0 where
  context_done invalid_envelope not_released not_marked lost : DispatchError

-- `publish` and `mark` are errors or `none`; a flag says whether the context has ended by then.
pub record Answers : Type 0 where
  pub decodes : Bool
  pub publish : Option PublishError
  pub done_after_publish : Bool
  pub mark : Option Error
  pub done_after_mark : Bool
  pub done_at_release : Bool
  pub release : Option Error

-- What was done to the record, and the error that is returned.
pub record Done : Type 0 where
  pub sent : Bool
  pub marked : Bool
  pub released : Option FailureCode
  pub error : Option DispatchError

unfoldable pub publish_failure_code : PublishError → FailureCode
publish_failure_code (coded code) = code
publish_failure_code deadline = publish_timeout
publish_failure_code canceled = publisher_closed
publish_failure_code other = publish_unavailable

abbrev pub is_lost : Error → Bool
is_lost lease_lost = true
is_lost _ = false

abbrev pub release_error : Option Error → Option DispatchError
release_error none = none
release_error (some e) = if is_lost e then none else some not_released

-- A row is given back only if `ReleaseFailed` succeeds.
abbrev pub given_back : Option Error → FailureCode → Option FailureCode
given_back none failure = some failure
given_back (some _) failure = none

-- `releaseFailed`
unfoldable pub give_back : Answers → FailureCode → Done → Done
give_back a failure d =
    if a.done_at_release
    then record d { error = some context_done }
    else record d { released = given_back a.release failure; error = release_error a.release }

-- An error of the release itself, or `e`.
abbrev pub or_error : DispatchError → Option DispatchError → Option DispatchError
or_error e none = some e
or_error e (some f) = some f

unfoldable pub unmarked : Answers → Error → Done → Done
unfolding give_back
unmarked a e d =
    if is_lost e || a.done_after_mark
    then record d { error = some (if is_lost e then lost else not_marked) }
    else record (give_back a internal d) { error = some not_marked }

unfoldable pub acknowledge : Answers → Option Error → Done → Done
unfolding unmarked
acknowledge a none d = record d { marked = true }
acknowledge a (some e) d = unmarked a e d

unfoldable pub published_with : Answers → Option PublishError → Done → Done
unfolding acknowledge give_back publish_failure_code
published_with a none d =
    if a.done_after_publish then record d { error = some context_done } else acknowledge a a.mark d
published_with a (some e) d =
    if a.done_after_publish
    then record d { error = some context_done }
    else give_back a (publish_failure_code e) d

abbrev pub nothing_done : Done
nothing_done = record { sent = false; marked = false; released = none; error = none }

unfoldable pub dispatch_record_with : Answers → Done
unfolding published_with give_back
dispatch_record_with a =
    if a.decodes
    then published_with a a.publish (record nothing_done { sent = true })
    else (let d = give_back a internal nothing_done in
        record d { error = or_error invalid_envelope d.error })

-- A row is marked published only after its envelope was decoded and the publisher accepted it.
pub marked_after_publish :
    (a : Answers)
    → (dispatch_record_with a).marked ≡ true
    → (a.decodes ≡ true) × (a.publish ≡ none) × (a.mark ≡ none)
unfolding dispatch_record_with published_with acknowledge unmarked give_back
marked_after_publish a h = ground arith

is_lost-eq-true : (e : Error) → is_lost e ≡ true → e ≡ lease_lost
is_lost-eq-true lease_lost h = refl
is_lost-eq-true invalid_argument h = cc
is_lost-eq-true storage h = cc

released_once :
    (a : Answers) (e : PublishError)
    → a.publish ≡ some e
    → (dispatch_record_with a).error ≡ none
    → ((a.release ≡ none) × ((dispatch_record_with a).released ≡ some (publish_failure_code e)))
      ⊎ ((a.release ≡ some lease_lost) × ((dispatch_record_with a).released ≡ none))
unfolding dispatch_record_with published_with give_back
released_once a e failed h = elim (Option-cases a.release) [
  | inl done ↦ inl (done, ground (arith, h, failed, done))
  | inr (x, refused) ↦
      let lost : is_lost x ≡ true = ground (arith, h, failed, refused) in
      inr (refused ∙ ap some (is_lost-eq-true x lost), ground (arith, h, failed, refused))
]

-- A record that is dispatched without an error ends in one of three ways: it was published and
-- acknowledged and not given back; or its publish failed, it was not acknowledged, and it was given
-- back with the failure's code; or its publish failed and it was neither acknowledged nor given
-- back, because the store said that the lease was lost.
pub dispatched_once :
    (a : Answers)
    → (dispatch_record_with a).error ≡ none
    → ((a.publish ≡ none)
        × ((dispatch_record_with a).marked ≡ true)
        × ((dispatch_record_with a).released ≡ none))
      ⊎ ((e : PublishError) × (a.publish ≡ some e)
          × ((dispatch_record_with a).marked ≡ false)
          × (((a.release ≡ none)
                × ((dispatch_record_with a).released ≡ some (publish_failure_code e)))
              ⊎ ((a.release ≡ some lease_lost) × ((dispatch_record_with a).released ≡ none))))
unfolding dispatch_record_with published_with acknowledge unmarked give_back
dispatched_once a h = elim (Option-cases a.publish) [
  | inl accepted ↦ inl (accepted, ground (arith, h, accepted), ground (arith, h, accepted))
  | inr (e, failed) ↦ inr (e, failed, ground (arith, h, failed), released_once a e failed h)
]
