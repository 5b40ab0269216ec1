-- ===== src/Examples/Delivery.antt =====
-- The dispatcher at concrete inputs: a single batch of two records, and an accepted configuration.
use go_pulse.Base.{◌+◌, ◌*◌, ◌/◌, ◌≤◌, ◌≡◌, refl, true, false, none, some, [], ◌∷◌, ok, arith, ◌⊎◌}
use go_pulse.Outbox.Repository.{lease_lost, second, default_max_claim_batch, valid_owner}
use go_pulse.Delivery.Loop.{Options, Loop, start, pass}
use go_pulse.Delivery.Bounds.{Bounded}
use go_pulse.Delivery.Workers.{claimed, Reach, started, then_, Reach-Bounded}
use go_pulse.Delivery.Settings.{Settings, Dispatcher, new_dispatcher, lease_safety_margin}
use go_pulse.Delivery.Lease.{lease_covers_batch}
use go_pulse.Delivery.Publish.{
  Answers, PublishError, deadline, dispatch_record_with, publish_failure_code, marked_after_publish,
  dispatched_once,
}

abbrev always : Options
always = record { claim_batch = 2; poll_interval = second; continuous = true }

-- After a claim that returned one record.
abbrev one_claimed : Loop
one_claimed = record (start 0) {
  in_flight = 1;
  first_claim = false;
  next_claim_at = second;
  timer = some second;
}

one_claimed-Reach : Reach always (one_claimed, 7 ∷ [])
unfolding pass
one_claimed-Reach =
    then_ (started 0)
      (claimed (start 0) one_claimed [] (7 ∷ []) 0 0 (λ n. 0) (λ n. ok (7 ∷ [])) refl refl)

Reach-Bounded_example : Bounded always 1 one_claimed
Reach-Bounded_example = Reach-Bounded always (one_claimed, 7 ∷ []) one_claimed-Reach

abbrev settings : Settings
settings = record {
  has_store = true;
  has_publisher = true;
  publishers = [];
  database_timeout = 0;
  owner = 97 ∷ [];
  poll_interval = 0;
  claim_batch = 10;
  lease_duration = 0;
  publish_timeout = 0;
  cleanup_interval = 0;
  retention = 0;
  cleanup_batch = 0;
}

abbrev dispatcher : Dispatcher
dispatcher = record {
  publishers = 1;
  database_timeout = 2 * second;
  owner = 97 ∷ [];
  poll_interval = second;
  claim_batch = 10;
  lease_duration = 300 * second;
  publish_timeout = 5 * second;
  cleanup_interval = 3600 * second;
  retention = 604800 * second;
  cleanup_batch = 500;
}

lease_covers_batch_example :
    (1 ≤ 1)
    × (10 ≤ default_max_claim_batch)
    × ((9 / 1 + 1) * (5 * second) + (10 + 2) * (2 * second) + lease_safety_margin ≤ 300 * second)
unfolding new_dispatcher valid_owner
lease_covers_batch_example = lease_covers_batch [] settings dispatcher 9 refl (omega arith)

abbrev good : Answers
good = record {
  decodes = true;
  publish = none;
  done_after_publish = false;
  mark = none;
  done_after_mark = false;
  done_at_release = false;
  release = none;
}

marked_after_publish_example : (true ≡ true) × (good.publish ≡ none) × (good.mark ≡ none)
unfolding dispatch_record_with
marked_after_publish_example = marked_after_publish good refl

abbrev timed_out : Answers
timed_out = record good { publish = some deadline }

dispatched_once_example :
    ((timed_out.publish ≡ none)
      × ((dispatch_record_with timed_out).marked ≡ true)
      × ((dispatch_record_with timed_out).released ≡ none))
    ⊎ ((e : PublishError) × (some deadline ≡ some e)
        × ((dispatch_record_with timed_out).marked ≡ false)
        × (((timed_out.release ≡ none)
              × ((dispatch_record_with timed_out).released ≡ some (publish_failure_code e)))
            ⊎ ((timed_out.release ≡ some lease_lost)
                × ((dispatch_record_with timed_out).released ≡ none))))
unfolding dispatch_record_with
dispatched_once_example = dispatched_once timed_out refl
