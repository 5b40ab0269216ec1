-- ===== src/Examples/Retention.antt =====
-- A round of the clean-up at concrete inputs, over ten days whose texts have ten bytes.
use go_pulse.Base.{
  ℕ, zero, suc, bytes_eq, ◌+◌, ◌*◌, ◌/◌, ◌%◌, ◌≤◌, ◌<◌, ◌≡◌, ◌↔◌, refl, ap, true, false, Option,
  none, some, List, [], ◌∷◌, ok, err, length, All, arith,
}
use go_pulse.Retention.Policy.{
  logs, events, Policy, Calendar, day, classify, index_of, expired_timestamp,
}
use go_pulse.Retention.Runner.{
  http, unowned, kept, deleted, inspects, blocks, deletes, identifies, lists, Turn, Visit, Config,
  Round, run_once,
}
use go_pulse.Retention.Agreement.{classify-index_of}
use go_pulse.Retention.Deletes.{Justified, DueThen, run_once-Justified}
use go_pulse.Retention.Budget.{is_unknown, run_once_bounded}

write : ℕ → List ℕ
write d = 48 ∷ 48 ∷ 48 ∷ 48 ∷ 48 ∷ 48 ∷ 48 ∷ 48 ∷ 48 ∷ (d / day) ∷ []

read : List ℕ → Option ℕ
read (_ ∷ _ ∷ _ ∷ _ ∷ _ ∷ _ ∷ _ ∷ _ ∷ _ ∷ d ∷ []) = some (d * day)
read _ = none

ten_days : Calendar
unfolding write read
ten_days = record {
  format = write;
  parse = read;
  last_date = 10 * day;
  length_format = λ d h k. refl;
  parse_format = λ d h k. ap some (whole d k);
}
  where
    whole : (d : ℕ) → d % day ≡ 0 → d / day * day ≡ d
    whole d k = omega arith

abbrev log_policy : Policy
log_policy = record {
  stream = logs;
  prefix = 108 ∷ [];
  alias = 97 ∷ [];
  retention_days = 2;
  min_days = 1;
  max_days = 90;
}

abbrev event_policy : Policy
event_policy = record {
  stream = events;
  prefix = 101 ∷ [];
  alias = 98 ∷ [];
  retention_days = 3;
  min_days = 1;
  max_days = 90;
}

abbrev config : Config
config = record {
  log_policy = log_policy;
  event_policy = event_policy;
  batch_indices = 2;
  max_retries = 1;
}

within_reach : 3 * day + 5 < 10 * day
within_reach = omega arith

classify-index_of_example :
    ((classify ten_days log_policy (index_of ten_days log_policy (3 * day + 5)) (5 * day)).eligible
      ≡ expired_timestamp log_policy (3 * day + 5) (5 * day))
    × ((expired_timestamp log_policy (3 * day + 5) (5 * day) ≡ true)
        ↔ ((3 * day + 5) / day + 2 ≤ 5 * day / day))
unfolding ten_days
classify-index_of_example =
    classify-index_of ten_days log_policy (3 * day + 5) (5 * day) within_reach (omega arith)

-- The first attempt fails with a timeout, the second deletes.
abbrev turns : ℕ → Turn
turns zero = record {
  over = false;
  first = err (http 408);
  block = none;
  second = ok true;
  removal = none;
  slept = true;
}
turns (suc n) = record {
  over = false;
  first = ok true;
  block = none;
  second = ok true;
  removal = none;
  slept = true;
}

abbrev visits : List ℕ → Visit
visits index = record { over = false; now = 5 * day + 7; turns = turns }

abbrev old_index : List ℕ
old_index = 108 ∷ 48 ∷ 48 ∷ 48 ∷ 48 ∷ 48 ∷ 48 ∷ 48 ∷ 48 ∷ 48 ∷ 2 ∷ []

abbrev new_index : List ℕ
new_index = 101 ∷ 48 ∷ 48 ∷ 48 ∷ 48 ∷ 48 ∷ 48 ∷ 48 ∷ 48 ∷ 48 ∷ 4 ∷ []

abbrev after : Round
after = record {
  items =
      (record { stream = logs; index = old_index; result = deleted })
      ∷ (record { stream = logs; index = new_index; result = unowned })
      ∷ (record { stream = events; index = new_index; result = kept })
      ∷ [];
  remaining = 1;
  requests =
      deletes old_index none
      ∷ inspects old_index (ok true)
      ∷ blocks old_index none
      ∷ inspects old_index (ok true)
      ∷ inspects old_index (err (http 408))
      ∷ lists (old_index ∷ new_index ∷ [])
      ∷ identifies (1 ∷ [])
      ∷ [];
}

after_run :
    run_once ten_days config none (some (1 ∷ [])) (some (old_index ∷ new_index ∷ [])) visits visits
    ≡ (some (1 ∷ []), ok after)
unfolding ten_days run_once bytes_eq
after_run = refl

run_once-Justified_example : Justified (DueThen ten_days config visits visits) after.requests
run_once-Justified_example =
    run_once-Justified ten_days config none (some (1 ∷ [])) (some (old_index ∷ new_index ∷ []))
      visits visits (some (1 ∷ [])) after after_run

run_once_bounded_example :
    (length after.requests ≤ 2 + 4 * (1 + 1) * 2)
    × All (λ i. is_unknown i.result ≡ false) after.items
run_once_bounded_example =
    run_once_bounded ten_days config none (some (1 ∷ [])) (some (old_index ∷ new_index ∷ [])) visits
      visits (some (1 ∷ [])) after after_run
