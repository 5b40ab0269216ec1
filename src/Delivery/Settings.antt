-- ===== src/Delivery/Settings.antt =====
-- `NewDispatcher` of outbox/dispatcher.go: the defaults, the ranges and the lease's budget. Durations
-- are microseconds and not negative; zero asks for the default.
use go_pulse.Base.{
  ℕ, ◌+◌, ◌-◌, ◌*◌, ◌/◌, Bool, true, ◌&&◌, ◌||◌, List, [], ◌∷◌, length, Result, ok, err, ◌>>=◌,
  ◌==◌, ltb, leb, if◌then◌else◌,
}
use go_pulse.Outbox.Repository.{
  second, default_max_claim_batch, minimum_lease_duration, maximum_lease_duration, valid_owner,
}

pub data Refusal : Type 0 where
  store_required publisher_required bad_owner bad_poll_interval bad_claim_batch bad_lease
        bad_publish too_many_publishers nil_publisher bad_database_timeout short_lease
        bad_cleanup_interval bad_retention bad_cleanup_batch :
      Refusal

-- `DispatcherOptions`; a publisher is whether it is given.
pub record Settings : Type 0 where
  pub has_store : Bool
  pub has_publisher : Bool
  pub publishers : List Bool
  pub database_timeout : ℕ
  pub owner : List ℕ
  pub poll_interval : ℕ
  pub claim_batch : ℕ
  pub lease_duration : ℕ
  pub publish_timeout : ℕ
  pub cleanup_interval : ℕ
  pub retention : ℕ
  pub cleanup_batch : ℕ

pub record Dispatcher : Type 0 where
  pub publishers : ℕ
  pub database_timeout : ℕ
  pub owner : List ℕ
  pub poll_interval : ℕ
  pub claim_batch : ℕ
  pub lease_duration : ℕ
  pub publish_timeout : ℕ
  pub cleanup_interval : ℕ
  pub retention : ℕ
  pub cleanup_batch : ℕ

abbrev pub millisecond : ℕ
millisecond = 1000

abbrev pub hour : ℕ
hour = 3600 * second

abbrev pub day : ℕ
day = 24 * hour

abbrev pub default_poll_interval : ℕ
default_poll_interval = second

abbrev pub minimum_poll_interval : ℕ
minimum_poll_interval = 10 * millisecond

abbrev pub maximum_poll_interval : ℕ
maximum_poll_interval = 60 * second

abbrev pub default_claim_batch : ℕ
default_claim_batch = 50

abbrev pub default_lease : ℕ
default_lease = 300 * second

abbrev pub default_publish : ℕ
default_publish = 5 * second

abbrev pub minimum_publish : ℕ
minimum_publish = 10 * millisecond

abbrev pub maximum_publish : ℕ
maximum_publish = 30 * second

abbrev pub lease_safety_margin : ℕ
lease_safety_margin = second

abbrev pub default_cleanup_interval : ℕ
default_cleanup_interval = hour

abbrev pub minimum_cleanup_interval : ℕ
minimum_cleanup_interval = 60 * second

abbrev pub maximum_cleanup_interval : ℕ
maximum_cleanup_interval = day

abbrev pub default_retention : ℕ
default_retention = 7 * day

abbrev pub minimum_retention : ℕ
minimum_retention = hour

abbrev pub maximum_retention : ℕ
maximum_retention = 365 * day

abbrev pub default_cleanup_batch : ℕ
default_cleanup_batch = 500

abbrev pub or_default : ℕ → ℕ → ℕ
or_default d n = if n == 0 then d else n

-- A guard that refuses a value outside its range.
unfoldable pub within : Refusal → ℕ → ℕ → ℕ → Result Refusal ℕ
within refusal lo hi n = if ltb n lo || ltb hi n then err refusal else ok n

unfoldable pub demand : Refusal → Bool → Result Refusal Bool
demand refusal holds = if holds then ok true else err refusal

abbrev pub all_given : List Bool → Bool
all_given [] = true
all_given (b ∷ bs) = b && all_given bs

-- No publishers stand for the one given alone.
abbrev pub publishers_of : Settings → List Bool
publishers_of s = if length s.publishers == 0 then s.has_publisher ∷ [] else s.publishers

unfoldable pub required_lease : ℕ → ℕ → ℕ → ℕ → ℕ
required_lease batch publishers publish database =
    (batch + publishers - 1) / publishers * publish + (batch + 2) * database + lease_safety_margin

unfoldable pub new_dispatcher : List ℕ → Settings → Result Refusal Dispatcher
unfolding within demand required_lease
new_dispatcher default_owner s = do
  _ ← demand store_required s.has_store
  _ ← demand publisher_required s.has_publisher
  let owner = if length s.owner == 0 then default_owner else s.owner
  _ ← demand bad_owner (valid_owner owner)
  poll ←
      within bad_poll_interval minimum_poll_interval maximum_poll_interval
        (or_default default_poll_interval s.poll_interval)
  batch ←
      within bad_claim_batch 1 default_max_claim_batch
        (or_default default_claim_batch s.claim_batch)
  lease ←
      within bad_lease minimum_lease_duration maximum_lease_duration
        (or_default default_lease s.lease_duration)
  publish ←
      within bad_publish minimum_publish maximum_publish
        (or_default default_publish s.publish_timeout)
  let publishers = publishers_of s
  _ ← demand too_many_publishers (leb (length publishers) 32)
  _ ← demand nil_publisher (all_given publishers)
  database ←
      within bad_database_timeout (10 * millisecond) (30 * second)
        (or_default (2 * second) s.database_timeout)
  _ ← demand short_lease (leb (required_lease batch (length publishers) publish database) lease)
  cleanup ←
      within bad_cleanup_interval minimum_cleanup_interval maximum_cleanup_interval
        (or_default default_cleanup_interval s.cleanup_interval)
  retention ←
      within bad_retention minimum_retention maximum_retention
        (or_default default_retention s.retention)
  cleanup_batch ← within bad_cleanup_batch 1 500 (or_default default_cleanup_batch s.cleanup_batch)
  ok record {
    publishers = length publishers;
    database_timeout = database;
    owner = owner;
    poll_interval = poll;
    claim_batch = batch;
    lease_duration = lease;
    publish_timeout = publish;
    cleanup_interval = cleanup;
    retention = retention;
    cleanup_batch = cleanup_batch;
  }
