-- ===== src/Delivery/Lease.antt =====
-- What `NewDispatcher` of outbox/dispatcher.go guarantees of the dispatcher it returns.
use native.Mathlib.Nat.{le-div_iff_mul-le, div-mul-le_self, mul-le-mul_right}
use go_pulse.Base.{
  ℕ, ◌+◌, ◌-◌, ◌*◌, ◌/◌, ◌≤◌, ◌<◌, ◌≡◌, refl, subst, Bool, true, false, ◌||◌, List, length, Result,
  ok, err, ◌>>=◌, ◌==◌, ltb, leb, if◌then◌else◌, arith, inl, inr, Bool-cases, leb→le,
}
use go_pulse.Outbox.Repository.{
  second, default_max_claim_batch, minimum_lease_duration, maximum_lease_duration, valid_owner,
}
use go_pulse.Delivery.Settings.{
  Refusal, Settings, Dispatcher, lease_safety_margin, within, demand, required_lease, publishers_of,
  new_dispatcher, all_given, millisecond, hour, day, or_default, store_required, publisher_required,
  bad_owner, bad_poll_interval, bad_claim_batch, bad_lease, bad_publish, too_many_publishers,
  nil_publisher, bad_database_timeout, short_lease, bad_cleanup_interval, bad_retention,
  bad_cleanup_batch,
}

after_demand :
    {A P : Type 0} (r : Refusal) (b : Bool) (f : Bool → Result Refusal A) {a : A}
    → (demand r b >>= f) ≡ ok a
    → (b ≡ true → f true ≡ ok a → P)
    → P
unfolding demand
after_demand r true f h k = k refl h
after_demand r false f h k = absurd (cc)

refused : {A : Type 0} (r : Refusal) (f : ℕ → Result Refusal A) {a : A} → (err r >>= f) ≡ ok a → ⊥
refused r f e = cc

after_within :
    {A P : Type 0} (r : Refusal) (lo hi n : ℕ) (f : ℕ → Result Refusal A) {a : A}
    → (within r lo hi n >>= f) ≡ ok a
    → (lo ≤ n → n ≤ hi → f n ≡ ok a → P)
    → P
unfolding within
after_within r lo hi n f h k = elim (Bool-cases (ltb n lo || ltb hi n)) [
  | inl out ↦ absurd (refused r f (rw out at h))
  | inr fits ↦ k (ground (arith, fits)) (ground (arith, fits)) (rw fits at h)
]

-- What the checks say of the dispatcher that is returned.
pub record Accepted (d : Dispatcher) : Type 0 where
  pub some_publisher : 1 ≤ d.publishers
  pub few_publishers : d.publishers ≤ 32
  pub owner : valid_owner d.owner ≡ true
  pub batch : (1 ≤ d.claim_batch) × (d.claim_batch ≤ default_max_claim_batch)
  pub lease :
      (minimum_lease_duration ≤ d.lease_duration) × (d.lease_duration ≤ maximum_lease_duration)
  pub budget :
      required_lease d.claim_batch d.publishers d.publish_timeout d.database_timeout
      ≤ d.lease_duration

publishers_of-length : (s : Settings) → 1 ≤ length (publishers_of s)
publishers_of-length s = ground arith

ok-dispatcher : {d e : Dispatcher} → ◌≡◌ {A = Result Refusal Dispatcher} (ok d) (ok e) → d ≡ e
ok-dispatcher h = cc

pub new_dispatcher-Accepted :
    (default_owner : List ℕ) (s : Settings) (d : Dispatcher)
    → new_dispatcher default_owner s ≡ ok d
    → Accepted d
unfolding new_dispatcher
new_dispatcher-Accepted default_owner s d h = after_demand store_required s.has_store _ h λ _ h.
    after_demand publisher_required s.has_publisher _ h λ _ h.
      after_demand bad_owner (valid_owner (if length s.owner == 0 then default_owner else s.owner))
        _ h
        λ owner h.
          after_within bad_poll_interval (10 * millisecond) (60 * second)
            (or_default second s.poll_interval) _ h
            λ _ _ h.
              after_within bad_claim_batch 1 default_max_claim_batch (or_default 50 s.claim_batch) _
                h
                λ batch_lo batch_hi h.
                  after_within bad_lease minimum_lease_duration maximum_lease_duration
                    (or_default (300 * second) s.lease_duration) _ h
                    λ lease_lo lease_hi h.
                      after_within bad_publish (10 * millisecond) (30 * second)
                        (or_default (5 * second) s.publish_timeout) _ h
                        λ _ _ h.
                          after_demand too_many_publishers (leb (length (publishers_of s)) 32) _ h
                            λ few h.
                              after_demand nil_publisher (all_given (publishers_of s)) _ h λ _ h.
                                after_within bad_database_timeout (10 * millisecond) (30 * second)
                                  (or_default (2 * second) s.database_timeout) _ h
                                  λ _ _ h.
                                    after_demand short_lease
                                      (leb
                                        (required_lease (or_default 50 s.claim_batch)
                                          (length (publishers_of s))
                                          (or_default (5 * second) s.publish_timeout)
                                          (or_default (2 * second) s.database_timeout))
                                        (or_default (300 * second) s.lease_duration))
                                      _ h
                                      λ budget h.
                                        after_within bad_cleanup_interval (60 * second) day
                                          (or_default hour s.cleanup_interval) _ h
                                          λ _ _ h.
                                            after_within bad_retention hour (365 * day)
                                              (or_default (7 * day) s.retention) _ h
                                              λ _ _ h.
                                                after_within bad_cleanup_batch 1 500
                                                  (or_default 500 s.cleanup_batch) _ h
                                                  λ _ _ h. subst Accepted (ok-dispatcher h) record {
                                                    some_publisher = publishers_of-length s;
                                                    few_publishers =
                                                        leb→le (length (publishers_of s)) 32 few;
                                                    owner = owner;
                                                    batch = (batch_lo, batch_hi);
                                                    lease = (lease_lo, lease_hi);
                                                    budget = leb→le _ _ budget;
                                                  }

distributes : (q n : ℕ) → (q + 1) * n ≡ q * n + n
distributes q n = ground arith

-- A dispatcher is only built with a publisher, a batch of at most fifty and a lease long enough for the
-- batch: where each publish takes its full timeout and the publishers take the records in turn, the
-- time until record number `k` of the batch is published, `claim_batch + 2` statements of the
-- database's full timeout and the safety margin together fit in the lease.
pub lease_covers_batch :
    (default_owner : List ℕ) (s : Settings) (d : Dispatcher) (k : ℕ)
    → new_dispatcher default_owner s ≡ ok d
    → k < d.claim_batch
    → (1 ≤ d.publishers)
      × (d.claim_batch ≤ default_max_claim_batch)
      × ((k / d.publishers + 1) * d.publish_timeout
            + (d.claim_batch + 2) * d.database_timeout
            + lease_safety_margin
          ≤ d.lease_duration)
unfolding required_lease
lease_covers_batch default_owner s d k h small =
    let a = new_dispatcher-Accepted default_owner s d h in
    let n = d.publishers in
    let whole : (k / n + 1) * n ≤ d.claim_batch + n - 1 =
      omega (arith, div-mul-le_self k n, a.some_publisher, small, distributes (k / n) n) in
    let rounds =
      (le-div_iff_mul-le {x = k / n + 1} {y = d.claim_batch + n - 1} a.some_publisher).1 whole in
    let time = mul-le-mul_right d.publish_timeout rounds in
    (a.some_publisher, a.batch.1, omega (arith, time, a.budget))
