-- ===== src/Retention/Agreement.antt =====
-- The clean-up of indices and the acceptance of records agree on what is expired (retention/policy.go).
use go_pulse.Base.{
  ℕ, ◌+◌, ◌/◌, ◌%◌, ◌≤◌, ◌<◌, ◌≡◌, ◌↔◌, refl, true, some, List, [], ◌∷◌, ◌++◌, ok, ltb,
  bytes_eq_refl, arith,
}
use go_pulse.Retention.Policy.{
  Policy, Calendar, day, utc_date, cutoff, trim_prefix, has_prefix, parse_index_date, decide,
  classify, index_date_of, index_of, expired_timestamp,
}

trim_prefix-append : (prefix text : List ℕ) → trim_prefix prefix (prefix ++ text) ≡ some text
unfolding trim_prefix
trim_prefix-append [] text = refl
trim_prefix-append (c ∷ prefix) text = ground (arith, trim_prefix-append prefix text)

utc_date_whole : (t : ℕ) → utc_date t % day ≡ 0
unfolding utc_date
utc_date_whole t = omega arith

utc_date_small : (t : ℕ) → utc_date t ≤ t
unfolding utc_date
utc_date_small t = omega arith

-- In days: a date is before the cutoff when it is at least as many days back as are kept.
before_cutoff :
    (p : Policy) (timestamp now : ℕ)
    → 1 ≤ p.retention_days
    → (expired_timestamp p timestamp now ≡ true) ↔ (timestamp / day + p.retention_days ≤ now / day)
unfolding expired_timestamp cutoff utc_date
before_cutoff p timestamp now h = ground arith

module _ (calendar : Calendar) where
  open calendar use {last_date}

  index_of_date :
      (p : Policy) (timestamp : ℕ)
      → timestamp < last_date
      → parse_index_date calendar (index_of calendar p timestamp) p ≡ ok (utc_date timestamp)
  unfolding parse_index_date index_date_of
  index_of_date p timestamp h =
      let small : utc_date timestamp < last_date = omega (arith, utc_date_small timestamp) in
      let ten = calendar.length_format (utc_date timestamp) small (utc_date_whole timestamp) in
      let back = calendar.parse_format (utc_date timestamp) small (utc_date_whole timestamp) in
      rw
        (
          trim_prefix-append p.prefix (calendar.format (utc_date timestamp)),
          ten,
          back,
          bytes_eq_refl (calendar.format (utc_date timestamp)),
        )
        refl

  -- The index that a record of a timestamp before the year 10000 is written to may be deleted at an instant
  -- exactly if the record would then be refused as expired, and that is when at least as many days as
  -- are kept have begun since the day of the timestamp.
  pub classify-index_of :
      (p : Policy) (timestamp now : ℕ)
      → timestamp < last_date
      → 1 ≤ p.retention_days
      → ((classify calendar p (index_of calendar p timestamp) now).eligible
          ≡ expired_timestamp p timestamp now)
        × ((expired_timestamp p timestamp now ≡ true)
            ↔ (timestamp / day + p.retention_days ≤ now / day))
  unfolding classify expired_timestamp
  classify-index_of p timestamp now h kept = (
    rw (index_of_date p timestamp h) (decided (utc_date timestamp) (cutoff p now)),
    before_cutoff p timestamp now kept,
  )
    where
      decided :
          (d from : ℕ)
          → (decide calendar from
              (has_prefix p.prefix (index_of calendar p timestamp))
              (ok d)).eligible
            ≡ ltb d from
      decided d from = ground arith
