-- ===== src/Retention/Policy.antt =====
-- Which indices and timestamps are expired: retention/policy.go. An instant is the nanoseconds since the
-- first year in UTC, a date is the instant at which its day begins, a text is the list of its bytes.
use go_pulse.Base.{
  ℕ, ◌-◌, ◌*◌, ◌%◌, ◌<◌, ◌≡◌, Bool, true, false, not, ◌&&◌, ◌||◌, Option, none, some, List, [], ◌∷◌,
  ◌++◌, Result, ok, err, ◌==◌, ltb, leb, if◌then◌else◌, length, bytes_eq,
}

pub data Stream : Type 0 where
  logs events : Stream

-- `Policy`, without the indices that need no marker.
pub record Policy : Type 0 where
  pub stream : Stream
  pub prefix : List ℕ
  pub alias : List ℕ
  pub retention_days : ℕ
  pub min_days : ℕ
  pub max_days : ℕ

abbrev pub lowest_days : ℕ
lowest_days = 1

abbrev pub highest_days : ℕ
highest_days = 90

abbrev pub day : ℕ
day = 86400000000000

-- The text of a date in the layout "2006.01.02", and its reading. The dates are those before `last_date`, the
-- end of year 9999.
pub record Calendar : Type 0 where
  pub format : ℕ → List ℕ
  pub parse : List ℕ → Option ℕ
  pub last_date : ℕ
  pub length_format : (d : ℕ) → d < last_date → d % day ≡ 0 → length (format d) ≡ 10
  pub parse_format : (d : ℕ) → d < last_date → d % day ≡ 0 → parse (format d) ≡ some d

-- "gopulse-logs-v1-"
abbrev pub log_prefix : List ℕ
log_prefix =
    103 ∷ 111 ∷ 112 ∷ 117 ∷ 108 ∷ 115 ∷ 101 ∷ 45 ∷ 108 ∷ 111 ∷ 103 ∷ 115 ∷ 45 ∷ 118 ∷ 49 ∷ 45 ∷ []

-- "gopulse-logs-v1-read"
abbrev pub log_alias : List ℕ
log_alias =
    103 ∷ 111 ∷ 112 ∷ 117 ∷ 108 ∷ 115 ∷ 101 ∷ 45 ∷ 108 ∷ 111 ∷ 103 ∷ 115 ∷ 45 ∷ 118 ∷ 49 ∷ 45 ∷ 114
    ∷ 101 ∷ 97 ∷ 100 ∷ []

-- "gopulse-events-v1-"
abbrev pub event_prefix : List ℕ
event_prefix =
    103 ∷ 111 ∷ 112 ∷ 117 ∷ 108 ∷ 115 ∷ 101 ∷ 45 ∷ 101 ∷ 118 ∷ 101 ∷ 110 ∷ 116 ∷ 115 ∷ 45 ∷ 118 ∷ 49
    ∷ 45 ∷ []

-- "gopulse-events-v1-read"
abbrev pub event_alias : List ℕ
event_alias =
    103 ∷ 111 ∷ 112 ∷ 117 ∷ 108 ∷ 115 ∷ 101 ∷ 45 ∷ 101 ∷ 118 ∷ 101 ∷ 110 ∷ 116 ∷ 115 ∷ 45 ∷ 118 ∷ 49
    ∷ 45 ∷ 114 ∷ 101 ∷ 97 ∷ 100 ∷ []

abbrev pub prefix_of : Stream → List ℕ
prefix_of logs = log_prefix
prefix_of events = event_prefix

abbrev pub alias_of : Stream → List ℕ
alias_of logs = log_alias
alias_of events = event_alias

-- `Validate`
unfoldable pub validate : Policy → Bool
validate p =
    not (length p.prefix == 0 || length p.alias == 0)
    && ((leb p.min_days p.retention_days && leb p.retention_days p.max_days)
        && ((leb lowest_days p.min_days
              && (leb p.max_days highest_days && leb p.min_days p.max_days))
            && (bytes_eq p.prefix (prefix_of p.stream) && bytes_eq p.alias (alias_of p.stream))))

-- `UTCDate`
unfoldable pub utc_date : ℕ → ℕ
utc_date t = t - t % day

-- `Cutoff`, for instants after the first ninety days of the first year.
unfoldable pub cutoff : Policy → ℕ → ℕ
unfolding utc_date
cutoff p now = utc_date now - (p.retention_days - 1) * day

-- `strings.TrimPrefix`, none without the prefix.
unfoldable pub trim_prefix : List ℕ → List ℕ → Option (List ℕ)
trim_prefix [] text = some text
trim_prefix (c ∷ prefix) [] = none
trim_prefix (c ∷ prefix) (d ∷ text) = if c == d then trim_prefix prefix text else none

abbrev pub has_prefix : List ℕ → List ℕ → Bool
has_prefix prefix text = elim (trim_prefix prefix text) [ none ↦ false | some rest ↦ true ]

pub data DateError : Type 0 where
  other_prefix bad_length bad_date : DateError

pub data DecisionReason : Type 0 where
  not_owned invalid_date expired not_expired : DecisionReason

pub record Decision : Type 0 where
  pub index_date : Option ℕ
  pub eligible : Bool
  pub reason : DecisionReason

module _ (calendar : Calendar) where
  open calendar use {format, parse}

  abbrev pub canonical : List ℕ → Option ℕ → Result DateError ℕ
  canonical suffix none = err bad_date
  canonical suffix (some d) = if bytes_eq (format d) suffix then ok d else err bad_date

  abbrev pub suffix_date : Option (List ℕ) → Result DateError ℕ
  suffix_date none = err other_prefix
  suffix_date (some suffix) =
      if not (length suffix == 10) then err bad_length else canonical suffix (parse suffix)

  -- `ParseIndexDate`
  unfoldable pub parse_index_date : List ℕ → Policy → Result DateError ℕ
  unfolding trim_prefix
  parse_index_date index p = suffix_date (trim_prefix p.prefix index)

  abbrev pub decide : ℕ → Bool → Result DateError ℕ → Decision
  decide from owned (err e) = record {
    index_date = none;
    eligible = false;
    reason = if owned then invalid_date else not_owned;
  }
  decide from owned (ok date) =
      if ltb date from
      then record { index_date = some date; eligible = true; reason = expired }
      else record { index_date = some date; eligible = false; reason = not_expired }

  -- `Classify`
  unfoldable pub classify : Policy → List ℕ → ℕ → Decision
  unfolding parse_index_date cutoff
  classify p index now =
      decide (cutoff p now) (has_prefix p.prefix index) (parse_index_date index p)

  -- `IndexDate`, and the name of the index that a record is written to.
  unfoldable pub index_date_of : ℕ → List ℕ
  unfolding utc_date
  index_date_of timestamp = format (utc_date timestamp)

  abbrev pub index_of : Policy → ℕ → List ℕ
  index_of p timestamp = p.prefix ++ index_date_of timestamp

-- `ExpiredTimestamp`
unfoldable pub expired_timestamp : Policy → ℕ → ℕ → Bool
unfolding cutoff
expired_timestamp p timestamp now = ltb (utc_date timestamp) (cutoff p now)

pub data TimestampError : Type 0 where
  timestamp_required outside_retention : TimestampError

-- `ValidateTimestamp`
unfoldable pub validate_timestamp : Policy → ℕ → ℕ → Result TimestampError Bool
unfolding expired_timestamp
validate_timestamp p timestamp now =
    if timestamp == 0
    then err timestamp_required
    else if expired_timestamp p timestamp now
    then err outside_retention
    else ok true
