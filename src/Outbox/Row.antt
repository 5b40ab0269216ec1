-- ===== src/Outbox/Row.antt =====
-- The rows of `business_outbox` (outbox/model.go, and the statements of outbox/repository.go that
-- read and write them). Times are microseconds; a text is the list of its bytes; NULL is `none`.
use go_pulse.Base.{
  ℕ, suc, Bool, true, false, not, ◌&&◌, ◌||◌, Option, none, some, List, [], ◌∷◌, ◌==◌, ltb, leb,
  if◌then◌else◌, has, bytes_eq, take, keep,
}

pub data Status : Type 0 where
  pending leased published : Status

pub data FailureCode : Type 0 where
  publish_unavailable publish_timeout publish_nack publish_unroutable publisher_closed internal :
      FailureCode

pub record Row : Type 0 where
  pub id : ℕ
  pub event_id : List ℕ
  pub payload : List ℕ
  pub status : Status
  pub available_at : ℕ
  pub attempt_count : ℕ
  pub lease_owner : Option (List ℕ)
  pub lease_expires_at : Option ℕ
  pub published_at : Option ℕ
  pub last_error : Option FailureCode
  pub updated_at : ℕ

abbrev pub is_pending : Status → Bool
is_pending pending = true
is_pending _ = false

abbrev pub is_leased : Status → Bool
is_leased leased = true
is_leased _ = false

-- SQL comparisons: NULL compares as false.
abbrev pub owned_by : List ℕ → Option (List ℕ) → Bool
owned_by owner none = false
owned_by owner (some o) = bytes_eq o owner

abbrev pub after : ℕ → Option ℕ → Bool
after now none = false
after now (some t) = ltb now t

abbrev pub until : ℕ → Option ℕ → Bool
until now none = false
until now (some t) = leb t now

-- `status = 'leased' AND lease_owner = ? AND lease_expires_at > ?`
unfoldable pub holds_lease : List ℕ → ℕ → Row → Bool
holds_lease owner now r =
    is_leased r.status && (owned_by owner r.lease_owner && after now r.lease_expires_at)

-- `UPDATE … SET … WHERE …`
unfoldable pub update_row : (Row → Bool) → (Row → Row) → Row → Row
update_row p f r = if p r then f r else r

unfoldable pub update_rows : (Row → Bool) → (Row → Row) → List Row → List Row
unfolding update_row
update_rows p f [] = []
update_rows p f (r ∷ rs) = update_row p f r ∷ update_rows p f rs

-- How many rows a statement matches.
unfoldable pub matches : (Row → Bool) → List Row → ℕ
matches p [] = 0
matches p (r ∷ rs) = let rest = matches p rs in if p r then suc rest else rest

-- The two scans of `Claim`: rows that became available, and rows whose lease ran out.
pub data Branch : Type 0 where
  available expired : Branch

unfoldable pub claimable : Branch → ℕ → List ℕ → Row → Bool
claimable available now locked r =
    is_pending r.status && (leb r.available_at now && not (has locked r.id))
claimable expired now locked r =
    is_leased r.status && (until now r.lease_expires_at && not (has locked r.id))

abbrev pub or_zero : Option ℕ → ℕ
or_zero none = 0
or_zero (some n) = n

abbrev pub order_key : Branch → Row → ℕ
order_key available r = r.available_at
order_key expired r = or_zero r.lease_expires_at

-- `ORDER BY … , id`
abbrev pub precedes : Branch → Row → Row → Bool
precedes b r s =
    ltb (order_key b r) (order_key b s) || (order_key b r == order_key b s && leb r.id s.id)

unfoldable pub insert_row : Branch → Row → List Row → List Row
insert_row b r [] = r ∷ []
insert_row b r (s ∷ rs) = if precedes b r s then r ∷ s ∷ rs else s ∷ insert_row b r rs

unfoldable pub sort_rows : Branch → List Row → List Row
unfolding insert_row
sort_rows b [] = []
sort_rows b (r ∷ rs) = insert_row b r (sort_rows b rs)

-- `SELECT … ORDER BY … LIMIT ? FOR UPDATE SKIP LOCKED`; `locked` are the rows that other
-- transactions hold.
unfoldable pub select : Branch → ℕ → List ℕ → ℕ → List Row → List Row
unfolding claimable sort_rows
select b now locked limit rs = take limit (sort_rows b (keep (claimable b now locked) rs))
