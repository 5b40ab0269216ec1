-- ===== src/RateLimit/Lease.antt =====
-- The leases of a process on a shared quota: ratelimit/lease.go, and `SharedLimiter.Allow` of
-- ratelimit/limiter.go over the answers of the script. The costs and leases that cmd/server/protection.go
-- configures are whole, and so are the grants: an amount is the number that its `float64` holds exactly. Times
-- are nanoseconds; what `Validate` finds of a policy comes with a call, an identity is already trimmed.
use go_pulse.Base.{
  ℕ, zero, suc, ◌+◌, ◌-◌, ◌*◌, ◌%◌, Bool, true, false, not, ◌&&◌, ◌||◌, Option, none, some, List,
  [], ◌∷◌, ◌++◌, Result, ok, err, ◌==◌, ltb, leb, if◌then◌else◌, bytes_eq, has, length,
}

-- The fields of a policy that leases read.
pub record Policy : Type 0 where
  pub name : List ℕ
  pub cost : ℕ
  pub lease : ℕ
  pub idle_ttl : ℕ

pub record LeaseEntry : Type 0 where
  pub key : List ℕ
  pub tokens : ℕ
  pub seen : ℕ
  pub ttl : ℕ

pub record LeaseCache : Type 0 where
  pub entries : List LeaseEntry
  pub most : ℕ

unfoldable pub new_lease_cache : ℕ → LeaseCache
new_lease_cache most = record { entries = []; most = if most == 0 then 1 else most }

unfoldable pub lease_key : Policy → List ℕ → List ℕ
lease_key p identity = p.name ++ 0 ∷ identity

-- The map from keys to entries: looking up, storing and deleting.
unfoldable pub find_entry : List ℕ → List LeaseEntry → Option LeaseEntry
find_entry k [] = none
find_entry k (e ∷ es) = if bytes_eq e.key k then some e else find_entry k es

unfoldable pub put_entry : LeaseEntry → List LeaseEntry → List LeaseEntry
put_entry x [] = x ∷ []
put_entry x (e ∷ es) = if bytes_eq e.key x.key then x ∷ es else e ∷ put_entry x es

unfoldable pub delete_entry : List ℕ → List LeaseEntry → List LeaseEntry
delete_entry k [] = []
delete_entry k (e ∷ es) = if bytes_eq e.key k then es else e ∷ delete_entry k es

-- The entry that an iteration over the map meets first, of a given number.
unfoldable pub drop_entry : ℕ → List LeaseEntry → List LeaseEntry
drop_entry n [] = []
drop_entry zero (e ∷ es) = es
drop_entry (suc n) (e ∷ es) = e ∷ drop_entry n es

unfoldable pub leases_none : Policy → Bool
leases_none p = leb p.lease p.cost

unfoldable pub take_found : LeaseCache → Policy → List ℕ → ℕ → Option LeaseEntry → Bool × LeaseCache
take_found c p k now none = (false, c)
take_found c p k now (some e) =
    if ltb 0 e.ttl && leb (e.seen + e.ttl) now
    then (false, record c { entries = delete_entry k c.entries })
    else if ltb e.tokens p.cost
    then (false, c)
    else (
      true,
      record c {
        entries = put_entry (record e { tokens = e.tokens - p.cost; seen = now }) c.entries;
      },
    )

-- `take`
unfoldable pub take_lease_token : LeaseCache → Policy → List ℕ → ℕ → Bool × LeaseCache
unfolding leases_none take_found find_entry lease_key
take_lease_token c p identity now =
    if leases_none p
    then (false, c)
    else (let k = lease_key p identity in take_found c p k now (find_entry k c.entries))

-- The entries among which a new one is stored: one is dropped when they are full, and `victim` says which.
unfoldable pub make_place : LeaseCache → ℕ → List LeaseEntry
unfolding drop_entry
make_place c victim =
    if leb c.most (length c.entries)
    then drop_entry (victim % length c.entries) c.entries
    else c.entries

unfoldable pub add_found :
    LeaseCache → Policy → List ℕ → ℕ → ℕ → ℕ → Option LeaseEntry → List LeaseEntry
unfolding make_place put_entry
add_found c p k now granted victim none =
    put_entry (record { key = k; tokens = granted - p.cost; seen = now; ttl = p.idle_ttl })
      (make_place c victim)
add_found c p k now granted victim (some e) =
    put_entry
      (record e {
        key = k;
        tokens = e.tokens + (granted - p.cost);
        seen = now;
        ttl = if e.ttl == 0 then p.idle_ttl else e.ttl;
      })
      c.entries

-- `add`
unfoldable pub add_granted : LeaseCache → Policy → List ℕ → ℕ → ℕ → ℕ → LeaseCache
unfolding add_found leases_none find_entry lease_key
add_granted c p identity now granted victim =
    if leases_none p || leb granted p.cost
    then c
    else (let k = lease_key p identity in
        record c { entries = add_found c p k now granted victim (find_entry k c.entries) })

-- What the script answers; its codes are 1, 0 and -2.
pub data ScriptAnswer : Type 0 where
  grants : ℕ → ScriptAnswer
  limited key_limited : ℕ → ScriptAnswer

pub data DecisionReason : Type 0 where
  allow_reason rate_limited key_creation_limited : DecisionReason

pub record Decision : Type 0 where
  pub allowed : Bool
  pub retry_after : ℕ
  pub reason : DecisionReason

pub data LimitError : Type 0 where
  invalid_policy unavailable : LimitError

abbrev pub millisecond : ℕ
millisecond = 1000000

-- At least a millisecond.
abbrev pub retry_of : ℕ → ℕ
retry_of retry = if retry == 0 then millisecond else retry * millisecond

abbrev pub valid_identity : List ℕ → Bool
valid_identity i =
    not (length i == 0 || ltb 128 (length i))
    && (not (has i 13) && (not (has i 10) && (not (has i 9) && not (has i 32))))

-- The second half of `Allow`, from the script's answer on; none if it could not be asked.
unfoldable pub decide_shared :
    LeaseCache
    → Policy
    → List ℕ
    → ℕ
    → ℕ
    → Option ScriptAnswer
    → LeaseCache × Result LimitError Decision
unfolding add_granted
decide_shared c p identity now victim none = (c, err unavailable)
decide_shared c p identity now victim (some (grants granted)) = (
  add_granted c p identity now granted victim,
  ok (record { allowed = true; retry_after = 0; reason = allow_reason }),
)
decide_shared c p identity now victim (some (limited retry)) =
    (c, ok (record { allowed = false; retry_after = retry_of retry; reason = rate_limited }))
decide_shared c p identity now victim (some (key_limited retry)) = (
  c,
  ok (record { allowed = false; retry_after = retry_of retry; reason = key_creation_limited }),
)

abbrev pub allow_taken :
    Policy
    → List ℕ
    → ℕ
    → ℕ
    → Option ScriptAnswer
    → Bool × LeaseCache
    → LeaseCache × Result LimitError Decision
allow_taken p identity later victim answer (true, c) =
    (c, ok (record { allowed = true; retry_after = 0; reason = allow_reason }))
allow_taken p identity later victim answer (false, c) =
    decide_shared c p identity later victim answer

-- `Allow` of one request alone; `later` is the clock after the script has answered.
unfoldable pub allow :
    LeaseCache
    → Bool
    → Policy
    → List ℕ
    → ℕ
    → ℕ
    → ℕ
    → Option ScriptAnswer
    → LeaseCache × Result LimitError Decision
unfolding take_lease_token decide_shared
allow c valid p identity now later victim answer =
    if not (valid && valid_identity identity)
    then (c, err invalid_policy)
    else allow_taken p identity later victim answer (take_lease_token c p identity now)
