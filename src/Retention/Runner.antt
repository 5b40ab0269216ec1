-- ===== src/Retention/Runner.antt =====
-- A round of the clean-up: `RunOnce`, `remove` and `backoff` of retention/runner.go, over the errors of
-- retention/elasticsearch.go. What the store answers, whether the round is over and what the clock reads come
-- with each visit of an index; the calls of the store are logged, the newest first.
use go_pulse.Base.{
  ℕ, zero, suc, ◌-◌, Bool, true, false, not, ◌||◌, Option, none, some, List, [], ◌∷◌, ◌++◌, Result,
  ok, err, ◌==◌, leb, if◌then◌else◌, bytes_eq,
}
use go_pulse.Retention.Policy.{
  Stream, logs, events, Policy, Calendar, has_prefix, DecisionReason, not_owned, invalid_date,
  expired, not_expired, classify,
}

-- `HTTPError`, and any other error.
pub data Failure : Type 0 where
  http : ℕ → Failure
  other : Failure

unfoldable pub is_not_found : Failure → Bool
is_not_found (http status) = status == 404
is_not_found other = false

unfoldable pub is_permission_denied : Failure → Bool
is_permission_denied (http status) = status == 403 || status == 401
is_permission_denied other = false

unfoldable pub is_transient : Failure → Bool
is_transient (http status) = status == 408 || (status == 429 || leb 500 status)
is_transient other = true

-- A call of the store and its answer: whether an inspected index is owned, none for success; the cluster
-- and the names of its indices.
pub data Request : Type 0 where
  inspects : List ℕ → Result Failure Bool → Request
  blocks : List ℕ → Option Failure → Request
  deletes : List ℕ → Option Failure → Request
  identifies : List ℕ → Request
  lists : List (List ℕ) → Request

-- The results of the source; `unowned`, `misnamed` and `kept` are its "not_owned", "invalid_date" and
-- "not_expired".
pub data ItemResult : Type 0 where
  unknown deleted not_found permission_denied transient budget_exhausted unowned misnamed kept :
      ItemResult

-- `ItemReport`, without the text of the error, the count of attempts and the duration.
pub record ItemReport : Type 0 where
  pub stream : Stream
  pub index : List ℕ
  pub result : ItemResult

-- What comes with an attempt of `remove`; `slept` is whether the backoff after it ends before the round.
pub record Turn : Type 0 where
  pub over : Bool
  pub first : Result Failure Bool
  pub block : Option Failure
  pub second : Result Failure Bool
  pub removal : Option Failure
  pub slept : Bool

-- How an attempt ends: with a result, or with another attempt.
pub data Attempt : Type 0 where
  ends : ItemResult → Attempt
  again : Attempt

-- The treatment of an error that all requests but the second inspection share.
unfoldable pub on_failure : Failure → Bool → Bool → Attempt
unfolding is_permission_denied is_transient
on_failure f last slept =
    if is_permission_denied f
    then ends permission_denied
    else if not (is_transient f) || last
    then ends transient
    else if not slept
    then ends budget_exhausted
    else again

unfoldable pub after_delete : Option Failure → Bool → Bool → Attempt
unfolding on_failure is_not_found
after_delete none last slept = ends deleted
after_delete (some f) last slept =
    if is_not_found f then ends not_found else on_failure f last slept

unfoldable pub after_second :
    List ℕ → Turn → Bool → Result Failure Bool → List Request → Attempt × List Request
unfolding after_delete
after_second index t last (err f) log = (ends transient, log)
after_second index t last (ok false) log = (ends unowned, log)
after_second index t last (ok true) log =
    (after_delete t.removal last t.slept, deletes index t.removal ∷ log)

unfoldable pub after_block :
    List ℕ → Turn → Bool → Option Failure → List Request → Attempt × List Request
unfolding on_failure after_second
after_block index t last (some f) log = (on_failure f last t.slept, log)
after_block index t last none log =
    after_second index t last t.second (inspects index t.second ∷ log)

unfoldable pub after_first :
    List ℕ → Turn → Bool → Result Failure Bool → List Request → Attempt × List Request
unfolding on_failure after_block
after_first index t last (err f) log = (on_failure f last t.slept, log)
after_first index t last (ok false) log = (ends unowned, log)
after_first index t last (ok true) log =
    after_block index t last t.block (blocks index t.block ∷ log)

-- One pass of the loop of `remove`; `last` is whether the retries are used up.
unfoldable pub attempt : List ℕ → Turn → Bool → List Request → Attempt × List Request
unfolding after_first
attempt index t last log =
    if t.over
    then (ends budget_exhausted, log)
    else after_first index t last t.first (inspects index t.first ∷ log)

-- What follows an attempt.
unfoldable pub followed :
    Attempt × List Request
    → (List Request → Option ItemResult × List Request)
    → Option ItemResult × List Request
followed (ends result, log) next = (some result, log)
followed (again, log) next = next log

-- `remove` from an attempt on, with so many retries left; none where the loop ends without a result.
unfoldable pub remove_index :
    List ℕ → (ℕ → Turn) → ℕ → ℕ → List Request → Option ItemResult × List Request
unfolding attempt followed
remove_index index turns zero number log =
    followed (attempt index (turns number) true log) (λ log'. (none, log'))
remove_index index turns (suc left) number log =
    followed (attempt index (turns number) false log) (remove_index index turns left (suc number))

-- What comes with the visit of an index by the sweep of a stream.
pub record Visit : Type 0 where
  pub over : Bool
  pub now : ℕ
  pub turns : ℕ → Turn

-- The fields of `Config` that a round reads.
pub record Config : Type 0 where
  pub log_policy : Policy
  pub event_policy : Policy
  pub batch_indices : ℕ
  pub max_retries : ℕ

-- What a round has done so far: the items of its report, the rest of its budget, and its requests.
pub record Round : Type 0 where
  pub items : List ItemReport
  pub remaining : ℕ
  pub requests : List Request

abbrev pub is_logs : Stream → Bool
is_logs logs = true
is_logs events = false

unfoldable pub report : Policy → List ℕ → ItemResult → Round → Round
report p index result r = record r {
  items = r.items ++ (record { stream = p.stream; index = index; result = result }) ∷ [];
}

-- The item of an index that `remove` was called for; `unknown` is what it would be without a result.
unfoldable pub removed : Policy → List ℕ → Option ItemResult × List Request → Round → Round
unfolding report
removed p index (none, log) r =
    report p index unknown (record r { remaining = r.remaining - 1; requests = log })
removed p index (some result, log) r =
    report p index result (record r { remaining = r.remaining - 1; requests = log })

pub data RoundError : Type 0 where
  no_identity cluster_changed no_inventory : RoundError

abbrev pub bound_to : Option (List ℕ) → List ℕ → List ℕ
bound_to none cluster = cluster
bound_to (some bound) cluster = bound

module _ (calendar : Calendar) where
  abbrev pub by_reason : Config → Policy → List ℕ → Visit → Round → DecisionReason → Round
  by_reason c p index v r expired =
      removed p index (remove_index index v.turns c.max_retries 0 r.requests) r
  by_reason c p index v r not_owned = report p index unowned r
  by_reason c p index v r invalid_date = report p index misnamed r
  by_reason c p index v r not_expired = report p index kept r

  -- The body of the loop over the indices.
  unfoldable pub visit_index : Config → Policy → List ℕ → Visit → Round → Round
  unfolding report removed remove_index classify
  visit_index c p index v r =
      if not (has_prefix p.prefix index)
      then (if is_logs p.stream then report p index unowned r else r)
      else if r.remaining == 0
      then report p index budget_exhausted r
      else by_reason c p index v r (classify calendar p index v.now).reason

  -- The loop over the indices, which ends when the round is over.
  unfoldable pub sweep : Config → Policy → (List ℕ → Visit) → List (List ℕ) → Round → Round
  unfolding visit_index
  sweep c p visits [] r = r
  sweep c p visits (index ∷ indices) r =
      let rest = sweep c p visits indices (visit_index c p index (visits index) r) in
      if (visits index).over then r else rest

  -- Both sweeps of a round, after the calls that found the cluster and its indices; they share its budget.
  unfoldable pub sweeps :
      Config → List ℕ → (List ℕ → Visit) → (List ℕ → Visit) → List (List ℕ) → Round
  unfolding sweep
  sweeps c cluster log_visits event_visits indices = sweep c c.event_policy event_visits indices (
      sweep c c.log_policy log_visits indices (record {
        items = [];
        remaining = c.batch_indices;
        requests = lists indices ∷ identifies cluster ∷ [];
      }))

  abbrev pub swept :
      Config
      → List ℕ
      → (List ℕ → Visit)
      → (List ℕ → Visit)
      → Option (List (List ℕ))
      → Result RoundError Round
  swept c cluster log_visits event_visits none = err no_inventory
  swept c cluster log_visits event_visits (some indices) =
      ok (sweeps c cluster log_visits event_visits indices)

  -- `RunOnce`, given the cluster to which the runner is bound, if it is, and the answers of the store: the
  -- cluster to which it is bound then, and the round.
  unfoldable pub run_once :
      Config
      → Option (List ℕ)
      → Option (List ℕ)
      → Option (List (List ℕ))
      → (List ℕ → Visit)
      → (List ℕ → Visit)
      → Option (List ℕ) × Result RoundError Round
  unfolding sweeps
  run_once c bound none inventory log_visits event_visits = (bound, err no_identity)
  run_once c bound (some cluster) inventory log_visits event_visits =
      let to = bound_to bound cluster in
      (
        some to,
        if bytes_eq cluster to
            then swept c cluster log_visits event_visits inventory
            else err cluster_changed,
      )
