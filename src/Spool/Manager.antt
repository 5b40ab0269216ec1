-- ===== src/Spool/Manager.antt =====
-- `Manager.chooseNew` and `Manager.run` of spool.go: how the sender of one queue picks records,
-- answers for them and backs off. An iteration is split where other calls may come between: before
-- the send (`begin`) and after it (`finish`).
use go_pulse.Base.{
  ℕ, ◌+◌, ◌*◌, Bool, true, false, Option, none, some, length, Result, ok, err, ◌==◌, ltb, leb,
  if◌then◌else◌,
}
use go_pulse.Spool.Store.{Entry, Error, corrupt, Bolt, Codec}
use go_pulse.Spool.Queue.{Queue, next, claim, delete, release, mark_failed}

-- What `sender.Send` came back with.
pub data SendResult : Type 0 where
  accepted permanent transient : SendResult

pub record Retry : Type 0 where
  pub retry_min : ℕ
  pub retry_max : ℕ

-- What the loop does next: end, poll again after 100 ms, go on at once, or wait.
pub data Next : Type 0 where
  stop poll go_on : Next
  wait : ℕ → Next

abbrev pub is_accepted : SendResult → Bool
is_accepted accepted = true
is_accepted _ = false

unfoldable pub grow : Retry → ℕ → ℕ
grow c backoff =
    if ltb backoff c.retry_max
    then (if ltb c.retry_max (backoff * 2) then c.retry_max else backoff * 2)
    else backoff

-- The choice between the oldest new record and the oldest record, once both are found; the number
-- counts the new records chosen since an old one was.
unfoldable pub contest : ℕ → Entry → Entry → ℕ × Bool
contest new_sent fresh old =
    if old.sequence == fresh.sequence
    then (new_sent, true)
    else if leb 3 new_sent
    then (0, false)
    else (new_sent + 1, true)

unfoldable pub weigh : ℕ → Result Error (Option Entry) → Result Error (Option Entry) → ℕ × Bool
unfolding contest
weigh n (ok (some fresh)) (ok (some old)) = contest n fresh old
weigh n (ok (some fresh)) (ok none) = (n, true)
weigh n (ok (some fresh)) (err e) = (n, false)
weigh n (ok none) old = (n, false)
weigh n (err e) old = (n, false)

pub record Runner (Db : Type 0) : Type 0 where
  pub queue : Queue Db
  pub backoff : ℕ
  pub new_sent : ℕ

abbrev pub is_corrupt : Error → Bool
is_corrupt corrupt = true
is_corrupt _ = false

module _ (bolt : Bolt) (json : Codec) where
  open bolt use {Db, messages}

  -- `chooseNew`; its looks at the queue, each under the lock, are one step here.
  unfoldable pub choose_new : Queue Db → ℕ → ℕ × Bool
  unfolding weigh
  choose_new q new_sent =
      if q.closed
      then (new_sent, false)
      else if length (messages q.db) == 0
      then (new_sent, false)
      else weigh new_sent (next bolt json q true) (next bolt json q false)

  unfoldable pub began :
      Runner Db → Queue Db × Result Error (Option Entry) → Runner Db × Option Entry × Next
  began r (q, err e) = (record r { queue = q }, none, stop)
  began r (q, ok none) = (record r { queue = q }, none, poll)
  began r (q, ok (some e)) = (record r { queue = q }, some e, go_on)

  -- The loop up to the send: choose, then claim.
  unfoldable pub begin : Runner Db → Runner Db × Option Entry × Next
  unfolding choose_new began
  begin r =
      let (n, prefer_new) = choose_new r.queue r.new_sent in
      began (record r { new_sent = n }) (claim bolt json r.queue prefer_new)

  -- Give the record back, count the failure and wait.
  unfoldable pub retry_later : Retry → (ℕ → ℕ) → Runner Db → Queue Db → Runner Db × Next
  unfolding grow
  retry_later c jitter r q = (
    record r { queue = (mark_failed bolt json q).0; backoff = grow c r.backoff },
    wait (r.backoff + jitter r.backoff),
  )

  unfoldable pub deleted :
      Retry → (ℕ → ℕ) → Runner Db → Entry → Queue Db × Result Error Bool → Runner Db × Next
  unfolding retry_later
  deleted c jitter r entry (q, ok _) = (record r { queue = q; backoff = c.retry_min }, go_on)
  deleted c jitter r entry (q, err e) =
      let given_back = release bolt json q entry in
      if is_corrupt e
      then (record r { queue = given_back }, stop)
      else retry_later c jitter r given_back

  -- The loop after the send of `entry`.
  unfoldable pub finish_send : Retry → (ℕ → ℕ) → Runner Db → Entry → SendResult → Runner Db × Next
  unfolding retry_later deleted
  finish_send c jitter r entry transient = retry_later c jitter r (release bolt json r.queue entry)
  finish_send c jitter r entry result =
      deleted c jitter r entry (delete bolt json r.queue entry (is_accepted result))
