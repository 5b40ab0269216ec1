-- ===== src/Spool/Fairness.antt =====
-- What the sender's loop promises (spool.go, `chooseNew` and `run`): a share for old records, bounded
-- waits, and no record lost by a failed send.
use go_pulse.Base.{
  ℕ, suc, ◌+◌, ◌*◌, ◌≤◌, ◌<◌, ◌≡◌, refl, ap, Bool, true, false, some, List, [], ◌∷◌, length, Result,
  ok, err, ◌==◌, leb, if◌then◌else◌, has, has-discard_self, arith, ◌⊎◌, inl, inr, Bool-cases,
}
use go_pulse.Spool.Store.{Entry, Error, Bolt, Codec, lookup}
use go_pulse.Spool.Queue.{Queue, next, delete, release, mark_failed}
use go_pulse.Spool.Accept.{Valid}
use go_pulse.Spool.Acknowledge.{delete-eq-ok, mark_failed_in_flight, mark_failed_lem}
use go_pulse.Spool.Manager.{
  SendResult, accepted, permanent, transient, Retry, wait, is_corrupt, grow, Runner, choose_new,
  deleted, finish_send,
}

-- `backoff` stays within the configured bounds, and a wait at least doubles it up to the maximum.
pub grow_bounds :
    (c : Retry) (b : ℕ)
    → c.retry_min ≤ b
    → b ≤ c.retry_max
    → (b ≤ grow c b) × (grow c b ≤ c.retry_max) × ((grow c b ≡ b * 2) ⊎ (grow c b ≡ c.retry_max))
unfolding grow
grow_bounds c b lo hi = ground arith

abbrev pub chosen : Bool → List Bool → ℕ
chosen b [] = 0
chosen true (true ∷ bs) = suc (chosen true bs)
chosen true (false ∷ bs) = chosen true bs
chosen false (true ∷ bs) = chosen false bs
chosen false (false ∷ bs) = suc (chosen false bs)

module _ (bolt : Bolt) (json : Codec) where
  open bolt use {Db, messages}

  -- A new record and an older one both wait to be sent.
  pub record Contested (q : Queue Db) : Type 0 where
    pub fresh : Entry
    pub old : Entry
    pub live : q.closed ≡ false
    pub pending : 0 < length (messages q.db)
    pub found_new : next bolt json q true ≡ ok (some fresh)
    pub found_old : next bolt json q false ≡ ok (some old)
    pub differ : (old.sequence == fresh.sequence) ≡ false

  choose_new-Contested :
      (q : Queue Db) (n : ℕ)
      → Contested q
      → choose_new bolt json q n ≡ (if leb 3 n then (0, false) else (n + 1, true))
  unfolding choose_new
  choose_new-Contested q n c = ground (arith, c.live, c.pending, c.found_new, c.found_old, c.differ)

  -- The decisions at a row of moments, and the count after them.
  unfoldable pub choices : ℕ → List (Queue Db) → ℕ × List Bool
  choices n [] = (n, [])
  choices n (q ∷ qs) =
      let (n', new) = choose_new bolt json q n in
      let (last, rest) = choices n' qs in (last, new ∷ rest)

  abbrev pub AllContested : List (Queue Db) → Type 0
  AllContested [] = Unit {0}
  AllContested (q ∷ qs) = Contested q × AllContested qs

  -- Over any row of contested choices the new records get three for each old one: what is chosen new
  -- and the count before it are three times what is chosen old and the count after it.
  pub choices_ratio :
      (n : ℕ) (qs : List (Queue Db))
      → n ≤ 3
      → AllContested qs
      → (chosen true (choices n qs).1 + n ≡ (choices n qs).0 + 3 * chosen false (choices n qs).1)
        × ((choices n qs).0 ≤ 3)
  unfolding choices
  choices_ratio n [] h c = (omega arith, h)
  choices_ratio n (q ∷ qs) h (c, cs) = elim (Bool-cases (leb 3 n)) [
    | inl full ↦
        let said = choose_new-Contested q n c in
        let ih = choices_ratio 0 qs (omega arith) cs in ground (arith, said, ih)
    | inr room ↦
        let said = choose_new-Contested q n c in
        let ih = choices_ratio (n + 1) qs (ground arith) cs in ground (arith, said, ih)
  ]

  -- After a send that failed for now the record is still stored, as before, and nobody is sending
  -- it; the loop waits for its backoff, which then grows. The queue stays valid.
  pub transient_keeps :
      (c : Retry) (jitter : ℕ → ℕ) (r : Runner Db) (entry : Entry) (k : ℕ)
      → Valid bolt json r.queue
      → let (r', next') = finish_send bolt json c jitter r entry transient in
        (lookup k (messages r'.queue.db) ≡ lookup k (messages r.queue.db))
        × (has r'.queue.in_flight entry.sequence ≡ false)
        × Valid bolt json r'.queue
        × (next' ≡ wait (r.backoff + jitter r.backoff))
        × (r'.backoff ≡ grow c r.backoff)
  unfolding finish_send release
  transient_keeps c jitter r entry k v =
      let given_back = release bolt json r.queue entry in
      let valid : Valid bolt json given_back = record {
        sound = v.sound;
        budget = v.budget;
        int64 = v.int64;
      } in
      let (same, held, _, kept) = mark_failed_lem bolt json given_back valid in
      (
        ap (lookup k) same,
        rw held (has-discard_self entry.sequence r.queue.in_flight),
        kept,
        refl,
        refl,
      )

  failure_clears :
      (q : Queue Db) (entry : Entry)
      → has (mark_failed bolt json (release bolt json q entry)).0.in_flight entry.sequence ≡ false
  unfolding release
  failure_clears q entry =
      rw (mark_failed_in_flight bolt json (release bolt json q entry))
        (has-discard_self entry.sequence q.in_flight)

  deleted_clears :
      (c : Retry) (jitter : ℕ → ℕ) (r : Runner Db) (entry : Entry) (sent : Bool)
      (a : Queue Db × Result Error Bool)
      → delete bolt json r.queue entry sent ≡ a
      → has (deleted bolt json c jitter r entry a).0.queue.in_flight entry.sequence ≡ false
  unfolding deleted release
  deleted_clears c jitter r entry sent (q, ok b) h =
      rw (ap (λ (x : Queue Db). x.in_flight) (delete-eq-ok bolt json r.queue q entry sent b h).1)
        (has-discard_self entry.sequence r.queue.in_flight)
  deleted_clears c jitter r entry sent (q, err e) h = elim (Bool-cases (is_corrupt e)) [
    | inl bad ↦ rw bad (has-discard_self entry.sequence q.in_flight)
    | inr fine ↦ rw fine (failure_clears q entry)
  ]

  -- However the send of an entry ends, and whatever the database then does, in any queue the entry no
  -- longer counts as being sent.
  pub finish_send_clears :
      (c : Retry) (jitter : ℕ → ℕ) (r : Runner Db) (entry : Entry) (result : SendResult)
      → has (finish_send bolt json c jitter r entry result).0.queue.in_flight entry.sequence ≡ false
  unfolding finish_send
  finish_send_clears c jitter r entry transient = failure_clears r.queue entry
  finish_send_clears c jitter r entry accepted = deleted_clears c jitter r entry true _ refl
  finish_send_clears c jitter r entry permanent = deleted_clears c jitter r entry false _ refl
