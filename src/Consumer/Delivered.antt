-- ===== src/Consumer/Delivered.antt =====
-- `Handle` and `commit` of consumer/processor.go as a whole: what they promise, and that they get there.
use go_pulse.Base.{
  ℕ, zero, suc, ◌+◌, ◌≤◌, ◌≡◌, refl, ap, true, false, ◌||◌, ◌==◌, Option, none, some, List, [], ◌∷◌,
  ◌++◌, length, ok, err, All, arith,
}
use go_pulse.Consumer.Processor.{
  Code, Retry, prepared, CommitTurn, WriteTurn, stored, failed, handled, Done, invalid_envelope,
  unsupported_envelope, transform_failed, Transformer, code_or, next_delay, commit_from, commit,
  written, retried, answered, write_from, Processor, body_of, handle,
}
use go_pulse.Consumer.Commits.{Paced, commit_from-attempts, commit_from-Paced}

prepared-ordered : (r : Retry) → (prepared r).retry_min ≤ (prepared r).retry_max
unfolding prepared
prepared-ordered r = ground arith

-- `commit` calls the broker at most three times, and each of its waits is between the least and the
-- greatest retry delay, whatever is configured and whatever the broker answers.
pub commit-Paced :
    (r : Retry) (turns : ℕ → CommitTurn)
    → ((commit (prepared r) turns).commits ≤ 3)
      × Paced (prepared r) (commit (prepared r) turns).delays
unfolding commit
commit-Paced r turns = (
  commit_from-attempts (prepared r) turns 3 0 (prepared r).retry_min,
  commit_from-Paced (prepared r) turns 3 0 (prepared r).retry_min (prepared-ordered r) (omega arith)
      (prepared-ordered r),
)

-- A write fails while the context and the lease stay good, and the record's turn to retry comes.
abbrev pub Persists : WriteTurn → Type 0
Persists w =
    (w.valid_before ≡ true)
    × (w.answer ≡ failed)
    × (w.context_done ≡ false)
    × (w.acquired ≡ true)
    × (w.slept ≡ true)

abbrev pub Succeeds : WriteTurn → Type 0
Succeeds w = (w.valid_before ≡ true) × (w.answer ≡ stored) × (w.valid_after ≡ true)

-- The lease stays good throughout the commit, and one of its three calls is accepted.
abbrev pub Commits : (ℕ → CommitTurn) → Type 0
Commits turns =
    ((n : ℕ)
      → ((turns n).alive_before ≡ true)
        × ((turns n).alive_after ≡ true)
        × ((turns n).acquired ≡ true)
        × ((turns n).slept ≡ true))
    × (((turns 0).commits || ((turns 1).commits || (turns 2).commits)) ≡ true)

commit-handled :
    (r : Retry) (turns : ℕ → CommitTurn) → Commits turns → (commit r turns).ended ≡ handled
unfolding commit commit_from
commit-handled r turns (good, one) =
    let (a, b, c, d) = good 0 in
    let (e, f, g, h) = good 1 in
    let (i, j, k, l) = good 2 in ground (arith, a, b, c, d, e, f, g, h, i, j, one)

commit_from-nothing :
    (r : Retry) (turns : ℕ → CommitTurn) (left attempt delay : ℕ)
    → let d = commit_from r turns left attempt delay in
      (d.stored ≡ false) × (d.writes ≡ 0) × (d.rejected ≡ none)
unfolding commit_from
commit_from-nothing r turns zero attempt delay = (refl, refl, refl)
commit_from-nothing r turns (suc left) attempt delay =
    let (a, b, c) = commit_from-nothing r turns left (attempt + 1) (next_delay r delay) in
    (ground (arith, a), ground (arith, b), ground (arith, c))

-- A commit writes nothing.
commit-nothing :
    (r : Retry) (turns : ℕ → CommitTurn)
    → let d = commit r turns in (d.stored ≡ false) × (d.writes ≡ 0) × (d.rejected ≡ none)
unfolding commit
commit-nothing r turns = commit_from-nothing r turns 3 0 r.retry_min

retried-on :
    (w : WriteTurn) (delay : ℕ) (rest : Done)
    → w.context_done ≡ false
    → w.acquired ≡ true
    → w.slept ≡ true
    → retried w delay rest ≡ record rest { delays = delay ∷ rest.delays }
unfolding retried
retried-on w delay rest a b c = rw (a, b, c) refl

write_from-delivers :
    (r : Retry) (turns : ℕ → CommitTurn) (ws later : List WriteTurn) (w : WriteTurn) (delay : ℕ)
    → All Persists ws
    → Succeeds w
    → Commits turns
    → let d = write_from r turns (ws ++ w ∷ later) delay in
      (d.ended ≡ handled) × (d.stored ≡ true) × (d.rejected ≡ none) × (d.writes ≡ suc (length ws))
unfolding write_from answered written
write_from-delivers r turns [] later w delay fails (a, b, c) commits =
    let (_, nothing, kept) = commit-nothing r turns in
    rw (a, b, c) (commit-handled r turns commits, refl, kept, ap suc nothing)
write_from-delivers r turns (v ∷ ws) later w delay ((a, b, c, d, e), fails) good commits =
    let (ended, done, kept, count) =
      write_from-delivers r turns ws later w (next_delay r delay) fails good commits in
    rw (a, b, retried-on v delay (write_from r turns (ws ++ w ∷ later) (next_delay r delay)) c d e)
      (ended, done, kept, ap suc count)

-- Every record is dealt with: while its body can be made and its lease stays good, the store may fail any
-- number of times; the first write that it takes is the last, and if the broker accepts one of
-- three commits `Handle` ends well, with the record stored and not rejected.
pub handle_delivers :
    (Envelope : Type 0) (type source : Envelope → ℕ) (p : Processor Envelope type source)
    (r : Retry) (turns : ℕ → CommitTurn) (ws later : List WriteTurn) (w : WriteTurn)
    (key value body : List ℕ)
    → body_of Envelope type source p key value ≡ ok body
    → All Persists ws
    → Succeeds w
    → Commits turns
    → let d = handle Envelope type source p r turns (ws ++ w ∷ later) key value in
      (d.ended ≡ handled) × (d.stored ≡ true) × (d.rejected ≡ none) × (d.writes ≡ suc (length ws))
unfolding handle
handle_delivers Envelope type source p r turns ws later w key value body made fails good commits =
    rw made
      (write_from-delivers (prepared r) turns ws later w (prepared r).retry_min fails good commits)

-- What is wrong with a record, and the code that its rejection is reported with.
pub data Unusable (Envelope : Type 0) (type source : Envelope → ℕ)
    (p : Processor Envelope type source) (key value : List ℕ) : Code → Type 0 where
  undecodable :
      (c : Option Code)
      → p.decode key value ≡ err c
      → Unusable Envelope type source p key value (code_or Envelope type source invalid_envelope c)
  other_type :
      (m : Envelope) (t : ℕ)
      → p.decode key value ≡ ok m
      → p.expected_type ≡ some t
      → (type m == t) ≡ false
      → Unusable Envelope type source p key value unsupported_envelope
  untargeted :
      (m : Envelope) (find : ℕ → ℕ → Option (Transformer Envelope type source))
      → p.decode key value ≡ ok m
      → p.targets ≡ some find
      → find (type m) (source m) ≡ none
      → Unusable Envelope type source p key value unsupported_envelope
  untransformed :
      (m : Envelope) (c : Option Code)
      → p.decode key value ≡ ok m
      → ((t : ℕ) → p.expected_type ≡ some t → (type m == t) ≡ true)
      → p.targets ≡ none
      → p.transformer m ≡ err c
      → Unusable Envelope type source p key value (code_or Envelope type source transform_failed c)
  refused_by_target :
      (m : Envelope) (find : ℕ → ℕ → Option (Transformer Envelope type source))
      (transform : Transformer Envelope type source) (c : Option Code)
      → p.decode key value ≡ ok m
      → ((t : ℕ) → p.expected_type ≡ some t → (type m == t) ≡ true)
      → p.targets ≡ some find
      → find (type m) (source m) ≡ some transform
      → transform m ≡ err c
      → Unusable Envelope type source p key value (code_or Envelope type source transform_failed c)
