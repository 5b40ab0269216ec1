-- ===== src/Consumer/Processor.antt =====
-- `Processor` of consumer/processor.go: a record is decoded, transformed, written until the store takes
-- it, and its offset committed. What the store, the broker, the contexts and the lease answer on
-- each attempt comes as an input; the decoder and the transformers are parameters.
use go_pulse.Base.{
  ℕ, zero, suc, ◌+◌, ◌*◌, Bool, true, false, not, Option, none, some, List, [], ◌∷◌, Result, ok,
  err, ◌==◌, ltb, if◌then◌else◌,
}

pub data Code : Type 0 where
  invalid_envelope unsupported_envelope transform_failed : Code
  coded : ℕ → Code

-- `RetryMin` and `RetryMax`, in microseconds.
pub record Retry : Type 0 where
  pub retry_min : ℕ
  pub retry_max : ℕ

-- The defaults that the first `Handle` fills in.
unfoldable pub prepared : Retry → Retry
prepared r =
    let least = if r.retry_min == 0 then 250000 else r.retry_min in
    record { retry_min = least; retry_max = if ltb r.retry_max least then least else r.retry_max }

-- One attempt of `commit`: whether the context and the lease are good before and after the call, what
-- the broker answers, and whether the retry's slot and sleep succeed.
pub record CommitTurn : Type 0 where
  pub alive_before : Bool
  pub commits : Bool
  pub alive_after : Bool
  pub acquired : Bool
  pub slept : Bool

pub data WriteAnswer : Type 0 where
  stored failed : WriteAnswer
  refused : Code → WriteAnswer

-- One attempt of the loop of `Handle`.
pub record WriteTurn : Type 0 where
  pub valid_before : Bool
  pub answer : WriteAnswer
  pub valid_after : Bool
  pub context_done : Bool
  pub acquired : Bool
  pub slept : Bool

-- The error that is returned, `handled` for nil; `waiting` if the attempts given are used up.
pub data Ended : Type 0 where
  handled ownership_lost commit_failed waiting : Ended

-- What was done: the calls of `Write` and `Commit`, and the sleeps in order.
pub record Done : Type 0 where
  pub ended : Ended
  pub writes : ℕ
  pub commits : ℕ
  pub stored : Bool
  pub rejected : Option Code
  pub delays : List ℕ

abbrev pub stop : Ended → ℕ → List ℕ → Done
stop e calls delays = record {
  ended = e;
  writes = 0;
  commits = calls;
  stored = false;
  rejected = none;
  delays = delays;
}

unfoldable pub next_delay : Retry → ℕ → ℕ
next_delay r delay = if ltb r.retry_max (delay * 2) then r.retry_max else delay * 2

-- The loop of `commit`, with the attempts it has left.
unfoldable pub commit_from : Retry → (ℕ → CommitTurn) → ℕ → ℕ → ℕ → Done
unfolding next_delay
commit_from r turns zero attempt delay = stop commit_failed 0 []
commit_from r turns (suc left) attempt delay =
    let t = turns attempt in
    let rest = commit_from r turns left (attempt + 1) (next_delay r delay) in
    if not t.alive_before
    then stop ownership_lost 0 []
    else if not t.alive_after
    then stop ownership_lost 1 []
    else if t.commits
    then stop handled 1 []
    else if attempt == 2
    then stop commit_failed 1 []
    else if not t.acquired
    then stop ownership_lost 1 []
    else if not t.slept
    then stop ownership_lost 1 (delay ∷ [])
    else record rest { commits = suc rest.commits; delays = delay ∷ rest.delays }

unfoldable pub commit : Retry → (ℕ → CommitTurn) → Done
unfolding commit_from
commit r turns = commit_from r turns 3 0 r.retry_min

unfoldable pub reject : Retry → (ℕ → CommitTurn) → Code → Done
unfolding commit
reject r turns code = record (commit r turns) { rejected = some code }

unfoldable pub written : Retry → (ℕ → CommitTurn) → WriteTurn → Done
unfolding commit
written r turns w =
    if not w.valid_after
    then record (stop ownership_lost 0 []) { stored = true }
    else record (commit r turns) { stored = true }

-- The wait after a failed write; `rest` is what the next attempt does.
unfoldable pub retried : WriteTurn → ℕ → Done → Done
retried w delay rest =
    if w.context_done
    then stop ownership_lost 0 []
    else if not w.acquired
    then stop ownership_lost 0 []
    else if not w.slept
    then stop ownership_lost 0 (delay ∷ [])
    else record rest { delays = delay ∷ rest.delays }

unfoldable pub answered : Retry → (ℕ → CommitTurn) → WriteTurn → WriteAnswer → ℕ → Done → Done
unfolding reject written retried
answered r turns w stored delay rest = written r turns w
answered r turns w (refused code) delay rest = reject r turns code
answered r turns w failed delay rest = retried w delay rest

-- The loop of `Handle`, over the attempts to come.
unfoldable pub write_from : Retry → (ℕ → CommitTurn) → List WriteTurn → ℕ → Done
unfolding answered next_delay
write_from r turns [] delay = stop waiting 0 []
write_from r turns (w ∷ ws) delay =
    let rest = write_from r turns ws (next_delay r delay) in
    let d = answered r turns w w.answer delay rest in
    if not w.valid_before then stop ownership_lost 0 [] else record d { writes = suc d.writes }

unfoldable pub handle_body : Retry → (ℕ → CommitTurn) → List WriteTurn → Result Code (List ℕ) → Done
unfolding reject write_from
handle_body r turns ws (err code) = reject r turns code
handle_body r turns ws (ok body) = write_from r turns ws r.retry_min

module _ (Envelope : Type 0) (type source : Envelope → ℕ) where
  abbrev pub Transformer : Type 0
  Transformer = Envelope → Result (Option Code) (List ℕ)

  -- `Decoder`, `ExpectedType`, `Transformer` and `Targets`; a target that lacks a part is `none`.
  pub record Processor : Type 0 where
    pub decode : List ℕ → List ℕ → Result (Option Code) Envelope
    pub expected_type : Option ℕ
    pub transformer : Transformer
    pub targets : Option (ℕ → ℕ → Option Transformer)

  abbrev pub code_or : Code → Option Code → Code
  code_or c none = c
  code_or c (some d) = d

  abbrev pub expected : Option ℕ → ℕ → Bool
  expected none t = true
  expected (some e) t = t == e

  abbrev pub target_of : Processor → Envelope → Option Transformer
  target_of p m = elim p.targets [
    | none ↦ some p.transformer
    | some find ↦ find (type m) (source m)
  ]

  abbrev pub transformed : Result (Option Code) (List ℕ) → Result Code (List ℕ)
  transformed (ok body) = ok body
  transformed (err c) = err (code_or transform_failed c)

  abbrev pub with_target : Option Transformer → Envelope → Result Code (List ℕ)
  with_target none m = err unsupported_envelope
  with_target (some transform) m = transformed (transform m)

  abbrev pub with_message : Processor → Result (Option Code) Envelope → Result Code (List ℕ)
  with_message p (err c) = err (code_or invalid_envelope c)
  with_message p (ok m) =
      if not (expected p.expected_type (type m))
      then err unsupported_envelope
      else with_target (target_of p m) m

  -- The body to write, or the code that the record is rejected with.
  unfoldable pub body_of : Processor → List ℕ → List ℕ → Result Code (List ℕ)
  body_of p key value = with_message p (p.decode key value)

  -- `Handle`
  unfoldable pub handle :
      Processor → Retry → (ℕ → CommitTurn) → List WriteTurn → List ℕ → List ℕ → Done
  unfolding handle_body
  handle p r turns ws key value = handle_body (prepared r) turns ws (body_of p key value)
