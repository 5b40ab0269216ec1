-- ===== src/Consumer/Commits.antt =====
-- When consumer/processor.go commits an offset, how often it tries, and that it gets there.
use go_pulse.Base.{
  ℕ, zero, suc, ◌+◌, ◌≤◌, ◌≡◌, refl, true, false, some, List, [], ◌∷◌, ◌==◌, All, arith, ◌⊎◌, inl,
  inr, Bool-cases,
}
use go_pulse.Consumer.Processor.{
  Code, Retry, CommitTurn, WriteTurn, WriteAnswer, stored, failed, refused, handled, ownership_lost,
  Done, stop, next_delay, commit_from, commit, reject, written, retried, answered, write_from,
}

pub commit_from-attempts :
    (r : Retry) (turns : ℕ → CommitTurn) (left attempt delay : ℕ)
    → (commit_from r turns left attempt delay).commits ≤ left
unfolding commit_from
commit_from-attempts r turns zero attempt delay = omega arith
commit_from-attempts r turns (suc left) attempt delay =
    ground (arith, commit_from-attempts r turns left (attempt + 1) (next_delay r delay))

-- The sleeps lie between the bounds.
abbrev pub Paced : Retry → List ℕ → Type 0
Paced r = All λ d. (r.retry_min ≤ d) × (d ≤ r.retry_max)

next_delay-bounds :
    (r : Retry) (delay : ℕ)
    → r.retry_min ≤ r.retry_max
    → r.retry_min ≤ delay
    → (r.retry_min ≤ next_delay r delay) × (next_delay r delay ≤ r.retry_max)
unfolding next_delay
next_delay-bounds r delay ordered least = ground arith

pub commit_from-Paced :
    (r : Retry) (turns : ℕ → CommitTurn) (left attempt delay : ℕ)
    → r.retry_min ≤ r.retry_max
    → r.retry_min ≤ delay
    → delay ≤ r.retry_max
    → Paced r (commit_from r turns left attempt delay).delays
unfolding commit_from
commit_from-Paced r turns zero attempt delay ordered least most = tt
commit_from-Paced r turns (suc left) attempt delay ordered least most =
    let (lo, hi) = next_delay-bounds r delay ordered least in
    let rest = commit_from-Paced r turns left (attempt + 1) (next_delay r delay) ordered lo hi in
    elim (Bool-cases (turns attempt).alive_before) [
      | inr dead ↦ rw dead tt
      | inl alive ↦ elim (Bool-cases (turns attempt).alive_after) [
        | inr dead ↦ rw (alive, dead) tt
        | inl still ↦ elim (Bool-cases (turns attempt).commits) [
          | inl done ↦ rw (alive, still, done) tt
          | inr again ↦ elim (Bool-cases (attempt == 2)) [
            | inl last ↦ rw (alive, still, again, last) tt
            | inr more ↦ elim (Bool-cases (turns attempt).acquired) [
              | inr none_left ↦ rw (alive, still, again, more, none_left) tt
              | inl slot ↦ elim (Bool-cases (turns attempt).slept) [
                | inr woken ↦ rw (alive, still, again, more, slot, woken) ((least, most), tt)
                | inl slept ↦ rw (alive, still, again, more, slot, slept) ((least, most), rest)
              ]
            ]
          ]
        ]
      ]
    ]

-- A commit that ends well was answered by the broker at some attempt, with the lease good before
-- and after the call.
pub Acknowledged : (ℕ → CommitTurn) → Type 0
Acknowledged turns =
    (n : ℕ) × ((turns n).alive_before ≡ true)
    × ((turns n).commits ≡ true)
    × ((turns n).alive_after ≡ true)

commit_from-Acknowledged :
    (r : Retry) (turns : ℕ → CommitTurn) (left attempt delay : ℕ)
    → (commit_from r turns left attempt delay).ended ≡ handled
    → Acknowledged turns
unfolding commit_from Acknowledged
commit_from-Acknowledged r turns zero attempt delay h = absurd (cc)
commit_from-Acknowledged r turns (suc left) attempt delay h =
    elim (Bool-cases (turns attempt).commits) [
      | inl done ↦ (attempt, ground (arith, h), done, ground (arith, h))
      | inr again ↦
          commit_from-Acknowledged r turns left (attempt + 1) (next_delay r delay)
            (ground (arith, h, again))
    ]

-- The lease is lost at every attempt.
abbrev pub Lost : (ℕ → CommitTurn) → Type 0
Lost turns = (n : ℕ) → (turns n).alive_before ≡ false

commit-Lost :
    (r : Retry) (turns : ℕ → CommitTurn) → Lost turns → commit r turns ≡ stop ownership_lost 0 []
unfolding commit commit_from
commit-Lost r turns lost = rw (lost 0) refl

-- What `Handle` may have done: it committed only what was stored or rejected, at most three times, and
-- it ended well only if the broker acknowledged a commit under a good lease.
pub record Safe (turns : ℕ → CommitTurn) (d : Done) : Type 0 where
  pub earned : (d.commits ≡ 0) ⊎ ((d.stored ≡ true) ⊎ ((code : Code) × (d.rejected ≡ some code)))
  pub few : d.commits ≤ 3
  pub acknowledged : d.ended ≡ handled → Acknowledged turns

stop-Safe : (turns : ℕ → CommitTurn) (delays : List ℕ) → Safe turns (stop ownership_lost 0 delays)
stop-Safe turns delays = record {
  earned = inl refl;
  few = omega arith;
  acknowledged = λ h. absurd (cc);
}

pub reject-Safe :
    (r : Retry) (turns : ℕ → CommitTurn) (code : Code) → Safe turns (reject r turns code)
unfolding reject commit
reject-Safe r turns code = record {
  earned = inr (inr (code, refl));
  few = commit_from-attempts r turns 3 0 r.retry_min;
  acknowledged = λ h. commit_from-Acknowledged r turns 3 0 r.retry_min h;
}

written-Safe : (r : Retry) (turns : ℕ → CommitTurn) (w : WriteTurn) → Safe turns (written r turns w)
unfolding written commit
written-Safe r turns w = elim (Bool-cases w.valid_after) [
  | inr lost ↦
      rw lost record { earned = inl refl; few = omega arith; acknowledged = λ h. absurd (cc) }
  | inl good ↦ rw good record {
    earned = inr (inl refl);
    few = commit_from-attempts r turns 3 0 r.retry_min;
    acknowledged = λ h. commit_from-Acknowledged r turns 3 0 r.retry_min h;
  }
]

retried-Safe :
    (turns : ℕ → CommitTurn) (w : WriteTurn) (delay : ℕ) (rest : Done)
    → Safe turns rest
    → Safe turns (retried w delay rest)
unfolding retried
retried-Safe turns w delay rest s = elim (Bool-cases w.context_done) [
  | inl over ↦ rw over (stop-Safe turns [])
  | inr on_going ↦ elim (Bool-cases w.acquired) [
    | inr none_left ↦ rw (on_going, none_left) (stop-Safe turns [])
    | inl slot ↦ elim (Bool-cases w.slept) [
      | inr woken ↦ rw (on_going, slot, woken) (stop-Safe turns (delay ∷ []))
      | inl slept ↦
          rw (on_going, slot, slept)
            record { earned = s.earned; few = s.few; acknowledged = s.acknowledged }
    ]
  ]
]

answered-Safe :
    (r : Retry) (turns : ℕ → CommitTurn) (w : WriteTurn) (a : WriteAnswer) (delay : ℕ) (rest : Done)
    → Safe turns rest
    → Safe turns (answered r turns w a delay rest)
unfolding answered
answered-Safe r turns w stored delay rest s = written-Safe r turns w
answered-Safe r turns w (refused code) delay rest s = reject-Safe r turns code
answered-Safe r turns w failed delay rest s = retried-Safe turns w delay rest s

pub write_from-Safe :
    (r : Retry) (turns : ℕ → CommitTurn) (ws : List WriteTurn) (delay : ℕ)
    → Safe turns (write_from r turns ws delay)
unfolding write_from
write_from-Safe r turns [] delay = record {
  earned = inl refl;
  few = omega arith;
  acknowledged = λ h. absurd (cc);
}
write_from-Safe r turns (w ∷ ws) delay = elim (Bool-cases w.valid_before) [
  | inr lost ↦ rw lost (stop-Safe turns [])
  | inl good ↦
      let s =
        answered-Safe r turns w w.answer delay (write_from r turns ws (next_delay r delay))
          (write_from-Safe r turns ws (next_delay r delay)) in
      rw good record { earned = s.earned; few = s.few; acknowledged = s.acknowledged }
]
