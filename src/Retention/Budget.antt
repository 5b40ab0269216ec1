-- ===== src/Retention/Budget.antt =====
-- How many calls of the store a round of the clean-up makes, and that it has a result for each index (retention/runner.go).
use go_pulse.Base.{
  ℕ, zero, suc, ◌+◌, ◌*◌, ◌-◌, ◌≤◌, ◌≡◌, refl, subst, Bool, true, false, not, ◌||◌, Option, none,
  some, List, [], ◌∷◌, ◌++◌, Result, ok, err, ◌==◌, length, All, arith, Bool-cases, inl, inr,
}
use go_pulse.Retention.Policy.{
  Policy, Calendar, DecisionReason, expired, not_owned, invalid_date, not_expired, has_prefix,
}
use go_pulse.Retention.Runner.{
  Failure, Request, inspects, blocks, deletes, identifies, lists, ItemResult, unknown,
  budget_exhausted, unowned, misnamed, kept, ItemReport, Turn, Attempt, ends, again, on_failure,
  after_delete, after_second, after_block, after_first, attempt, followed, remove_index, Visit,
  Config, Round, report, removed, by_reason, visit_index, sweep, sweeps, run_once, is_logs,
  is_permission_denied, is_transient, is_not_found,
}
use go_pulse.Retention.Deletes.{run_once_ok}

abbrev pub is_unknown : ItemResult → Bool
is_unknown unknown = true
is_unknown _ = false

-- An attempt makes at most four calls of the store, and the last one has a result.
abbrev Tried : Bool → List Request → Attempt × List Request → Type 0
Tried last log (ends result, log') = (length log' ≤ length log + 4) × (is_unknown result ≡ false)
Tried last log (again, log') = (length log' ≤ length log + 4) × (last ≡ false)

on_failure-Tried :
    (f : Failure) (last slept : Bool) (log log' : List Request)
    → length log' ≤ length log + 4
    → Tried last log (on_failure f last slept, log')
unfolding on_failure
on_failure-Tried f last slept log log' h = elim (Bool-cases (is_permission_denied f)) [
  | inl denied ↦ rw denied (h, refl)
  | inr permitted ↦ elim (Bool-cases (not (is_transient f) || last)) [
    | inl final ↦ rw (permitted, final) (h, refl)
    | inr more ↦ elim (Bool-cases slept) [
      | inl rested ↦ rw (permitted, more, rested) (h, ground (arith, more))
      | inr late ↦ rw (permitted, more, late) (h, refl)
    ]
  ]
]

attempt-Tried :
    (index : List ℕ) (t : Turn) (last : Bool) (log : List Request)
    → Tried last log (attempt index t last log)
unfolding attempt
attempt-Tried index t last log = elim (Bool-cases t.over) [
  | inl over ↦ rw over (omega arith, refl)
  | inr on ↦ rw on (first t.first)
]
  where
    removal :
        (d : Option Failure) (rest : List Request)
        → length rest ≤ length log + 4
        → Tried last log (after_delete d last t.slept, rest)
    removal none rest h = (h, refl)
    removal (some f) rest h = elim (Bool-cases (is_not_found f)) [
      | inl gone ↦ rw gone (h, refl)
      | inr there ↦ rw there (on_failure-Tried f last t.slept log rest h)
    ]

    second :
        (s : Result Failure Bool) (rest : List Request)
        → length rest ≤ length log + 3
        → Tried last log (after_second index t last s rest)
    second (err f) rest h = (omega arith, refl)
    second (ok false) rest h = (omega arith, refl)
    second (ok true) rest h = removal t.removal (deletes index t.removal ∷ rest) (omega arith)

    block :
        (b : Option Failure) (rest : List Request)
        → length rest ≤ length log + 2
        → Tried last log (after_block index t last b rest)
    block (some f) rest h = on_failure-Tried f last t.slept log rest (omega arith)
    block none rest h = second t.second (inspects index t.second ∷ rest) (omega arith)

    first :
        (f : Result Failure Bool)
        → Tried last log (after_first index t last f (inspects index f ∷ log))
    first (err f) = on_failure-Tried f last t.slept log (inspects index (err f) ∷ log) (omega arith)
    first (ok false) = (omega arith, refl)
    first (ok true) =
        block t.block (blocks index t.block ∷ inspects index (ok true) ∷ log) (omega arith)

-- With so many retries left, the loop has a result after four calls for each attempt.
abbrev Removed : ℕ → List Request → Option ItemResult × List Request → Type 0
Removed left log (none, log') = ⊥
Removed left log (some result, log') =
    (length log' ≤ length log + 4 * (left + 1)) × (is_unknown result ≡ false)

remove_index-Removed :
    (index : List ℕ) (turns : ℕ → Turn) (left number : ℕ) (log : List Request)
    → Removed left log (remove_index index turns left number log)
unfolding remove_index followed
remove_index-Removed index turns zero number log =
    final (attempt index (turns number) true log) (attempt-Tried index (turns number) true log)
  where
    final :
        (a : Attempt × List Request)
        → Tried true log a
        → Removed zero log (followed a (λ log'. (none, log')))
    final (ends result, log') (h, known) = (omega arith, known)
    final (again, log') (h, more) = absurd (cc)
remove_index-Removed index turns (suc left) number log =
    next (attempt index (turns number) false log) (attempt-Tried index (turns number) false log)
      (λ log'. remove_index-Removed index turns left (suc number) log')
  where
    wider :
        (log' : List Request) (o : Option ItemResult × List Request)
        → length log' ≤ length log + 4
        → Removed left log' o
        → Removed (suc left) log o
    wider log' (none, log'') h r = r
    wider log' (some result, log'') h (k, known) = (omega arith, known)

    next :
        (a : Attempt × List Request)
        → Tried false log a
        → ((log' : List Request)
            → Removed left log' (remove_index index turns left (suc number) log'))
        → Removed (suc left) log (followed a (remove_index index turns left (suc number)))
    next (ends result, log') (h, known) go = (omega arith, known)
    next (again, log') (h, more) go = wider log' _ h (go log')

module _ (calendar : Calendar) where
  -- What one round may still send, and that its items have results.
  record Within (c : Config) (before after : Round) : Type 0 where
    sent :
        length after.requests + 4 * (c.max_retries + 1) * after.remaining
        ≤ length before.requests + 4 * (c.max_retries + 1) * before.remaining
    known :
        All (λ i. is_unknown i.result ≡ false) before.items
        → All (λ i. is_unknown i.result ≡ false) after.items

  All-append :
      (P : ItemReport → Type 0) (xs : List ItemReport) (x : ItemReport)
      → All P xs
      → P x
      → All P (xs ++ x ∷ [])
  All-append P [] x a h = (h, tt)
  All-append P (y ∷ xs) x a h = (a.0, All-append P xs x a.1 h)

  report-Within :
      (c : Config) (p : Policy) (index : List ℕ) (result : ItemResult) (r : Round)
      → is_unknown result ≡ false
      → Within c r (report p index result r)
  unfolding report
  report-Within c p index result r h = record {
    sent = omega arith;
    known = λ a. All-append (λ i. is_unknown i.result ≡ false) r.items _ a h;
  }

  spend : (k n : ℕ) → (n == 0) ≡ false → k * (n - 1) + k ≡ k * n
  spend k zero h = absurd (cc)
  spend k (suc n) h = grind arith

  removed-Within :
      (c : Config) (p : Policy) (index : List ℕ) (r : Round) (o : Option ItemResult × List Request)
      → (r.remaining == 0) ≡ false
      → Removed c.max_retries r.requests o
      → Within c r (removed p index o r)
  unfolding removed report
  removed-Within c p index r (none, log) left h = absurd h
  removed-Within c p index r (some result, log) left (few, h) = record {
    sent = omega (arith, spend (4 * (c.max_retries + 1)) r.remaining left);
    known = λ a. All-append (λ i. is_unknown i.result ≡ false) r.items _ a h;
  }

  visit_index-Within :
      (c : Config) (p : Policy) (index : List ℕ) (v : Visit) (r : Round)
      → Within c r (visit_index calendar c p index v r)
  unfolding visit_index
  visit_index-Within c p index v r = elim (Bool-cases (has_prefix p.prefix index)) [
    | inr foreign ↦ elim (Bool-cases (is_logs p.stream)) [
      | inl told ↦ rw (foreign, told) (report-Within c p index unowned r refl)
      | inr untold ↦ rw (foreign, untold) (record { sent = omega arith; known = λ a. a })
    ]
    | inl owned ↦ elim (Bool-cases (r.remaining == 0)) [
      | inl spent ↦ rw (owned, spent) (report-Within c p index budget_exhausted r refl)
      | inr budget ↦ rw (owned, budget) (by budget _)
    ]
  ]
    where
      by :
          (r.remaining == 0) ≡ false
          → (reason : DecisionReason) → Within c r (by_reason calendar c p index v r reason)
      by left expired =
          removed-Within c p index r (remove_index index v.turns c.max_retries 0 r.requests) left
            (remove_index-Removed index v.turns c.max_retries 0 r.requests)
      by left not_owned = report-Within c p index unowned r refl
      by left invalid_date = report-Within c p index misnamed r refl
      by left not_expired = report-Within c p index kept r refl

  sweep-Within :
      (c : Config) (p : Policy) (visits : List ℕ → Visit) (indices : List (List ℕ)) (r : Round)
      → Within c r (sweep calendar c p visits indices r)
  unfolding sweep
  sweep-Within c p visits [] r = record { sent = omega arith; known = λ a. a }
  sweep-Within c p visits (index ∷ indices) r = elim (Bool-cases (visits index).over) [
    | inl over ↦ rw over (record { sent = omega arith; known = λ a. a })
    | inr on ↦
        let one = visit_index-Within c p index (visits index) r in
        let more =
          sweep-Within c p visits indices (visit_index calendar c p index (visits index) r) in
        rw on (record {
          sent = omega (arith, one.sent, more.sent);
          known = λ a. more.known (one.known a);
        })
  ]

  -- A round that gets the cluster's identity and its list of indices makes, with those two calls of the
  -- store, at most two and four for each attempt that its budget of indices and its retries allow; each
  -- index that it reports on has a result.
  pub run_once_bounded :
      (c : Config) (bound identity : Option (List ℕ)) (inventory : Option (List (List ℕ)))
      (log_visits event_visits : List ℕ → Visit) (to : Option (List ℕ)) (r : Round)
      → run_once calendar c bound identity inventory log_visits event_visits ≡ (to, ok r)
      → (length r.requests ≤ 2 + 4 * (c.max_retries + 1) * c.batch_indices)
        × All (λ i. is_unknown i.result ≡ false) r.items
  unfolding sweeps
  run_once_bounded c bound identity inventory log_visits event_visits to r h =
      let (cluster, indices, same) =
        run_once_ok calendar c bound identity inventory log_visits event_visits to r h in
      let start : Round = record {
        items = [];
        remaining = c.batch_indices;
        requests = lists indices ∷ identifies cluster ∷ [];
      } in
      let one = sweep-Within c c.log_policy log_visits indices start in
      let two =
        sweep-Within c c.event_policy event_visits indices
          (sweep calendar c c.log_policy log_visits indices start) in
      subst
        (λ x.
          (length x.requests ≤ 2 + 4 * (c.max_retries + 1) * c.batch_indices)
          × All (λ i. is_unknown i.result ≡ false) x.items)
        same (omega (arith, one.sent, two.sent), two.known (one.known tt))
