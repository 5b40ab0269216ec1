-- ===== src/Retention/Deletes.antt =====
-- Which indices a round of the clean-up deletes (retention/runner.go).
use go_pulse.Base.{
  ℕ, zero, suc, ◌<◌, ◌≡◌, refl, sym, ap, subst, Bool, true, false, Option, none, some, List, [],
  ◌∷◌, Result, ok, err, ◌==◌, ltb, bytes_eq, arith, Bool-cases, inl, inr, ◌⊎◌,
}
use go_pulse.Retention.Policy.{
  Policy, Calendar, DateError, DecisionReason, expired, not_owned, invalid_date, not_expired,
  cutoff, has_prefix, parse_index_date, decide, classify,
}
use go_pulse.Retention.Runner.{
  Failure, Request, inspects, blocks, deletes, identifies, lists, ItemResult, Turn, Attempt, ends,
  again, after_second, after_block, after_first, attempt, followed, remove_index, Visit, Config,
  Round, report, removed, by_reason, visit_index, sweep, sweeps, RoundError, run_once, is_logs,
  bound_to,
}

-- The index has a date, which is before the cutoff of the policy.
pub record Due (calendar : Calendar) (p : Policy) (now : ℕ) (index : List ℕ) : Type 0 where
  pub date : ℕ
  pub named : parse_index_date calendar index p ≡ ok date
  pub before : date < cutoff p now

-- What came just before: the index was found to be owned, its writes were blocked, and it was found to be
-- owned again.
abbrev pub Guard : List ℕ → List Request → Type 0
Guard index log =
    (rest : List Request) × (log
      ≡ inspects index (ok true) ∷ blocks index none ∷ inspects index (ok true) ∷ rest)

-- Each deletion in a log, the newest request first, is of an index with a property, and guarded.
abbrev pub Justified : (List ℕ → Type 0) → List Request → Type 0
Justified P [] = Unit
Justified P (deletes index _ ∷ rest) = P index × Guard index rest × Justified P rest
Justified P (inspects _ _ ∷ rest) = Justified P rest
Justified P (blocks _ _ ∷ rest) = Justified P rest
Justified P (identifies _ ∷ rest) = Justified P rest
Justified P (lists _ ∷ rest) = Justified P rest

attempt-Justified :
    (P : List ℕ → Type 0) (index : List ℕ) (t : Turn) (last : Bool) (log : List Request)
    → P index
    → Justified P log
    → Justified P (attempt index t last log).1
unfolding attempt
attempt-Justified P index t last log due j = elim (Bool-cases t.over) [
  | inl over ↦ rw over j
  | inr on ↦ rw on (first t.first)
]
  where
    removal :
        (s : Result Failure Bool)
        → Justified P
            (after_second index t last s
              (inspects index s ∷ blocks index none ∷ inspects index (ok true) ∷ log)).1
    removal (err f) = j
    removal (ok false) = j
    removal (ok true) = (due, (log, refl), j)

    block :
        (b : Option Failure)
        → Justified P
            (after_block index t last b (blocks index b ∷ inspects index (ok true) ∷ log)).1
    block (some f) = j
    block none = removal t.second

    first :
        (f : Result Failure Bool)
        → Justified P (after_first index t last f (inspects index f ∷ log)).1
    first (err f) = j
    first (ok false) = j
    first (ok true) = block t.block

followed-Justified :
    (P : List ℕ → Type 0) (a : Attempt × List Request)
    (next : List Request → Option ItemResult × List Request)
    → Justified P a.1
    → ((log : List Request) → Justified P log → Justified P (next log).1)
    → Justified P (followed a next).1
unfolding followed
followed-Justified P (ends result, log) next j go = j
followed-Justified P (again, log) next j go = go log j

remove_index-Justified :
    (P : List ℕ → Type 0) (index : List ℕ) (turns : ℕ → Turn) (left number : ℕ) (log : List Request)
    → P index
    → Justified P log
    → Justified P (remove_index index turns left number log).1
unfolding remove_index
remove_index-Justified P index turns zero number log due j =
    followed-Justified P (attempt index (turns number) true log) (λ log'. (none, log'))
      (attempt-Justified P index (turns number) true log due j) (λ log' j'. j')
remove_index-Justified P index turns (suc left) number log due j =
    followed-Justified P (attempt index (turns number) false log)
      (remove_index index turns left (suc number))
      (attempt-Justified P index (turns number) false log due j)
      (λ log' j'. remove_index-Justified P index turns left (suc number) log' due j')

ok-injective : {A B : Type 0} {a b : B} → ◌≡◌ {A = Result A B} (ok a) (ok b) → a ≡ b
ok-injective h = cc

removed-requests :
    (p : Policy) (index : List ℕ) (r : Round) (done : Option ItemResult × List Request)
    → (removed p index done r).requests ≡ done.1
unfolding removed report
removed-requests p index r (none, log) = refl
removed-requests p index r (some result, log) = refl

module _ (calendar : Calendar) where
  decide-Due :
      (p : Policy) (index : List ℕ) (now : ℕ) (date : Result DateError ℕ)
      → parse_index_date calendar index p ≡ date
      → (decide calendar (cutoff p now) (has_prefix p.prefix index) date).reason ≡ expired
      → Due calendar p now index
  decide-Due p index now (err e) named h = elim (Bool-cases (has_prefix p.prefix index)) [
    | inl owned ↦ absurd (differ_date (ground (arith, h, owned)))
    | inr foreign ↦ absurd (differ_owner (ground (arith, h, foreign)))
  ]
    where
      differ_date : invalid_date ≡ expired → ⊥
      differ_date k = cc

      differ_owner : not_owned ≡ expired → ⊥
      differ_owner k = cc
  decide-Due p index now (ok date) named h = elim (Bool-cases (ltb date (cutoff p now))) [
    | inl before ↦ record { date = date; named = named; before = ground (arith, before) }
    | inr after ↦ absurd (differ (ground (arith, h, after)))
  ]
    where
      differ : not_expired ≡ expired → ⊥
      differ k = cc

  classify-Due :
      (p : Policy) (index : List ℕ) (now : ℕ)
      → (classify calendar p index now).reason ≡ expired
      → Due calendar p now index
  unfolding classify
  classify-Due p index now h = decide-Due p index now (parse_index_date calendar index p) refl h

  visit_index-Justified :
      (P : List ℕ → Type 0) (c : Config) (p : Policy) (index : List ℕ) (v : Visit) (r : Round)
      → (Due calendar p v.now index → P index)
      → Justified P r.requests
      → Justified P (visit_index calendar c p index v r).requests
  unfolding visit_index report classify
  visit_index-Justified P c p index v r due j = elim (Bool-cases (has_prefix p.prefix index)) [
    | inr foreign ↦ elim (Bool-cases (is_logs p.stream)) [
      | inl told ↦ rw (foreign, told) j
      | inr untold ↦ rw (foreign, untold) j
    ]
    | inl owned ↦ elim (Bool-cases (r.remaining == 0)) [
      | inl spent ↦ rw (owned, spent) j
      | inr budget ↦
          rw (owned, budget)
            (by _ (
              ap
                (λ x.
                  (decide calendar (cutoff p v.now) x (parse_index_date calendar index p)).reason)
                owned))
    ]
  ]
    where
      by :
          (reason : DecisionReason)
          → (classify calendar p index v.now).reason ≡ reason
          → Justified P (by_reason calendar c p index v r reason).requests
      by expired same =
          subst (Justified P)
            (sym
              (removed-requests p index r (remove_index index v.turns c.max_retries 0 r.requests)))
            (remove_index-Justified P index v.turns c.max_retries 0 r.requests
              (due (classify-Due p index v.now same)) j)
      by not_owned same = j
      by invalid_date same = j
      by not_expired same = j

  sweep-Justified :
      (P : List ℕ → Type 0) (c : Config) (p : Policy) (visits : List ℕ → Visit)
      (indices : List (List ℕ)) (r : Round)
      → ((index : List ℕ) → Due calendar p (visits index).now index → P index)
      → Justified P r.requests
      → Justified P (sweep calendar c p visits indices r).requests
  unfolding sweep
  sweep-Justified P c p visits [] r due j = j
  sweep-Justified P c p visits (index ∷ indices) r due j = elim (Bool-cases (visits index).over) [
    | inl over ↦ rw over j
    | inr on ↦ rw on (
        sweep-Justified P c p visits indices (visit_index calendar c p index (visits index) r) due
          (visit_index-Justified P c p index (visits index) r (due index) j))
  ]

  pub run_once_ok :
      (c : Config) (bound identity : Option (List ℕ)) (inventory : Option (List (List ℕ)))
      (log_visits event_visits : List ℕ → Visit) (to : Option (List ℕ)) (r : Round)
      → run_once calendar c bound identity inventory log_visits event_visits ≡ (to, ok r)
      → (cluster : List ℕ) × (indices : List (List ℕ)) × (sweeps calendar c cluster log_visits
            event_visits indices
          ≡ r)
  unfolding run_once
  run_once_ok c bound none inventory log_visits event_visits to r h = absurd (cc)
  run_once_ok c bound (some cluster) none log_visits event_visits to r h =
      elim (Bool-cases (bytes_eq cluster (bound_to bound cluster))) [
        | inl same ↦ absurd (not_ok (ap (λ x. x.1) (rw same at h)))
        | inr other ↦ absurd (not_ok (ap (λ x. x.1) (rw other at h)))
      ]
    where
      not_ok : {e : RoundError} → err e ≡ ok r → ⊥
      not_ok k = cc
  run_once_ok c bound (some cluster) (some indices) log_visits event_visits to r h =
      elim (Bool-cases (bytes_eq cluster (bound_to bound cluster))) [
        | inl same ↦ (cluster, indices, ok-injective (ap (λ x. x.1) (rw same at h)))
        | inr other ↦ absurd (not_ok (ap (λ x. x.1) (rw other at h)))
      ]
    where
      not_ok : {e : RoundError} → err e ≡ ok r → ⊥
      not_ok k = cc

  -- The index was due in the sweep of one of the streams.
  abbrev pub DueThen : Config → (List ℕ → Visit) → (List ℕ → Visit) → List ℕ → Type 0
  DueThen c log_visits event_visits index =
      Due calendar c.log_policy (log_visits index).now index
      ⊎ Due calendar c.event_policy (event_visits index).now index

  -- In a round with any answers of the store, each index that is deleted has a date in its name that was before
  -- the cutoff of its stream's policy when the index was visited, and the three requests before its
  -- deletion found it to be owned, blocked its writes, and found it to be owned again.
  pub run_once-Justified :
      (c : Config) (bound identity : Option (List ℕ)) (inventory : Option (List (List ℕ)))
      (log_visits event_visits : List ℕ → Visit) (to : Option (List ℕ)) (r : Round)
      → run_once calendar c bound identity inventory log_visits event_visits ≡ (to, ok r)
      → Justified (DueThen c log_visits event_visits) r.requests
  unfolding sweeps
  run_once-Justified c bound identity inventory log_visits event_visits to r h =
      let (cluster, indices, same) =
        run_once_ok c bound identity inventory log_visits event_visits to r h in
      subst (λ x. Justified (DueThen c log_visits event_visits) x.requests) same
        (sweep-Justified (DueThen c log_visits event_visits) c c.event_policy event_visits indices _
          (λ index d. inr d)
          (sweep-Justified (DueThen c log_visits event_visits) c c.log_policy log_visits indices _
            (λ index d. inl d) tt))
