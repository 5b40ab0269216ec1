-- ===== src/Outbox/Trace.antt =====
-- The outbox table under any sequence of the repository's calls (outbox/repository.go): several
-- dispatchers claim, publish and release while the business handlers insert.
use go_pulse.Base.{
  ℕ, ◌+◌, ◌^◌, ◌%◌, ◌≡◌, refl, ap, subst, ◌∙◌, Bool, true, false, not, ◌&&◌, ◌||◌, Option, none,
  some, List, [], ◌∷◌, ◌==◌, ltb, has, length, arith, inl, inr, Bool-cases, Result, ok, err,
}
use go_pulse.Outbox.Row.{
  FailureCode, Row, available, expired, update_rows, claimable, holds_lease, matches,
}
use go_pulse.Outbox.Repository.{
  Error, Repository, insert, claim, mark_published, mark_published_batch, release_failed,
  release_found, find_leased, publish_row, release_row, leased_row, active_ids, valid_owner,
  default_max_claim_batch, maximum_backoff,
}
use go_pulse.Outbox.Table.{
  find_row, Keyed, KeepsId, find_row-update_rows, find_row-append, update_row_miss, find_row-id,
  matches-leased_row,
}
use go_pulse.Outbox.Claims.{claim_effect, claim-eq-err}

-- A call of one of the repository's methods, with the clock's reading and whether the database answers.
pub data Call : Type 0 where
  inserts : Bool → ℕ → List ℕ → List ℕ → Call
  claims : Bool → List ℕ → ℕ → List ℕ → ℕ → ℕ → Call
  marks : Bool → ℕ → ℕ → List ℕ → Call
  marks_batch : Bool → ℕ → List ℕ → List ℕ → Call
  releases : Bool → ℕ → ℕ → List ℕ → FailureCode → (ℕ → ℕ) → Call

unfoldable pub step : Repository → Call → Repository
step p (inserts answers now event_id payload) = (insert p answers now event_id payload).0
step p (claims answers locked now owner batch lease) =
    (claim p answers locked now owner batch lease).0
step p (marks answers now id owner) = (mark_published p answers now id owner).0
step p (marks_batch answers now batch owner) = (mark_published_batch p answers now batch owner).0
step p (releases answers now id owner failure backoff) =
    (release_failed p answers now id owner failure backoff).0

unfoldable pub run : Repository → List Call → Repository
run p [] = p
run p (c ∷ cs) = run (step p c) cs

-- A call that cannot touch a row in the state `r`: a claim to which the row is not eligible, or an
-- acknowledgement by one who does not hold its lease.
abbrev pub Refuses : Row → Call → Type 0
Refuses r (inserts _ _ _ _) = Unit
Refuses r (claims _ locked now _ _ _) =
    (claimable available now locked r ≡ false) × (claimable expired now locked r ≡ false)
Refuses r (marks _ now id owner) = leased_row id owner now r ≡ false
Refuses r (marks_batch _ now batch owner) = (has batch r.id && holds_lease owner now r) ≡ false
Refuses r (releases _ now id owner _ _) = leased_row id owner now r ≡ false

-- What the calls keep: IDs ascend and stay below the table's counter.
abbrev pub Wf : Repository → Type 0
Wf p = Keyed 1 p.next_id p.rows

update-same :
    (i : ℕ) (q : Row → Bool) (f : Row → Row) (rs : List Row) (r : Row)
    → KeepsId f
    → find_row i rs ≡ some r
    → q r ≡ false
    → find_row i (update_rows q f rs) ≡ some r
update-same i q f rs r same found miss =
    find_row-update_rows i q f rs r same found ∙ ap some (update_row_miss q f r miss)

pub publish_row-KeepsId : (now : ℕ) → KeepsId (publish_row now)
unfolding publish_row
publish_row-KeepsId now r = refl

pub release_row-KeepsId :
    (now : ℕ) (failure : FailureCode) (backoff : ℕ → ℕ) → KeepsId (release_row now failure backoff)
unfolding release_row
release_row-KeepsId now failure backoff r = refl

insert_keeps :
    (p : Repository) (answers : Bool) (now : ℕ) (e b : List ℕ) (i : ℕ) (r : Row)
    → find_row i p.rows ≡ some r
    → find_row i (insert p answers now e b).0.rows ≡ some r
unfolding insert
insert_keeps p true now e b i r found = find_row-append i p.rows r _ found
insert_keeps p false now e b i r found = found

claim_refused :
    (p p' : Repository) (answers : Bool) (locked : List ℕ) (now : ℕ) (owner : List ℕ)
    (batch lease i : ℕ) (r : Row) (result : Result Error (List Row))
    → Wf p
    → find_row i p.rows ≡ some r
    → claimable available now locked r ≡ false
    → claimable expired now locked r ≡ false
    → claim p answers locked now owner batch lease ≡ (p', result)
    → find_row i p'.rows ≡ some r
claim_refused p p' answers locked now owner batch lease i r (ok records) wf found a e h =
    elim (claim_effect p p' answers locked now owner batch lease records i 1 p.next_id r wf found
      h) [
        | inl (_, same) ↦ same
        | inr (_, inl was, _) ↦ absurd (cc)
        | inr (_, inr was, _) ↦ absurd (cc)
      ]
claim_refused p p' answers locked now owner batch lease i r (err f) wf found a e h =
    ap (find_row i) (claim-eq-err p p' answers locked now owner batch lease f h).0 ∙ found

mark_refused :
    (p : Repository) (answers : Bool) (now id : ℕ) (owner : List ℕ) (i : ℕ) (r : Row)
    → find_row i p.rows ≡ some r
    → leased_row id owner now r ≡ false
    → find_row i (mark_published p answers now id owner).0.rows ≡ some r
unfolding mark_published
mark_refused p answers now id owner i r found miss =
    elim (Bool-cases (id == 0 || not (valid_owner owner))) [
      | inl bad ↦ rw bad found
      | inr good ↦ elim (Bool-cases answers) [
        | inl up ↦
            rw (good, up)
              (update-same i (leased_row id owner now) (publish_row now) p.rows r
                (publish_row-KeepsId now) found miss)
        | inr down ↦ rw (good, down) found
      ]
    ]

-- Which IDs of a batch the transaction finds leased.
pub has-active_ids :
    (owner : List ℕ) (now i lo hi : ℕ) (rs : List Row) (r : Row) (batch : List ℕ)
    → Keyed lo hi rs
    → find_row i rs ≡ some r
    → has (active_ids owner now rs batch) i ≡ (has batch i && holds_lease owner now r)
unfolding active_ids has
has-active_ids owner now i lo hi rs r [] k found = refl
has-active_ids owner now i lo hi rs r (id ∷ batch) k found =
    let rest = has-active_ids owner now i lo hi rs r batch k found in
    elim (Bool-cases (id == i)) [
      | inl here ↦
          let same : id ≡ i = ground arith in
          ground (arith, rest, same, matches-leased_row i owner now lo hi rs r k found)
      | inr other ↦ ground (arith, rest)
    ]

batch_refused :
    (p : Repository) (answers : Bool) (now : ℕ) (batch owner : List ℕ) (i : ℕ) (r : Row)
    → Wf p
    → find_row i p.rows ≡ some r
    → (has batch i && holds_lease owner now r) ≡ false
    → find_row i (mark_published_batch p answers now batch owner).0.rows ≡ some r
unfolding mark_published_batch
batch_refused p answers now batch owner i r wf found miss =
    elim (Bool-cases (not (valid_owner owner) || ltb default_max_claim_batch (length batch))) [
      | inl bad ↦ rw bad found
      | inr good ↦ elim (Bool-cases (not answers && not (length batch == 0))) [
        | inl down ↦ rw (good, down) found
        | inr up ↦
            rw (good, up)
              (update-same i (λ x. has (active_ids owner now p.rows batch) x.id) (publish_row now)
                p.rows r (publish_row-KeepsId now) found
                (rw (find_row-id i p.rows r found)
                  (has-active_ids owner now i 1 p.next_id p.rows r batch wf found ∙ miss)))
      ]
    ]

found_refused :
    (p : Repository) (now id : ℕ) (owner : List ℕ) (f : FailureCode) (backoff : ℕ → ℕ)
    (o : Option Row) (i : ℕ) (r : Row)
    → find_row i p.rows ≡ some r
    → leased_row id owner now r ≡ false
    → find_row i (release_found p now id owner f backoff o).0.rows ≡ some r
unfolding release_found
found_refused p now id owner f backoff none i r found miss = found
found_refused p now id owner f backoff (some s) i r found miss =
    elim (Bool-cases (ltb maximum_backoff (backoff ((s.attempt_count + 1) % 2 ^ 32)))) [
      | inl long ↦ rw long found
      | inr fine ↦ elim (Bool-cases (matches (leased_row id owner now) p.rows == 1)) [
        | inl one ↦
            rw (fine, one)
              (update-same i (leased_row id owner now) (release_row now f backoff) p.rows r
                (release_row-KeepsId now f backoff) found miss)
        | inr none_held ↦ rw (fine, none_held) found
      ]
    ]

release_refused :
    (p : Repository) (answers : Bool) (now id : ℕ) (owner : List ℕ) (f : FailureCode)
    (backoff : ℕ → ℕ) (i : ℕ) (r : Row)
    → find_row i p.rows ≡ some r
    → leased_row id owner now r ≡ false
    → find_row i (release_failed p answers now id owner f backoff).0.rows ≡ some r
unfolding release_failed
release_refused p answers now id owner f backoff i r found miss =
    elim (Bool-cases (id == 0 || not (valid_owner owner))) [
      | inl bad ↦ rw bad found
      | inr good ↦ elim (Bool-cases answers) [
        | inl up ↦
            rw (good, up)
              (found_refused p now id owner f backoff (find_leased id owner now p.rows) i r found
                miss)
        | inr down ↦ rw (good, down) found
      ]
    ]

pub step_refused :
    (p : Repository) (c : Call) (i : ℕ) (r : Row)
    → Wf p
    → find_row i p.rows ≡ some r
    → Refuses r c
    → find_row i (step p c).rows ≡ some r
unfolding step
step_refused p (inserts answers now e b) i r wf found u = insert_keeps p answers now e b i r found
step_refused p (claims answers locked now owner batch lease) i r wf found u =
    claim_refused p _ answers locked now owner batch lease i r
      (claim p answers locked now owner batch lease).1 wf found u.0 u.1 refl
step_refused p (marks answers now id owner) i r wf found u =
    mark_refused p answers now id owner i r found u
step_refused p (marks_batch answers now batch owner) i r wf found u =
    batch_refused p answers now batch owner i r wf found (
      subst (λ j. (has batch j && holds_lease owner now r) ≡ false) (find_row-id i p.rows r found)
        u)
step_refused p (releases answers now id owner f backoff) i r wf found u =
    release_refused p answers now id owner f backoff i r found u
