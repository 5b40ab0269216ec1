-- ===== src/Outbox/Exclusive.antt =====
-- Ownership of an outbox row over sequences of calls (outbox/repository.go): the table stays keyed, a
-- published row is final, and a lease is exclusive until it ends.
use go_pulse.Base.{
  ℕ, suc, ◌+◌, ◌^◌, ◌%◌, ◌<◌, ◌≡◌, refl, Bool, true, false, not, ◌&&◌, ◌||◌, Option, none, some,
  List, [], ◌∷◌, ◌++◌, ◌==◌, ltb, has, All, length, arith, inl, inr, Bool-cases, bytes_eq,
}
use go_pulse.Outbox.Row.{leased, published, FailureCode, Row, claimable, holds_lease, matches}
use go_pulse.Outbox.Repository.{
  Repository, ids, insert, claim, mark_published, mark_published_batch, release_failed,
  release_found, find_leased, publish_row, release_row, lease_row, leased_row, active_ids,
  valid_owner, scan, default_max_claim_batch, maximum_backoff, claim_valid,
}
use go_pulse.Outbox.Table.{find_row, Keyed, update_rows-Keyed}
use go_pulse.Outbox.Claims.{lease_row-KeepsId}
use go_pulse.Outbox.Trace.{
  Call, inserts, claims, marks, marks_batch, releases, step, run, Refuses, Wf, step_refused,
  publish_row-KeepsId, release_row-KeepsId,
}

Keyed-append :
    (lo hi : ℕ) (rs : List Row) (r : Row)
    → Keyed lo hi rs
    → r.id ≡ hi
    → Keyed lo (hi + 1) (rs ++ r ∷ [])
Keyed-append lo hi [] r k same = (omega arith, omega arith, omega arith)
Keyed-append lo hi (s ∷ rs) r k same = (k.0, omega arith, Keyed-append (suc s.id) hi rs r k.2 same)

insert-Wf :
    (p : Repository) (answers : Bool) (now : ℕ) (e b : List ℕ)
    → Wf p
    → Wf (insert p answers now e b).0
unfolding insert
insert-Wf p true now e b wf = Keyed-append 1 p.next_id p.rows _ wf refl
insert-Wf p false now e b wf = wf

claim-Wf :
    (p : Repository) (answers : Bool) (locked : List ℕ) (now : ℕ) (owner : List ℕ) (batch lease : ℕ)
    → Wf p
    → Wf (claim p answers locked now owner batch lease).0
unfolding claim
claim-Wf p answers locked now owner batch lease wf =
    elim (Bool-cases (claim_valid p owner batch lease)) [
      | inr bad ↦ rw bad wf
      | inl good ↦ elim (Bool-cases answers) [
        | inr down ↦ rw (good, down) wf
        | inl up ↦
            rw (good, up)
              (update_rows-Keyed
                (λ x. has (ids (scan ((p.claim_turn + 1) % 2 ^ 64) now locked batch p.rows)) x.id)
                (lease_row owner (now + lease) now) 1 p.next_id p.rows
                (lease_row-KeepsId owner (now + lease) now) wf)
      ]
    ]

mark-Wf :
    (p : Repository) (answers : Bool) (now id : ℕ) (owner : List ℕ)
    → Wf p
    → Wf (mark_published p answers now id owner).0
unfolding mark_published
mark-Wf p answers now id owner wf = elim (Bool-cases (id == 0 || not (valid_owner owner))) [
  | inl bad ↦ rw bad wf
  | inr good ↦ elim (Bool-cases answers) [
    | inl up ↦
        rw (good, up)
          (update_rows-Keyed (leased_row id owner now) (publish_row now) 1 p.next_id p.rows
            (publish_row-KeepsId now) wf)
    | inr down ↦ rw (good, down) wf
  ]
]

batch-Wf :
    (p : Repository) (answers : Bool) (now : ℕ) (batch owner : List ℕ)
    → Wf p
    → Wf (mark_published_batch p answers now batch owner).0
unfolding mark_published_batch
batch-Wf p answers now batch owner wf =
    elim (Bool-cases (not (valid_owner owner) || ltb default_max_claim_batch (length batch))) [
      | inl bad ↦ rw bad wf
      | inr good ↦ elim (Bool-cases (not answers && not (length batch == 0))) [
        | inl down ↦ rw (good, down) wf
        | inr up ↦
            rw (good, up)
              (update_rows-Keyed (λ x. has (active_ids owner now p.rows batch) x.id)
                (publish_row now) 1 p.next_id p.rows (publish_row-KeepsId now) wf)
      ]
    ]

found-Wf :
    (p : Repository) (now id : ℕ) (owner : List ℕ) (f : FailureCode) (backoff : ℕ → ℕ)
    (o : Option Row)
    → Wf p
    → Wf (release_found p now id owner f backoff o).0
unfolding release_found
found-Wf p now id owner f backoff none wf = wf
found-Wf p now id owner f backoff (some s) wf =
    elim (Bool-cases (ltb maximum_backoff (backoff ((s.attempt_count + 1) % 2 ^ 32)))) [
      | inl long ↦ rw long wf
      | inr fine ↦ elim (Bool-cases (matches (leased_row id owner now) p.rows == 1)) [
        | inl one ↦
            rw (fine, one)
              (update_rows-Keyed (leased_row id owner now) (release_row now f backoff) 1 p.next_id
                p.rows (release_row-KeepsId now f backoff) wf)
        | inr none_held ↦ rw (fine, none_held) wf
      ]
    ]

release-Wf :
    (p : Repository) (answers : Bool) (now id : ℕ) (owner : List ℕ) (f : FailureCode)
    (backoff : ℕ → ℕ)
    → Wf p
    → Wf (release_failed p answers now id owner f backoff).0
unfolding release_failed
release-Wf p answers now id owner f backoff wf =
    elim (Bool-cases (id == 0 || not (valid_owner owner))) [
      | inl bad ↦ rw bad wf
      | inr good ↦ elim (Bool-cases answers) [
        | inl up ↦
            rw (good, up) (found-Wf p now id owner f backoff (find_leased id owner now p.rows) wf)
        | inr down ↦ rw (good, down) wf
      ]
    ]

step-Wf : (p : Repository) (c : Call) → Wf p → Wf (step p c)
unfolding step
step-Wf p (inserts answers now e b) wf = insert-Wf p answers now e b wf
step-Wf p (claims answers locked now owner batch lease) wf =
    claim-Wf p answers locked now owner batch lease wf
step-Wf p (marks answers now id owner) wf = mark-Wf p answers now id owner wf
step-Wf p (marks_batch answers now batch owner) wf = batch-Wf p answers now batch owner wf
step-Wf p (releases answers now id owner f backoff) wf =
    release-Wf p answers now id owner f backoff wf

run_refused :
    (p : Repository) (cs : List Call) (i : ℕ) (r : Row)
    → Wf p
    → find_row i p.rows ≡ some r
    → All (Refuses r) cs
    → find_row i (run p cs).rows ≡ some r
unfolding run
run_refused p [] i r wf found u = found
run_refused p (c ∷ cs) i r wf found u =
    run_refused (step p c) cs i r (step-Wf p c wf) (step_refused p c i r wf found u.0) u.1

published-Refuses : (r : Row) (c : Call) → r.status ≡ published → Refuses r c
unfolding claimable holds_lease
published-Refuses r (inserts _ _ _ _) s = tt
published-Refuses r (claims _ locked now _ _ _) s = (rw s refl, rw s refl)
published-Refuses r (marks _ now id owner) s = ground arith
published-Refuses r (marks_batch _ now batch owner) s = ground arith
published-Refuses r (releases _ now id owner _ _) s = ground arith

All-refused : (r : Row) (cs : List Call) → r.status ≡ published → All (Refuses r) cs
All-refused r [] s = tt
All-refused r (c ∷ cs) s = (published-Refuses r c s, All-refused r cs s)

-- Once a row is published, no call of the repository's delivery methods, whoever makes it and in
-- whatever order, changes anything of it again: it is not delivered, released or acknowledged twice.
pub run_final :
    (p : Repository) (cs : List Call) (i : ℕ) (r : Row)
    → Wf p
    → find_row i p.rows ≡ some r
    → r.status ≡ published
    → find_row i (run p cs).rows ≡ some r
run_final p cs i r wf found s = run_refused p cs i r wf found (All-refused r cs s)

-- A call made before `expires`, and not an acknowledgement or release in the name of `owner`.
abbrev pub Foreign : List ℕ → ℕ → Call → Type 0
Foreign owner expires (inserts _ _ _ _) = Unit
Foreign owner expires (claims _ _ now _ _ _) = now < expires
Foreign owner expires (marks _ _ _ by) = bytes_eq owner by ≡ false
Foreign owner expires (marks_batch _ _ _ by) = bytes_eq owner by ≡ false
Foreign owner expires (releases _ _ _ by _ _) = bytes_eq owner by ≡ false

-- The row is leased to `owner` until `expires`.
abbrev pub LeasedTo : List ℕ → ℕ → Row → Type 0
LeasedTo owner expires r =
    (r.status ≡ leased) × (r.lease_owner ≡ some owner) × (r.lease_expires_at ≡ some expires)

not_held :
    (owner by : List ℕ) (expires now : ℕ) (r : Row)
    → LeasedTo owner expires r
    → bytes_eq owner by ≡ false
    → holds_lease by now r ≡ false
unfolding holds_lease
not_held owner by expires now r (s, o, e) other = rw (s, o, other) refl

Foreign-refused :
    (owner : List ℕ) (expires : ℕ) (r : Row) (c : Call)
    → LeasedTo owner expires r
    → Foreign owner expires c
    → Refuses r c
unfolding claimable
Foreign-refused owner expires r (inserts _ _ _ _) l f = tt
Foreign-refused owner expires r (claims _ locked now _ _ _) (s, o, e) f =
    (rw s refl, rw (s, e) (ground arith))
Foreign-refused owner expires r (marks _ now id by) l f =
    rw (not_held owner by expires now r l f) (ground arith)
Foreign-refused owner expires r (marks_batch _ now batch by) l f =
    rw (not_held owner by expires now r l f) (ground arith)
Foreign-refused owner expires r (releases _ now id by _ _) l f =
    rw (not_held owner by expires now r l f) (ground arith)

-- A lease is exclusive: through any sequence of inserts, of claims by whatever dispatcher at clocks
-- before the lease's end, and of acknowledgements and releases by other owners, the leased row stays
-- exactly as it is.
pub run_exclusive :
    (p : Repository) (cs : List Call) (i : ℕ) (r : Row) (owner : List ℕ) (expires : ℕ)
    → Wf p
    → find_row i p.rows ≡ some r
    → LeasedTo owner expires r
    → All (Foreign owner expires) cs
    → find_row i (run p cs).rows ≡ some r
run_exclusive p cs i r owner expires wf found l fs = run_refused p cs i r wf found (each cs fs)
  where
    each : (cs : List Call) → All (Foreign owner expires) cs → All (Refuses r) cs
    each [] fs = tt
    each (c ∷ cs) fs = (Foreign-refused owner expires r c l fs.0, each cs fs.1)
