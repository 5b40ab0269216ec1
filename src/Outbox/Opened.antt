-- ===== src/Outbox/Opened.antt =====
-- `NewRepository` of outbox/repository.go, and what it bounds.
use go_pulse.Base.{
  ℕ, ◌*◌, ◌≤◌, ◌≡◌, Bool, true, not, ◌||◌, List, length, Result, ok, err, ◌==◌, ltb, leb,
  if◌then◌else◌, arith, inl, inr, Bool-cases,
}
use go_pulse.Outbox.Row.{Row}
use go_pulse.Outbox.Repository.{
  Error, invalid_argument, Repository, default_max_claim_batch, second, claim, claim_valid,
}
use go_pulse.Outbox.Claims.{claim_fills}

-- The fields of `Options` that are checked; the rest are parameters of the methods.
pub record RepositoryOptions : Type 0 where
  pub has_database : Bool
  pub database_timeout : ℕ
  pub max_claim_batch : ℕ

-- `rows` and `next_id` are the table as the database has it.
unfoldable pub new_repository : RepositoryOptions → List Row → ℕ → Result Error Repository
new_repository o rows next_id =
    let batch = if o.max_claim_batch == 0 then default_max_claim_batch else o.max_claim_batch in
    let timeout = if o.database_timeout == 0 then 2 * second else o.database_timeout in
    if not o.has_database
    then err invalid_argument
    else if ltb batch 1 || ltb default_max_claim_batch batch
    then err invalid_argument
    else if ltb timeout 10000 || ltb (30 * second) timeout
    then err invalid_argument
    else ok (record { rows = rows; next_id = next_id; claim_turn = 0; max_claim_batch = batch })

new_repository-batch :
    (o : RepositoryOptions) (rows : List Row) (next_id : ℕ) (p : Repository)
    → new_repository o rows next_id ≡ ok p
    → p.max_claim_batch ≤ default_max_claim_batch
unfolding new_repository
new_repository-batch o rows next_id p h =
    let batch = if o.max_claim_batch == 0 then default_max_claim_batch else o.max_claim_batch in
    elim (Bool-cases (ltb batch 1 || ltb default_max_claim_batch batch)) [
      | inl bad ↦ absurd (ground (arith, h, bad))
      | inr good ↦ ground (arith, h, good)
    ]

claim-eq-ok_valid :
    (p p' : Repository) (answers : Bool) (locked : List ℕ) (now : ℕ) (owner : List ℕ)
    (batch lease : ℕ) (records : List Row)
    → claim p answers locked now owner batch lease ≡ (p', ok records)
    → claim_valid p owner batch lease ≡ true
unfolding claim
claim-eq-ok_valid p p' answers locked now owner batch lease records h =
    elim (Bool-cases (claim_valid p owner batch lease)) [
      | inl good ↦ good
      | inr bad ↦ absurd (ground (arith, h, bad))
    ]

-- Whatever is configured and asked for, a claim on a repository that `NewRepository` accepted returns no
-- more records than were asked for, and never more than fifty.
pub claim_bounded :
    (o : RepositoryOptions) (rows : List Row) (next_id : ℕ) (p p' : Repository) (answers : Bool)
    (locked : List ℕ) (now : ℕ) (owner : List ℕ) (batch lease : ℕ) (records : List Row)
    → new_repository o rows next_id ≡ ok p
    → claim p answers locked now owner batch lease ≡ (p', ok records)
    → (length records ≤ batch) × (batch ≤ default_max_claim_batch)
unfolding claim_valid
claim_bounded o rows next_id p p' answers locked now owner batch lease records made h =
    let valid = claim-eq-ok_valid p p' answers locked now owner batch lease records h in
    let most = new_repository-batch o rows next_id p made in
    let count = claim_fills p p' answers locked now owner batch lease records h in
    let asked : leb batch p.max_claim_batch ≡ true = ground (arith, valid) in
    (omega (arith, count), ground (arith, asked, most))
