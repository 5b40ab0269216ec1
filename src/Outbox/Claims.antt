-- ===== src/Outbox/Claims.antt =====
-- What `Claim` of outbox/repository.go does to each row, and how many rows it takes.
use go_pulse.Base.{
  some-injective, ℕ, suc, ◌+◌, ◌-◌, ◌%◌, ◌^◌, ◌≡◌, refl, sym, ap, subst, ◌∙◌, Bool, true, false,
  some, List, [], ◌∷◌, map, ◌==◌, has, keep, length, length-append, arith, ◌⊎◌, inl, inr,
  Bool-cases, min, ok, err,
}
use go_pulse.Outbox.Row.{Row, leased, Branch, available, expired, update_rows, claimable, select}
use go_pulse.Outbox.Repository.{
  Error, Repository, ids, lease_row, scan_two, scan, claim, claim_valid,
}
use go_pulse.Outbox.Table.{
  find_row, Keyed, KeepsId, has-append, has-select, length-select, find_row-update_rows,
  update_row_hit, update_row_miss, find_row-id,
}

-- A row that one of the scans may take.
abbrev pub Eligible : ℕ → List ℕ → Row → Type 0
Eligible now locked r =
    (claimable available now locked r ≡ true) ⊎ (claimable expired now locked r ≡ true)

Found : ℕ → List ℕ → ℕ → List Row → Type 0
Found now locked i rs = (r : Row) × (find_row i rs ≡ some r) × Eligible now locked r

either :
    (b : Branch) (now i : ℕ) (locked : List ℕ) (rs : List Row) (r : Row)
    → find_row i rs ≡ some r
    → claimable b now locked r ≡ true
    → Found now locked i rs
unfolding Found
either available now i locked rs r found c = (r, found, inl c)
either expired now i locked rs r found c = (r, found, inr c)

one_scan :
    (b : Branch) (now : ℕ) (locked : List ℕ) (limit i lo hi : ℕ) (rs : List Row)
    → Keyed lo hi rs
    → has (ids (select b now locked limit rs)) i ≡ true
    → Found now locked i rs
one_scan b now locked limit i lo hi rs k h =
    let (r, found, c) = has-select b now locked limit i lo hi rs k h in
    either b now i locked rs r found c

scan_two-Found :
    (a b : Branch) (now : ℕ) (locked : List ℕ) (batch i lo hi : ℕ) (rs : List Row)
    → Keyed lo hi rs
    → has (ids (scan_two a b now locked batch rs)) i ≡ true
    → Found now locked i rs
unfolding scan_two
scan_two-Found a b now locked batch i lo hi rs k h =
    elim (Bool-cases (length (select a now locked batch rs) == batch)) [
      | inl full ↦ one_scan a now locked batch i lo hi rs k (rw full at h)
      | inr room ↦
          elim (has-append i (select a now locked batch rs)
            (select b now locked (batch - length (select a now locked batch rs)) rs)
            (rw room at h)) [
              | inl one ↦ one_scan a now locked batch i lo hi rs k one
              | inr two ↦
                  one_scan b now locked (batch - length (select a now locked batch rs)) i lo hi rs k
                    two
            ]
    ]

scan-Found :
    (turn now : ℕ) (locked : List ℕ) (batch i lo hi : ℕ) (rs : List Row)
    → Keyed lo hi rs
    → has (ids (scan turn now locked batch rs)) i ≡ true
    → Found now locked i rs
unfolding scan
scan-Found turn now locked batch i lo hi rs k h = elim (Bool-cases (turn % 2 == 0)) [
  | inl even ↦ scan_two-Found expired available now locked batch i lo hi rs k (rw even at h)
  | inr odd ↦ scan_two-Found available expired now locked batch i lo hi rs k (rw odd at h)
]

-- How many rows a scan may take.
unfoldable pub eligible : Branch → ℕ → List ℕ → List Row → ℕ
eligible b now locked rs = length (keep (claimable b now locked) rs)

length-scan_two :
    (a b : Branch) (now : ℕ) (locked : List ℕ) (batch : ℕ) (rs : List Row)
    → length (scan_two a b now locked batch rs)
      ≡ min batch (eligible a now locked rs + eligible b now locked rs)
unfolding scan_two eligible
length-scan_two a b now locked batch rs =
    let first = length-select a now locked batch rs in
    elim (Bool-cases (length (select a now locked batch rs) == batch)) [
      | inl full ↦ rw full (ground (arith, first, full))
      | inr room ↦ rw room (
          ground (
            arith,
            first,
            room,
            length-append (select a now locked batch rs)
                (select b now locked (batch - length (select a now locked batch rs)) rs),
            length-select b now locked (batch - length (select a now locked batch rs)) rs,
          ))
    ]

length-scan :
    (turn now : ℕ) (locked : List ℕ) (batch : ℕ) (rs : List Row)
    → length (scan turn now locked batch rs)
      ≡ min batch (eligible available now locked rs + eligible expired now locked rs)
unfolding scan
length-scan turn now locked batch rs = elim (Bool-cases (turn % 2 == 0)) [
  | inl even ↦ rw even (omega (arith, length-scan_two expired available now locked batch rs))
  | inr odd ↦ rw odd (length-scan_two available expired now locked batch rs)
]

ids-map :
    (owner : List ℕ) (e now : ℕ) (rs : List Row) → ids (map (lease_row owner e now) rs) ≡ ids rs
unfolding lease_row
ids-map owner e now [] = refl
ids-map owner e now (r ∷ rs) = ap (λ x. r.id ∷ x) (ids-map owner e now rs)

length-map : (f : Row → Row) (rs : List Row) → length (map f rs) ≡ length rs
length-map f [] = refl
length-map f (r ∷ rs) = ap suc (length-map f rs)

pub lease_row-KeepsId : (owner : List ℕ) (e now : ℕ) → KeepsId (lease_row owner e now)
unfolding lease_row
lease_row-KeepsId owner e now r = refl

-- The rows that a call of `Claim` leaves, and the records it returns.
abbrev turn_of : Repository → ℕ
turn_of p = (p.claim_turn + 1) % 2 ^ 64

abbrev scanned : Repository → ℕ → List ℕ → ℕ → List Row
scanned p now locked batch = scan (turn_of p) now locked batch p.rows

abbrev Taken : Repository → Repository → List ℕ → ℕ → List ℕ → ℕ → ℕ → List Row → Type 0
Taken p p' locked now owner batch lease records =
    (p'.rows
      ≡ update_rows (λ r. has (ids (scanned p now locked batch)) r.id)
          (lease_row owner (now + lease) now) p.rows)
    × (records ≡ map (lease_row owner (now + lease) now) (scanned p now locked batch))

pub claim-eq-ok :
    (p p' : Repository) (answers : Bool) (locked : List ℕ) (now : ℕ) (owner : List ℕ)
    (batch lease : ℕ) (records : List Row)
    → claim p answers locked now owner batch lease ≡ (p', ok records)
    → Taken p p' locked now owner batch lease records
unfolding claim
claim-eq-ok p p' answers locked now owner batch lease records h =
    elim (Bool-cases (claim_valid p owner batch lease)) [
      | inr bad ↦ absurd (ground arith)
      | inl good ↦ elim (Bool-cases answers) [
        | inr down ↦ absurd (ground arith)
        | inl up ↦ ground arith
      ]
    ]

eligible_row :
    (now i : ℕ) (locked : List ℕ) (rs : List Row) (r : Row)
    → find_row i rs ≡ some r
    → Found now locked i rs
    → Eligible now locked r
unfolding Found
eligible_row now i locked rs r f (s, g, e) =
    subst (Eligible now locked) (some-injective (sym g ∙ f)) e

-- What a successful claim on a table of ascending IDs does to the row of an ID. Either the row was not
-- returned and is as it was,
-- or it was available or its lease had run out, no other transaction had it locked, and it now has
-- the status leased, the caller as its owner and `now + lease` as its lease's end, with nothing else
-- of it changed but the time of its update.
pub claim_effect :
    (p p' : Repository) (answers : Bool) (locked : List ℕ) (now : ℕ) (owner : List ℕ)
    (batch lease : ℕ) (records : List Row) (i lo hi : ℕ) (r : Row)
    → Keyed lo hi p.rows
    → find_row i p.rows ≡ some r
    → claim p answers locked now owner batch lease ≡ (p', ok records)
    → ((has (ids records) i ≡ false) × (find_row i p'.rows ≡ some r))
      ⊎ ((has (ids records) i ≡ true)
          × Eligible now locked r
          × (find_row i p'.rows
              ≡ some (record r {
                status = leased;
                lease_owner = some owner;
                lease_expires_at = some (now + lease);
                updated_at = now;
              })))
unfolding lease_row
claim_effect p p' answers locked now owner batch lease records i lo hi r k found h =
    let (rows, back) = claim-eq-ok p p' answers locked now owner batch lease records h in
    let same : ids records ≡ ids (scanned p now locked batch) =
      ap ids back ∙ ids-map owner (now + lease) now (scanned p now locked batch) in
    let next =
      ap (find_row i) rows
      ∙ find_row-update_rows i (λ x. has (ids (scanned p now locked batch)) x.id)
          (lease_row owner (now + lease) now) p.rows r (lease_row-KeepsId owner (now + lease) now)
          found in
    let id_of = find_row-id i p.rows r found in
    elim (Bool-cases (has (ids (scanned p now locked batch)) i)) [
      | inl taken ↦ inr (
        rw same taken,
        eligible_row now i locked p.rows r found
            (scan-Found (turn_of p) now locked batch i lo hi p.rows k taken),
        next ∙ ap some (update_row_hit _ _ r (rw id_of taken)),
      )
      | inr left ↦ inl (rw same left, next ∙ ap some (update_row_miss _ _ r (rw id_of left)))
    ]

-- A successful claim returns as many records as are eligible, up to the batch.
pub claim_fills :
    (p p' : Repository) (answers : Bool) (locked : List ℕ) (now : ℕ) (owner : List ℕ)
    (batch lease : ℕ) (records : List Row)
    → claim p answers locked now owner batch lease ≡ (p', ok records)
    → length records
      ≡ min batch (eligible available now locked p.rows + eligible expired now locked p.rows)
claim_fills p p' answers locked now owner batch lease records h =
    let (_, back) = claim-eq-ok p p' answers locked now owner batch lease records h in
    ap length back
    ∙ (length-map (lease_row owner (now + lease) now) (scanned p now locked batch)
        ∙ length-scan (turn_of p) now locked batch p.rows)

pub claim-eq-err :
    (p p' : Repository) (answers : Bool) (locked : List ℕ) (now : ℕ) (owner : List ℕ)
    (batch lease : ℕ) (e : Error)
    → claim p answers locked now owner batch lease ≡ (p', err e)
    → (p'.rows ≡ p.rows) × (p'.next_id ≡ p.next_id)
unfolding claim
claim-eq-err p p' answers locked now owner batch lease e h =
    elim (Bool-cases (claim_valid p owner batch lease)) [
      | inr bad ↦ ground arith
      | inl good ↦ elim (Bool-cases answers) [
        | inr down ↦ ground arith
        | inl up ↦ absurd (ground arith)
      ]
    ]
