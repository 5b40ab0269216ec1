-- ===== src/Outbox/Published.antt =====
-- The order in which the clean-up of outbox/repository.go scans rows, and what a cursor in it passes.
use go_pulse.Base.{
  insert_by, sort_by, All-map, Distinct, Sorted, sort_by-Sorted, ℕ, zero, suc, ◌<◌, ◌≡◌, refl, ap,
  subst, ◌∙◌, Bool, true, false, not, ◌||◌, List, [], ◌∷◌, ◌==◌, if◌then◌else◌, has, keep, take,
  length, All, arith, Bool-cases, inl, inr,
}
use go_pulse.Outbox.Row.{Row}
use go_pulse.Outbox.Repository.{ids}
use go_pulse.Outbox.Cleanup.{past, sooner, by_publication, final_row, at_row}

-- Each row sooner than those after it.
abbrev pub Ascending : List Row → Type 0
Ascending rows = Sorted sooner rows

-- No two rows have one ID.
abbrev pub DistinctIds : List Row → Type 0
DistinctIds rows = Distinct (λ r. r.id) rows

sooner_trans : (a b c : Row) → sooner a b ≡ true → sooner b c ≡ true → sooner a c ≡ true
unfolding sooner
sooner_trans a b c h i = ground arith

sooner_total : (a b : Row) → sooner a b ≡ false → (a.id == b.id) ≡ false → sooner b a ≡ true
unfolding sooner
sooner_total a b h i = ground arith

sooner_asym : (a b : Row) → sooner a b ≡ true → sooner b a ≡ false
unfolding sooner
sooner_asym a b h = ground arith

sooner_irrefl : (a : Row) → sooner a a ≡ false
unfolding sooner
sooner_irrefl a = ground arith

pub All-zip :
    (P Q R : Row → Type 0) (xs : List Row)
    → ((x : Row) → P x → Q x → R x)
    → All P xs
    → All Q xs
    → All R xs
All-zip P Q R [] f a b = tt
All-zip P Q R (x ∷ xs) f a b = (f x a.0 b.0, All-zip P Q R xs f a.1 b.1)

pub by_publication-Ascending :
    (rows : List Row) → DistinctIds rows → Ascending (by_publication rows)
unfolding by_publication
by_publication-Ascending rows d =
    sort_by-Sorted sooner (λ r. r.id) rows (record { trans = sooner_trans; total = sooner_total }) d

All-keep : (P : Row → Type 0) (p : Row → Bool) (rows : List Row) → All P rows → All P (keep p rows)
All-keep P p [] a = tt
All-keep P p (r ∷ rows) a = elim (Bool-cases (p r)) [
  | inl hit ↦ rw hit (a.0, All-keep P p rows a.1)
  | inr miss ↦ rw miss (All-keep P p rows a.1)
]

pub keep-Ascending : (p : Row → Bool) (rows : List Row) → Ascending rows → Ascending (keep p rows)
keep-Ascending p [] a = tt
keep-Ascending p (r ∷ rows) a = elim (Bool-cases (p r)) [
  | inl hit ↦ rw hit (All-keep (λ s. sooner r s ≡ true) p rows a.0, keep-Ascending p rows a.1)
  | inr miss ↦ rw miss (keep-Ascending p rows a.1)
]

pub keep-DistinctIds :
    (p : Row → Bool) (rows : List Row) → DistinctIds rows → DistinctIds (keep p rows)
keep-DistinctIds p [] a = tt
keep-DistinctIds p (r ∷ rows) a = elim (Bool-cases (p r)) [
  | inl hit ↦
      rw hit (All-keep (λ s. (r.id == s.id) ≡ false) p rows a.0, keep-DistinctIds p rows a.1)
  | inr miss ↦ rw miss (keep-DistinctIds p rows a.1)
]

past-sooner : (r s : Row) → past (at_row r) s ≡ sooner r s
unfolding past sooner
past-sooner r s = ground arith

keep-none : (p : Row → Bool) (rows : List Row) → All (λ s. p s ≡ false) rows → keep p rows ≡ []
keep-none p [] a = refl
keep-none p (r ∷ rows) a = rw a.0 (keep-none p rows a.1)

pub All-take : (P : Row → Type 0) (n : ℕ) (rows : List Row) → All P rows → All P (take n rows)
All-take P zero rows a = tt
All-take P (suc n) [] a = tt
All-take P (suc n) (r ∷ rows) a = (a.0, All-take P n rows a.1)

pub All-final_row :
    (P : Row → Type 0) (r : Row) (rows : List Row) → All P (r ∷ rows) → P (final_row r rows)
unfolding final_row
All-final_row P r [] a = a.0
All-final_row P r (s ∷ rows) a = All-final_row P s rows a.1

past_self : (r : Row) → past (at_row r) r ≡ false
past_self r = past-sooner r r ∙ sooner_irrefl r

passed :
    (r : Row) (rows : List Row)
    → All (λ s. sooner r s ≡ true) rows
    → All (λ s. not (past (at_row r) s) ≡ false) rows
passed r rows a =
    All-map (λ s. sooner r s ≡ true) (λ s. not (past (at_row r) s) ≡ false) rows
      (λ s h. ap not (past-sooner r s ∙ h)) a

-- In order, the first so many rows are those that the cursor at the last of them does not pass.
pub take-past :
    (n : ℕ) (r : Row) (rows : List Row)
    → Ascending (r ∷ rows)
    → n < length (r ∷ rows)
    → (f : Row) × (more : List Row) × (take (suc n) (r ∷ rows) ≡ f ∷ more)
      × (keep (λ s. not (past (at_row (final_row f more)) s)) (r ∷ rows) ≡ f ∷ more)
unfolding final_row
take-past zero r rows a h =
    let only : keep (λ s. not (past (at_row r) s)) (r ∷ rows) ≡ r ∷ [] =
      rw (past_self r, keep-none (λ s. not (past (at_row r) s)) rows (passed r rows a.0)) refl in
    (r, [], refl, only)
take-past (suc n) r [] a h = absurd (omega arith)
take-past (suc n) r (s ∷ rows) a h =
    let (f, more, taken, same) = take-past n s rows a.1 (omega arith) in
    let all_later =
      subst (All (λ t. sooner r t ≡ true)) taken
        (All-take (λ t. sooner r t ≡ true) (suc n) (s ∷ rows) a.0) in
    let last = final_row f more in
    let not_past : past (at_row last) r ≡ false =
      past-sooner last r
      ∙ sooner_asym r last (All-final_row (λ t. sooner r t ≡ true) f more all_later) in
    let kept : keep (λ t. not (past (at_row last) t)) (r ∷ s ∷ rows) ≡ r ∷ f ∷ more =
      rw not_past (ap (λ x. r ∷ x) same) in
    (r, f ∷ more, ap (λ x. r ∷ x) taken, kept)

-- Sorting changes neither how many rows pass a test nor which IDs they have.
length-keep-insert_by :
    (p : Row → Bool) (r : Row) (rows : List Row)
    → length (keep p (insert_by sooner r rows)) ≡ length (keep p (r ∷ rows))
unfolding insert_by
length-keep-insert_by p r [] = refl
length-keep-insert_by p r (s ∷ rows) = elim (Bool-cases (sooner r s)) [
  | inl first ↦ rw first refl
  | inr later ↦ rw later (swap (p s) (p r) (length-keep-insert_by p r rows))
]
  where
    swap :
        (x y : Bool)
        → length (keep p (insert_by sooner r rows))
          ≡ length (if y then r ∷ keep p rows else keep p rows)
        → length
            (if x then s ∷ keep p (insert_by sooner r rows) else keep p (insert_by sooner r rows))
          ≡ length (
              if y
              then r ∷ (if x then s ∷ keep p rows else keep p rows)
              else (if x then s ∷ keep p rows else keep p rows))
    swap true true h = ap suc h
    swap true false h = ap suc h
    swap false true h = h
    swap false false h = h

pub length-keep-by_publication :
    (p : Row → Bool) (rows : List Row)
    → length (keep p (by_publication rows)) ≡ length (keep p rows)
unfolding by_publication sort_by
length-keep-by_publication p [] = refl
length-keep-by_publication p (r ∷ rows) =
    length-keep-insert_by p r (by_publication rows) ∙ step (p r) (length-keep-by_publication p rows)
  where
    step :
        (x : Bool)
        → length (keep p (by_publication rows)) ≡ length (keep p rows)
        → length (if x then r ∷ keep p (by_publication rows) else keep p (by_publication rows))
          ≡ length (if x then r ∷ keep p rows else keep p rows)
    step true h = ap suc h
    step false h = h

has-keep-insert_by :
    (p : Row → Bool) (r : Row) (rows : List Row) (i : ℕ)
    → has (ids (keep p (insert_by sooner r rows))) i ≡ has (ids (keep p (r ∷ rows))) i
unfolding insert_by has
has-keep-insert_by p r [] i = refl
has-keep-insert_by p r (s ∷ rows) i = elim (Bool-cases (sooner r s)) [
  | inl first ↦ rw first refl
  | inr later ↦ rw later (swap (p s) (p r) (has-keep-insert_by p r rows i))
]
  where
    swap :
        (x y : Bool)
        → has (ids (keep p (insert_by sooner r rows))) i
          ≡ has (ids (if y then r ∷ keep p rows else keep p rows)) i
        → has
            (ids (
              if x then s ∷ keep p (insert_by sooner r rows) else keep p (insert_by sooner r rows)))
            i
          ≡ has
              (ids (
                if y
                then r ∷ (if x then s ∷ keep p rows else keep p rows)
                else (if x then s ∷ keep p rows else keep p rows)))
              i
    swap true true h = ground (arith, h)
    swap true false h = ap (λ x. s.id == i || x) h
    swap false true h = h
    swap false false h = h

pub has-keep-by_publication :
    (p : Row → Bool) (rows : List Row) (i : ℕ)
    → has (ids (keep p (by_publication rows))) i ≡ has (ids (keep p rows)) i
unfolding by_publication sort_by has
has-keep-by_publication p [] i = refl
has-keep-by_publication p (r ∷ rows) i =
    has-keep-insert_by p r (by_publication rows) i ∙ step (p r) (has-keep-by_publication p rows i)
  where
    step :
        (x : Bool)
        → has (ids (keep p (by_publication rows))) i ≡ has (ids (keep p rows)) i
        → has (ids (if x then r ∷ keep p (by_publication rows) else keep p (by_publication rows))) i
          ≡ has (ids (if x then r ∷ keep p rows else keep p rows)) i
    step true h = ap (λ x. r.id == i || x) h
    step false h = h

-- A row of a table passes a test if its ID is one of those that pass.
has-below :
    (p : Row → Bool) (i : ℕ) (rows : List Row)
    → All (λ s. (i == s.id) ≡ false) rows
    → has (ids (keep p rows)) i ≡ false
unfolding has
has-below p i [] a = refl
has-below p i (r ∷ rows) a = elim (Bool-cases (p r)) [
  | inl hit ↦ rw hit (ground (arith, a.0, has-below p i rows a.1))
  | inr miss ↦ rw miss (has-below p i rows a.1)
]

pub has-keep-All :
    (p : Row → Bool) (rows : List Row)
    → DistinctIds rows
    → All (λ r. has (ids (keep p rows)) r.id ≡ p r) rows
unfolding has
has-keep-All p [] d = tt
has-keep-All p (r ∷ rows) d = elim (Bool-cases (p r)) [
  | inl hit ↦
      let head : has (ids (keep p (r ∷ rows))) r.id ≡ p r = rw hit (ground arith) in
      let tail =
        All-zip (λ s. (r.id == s.id) ≡ false) (λ s. has (ids (keep p rows)) s.id ≡ p s)
          (λ s. has (ids (keep p (r ∷ rows))) s.id ≡ p s) rows
          (λ s other same. rw hit (ground (arith, other, same))) d.0 (has-keep-All p rows d.1) in
      (head, tail)
  | inr miss ↦
      let head : has (ids (keep p (r ∷ rows))) r.id ≡ p r = rw miss (has-below p r.id rows d.0) in
      let tail =
        All-map (λ s. has (ids (keep p rows)) s.id ≡ p s)
          (λ s. has (ids (keep p (r ∷ rows))) s.id ≡ p s) rows (λ s same. rw miss same)
          (has-keep-All p rows d.1) in
      (head, tail)
]
