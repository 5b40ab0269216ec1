-- ===== src/Paging/Order.antt =====
-- The order of the lists of post/repository.go and notification/repository.go.
use mathlib.Core.List.{Perm}
use go_pulse.Base.{
  All-map, Distinct, Sorted, Strict, All-sort_by, sort_by-Sorted, sort_by-perm, length-sort_by, ◌≡◌,
  refl, ◌∙◌, Bool, true, false, List, [], ◌∷◌, ◌++◌, ◌==◌, keep, some, length, All, arith,
}
use go_pulse.Paging.Listing.{Row, newer, ordered, past_cursor, cursor_of}

-- Strictly newer first.
abbrev pub Descending : List Row → Type 0
Descending rows = Sorted newer rows

-- No two rows have one ID.
abbrev pub DistinctIds : List Row → Type 0
DistinctIds rows = Distinct (λ r. r.id) rows

newer_trans : (a b c : Row) → newer a b ≡ true → newer b c ≡ true → newer a c ≡ true
unfolding newer
newer_trans a b c h i = ground arith

newer_total : (a b : Row) → newer a b ≡ false → (a.id == b.id) ≡ false → newer b a ≡ true
unfolding newer
newer_total a b h i = ground arith

newer_asym : (a b : Row) → newer a b ≡ true → newer b a ≡ false
unfolding newer
newer_asym a b h = ground arith

newer_irrefl : (r : Row) → newer r r ≡ false
unfolding newer
newer_irrefl r = ground arith

newer-Strict : Strict newer (λ r. r.id)
newer-Strict = record { trans = newer_trans; total = newer_total }

pub All-ordered : (P : Row → Type 0) (rows : List Row) → All P rows → All P (ordered rows)
unfolding ordered
All-ordered P rows a = All-sort_by newer P rows a

pub ordered-Descending : (rows : List Row) → DistinctIds rows → Descending (ordered rows)
unfolding ordered
ordered-Descending rows d = sort_by-Sorted newer (λ r. r.id) rows newer-Strict d

-- A listing has each row as often as the table.
pub ordered-perm : (rows : List Row) → Perm (ordered rows) rows
unfolding ordered
ordered-perm rows = sort_by-perm newer rows

pub length-ordered : (rows : List Row) → length (ordered rows) ≡ length rows
unfolding ordered
length-ordered rows = length-sort_by newer rows

past-newer : (r s : Row) → past_cursor (some (cursor_of r)) s ≡ newer r s
unfolding past_cursor newer
past-newer r s = ground arith

keep-All : (p : Row → Bool) (rows : List Row) → All (λ s. p s ≡ true) rows → keep p rows ≡ rows
keep-All p [] a = refl
keep-All p (r ∷ rows) a = rw (a.0, keep-All p rows a.1) refl

-- What comes past a row in the order is what follows it.
pub keep-past :
    (before : List Row) (r : Row) (after : List Row)
    → Descending (before ++ r ∷ after)
    → keep (past_cursor (some (cursor_of r))) (before ++ r ∷ after) ≡ after
keep-past [] r after d =
    rw (past-newer r r, newer_irrefl r)
      (keep-All (past_cursor (some (cursor_of r))) after (
        All-map (λ s. newer r s ≡ true) (λ s. past_cursor (some (cursor_of r)) s ≡ true) after
          (λ s h. past-newer r s ∙ h) d.0))
keep-past (s ∷ before) r after d =
    rw (past-newer r s, newer_asym s r (middle before d.0)) (keep-past before r after d.1)
  where
    middle : (xs : List Row) → All (λ t. newer s t ≡ true) (xs ++ r ∷ after) → newer s r ≡ true
    middle [] a = a.0
    middle (x ∷ xs) a = middle xs a.1
