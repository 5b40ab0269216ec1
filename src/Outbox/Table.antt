-- ===== src/Outbox/Table.antt =====
-- Facts about the table `business_outbox` as a list of rows: the row of an ID under the statements
-- of outbox/repository.go, and what its scans select.
use go_pulse.Base.{
  ℕ, zero, suc, ◌≤◌, ◌<◌, ◌≡◌, refl, sym, ap, ◌∙◌, Bool, true, false, ◌||◌, Option, none, some,
  List, [], ◌∷◌, ◌++◌, ◌==◌, if◌then◌else◌, has, All, take, keep, length, length-take, arith, ◌⊎◌,
  inl, inr, Bool-cases, min,
}
use go_pulse.Outbox.Row.{
  Row, Branch, holds_lease, update_row, update_rows, matches, claimable, precedes, insert_row,
  sort_rows, select,
}
use go_pulse.Outbox.Repository.{ids, leased_row, find_leased}

-- The row with an ID.
unfoldable pub find_row : ℕ → List Row → Option Row
find_row i [] = none
find_row i (r ∷ rs) = if r.id == i then some r else find_row i rs

-- The IDs ascend strictly from `lo` on and stay below `hi`: the primary key and its counter.
abbrev pub Keyed : ℕ → ℕ → List Row → Type 0
Keyed lo hi [] = lo ≤ hi
Keyed lo hi (r ∷ rs) = (lo ≤ r.id) × (r.id < hi) × Keyed (suc r.id) hi rs

pub some≢none : {A : Type 0} {a : A} → some a ≡ none → ⊥
some≢none h = cc

none_below :
    (i : ℕ) (owner : List ℕ) (now lo hi : ℕ) (rs : List Row)
    → Keyed lo hi rs
    → i < lo
    → matches (leased_row i owner now) rs ≡ 0
unfolding matches
none_below i owner now lo hi [] k h = refl
none_below i owner now lo hi (r ∷ rs) k h =
    ground (arith, none_below i owner now (suc r.id) hi rs k.2)

not_leased_below :
    (i : ℕ) (owner : List ℕ) (now lo hi : ℕ) (rs : List Row)
    → Keyed lo hi rs
    → i < lo
    → find_leased i owner now rs ≡ none
unfolding find_leased
not_leased_below i owner now lo hi [] k h = refl
not_leased_below i owner now lo hi (r ∷ rs) k h =
    ground (arith, not_leased_below i owner now (suc r.id) hi rs k.2)

-- An update that keeps IDs.
abbrev pub KeepsId : (Row → Row) → Type 0
KeepsId f = (r : Row) → (f r).id ≡ r.id

pub find_row_below : (i lo hi : ℕ) (rs : List Row) → Keyed lo hi rs → i < lo → find_row i rs ≡ none
unfolding find_row
find_row_below i lo hi [] k h = refl
find_row_below i lo hi (r ∷ rs) k h = ground (arith, find_row_below i (suc r.id) hi rs k.2)

pub update_row-id :
    (p : Row → Bool) (f : Row → Row) (r : Row) → KeepsId f → (update_row p f r).id ≡ r.id
unfolding update_row
update_row-id p f r same = elim (Bool-cases (p r)) [
  | inl hit ↦ rw hit (same r)
  | inr miss ↦ rw miss refl
]

pub update_row_hit :
    (p : Row → Bool) (f : Row → Row) (r : Row) → p r ≡ true → update_row p f r ≡ f r
unfolding update_row
update_row_hit p f r h = rw h refl

pub update_row_miss :
    (p : Row → Bool) (f : Row → Row) (r : Row) → p r ≡ false → update_row p f r ≡ r
unfolding update_row
update_row_miss p f r h = rw h refl

pub find_row-id : (i : ℕ) (rs : List Row) (r : Row) → find_row i rs ≡ some r → r.id ≡ i
unfolding find_row
find_row-id i [] r h = absurd (cc)
find_row-id i (s ∷ rs) r h = elim (Bool-cases (s.id == i)) [
  | inl here ↦ let found : s ≡ r = ground arith in ground (arith, found)
  | inr other ↦ find_row-id i rs r (rw other at h)
]

pub update_rows-Keyed :
    (p : Row → Bool) (f : Row → Row) (lo hi : ℕ) (rs : List Row)
    → KeepsId f
    → Keyed lo hi rs
    → Keyed lo hi (update_rows p f rs)
unfolding update_rows
update_rows-Keyed p f lo hi [] same k = k
update_rows-Keyed p f lo hi (r ∷ rs) same k =
    rw (update_row-id p f r same) (k.0, k.1, update_rows-Keyed p f (suc r.id) hi rs same k.2)

pub update_rows-All :
    (P : Row → Type 0) (p : Row → Bool) (f : Row → Row) (rs : List Row)
    → ((r : Row) → P r → P (f r))
    → All P rs
    → All P (update_rows p f rs)
unfolding update_rows update_row
update_rows-All P p f [] keeps a = tt
update_rows-All P p f (r ∷ rs) keeps a = elim (Bool-cases (p r)) [
  | inl hit ↦ rw hit (keeps r a.0, update_rows-All P p f rs keeps a.1)
  | inr miss ↦ rw miss (a.0, update_rows-All P p f rs keeps a.1)
]

-- The row of an ID after an update is the updated row.
pub find_row-update_rows :
    (i : ℕ) (p : Row → Bool) (f : Row → Row) (rs : List Row) (r : Row)
    → KeepsId f
    → find_row i rs ≡ some r
    → find_row i (update_rows p f rs) ≡ some (update_row p f r)
unfolding find_row update_rows
find_row-update_rows i p f [] r same h = absurd (cc)
find_row-update_rows i p f (s ∷ rs) r same h = elim (Bool-cases (s.id == i)) [
  | inl here ↦
      let found : s ≡ r = ground arith in
      rw (update_row-id p f s same, here) (ap (λ x. some (update_row p f x)) found)
  | inr other ↦
      rw (update_row-id p f s same, other)
        (find_row-update_rows i p f rs r same (rw (other, find_row) at h))
]

pub find_row-append :
    (i : ℕ) (rs : List Row) (r s : Row)
    → find_row i rs ≡ some r
    → find_row i (rs ++ s ∷ []) ≡ some r
unfolding find_row
find_row-append i [] r s h = absurd (cc)
find_row-append i (x ∷ rs) r s h = ground (arith, find_row-append i rs r s)

has-insert_row :
    (b : Branch) (i : ℕ) (r : Row) (rs : List Row)
    → has (ids (insert_row b r rs)) i ≡ (r.id == i || has (ids rs) i)
unfolding has insert_row
has-insert_row b i r [] = refl
has-insert_row b i r (s ∷ rs) = elim (Bool-cases (precedes b r s)) [
  | inl first ↦ rw first refl
  | inr later ↦ rw (later, has-insert_row b i r rs) (swap (s.id == i) (r.id == i) (has (ids rs) i))
]
  where
    swap : (x y z : Bool) → (x || (y || z)) ≡ (y || (x || z))
    swap x y z = ground arith

has-sort_rows : (b : Branch) (i : ℕ) (rs : List Row) → has (ids (sort_rows b rs)) i ≡ has (ids rs) i
unfolding has sort_rows
has-sort_rows b i [] = refl
has-sort_rows b i (r ∷ rs) =
    has-insert_row b i r (sort_rows b rs) ∙ ap (λ x. r.id == i || x) (has-sort_rows b i rs)

has-take : (n i : ℕ) (rs : List Row) → has (ids (take n rs)) i ≡ true → has (ids rs) i ≡ true
unfolding has
has-take zero i rs h = absurd (cc)
has-take (suc n) i [] h = h
has-take (suc n) i (r ∷ rs) h = ground (arith, has-take n i rs)

pub has-append :
    (i : ℕ) (xs ys : List Row)
    → has (ids (xs ++ ys)) i ≡ true
    → (has (ids xs) i ≡ true) ⊎ (has (ids ys) i ≡ true)
unfolding has
has-append i [] ys h = inr h
has-append i (x ∷ xs) ys h = ground (arith, has-append i xs ys)

-- A row that passes a test is the row of its ID.
has-keep :
    (q : Row → Bool) (i lo hi : ℕ) (rs : List Row)
    → Keyed lo hi rs
    → has (ids (keep q rs)) i ≡ true
    → (r : Row) × (find_row i rs ≡ some r) × (q r ≡ true)
unfolding has find_row
has-keep q i lo hi [] k h = absurd (cc)
has-keep q i lo hi (s ∷ rs) k h = elim (Bool-cases (s.id == i)) [
  | inl here ↦ elim (Bool-cases (q s)) [
    | inl hit ↦ (s, ground arith, hit)
    | inr miss ↦
        let later = rw miss at h in
        let (r, found, passes) = has-keep q i (suc s.id) hi rs k.2 later in
        absurd (some≢none (sym found ∙ find_row_below i (suc s.id) hi rs k.2 (ground arith)))
  ]
  | inr other ↦ elim (Bool-cases (q s)) [
    | inl hit ↦
        let (r, found, passes) = has-keep q i (suc s.id) hi rs k.2 (ground arith) in
        (r, ground arith, passes)
    | inr miss ↦
        let (r, found, passes) = has-keep q i (suc s.id) hi rs k.2 (rw miss at h) in
        (r, ground arith, passes)
  ]
]

-- What a scan selects passes its test.
pub has-select :
    (b : Branch) (now : ℕ) (locked : List ℕ) (limit i lo hi : ℕ) (rs : List Row)
    → Keyed lo hi rs
    → has (ids (select b now locked limit rs)) i ≡ true
    → (r : Row) × (find_row i rs ≡ some r) × (claimable b now locked r ≡ true)
unfolding select
has-select b now locked limit i lo hi rs k h = has-keep (claimable b now locked) i lo hi rs k (
    sym (has-sort_rows b i (keep (claimable b now locked) rs))
    ∙ has-take limit i (sort_rows b (keep (claimable b now locked) rs)) h)

length-insert_row :
    (b : Branch) (r : Row) (rs : List Row) → length (insert_row b r rs) ≡ suc (length rs)
unfolding insert_row
length-insert_row b r [] = refl
length-insert_row b r (s ∷ rs) = ground (arith, length-insert_row b r rs)

length-sort_rows : (b : Branch) (rs : List Row) → length (sort_rows b rs) ≡ length rs
unfolding sort_rows
length-sort_rows b [] = refl
length-sort_rows b (r ∷ rs) =
    omega (arith, length-insert_row b r (sort_rows b rs), length-sort_rows b rs)

-- A scan takes as many rows as pass its test, up to the limit.
pub length-select :
    (b : Branch) (now : ℕ) (locked : List ℕ) (limit : ℕ) (rs : List Row)
    → length (select b now locked limit rs) ≡ min limit (length (keep (claimable b now locked) rs))
unfolding select
length-select b now locked limit rs = omega (
  arith,
  length-take limit (sort_rows b (keep (claimable b now locked) rs)),
  length-sort_rows b (keep (claimable b now locked) rs),
)

-- How many rows of an ID hold a lease: one or none.
pub matches-leased_row :
    (i : ℕ) (owner : List ℕ) (now lo hi : ℕ) (rs : List Row) (r : Row)
    → Keyed lo hi rs
    → find_row i rs ≡ some r
    → matches (leased_row i owner now) rs ≡ (if holds_lease owner now r then 1 else 0)
unfolding matches find_row
matches-leased_row i owner now lo hi [] r k h = absurd (cc)
matches-leased_row i owner now lo hi (s ∷ rs) r k h = elim (Bool-cases (s.id == i)) [
  | inl here ↦
      let found : s ≡ r = ground arith in
      ground (arith, found, none_below i owner now (suc s.id) hi rs k.2)
  | inr other ↦ ground (arith, matches-leased_row i owner now (suc s.id) hi rs r k.2)
]

pub find_leased_lem :
    (i : ℕ) (owner : List ℕ) (now lo hi : ℕ) (rs : List Row) (r : Row)
    → Keyed lo hi rs
    → find_row i rs ≡ some r
    → find_leased i owner now rs ≡ (if holds_lease owner now r then some r else none)
unfolding find_leased find_row
find_leased_lem i owner now lo hi [] r k h = absurd (cc)
find_leased_lem i owner now lo hi (s ∷ rs) r k h = elim (Bool-cases (s.id == i)) [
  | inl here ↦
      let found : s ≡ r = ground arith in
      ground (arith, found, not_leased_below i owner now (suc s.id) hi rs k.2)
  | inr other ↦ ground (arith, find_leased_lem i owner now (suc s.id) hi rs r k.2)
]
