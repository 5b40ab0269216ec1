-- ===== src/Paging/Walk.antt =====
-- A client that follows the cursors of post/service.go or notification/service.go to the last page.
use mathlib.Core.List.{Perm, append_assoc}
use go_pulse.Base.{
  take-all, ℕ, zero, suc, ◌+◌, ◌≤◌, ◌<◌, ◌≡◌, refl, sym, ap, subst, ◌∙◌, true, false, ◌||◌, Option,
  none, some, List, [], ◌∷◌, ◌++◌, Result, ok, err, ◌>>=◌, ltb, leb, length, length-take,
  length-append, take, keep, All, arith, Bool-cases, inl, inr,
}
use go_pulse.Paging.Cursor.{
  Cursor, Wire, encode_cursor, decode_cursor, ListOptions, ListError, Values, parse_list_options,
  parse_limit, parse_cursor, maximum_limit,
}
use go_pulse.Paging.RoundTrip.{InRange, decode_cursor-encode_cursor, parse_limit-bounds}
use go_pulse.Paging.Listing.{
  Row, ordered, past_cursor, list_rows, last_of, cursor_of, valid_position, full_page, page_of,
  list_page,
}
use go_pulse.Paging.Order.{
  Descending, DistinctIds, ordered-Descending, ordered-perm, length-ordered, All-ordered, keep-past,
}

abbrev drop : ℕ → List Row → List Row
drop zero rows = rows
drop (suc n) [] = []
drop (suc n) (r ∷ rows) = drop n rows

take-drop : (n : ℕ) (rows : List Row) → take n rows ++ drop n rows ≡ rows
take-drop zero rows = refl
take-drop (suc n) [] = refl
take-drop (suc n) (r ∷ rows) = ap (λ x. r ∷ x) (take-drop n rows)

take-take-suc : (n : ℕ) (rows : List Row) → take n (take (suc n) rows) ≡ take n rows
take-take-suc zero rows = refl
take-take-suc (suc n) [] = refl
take-take-suc (suc n) (r ∷ rows) = ap (λ x. r ∷ x) (take-take-suc n rows)

length-drop : (n : ℕ) (rows : List Row) → length rows ≤ n + length (drop n rows)
length-drop zero rows = omega arith
length-drop (suc n) [] = omega arith
length-drop (suc n) (r ∷ rows) = omega (arith, length-drop n rows)

last-split :
    (r : Row) (rows : List Row) → (init : List Row) × (r ∷ rows ≡ init ++ last_of r rows ∷ [])
unfolding last_of
last-split r [] = ([], refl)
last-split r (s ∷ rows) = let (init, e) = last-split s rows in (r ∷ init, ap (λ x. r ∷ x) e)

module _ (wire : Wire) where
  -- The query that a client sends on: the limit it began with, and the cursor of the last page.
  abbrev values_of : Option (List ℕ) → Values
  values_of none = none
  values_of (some token) = some (token ∷ [])

  abbrev request : Values → Option (List ℕ) → Result ListError ListOptions
  request limits token = parse_list_options (decode_cursor wire) limits (values_of token)

  abbrev append_next : List Row → Option (List Row) → Option (List Row)
  append_next first none = none
  append_next first (some more) = some (first ++ more)

  -- What a client reads that follows the cursors for at most so many pages; `none` if a request fails
  -- or there are more pages.
  unfoldable pub walk : ℕ → List Row → Values → Option (List ℕ) → Option (List Row)
  walk zero rows limits token = none
  walk (suc pages) rows limits token = elim (request limits token >>= list_page wire true rows) [
    | err e ↦ none
    | ok page ↦ elim page.next_cursor [
      | none ↦ some page.rows
      | some next ↦ append_next page.rows (walk pages rows limits (some next))
    ]
  ]

  plus_one : (n : ℕ) → n + 1 ≡ suc n
  plus_one n = omega arith

  -- The rows are such that each has a cursor.
  abbrev pub Reachable : List Row → Type 0
  Reachable = All λ r. InRange wire (cursor_of r)

  -- A query at a position of the listing, whose token the request carries.
  record At (limits : Values) (limit : ℕ) (rows rest : List Row) (token : Option (List ℕ))
      : Type 0 where
    position : Option Cursor
    asked : request limits token ≡ ok (record { limit = limit; cursor = position })
    usable : valid_position position ≡ true
    front : List Row
    split : ordered rows ≡ front ++ rest
    past : keep (past_cursor position) (ordered rows) ≡ rest

  -- The page at a position with the rest of the listing before it.
  page-At :
      (limits : Values) (limit : ℕ) (rows rest : List Row) (token : Option (List ℕ))
      → 1 ≤ limit
      → limit ≤ maximum_limit
      → At limits limit rows rest token
      → (request limits token >>= list_page wire true rows)
        ≡ page_of wire limit (take (suc limit) rest)
  unfolding list_page list_rows
  page-At limits limit rows rest token lo hi at =
      let bounds : (ltb limit 1 || ltb maximum_limit limit) ≡ false = ground arith in
      rw (at.asked, bounds, at.usable, at.past, plus_one limit) refl

  short_page :
      (limit : ℕ) (rest : List Row)
      → length rest ≤ limit
      → page_of wire limit (take (suc limit) rest) ≡ ok (record { rows = rest; next_cursor = none })
  unfolding page_of
  short_page limit rest h =
      let fits : leb (length rest) limit ≡ true = ground arith in
      rw (take-all (suc limit) rest (omega arith), fits) refl

  request_token :
      (limits : Values) (limit : ℕ) (token : List ℕ) (c : Cursor)
      → parse_limit limits ≡ ok limit
      → decode_cursor wire token ≡ ok c
      → request limits (some token) ≡ ok (record { limit = limit; cursor = some c })
  unfolding parse_list_options parse_cursor
  request_token limits limit token c l d = rw (l, parse_cursor, d) refl

  request_first :
      (limits : Values) (limit : ℕ)
      → parse_limit limits ≡ ok limit
      → request limits none ≡ ok (record { limit = limit; cursor = none })
  unfolding parse_list_options parse_cursor
  request_first limits limit l = rw l refl

  usable_cursor : (c : Cursor) → InRange wire c → valid_position (some c) ≡ true
  usable_cursor c r = let i = r.has_id in let t = r.has_time in ground arith

  All-at :
      (P : Row → Type 0) (before : List Row) (r : Row) (after : List Row)
      → All P (before ++ r ∷ after)
      → P r
  All-at P [] r after a = a.0
  All-at P (s ∷ before) r after a = All-at P before r after a.1

  nonempty : (rows : List Row) → 1 ≤ length rows → (r : Row) × (more : List Row) × (rows ≡ r ∷ more)
  nonempty [] h = absurd (omega arith)
  nonempty (r ∷ more) h = (r, more, refl)

  full_page_lem :
      (limit : ℕ) (rest : List Row) (r : Row) (more : List Row) (token : List ℕ)
      → limit < length rest
      → take limit rest ≡ r ∷ more
      → encode_cursor wire (cursor_of (last_of r more)) ≡ ok token
      → page_of wire limit (take (suc limit) rest)
        ≡ ok (record { rows = r ∷ more; next_cursor = some token })
  unfolding page_of full_page
  full_page_lem limit rest r more token long first encoded =
      let over : leb (length (take (suc limit) rest)) limit ≡ false =
        ground (arith, length-take (suc limit) rest, long) in
      rw (over, full_page, take-take-suc limit rest, first, encoded) refl

  regroup :
      (front rest init : List Row) (last : Row) (limit : ℕ)
      → take limit rest ≡ init ++ last ∷ []
      → front ++ rest ≡ (front ++ init) ++ last ∷ drop limit rest
  regroup front rest init last limit h =
      ap (λ x. front ++ x)
        (sym (take-drop limit rest)
          ∙ (ap (λ x. x ++ drop limit rest) h ∙ append_assoc init (last ∷ []) (drop limit rest)))
      ∙ sym (append_assoc front init (last ∷ drop limit rest))

  next-At :
      (limits : Values) (limit : ℕ) (rows rest : List Row) (token : Option (List ℕ))
      → parse_limit limits ≡ ok limit
      → 1 ≤ limit
      → limit < length rest
      → Descending (ordered rows)
      → Reachable (ordered rows)
      → At limits limit rows rest token
      → (next : List ℕ) × (page_of wire limit (take (suc limit) rest)
          ≡ ok (record { rows = take limit rest; next_cursor = some next }))
        × At limits limit rows (drop limit rest) (some next)
  next-At limits limit rows rest token l lo long sorted reach at =
      let (r, more, first) = nonempty (take limit rest) (omega (arith, length-take limit rest)) in
      let (init, ends) = last-split r more in
      let last = last_of r more in
      let whole = at.split ∙ regroup at.front rest init last limit (first ∙ ends) in
      let ranged =
        All-at (λ s. InRange wire (cursor_of s)) (at.front ++ init) last (drop limit rest)
          (subst Reachable whole reach) in
      let (next, encoded, decoded, _) = decode_cursor-encode_cursor wire (cursor_of last) ranged in
      (
        next,
        full_page_lem limit rest r more next long first encoded
            ∙ ap (λ x. ok (record { rows = x; next_cursor = some next })) (sym first),
        record {
          position = some (cursor_of last);
          asked = request_token limits limit next (cursor_of last) l decoded;
          usable = usable_cursor (cursor_of last) ranged;
          front = (at.front ++ init) ++ last ∷ [];
          split = whole ∙ sym (append_assoc (at.front ++ init) (last ∷ []) (drop limit rest));
          past =
              ap (keep (past_cursor (some (cursor_of last)))) whole
              ∙ keep-past (at.front ++ init) last (drop limit rest) (subst Descending whole sorted);
        },
      )

  walk_from :
      (limits : Values) (limit : ℕ) (rows rest : List Row) (token : Option (List ℕ)) (pages : ℕ)
      → parse_limit limits ≡ ok limit
      → 1 ≤ limit
      → limit ≤ maximum_limit
      → Descending (ordered rows)
      → Reachable (ordered rows)
      → length rest < pages
      → At limits limit rows rest token
      → walk pages rows limits token ≡ some rest
  unfolding walk
  walk_from limits limit rows rest token zero l lo hi sorted reach enough at = absurd (omega arith)
  walk_from limits limit rows rest token (suc pages) l lo hi sorted reach enough at =
      let page = page-At limits limit rows rest token lo hi at in
      elim (Bool-cases (leb (length rest) limit)) [
        | inl short ↦ rw (walk, page, short_page limit rest (ground (arith, short))) refl
        | inr long ↦
            let more : limit < length rest = ground (arith, long) in
            let (next, full, at') =
              next-At limits limit rows rest token l lo more sorted reach at in
            let ih =
              walk_from limits limit rows (drop limit rest) (some next) pages l lo hi sorted reach
                (omega (arith, shorter limit rest lo more)) at' in
            rw (walk, page, full, ih) (ap some (take-drop limit rest))
      ]
    where
      shorter : (n : ℕ) (xs : List Row) → 1 ≤ n → n < length xs → length (drop n xs) < length xs
      shorter n xs a b = omega (
        arith,
        ap length (take-drop n xs),
        length-append (take n xs) (drop n xs),
        length-take n xs,
      )

  first-At :
      (limits : Values) (limit : ℕ) (rows : List Row)
      → parse_limit limits ≡ ok limit
      → At limits limit rows (ordered rows) none
  unfolding past_cursor
  first-At limits limit rows l = record {
    position = none;
    asked = request_first limits limit l;
    usable = refl;
    front = [];
    split = refl;
    past = keep-true (ordered rows);
  }
    where
      keep-true : (xs : List Row) → keep (λ r. true) xs ≡ xs
      keep-true [] = refl
      keep-true (x ∷ xs) = ap (λ y. x ∷ y) (keep-true xs)

  -- Following the cursors from the first page reads the whole listing: no row is left out or read twice,
  -- they come newest first, and one page more than there are rows is always enough. The rows
  -- have distinct IDs, and IDs and times that a cursor can stand for; the table does not change.
  pub walk_complete :
      (limits : Values) (limit : ℕ) (rows : List Row)
      → parse_limit limits ≡ ok limit
      → DistinctIds rows
      → Reachable rows
      → (seen : List Row) × (walk (suc (length rows)) rows limits none ≡ some seen)
        × Perm seen rows
        × Descending seen
  walk_complete limits limit rows l distinct reach =
      let (lo, hi) = parse_limit-bounds limits limit l in
      let count : length (ordered rows) < suc (length rows) = omega (arith, length-ordered rows) in
      (
        ordered rows,
        walk_from limits limit rows (ordered rows) none (suc (length rows)) l lo hi
            (ordered-Descending rows distinct)
            (All-ordered (λ r. InRange wire (cursor_of r)) rows reach) count
            (first-At limits limit rows l),
        ordered-perm rows,
        ordered-Descending rows distinct,
      )
