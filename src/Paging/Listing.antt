-- ===== src/Paging/Listing.antt =====
-- The list queries of post/repository.go and notification/repository.go, and the pages that
-- post/service.go and notification/service.go make of them. A row is what they order by: the time of
-- the post, bookmark or notification, and its ID.
use go_pulse.Base.{
  sort_by, ℕ, ◌+◌, Bool, true, not, ◌&&◌, ◌||◌, Option, none, some, List, [], ◌∷◌, Result, ok, err,
  ◌==◌, ltb, leb, if◌then◌else◌, length, take, keep,
}
use go_pulse.Paging.Cursor.{
  Cursor, Wire, encode_cursor, ListOptions, ListError, bad_limit, bad_cursor, internal,
  maximum_limit,
}

pub record Row : Type 0 where
  pub stamp : ℕ
  pub id : ℕ

-- `ORDER BY created_at DESC, id DESC`
unfoldable pub newer : Row → Row → Bool
newer a b = ltb b.stamp a.stamp || (a.stamp == b.stamp && ltb b.id a.id)

unfoldable pub ordered : List Row → List Row
unfolding sort_by
ordered rows = sort_by newer rows

-- `created_at < ? OR (created_at = ? AND id < ?)`
unfoldable pub past_cursor : Option Cursor → Row → Bool
past_cursor none r = true
past_cursor (some c) r = ltb r.stamp c.created_at || (r.stamp == c.created_at && ltb r.id c.id)

-- `listStatement`, over the rows that its joins and the viewer's filters leave.
unfoldable pub list_rows : List Row → ℕ → Option Cursor → List Row
unfolding ordered past_cursor
list_rows rows limit cursor = take (limit + 1) (keep (past_cursor cursor) (ordered rows))

pub record Page : Type 0 where
  pub rows : List Row
  pub next_cursor : Option (List ℕ)

unfoldable pub last_of : Row → List Row → Row
last_of r [] = r
last_of r (s ∷ rows) = last_of s rows

abbrev pub cursor_of : Row → Cursor
cursor_of r = record { created_at = r.stamp; id = r.id }

abbrev pub valid_position : Option Cursor → Bool
valid_position none = true
valid_position (some c) = not (c.id == 0) && not (c.created_at == 0)

module _ (wire : Wire) where
  -- The page of records that filled it, one of them over.
  unfoldable pub full_page : ℕ → List Row → Result ListError Page
  unfolding last_of
  full_page limit records = elim (take limit records) [
    | [] ↦ err internal
    | r ∷ rest ↦ elim (encode_cursor wire (cursor_of (last_of r rest))) [
      | err _ ↦ err internal
      | ok token ↦ ok (record { rows = r ∷ rest; next_cursor = some token })
    ]
  ]

  unfoldable pub page_of : ℕ → List Row → Result ListError Page
  unfolding full_page
  page_of limit records =
      if leb (length records) limit
      then ok (record { rows = records; next_cursor = none })
      else full_page limit records

  -- `Service.List`, given whether the database answers.
  unfoldable pub list_page : Bool → List Row → ListOptions → Result ListError Page
  unfolding list_rows page_of
  list_page answers rows o =
      if ltb o.limit 1 || ltb maximum_limit o.limit
      then err bad_limit
      else if not (valid_position o.cursor)
      then err bad_cursor
      else if not answers
      then err internal
      else page_of o.limit (list_rows rows o.limit o.cursor)
