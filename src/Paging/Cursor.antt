-- ===== src/Paging/Cursor.antt =====
-- Cursors and list options: post/pagination.go and notification/pagination.go. A time is the nanoseconds
-- since the first year, zero being `IsZero`; a text is the list of its bytes.
use go_pulse.Base.{
  ℕ, ◌+◌, ◌-◌, ◌*◌, ◌≤◌, ◌<◌, ◌^◌, ◌≡◌, Bool, true, false, not, ◌&&◌, ◌||◌, Option, none, some,
  List, [], ◌∷◌, Result, ok, err, ◌>>=◌, ◌==◌, ltb, leb, if◌then◌else◌, length, bytes_eq, All,
}
use go_pulse.Paging.Base64.{encode, decode, IsByte}

abbrev pub default_limit : ℕ
default_limit = 20

abbrev pub maximum_limit : ℕ
maximum_limit = 50

abbrev pub cursor_version : ℕ
cursor_version = 1

pub record Cursor : Type 0 where
  pub created_at : ℕ
  pub id : ℕ

-- `cursorPayload`
pub record Payload : Type 0 where
  pub version : ℕ
  pub created_at : List ℕ
  pub id : ℕ

abbrev pub ends_in_z : List ℕ → Bool
ends_in_z [] = false
ends_in_z (c ∷ []) = c == 90
ends_in_z (c ∷ d ∷ cs) = ends_in_z (d ∷ cs)

-- The JSON of a payload, and the text of a time in RFC 3339 with nanoseconds in UTC. `unmarshal` is the
-- strict decoding of one object with known fields only; `last_time` is the end of year 9999.
pub record Wire : Type 0 where
  pub marshal : Payload → List ℕ
  pub unmarshal : List ℕ → Option Payload
  pub format : ℕ → List ℕ
  pub parse : List ℕ → Option ℕ
  pub last_time : ℕ
  pub unmarshal_marshal :
      (t i : ℕ)
      → t < last_time
      → i < 2 ^ 64
      → unmarshal (marshal (record { version = cursor_version; created_at = format t; id = i }))
        ≡ some (record { version = cursor_version; created_at = format t; id = i })
  pub marshal_bytes :
      (t i : ℕ)
      → t < last_time
      → i < 2 ^ 64
      → let text = marshal (record { version = cursor_version; created_at = format t; id = i }) in
        All IsByte text × (0 < length text) × (length text ≤ 128)
  pub parse_format : (t : ℕ) → t < last_time → parse (format t) ≡ some t
  pub format_utc : (t : ℕ) → ends_in_z (format t) ≡ true

pub data CursorError : Type 0 where
  no_position empty too_large not_base64 bad_payload bad_fields bad_timestamp : CursorError

unfoldable pub demand : CursorError → Bool → Result CursorError Bool
demand e holds = if holds then ok true else err e

abbrev pub or_error : {A : Type 0} → CursorError → Option A → Result CursorError A
or_error e none = err e
or_error e (some a) = ok a

module _ (wire : Wire) where
  open wire use {marshal, unmarshal, format, parse}

  -- `EncodeCursor`
  unfoldable pub encode_cursor : Cursor → Result CursorError (List ℕ)
  encode_cursor c =
      if c.id == 0 || c.created_at == 0
      then err no_position
      else ok (
          encode (
            marshal
              (record { version = cursor_version; created_at = format c.created_at; id = c.id })))

  -- `DecodeCursor` of posts
  unfoldable pub decode_cursor : List ℕ → Result CursorError Cursor
  unfolding demand
  decode_cursor token = do
    _ ← demand empty (ltb 0 (length token))
    _ ← demand too_large (leb (length token) 512)
    decoded ← or_error not_base64 (decode token)
    _ ← demand not_base64 (bytes_eq (encode decoded) token)
    payload ← or_error bad_payload (unmarshal decoded)
    _ ← demand bad_fields (
        payload.version == cursor_version
        && (not (payload.id == 0)
            && (ltb 0 (length payload.created_at) && ends_in_z payload.created_at)))
    created_at ← or_error bad_timestamp (parse payload.created_at)
    _ ←
        demand bad_timestamp
          (not (created_at == 0) && bytes_eq (format created_at) payload.created_at)
    ok (record { created_at = created_at; id = payload.id })

  -- `DecodeCursor` of notifications
  unfoldable pub decode_notification_cursor : List ℕ → Result CursorError Cursor
  unfolding demand
  decode_notification_cursor token = do
    _ ← demand not_base64 (ltb 0 (length token) && leb (length token) 512)
    decoded ← or_error not_base64 (decode token)
    _ ← demand not_base64 (bytes_eq (encode decoded) token)
    payload ← or_error bad_payload (unmarshal decoded)
    _ ← demand bad_fields (
        payload.version == cursor_version
        && (not (payload.id == 0) && ends_in_z payload.created_at))
    created_at ← or_error bad_timestamp (parse payload.created_at)
    _ ←
        demand bad_timestamp
          (not (created_at == 0) && bytes_eq (format created_at) payload.created_at)
    ok (record { created_at = created_at; id = payload.id })

-- `decimalDigits`
abbrev pub all_digits : List ℕ → Bool
all_digits [] = true
all_digits (c ∷ cs) = (leb 48 c && leb c 57) && all_digits cs

abbrev pub decimal_digits : List ℕ → Bool
decimal_digits text = ltb 0 (length text) && all_digits text

-- `strconv.ParseUint(text, 10, 8)` of digits.
abbrev pub read_digits : ℕ → List ℕ → ℕ
read_digits n [] = n
read_digits n (c ∷ cs) = read_digits (n * 10 + (c - 48)) cs

unfoldable pub parse_uint8 : List ℕ → Option ℕ
parse_uint8 text = let n = read_digits 0 text in if leb n 255 then some n else none

-- `ListOptions`; what a handler sets apart from the query is not part of it.
pub record ListOptions : Type 0 where
  pub limit : ℕ
  pub cursor : Option Cursor

pub data ListError : Type 0 where
  bad_limit bad_cursor internal : ListError

-- The values that a query has for a name, none if it has not the name.
abbrev pub Values : Type 0
Values = Option (List (List ℕ))

unfoldable pub parse_limit : Values → Result ListError ℕ
unfolding parse_uint8
parse_limit none = ok default_limit
parse_limit (some (text ∷ [])) =
    if not (decimal_digits text) then err bad_limit else (elim (parse_uint8 text) [
      | none ↦ err bad_limit
      | some n ↦ if ltb n 1 || ltb maximum_limit n then err bad_limit else ok n
    ])
parse_limit (some _) = err bad_limit

unfoldable pub parse_cursor :
    (List ℕ → Result CursorError Cursor) → Values → Result ListError (Option Cursor)
parse_cursor decode_with none = ok none
parse_cursor decode_with (some (token ∷ [])) = elim (decode_with token) [
  | ok c ↦ ok (some c)
  | err _ ↦ err bad_cursor
]
parse_cursor decode_with (some _) = err bad_cursor

-- `ParseListOptions`, with the cursors of posts or of notifications.
unfoldable pub parse_list_options :
    (List ℕ → Result CursorError Cursor) → Values → Values → Result ListError ListOptions
unfolding parse_limit parse_cursor
parse_list_options decode_with limits cursors = do
  limit ← parse_limit limits
  cursor ← parse_cursor decode_with cursors
  ok (record { limit = limit; cursor = cursor })
