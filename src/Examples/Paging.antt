-- ===== src/Examples/Paging.antt =====
-- Pagination at concrete inputs, over a wire format of ten bytes and times below ten.
use mathlib.Core.List.{Perm}
use go_pulse.Base.{
  ℕ, ◌+◌, ◌*◌, ◌/◌, ◌%◌, ◌^◌, ◌≤◌, ◌<◌, ◌≡◌, refl, Option, none, some, List, [], ◌∷◌, ok, length,
  arith, All,
}
use go_pulse.Paging.Base64.{IsByte}
use go_pulse.Paging.Cursor.{
  Cursor, Payload, Wire, encode_cursor, decode_cursor, decode_notification_cursor, Values,
  parse_limit, parse_uint8,
}
use go_pulse.Paging.RoundTrip.{InRange, decode_cursor-encode_cursor}
use go_pulse.Paging.Listing.{Row}
use go_pulse.Paging.Order.{Descending}
use go_pulse.Paging.Walk.{walk, Reachable, walk_complete}

-- The eight bytes of an ID, the lowest first.
id_bytes : ℕ → List ℕ
id_bytes i =
    (i % 256)
    ∷ (i / 2 ^ 8 % 256)
    ∷ (i / 2 ^ 16 % 256)
    ∷ (i / 2 ^ 24 % 256)
    ∷ (i / 2 ^ 32 % 256)
    ∷ (i / 2 ^ 40 % 256)
    ∷ (i / 2 ^ 48 % 256)
    ∷ (i / 2 ^ 56 % 256)
    ∷ []

write : Payload → List ℕ
unfolding id_bytes
write p = first p.created_at
  where
    first : List ℕ → List ℕ
    first [] = []
    first (t ∷ _) = t ∷ id_bytes p.id

read : List ℕ → Option Payload
read (t ∷ a ∷ b ∷ c ∷ d ∷ e ∷ f ∷ g ∷ h ∷ []) = some (record {
  version = 1;
  created_at = t ∷ 90 ∷ [];
  id = a + b * 2 ^ 8 + c * 2 ^ 16 + d * 2 ^ 24 + e * 2 ^ 32 + f * 2 ^ 40 + g * 2 ^ 48 + h * 2 ^ 56;
})
read _ = none

parse_time : List ℕ → Option ℕ
parse_time (t ∷ _) = some t
parse_time [] = none

whole :
    (i : ℕ)
    → i < 2 ^ 64
    → i % 256
        + i / 2 ^ 8 % 256 * 2 ^ 8
        + i / 2 ^ 16 % 256 * 2 ^ 16
        + i / 2 ^ 24 % 256 * 2 ^ 24
        + i / 2 ^ 32 % 256 * 2 ^ 32
        + i / 2 ^ 40 % 256 * 2 ^ 40
        + i / 2 ^ 48 % 256 * 2 ^ 48
        + i / 2 ^ 56 % 256 * 2 ^ 56
      ≡ i
whole i h = omega arith

read-write :
    (t i : ℕ)
    → t < 10
    → i < 2 ^ 64
    → read (write (record { version = 1; created_at = t ∷ 90 ∷ []; id = i }))
      ≡ some (record { version = 1; created_at = t ∷ 90 ∷ []; id = i })
unfolding read write id_bytes
read-write t i h k = rw (whole i k) refl

write-bytes :
    (t i : ℕ)
    → t < 10
    → i < 2 ^ 64
    → let text = write (record { version = 1; created_at = t ∷ 90 ∷ []; id = i }) in
      All IsByte text × (0 < length text) × (length text ≤ 128)
unfolding write id_bytes
write-bytes t i h k = (
  (
    omega arith,
    (
      omega arith,
      (
        omega arith,
        (
          omega arith,
          (omega arith, (omega arith, (omega arith, (omega arith, (omega arith, tt))))),
        ),
      ),
    ),
  ),
  omega arith,
  omega arith,
)

ten_bytes : Wire
unfolding write read parse_time id_bytes
ten_bytes = record {
  marshal = write;
  unmarshal = read;
  format = λ t. t ∷ 90 ∷ [];
  parse = parse_time;
  last_time = 10;
  unmarshal_marshal = read-write;
  marshal_bytes = write-bytes;
  parse_format = λ t h. refl;
  format_utc = λ t. refl;
}

abbrev half : Cursor
half = record { created_at = 5; id = 300 }

half-InRange : InRange ten_bytes half
unfolding ten_bytes
half-InRange = record {
  has_id = omega arith;
  id_bits = omega arith;
  has_time = omega arith;
  in_years = omega arith;
}

decode_cursor-encode_cursor_example :
    (token : List ℕ) × (encode_cursor ten_bytes half ≡ ok token)
    × (decode_cursor ten_bytes token ≡ ok half)
    × (decode_notification_cursor ten_bytes token ≡ ok half)
decode_cursor-encode_cursor_example = decode_cursor-encode_cursor ten_bytes half half-InRange

abbrev rows : List Row
rows =
    (record { stamp = 3; id = 1 })
    ∷ (record { stamp = 5; id = 2 })
    ∷ (record { stamp = 3; id = 4 })
    ∷ []

abbrev limits : Values
limits = some ((50 ∷ []) ∷ [])

in_range :
    (t i : ℕ)
    → 0 < t
    → t < 10
    → 0 < i
    → i < 10
    → InRange ten_bytes (record { created_at = t; id = i })
unfolding ten_bytes
in_range t i a b c d = record { has_id = c; id_bits = omega arith; has_time = a; in_years = b }

rows-Reachable : Reachable ten_bytes rows
rows-Reachable = (
  in_range 3 1 (omega arith) (omega arith) (omega arith) (omega arith),
  (
    in_range 5 2 (omega arith) (omega arith) (omega arith) (omega arith),
    (in_range 3 4 (omega arith) (omega arith) (omega arith) (omega arith), tt),
  ),
)

limits_run : parse_limit limits ≡ ok 2
unfolding parse_limit parse_uint8
limits_run = refl

walk_complete_example :
    (seen : List Row) × (walk ten_bytes 4 rows limits none ≡ some seen)
    × Perm seen rows
    × Descending seen
walk_complete_example =
    walk_complete ten_bytes limits 2 rows limits_run ((refl, (refl, tt)), ((refl, tt), (tt, tt)))
      rows-Reachable
