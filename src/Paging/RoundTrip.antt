-- ===== src/Paging/RoundTrip.antt =====
-- Cursors survive the way to the client and back (post/pagination.go, notification/pagination.go).
use go_pulse.Base.{
  ℕ, ◌*◌, ◌≤◌, ◌<◌, ◌^◌, ◌≡◌, refl, true, false, none, some, List, [], ◌∷◌, map, ok, ◌==◌, ltb, leb,
  length, bytes_eq, bytes_eq_refl, arith, Bool-cases, Option-cases, inl, inr,
}
use go_pulse.Paging.Base64.{sextets, digit, encode, decode, decode-encode}
use go_pulse.Paging.Cursor.{
  Cursor, Payload, Wire, cursor_version, ends_in_z, encode_cursor, decode_cursor,
  decode_notification_cursor, Values, parse_limit, parse_uint8, decimal_digits, maximum_limit,
}

length-map : (f : ℕ → ℕ) (xs : List ℕ) → length (map f xs) ≡ length xs
length-map f [] = refl
length-map f (x ∷ xs) = omega (arith, length-map f xs)

length-sextets :
    (text : List ℕ)
    → (length text ≤ length (sextets text)) × (length (sextets text) ≤ 2 * length text)
unfolding sextets
length-sextets [] = (omega arith, omega arith)
length-sextets (x ∷ []) = (omega arith, omega arith)
length-sextets (x ∷ y ∷ []) = (omega arith, omega arith)
length-sextets (x ∷ y ∷ z ∷ rest) = let (lo, hi) = length-sextets rest in (omega arith, omega arith)

length-encode :
    (text : List ℕ)
    → (length text ≤ length (encode text)) × (length (encode text) ≤ 2 * length text)
unfolding encode
length-encode text =
    let (lo, hi) = length-sextets text in
    (omega (arith, length-map digit (sextets text)), omega (arith, length-map digit (sextets text)))

module _ (wire : Wire) where
  open wire use {marshal, unmarshal, format, parse, last_time}

  -- The cursor of a time before the year 10000 with an ID of 64 bits.
  pub record InRange (c : Cursor) : Type 0 where
    pub has_id : 1 ≤ c.id
    pub id_bits : c.id < 2 ^ 64
    pub has_time : 1 ≤ c.created_at
    pub in_years : c.created_at < last_time

  payload_of : Cursor → Payload
  payload_of c = record { version = cursor_version; created_at = format c.created_at; id = c.id }

  -- The steps of `DecodeCursor` on the cursor's own token.
  record Steps (c : Cursor) (token : List ℕ) : Type 0 where
    full : ltb 0 (length token) ≡ true
    short : leb (length token) 512 ≡ true
    decodes : decode token ≡ some (marshal (payload_of c))
    canonical : bytes_eq (encode (marshal (payload_of c))) token ≡ true

  token-Steps : (c : Cursor) → InRange c → Steps c (encode (marshal (payload_of c)))
  unfolding payload_of
  token-Steps c r =
      let (made, some_text, small) = wire.marshal_bytes c.created_at c.id r.in_years r.id_bits in
      let (lo, hi) = length-encode (marshal (payload_of c)) in
      record {
        full = ground (arith, some_text, lo);
        short = ground (arith, small, hi);
        decodes = decode-encode (marshal (payload_of c)) made;
        canonical = bytes_eq_refl (encode (marshal (payload_of c)));
      }

  format_full : (t : ℕ) → ltb 0 (length (format t)) ≡ true
  format_full t = nonempty (format t) (wire.format_utc t)
    where
      nonempty : (cs : List ℕ) → ends_in_z cs ≡ true → ltb 0 (length cs) ≡ true
      nonempty [] h = absurd (cc)
      nonempty (c ∷ cs) h = ground arith

  -- A cursor within range has a token, and the token decodes to the cursor.
  pub decode_cursor-encode_cursor :
      (c : Cursor)
      → InRange c
      → (token : List ℕ) × (encode_cursor wire c ≡ ok token)
        × (decode_cursor wire token ≡ ok c)
        × (decode_notification_cursor wire token ≡ ok c)
  unfolding encode_cursor decode_cursor decode_notification_cursor payload_of
  decode_cursor-encode_cursor c r =
      let steps = token-Steps c r in
      let some_id : (c.id == 0) ≡ false = let h = r.has_id in ground arith in
      let some_time : (c.created_at == 0) ≡ false = let h = r.has_time in ground arith in
      let back = wire.unmarshal_marshal c.created_at c.id r.in_years r.id_bits in
      let parsed = wire.parse_format c.created_at r.in_years in
      (
        encode (marshal (payload_of c)),
        rw (some_id, some_time) refl,
        rw
            (
              steps.full,
              steps.short,
              steps.decodes,
              steps.canonical,
              back,
              some_id,
              format_full c.created_at,
              wire.format_utc c.created_at,
              parsed,
              some_time,
              bytes_eq_refl (format c.created_at),
            )
            refl,
        rw
            (
              steps.full,
              steps.short,
              steps.decodes,
              steps.canonical,
              back,
              some_id,
              wire.format_utc c.created_at,
              parsed,
              some_time,
              bytes_eq_refl (format c.created_at),
            )
            refl,
      )

-- A limit that is accepted is between one and fifty.
pub parse_limit-bounds :
    (limits : Values) (limit : ℕ)
    → parse_limit limits ≡ ok limit
    → (1 ≤ limit) × (limit ≤ maximum_limit)
unfolding parse_limit
parse_limit-bounds none limit h = ground arith
parse_limit-bounds (some []) limit h = absurd (cc)
parse_limit-bounds (some (text ∷ [])) limit h = elim (Bool-cases (decimal_digits text)) [
  | inr bad ↦ absurd (ground (arith, h, bad))
  | inl good ↦ elim (Option-cases (parse_uint8 text)) [
    | inl none_read ↦ absurd (ground (arith, h, good, none_read))
    | inr (n, read) ↦ ground (arith, h, good, read)
  ]
]
parse_limit-bounds (some (text ∷ other ∷ more)) limit h = absurd (cc)
